-- ===== src/Domain/Requirement.antt =====
-- internal/domain/requirement.go: tools that the host must have.
pub mod Accepted
use localclaw.Common.{String, ◌<>◌, not, Option, none, some, [], if◌then◌else◌, string_eq, nat_eq}
use localclaw.Domain.Errors.{Error, is, tool_not_found, text}
use localclaw.Domain.Report.{Check, pass, fail}
use localclaw.Domain.Version.{Version, at_least, version_text}

pub record Requirement : Type 0 where
  pub tool : String
  pub least : Version
  pub install_hint : String

abbrev pub podman_requirement : Requirement
podman_requirement = record {
  tool = "podman";
  least = record { major = 5; minor = 8; patch = 0; raw = [] };
  install_hint = "install Podman 5.8 or newer from https://podman.io/docs/installation";
}

abbrev pub flox_requirement : Requirement
flox_requirement = record {
  tool = "flox";
  least = record { major = 1; minor = 0; patch = 0; raw = [] };
  install_hint = "install Flox from https://flox.dev/docs/install-flox/";
}

-- `none` is a nil error.
unfoldable pub evaluate_tool : Requirement → Version → Option Error → Check
evaluate_tool req found none =
    if not (at_least found req.least)
    then record {
      name = req.tool;
      status = fail;
      summary = version_text found <> (" is older than the minimum " <> version_text req.least);
      hint = req.install_hint;
    }
    else record {
      name = req.tool;
      status = pass;
      summary = version_text found <> (" (minimum " <> (version_text req.least <> ")"));
      hint = "";
    }
evaluate_tool req found (some e) =
    if is tool_not_found e
    then record { name = req.tool; status = fail; summary = "not found"; hint = req.install_hint }
    else record { name = req.tool; status = fail; summary = text e; hint = "" }
