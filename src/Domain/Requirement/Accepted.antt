-- ===== src/Domain/Requirement/Accepted.antt =====
-- internal/domain/requirement.go: when the check of a tool passes.
use localclaw.Common.{◌≡◌, refl, ◌↔◌, Option, none, some, arith, string_eq, nat_eq}
use localclaw.Domain.Errors.{Error}
use localclaw.Domain.Report.{pass}
use localclaw.Domain.Requirement.{Requirement, evaluate_tool}
use localclaw.Domain.Version.{Version}
use localclaw.Domain.Version.Order.{Above, at_least_iff}

accepted :
    (req : Requirement) (found : Version)
    → ((evaluate_tool req found none).status ≡ pass) ↔ Above found req.least
unfolding evaluate_tool
accepted req found = ground (arith, at_least_iff found req.least)

-- The check of a tool passes exactly when its version was read without an error and is at least the
-- required one, in the order of major, minor and patch.
pub evaluate_tool_iff :
    (req : Requirement) (found : Version) (e : Option Error)
    → ((evaluate_tool req found e).status ≡ pass) ↔ ((e ≡ none) × Above found req.least)
evaluate_tool_iff req found none =
    (λ h. (refl, (accepted req found).0 h), λ h. (accepted req found).1 h.1)
evaluate_tool_iff req found (some e) = unfold evaluate_tool in ground arith
