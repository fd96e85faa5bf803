-- ===== src/Tests/Lines.antt =====
-- The theorems on the command line, at concrete data.
use localclaw.Common.{ℕ, true, false, [], ◌∷◌, arith, string_eq, nat_eq}
use localclaw.Tests.Ports.{fixed_host}
use localclaw.Cli.Commands.{Renderings}
use localclaw.Cli.Secrets.{
  describe_command, set_command, update_command, delete_command, get_command,
}
use localclaw.Cli.Secrets.Refused.{Refuses, name_refused}
use localclaw.Cli.Values.{Invocation}

abbrev no_views : Renderings
no_views = record {
  report = λ r. "{}";
  list = λ rows. "{}";
  detail = λ d. "{}";
  outcome = λ verb o. "{}";
  show_time = λ t. "";
  show_finding = λ f. f.place;
}

abbrev two_names : Invocation
two_names = record {
  args = "a" ∷ "b" ∷ [];
  destroy = false;
  force = false;
  from_file = "";
  generate = false;
  dir = "lc";
  output = "text";
  has_prompt = false;
  has_stdin = true;
}

name_refused_example :
    Refuses {S = ℕ} two_names.args (describe_command two_names no_views) 0
    × (Refuses {S = ℕ} two_names.args (set_command two_names no_views) 0
        × (Refuses {S = ℕ} two_names.args (update_command two_names no_views) 0
            × (Refuses {S = ℕ} two_names.args (delete_command two_names no_views) 0
                × Refuses {S = ℕ} two_names.args (get_command two_names no_views) 0)))
name_refused_example = name_refused two_names no_views 0 (λ h. omega (arith, h))
