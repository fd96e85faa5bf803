-- ===== src/Domain/Finding.antt =====
-- domain.Finding. The text of a finding stays apart from the values that it shows: a
-- constructor for each format string, over the values that `fmt.Sprintf` puts in.
use localclaw.Common.{ℕ, String, List, string_eq, nat_eq, ℤ}

pub data Message : Type 0 where
  schema_one : ℕ → Message
  schema_wrong : ℕ → ℤ → Message
  provider_unknown : String → Message
  not_positive : ℤ → Message
  bad_volume : String → Message
  unknown_zone : Message
  bad_workload_name : String → Message
  listed_twice : String → Message
  also_listed_under : String → String → Message
  is_missing : String → List String → Message
  not_of_this_zone : String → Message
  bridges_out_of_internal : Message
  unknown_target : String → Message
  bridges_own_zone : Message
  zone_missing : String → Message
  zone_repeated : String → ℕ → Message
  unreachable_internal : Message
  bad_secret_name : String → Message
  collides_with_builtin : String → Message

pub record Finding : Type 0 where
  pub place : String
  pub message : Message
