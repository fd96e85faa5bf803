-- ===== src/Domain/Report.antt =====
-- internal/domain/report.go: statuses, checks and reports.
pub mod Worst
use localclaw.Common.{
  ℕ, ◌+◌, String, List, [], ◌∷◌, if◌then◌else◌, Eq, ◌==◌, string_eq, nat_eq, ltb,
}

pub data Status : Type 0 where
  pass warn fail : Status

pub Status-discrete : Discrete Status
Status-discrete = hlevel

instance unfoldable pub status_eq : Eq Status
unfolding Status-discrete
status_eq = record { dec = Status-discrete }

-- The values of the Go constants, which `>` compares.
abbrev pub rank : Status → ℕ
rank pass = 0
rank warn = 1
rank fail = 2

abbrev pub status_name : Status → String
status_name pass = "pass"
status_name warn = "warn"
status_name fail = "fail"

pub record Check : Type 0 where
  pub name : String
  pub status : Status
  pub summary : String
  pub hint : String

abbrev pub Report : Type 0
Report = List Check

worst_from : Status → Report → Status
worst_from worst [] = worst
worst_from worst (c ∷ cs) =
    worst_from (if ltb (rank worst) (rank c.status) then c.status else worst) cs

unfoldable pub worst : Report → Status
unfolding worst_from
worst r = worst_from pass r

count_from : Status → ℕ → Report → ℕ
count_from s n [] = n
count_from s n (c ∷ cs) = count_from s (if c.status == s then n + 1 else n) cs

unfoldable pub count : Status → Report → ℕ
unfolding count_from
count s r = count_from s 0 r
