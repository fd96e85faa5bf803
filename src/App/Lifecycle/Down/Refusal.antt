-- ===== src/App/Lifecycle/Down/Refusal.antt =====
-- `lclaw down --destroy` with a selection of zones.
use localclaw.Common.{ℕ, String, ◌≢◌, true, false, not, ◌&&◌, List, [], arith, ◌==◌, nat_eq, length}
use localclaw.App.Trace.{
  Only, Only-bind, Only-func, Only-lift, Only-or_return, Only-return, Only-split,
}
use localclaw.App.Kinds.{Asks}
use localclaw.App.Host.{Host}
use localclaw.App.Lifecycle.Calls.{load-Asks}
use localclaw.App.Lifecycle.Down.{down, ended}
use localclaw.Domain.Role.{Role, roles}

is_partial : (n : ℕ) → n ≢ 3 → (true && not (n == 3)) ≢ false
is_partial n part = ground (arith, part)

module _ {S : Type 0} ⦃H : Host S⦄ where
  -- With destroy and not exactly three zones selected, `lclaw down` changes nothing on the host,
  -- whatever the ports answer.
  pub down-partial :
      (dir : String) (selected : List Role)
      → length selected ≢ 3
      → Only {S = S} Asks (down dir selected true)
  unfolding down
  down-partial dir selected part = Only-func _ (
      Only-bind _ _ (Only-lift _ (load-Asks dir)) λ l.
        Only-bind _ _ (Only-or_return (ended []) l) λ x.
          Only-split (true && not (length selected == length roles)) _ _ (λ h. Only-return _)
            λ h. absurd (is_partial (length selected) part h))
