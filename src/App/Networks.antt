-- ===== src/App/Networks.antt =====
-- internal/app/doctor.go, networksPresent: which of the zone networks exist.
pub mod Calls
use localclaw.Common.{String, Bool, false, List, [], ◌∷◌, string_eq, nat_eq, update}
use localclaw.App.Body.{M, Body, pure, func, or_return, call, still_running, ◌>>=◌, ◌>>◌}
use localclaw.App.Host.{Host, network_exists}
use localclaw.Domain.Errors.{Result, ok, err}
use localclaw.Domain.Role.{Role, network_name}

module _ {S : Type 0} ⦃H : Host S⦄ where
  present_from : List Role → (String → Bool) → Body S (Result (String → Bool)) (String → Bool)
  present_from [] present = pure present
  present_from (r ∷ rs) present = do
    still_running err
    answered ← call (network_exists (network_name r))
    there ← or_return err answered
    present_from rs (update present (network_name r) there)

  -- networksPresent; the map is a function.
  unfoldable pub networks_present : List Role → M S (Result (String → Bool))
  unfolding present_from
  networks_present rs = func (do present ← present_from rs (λ _. false); pure (ok present))
