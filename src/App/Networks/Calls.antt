-- ===== src/App/Networks/Calls.antt =====
-- networksPresent only asks.
use localclaw.Common.{String, Bool, List, [], ◌∷◌, string_eq, nat_eq}
use localclaw.App.Trace.{Only, only_rules}
use localclaw.App.Kinds.{Asks}
use localclaw.App.Host.{Host}
use localclaw.App.Networks.{networks_present, present_from}
use localclaw.Domain.Role.{Role}

module _ {S : Type 0} ⦃H : Host S⦄ where
  present_from-Asks :
      (rs : List Role) (present : String → Bool) → Only {S = S} Asks (present_from rs present)
  unfolding present_from
  present_from-Asks [] present = search only_rules
  present_from-Asks (r ∷ rs) present =
      let ih = present_from-Asks rs in search (only_rules, ih) depth 9

  pub networks_present-Asks : (rs : List Role) → Only {S = S} Asks (networks_present rs)
  unfolding networks_present
  networks_present-Asks rs = search (only_rules, present_from-Asks) depth 9
