-- ===== src/Adapters/Joined/Beneath.antt =====
-- From the calls of a use case to those of the adapters beneath it.
use localclaw.Common.{subst, sym, List, [], ◌∷◌, All-append}
use localclaw.App.Body.{Event, M}
use localclaw.App.Host.{Call, Host}
use localclaw.App.Trace.{Calls, Only, replay}
use localclaw.Adapters.Libraries.{Libraries}
use localclaw.Adapters.Joined.{adapter, joined}

module _ {S : Type 0} ⦃H : Host S⦄ (libs : Libraries) {P Q : Call → Type 0}
    (answered : (c : Call) → P c → Only {S = S} Q (adapter libs c)) where
  replay-Calls :
      (es : List Event) (s : S × List Event)
      → Calls P es
      → Calls Q s.1
      → Calls Q (replay ⦃H = joined libs⦄ es s).1
  unfolding joined
  replay-Calls [] s h k = k
  replay-Calls (e ∷ es) s (h, hs) k =
      replay-Calls es _ hs (All-append (λ e. Q e.call) s.1 _ k ((answered e.call h).at s.0))

  -- A function over the joined ports: what its adapters call, when it starts with nothing called.
  pub beneath-Calls :
      {A : Type 0} (m : M (S × List Event) A)
      → Only ⦃H = joined libs⦄ P m
      → (s : S) → Calls Q (m (s, [])).state.1
  beneath-Calls m h s =
      subst (λ out. Calls Q out.1) (sym (h.linked (s, [])))
        (replay-Calls (m (s, [])).events (s, []) (h.at (s, [])) tt)
