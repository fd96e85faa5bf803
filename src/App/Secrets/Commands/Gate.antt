-- ===== src/App/Secrets/Commands/Gate.antt =====
-- The secrets commands touch the keychain behind its gate only.
use localclaw.Common.{ℕ, String, Bool, true, false, List, [], ◌∷◌, string_eq, nat_eq}
use localclaw.App.Gate.{Opened, nothing, opened, Gated, Accepts, gated_rules}
use localclaw.App.Host.{Host}
use localclaw.App.Secrets.{SecretStatus}
use localclaw.App.Secrets.Gate.{prepare-Gated, inspect-Gated, push-Gated, produce-Gated}
use localclaw.App.Secrets.Commands.{
  list_rows, list_secrets, describe, set, update, delete, get, new_value,
}
use localclaw.Domain.Secret.{SecretSpec}

module _ {S : Type 0} ⦃H : Host S⦄ where
  list_rows-Gated :
      (path : String) (specs : List SecretSpec) (out : List SecretStatus)
      → Gated {S = S} (opened path) (list_rows path specs out)
  unfolding list_rows
  list_rows-Gated path [] out = search gated_rules
  list_rows-Gated path (spec ∷ specs) out =
      let ih = list_rows-Gated path specs in search (gated_rules, ih) depth 12

  new_value-Gated :
      {k : Opened} (spec : SecretSpec) (value : List ℕ) (generate : Bool)
      → Gated {S = S} k (new_value spec value generate)
  new_value-Gated spec value true = produce-Gated spec
  new_value-Gated spec value false = search gated_rules

  list_secrets-Gated : (dir : String) → Gated {S = S} nothing (list_secrets dir)
  unfolding list_secrets
  list_secrets-Gated dir = search (gated_rules, prepare-Gated, list_rows-Gated) depth 20

  describe-Gated : (dir name : String) → Gated {S = S} nothing (describe dir name)
  unfolding describe
  describe-Gated dir name = search (gated_rules, prepare-Gated, inspect-Gated) depth 24

  set-Gated : (dir name : String) (value : List ℕ) → Gated {S = S} nothing (set dir name value)
  unfolding set
  set-Gated dir name value = search (gated_rules, prepare-Gated, push-Gated) depth 24

  update-Gated :
      (dir name : String) (value : List ℕ) (generate : Bool)
      → Gated {S = S} nothing (update dir name value generate)
  unfolding update
  update-Gated dir name value generate =
      search (gated_rules, prepare-Gated, push-Gated, new_value-Gated) depth 28

  delete-Gated : (dir name : String) → Gated {S = S} nothing (delete dir name)
  unfolding delete
  delete-Gated dir name = search (gated_rules, prepare-Gated, inspect-Gated) depth 28

  get-Gated : (dir name : String) → Gated {S = S} nothing (get dir name)
  unfolding get
  get-Gated dir name = search (gated_rules, prepare-Gated) depth 24

  -- For every keychain `p`: whatever the ports answer, none of the six secrets commands reads,
  -- describes, writes or deletes an item of `p` before a call of Exists has said that `p` is there.
  pub commands-Accepts :
      (dir name : String) (value : List ℕ) (generate : Bool) (p : String) (s : S)
      → Accepts p false (list_secrets dir s).events
        × Accepts p false (describe dir name s).events
        × Accepts p false (set dir name value s).events
        × Accepts p false (update dir name value generate s).events
        × Accepts p false (delete dir name s).events
        × Accepts p false (get dir name s).events
  commands-Accepts dir name value generate p s = (
    (list_secrets-Gated dir).at p false s tt,
    (describe-Gated dir name).at p false s tt,
    (set-Gated dir name value).at p false s tt,
    (update-Gated dir name value generate).at p false s tt,
    (delete-Gated dir name).at p false s tt,
    (get-Gated dir name).at p false s tt,
  )
