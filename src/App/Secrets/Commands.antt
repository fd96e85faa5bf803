-- ===== src/App/Secrets/Commands.antt =====
-- internal/app/secrets.go, the commands: List, Describe, Set, Update, Delete and Get.
pub mod Calls
pub mod Stores
pub mod Gate
use localclaw.Common.{
  ℕ, String, ◌<>◌, Bool, true, false, not, Option, none, some, List, [], ◌∷◌, ◌++◌, if◌then◌else◌,
  ◌==◌, string_eq, nat_eq, quote,
}
use localclaw.App.Body.{
  M, Body, pure, lift, func, or_return, nil_or_return, call, still_running, ◌>>=◌, ◌>>◌,
}
use localclaw.App.Host.{
  Host, keychain_describe, keychain_put, keychain_delete, keychain_get, remove_secret,
}
use localclaw.App.Secrets.{
  stored, removed, StoreOutcome, SecretStatus, SecretDetail, Outcome, just, broken, prepare,
  require_keychain, lookup_spec, inspect, push, produce, store_state_eq,
}
use localclaw.Domain.Errors.{
  Error, sentinel, is, wrapped, secret_not_found, secret_exists, not_generatable, Result, ok, err,
}
use localclaw.Domain.Secret.{SecretSpec, Source, SecretItem, user, source_eq, validate_value}

-- The row of an entry, from what Describe answers.
status_row : SecretSpec → Result SecretItem → Result SecretStatus
status_row spec (ok item) = ok (record { spec = spec; source = item.source; set = true })
status_row spec (err e) =
    if is secret_not_found e
    then ok (record { spec = spec; source = spec.source; set = false })
    else err (wrapped ("secrets: describe " <> (spec.name <> ": ")) e "")

detail_row : SecretSpec → Result SecretItem → Result (SecretStatus × ℕ × ℕ)
detail_row spec (ok item) =
    ok (record { spec = spec; source = item.source; set = true }, item.created, item.modified)
detail_row spec (err e) =
    if is secret_not_found e
    then ok (record { spec = spec; source = spec.source; set = false }, 0, 0)
    else err (wrapped ("secrets: describe " <> (spec.name <> ": ")) e "")

-- An error of the keychain, which a sentinel among its causes words in another way.
put_error : String → Error → Error
put_error name e =
    if is secret_exists e
    then wrapped "" (sentinel secret_exists)
        (": " <> (quote name <> ("; run `lclaw secrets update " <> (name <> "` to replace it"))))
    else wrapped ("secrets: set " <> (name <> ": ")) e ""

not_set : String → String → String → Error → Error
not_set verb hint name e =
    if is secret_not_found e
    then wrapped "" (sentinel secret_not_found) (": " <> (quote name <> (" is not set" <> hint)))
    else wrapped ("secrets: " <> (verb <> (" " <> (name <> ": ")))) e ""

-- What --generate refuses, the source of the new value, and the test of a value that is given.
update_source : SecretSpec → String → List ℕ → Bool → Result Source
update_source spec name value true =
    if spec.source == user
    then err (
        wrapped "" (sentinel not_generatable)
          (": " <> (quote name <> " is user-supplied and has nothing to generate")))
    else if not spec.rotatable
    then err (wrapped "" (sentinel not_generatable) (": " <> (quote name <> " may not be rotated")))
    else ok spec.source
update_source spec name value false = elim (validate_value value) [
  | none ↦ ok user
  | some e ↦ err e
]

rotation_warning : SecretSpec → String → String
rotation_warning spec name =
    if spec.rotatable
    then ""
    else name
      <> " may not be rotated: the next `lclaw up` generates a new value and anything encrypted with the old one becomes unreadable"

abbrev removed_unless : Option Error → StoreOutcome
removed_unless none = just removed
removed_unless (some e) = broken e

module _ {S : Type 0} ⦃H : Host S⦄ where
  list_rows :
      String
      → List SecretSpec
      → List SecretStatus
      → Body S (Result (List SecretStatus)) (List SecretStatus)
  unfolding status_row
  list_rows path [] out = pure out
  list_rows path (spec ∷ specs) out = do
    still_running err
    item ← call (keychain_describe path spec.name)
    row ← or_return err (status_row spec item)
    list_rows path specs (out ++ (row ∷ []))

  unfoldable pub list_secrets : String → M S (Result (List SecretStatus))
  unfolding list_rows
  list_secrets dir = func (do
    prepared ← lift (prepare dir)
    (topo, cat) ← or_return err prepared
    gate ← lift (require_keychain topo.keychain_path)
    nil_or_return err gate
    rows ← list_rows topo.keychain_path cat []
    pure (ok rows))

  unfoldable pub describe : String → String → M S (Result SecretDetail)
  unfolding detail_row
  describe dir name = func (do
    prepared ← lift (prepare dir)
    (topo, cat) ← or_return err prepared
    spec ← or_return err (lookup_spec cat dir name)
    gate ← lift (require_keychain topo.keychain_path)
    nil_or_return err gate
    item ← call (keychain_describe topo.keychain_path name)
    (status, created, modified) ← or_return err (detail_row spec item)
    held ← lift (inspect name)
    pure (ok (record { status = status; created = created; modified = modified; store = held })))

  unfoldable pub set : String → String → List ℕ → M S (Result Outcome)
  unfolding put_error
  set dir name value = func (do
    prepared ← lift (prepare dir)
    (topo, cat) ← or_return err prepared
    spec ← or_return err (lookup_spec cat dir name)
    nil_or_return err (validate_value value)
    gate ← lift (require_keychain topo.keychain_path)
    nil_or_return err gate
    problem ← call (keychain_put topo.keychain_path name value user false)
    nil_or_return (λ e. err (put_error name e)) problem
    lift (push spec value))

  abbrev new_value : SecretSpec → List ℕ → Bool → M S (Result (List ℕ))
  new_value spec value true = produce spec
  new_value spec value false = func (pure (ok value))

  unfoldable pub update : String → String → List ℕ → Bool → M S (Result Outcome)
  unfolding not_set update_source
  update dir name value generate = func (do
    prepared ← lift (prepare dir)
    (topo, cat) ← or_return err prepared
    spec ← or_return err (lookup_spec cat dir name)
    source ← or_return err (update_source spec name value generate)
    gate ← lift (require_keychain topo.keychain_path)
    nil_or_return err gate
    item ← call (keychain_describe topo.keychain_path name)
    _ ←
        or_return
          (λ e. err (not_set "update" ("; run `lclaw secrets set " <> (name <> "` first")) name e))
          item
    made ← lift (new_value spec value generate)
    fresh ← or_return (λ e. err (wrapped ("secrets: update " <> (name <> ": ")) e "")) made
    problem ← call (keychain_put topo.keychain_path name fresh source true)
    nil_or_return (λ e. err (wrapped ("secrets: update " <> (name <> ": ")) e "")) problem
    lift (push spec fresh))

  -- What happens in the store of the machine, from what inspect found.
  drop_stored : String → StoreOutcome → M S StoreOutcome
  drop_stored name held = func (
      if not (held.state == stored)
      then pure held
      else do problem ← call (remove_secret name); pure (removed_unless problem))

  unfoldable pub delete : String → String → M S (Result Outcome)
  unfolding not_set drop_stored rotation_warning
  delete dir name = func (do
    prepared ← lift (prepare dir)
    (topo, cat) ← or_return err prepared
    spec ← or_return err (lookup_spec cat dir name)
    gate ← lift (require_keychain topo.keychain_path)
    nil_or_return err gate
    problem ← call (keychain_delete topo.keychain_path name)
    nil_or_return (λ e. err (not_set "delete" "" name e)) problem
    held ← lift (inspect name)
    left ← lift (drop_stored name held)
    pure (ok (record { name = name; store = left; warning = rotation_warning spec name })))

  unfoldable pub get : String → String → M S (Result (List ℕ))
  unfolding not_set
  get dir name = func (do
    prepared ← lift (prepare dir)
    (topo, cat) ← or_return err prepared
    _ ← or_return err (lookup_spec cat dir name)
    gate ← lift (require_keychain topo.keychain_path)
    nil_or_return err gate
    answered ← call (keychain_get topo.keychain_path name)
    value ← or_return (λ e. err (not_set "get" "" name e)) answered
    pure (ok value))
