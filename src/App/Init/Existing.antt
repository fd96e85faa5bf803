-- ===== src/App/Init/Existing.antt =====
-- Init where the keychain is there already.
use localclaw.Common.{String, ◌≡◌, refl, Bool, true, false, List, [], ◌∷◌}
use localclaw.App.Trace.{
  Only, Only-lift, Only-nil_or_return, Only-ok, Only-answered, Only-bind, Only-func, Only-pure,
  only_rules,
}
use localclaw.App.Kinds.{Within, Kind, control, question, file_write}
use localclaw.App.Host.{Host, keychain_exists}
use localclaw.App.Init.{DefaultFile, Files, write_files, keychain_step, keychain_failed, init}
use localclaw.Domain.Errors.{ok}

-- Questions and files.
abbrev pub writes_files : Kind → Bool
writes_files control = true
writes_files question = true
writes_files file_write = true
writes_files _ = false

module _ {S : Type 0} ⦃H : Host S⦄ where
  write_files-Writes :
      (dir : String) (force : Bool) (files : List DefaultFile) (fs : Files)
      → Only {S = S} (Within writes_files) (write_files dir force files fs)
  unfolding write_files
  write_files-Writes dir force [] fs = search only_rules
  write_files-Writes dir force (f ∷ rest) fs =
      let ih = write_files-Writes dir force rest in search (only_rules, ih) depth 14

  keychain_step-Writes :
      (dir : String)
      → ((path : String) (s : S) → (H.answer (keychain_exists path) s).0 ≡ ok true)
      → Only {S = S} (Within writes_files) (keychain_step dir)
  unfolding keychain_step
  keychain_step-Writes dir there = Only-func _ (
      Only-bind _ _ (search only_rules) λ opened. Only-bind _ _ (search only_rules) λ fsys.
        Only-bind _ _ (search only_rules) λ loaded. Only-bind _ _ (search only_rules) λ top.
          Only-answered (keychain_exists top.keychain_path) (ok true) _ (there top.keychain_path)
            refl
            (Only-ok (keychain_failed top.keychain_path "init: keychain: ") true _ (Only-pure _)))

  -- When every call of Exists answers that the keychain is there, `lclaw init` makes no keychain and
  -- writes nothing but files, whatever the other ports answer, and also with force.
  pub init-Writes :
      (defaults : List DefaultFile) (dir : String) (force : Bool)
      → ((path : String) (s : S) → (H.answer (keychain_exists path) s).0 ≡ ok true)
      → Only {S = S} (Within writes_files) (init defaults dir force)
  unfolding init
  init-Writes defaults dir force there = Only-func _ (
      Only-bind _ _ (Only-lift _ (Only-func _ (write_files-Writes dir force defaults _))) λ x.
        Only-bind _ _ (Only-nil_or_return _ x.1) λ _.
          Only-bind _ _ (Only-lift _ (keychain_step-Writes dir there))
            λ outcome. search only_rules depth 12)
