-- ===== src/App/Init/Calls.antt =====
-- The calls of Init.
use localclaw.Common.{String, Bool, true, false, List, [], ◌∷◌, string_eq, nat_eq}
use localclaw.App.Trace.{Only, only_rules}
use localclaw.App.Kinds.{Within, Kind, control, question, file_write, keychain_new}
use localclaw.App.Host.{Host}
use localclaw.App.Init.{DefaultFile, Files, write_files, keychain_step, init}

-- Questions, files and a new keychain.
abbrev pub sets_up : Kind → Bool
sets_up control = true
sets_up question = true
sets_up file_write = true
sets_up keychain_new = true
sets_up _ = false

module _ {S : Type 0} ⦃H : Host S⦄ where
  write_files-SetsUp :
      (dir : String) (force : Bool) (files : List DefaultFile) (fs : Files)
      → Only {S = S} (Within sets_up) (write_files dir force files fs)
  unfolding write_files
  write_files-SetsUp dir force [] fs = search only_rules
  write_files-SetsUp dir force (f ∷ rest) fs =
      let ih = write_files-SetsUp dir force rest in search (only_rules, ih) depth 14

  keychain_step-SetsUp : (dir : String) → Only {S = S} (Within sets_up) (keychain_step dir)
  unfolding keychain_step
  keychain_step-SetsUp dir = search only_rules depth 20

  -- Whatever the ports answer, and with or without force, `lclaw init` writes scaffold files and at
  -- most makes a keychain: it writes, reads and removes no keychain item and leaves the machine alone.
  pub init-SetsUp :
      (defaults : List DefaultFile) (dir : String) (force : Bool)
      → Only {S = S} (Within sets_up) (init defaults dir force)
  unfolding init
  init-SetsUp defaults dir force =
      search (only_rules, write_files-SetsUp, keychain_step-SetsUp) depth 20
