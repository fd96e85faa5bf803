-- ===== src/App/Init.antt =====
-- internal/app/init.go: the default scaffold and the keychain.
pub mod Calls
pub mod Existing
use localclaw.Common.{
  ℕ, String, Bool, true, not, ◌&&◌, Option, none, some, List, [], ◌∷◌, ◌++◌, if◌then◌else◌, Eq,
  ◌==◌, string_eq, nat_eq, is_nil, join_path,
}
use localclaw.App.Body.{
  M, Body, pure, lift, func, or_return, nil_or_return, call, still_running, ◌>>=◌, ◌>>◌,
}
use localclaw.App.Host.{Host, write_file, open_dir, load_topology, keychain_exists, keychain_create}
use localclaw.Domain.Errors.{Error, is, exist, wrapped, Result}

pub data KeychainState : Type 0 where
  created skipped failed : KeychainState

pub KeychainState-discrete : Discrete KeychainState
KeychainState-discrete = hlevel

instance unfoldable pub keychain_state_eq : Eq KeychainState
unfolding KeychainState-discrete
keychain_state_eq = record { dec = KeychainState-discrete }

pub record KeychainOutcome : Type 0 where
  pub path : String
  pub state : KeychainState
  pub error : Option Error

pub record InitFailure : Type 0 where
  pub path : String
  pub error : Error

-- What the walk has done with the files.
pub record Files : Type 0 where
  pub written : List String
  pub skipped_files : List String
  pub refused : List InitFailure

pub record InitReport : Type 0 where
  pub dir : String
  pub files : Files
  pub open files use *
  pub keychain : Option KeychainOutcome

-- A default file: its slash-separated path, and the bytes that fs.ReadFile gives or its error.
pub record DefaultFile : Type 0 where
  pub path : String
  pub content : Result (List ℕ)

-- r.Ok(); the zero outcome of a run that stopped early has no state that says failed.
unfoldable pub is_ok : InitReport → Bool
is_ok r = is_nil r.refused && elim r.keychain [ none ↦ true | some k ↦ not (k.state == failed) ]

abbrev no_files : Files
no_files = record { written = []; skipped_files = []; refused = [] }

-- Where the answer of WriteFile puts a file.
unfoldable pub sort_file : String → Option Error → Files → Files
sort_file p none fs = record fs { written = fs.written ++ (p ∷ []) }
sort_file p (some e) fs =
    if is exist e
    then record fs { skipped_files = fs.skipped_files ++ (p ∷ []) }
    else record fs { refused = fs.refused ++ (record { path = p; error = e } ∷ []) }

keychain_failed : String → String → Error → KeychainOutcome
keychain_failed path before e = record {
  path = path;
  state = failed;
  error = some (wrapped before e "");
}

module _ {S : Type 0} ⦃H : Host S⦄ where
  -- fs.WalkDir over the files in lexical order, directories left out. The callback's error ends the
  -- walk; the files so far stay in the report.
  write_files :
      String
      → Bool
      → List DefaultFile
      → Files
      → Body S (Files × Option Error) (Files × Option Error)
  unfolding sort_file
  write_files dir force [] fs = pure (fs, none)
  write_files dir force (f ∷ rest) fs = do
    still_running (λ e. (fs, some e))
    content ← or_return (λ e. (fs, some e)) f.content
    problem ← call (write_file (join_path dir f.path) content force)
    write_files dir force rest (sort_file f.path problem fs)

  -- i.keychainStep(ctx, dir)
  unfoldable pub keychain_step : String → M S KeychainOutcome
  unfolding keychain_failed
  keychain_step dir = func (do
    opened ← call (open_dir dir)
    fsys ← or_return (keychain_failed "" "init: topology: ") opened
    loaded ← call (load_topology fsys)
    top ← or_return (keychain_failed "" "init: topology: ") loaded
    answered ← call (keychain_exists top.keychain_path)
    exists ← or_return (keychain_failed top.keychain_path "init: keychain: ") answered
    if exists then pure (record { path = top.keychain_path; state = skipped; error = none }) else do
      problem ← call (keychain_create top.keychain_path)
      nil_or_return (keychain_failed top.keychain_path "init: keychain: ") problem
      pure (record { path = top.keychain_path; state = created; error = none }))

  -- i.Run(ctx, dir, force), over the default files in the order of the walk.
  unfoldable pub init : List DefaultFile → String → Bool → M S (InitReport × Option Error)
  unfolding write_files
  init defaults dir force = func (do
    (fs, problem) ← lift (func (write_files dir force defaults no_files))
    let written : InitReport = record { dir = dir; files = fs; keychain = none }
    nil_or_return (λ e. (written, some (wrapped "init: " e ""))) problem
    outcome ← lift (keychain_step dir)
    let full : InitReport = record { dir = dir; files = fs; keychain = some outcome }
    still_running (λ e. (full, some e))
    pure (full, none))
