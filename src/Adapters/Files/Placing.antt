-- ===== src/Adapters/Files/Placing.antt =====
-- How WriteFile puts a file in its place.
use localclaw.Common.{
  ℕ, String, ◌<>◌, ◌≡◌, refl, Bool, true, false, not, Option, none, some, List, [], ◌∷◌, string_eq,
  nat_eq, dir_of, base_of,
}
use localclaw.App.Body.{return, func, nil_or_return, call, ◌>>=◌}
use localclaw.App.Host.{Call, Host, system}
use localclaw.Adapters.Files.Moving.{Settled, write_file-Settled}
use localclaw.App.Told.{Told}
use localclaw.App.Trace.{
  Only, Only-pure, Only-return, Only-lift, Only-func, Only-nil_or_return, Only-bind, Only-call,
  Only-answered, Only-ok,
}
use localclaw.Os.{lstat, mkdir_all, create_temp, write, chmod, close, remove, rename}
use localclaw.Domain.Errors.{Error, sentinel, sentinel_eq, failure, wrapped, is, ok, exist}
use localclaw.Adapters.Files.{refusal, or_close, fill, or_remove, write_file}

abbrev pub temp_pattern : String → String
temp_pattern path = "." <> (base_of path <> ".*.tmp")

-- Nothing is written to the path, taken from it or read from it: the temporary file beside it gets
-- the content and is moved there.
abbrev pub Placed : String → String → List ℕ → Call → Type 0
Placed path name content (system (lstat p)) = p ≡ path
Placed path name content (system (mkdir_all d mode)) = d ≡ dir_of path
Placed path name content (system (create_temp d pattern)) = d ≡ dir_of path
Placed path name content (system (write f c)) = (f ≡ name) × (c ≡ content)
Placed path name content (system (chmod f mode)) = f ≡ name
Placed path name content (system (close f)) = f ≡ name
Placed path name content (system (remove f)) = f ≡ name
Placed path name content (system (rename from to)) = (from ≡ name) × (to ≡ path)
Placed path name content _ = ⊥

module _ {S : Type 0} ⦃H : Host S⦄ (path name : String) (content : List ℕ) where
  or_close-Placed : (o : Option Error) → Only {S = S} (Placed path name content) (or_close name o)
  unfolding or_close
  or_close-Placed none = Only-pure tt
  or_close-Placed (some e) =
      Only-bind _ _ (Only-call (system (close name)) refl) λ _. Only-return (some e)

  or_remove-Placed :
      (o : Option Error) → Only {S = S} (Placed path name content) (or_remove path name o)
  unfolding or_remove
  or_remove-Placed none = Only-pure tt
  or_remove-Placed (some e) =
      Only-bind _ _ (Only-call (system (remove name)) refl) λ _. Only-return _

  fill-Placed : Only {S = S} (Placed path name content) (fill name content)
  unfolding fill
  fill-Placed = Only-func _ (
      Only-bind _ _ (Only-call (system (write name content)) (refl, refl)) λ written.
        Only-bind _ _ (or_close-Placed written) λ _.
          Only-bind _ _ (Only-call (system (chmod name 0o644)) refl) λ moded.
            Only-bind _ _ (or_close-Placed moded) λ _. Only-call (system (close name)) refl)

  write_file-Only :
      (overwrite : Bool)
      → ((s : S)
          → (H.answer (system (create_temp (dir_of path) (temp_pattern path))) s).0 ≡ ok name)
      → Only {S = S} (Placed path name content) (write_file path content overwrite)
  unfolding write_file
  write_file-Only overwrite known = Only-func _ (
      Only-bind _ _ (Only-call (system (lstat path)) refl) λ info.
        Only-bind _ _ (Only-nil_or_return _ _) λ _.
          Only-bind _ _ (Only-call (system (mkdir_all (dir_of path) 0o755)) refl) λ made.
            Only-bind _ _ (Only-nil_or_return _ _) λ _.
              Only-answered (system (create_temp (dir_of path) (temp_pattern path))) (ok name) _
                known refl
                (Only-ok _ name _ (
                  Only-bind _ _ (Only-lift _ fill-Placed) λ filled.
                    Only-bind _ _ (or_remove-Placed filled) λ _.
                      Only-bind _ _ (Only-call (system (rename name path)) (refl, refl))
                        λ renamed. Only-bind _ _ (or_remove-Placed renamed) λ _. Only-pure none)))

module _ {S : Type 0} ⦃H : Host S⦄ where
  -- Where the temporary file is `name`, WriteFile writes the content to that file only, and its calls
  -- on the path itself are Lstat and a rename of that file to it. Whatever the file system answers, either WriteFile
  -- returns an error and moves no file; or the temporary file was written, got its mode and was
  -- closed, each without an error, then exactly one rename moved it to the path, and behind that
  -- at most the temporary file is removed: nil is returned exactly if the rename succeeded.
  pub write_file-Placed :
      (path name : String) (content : List ℕ) (overwrite : Bool)
      → ((s : S)
          → (H.answer (system (create_temp (dir_of path) (temp_pattern path))) s).0 ≡ ok name)
      → Only {S = S} (Placed path name content) (write_file path content overwrite)
        × Told {S = S} (Settled path content) (write_file path content overwrite)
  write_file-Placed path name content overwrite known =
      (write_file-Only path name content overwrite known, write_file-Settled path content overwrite)

-- Without overwrite, and where Lstat finds something at the path, WriteFile calls nothing else and
-- returns an error; it is ErrExist, unless a directory was found.
pub write_file_kept :
    {S : Type 0}
    → ⦃H : Host S⦄ → (path : String) (content : List ℕ) (is_dir : Bool) (s : S)
    → (H.answer (system (lstat path)) s).0 ≡ ok is_dir
    → (e : Error) × ((write_file path content false s ≡ record {
      value = some e;
      events =
          record { call = system (lstat path); answer = (H.answer (system (lstat path)) s).0 } ∷ [];
      state = (H.answer (system (lstat path)) s).1;
    })
        × (is exist e ≡ not is_dir))
unfolding write_file refusal func ◌>>=◌ call nil_or_return return is sentinel_eq
write_file_kept path content true s h =
    (failure ("osfs: write " <> (path <> ": is a directory")), (rw h refl, refl))
write_file_kept path content false s h =
    (wrapped ("osfs: write " <> (path <> ": ")) (sentinel exist) "", (rw h refl, refl))
