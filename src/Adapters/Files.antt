-- ===== src/Adapters/Files.antt =====
-- internal/adapters/osfs/system.go.
pub mod Moving
pub mod Placing
use localclaw.Common.{
  ℕ, zero, suc, ◌+◌, ◌-◌, ◌*◌, ◌/◌, ◌%◌, ◌^◌, ◌≤◌, ◌<◌, String, ◌<>◌, ◌≡◌, refl, sym, ap, ◌∙◌,
  subst, ◌≢◌, ◌↔◌, ◌⊎◌, inl, inr, Bool, true, false, not, ◌&&◌, ◌||◌, Option, none, some, List, [],
  ◌∷◌, ◌++◌, map, arith, if◌then◌else◌, Eq, ◌==◌, contains, string_eq, nat_eq, ltb, leb, Bool-cases,
  Option-cases, length, is_nil, select, find, reversed, length-append, All, All-append, Distinct,
  contains-append, codes, join, width, byte_len, join_path, dir_of, base_of, is_abs, clean,
  is_digit, is_lower, itoa, itoa_ℤ, ℤ, pos, negsuc, is_pos, quote, trim_space, split, join_lines,
  same_text, take, drop, cut_prefix, has_prefix, contains_text, before, behind_first, before_last,
  fields, text_of, is_space,
}
use localclaw.App.Body.{
  on_error, and_then, Event, Run, Flow, next, done, M, Body, pure, return, lift, func, or_return,
  nil_or_return, call, still_running, ◌>>=◌, ◌>>◌,
}
use localclaw.App.Host.{Host, system, Directory}
use localclaw.Os.{stat, lstat, mkdir_all, create_temp, write, chmod, close, remove, rename, dir_fs}
use localclaw.Domain.Errors.{
  Error, sentinel, failure, wrapped, is, Result, ok, err, exist, not_exist,
}

-- What WriteFile makes of os.Lstat's answer.
unfoldable pub refusal : String → Bool → Result Bool → Option Error
refusal path overwrite (ok true) = some (failure ("osfs: write " <> (path <> ": is a directory")))
refusal path overwrite (ok false) =
    if overwrite
    then none
    else some (wrapped ("osfs: write " <> (path <> ": ")) (sentinel exist) "")
refusal path overwrite (err e) =
    if is not_exist e then none else some (wrapped ("osfs: write " <> (path <> ": ")) e "")

module _ {S : Type 0} ⦃H : Host S⦄ where
  -- `if err != nil { f.Close(); return err }`
  or_close : String → Option Error → Body S (Option Error) (Unit {0})
  or_close f none = pure tt
  or_close f (some e) = do call (system (close f)); return (some e)

  -- fill(f, data)
  unfoldable pub fill : String → List ℕ → M S (Option Error)
  unfolding or_close
  fill f content = func (do
    written ← call (system (write f content))
    or_close f written
    moded ← call (system (chmod f 0o644))
    or_close f moded
    call (system (close f)))

  -- `if err != nil { os.Remove(name); return … }`
  or_remove : String → String → Option Error → Body S (Option Error) (Unit {0})
  or_remove path name none = pure tt
  or_remove path name (some e) = do
    call (system (remove name))
    return (some (wrapped ("osfs: write " <> (path <> ": ")) e ""))

  -- OpenDir(dir)
  unfoldable pub open_dir : String → M S (Result Directory)
  open_dir dir = func (do
    answer ← call (system (stat dir))
    is_dir ← or_return (λ e. err (wrapped ("osfs: open " <> (dir <> ": ")) e "")) answer
    if is_dir
        then pure tt
        else return (err (failure ("osfs: open " <> (dir <> ": not a directory"))))
    fsys ← call (system (dir_fs dir))
    pure (ok fsys))

  -- WriteFile(path, data, overwrite)
  unfoldable pub write_file : String → List ℕ → Bool → M S (Option Error)
  unfolding refusal fill or_remove
  write_file path content overwrite = func (do
    info ← call (system (lstat path))
    nil_or_return some (refusal path overwrite info)
    made ← call (system (mkdir_all (dir_of path) 0o755))
    nil_or_return (λ e. some (wrapped ("osfs: write " <> (path <> ": ")) e "")) made
    answer ← call (system (create_temp (dir_of path) ("." <> (base_of path <> ".*.tmp"))))
    name ← or_return (λ e. some (wrapped ("osfs: write " <> (path <> ": ")) e "")) answer
    filled ← lift (fill name content)
    or_remove path name filled
    renamed ← call (system (rename name path))
    or_remove path name renamed
    pure none)
