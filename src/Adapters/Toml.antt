-- ===== src/Adapters/Toml.antt =====
-- internal/adapters/toml/loader.go. What decodes the text is a parameter.
pub mod Zones
pub mod Ordered
use localclaw.Common.{
  ℕ, zero, suc, ◌+◌, ◌-◌, ◌*◌, ◌/◌, ◌%◌, ◌^◌, ◌≤◌, ◌<◌, String, ◌<>◌, ◌≡◌, refl, sym, ap, ◌∙◌,
  subst, ◌≢◌, ◌↔◌, ◌⊎◌, inl, inr, Bool, true, false, not, ◌&&◌, ◌||◌, Option, none, some, List, [],
  ◌∷◌, ◌++◌, map, arith, if◌then◌else◌, Eq, ◌==◌, contains, string_eq, nat_eq, ltb, leb, Bool-cases,
  Option-cases, length, is_nil, select, find, reversed, length-append, All, All-append, Distinct,
  contains-append, codes, join, width, byte_len, join_path, dir_of, base_of, is_abs, clean,
  is_digit, is_lower, itoa, itoa_ℤ, ℤ, pos, negsuc, is_pos, quote, trim_space, split, join_lines,
  same_text, take, drop, cut_prefix, has_prefix, contains_text, before, behind_first, before_last,
  fields, text_of, is_space,
}
use localclaw.App.Body.{
  on_error, and_then, Event, Run, Flow, next, done, M, Body, pure, return, lift, func, or_return,
  nil_or_return, call, still_running, ◌>>=◌, ◌>>◌,
}
use localclaw.App.Host.{Host, system, Directory}
use localclaw.Os.{read_file, home_dir}
use localclaw.Domain.Errors.{Error, failure, wrapped, Result, ok, err}
use localclaw.Domain.NameOrder.{name_le}
use localclaw.Domain.Role.{Role, role_name, roles}
use localclaw.Domain.Topology.{Topology, ZoneSpec, topology_file}
use localclaw.Adapters.Libraries.{MachineTable, ZoneTable, File, Libraries}
use Prim.Native.Char.{code}

abbrev pub default_keychain_path : String
default_keychain_path = "~/Library/Keychains/lclaw.keychain-db"

-- p[2:] where `p` starts with "~/".
unfoldable pub home_relative : String → Option String
home_relative String.[] = none
home_relative (String.◌∷◌ c String.[]) = none
home_relative (String.◌∷◌ c (String.◌∷◌ d s)) =
    if code c == b'~' && code d == b'/' then some s else none

rank_in : List Role → ℕ → String → ℕ
rank_in [] i name = i
rank_in (r ∷ rs) i name =
    let rest = rank_in rs (suc i) name in if role_name r == name then i else rest

-- roleRank(name)
unfoldable pub role_rank : String → ℕ
unfolding rank_in
role_rank name = rank_in roles 0 name

-- The order of the names of the zones.
unfoldable pub zone_le : String → String → Bool
unfolding role_rank
zone_le a b = if role_rank a == role_rank b then name_le a b else ltb (role_rank a) (role_rank b)

abbrev pub spec_of : String × ZoneTable → ZoneSpec
spec_of (name, z) = record {
  name = name;
  internal = z.internal;
  workloads = z.workloads;
  secrets = z.secrets;
  bridges = z.bridges;
}

unfoldable pub insert_zone : ZoneSpec → List ZoneSpec → List ZoneSpec
unfolding zone_le
insert_zone z [] = z ∷ []
insert_zone z (y ∷ ys) = if zone_le z.name y.name then z ∷ y ∷ ys else y ∷ insert_zone z ys

-- The zones by sort.Slice of their names, no two of which are the same.
unfoldable pub zones_of : List (String × ZoneTable) → List ZoneSpec
unfolding insert_zone
zones_of [] = []
zones_of (entry ∷ rest) = insert_zone (spec_of entry) (zones_of rest)

bad_path : String → String → String
bad_path raw rest = topology_file <> (": keychain path " <> (quote raw <> rest))

-- The end of keychainPath.
unfoldable pub absolute : String → String → Result String
unfolding bad_path
absolute raw p =
    if is_abs p
    then ok (clean p)
    else err (failure (bad_path raw " must be absolute or start with ~/"))

module _ {S : Type 0} ⦃H : Host S⦄ where
  -- `p` behind `if strings.HasPrefix(p, "~/")`
  unfoldable pub expand : String → Option String → M S (Result String)
  unfolding bad_path
  expand raw none = func (pure (ok raw))
  expand raw (some rest) = func (do
    answer ← call (system home_dir)
    home ← or_return (λ e. err (wrapped (bad_path raw ": ") e "")) answer
    pure (ok (join_path home rest)))

  -- keychainPath(p)
  unfoldable pub keychain_path : String → M S (Result String)
  unfolding expand home_relative absolute
  keychain_path p = func (do
    raw ← pure (if p == "" then default_keychain_path else p)
    expanded ← lift (expand raw (home_relative raw))
    path ← or_return err expanded
    pure (absolute raw path))

  -- toDomain(f)
  unfoldable pub to_domain : File → M S (Result Topology)
  unfolding keychain_path zones_of
  to_domain f = func (do
    answer ← lift (keychain_path f.keychain_path)
    path ← or_return err answer
    pure (
        ok (record {
          schema = f.schema;
          provider = f.provider;
          keychain_path = path;
          machine = record {
            cpus = f.machine.cpus;
            memory_mib = f.machine.memory_mib;
            disk_gib = f.machine.disk_gib;
            volumes = f.machine.volumes;
          };
          zones = zones_of f.zones;
        })))

  -- Load(scaffold)
  unfoldable pub load : Libraries → Directory → M S (Result Topology)
  unfolding to_domain
  load libs scaffold = func (do
    answer ← call (system (read_file scaffold topology_file))
    data_read ←
        or_return (λ e. err (wrapped ("toml: read " <> (topology_file <> ": ")) e "")) answer
    (f, undecoded) ←
        or_return (λ e. err (wrapped (topology_file <> ": ") e "")) (libs.decode_toml data_read)
    if is_nil undecoded
        then pure tt
        else return (err (failure (topology_file <> (": unknown keys: " <> join undecoded))))
    lift (to_domain f))
