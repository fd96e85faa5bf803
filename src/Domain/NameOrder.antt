-- ===== src/Domain/NameOrder.antt =====
-- sort.Slice of the entries by name. Go compares strings by bytes, which for UTF-8 is the order of
-- the code points.
pub mod Sorting
use localclaw.Common.{
  ℕ, String, Bool, true, false, ◌&&◌, List, [], ◌∷◌, if◌then◌else◌, ◌==◌, string_eq, nat_eq, ltb,
  codes,
}
use localclaw.Domain.Secret.{SecretSpec}

unfoldable pub codes_le : List ℕ → List ℕ → Bool
codes_le [] ds = true
codes_le (c ∷ cs) [] = false
codes_le (c ∷ cs) (d ∷ ds) = if ltb c d then true else c == d && codes_le cs ds

unfoldable pub name_le : String → String → Bool
unfolding codes_le
name_le a b = codes_le (codes a) (codes b)

unfoldable pub insert_by_name : SecretSpec → List SecretSpec → List SecretSpec
insert_by_name s [] = s ∷ []
insert_by_name s (t ∷ ts) = if name_le s.name t.name then s ∷ t ∷ ts else t ∷ insert_by_name s ts

unfoldable pub sort_by_name : List SecretSpec → List SecretSpec
unfolding insert_by_name name_le
sort_by_name [] = []
sort_by_name (s ∷ ss) = insert_by_name s (sort_by_name ss)
