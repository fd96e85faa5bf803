-- ===== src/Domain/Secret/Sources.antt =====
-- internal/domain/secret.go: the names of the sources.
use localclaw.Common.{String, ◌≡◌, refl, sym, subst, ◌↔◌, some, arith, string_eq, nat_eq}
use localclaw.Domain.Secret.{Source, generated, minted, user, source_name, parse_source}

parse_source-source_name : (r : Source) → parse_source (source_name r) ≡ some r
unfolding parse_source string_eq
parse_source-source_name generated = refl
parse_source-source_name minted = refl
parse_source-source_name user = refl

source_name-parse_source : (n : String) (r : Source) → parse_source n ≡ some r → source_name r ≡ n
unfolding parse_source
source_name-parse_source n r h = ground arith

-- ParseSource gives a source exactly for the name that String has for it.
pub parse_source_iff : (n : String) (r : Source) → (parse_source n ≡ some r) ↔ (n ≡ source_name r)
parse_source_iff n r = (
  λ h. sym (source_name-parse_source n r h),
  λ h. subst (λ m. parse_source m ≡ some r) (sym h) (parse_source-source_name r),
)
