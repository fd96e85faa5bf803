-- ===== src/Domain/Version/Order.antt =====
-- internal/domain/version.go: AtLeast is the lexicographic order of the three numbers.
use localclaw.Common.{◌≤◌, ◌<◌, ◌≡◌, ◌↔◌, ◌⊎◌, true, arith, string_eq, nat_eq}
use localclaw.Domain.Version.{Version, at_least}

-- The order of the triples of numbers, told apart from the tests of the code.
abbrev pub Above : Version → Version → Type 0
Above v w =
    (w.major < v.major)
    ⊎ ((v.major ≡ w.major) × ((w.minor < v.minor) ⊎ ((v.minor ≡ w.minor) × (w.patch ≤ v.patch))))

-- AtLeast holds exactly when the version is greater or equal in the lexicographic order of major,
-- minor and patch; the text that a version was parsed from has no part in it.
pub at_least_iff : (v w : Version) → (at_least v w ≡ true) ↔ Above v w
unfolding at_least
at_least_iff v w = ground arith

-- AtLeast is transitive, and of two versions one is at least the other.
pub at_least_order :
    (u v w : Version)
    → (at_least u v ≡ true → at_least v w ≡ true → at_least u w ≡ true)
      × ((at_least u v ≡ true) ⊎ (at_least v u ≡ true))
unfolding at_least
at_least_order u v w = ground arith
