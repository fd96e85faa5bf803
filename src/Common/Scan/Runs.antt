-- ===== src/Common/Scan/Runs.antt =====
-- Where a text occurs in a longer one: runs, lines and trimmed texts.
use localclaw.Common.{
  ℕ, zero, suc, ◌≤◌, ◌≡◌, refl, inl, inr, Bool, true, false, ◌&&◌, ◌||◌, List, [], ◌∷◌, ◌++◌, arith,
  ◌==◌, contains, string_eq, nat_eq, Bool-cases, length, is_nil, select, All, trim_space, split,
  join_lines, same_text, take, has_prefix, contains_text, before, is_space,
}
use localclaw.Common.Scan.{trim_start, trim_end, cons_head}

pub take-has_prefix :
    (s w : List ℕ) → has_prefix s w ≡ true → (take (length w) s ≡ w) × (length w ≤ length s)
take-has_prefix s [] h = (refl, omega arith)
take-has_prefix [] (x ∷ w) h = ground arith
take-has_prefix (c ∷ s) (x ∷ w) h = ground (arith, take-has_prefix s w)

pub length-contains_text : (s w : List ℕ) → contains_text s w ≡ true → length w ≤ length s
length-contains_text [] w h = (take-has_prefix [] w h).1
length-contains_text (c ∷ s) w h =
    ground (arith, take-has_prefix (c ∷ s) w, length-contains_text s w)

pub same_text-take :
    (n : ℕ) (s w : List ℕ) → length w ≡ n → has_prefix s w ≡ true → same_text (take n s) w ≡ true
same_text-take zero s [] e h = refl
same_text-take zero s (x ∷ w) e h = absurd (omega (arith, e))
same_text-take (suc n) s [] e h = absurd (omega (arith, e))
same_text-take (suc n) [] (x ∷ w) e h = ground arith
same_text-take (suc n) (c ∷ s) (x ∷ w) e h = ground (arith, same_text-take n s w (omega (arith, e)))

pub or_true : (a : Bool) → (a || true) ≡ true
or_true true = refl
or_true false = refl

pub or_left : (a b : Bool) → (a || b) ≡ false → a ≡ false
or_left true b h = h
or_left false b h = refl

pub or_right : (a b : Bool) → (a || b) ≡ false → b ≡ false
or_right true b h = absurd (ground arith)
or_right false b h = h

-- A run without the separator does not reach over it.
has_prefix-append :
    (a b w : List ℕ) (d : ℕ) → contains w d ≡ false → has_prefix (a ++ (d ∷ b)) w ≡ has_prefix a w
has_prefix-append a b [] d h = refl
has_prefix-append [] b (x ∷ w) d h = ground arith
has_prefix-append (c ∷ a) b (x ∷ w) d h = ground (arith, has_prefix-append a b w d)

pub contains_text-append :
    (a b w : List ℕ) (d : ℕ)
    → contains w d ≡ false
    → contains_text a w ≡ false
    → contains_text b w ≡ false
    → contains_text (a ++ (d ∷ b)) w ≡ false
contains_text-append [] b w d h p q = rw (has_prefix-append [] b w d h, p) q
contains_text-append (c ∷ a) b w d h p q =
    let first = or_left (has_prefix (c ∷ a) w) _ p in
    let later = or_right (has_prefix (c ∷ a) w) _ p in
    rw (has_prefix-append (c ∷ a) b w d h, first) (contains_text-append a b w d h later q)

abbrev pub Lacks : List ℕ → List ℕ → Type 0
Lacks w l = contains_text l w ≡ false

pub contains_text-join_lines :
    (w : List ℕ) (ls : List (List ℕ))
    → is_nil w ≡ false
    → contains w b'\n' ≡ false
    → All (Lacks w) ls
    → contains_text (join_lines ls) w ≡ false
unfolding join_lines
contains_text-join_lines [] ls e h p = absurd (ground arith)
contains_text-join_lines (x ∷ w) [] e h p = refl
contains_text-join_lines (x ∷ w) (l ∷ []) e h (p, _) = p
contains_text-join_lines (x ∷ w) (l ∷ m ∷ ls) e h (p, ps) =
    contains_text-append l _ (x ∷ w) b'\n' h p (contains_text-join_lines (x ∷ w) (m ∷ ls) e h ps)

contains_text-trim_start :
    (s w : List ℕ) → contains_text s w ≡ false → contains_text (trim_start s) w ≡ false
unfolding trim_start
contains_text-trim_start [] w h = h
contains_text-trim_start (c ∷ s) w h = elim (Bool-cases (is_space c)) [
  | inl blank ↦ rw blank (contains_text-trim_start s w (or_right (has_prefix (c ∷ s) w) _ h))
  | inr kept ↦ rw kept h
]

has_prefix-trim_end : (s w : List ℕ) → has_prefix s w ≡ false → has_prefix (trim_end s) w ≡ false
unfolding trim_end
has_prefix-trim_end s [] h = h
has_prefix-trim_end [] (x ∷ w) h = refl
has_prefix-trim_end (c ∷ s) (x ∷ w) h = elim (Bool-cases (is_space c && is_nil (trim_end s))) [
  | inl blank ↦ rw blank refl
  | inr kept ↦ rw kept (ground (arith, has_prefix-trim_end s w))
]

contains_text-trim_end :
    (s w : List ℕ) → contains_text s w ≡ false → contains_text (trim_end s) w ≡ false
unfolding trim_end
contains_text-trim_end [] w h = h
contains_text-trim_end (c ∷ s) [] h = absurd (ground arith)
contains_text-trim_end (c ∷ s) (x ∷ w) h = elim (Bool-cases (is_space c && is_nil (trim_end s))) [
  | inl blank ↦ rw blank refl
  | inr kept ↦
      let first = has_prefix-trim_end (c ∷ s) (x ∷ w) (or_left (has_prefix (c ∷ s) (x ∷ w)) _ h) in
      rw (kept, rw kept at first)
        (contains_text-trim_end s (x ∷ w) (or_right (has_prefix (c ∷ s) (x ∷ w)) _ h))
]

pub contains_text-trim_space :
    (s w : List ℕ) → contains_text s w ≡ false → contains_text (trim_space s) w ≡ false
unfolding trim_space
contains_text-trim_space s w h = contains_text-trim_end _ w (contains_text-trim_start s w h)

split-before : (d : ℕ) (s : List ℕ) → (rest : List (List ℕ)) × (split d s ≡ before d s ∷ rest)
unfolding split cons_head
split-before d [] = ([], refl)
split-before d (c ∷ s) = elim (Bool-cases (c == d)) [
  | inl same ↦ (split d s, rw same refl)
  | inr other ↦ let (rest, e) = split-before d s in (rest, rw (other, e) refl)
]

has_prefix-before :
    (d : ℕ) (s w : List ℕ) → has_prefix s w ≡ false → has_prefix (before d s) w ≡ false
has_prefix-before d s [] h = h
has_prefix-before d [] (x ∷ w) h = refl
has_prefix-before d (c ∷ s) (x ∷ w) h = elim (Bool-cases (c == d)) [
  | inl same ↦ rw same refl
  | inr other ↦ rw other (ground (arith, has_prefix-before d s w))
]

-- The lines of a text without a run are without it.
pub split-Lacks : (d : ℕ) (w s : List ℕ) → is_nil w ≡ false → Lacks w s → All (Lacks w) (split d s)
unfolding split cons_head
split-Lacks d w [] full h = (h, tt)
split-Lacks d [] (c ∷ s) full h = absurd (ground arith)
split-Lacks d (x ∷ w) (c ∷ s) full h =
    let first = or_left (has_prefix (c ∷ s) (x ∷ w)) _ h in
    let ih = split-Lacks d (x ∷ w) s full (or_right (has_prefix (c ∷ s) (x ∷ w)) _ h) in
    elim (Bool-cases (c == d)) [
      | inl same ↦ rw same (refl, ih)
      | inr other ↦
          let (rest, e) = split-before d s in
          let (here, there) = rw e at ih in
          let front = rw other at (has_prefix-before d (c ∷ s) (x ∷ w) first) in
          rw (other, e) (rw (front, here) refl, there)
    ]

pub All-select :
    (P : List ℕ → Type 0) (p : List ℕ → Bool) (ls : List (List ℕ)) → All P ls → All P (select p ls)
All-select P p [] h = h
All-select P p (l ∷ ls) (h, hs) = elim (Bool-cases (p l)) [
  | inl kept ↦ rw kept (h, All-select P p ls hs)
  | inr gone ↦ rw gone (All-select P p ls hs)
]
