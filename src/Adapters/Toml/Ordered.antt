-- ===== src/Adapters/Toml/Ordered.antt =====
-- What a topology that loads is like, whatever the file holds.
use localclaw.Common.{
  ℕ, ap, sym, Bool, tally, String, ◌≡◌, refl, ◌∙◌, subst, inl, inr, true, List, [], ◌∷◌, arith,
  string_eq, nat_eq, Bool-cases, is_nil, is_abs, clean,
}
use localclaw.App.Body.{or_return}
use localclaw.App.Held.{
  Keeps-pure, Keeps-return, Keeps-lift, Keeps-if, Keeps-or_return, Keeps-bind, Keeps-func,
  Keeps-call,
}
use localclaw.App.Host.{Host, system, Directory}
use localclaw.Os.{read_file}
use localclaw.Common.{clean_abs}
use localclaw.Domain.Errors.{Result, ok, err}
use localclaw.Adapters.Toml.Zones.{
  IsOrdered, zones_in, zones_of-IsSorted, IsSorted-IsOrdered, tally-zones_of,
}
use localclaw.Domain.Topology.{Topology, ZoneSpec, topology_file}
use localclaw.Adapters.Libraries.{File, Libraries}
use localclaw.Adapters.Toml.{absolute, keychain_path, to_domain, load}

absolute_abs : (raw p path : String) → absolute raw p ≡ ok path → is_abs path ≡ true
unfolding absolute
absolute_abs raw p path h = elim (Bool-cases (is_abs p)) [
  | inl rooted ↦
      let same : clean p ≡ path = let g = rw rooted at h in cc in
      subst (λ q. is_abs q ≡ true) same (clean_abs p rooted)
  | inr loose ↦ let g = rw loose at h in absurd (ground arith)
]

-- The topology is what the file describes: its zones are those of the tables, each as often, in order.
abbrev pub Fits : File → Topology → Type 0
Fits f t =
    (t.schema ≡ f.schema)
    × (t.provider ≡ f.provider)
    × (is_abs t.keychain_path ≡ true)
    × IsOrdered t.zones
    × ((p : ZoneSpec → Bool) → tally p t.zones ≡ tally p (zones_in f.zones))

-- The topology is what was read, decoded without a key that has no place.
abbrev pub Loaded : Libraries → Result (List ℕ) → Topology → Type 0
Loaded libs answer t =
    (content : List ℕ) × (f : File) × (answer ≡ ok content)
    × (libs.decode_toml content ≡ ok (f, []))
    × Fits f t

Fit : File → Result Topology → Type 0
Fit f (err e) = Unit
Fit f (ok t) = Fits f t

LoadedIf : Libraries → Result (List ℕ) → Result Topology → Type 0
LoadedIf libs answer (err e) = Unit
LoadedIf libs answer (ok t) = Loaded libs answer t

Fit-LoadedIf :
    (libs : Libraries) (answer : Result (List ℕ)) (content : List ℕ) (f : File)
    (r : Result Topology)
    → answer ≡ ok content
    → libs.decode_toml content ≡ ok (f, [])
    → Fit f r
    → LoadedIf libs answer r
unfolding Fit LoadedIf
Fit-LoadedIf libs answer content f (err e) h k fit = tt
Fit-LoadedIf libs answer content f (ok t) h k fit = (content, f, h, k, fit)

is_nil-nil : (xs : List String) → is_nil xs ≡ true → xs ≡ []
is_nil-nil [] h = refl
is_nil-nil (x ∷ xs) h = absurd (ground arith)

-- A result of Load and of its parts: a topology has an absolute keychain path and zones in order.
Rooted : Result String → Type 0
Rooted (err e) = Unit
Rooted (ok p) = is_abs p ≡ true

absolute-Rooted : (raw p : String) → Rooted (absolute raw p)
unfolding Rooted
absolute-Rooted raw p = settled (absolute raw p) refl
  where
    settled : (r : Result String) → absolute raw p ≡ r → Rooted r
    settled (err e) h = tt
    settled (ok path) h = absolute_abs raw p path h

module _ {S : Type 0} ⦃H : Host S⦄ where
  keychain_path-Rooted : (p : String) (s : S) → Rooted (keychain_path p s).value
  unfolding keychain_path Rooted
  keychain_path-Rooted p s =
      Keeps-func (λ r _. Rooted r) {Pre = λ _. Unit} _
        (Keeps-bind (λ _ _. Unit) _ _ (Keeps-pure _ _ (λ _ _. tt))
          λ raw.
            Keeps-bind (λ _ _. Unit) _ _ (Keeps-lift _ _ (λ _ _. tt))
              λ expanded.
                Keeps-bind (λ _ _. Unit) _ _
                  (Keeps-or_return _ err expanded (λ _ _ _ _. tt) (λ _ _ _ _. tt))
                  λ path. Keeps-pure _ (absolute raw path) (λ _ _. absolute-Rooted raw path))
        s tt

  to_domain-Fit : (f : File) (s : S) → Fit f (to_domain f s).value
  unfolding to_domain Fit Rooted or_return
  to_domain-Fit f s =
      Keeps-func (λ r _. Fit f r) {Pre = λ _. Unit} _
        (Keeps-bind (λ r _. Rooted r) _ _
          (Keeps-lift _ _ (λ s _. keychain_path-Rooted f.keychain_path s))
          λ answer.
            Keeps-bind (λ p _. is_abs p ≡ true) _ _
              (Keeps-or_return _ err answer (λ p e _ h. subst Rooted e h) (λ _ _ _ _. tt))
              λ path. Keeps-pure _ _ λ _ h. (
                refl,
                refl,
                h,
                IsSorted-IsOrdered _ (zones_of-IsSorted f.zones),
                λ p. tally-zones_of p f.zones,
              ))
        s tt

  -- A topology that Load gives, whatever the host answers, is that of the file that was read: it
  -- decoded without a key that has no place, and the topology has its schema and provider, an absolute
  -- keychain path, and its zones, each as often as the file has it and no other, infra before services,
  -- services before agent, and other names behind them by their code points.
  pub load_sound :
      (libs : Libraries) (scaffold : Directory) (s : S) (t : Topology)
      → (load libs scaffold s).value ≡ ok t
      → Loaded libs (H.answer (system (read_file scaffold topology_file)) s).0 t
  unfolding load LoadedIf
  load_sound libs scaffold s t h =
      let reading = system (read_file scaffold topology_file) in
      let answer = (H.answer reading s).0 in
      subst (LoadedIf libs answer) h (
        Keeps-func (λ r _. LoadedIf libs answer r) {Pre = λ s'. s' ≡ s} _
          (Keeps-bind (λ r _. answer ≡ r) _ _
            (Keeps-call reading (λ r _. answer ≡ r)
              (λ s' e. ap (λ u. (H.answer reading u).0) (sym e)))
            λ got.
              Keeps-bind (λ content _. answer ≡ ok content) _ _
                (Keeps-or_return _ _ got (λ content e _ k. k ∙ e) (λ _ _ _ _. tt))
                λ content.
                  Keeps-bind (λ d _. (answer ≡ ok content) × (libs.decode_toml content ≡ ok d)) _ _
                    (Keeps-or_return _ _ (libs.decode_toml content) (λ d e _ k. (k, e))
                      (λ _ _ _ _. tt))
                    λ decoded.
                      Keeps-bind
                        (λ _ _.
                          (answer ≡ ok content) × (libs.decode_toml content ≡ ok (decoded.0, [])))
                        _ _
                        (Keeps-if _ (is_nil decoded.1) _ _
                          (λ none_left. Keeps-pure _ _ λ _ k. (
                            k.0,
                            k.1 ∙ ap (λ u. ok (decoded.0, u)) (is_nil-nil decoded.1 none_left),
                          ))
                          (λ _. Keeps-return _ _ (λ _ _. tt)))
                        λ _. Keeps-lift _ _ (λ s' k.
                          Fit-LoadedIf libs answer content decoded.0 _ k.0 k.1
                            (to_domain-Fit decoded.0 s')))
          s refl)
