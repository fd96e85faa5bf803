-- ===== src/Adapters/Files/Moving.antt =====
-- WriteFile moves a file that is whole, once, or none.
use localclaw.Common.{
  subst, ap, All-append, arith, ◌++◌, ◌⊎◌, inl, inr, ◌↔◌, ℕ, String, ◌<>◌, ◌≡◌, refl, Bool, Option,
  none, some, List, [], ◌∷◌, string_eq, nat_eq, dir_of, base_of,
}
use localclaw.App.Body.{Body, Event, ◌>>◌, return, pure, call, ◌>>=◌}
use localclaw.App.Host.{Call, Host, system}
use localclaw.App.Told.{
  event, Told, Tells, Behind, Tells-pure, Tells-nil_then, Tells-or_then, Tells-call_then,
  Tells-lift_then, Told-func,
}
use localclaw.App.Trace.{Calls}
use localclaw.Os.{lstat, mkdir_all, create_temp, write, chmod, close, remove, rename}
use localclaw.Domain.Errors.{Error, sentinel_eq}
use localclaw.Adapters.Files.{refusal, or_close, fill, or_remove, write_file}

-- No file is moved.
abbrev pub Stays : Call → Type 0
Stays (system (rename from to)) = ⊥
Stays _ = Unit

-- The temporary file was written, got its mode and was closed, each without an error; then it was
-- moved once, with this answer, and behind that at most removed.
abbrev pub Moved : String → List ℕ → Option Error → List Event → Type 0
Moved path content answer events =
    (name : String) × (before_it behind_it : List Event) × (events
      ≡ before_it
        ++ (event (system (write name content)) none
            ∷ event (system (chmod name 0o644)) none
            ∷ event (system (close name)) none
            ∷ event (system (rename name path)) answer
            ∷ behind_it))
    × Calls Stays before_it
    × Calls (λ c. c ≡ system (remove name)) behind_it

-- The function failed and no file was moved, or it moved the filled file once and returned nil exactly
-- if that succeeded.
abbrev pub Settled : String → List ℕ → Option Error → List Event → Type 0
Settled path content value events =
    (((e : Error) × (value ≡ some e)) × Calls Stays events)
    ⊎ ((answer : Option Error) × Moved path content answer events
        × ((value ≡ none) ↔ (answer ≡ none)))

-- What fill does: each of its calls has succeeded, or no file was moved.
Filled : String → List ℕ → Option Error → List Event → Type 0
Filled name content none events =
    events
    ≡ event (system (write name content)) none
      ∷ event (system (chmod name 0o644)) none
      ∷ event (system (close name)) none
      ∷ []
Filled name content (some e) events = Calls Stays events

closed :
    (name : String) (content : List ℕ) (o : Option Error)
    → Filled name content o (
        event (system (write name content)) none
        ∷ event (system (chmod name 0o644)) none
        ∷ event (system (close name)) o
        ∷ [])
unfolding Filled
closed name content none = refl
closed name content (some e) = (tt, (tt, (tt, tt)))

module _ {S A : Type 0} ⦃H : Host S⦄ {D : Option Error → List Event → Type 0}
    {P : A → List Event → Type 0} where
  Tells-or_close :
      (name : String) (o : Option Error) (k : Unit {0} → Body S (Option Error) A)
      → (o ≡ none → Tells D P (k tt))
      → ((e : Error) (r : Option Error) → D (some e) (event (system (close name)) r ∷ []))
      → Tells D P (or_close name o >>= k)
  unfolding or_close ◌>>=◌ call return pure
  Tells-or_close name none k h g = record { at = λ s. (h refl).at s }
  Tells-or_close name (some e) k h g = record { at = λ s. g e (H.answer (system (close name)) s).0 }

  Tells-or_remove :
      (path name : String) (o : Option Error) (k : Unit {0} → Body S (Option Error) A)
      → (o ≡ none → Tells D P (k tt))
      → ((e : Error)
          → o ≡ some e
          → (w : Error) (r : Option Error) → D (some w) (event (system (remove name)) r ∷ []))
      → Tells D P (or_remove path name o >>= k)
  unfolding or_remove ◌>>=◌ call return pure
  Tells-or_remove path name none k h g = record { at = λ s. (h refl).at s }
  Tells-or_remove path name (some e) k h g = record {
    at = λ s. g e refl _ (H.answer (system (remove name)) s).0;
  }

module _ {S : Type 0} ⦃H : Host S⦄ where
  fill-Filled :
      (name : String) (content : List ℕ) → Told {S = S} (Filled name content) (fill name content)
  unfolding fill Filled call
  fill-Filled name content = Told-func (Filled name content) _ (
      Tells-call_then (system (write name content)) _ λ written.
        Tells-or_close name written _
          (λ wrote. Tells-call_then (system (chmod name 0o644)) _ λ moded.
            Tells-or_close name moded _
              (λ changed. record {
                at = λ s.
                    rw (wrote, changed) (closed name content (H.answer (system (close name)) s).0);
              })
              (λ e r. (tt, (tt, (tt, tt)))))
          (λ e r. (tt, (tt, tt))))

  -- From the end of fill on.
  moved-Settled :
      (path name : String) (content : List ℕ) (start : List Event) (filled : Option Error)
      (events : List Event)
      → Calls Stays start
      → Filled name content filled events
      → Tells {S = S}
          (Behind events (Behind start (Settled path content)))
          (Behind events (Behind start (Settled path content)))
          (or_remove path name filled
            >> (call (system (rename name path)) >>= λ renamed.
                or_remove path name renamed >> pure none))
  unfolding Filled
  moved-Settled path name content start filled events quiet h =
      Tells-or_remove path name filled _
        (λ full. Tells-call_then (system (rename name path)) _ λ renamed.
          let known = subst (λ o. Filled name content o events) full h in
          let move = event (system (rename name path)) renamed in
          Tells-or_remove path name renamed _
            (λ moved. Tells-pure none (
              inr (
                renamed,
                (name, start, [], ap (λ es. start ++ (es ++ (move ∷ []))) known, quiet, tt),
                ((λ k. moved), (λ k. refl)),
              )))
            (λ e bad w r.
              let dropped = event (system (remove name)) r in
              inr (
                renamed,
                (
                  name,
                  start,
                  dropped ∷ [],
                  ap (λ es. start ++ (es ++ (move ∷ dropped ∷ []))) known,
                  quiet,
                  (refl, tt),
                ),
                ((λ k. absurd (ground arith)), (λ k. absurd (ground arith))),
              )))
        (λ e bad w r.
          let failed = subst (λ o. Filled name content o events) bad h in
          inl (
            (w, refl),
            All-append (λ d. Stays d.call) start _ quiet
                (All-append (λ d. Stays d.call) events _ failed (tt, tt)),
          ))

  pub write_file-Settled :
      (path : String) (content : List ℕ) (overwrite : Bool)
      → Told {S = S} (Settled path content) (write_file path content overwrite)
  unfolding write_file Filled
  write_file-Settled path content overwrite = Told-func (Settled path content) _ (
      Tells-call_then (system (lstat path)) _ λ info.
        Tells-nil_then _ (refusal path overwrite info) _
          (λ _. Tells-call_then (system (mkdir_all (dir_of path) 0o755)) _ λ made.
            Tells-nil_then _ made _
              (λ _.
                Tells-call_then
                  (system (create_temp (dir_of path) ("." <> (base_of path <> ".*.tmp")))) _
                  λ answer.
                    Tells-or_then _ answer _
                      (λ name.
                        Tells-lift_then (Filled name content) _ _ (fill-Filled name content)
                          λ filled events h.
                            moved-Settled path name content
                              (event (system (lstat path)) info
                                ∷ event (system (mkdir_all (dir_of path) 0o755)) made
                                ∷ event
                                    (system (
                                      create_temp (dir_of path)
                                        ("." <> (base_of path <> ".*.tmp"))))
                                    answer
                                ∷ [])
                              filled events (tt, (tt, (tt, tt))) h)
                      (λ e. inl ((_, refl), (tt, (tt, (tt, tt))))))
              (λ e. inl ((_, refl), (tt, (tt, tt)))))
          (λ e. inl ((_, refl), (tt, tt))))
