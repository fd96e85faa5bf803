-- ===== src/Adapters/Keychain/Client/Missing.antt =====
-- A keychain whose file is absent is not touched.
use localclaw.Common.{
  ℕ, String, ◌<>◌, ◌≡◌, refl, Bool, true, false, some, List, [], ◌∷◌, string_eq, nat_eq,
}
use localclaw.App.Body.{Event, M, pure, return, lift, func, or_return, nil_or_return, call, ◌>>=◌}
use localclaw.App.Host.{Host, system}
use localclaw.Os.{stat}
use localclaw.Domain.Errors.{
  Error, sentinel, wrapped, is, not_exist, keychain_missing, Result, ok, err,
}
use localclaw.Domain.Secret.{Source}
use localclaw.Adapters.Libraries.{Libraries}
use localclaw.Adapters.Keychain.Client.{found_at, exists, require, get, describe, put, delete}

abbrev pub missing : String → Error
missing path = wrapped "keychain: " (sentinel keychain_missing) (" at " <> path)

abbrev pub asked : (path : String) → Result Bool → Event
asked path r = record { call = system (stat path); answer = r }

-- One call, the question for the file, and then this result.
abbrev pub Stops : {S A : Type 0} → ⦃H : Host S⦄ → String → S → M S A → A → Type 0
Stops {S = S} {A = A} ⦃H = H⦄ path s m a = m s ≡ record {
  value = a;
  events = asked path (H.answer (system (stat path)) s).0 ∷ [];
  state = (H.answer (system (stat path)) s).1;
}

found_at_missing :
    (path : String) (e : Error) → is not_exist e ≡ true → found_at path (err e) ≡ ok false
unfolding found_at
found_at_missing path e m = rw m refl

module _ {S : Type 0} ⦃H : Host S⦄ (path : String) (s : S) (e : Error)
    (h : (H.answer (system (stat path)) s).0 ≡ err e) (m : is not_exist e ≡ true) where
  exists_missing : exists path s ≡ record {
    value = ok false;
    events = asked path (H.answer (system (stat path)) s).0 ∷ [];
    state = (H.answer (system (stat path)) s).1;
  }
  unfolding exists func call ◌>>=◌ pure
  exists_missing = rw (h, found_at_missing path e m) refl

  require-missing : Stops path s (require path) (some (missing path))
  unfolding require func lift ◌>>=◌ or_return return pure
  require-missing = rw exists_missing refl

-- Where the file of the keychain does not exist, Get, Describe, Put and Delete ask for it once, run
-- nothing, and return the error that wraps ErrKeychainMissing and names the path.
pub missing_untouched :
    {S : Type 0}
    → ⦃H : Host S⦄
    → (libs : Libraries) (path name : String) (value : List ℕ) (source : Source) (replace : Bool)
      (s : S) (e : Error)
    → (H.answer (system (stat path)) s).0 ≡ err e
    → is not_exist e ≡ true
    → Stops path s (get path name) (err (missing path))
      × (Stops path s (describe libs path name) (err (missing path))
          × (Stops path s (put path name value source replace) (some (missing path))
              × Stops path s (delete path name) (some (missing path))))
unfolding get describe put delete func lift ◌>>=◌ nil_or_return return pure
missing_untouched libs path name value source replace s e h m =
    let stop = require-missing path s e h m in
    (rw stop refl, (rw stop refl, (rw stop refl, rw stop refl)))
