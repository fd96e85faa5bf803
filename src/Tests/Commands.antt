-- ===== src/Tests/Commands.antt =====
-- The theorems on the use cases, over the fixed ports.
use localclaw.Common.{
  refl, ◌≡◌, length, ◌≢◌, arith, ℕ, String, true, false, List, [], ◌∷◌, string_eq, nat_eq,
}
use localclaw.Tests.Ports.{fixed_host}
use localclaw.Domain.Errors.{ok}
use localclaw.Domain.Finding.{Finding}
use localclaw.Domain.Role.{services, agent}
use localclaw.App.Trace.{Only}
use localclaw.App.Readers.{readers-Asks}
use localclaw.App.Kinds.{Asks, Within, raises, lowers}
use localclaw.App.Gate.{Accepts}
use localclaw.App.Secrets.Commands.{list_secrets, describe, set, update, delete, get}
use localclaw.App.Secrets.Commands.Gate.{commands-Accepts}
use localclaw.App.Lifecycle.Up.{up}
use localclaw.App.Lifecycle.Up.Gate.{up-Accepts}
use localclaw.App.Lifecycle.Up.Calls.{up-Raises}
use localclaw.App.Lifecycle.Down.{down}
use localclaw.App.Lifecycle.Down.Calls.{down-Lowers}
use localclaw.App.Lifecycle.Down.Refusal.{down-partial}
use localclaw.App.Secrets.Commands.Stores.{Stores, given-Stores}
use localclaw.App.Lifecycle.Status.{status}
use localclaw.App.Doctor.{doctor}
use localclaw.App.Init.{init, DefaultFile}
use localclaw.App.Init.Existing.{init-Writes, writes_files}
use localclaw.App.Host.{keychain_exists}
use localclaw.App.Init.Calls.{init-SetsUp, sets_up}

commands-Accepts_example :
    Accepts "/k" false (list_secrets {S = ℕ} "lc" 0).events
    × Accepts "/k" false (describe {S = ℕ} "lc" "api-key" 0).events
    × Accepts "/k" false (set {S = ℕ} "lc" "api-key" (b'v' ∷ []) 0).events
    × Accepts "/k" false (update {S = ℕ} "lc" "api-key" (b'v' ∷ []) false 0).events
    × Accepts "/k" false (delete {S = ℕ} "lc" "api-key" 0).events
    × Accepts "/k" false (get {S = ℕ} "lc" "api-key" 0).events
commands-Accepts_example = commands-Accepts "lc" "api-key" (b'v' ∷ []) false "/k" 0

up-Accepts_example : Accepts "/k" false (up {S = ℕ} true "lc" (services ∷ agent ∷ []) 0).events
up-Accepts_example = up-Accepts true "lc" (services ∷ agent ∷ []) "/k" 0

up-Raises_example : Only {S = ℕ} (Within raises) (up true "lc" (services ∷ agent ∷ []))
up-Raises_example = up-Raises true "lc" (services ∷ agent ∷ [])

down-Lowers_example : Only {S = ℕ} (Within lowers) (down "lc" (services ∷ agent ∷ []) false)
down-Lowers_example = down-Lowers "lc" (services ∷ agent ∷ []) false

abbrev shown_place : Finding → String
shown_place f = f.place

readers-Asks_example :
    Only {S = ℕ} Asks (doctor shown_place "lc")
    × (Only {S = ℕ} Asks (status "lc")
        × (Only {S = ℕ} Asks (list_secrets "lc") × Only {S = ℕ} Asks (describe "lc" "api-key")))
readers-Asks_example = readers-Asks shown_place "lc" "api-key"

abbrev one_file : List DefaultFile
one_file = record { path = "lclaw.toml"; content = ok (b'x' ∷ []) } ∷ []

init-SetsUp_example : Only {S = ℕ} (Within sets_up) (init one_file "lc" true)
init-SetsUp_example = init-SetsUp one_file "lc" true

two_zones : length (services ∷ agent ∷ []) ≢ 3
two_zones = omega arith

down-partial_example : Only {S = ℕ} Asks (down "lc" (services ∷ agent ∷ []) true)
down-partial_example = down-partial "lc" (services ∷ agent ∷ []) two_zones

given-Stores_example :
    Only {S = ℕ} (Stores "api-key" (b'v' ∷ []) false) (set "lc" "api-key" (b'v' ∷ []))
    × Only {S = ℕ} (Stores "api-key" (b'v' ∷ []) true) (update "lc" "api-key" (b'v' ∷ []) false)
given-Stores_example = given-Stores "lc" "api-key" (b'v' ∷ [])

keychain_is_there :
    (path : String) (n : ℕ) → (fixed_host.answer (keychain_exists path) n).0 ≡ ok true
unfolding fixed_host
keychain_is_there path n = refl

init-Writes_example : Only {S = ℕ} (Within writes_files) (init one_file "lc" true)
init-Writes_example = init-Writes one_file "lc" true keychain_is_there
