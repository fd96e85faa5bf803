-- ===== src/App/Kinds.antt =====
-- What a call does, and the kinds of call that a function makes.
use localclaw.Common.{◌≡◌, refl, Bool, true, false, List, [], ◌∷◌, string_eq, nat_eq}
use localclaw.App.Host.{
  Host, system, Call, ctx_err, step, podman_version, list_machines, init_machine, start_machine,
  stop_machine, remove_machine, network_exists, remove_network, create_network, build, play,
  kube_down, list_pods, flox_version, write_file, open_dir, load_topology, keychain_exists,
  keychain_create, keychain_get, keychain_describe, keychain_delete, keychain_put, machine_running,
  list_secrets, store_secret, secret_exists, remove_secret, remove_volume, minter_ready, mint,
  read_random,
}
use localclaw.App.Body.{Event, M}
use localclaw.App.Trace.{Only, Calls}

pub data Kind : Type 0 where
  -- the context and the progress
  control : Kind
  -- questions about the host that show no secret value
  question : Kind
  -- the value of a secret is read, or a new one is made
  value_read value_made : Kind
  -- files, machines, networks and images come into being or run; or machines, networks and pods stop
  -- or go
  file_write build_up tear_down : Kind
  -- pods of a file run, in place of those of the same name that are there
  pod_replace : Kind
  -- the keychain and its items, new or in place of one of the same name
  keychain_new item_write item_replace item_drop : Kind
  -- the secret store of the machine: a secret, in place of one of the same name; and its end
  store_replace store_drop : Kind
  -- what an adapter calls
  beneath : Kind

abbrev pub kind : Call → Kind
kind ctx_err = control
kind (step name detail) = control
kind podman_version = question
kind flox_version = question
kind list_machines = question
kind list_pods = question
kind (network_exists name) = question
kind (open_dir dir) = question
kind (load_topology dir) = question
kind (keychain_exists path) = question
kind (keychain_describe path name) = question
kind machine_running = question
kind (secret_exists name) = question
kind list_secrets = question
kind minter_ready = question
kind (keychain_get path name) = value_read
kind (mint name) = value_made
kind (read_random n) = value_made
kind (write_file path content overwrite) = file_write
kind (init_machine m) = build_up
kind (start_machine provider name) = build_up
kind (create_network name internal) = build_up
kind (build tag dir) = build_up
kind (play file networks userns) = pod_replace
kind (stop_machine provider name) = tear_down
kind (remove_machine provider name) = tear_down
kind (remove_network name) = tear_down
kind (kube_down file) = tear_down
kind (keychain_create path) = keychain_new
kind (keychain_put path name value source false) = item_write
kind (keychain_put path name value source true) = item_replace
kind (keychain_delete path name) = item_drop
kind (store_secret name value) = store_replace
kind (remove_secret name) = store_drop
kind (remove_volume name) = store_drop
kind (system c) = beneath

abbrev pub Within : (Kind → Bool) → Call → Type 0
Within allowed c = allowed (kind c) ≡ true

-- A function that only asks.
abbrev pub asks : Kind → Bool
asks control = true
asks question = true
asks _ = false

abbrev pub Asks : Call → Type 0
Asks = Within asks

-- A larger set of calls.
pub Only-weaken :
    {S A : Type 0} ⦃H : Host S⦄ (P Q : Call → Type 0) (m : M S A)
    → ((c : Call) → P c → Q c)
    → Only P m
    → Only Q m
Only-weaken P Q m h o = record { at = λ s. widen _ (o.at s); linked = o.linked }
  where
    widen : (events : List Event) → Calls P events → Calls Q events
    widen [] _ = tt
    widen (e ∷ es) (p, ps) = (h e.call p, widen es ps)

-- Everything but stopping, removing, replacing a keychain item, making a keychain, and writing files.
-- Pods and secrets of the store may be replaced by those of the same name.
abbrev pub raises : Kind → Bool
raises control = true
raises question = true
raises value_read = true
raises value_made = true
raises build_up = true
raises pod_replace = true
raises item_write = true
raises store_replace = true
raises _ = false

-- Asking, stopping and removing.
abbrev pub lowers : Kind → Bool
lowers control = true
lowers question = true
lowers tear_down = true
lowers item_drop = true
lowers store_drop = true
lowers _ = false

pub asks-raises : (k : Kind) → asks k ≡ true → raises k ≡ true
asks-raises control h = refl
asks-raises question h = refl
asks-raises _ h = cc

pub asks-lowers : (k : Kind) → asks k ≡ true → lowers k ≡ true
asks-lowers control h = refl
asks-lowers question h = refl
asks-lowers _ h = cc

-- Any set that holds the questions.
pub Only-asks :
    {S A : Type 0} ⦃H : Host S⦄ (allowed : Kind → Bool) (m : M S A)
    → ((k : Kind) → asks k ≡ true → allowed k ≡ true)
    → Only Asks m
    → Only (Within allowed) m
Only-asks allowed m h o = Only-weaken Asks (Within allowed) m (λ c. h (kind c)) o
