-- ===== src/Adapters/Joined/Sparing.antt =====
-- What `lclaw up` reaches of the operating system.
use localclaw.Common.{
  ℕ, String, ◌≡◌, refl, sym, subst, Bool, true, false, not, ◌&&◌, Option, none, some, List, [], ◌∷◌,
  arith, string_eq, nat_eq,
}
use localclaw.App.Host.{
  Call, ctx_err, step, podman_version, list_machines, init_machine, start_machine, network_exists,
  create_network, build, play, list_pods, flox_version, open_dir, load_topology, keychain_exists,
  keychain_get, keychain_describe, keychain_put, machine_running, list_secrets, store_secret,
  secret_exists, minter_ready, mint, read_random, system, Host, MachineInit,
}
use localclaw.App.Kinds.{Only-weaken, Asks, raises, Within}
use localclaw.App.Lifecycle.Up.{up}
use localclaw.App.Lifecycle.Up.Calls.{up-Raises}
use localclaw.App.Trace.{Calls, Only, only_rules}
use localclaw.Domain.Role.{Role}
use localclaw.Domain.Secret.{Source, hex_encode}
use localclaw.Os.{run, interactive, stat, dir_fs, read_file, home_dir}
use localclaw.Adapters.Libraries.{Libraries}
use localclaw.Adapters.Joined.{adapter, joined}
use localclaw.Adapters.Joined.Beneath.{beneath-Calls}
use localclaw.Adapters.Joined.Reading.{starts, destroys, looks, Reads, adapter-Reads}
use localclaw.Adapters.Keychain.Client.{add_line}
use localclaw.Adapters.Keychain.Client.Sealed.{Sealed, get_args, reads-Sealed, put-Sealed}
use localclaw.Adapters.Keychain.Client as Keychain
use localclaw.Adapters.Litellm as Litellm
use localclaw.Adapters.Podman.{init_args, play_args, create_network_args}
use localclaw.Adapters.Podman.Client as Podman

-- A command neither stops nor removes anything, no file is written or removed, and nothing but the
-- dialog that unlocks the keychain has the terminal.
unfoldable pub Spares : Call → Type 0
unfolding destroys starts
Spares ctx_err = Unit
Spares (step name detail) = Unit
Spares minter_ready = Unit
Spares (read_random n) = Unit
Spares (system (stat path)) = Unit
Spares (system (dir_fs dir)) = Unit
Spares (system (read_file dir path)) = Unit
Spares (system home_dir) = Unit
Spares (system (run c)) = destroys c.name c.args ≡ false
Spares (system (interactive c)) = starts c.args ("unlock-keychain" ∷ []) ≡ true
Spares _ = ⊥

and_not : (a b : Bool) → (a && not b) ≡ true → b ≡ false
and_not a true h = ground arith
and_not a false h = refl

Reads-Spares : (c : Call) → Reads c → Spares c
unfolding Reads Spares looks
Reads-Spares ctx_err h = tt
Reads-Spares (step name detail) h = tt
Reads-Spares minter_ready h = tt
Reads-Spares (system (stat path)) h = tt
Reads-Spares (system (dir_fs dir)) h = tt
Reads-Spares (system (read_file dir path)) h = tt
Reads-Spares (system home_dir) h = tt
Reads-Spares (system (run c)) h = and_not _ (destroys c.name c.args) h
Reads-Spares (system (interactive c)) h = h
Reads-Spares _ h = absurd h

Sealed-Spares :
    (path : String) (args : List String) (stdin : Option (List ℕ)) (c : Call)
    → destroys "security" args ≡ false
    → Sealed path args stdin c
    → Spares c
unfolding Spares starts string_eq
Sealed-Spares path args stdin (system (stat p)) k h = tt
Sealed-Spares path args stdin (system (run c)) k h =
    subst (λ d. destroys d.name d.args ≡ false) (sym h) k
Sealed-Spares path args stdin (system (interactive c)) k h =
    subst (λ d. starts d.args ("unlock-keychain" ∷ []) ≡ true) (sym h) refl
Sealed-Spares path args stdin _ k h = absurd h

module _ {S : Type 0} ⦃H : Host S⦄ where
  init_machine-Spares : (m : MachineInit) → Only {S = S} Spares (Podman.init_machine m)
  unfolding Podman.init_machine Podman.effect Spares destroys starts string_eq init_args
  init_machine-Spares m = search only_rules depth 30

  start_machine-Spares :
      (provider name : String) → Only {S = S} Spares (Podman.start_machine provider name)
  unfolding Podman.start_machine Podman.effect Spares destroys starts string_eq
  start_machine-Spares provider name = search only_rules depth 30

  create_network-Spares :
      (name : String) (internal : Bool) → Only {S = S} Spares (Podman.create_network name internal)
  unfolding Podman.create_network Podman.effect Spares destroys starts string_eq create_network_args
  create_network-Spares name internal = search only_rules depth 30

  build-Spares : (tag context : String) → Only {S = S} Spares (Podman.build tag context)
  unfolding Podman.build Podman.effect Spares destroys starts string_eq
  build-Spares tag context = search only_rules depth 30

  play-Spares :
      (file : String) (networks : List String) (userns : String)
      → Only {S = S} Spares (Podman.play file networks userns)
  unfolding Podman.play Podman.effect Spares destroys starts string_eq play_args
  play-Spares file networks userns = search only_rules depth 30

  store_secret-Spares :
      (libs : Libraries) (name : String) (value : List ℕ)
      → Only {S = S} Spares (Podman.store_secret libs name value)
  unfolding Podman.store_secret Spares destroys starts string_eq
  store_secret-Spares libs name value = search only_rules depth 30

  mint-Spares : (name : String) → Only {S = S} Spares (Litellm.mint name)
  unfolding Litellm.mint Litellm.run_script Spares destroys starts string_eq
  mint-Spares name = search only_rules depth 40

  get-Spares :
      (libs : Libraries) (path name : String) → Only {S = S} Spares (Keychain.get path name)
  unfolding destroys starts string_eq
  get-Spares libs path name =
      Only-weaken (Sealed path (get_args path name) none) Spares _
        (λ c h. Sealed-Spares path (get_args path name) none c refl h)
        (reads-Sealed libs path name).0

  put-Spares :
      (path name : String) (value : List ℕ) (source : Source) (replace : Bool)
      → Only {S = S} Spares (Keychain.put path name value source replace)
  unfolding destroys starts string_eq
  put-Spares path name value source replace =
      let line = some (add_line path name (hex_encode value) source replace) in
      Only-weaken (Sealed path ("-i" ∷ []) line) Spares _
        (λ c h. Sealed-Spares path ("-i" ∷ []) line c refl h)
        (put-Sealed path name value source replace)

  asked-Spares : (libs : Libraries) (c : Call) → Asks c → Only {S = S} Spares (adapter libs c)
  asked-Spares libs c h = Only-weaken Reads Spares _ Reads-Spares (adapter-Reads libs c h)

  -- What answers a call of a function that only raises.
  adapter-Spares :
      (libs : Libraries) (c : Call) → Within raises c → Only {S = S} Spares (adapter libs c)
  unfolding adapter Spares
  adapter-Spares libs ctx_err h = asked-Spares libs ctx_err refl
  adapter-Spares libs (step name detail) h = asked-Spares libs (step name detail) refl
  adapter-Spares libs podman_version h = asked-Spares libs podman_version refl
  adapter-Spares libs list_machines h = asked-Spares libs list_machines refl
  adapter-Spares libs (network_exists name) h = asked-Spares libs (network_exists name) refl
  adapter-Spares libs list_pods h = asked-Spares libs list_pods refl
  adapter-Spares libs flox_version h = asked-Spares libs flox_version refl
  adapter-Spares libs (open_dir dir) h = asked-Spares libs (open_dir dir) refl
  adapter-Spares libs (load_topology scaffold) h = asked-Spares libs (load_topology scaffold) refl
  adapter-Spares libs (keychain_exists path) h = asked-Spares libs (keychain_exists path) refl
  adapter-Spares libs (keychain_describe path name) h =
      asked-Spares libs (keychain_describe path name) refl
  adapter-Spares libs machine_running h = asked-Spares libs machine_running refl
  adapter-Spares libs list_secrets h = asked-Spares libs list_secrets refl
  adapter-Spares libs (secret_exists name) h = asked-Spares libs (secret_exists name) refl
  adapter-Spares libs minter_ready h = asked-Spares libs minter_ready refl
  adapter-Spares libs (read_random n) h = search only_rules
  adapter-Spares libs (mint name) h = mint-Spares name
  adapter-Spares libs (keychain_get path name) h = get-Spares libs path name
  adapter-Spares libs (init_machine m) h = init_machine-Spares m
  adapter-Spares libs (start_machine provider name) h = start_machine-Spares provider name
  adapter-Spares libs (create_network name internal) h = create_network-Spares name internal
  adapter-Spares libs (build tag dir) h = build-Spares tag dir
  adapter-Spares libs (play file networks userns) h = play-Spares file networks userns
  adapter-Spares libs (keychain_put path name value source false) h =
      put-Spares path name value source false
  adapter-Spares libs (keychain_put path name value source true) h = absurd (ground arith)
  adapter-Spares libs (store_secret name value) h = store_secret-Spares libs name value
  adapter-Spares libs _ h = absurd (ground arith)

  -- Over the adapters, and whatever the operating system answers, no command that `lclaw up` runs is
  -- a `podman machine stop` or `podman machine rm`, a `podman --connection lclaw` with `network rm`,
  -- `kube down`, `secret rm` or `volume rm`, or a `security delete-generic-password`; nothing but the
  -- dialog that unlocks the keychain has the terminal; and beside the commands the context is asked,
  -- a step is announced, files are looked at and read, random bytes are read, the home directory is
  -- asked for and the minter is asked whether it is ready: no file is written or removed.
  pub up-Spares :
      (libs : Libraries) (has_minter : Bool) (dir : String) (roles : List Role) (s : S)
      → Calls Spares (up ⦃H = joined libs⦄ has_minter dir roles (s, [])).state.1
  up-Spares libs has_minter dir roles s =
      beneath-Calls libs (adapter-Spares libs) _ (up-Raises ⦃H = joined libs⦄ has_minter dir roles)
        s
