-- ===== src/Adapters/Joined/Clearing.antt =====
-- What `lclaw down` reaches of the operating system.
use localclaw.Common.{
  String, ◌≡◌, refl, sym, subst, Bool, true, false, ◌||◌, none, List, [], ◌∷◌, arith, string_eq,
  nat_eq,
}
use localclaw.App.Host.{
  Call, ctx_err, step, podman_version, list_machines, network_exists, list_pods, flox_version,
  open_dir, load_topology, keychain_exists, keychain_describe, keychain_put, machine_running,
  list_secrets, secret_exists, minter_ready, stop_machine, remove_machine, remove_network,
  kube_down, keychain_delete, remove_secret, remove_volume, system, Host,
}
use localclaw.App.Kinds.{Only-weaken, Asks, lowers, Within}
use localclaw.App.Lifecycle.Down.{down}
use localclaw.App.Lifecycle.Down.Calls.{down-Lowers}
use localclaw.App.Trace.{Calls, Only, only_rules}
use localclaw.Domain.Role.{Role}
use localclaw.Os.{run, interactive, stat, dir_fs, read_file, home_dir}
use localclaw.Adapters.Libraries.{Libraries}
use localclaw.Adapters.Joined.{adapter, joined}
use localclaw.Adapters.Joined.Beneath.{beneath-Calls}
use localclaw.Adapters.Joined.Reading.{starts, destroys, looks, Reads, adapter-Reads}
use localclaw.Adapters.Keychain.Client.{add_line}
use localclaw.Adapters.Keychain.Client.Sealed.{Sealed, delete_args, reads-Sealed}
use localclaw.Adapters.Keychain.Client as Keychain
use localclaw.Adapters.Podman.Client as Podman

-- A command looks, stops or removes, no file is written or removed, and nothing but the dialog that
-- unlocks the keychain has the terminal.
unfoldable pub Clears : Call → Type 0
unfolding looks destroys starts
Clears ctx_err = Unit
Clears (step name detail) = Unit
Clears minter_ready = Unit
Clears (system (stat path)) = Unit
Clears (system (dir_fs dir)) = Unit
Clears (system (read_file dir path)) = Unit
Clears (system home_dir) = Unit
Clears (system (run c)) = (looks c.name c.args || destroys c.name c.args) ≡ true
Clears (system (interactive c)) = starts c.args ("unlock-keychain" ∷ []) ≡ true
Clears _ = ⊥

or_left : (a b : Bool) → a ≡ true → (a || b) ≡ true
or_left a b h = ground arith

Reads-Clears : (c : Call) → Reads c → Clears c
unfolding Reads Clears looks
Reads-Clears ctx_err h = tt
Reads-Clears (step name detail) h = tt
Reads-Clears minter_ready h = tt
Reads-Clears (system (stat path)) h = tt
Reads-Clears (system (dir_fs dir)) h = tt
Reads-Clears (system (read_file dir path)) h = tt
Reads-Clears (system home_dir) h = tt
Reads-Clears (system (run c)) h = or_left (looks c.name c.args) (destroys c.name c.args) h
Reads-Clears (system (interactive c)) h = h
Reads-Clears _ h = absurd h

Sealed-Clears :
    (path name : String) (c : Call) → Sealed path (delete_args path name) none c → Clears c
unfolding Clears looks destroys starts string_eq
Sealed-Clears path name (system (stat p)) h = tt
Sealed-Clears path name (system (run c)) h =
    subst (λ d. (looks d.name d.args || destroys d.name d.args) ≡ true) (sym h) refl
Sealed-Clears path name (system (interactive c)) h =
    subst (λ d. starts d.args ("unlock-keychain" ∷ []) ≡ true) (sym h) refl
Sealed-Clears path name _ h = absurd h

module _ {S : Type 0} ⦃H : Host S⦄ where
  stop_machine-Clears :
      (provider name : String) → Only {S = S} Clears (Podman.stop_machine provider name)
  unfolding Podman.stop_machine Podman.effect Clears looks destroys starts string_eq
  stop_machine-Clears provider name = search only_rules depth 30

  remove_machine-Clears :
      (provider name : String) → Only {S = S} Clears (Podman.remove_machine provider name)
  unfolding Podman.remove_machine Podman.effect Clears looks destroys starts string_eq
  remove_machine-Clears provider name = search only_rules depth 30

  remove_network-Clears : (name : String) → Only {S = S} Clears (Podman.remove_network name)
  unfolding Podman.remove_network Podman.effect Clears looks destroys starts string_eq
  remove_network-Clears name = search only_rules depth 30

  kube_down-Clears : (file : String) → Only {S = S} Clears (Podman.kube_down file)
  unfolding Podman.kube_down Podman.effect Clears looks destroys starts string_eq
  kube_down-Clears file = search only_rules depth 30

  remove_secret-Clears : (name : String) → Only {S = S} Clears (Podman.remove_secret name)
  unfolding Podman.remove_secret Podman.effect Clears looks destroys starts string_eq
  remove_secret-Clears name = search only_rules depth 30

  remove_volume-Clears : (name : String) → Only {S = S} Clears (Podman.remove_volume name)
  unfolding Podman.remove_volume Podman.effect Podman.question Clears looks destroys starts
      string_eq
  remove_volume-Clears name = search only_rules depth 30

  delete-Clears :
      (libs : Libraries) (path name : String) → Only {S = S} Clears (Keychain.delete path name)
  delete-Clears libs path name =
      Only-weaken (Sealed path (delete_args path name) none) Clears _ (Sealed-Clears path name)
        (reads-Sealed libs path name).1.1

  asked-Clears : (libs : Libraries) (c : Call) → Asks c → Only {S = S} Clears (adapter libs c)
  asked-Clears libs c h = Only-weaken Reads Clears _ Reads-Clears (adapter-Reads libs c h)

  -- What answers a call of a function that only lowers.
  adapter-Clears :
      (libs : Libraries) (c : Call) → Within lowers c → Only {S = S} Clears (adapter libs c)
  unfolding adapter
  adapter-Clears libs ctx_err h = asked-Clears libs ctx_err refl
  adapter-Clears libs (step name detail) h = asked-Clears libs (step name detail) refl
  adapter-Clears libs podman_version h = asked-Clears libs podman_version refl
  adapter-Clears libs list_machines h = asked-Clears libs list_machines refl
  adapter-Clears libs (network_exists name) h = asked-Clears libs (network_exists name) refl
  adapter-Clears libs list_pods h = asked-Clears libs list_pods refl
  adapter-Clears libs flox_version h = asked-Clears libs flox_version refl
  adapter-Clears libs (open_dir dir) h = asked-Clears libs (open_dir dir) refl
  adapter-Clears libs (load_topology scaffold) h = asked-Clears libs (load_topology scaffold) refl
  adapter-Clears libs (keychain_exists path) h = asked-Clears libs (keychain_exists path) refl
  adapter-Clears libs (keychain_describe path name) h =
      asked-Clears libs (keychain_describe path name) refl
  adapter-Clears libs machine_running h = asked-Clears libs machine_running refl
  adapter-Clears libs list_secrets h = asked-Clears libs list_secrets refl
  adapter-Clears libs (secret_exists name) h = asked-Clears libs (secret_exists name) refl
  adapter-Clears libs minter_ready h = asked-Clears libs minter_ready refl
  adapter-Clears libs (stop_machine provider name) h = stop_machine-Clears provider name
  adapter-Clears libs (remove_machine provider name) h = remove_machine-Clears provider name
  adapter-Clears libs (remove_network name) h = remove_network-Clears name
  adapter-Clears libs (kube_down file) h = kube_down-Clears file
  adapter-Clears libs (keychain_delete path name) h = delete-Clears libs path name
  adapter-Clears libs (remove_secret name) h = remove_secret-Clears name
  adapter-Clears libs (remove_volume name) h = remove_volume-Clears name
  adapter-Clears libs (keychain_put path name value source false) h = absurd (ground arith)
  adapter-Clears libs (keychain_put path name value source true) h = absurd (ground arith)
  adapter-Clears libs _ h = absurd (ground arith)

  -- Over the adapters, and whatever the operating system answers, every command that `lclaw down`
  -- runs shows a version, a list or the description of secrets, asks whether something exists,
  -- describes a keychain item without its value, or stops or removes: a machine, a network, a pod, a
  -- secret of the store, a volume or a keychain item. Nothing but the dialog that unlocks the
  -- keychain has the terminal; and beside the commands the context is asked, a step is announced,
  -- files are looked at and read, the home directory is asked for and the minter is asked whether it
  -- is ready: nothing is started or made, and no file is written or removed.
  pub down-Clears :
      (libs : Libraries) (dir : String) (selected : List Role) (wipe : Bool) (s : S)
      → Calls Clears (down ⦃H = joined libs⦄ dir selected wipe (s, [])).state.1
  down-Clears libs dir selected wipe s =
      beneath-Calls libs (adapter-Clears libs) _ (down-Lowers ⦃H = joined libs⦄ dir selected wipe) s
