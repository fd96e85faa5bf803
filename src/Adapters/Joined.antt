-- ===== src/Adapters/Joined.antt =====
-- cmd/lclaw/main.go, run: which adapter answers which port.
pub mod Beneath
pub mod Reading
pub mod Looking
pub mod Sparing
pub mod Clearing
use localclaw.Common.{Option, none, some, List, [], ◌∷◌, ◌++◌, String}
use localclaw.App.Body.{Event, Run, M, func, call}
use localclaw.App.Host.{
  Call, ctx_err, step, podman_version, list_machines, init_machine, start_machine, stop_machine,
  remove_machine, network_exists, remove_network, create_network, build, play, kube_down, list_pods,
  flox_version, write_file, open_dir, load_topology, keychain_exists, keychain_create, keychain_get,
  keychain_describe, keychain_delete, keychain_put, machine_running, list_secrets, store_secret,
  secret_exists, remove_secret, remove_volume, minter_ready, mint, read_random, system, Response,
  Host,
}
use localclaw.Adapters.Libraries.{Libraries}
use localclaw.Adapters.Files as Files
use localclaw.Adapters.Litellm as Litellm
use localclaw.Adapters.Toml as Toml
use localclaw.Adapters.Keychain.Client as Keychain
use localclaw.Adapters.Podman.Client as Podman

module _ {S : Type 0} ⦃H : Host S⦄ (libs : Libraries) where
  -- The context, the progress, the random reader and what the adapters call are the host's. So is the
  -- readiness of the minter, whose loop has a number of turns of its own.
  unfoldable pub adapter : (c : Call) → M S (Response c)
  adapter ctx_err = func (call ctx_err)
  adapter (step name detail) = func (call (step name detail))
  adapter podman_version = Podman.podman_version
  adapter list_machines = Podman.list_machines libs
  adapter (init_machine m) = Podman.init_machine m
  adapter (start_machine provider name) = Podman.start_machine provider name
  adapter (stop_machine provider name) = Podman.stop_machine provider name
  adapter (remove_machine provider name) = Podman.remove_machine provider name
  adapter (network_exists name) = Podman.network_exists name
  adapter (create_network name internal) = Podman.create_network name internal
  adapter (remove_network name) = Podman.remove_network name
  adapter (build tag context) = Podman.build tag context
  adapter (play file networks userns) = Podman.play file networks userns
  adapter (kube_down file) = Podman.kube_down file
  adapter list_pods = Podman.list_pods libs
  adapter flox_version = Podman.flox_version
  adapter (write_file path content overwrite) = Files.write_file path content overwrite
  adapter (open_dir dir) = Files.open_dir dir
  adapter (load_topology scaffold) = Toml.load libs scaffold
  adapter (keychain_exists path) = Keychain.exists path
  adapter (keychain_create path) = Keychain.create path
  adapter (keychain_get path name) = Keychain.get path name
  adapter (keychain_describe path name) = Keychain.describe libs path name
  adapter (keychain_delete path name) = Keychain.delete path name
  adapter (keychain_put path name value source replace) =
      Keychain.put path name value source replace
  adapter machine_running = Podman.machine_running libs
  adapter list_secrets = Podman.list_secrets libs
  adapter (store_secret name value) = Podman.store_secret libs name value
  adapter (secret_exists name) = Podman.secret_exists name
  adapter (remove_secret name) = Podman.remove_secret name
  adapter (remove_volume name) = Podman.remove_volume name
  adapter minter_ready = func (call minter_ready)
  adapter (mint name) = Litellm.mint name
  adapter (read_random n) = func (call (read_random n))
  adapter (system c) = func (call (system c))

  -- The ports, answered by the adapters, which keep what they call.
  unfoldable pub joined : Host (S × List Event)
  unfolding adapter
  joined = record {
    answer = λ c s.
        let out : Run S (Response c) = adapter c s.0 in (out.value, (out.state, s.1 ++ out.events));
  }
