-- ===== src/Tests/Ports.antt =====
-- Ports with fixed answers: a valid topology, a keychain that is there, a machine that runs.
use localclaw.Common.{ℕ, suc, String, true, false, none, List, [], ◌∷◌, string_eq, nat_eq, pos}
use localclaw.Domain.Errors.{ok}
use localclaw.Domain.Secret.{user}
use localclaw.Domain.Topology.{Topology, ZoneSpec}
use localclaw.Os.{Sys, Reply, Ended}
use localclaw.App.Host.{
  system, Call, ctx_err, step, podman_version, list_machines, init_machine, start_machine,
  stop_machine, remove_machine, network_exists, remove_network, create_network, build, play,
  kube_down, list_pods, flox_version, write_file, open_dir, load_topology, keychain_exists,
  keychain_create, keychain_get, keychain_describe, keychain_delete, keychain_put, machine_running,
  list_secrets, store_secret, secret_exists, remove_secret, remove_volume, minter_ready, mint,
  read_random, Response, Host,
}

abbrev pub plain_zone : String → List String → ZoneSpec
plain_zone name workloads = record {
  name = name;
  internal = false;
  workloads = workloads;
  secrets = [];
  bridges = [];
}

abbrev pub small_topology : Topology
small_topology = record {
  schema = pos 2;
  provider = "libkrun";
  keychain_path = "/k";
  machine = record { cpus = pos 2; memory_mib = pos 2048; disk_gib = pos 20; volumes = [] };
  zones =
      plain_zone "infra" ("kuma-cp" ∷ [])
      ∷ record (plain_zone "services" ("litellm" ∷ [])) { secrets = "api-key" ∷ [] }
      ∷ plain_zone "agent" ("openclaw" ∷ [])
      ∷ [];
}

replies : (c : Sys) → Reply c
replies (Sys.run c) = ok (record { stdout = []; stderr = [] })
replies (Sys.interactive c) = none
replies (Sys.spawn c) = (record { stdout = []; stderr = [] }, Ended.succeeded)
replies (Sys.spawn_attached c) = Ended.succeeded
replies (Sys.log entry) = tt
replies (Sys.stat path) = ok true
replies (Sys.lstat path) = ok false
replies (Sys.mkdir_all path mode) = none
replies (Sys.create_temp dir pattern) = ok "t"
replies (Sys.write file content) = none
replies (Sys.chmod file mode) = none
replies (Sys.close file) = none
replies (Sys.remove file) = none
replies (Sys.rename from to) = none
replies (Sys.dir_fs dir) = record { id = 0; exists = λ _. true }
replies (Sys.read_file dir path) = ok []
replies Sys.home_dir = ok "/home"
replies Sys.now = 0
replies (Sys.sleep interval) = none
replies (Sys.print shown) = tt
replies (Sys.print_error shown) = tt
replies (Sys.print_json shown) = none
replies (Sys.print_value value) = none
replies (Sys.value_file path) = ok (b'x' ∷ [])
replies (Sys.prompt shown) = ok (b'x' ∷ [])
replies Sys.read_stdin = ok (b'x' ∷ b'\n' ∷ [])

-- The state counts the calls.
answers : (c : Call) → Response c
answers ctx_err = none
answers (step name detail) = tt
answers podman_version = (record { major = 5; minor = 8; patch = 0; raw = [] }, none)
answers list_machines = ok (record { name = "lclaw"; running = true } ∷ [])
answers (init_machine m) = none
answers (start_machine provider name) = none
answers (stop_machine provider name) = none
answers (remove_machine provider name) = none
answers (network_exists name) = ok true
answers (remove_network name) = none
answers (create_network name internal) = none
answers (build tag dir) = none
answers (play file networks userns) = none
answers (kube_down file) = none
answers list_pods = ok (
    record { name = "litellm"; containers = record { name = "main"; state = "running" } ∷ [] } ∷ [])
answers flox_version = (record { major = 1; minor = 2; patch = 0; raw = [] }, none)
answers (write_file path content overwrite) = none
answers (open_dir dir) = ok (record { id = 0; exists = λ _. true })
answers (load_topology dir) = ok small_topology
answers (keychain_exists path) = ok true
answers (keychain_create path) = none
answers (keychain_get path name) = ok (b'x' ∷ [])
answers (keychain_describe path name) =
    ok (record { name = name; source = user; created = 1; modified = 2 })
answers (keychain_delete path name) = none
answers (keychain_put path name value source replace) = none
answers machine_running = ok true
answers list_secrets = ok ("api-key" ∷ [])
answers (store_secret name value) = none
answers (secret_exists name) = ok true
answers (remove_secret name) = none
answers (remove_volume name) = none
answers minter_ready = none
answers (mint name) = ok (b'm' ∷ [])
answers (read_random n) = ok (b'r' ∷ [])
answers (system c) = replies c

instance unfoldable pub fixed_host : Host ℕ
unfolding answers replies
fixed_host = record { answer = λ c n. (answers c, suc n) }
