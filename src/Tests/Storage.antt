-- ===== src/Tests/Storage.antt =====
-- The theorems on files, on lclaw.toml as it loads and on podman, at concrete data.
use localclaw.Common.{
  ℕ, String, ◌≡◌, refl, true, false, some, [], ◌∷◌, if◌then◌else◌, ◌==◌, string_eq, nat_eq, codes,
  join_path, is_abs, pos,
}
use localclaw.Tests.Adapters.{no_libraries}
use localclaw.Tests.Ports.{fixed_host}
use localclaw.App.Body.{func, ◌>>=◌, call, or_return, lift}
use localclaw.App.Host.{Call, Response, Host, system, Directory}
use localclaw.App.Trace.{Only, Calls}
use localclaw.App.Doctor.{doctor}
use localclaw.App.Lifecycle.Status.{status}
use localclaw.App.Secrets.Commands.{list_secrets, describe}
use localclaw.Domain.Finding.{Finding}
use localclaw.Adapters.Joined.{joined}
use localclaw.Adapters.Joined.Reading.{Reads}
use localclaw.Adapters.Joined.Clearing.{Clears, down-Clears}
use localclaw.App.Lifecycle.Down.{down}
use localclaw.Adapters.Joined.Sparing.{Spares, up-Spares}
use localclaw.App.Lifecycle.Up.{up}
use localclaw.Adapters.Joined.Looking.{looking-Reads}
use localclaw.Domain.Errors.{Result, Error, exit_error, is, exist, ok, err}
use localclaw.Domain.Role.{agent}
use localclaw.Domain.Topology.{Topology}
use localclaw.Os.{Output, run, lstat, read_file}
use localclaw.Domain.Topology.{topology_file}
use localclaw.App.Told.{Told}
use localclaw.Adapters.Files.Moving.{Settled}
use localclaw.Adapters.Podman.Client as Podman
use localclaw.Adapters.Libraries.{File, ZoneTable, SecretRow, Libraries}
use localclaw.Adapters.Files.{write_file}
use localclaw.Adapters.Files.Placing.{Placed, write_file-Placed, write_file_kept}
use localclaw.Adapters.Toml.{load, zones_of}
use localclaw.Adapters.Toml.Ordered.{Loaded, load_sound}
use localclaw.Adapters.Podman.{exists_result, part_of_key}
use localclaw.Adapters.Podman.Client.{store_secret}
use localclaw.Adapters.Podman.Answers.{Said, exists_result_iff, Stores, store_secret_sealed}
use localclaw.Adapters.Podman.Listing.{ls_call, Lists, list_secrets_sound}

abbrev plain_table : ZoneTable
plain_table = record { internal = false; workloads = []; secrets = []; bridges = [] }

abbrev small_file : File
small_file = record {
  schema = pos 2;
  provider = "libkrun";
  keychain_path = "~/k";
  machine = record { cpus = pos 2; memory_mib = pos 2048; disk_gib = pos 20; volumes = [] };
  zones = ("agent", plain_table) ∷ ("infra", plain_table) ∷ [];
}

abbrev decoding : Libraries
decoding = record no_libraries { decode_toml = λ s. ok (small_file, []) }

abbrev scaffold : Directory
scaffold = record { id = 0; exists = λ _. true }

abbrev loaded : Topology
loaded = record {
  schema = pos 2;
  provider = "libkrun";
  keychain_path = "/home/k";
  machine = record { cpus = pos 2; memory_mib = pos 2048; disk_gib = pos 20; volumes = [] };
  zones = zones_of small_file.zones;
}

loads : (load {S = ℕ} decoding scaffold 0).value ≡ ok loaded
unfolding load func ◌>>=◌ call or_return fixed_host lift string_eq nat_eq is_abs join_path
loads = refl

load_sound_example :
    Loaded decoding (fixed_host.answer (system (read_file scaffold topology_file)) 0).0 loaded
load_sound_example = load_sound {S = ℕ} decoding scaffold 0 loaded loads

write_file-Placed_example :
    Only {S = ℕ} (Placed "/lc/a" "t" (b'x' ∷ [])) (write_file "/lc/a" (b'x' ∷ []) true)
    × Told {S = ℕ} (Settled "/lc/a" (b'x' ∷ [])) (write_file "/lc/a" (b'x' ∷ []) true)
unfolding fixed_host
write_file-Placed_example = write_file-Placed "/lc/a" "t" (b'x' ∷ []) true (λ s. refl)

write_file_kept_example :
    (e : Error) × ((write_file "/lc/a" (b'x' ∷ []) false 0 ≡ record {
      value = some e;
      events =
          record {
            call = system (lstat "/lc/a");
            answer = (fixed_host.answer (system (lstat "/lc/a")) 0).0;
          }
          ∷ [];
      state = (fixed_host.answer (system (lstat "/lc/a")) 0).1;
    })
      × (is exist e ≡ true))
unfolding fixed_host
write_file_kept_example = write_file_kept "/lc/a" (b'x' ∷ []) false 0 refl

abbrev missing : Result Output
missing = err (exit_error (pos 1) [])

exists_result_iff_example : Said "secret exists k" missing (exists_result "secret exists k" missing)
exists_result_iff_example = exists_result_iff "secret exists k" missing

store_secret_sealed_example :
    Stores {S = ℕ} "k" (codes "{}") 0 (store_secret no_libraries "k" (b'x' ∷ []) 0)
store_secret_sealed_example = store_secret_sealed no_libraries "k" (b'x' ∷ []) (codes "{}") 0 refl

abbrev ours : SecretRow
ours = record { name = "k"; labels = λ key. if key == part_of_key then "localclaw" else "" }

abbrev other : SecretRow
other = record { name = "a"; labels = λ key. "" }

-- `podman secret ls` prints two identifiers, and one of the secrets is lclaw's.
abbrev two_rows : Libraries
two_rows = record no_libraries { decode_secrets = λ text. ok (ours ∷ other ∷ []) }

printing : (c : Call) → ℕ → Response c
printing (system (run c)) n = ok (record { stdout = codes "1 2"; stderr = [] })
printing c n = (fixed_host.answer c n).0

abbrev printing_host : Host ℕ
printing_host = record { answer = λ c n. (printing c n, n) }

list_secrets_sound_example :
    Lists ⦃H = printing_host⦄ two_rows
      (printing_host.answer ls_call 0).0
      (printing_host.answer ls_call 0).1
      (Podman.list_secrets ⦃H = printing_host⦄ two_rows 0).value
list_secrets_sound_example = list_secrets_sound ⦃H = printing_host⦄ two_rows 0

shown_place : Finding → String
shown_place f = f.place

looking-Reads_example :
    Calls Reads (doctor ⦃H = joined {S = ℕ} no_libraries⦄ shown_place "lc" (0, [])).state.1
    × (Calls Reads (status ⦃H = joined {S = ℕ} no_libraries⦄ "lc" (0, [])).state.1
        × (Calls Reads (list_secrets ⦃H = joined {S = ℕ} no_libraries⦄ "lc" (0, [])).state.1
            × Calls Reads
                (describe ⦃H = joined {S = ℕ} no_libraries⦄ "lc" "api-key" (0, [])).state.1))
looking-Reads_example = looking-Reads {S = ℕ} no_libraries shown_place "lc" "api-key" 0

up-Spares_example :
    Calls Spares (up ⦃H = joined {S = ℕ} no_libraries⦄ true "lc" (agent ∷ []) (0, [])).state.1
up-Spares_example = up-Spares {S = ℕ} no_libraries true "lc" (agent ∷ []) 0

down-Clears_example :
    Calls Clears (down ⦃H = joined {S = ℕ} no_libraries⦄ "lc" [] true (0, [])).state.1
down-Clears_example = down-Clears {S = ℕ} no_libraries "lc" [] true 0
