-- ===== src/Lib.antt =====
-- LocalClaw runs a local agent on one Podman machine with three zones, each a network with its
-- workloads. This library models its domain rules, its use cases, its adapters and its command line.
--
-- The domain (internal/domain) is pure and stands in Domain:
--   * Domain/Role: role.go, the zones and SelectRoles
--   * Domain/Report: report.go, checks, Worst and Count
--   * Domain/Version, Domain/Requirement: version.go and requirement.go
--   * Domain/Secret: secret.go, generators and the rules for names and values
--   * Domain/Catalogue, Domain/NameOrder: catalogue.go, NewCatalogue, Lookup, ForZone
--   * Domain/Topology, Domain/Validate, Domain/Finding: topology.go, the data and Validate
--   * Domain/Observe: status.go and secret_check.go
--   * Domain/Errors: Go's error values with errors.Is and errors.As
-- The use cases (internal/app) call ports and stand in App:
--   * App/Host: ports.go. Each method of a port is a constructor of Call, Response gives the type
--     of its answer, and the adapters behind all ports are one parameter, a record Host over a state
--     of its own. ctx.Err() is such a call too, so that a context may end at any point; in a use
--     case a second one right behind one that was not nil gives the same and is not a call again.
--   * App/Body: the body of a Go function. It runs its calls in order over the host's state, keeps
--     every call with its answer in a trace, and a return ends it early.
--   * App/Secrets, App/Secrets/Commands: secrets.go (List, Describe, Set, Update, Delete, Get)
--   * App/Steps: lifecycle_secrets.go (ResolveSecrets, InjectSecrets, PurgeSecrets)
--   * App/Lifecycle with Up, Down and Status: lifecycle.go
--   * App/Networks, App/Doctor: doctor.go
--   * App/Init: init.go
-- What holds of the calls of a use case is stated on its trace, for every host: App/Trace has one
-- rule for each way to build a body, App/Kinds sorts the calls by what they do, and App/Gate says
-- when a call may touch a keychain.
--
-- The adapters (internal/adapters) implement the ports over the operating system and stand in
-- Adapters. Os lists the calls that leave the program: the methods of exec.Runner, the process and
-- the log beneath it, the functions of package os, the clock and the sleep. They are calls of the
-- same Host, so that an adapter is a function of the same kind as a use case.
--   * Adapters/Exec: exec/system.go; Adapters/Redact: exec/redact.go
--   * Adapters/Keychain/Client and Parse: keychain/client.go and parse.go
--   * Adapters/Podman with Client: podman/client.go, workloads.go and secrets.go, flox/client.go
--   * Adapters/Litellm, Adapters/Scripts: litellm/minter.go
--   * Adapters/Toml: toml/loader.go; Adapters/Files: osfs/system.go
--   * Adapters/Joined: cmd/lclaw/main.go, the ports answered by the adapters, over a host that also
--     keeps what they call
--   * Adapters/Libraries: what they decode into. encoding/json, BurntSushi/toml and the formats of
--     package time are parameters, the fields of the record Libraries.
-- The command line (internal/cli) stands in Cli: Cli/Exit (exit.go and the end of run in
-- cmd/lclaw/main.go), Cli/Values (cli.go, readValue), Cli/Views (render.go, secrets_render.go),
-- Cli/Commands (lifecycle.go, doctor.go), Cli/Secrets (secrets.go), Cli/Setup (init.go,
-- version.go). What urfave/cli parses is the record Invocation, and the JSON renderings are the
-- record Renderings.
--
-- What a body leaves behind in the host's state is stated by the rules of App/Held, and what it
-- returns together with its calls by those of App/Told.
--
-- Text is a list of code points where the code looks into it, and a secret value is the list of its
-- bytes. Numbers of the Go type int are integers without a bound; only strconv.Atoi checks its range.
-- A Go map is a function, or an association list where the code lists its keys. Every loop is a
-- recursion on the list that it walks, but for two with fuel: the text of a number, which has as
-- many steps as the number is large, and the loop of Ready of the LiteLLM minter, for which
-- Adapters/Litellm/Waiting says how many turns are enough. Output of a command is a list of code
-- points, where Go has bytes: the lengths that Redact and the log count are the same in ASCII. A
-- text that was walked and goes into a native String again shows what is not ASCII as U+FFFD.
--
-- Not modelled: the JSON shapes, buildInfo, defaultDir, the terminal adapter, the vendored
-- libraries, exec's Fake and UnavailableMinter, which only tests use, the environment of a process
-- and how long it ran. The clock, the file system, the random source and the processes are behind
-- Host. Adapters/Joined leaves the readiness of the minter to the host, since its loop has fuel, and
-- does not join the adapters' runner to Adapters/Exec.
pub mod Common
pub mod Os
pub mod Domain
pub mod App
pub mod Cli
pub mod Tests
pub mod Adapters
