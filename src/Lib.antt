-- ===== src/Lib.antt =====
-- cfwarp-cli runs a Cloudflare WARP tunnel behind local proxies. This library models the parts that
-- decide what the program does: the records that it keeps, the settings that it resolves, and the
-- memory and the policy by which it rotates accounts.
--
-- - Prelude: Boolean tests, lists, Go's `int` (Prelude/Int), `strings.ToLower` and
--   `strings.TrimSpace` (Prelude/Text, letters lowered in the ASCII range), and the functions of
--   net and strconv on addresses and numbers (Prelude/Net).
-- - State: internal/state. State/Account is `AccountState` of models.go, State/Settings `Settings`
--   with its options, State/Runtime `RuntimeState`, State/History rotation_history.go. Each has
--   `normalize` for `Normalize`; the first three have `marshal` and `unmarshal` for the JSON methods,
--   between the record and the struct handed to encoding/json. State/Store is store.go: the files as
--   what decoding them gives, and the atomic write step by step (State/Store/Atomic).
-- - Settings: internal/settings. Settings/Validate is `Validate`, Settings/Endpoint
--   `ValidateEndpoint`, Settings/Load `Load` with the environment (Settings/Load/Env).
-- - Rotation: cmd/rotation_memory.go, which reads the history, evaluates the account's fingerprint
--   and hands a new history to the store.
-- - Orchestrator: internal/orchestrator/runtime.go, the runtime's state and its phase.
-- - Masque: internal/transport/masque/transport.go. The dial with its waits (Masque), and the tunnel
--   with its session, its two channels and its counters (Masque/Tunnel); a panic is a result. The
--   choice of the endpoint takes what the package net answers as an argument (Masque/Endpoint). One
--   dial is Masque/Connect (`connectTunnel` with the keys and the TLS configuration, the handles that it
--   opens and closes as a list) and Masque/Dial; its printed numbers have fuel for 19 digits, which a
--   64-bit duration does not exceed.
-- - Engine: internal/dataplane/engine/engine.go, whose two forwarders are steps that interleave.
-- - Warp: `Register` of internal/warp/client.go on a response that was read.
-- - Unlock: internal/unlock/probe.go. `NormalizeServices` (Unlock), and what the pages of a service
--   say of it (Unlock/Evaluate).
-- - Supervisor: `Stop` of internal/supervisor/supervisor.go, whose calls of `Wait` may block.
-- - Service: the work of the commands on the state files and the backend, from
--   cmd/account_helpers.go, access_helpers.go, backend_helpers.go, runtime_helpers.go and
--   settings.go. A call is an `Action`: it changes a machine, which is the state files and a world,
--   and may end in an error (Service/Action). A `Host` answers for the world (Service/Host). The
--   registry of backends is that of internal/backend/registry.go (Service/Registry).
-- - Singbox: internal/backend/singbox, the configuration that renderer.go builds (config.go).
-- - RunNative: cmd/native_runtime.go, the tracker that keeps runtime.json while the native backend
--   runs, and the configuration that its tunnel is started with (RunNative/Config).
-- - HttpProxy: internal/dataplane/frontend/http/server.go, the acts that a request leads to.
-- - Configure: `transport set` and `mode set` of cmd/transport_mode.go, on the settings file.
-- - Status: cmd/status.go, the report and the requirements.
-- - Daemon: cmd/daemon.go. `checkFailurePolicy` (Daemon), the manager's state with the operations on
--   one part of it (Daemon/Manager), and remediation, the scheduled check, reload and the control
--   actions (Daemon/Remedy).
-- - Rotate: the rotate command of cmd/rotate.go, with its settings and services resolved.
--
-- `Load` lays the sources over the defaults, normalises and validates; the other parts read the
-- settings that it returns. Normalised settings choose the backend whose state the orchestrator
-- builds, and the transport whose addresses the rotation memory fingerprints. Daemon and Rotate are
-- clients of Service: they register accounts, stop and start the backend and remember fingerprints
-- through its calls, which read and write the files of State/Store.
--
-- Records are values: Go's `Normalize` writes through the pointers and slices that copies share, and
-- this sharing is not modelled. A slice is a list, so a nil and an empty one are the same; a pointer
-- to options is an `Option`. The two records of one struct, with and without JSON tags, are two types.
-- Error texts are constructors with the position that they name.
--
-- Parameters stand for what is outside: the hash SHA-256, the clock, `os.Getenv`, the contents of
-- the files, what the network and the keys' library answer, and whether a write succeeds, a socket
-- exists or a process runs. A host's answers may change its world, so that two questions may have two answers.
-- Calls run one after another; other processes that write the state files meanwhile are not modelled.
-- Loops are structural recursion over lists or over the number of attempts. The wait for a listener
-- has fuel, a round for every nanosecond of the deadline and two more: a round sleeps half a second.
-- So have the polls of `Stop`, whose rounds sleep a tenth of a second.
-- Counts in the history and durations in nanoseconds are 64-bit integers that wrap
-- around; theorems on them assume sums below 2^63.
--
-- Not modelled: the spawning of processes (internal/supervisor), the SOCKS frontend and the network
-- stack of internal/dataplane, the handshakes of TLS, QUIC and CONNECT-IP, a Close of the tunnel
-- between two steps of one of its other calls, the JSON text of the backends' configuration, the
-- probes and the requests of the registration clients, which call on the network, the daemon's
-- accept loop and ticker, the wiring of the native runtime's goroutines, and the commands' flags and
-- output.
pub mod Configure
pub mod Daemon
pub mod Engine
pub mod HttpProxy
pub mod Masque
pub mod Singbox
pub mod Orchestrator
pub mod Prelude
pub mod State
pub mod Rotate
pub mod Rotation
pub mod RunNative
pub mod Service
pub mod Settings
pub mod Status
pub mod Supervisor
pub mod Unlock
pub mod Warp
