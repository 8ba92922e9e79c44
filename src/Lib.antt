-- ===== src/Lib.antt =====
-- The NetworkManager VPN plugin for NetBird: the D-Bus service that activates a connection through the
-- NetBird daemon, and the helper that NetworkManager runs to ask for secrets.
--
-- The service (internal/nmplugin) takes calls from NetworkManager. `Connect` reserves the one slot for
-- an activation and starts a thread, which parses the connection's settings, makes a client of the
-- daemon (internal/netbird/daemonclient), asks it for the right profile (internal/netbird/profile),
-- logs in, possibly after a prompt that `NewSecrets` answers, brings the engine up, waits until the
-- daemon's status (internal/netbird/status) is ready, and completes the activation. From then on a
-- monitor polls the status. `Disconnect` and `SetFailure` may come at any time. The helper
-- (internal/nmauthdialog) reads data and secrets from its input and answers with secrets, with a key
-- file that a graphical frontend shows, or by opening a browser.
--
-- Modules, and the code that they model:
--   Prelude    shared tests, lists, texts and results. A text is a Go string of valid UTF-8, as code
--              points. A pair `(value, error)` is a `Result`.
--   Go         what the program calls of strings, unicode, strconv and maps. The tables of unicode
--              behind ASCII are the parameter `Tables`. A map is a list of entries in the order in
--              which one iteration meets them.
--   Daemon     internal/netbird/daemonclient/types.go, and errors of grpc.go. Generated messages are
--              records of what their getters return.
--   Status     internal/netbird/status/status.go. Words: the words of the status text. Failures, Ready:
--              proofs.
--   Profile    internal/netbird/profile/profile.go. Defs: the code, over a daemon `Client` whose states
--              are a parameter. Fill, Safety, Creation, Follows, Honour: proofs.
--   Grpc       internal/netbird/daemonclient/grpc.go. Configure: options and addresses, and the reads of
--              internal/envconfig. Dial: connections, and the start of the daemon, over a `Network`.
--              Calls: the calls, over the generated `Stub`. Stable, Leaks, Wait: proofs.
--   InitSystem internal/initsystem/initsystem.go, over the commands of the machine.
--   Settings   internal/nmplugin/settings.go. Values: variants. Normal: normal forms. Flatten: one map of
--              a connection's settings. Identity: profile name and user. Parse: activation settings.
--              Precedence, Names, SameValue, Iteration: proofs.
--   Helpers    internal/nmplugin/helpers.go. Summary: proofs.
--   Config     internal/nmplugin/config.go, over a resolver. Gateway, Choice: proofs.
--   Activation internal/nmplugin/service.go: what prepareDaemonProfile and updateDaemonProfile call, over
--              Grpc and Profile. Names, Prepared: proofs.
--   Service    internal/nmplugin/service.go, prompts.go, errors.go and the types of types.go. State: the
--              fields of `Service`, and the contexts, clients and channels around it, by number.
--              Locked: the sections under `lifecycleMu` and `mu`. Program: the operations of a thread.
--              Phases: what follows each section and each answer. Exec: one step of a thread. System:
--              calls, threads and runs. Queries: calls that change nothing, and properties.go. Threads:
--              sums over what threads have left. Lifecycle: an abstract machine of what a connection
--              goes through, which is idle, busy with one activation or connected; below it Ties and
--              Guarantee, what an operation relies on and gives, and History, the phases of a run.
--              Rely: the rule that carries such a guarantee to all threads. The others are proofs.
--   Startup    cmd/nm-netbird-service/main.go and Service.Export: how the process comes to serve, over a
--              bus that is a parameter. Order, Starters: proofs.
--   Dialog     internal/nmauthdialog/dialog.go. Protocol: the parser of the input, and below it Reading:
--              lines. Args: the arguments. Hints, Response: the choice of an answer. Keyfile: the texts
--              that are written. Run: the helper as a whole; what is written before an error stays on
--              stdout. Browser: proofs on the addresses that it opens. Iteration: the order in
--              which the helper meets the data. Agreement: proofs on the helper and the
--              service, of the same data.
--   Witnesses  concrete inputs.
--
-- Each operation of a thread is one step, and each section under a lock is one operation, so that
-- every order in which Go may run the goroutines between locks is a run: a list of events, a call of
-- NetworkManager or a step of the thread with a number. What a thread is told (an answer of the daemon,
-- an error, the end of a wait) is a part of the event, and so is any run of the clock. Counters of
-- sessions and activations wrap at 2^64, as uint64 does.
--
-- Bounds: the loops are structural recursion but two. The one of `readVPNDetails` reads at most
-- maxProtocolLines lines in the source too; that number is the recursion's fuel, and running out is the
-- source's own error. The one of `waitForReady` takes fuel, and running out is the error `out_of_fuel`,
-- which the code does not have; Grpc.Wait says how much fuel is enough under a deadline.
--
-- Not modelled: D-Bus and gRPC themselves, internal/nmplugin/introspection.go (a constant), the
-- desktop notification of the helper, the texts of errors and logs but the summaries, the end of
-- the process behind a signal, cmd/nm-netbird-auth-dialog (one call), the C editor in properties,
-- and packaging. They start processes or talk to other programs. `url.Parse`, the resolver, the
-- desktop, the environment, the host's name, the init system's commands and the daemon are
-- parameters. A text that is not valid UTF-8 is not represented.
pub mod Prelude
pub mod Go
pub mod Daemon
pub mod Status
pub mod Profile
pub mod Settings
pub mod Service
pub mod Dialog
pub mod Config
pub mod Witnesses
pub mod Activation
pub mod Grpc
pub mod Helpers
pub mod InitSystem
pub mod Startup
