-- ===== src/Lib.antt =====
-- AdGuard DNS CLI is a DNS proxy: it answers requests by upstream servers that it chooses by the
-- client's address and the question's domain. This library models the parts of it that decide:
--
-- * `ConfigMigrate` (internal/configmigrate): a configuration file of an older version is migrated
--   before the program starts. `ConfigMigrate` has the decoded YAML (yaml.go), `Versions` the
--   migrations migrateTo2, migrateTo3 and migrateTo4 (v2.go, v3.go, v4.go), `Migrate` the loop over
--   the versions, and `Run` the whole of Migrator.Run (migrator.go), with its changes of the file
--   system as a list of calls. Frame, Additions, GroupLoop, Groups, Progress and Run/Effects have the proofs.
-- * `Client` (internal/client): `HumanId` (humanid.go) has the checks of identifiers, profiles and
--   device types, and `HumanId/Made` what names are made into; `Queue` (queue.go) shares the result of one operation with concurrent callers, and
--   `Queue/Protocol` has the goroutines around it as steps; `Domains` and `Static`
--   (defaultstorage.go) have the order of domains and the choice of a static client, with the order on labels in
--   `Domains/Joined` and the client that is chosen in `Static/FirstMatch`; `Autodevice`
--   (autodevice.go) has clients that are made on demand; and `Storage` (defaultstorage.go) has
--   DefaultStorage: `Storage` a search for such a client, `Storage/Clean` and `Storage/Gc` the
--   garbage collection,
--   and `Storage/Default` the state, NewDefaultStorage, Get and Shutdown; `Sources`
--   (humanidsource.go) has the simpler sources of identifiers and their combination,
--   `Identifiable` the addresses that they may identify, and `Rdns`
--   (rdnsidsource.go) the one that asks for PTR records.
-- * `Cmd` (internal/cmd): `Upstream` (upstream.go, autodevice.go) has the validation of the groups
--   of upstreams, `Build` what newUpstreams makes of them, `Config` the validation of the other
--   parts (cache.go, server.go, bootstrap.go, fallback.go, dns.go, debug.go), `Internal` their
--   toInternal methods, and `Clients` (clientstorage.go) the storage that is made of the
--   upstreams; `Env` (env.go) and `Log` (log.go) have the two loggers of the program, `Default`
--   (default.go) the default configuration, `Program` (cmd.go, config.go, options.go, program.go)
--   Main from its options to its exit code, and `Service` the services: `Start` (program.go,
--   dns.go, bootstrap.go) starts them, `Shutdown` (servicehandler.go, bootstrap.go) shuts them
--   down, `Stopping` has the goroutines of Stop and handle as steps, and `Control` (osservice.go),
--   `Systemd` (service_linux.go) and `Launchd` (service_darwin.go) the service of the operating
--   system.
-- * `Dnssvc` (internal/dnssvc): the DNS service, which asks the storage of clients for the upstreams
--   of a request, in `Dnssvc` itself, and the configuration of its proxy in `Dnssvc/Proxy`.
-- * `Agdcslog` (internal/agdcslog): `Slices` has Go's slices with shared arrays, `Handler`
--   (agdcslog.go) the handler of log records, `Derived` what handlers that WithAttrs derives share,
--   `Darwin` (syslog_darwin.go) the log of macOS, made of four processes, and `Writers`
--   (syslog_linux.go, syslog_windows.go) the logs of Linux and Windows.
-- * `Agdcos` (internal/agdcos): the check of the path of an executable.
-- * `Debugsvc` (internal/debugsvc): the routes of the debug service (route.go).
--
-- They meet as in the program: `Cmd.Program` runs the migrator of `ConfigMigrate`, and validates what
-- it has left with `Cmd.Default`; the validation in `Cmd` makes what `Client.Static` and
-- `Client.Autodevice` store; a search in `Client.Storage` takes the results of the two queues as
-- arguments and returns what it publishes to them, which is where `Client.Queue` comes in; and
-- `Dnssvc.Serving` puts the storage of `Client.Storage.Default` behind the interface that the DNS
-- service takes.
--
-- A Go function that returns a value and an error is a function to `Result`; a pointer that can be
-- nil is an `Option`; a map is a `GoMap`, an association list (`Base.GoMap`); text is the list of its
-- bytes (`Base.Bytes`), of which strings.ToLower changes the ASCII letters alone; a time is a number. State is passed and returned. Code that is not in the
-- repository is a parameter: the record `Golibs` has the functions of golibs with the laws that are
-- used, `Upstreams` has net/url and dnsproxy, `Env` of `ConfigMigrate.Run` and `Files` of
-- `Cmd.Program` have the file system and the YAML library, `Os` has what the operating system and the
-- standard library say of logs, `Cache` and `Network` have go-cache and the exchange of DNS messages,
-- `Commands` has the processes of the log of macOS, `Peers` has the proxy, and `OsService` the service of kardianos. `Netip` models the standard package
-- net/netip, with the text of an address in `Netip/Text`, and `Cmd/Service/Lines` the lines of
-- bufio.Scanner.
--
-- compareDomains loops on a fuel of one more than the length of its first argument: each round
-- shortens that argument. No other definition has fuel.
--
-- Not modelled: the messages that are logged or printed, but for the status of the service; the
-- clock of the garbage collection, of which the ticks are taken; the finalizers of the Go runtime (a search returns the upstreams
-- that one was set for); panics of the code that is a parameter, on which the deferred calls of a search
-- would publish no value and no error, but for a panic at the shutdown of the services; package flag, of which the options are taken; the pool of buffers and the
-- mutexes of internal/agdcslog; and the HTTP server of internal/debugsvc, which is input and output.
pub mod Agdcos
pub mod Agdcslog
pub mod Base
pub mod Client
pub mod Cmd
pub mod ConfigMigrate
pub mod Debugsvc
pub mod Dnssvc
pub mod Errors
pub mod Golibs
pub mod Netip
pub mod Tests
