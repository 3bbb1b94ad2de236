-- ===== src/Lib.antt =====
-- arca-router: a router that runs FRR and VPP and is configured over NETCONF, gRPC and a CLI.
--
-- The program's parts. A NETCONF session (pkg/netconf) reads framed messages from an SSH channel;
-- failed logins go to a rate limiter. Its handlers edit a candidate configuration in the datastore
-- (pkg/datastore), under a lock on the target, and commit it; the datastore keeps the running
-- configuration and the history of the commits. The engine (internal/engine) compares the new
-- configuration with the running one and has the southbound plugins for VPP and FRR apply the
-- difference, rolling them back when one fails.
--
-- Netconf/Framing.antt is pkg/netconf/framing.go. The reader is the list of the bytes to come and the
-- writer a sink that may fail. `read_chunked_message`, `read_eom_message`, `write_chunked_message` and
-- `write_eom_message` are the functions of those names; the loops of the chunk reader and the chunk
-- writer take fuel, one round more than the bytes there are, and each round uses up a byte or more. A
-- buffered reader's position after an error is not kept, as the session ends there.
--
-- Netconf/RateLimit.antt is pkg/netconf/rate_limit.go. A map of trackers is a list of entries with
-- unique names and the clock is an argument. `check_ip`, `check_user`, `record_failure`,
-- `record_success`, `cleanup` and `get_stats` are the methods; Netconf/RateLimit/Steps.antt makes
-- sequences of them.
--
-- Netconf/Sessions.antt is pkg/netconf/session.go. A session object goes by its UUID: `sessions` holds the
-- objects and `numericIDIndex` their names; the UUID, the clock and `sort.Strings` are arguments. Closing
-- a session calls the release of the datastore for each of its locks. Netconf/Handlers.antt,
-- Netconf/Handlers/Configs.antt and Netconf/Handlers/Dispatch.antt are the handlers of rpc_lock.go,
-- rpc_transaction.go and rpc_config.go, and HandleRPC, checkRBAC and handleKillSession of server.go. A
-- request comes with the object of its session, which the connection keeps when the manager closes the
-- session, and holds what its decoding gave, and `Content` is the interface to the conversion, the merge and
-- the checks of configurations. A handler is a function from its session and the tables to a reply and to
-- both as it leaves them. Netconf/Handlers/Steps.antt runs any sequence of connections, requests, ends and
-- clean-ups over the SQLite datastore, one event after the other; the code runs sessions in parallel,
-- and events that overlap inside one handler are left out, as are failures of the database driver.
--
-- Config/Lexer.antt is pkg/config/lexer.go over runes, with package unicode as the interface `Unicode`;
-- its loops take fuel, two rounds more than the runes that are left to read, and each round reads one.
-- Config/Escape.antt is `EscapeValue` of serializer.go, with the test by which parser.go takes a host name.
--
-- Datastore/Table.antt holds tables with a text key and what the SQL statements do to them;
-- Datastore/Schema.antt the rows, requests and error codes of pkg/datastore/schema.go and of the
-- migrations. Datastore/Locks.antt is pkg/datastore/sqlite_lock.go, Datastore/Commits.antt is
-- sqlite_commit.go and sqlite_config.go. A method is a function from the tables to an error or to the
-- changed tables; `with_tx` keeps the old tables on an error, as the transaction does. SQLite runs one
-- writer at a time, so Datastore/Steps.antt takes any use by many sessions as a list of calls, each
-- with the time of its clock, commits also with the id that they draw. The protection of secrets in
-- the text of a candidate is an argument. Datastore/WellFormed.antt is the invariant of the tables.
--
-- Engine.antt is internal/engine/engine.go over plugins as internal/engine/plugin.go asks for them. A
-- plugin acts on a system whose type is left open. What the engine takes from internal/model and
-- internal/engine/diff.go, the check of a configuration and the comparison of two, is the interface
-- `ConfigModel`. A plugin that keeps its contract satisfies `Undoes` of Engine/Rollback.antt.
--
-- Engine/Diff.antt, Engine/Diff/Equality.antt and Engine/Diff/Compute.antt are internal/engine/diff.go:
-- the interfaces, the protocol sections, and whole configurations. A Go map is a list of entries with
-- unique names. `Section` stands for the parts that only `reflect.DeepEqual` looks at; that function
-- and `sort.Strings` are arguments. Engine/Idempotent.antt fills `ConfigModel` with them.
--
-- Vpp/Naming.antt is pkg/vpp/lcp_naming.go over bytes; what the regular expression finds, the encoded hash
-- and `strings.ToLower` are the arguments `Names`.
--
-- Auth.antt is the table of permissions and `IsPermitted` of internal/auth/auth.go.
--
-- Daemon.antt is the commit hook of cmd/arca-routerd/main.go, `newNETCONFCommitHook`, over the engine and
-- any function that stores a commit, which in Daemon/Agreement.antt is the commit of the datastore;
-- Daemon/Hook.antt hands it to the NETCONF handlers. What reads a candidate's text is an argument.
--
-- Numbers are natural numbers. Times count nanoseconds, and the datastore rounds them to seconds where
-- the code does; a version is kept below 2 ^ 64. Texts are compared as the code compares them, and
-- walked only in the framing and the names of interfaces, as bytes, and in the lexer, as runes.
--
-- Not modelled: the etcd datastore, the XML, XPath and YANG of NETCONF, the SSH server, the parser of the
-- configuration language and its checks, the FRR and VPP plugins, the gRPC and web services, the command
-- line, accounts and keys, audit logs and metrics, and what the build generates. Files, sockets, tickers
-- and log lines have no counterpart either.
mod Prelude
pub mod Datastore
pub mod Netconf
pub mod Engine
pub mod Config
pub mod Vpp
pub mod Daemon
pub mod Auth
