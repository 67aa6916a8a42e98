-- ===== src/Lib.antt =====
-- A model of LDAP Manager: the service that manages the users and groups of an OpenLDAP server.
--
-- The program has three layers. `LDAPManager` (ldap_manager.go and its neighbours at the root of the
-- repository) turns each operation into requests to the directory server: searches, additions,
-- modifications, renamings, deletions and binds. The gRPC server (cmd/ldap-manager/grpc) checks the
-- token of a call against the policy of its route, then calls the manager and turns its errors into
-- statuses. The service itself, with the policy of each method, is ldap_manager.proto. Around them is
-- the process (cmd/ldap-manager): the command line, the base server, which sets the manager up, the
-- HTTP server in front of the gRPC server, and the goroutines that start and stop all of these.
--
-- How the code is modelled. A function of the manager is a function in `Exec`: it takes the state of
-- the directory server and returns a value or an error, and the state it leaves behind; what was
-- sent before an error stays sent, as in the program. The directory server and the LDAP library
-- are a parameter, `Env`: any state, any answer to each request, `GetAttributeValue`,
-- `EscapeFilter`, what the expression of `extractAttribute` captures for an attribute that is not
-- plain text in it, the case mappings of `strings` beyond ASCII, the digests and the random bytes. A
-- handler is in `Serve`: it returns a value or a status. `(T, error)` is `Result`; an error that
-- the code keeps for later is bound by `attempt` and handled by `rescue`. An `int` is a signed
-- integer, with its wrap-around written out where the code adds one; a string is its list of bytes.
--
-- Which file models what:
--   Text/Escape, Text/Filter, Text/Extract, Manager/Lookup, Manager/Ids: utils.go (`escapeDN`,
--     `parseFilter`, `extractAttribute`; `findGroup`, `getGroupByGID`, `updateLastID`;
--     `getHighestID`). Text/Decimal and Text/Split are what the code uses of `strconv` and of
--     `strings.Split`, Text/Regex its regular expression for addresses, by derivatives.
--   Listing: the sorting and clipping that GetUserList, GetGroupList and GetGroup share.
--   Manager: config/config.go, the configuration in ldap_manager.go, and the names
--     (`AccountNamed`, `GroupNamed`, `IsProtectedGroup`).
--   Manager/Validation, Manager/Accounts, Manager/AccountGroup, Manager/Creation, Manager/Update:
--     accounts.go. Manager/Groups: groups.go. Manager/Members: group_members.go.
--     Manager/Password: change_password.go. Manager/LastId, Manager/Setup: setup.go and `Setup`.
--   Error: errors.go and the error types of the other files. Hash: hash/hash.go. Hash/Hash64 and
--     Hash/Crypt: hash/crypt.go.
--   Server, Server/Handlers: cmd/ldap-manager/grpc. Server/Rpc: the service of ldap_manager.proto.
--     Server/Rest: its paths, and the requests of grpc/ldap-manager/ldap_manager.pb.gw.go.
--   Daemon: cmd/ldap-manager/base/server.go (`Shutdown`, `Setup`, `Connect`). Daemon/Flags: the flags
--     of cmd/ldap-manager/server.go. Daemon/Options: `NewLDAPManagerServer`, from the flags to the
--     configuration. Daemon/Gateway: the routes of cmd/ldap-manager/http/server.go, on the paths of
--     Text/Path. Daemon/Threads: `main` with its action and its handler of signals, and `Serve` and
--     `Shutdown` of both servers, one step at a time; Daemon/Threads/Steps has the steps and the runs.
--   Hash/Blowfish: hash/blowfish.go, on the encodings of Hash/Base64.
--   Directory: requests, answers and entries of the LDAP library, and `Env`.
--   Exec/Keeps, Exec/Ensures, Exec/Succeeds, Exec/Traffic: rules for invariants of the server's
--     state, for values that are returned, for what holds behind a success, and for the requests that
--     are sent. Manager/Requests has for each operation which kinds of requests it sends. Manager/Groups/Numbering is about the numbers that new groups
--     get on a server with a record of the last one. Examples holds runs and applications at
--     concrete inputs.
--
-- The process is a transition system. A state has where each of four goroutines stands (`Serve` of the
-- gRPC and of the HTTP server, the action of the command `serve`, and the handler of signals), the two
-- mutexes, the wait group, the variables and the shared base server with the directory server behind
-- it. Each goroutine has a family of steps, and a run interleaves them in any order. What `Service` of
-- go-grpc-service does is a parameter, `Library`, with its laws in `IsLibrary`; a call that waits, like
-- `ServeGrpc`, may return at any time, and one that may fail does both.
--
-- Bounds and fuel. `itoa` has fuel for 20 digits: an `int` has at most 19. The two loops of `Crypt`
-- over the length of the key have that length for fuel; one of them takes 16 off the length each
-- time and the other halves it. Every other loop of the code runs over a list that it has, or a fixed
-- number of times, and is structural recursion. The counts of entries are of any size, except where
-- a result is cut to `int32`.
--
-- Not modelled: the connection itself (dialling, TLS and the authenticator's keys are outcomes that
-- the set-up takes), logging, the texts of formatted errors beyond their format and arguments, the
-- usage texts of flags, how urfave/cli reads them, the redirection of requests for other hosts,
-- the generated messages and stubs (the other files of grpc/ldap-manager), the frontend and the tests.
-- The mux of grpc-gateway, which picks the route, its decoders and the writing of its responses are
-- parameters or left out. The process ends when its action
-- returns or a goroutine panics; it is not ended from outside. Regular expressions
-- read bytes, not runes; the two texts differ only in where a byte above 0x7f is refused. The map
-- of users is an association list with at most one pair for a key; its keys are sorted before use.
pub mod Base
pub mod Text
pub mod Hash
pub mod Directory
pub mod Error
pub mod Exec
pub mod Dict
pub mod Listing
pub mod Manager
pub mod Server
pub mod Daemon
pub mod Examples
