-- ===== src/Lib.antt =====
-- tinyproxy-rust: an HTTP and HTTPS forward proxy.
--
-- The program. `main` reads the command line and a configuration file, may turn into a daemon, and
-- starts a server. The server binds its addresses and runs an accept loop for each; it takes at most
-- `max_clients` connections at a time, counts them, and runs a handler for each, until it is shut down.
-- A handler asks the access control, reads the head of one request within 16384 bytes, parses it, asks
-- the authenticator and the filter, and then shows the statistics, opens a tunnel (CONNECT) or sends
-- the request on to the server that it names, and relays what follows in both directions.
--
-- The files.
--   Main                   src/main.rs: the order of the steps of `main`, and `daemonize`
--   Config, Config.Parse   src/config.rs: the record with its default, the lines of the file, one
--                          constructor of `Key` for each option of the `match`
--   Acl                    src/acl.rs: rules, their parser, the mask test
--   Error                  src/error.rs: the errors as a data type
--   Http                   src/utils.rs (the parser of a request, host names, header values) and the
--                          functions on requests of src/connection.rs
--   Tunnel                 src/utils.rs, `copy_bidirectional`
--   Format                 src/utils.rs, `format_bytes`
--   Auth, Filter           src/auth.rs, src/filter.rs
--   Stats, Stats.Page      src/stats.rs: the counters, and the page that shows them
--   Connection             src/connection.rs: `handle` and what it calls; Connection.World has the
--                          sockets and the counters, Connection.Reading the read loop,
--                          Connection.Upstream the target of a plain request and the relay
--   Server, Server.Run     src/server.rs: the accept loops and connection tasks as interleaved steps;
--                          `run` and `shutdown`
--   Proxy                  src/proxy.rs: choice of an upstream, header rewriting
--   Std                    what the program uses of Rust's standard library, by its documentation:
--                          texts as lists of Unicode scalar values, UTF-8 with replacement, lines,
--                          integers, 64-bit floats, addresses, maps as association lists
--   External               the crates base64, regex, url and chrono, as an instance argument `Crates`
--   Samples                concrete values of the parameters for the tests
--   Prelude                tests, lists and results that all parts share
--
-- State. A handler's action is a function from a `World` to a status and a new `World`: the reads that
-- the client's socket will give with the milliseconds that each takes, the outcomes of writes and of
-- connection attempts, the events of the tunnel, the counters, and a trace of what was done to the
-- outside. A call that waits for ever is the
-- status `pending`. Counters are on 64 bits and wrap around, as in a release build. `select!` in the
-- tunnel takes any ready side, so a schedule is any list of events. A map is walked in any order:
-- `Iterates es m` says that `es` lists the entries of `m`. A server is a record of permits, tasks by
-- where they stand, and counters; `Step` is what one task does between two points at which it waits,
-- and `LifeStep` adds `run`, `shutdown` and the end of the accept loops.
--
-- Floats. `F64` is a numerator over a power of two, rounded to 53 digits, to even, after each
-- operation. Only what is not negative is needed. Subnormal numbers and overflow do not occur for the
-- quotients and products of 64-bit numbers that the program forms.
--
-- Bounds and fuel. Loops run by recursion on the list they consume. `print_uint n` has the fuel
-- `n + 1`, enough since each round divides by ten. The search for the exponent of a float has 128
-- rounds, more than the digits of a 64-bit number need. tokio's semaphore holds at most 2^61 - 1
-- permits on a machine of 64 bits, and making a larger one panics: `Server.new` gives none then. Lower
-- case outside ASCII is a parameter with the laws `CaseLaws`, which Unicode's tables satisfy.
--
-- The texts of errors that the program only logs are shortened.
--
-- Not modelled: logging; the sockets themselves, the sleeps of src/server.rs and the standard
-- descriptors of a daemon; clap, env_logger, nix, serde_json and the operating system, whose answers
-- are arguments.
pub mod Prelude
pub mod Std
pub mod Config
pub mod Acl
pub mod Error
pub mod Http
pub mod External
pub mod Samples
pub mod Auth
pub mod Filter
pub mod Format
pub mod Stats
pub mod Tunnel
pub mod Connection
pub mod Server
pub mod Proxy
pub mod Main
