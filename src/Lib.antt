-- ===== src/Lib.antt =====
-- bigfred-shared-daemon: the crate that the BigFred daemons share, in the directory
-- rust/crates/bigfred-shared-daemon/src of the repository. Its paths are given below from there.
--
-- A daemon resolves its data root, binds a control socket below it as the only process that does,
-- answers framed JSON requests on that socket, and reloads its configuration when a watched file
-- changes. The parts, and the files that model them:
--
-- * ipc/frame.rs in Frame: the codec. `write_frame*` and `read_frame*` are the functions of those
--   names over a reader and a writer (StdIo/Defs), whose contracts are `Delivers` and `Appends`;
--   StdIo/Memory has a slice, a vector and a peer whose bytes come in pieces, and shows that they
--   keep the contracts; StdIo/Duplex is a stream with both directions. The header is in
--   Frame/Header, and what a stream carries in Frame/Wire.
-- * ipc/auth.rs in Auth: `Auth::allows` over the credentials of the peer.
-- * ipc/command.rs in Command: the router (a list of commands with distinct names for the
--   `HashMap`), the connection, and the traits `Command` and `ErrorHandler` as records of
--   functions on a session, which is the daemon's state and the connection.
-- * ipc/server.rs in Server: `dispatch_one`, and `handle_conn` in both session modes; in
--   Server/Accept: the accept loop of `serve_listener` and its counter, as atomic steps of the loop
--   and of its threads; in Server/Threads: the whole of `serve_listener`, that loop with the sessions
--   in its threads, over the one state of the daemon; in Server/Startup: `Server` and how it is
--   bound and started, in the foreground and in a thread; in Server/Conversation: a session with the
--   client that has written its requests by the codec, and in Server/Replies what that client
--   reads; in Server/TestDaemon: `Echo`, `HangupCmd` and `Hooks` of the unit tests.
-- * ipc/bind.rs in Bind: `claim` and `bind` over the calls of the system. Bind/Unix says what the
--   code relies on of them, by what can be seen of the files, sockets that are live or left over
--   (Bind/World, and Bind/Kernel on it); the system may refuse any call, with any error. Bind/Race interleaves two
--   processes.
-- * datadir.rs in DataDir: the data root and the paths below it; FilePath has what the crate uses
--   of `std::path` and of `OsStr::to_str` on Unix.
-- * config/mod.rs in Config: `Live`, with the poisoning of its lock, and `try_reload`; in
--   Config/Shared: threads that reload one `Live`.
-- * config/json.rs in Config/JsonFile: a configuration file and its seeds.
-- * config/watch.rs in Watch (the filters), Watch/Attach (`attach_spec`, `attach_pending`),
--   Watch/Loop (the `loop` of `watch_loop`; a turn is one round of it, with what `recv_timeout`
--   returned and the readings of the clock as its input) and Watch/Start (`spawn_signal`,
--   `spawn_callback`, and `watch_loop` from the creation of its watcher).
-- * config/watch.rs and config/mod.rs together in HotReload: the watch with a callback on the live
--   value, while others change the system; with config/json.rs in HotReload/Saved.
-- * config/sighup.rs in Config/Sighup.
-- * datadir.rs and ipc/bind.rs together in Fleet: the daemons of one data root, which start and stop.
-- * The unit tests of the crate in the files UnitTests beside what they test, as definitions that
--   give what a test observes; Display has the texts of the errors.
--
-- A schedule is a list of actions, which any thread may take in any order. In Server/Threads a
-- command is one action, and so is a call of the error handler, together with the reading of its
-- request; a daemon that locks its state by parts may interleave more finely.
--
-- The server uses the codec through the connection, the authentication, and the router; bind asks
-- Auth for the pid of a live peer; the watch loop uses the filters and the attaching. Fallible
-- code is a function from a state to a `Result` and the next state (Prelude/Fallible).
--
-- Numbers are natural numbers. A length is a `usize` that some memory holds; the header wraps
-- nothing, since it saturates as the code does; the client counter wraps at 2 ^ 64. `read_exact`
-- is by recursion on the accessibility of the number of bytes left, with no bound of its own.
-- `request_loop` has fuel, one for each request: a fuel above the number of unread bytes is
-- enough. `decimal` prints at most ten digits, as many as a `u32` has.
--
-- What is not in this repository enters as a parameter: serde_json (`Frame.Serde`,
-- `Command.Json`, `Config.JsonFile.Serde`), nix (`Credentials`), the system (`Os`, with
-- `Path::display`, of which `IsUnix` says what the code relies on, and `Fs`), `thread::Builder` (`ThreadBuilder`), notify
-- (`Notify`, `Watcher`) and signal_hook (`SignalHook`); and what the daemons bring: their commands,
-- their error handler, and the callback of a watch.
--
-- A `Read` that keeps to `Delivers` returns from every call: its peer closes its side in the end, or
-- the stream fails. What is said of sessions and threads that come to their ends is said of such
-- peers; one that stays connected and sends nothing blocks its thread for as long as it stays.
--
-- Not modelled: a panic of `thread::spawn` in the accept loop where the system has no thread left,
-- and one of `ErrorHandler::reject` on the thread of the accept loop, both of which end that loop;
-- logging; and the texts of the errors of serde_json and of the system, which are parameters of
-- Display.
pub mod Prelude
pub mod StdIo
pub mod FilePath
pub mod DataDir
pub mod Config
pub mod Watch
pub mod Fleet
pub mod HotReload
pub mod Frame
pub mod Auth
pub mod Command
pub mod Bind
pub mod Server
