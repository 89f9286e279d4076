-- ===== src/Lib.antt =====
-- A model of keycard, an SSH server that gives each connection a room of its own and destroys it
-- when the connection ends.
--
-- A connection authenticates, the server picks a room for its username from the configuration,
-- and a session opens that room through the routing backend, which hands it to the Docker or the
-- Firecracker backend. The session pumps bytes between the SSH channel and the room until the
-- shell exits, the client hangs up, the idle watchdog fires or the server drains; each of these
-- ends in one teardown, which destroys the room or, after a hang-up, pauses it and gives it to a
-- registry that a later connection of the same username takes it from.
--
-- The files, and the source that each models:
--   Prelude: shared names, lists, texts as code points, errors and results, an ordered dict
--     (Prelude/Dict), Python's reading of integers and words (Prelude/Numbers), its printing of
--     integers (Prelude/Decimals), splitting at white space (Prelude/Words) and loops that poll until
--     a deadline (Prelude/Polling).
--   Active: ActiveSessions of src/keycard/session.py.
--   Kept: KeptRooms of src/keycard/session.py (keep, take, _expire, destroy_all).
--   Session: RoomSession of src/keycard/session.py. Session/Types has the fields; Session/Tasks the
--     callbacks and tasks (Channel: the channel's callbacks and _feed; Run: _run; Teardown:
--     _begin_teardown, _run_teardown, _checkout, _release; Reaper: _idle_watchdog, force_close,
--     connection_lost). Each function is the code from one await to the next. Session/Machine
--     is the event loop: an event resumes one task or calls one callback, and a run is any list of
--     events. A task that awaits another hands a cancel on to it, as asyncio does. Session/Machine/
--     Liveness is about endless lists of events.
--   Config: src/keycard/config.py (Types: the dataclasses; Load: load and what it calls; Warnings:
--     _warn_ignored_room_keys; Listen: the host and port properties, with the overrides of `up` in
--     src/keycard/cli.py; Durations: parse_duration and the properties that call it; Toml: what a
--     parsed file is). tomllib, str, int of a value, float and expanduser are parameters.
--   Routing: src/keycard/backends/routing.py. What a backend's own methods give is an argument.
--     Routing/Wrapped has RoutedRoom as a room around any other.
--   Server: src/keycard/server.py. The room of session_requested and _drain in the file itself;
--     Server/Connection has KeycardServer, Server/Serve create_server, serve up to its signal
--     handlers, and the shutdown; Server/Wait the handlers, and the wait in front of the shutdown.
--   Cli: src/keycard/cli.py. `rooms` in the file itself, `up` in Cli/Up: the configuration with its
--     overrides, the server, and which exceptions the operator sees as a message.
--   Banner: src/keycard/banner.py.
--   Hotel: the sessions of one server, which share the registry of kept rooms and that of active
--     sessions: connections arrive, sessions go on one event at a time, and the timers of kept
--     rooms wake, in any order.
--   Rooms: the classes Room and Backend of src/keycard/backends/base.py, as records of operations on
--     a state, which Docker/Interface, Firecracker/Room/Interface and Routing/Wrapped fill; what
--     base.py asks of destroy, as an interface that both kinds of room fill (Docker/Once,
--     Firecracker/Room/Once); and what they make of the exceptions of their sockets.
--   Stay: a session and its room together: the calls that the session makes are carried out on a
--     room, and in particular on a microVM behind RoutedRoom.
--   Docker: src/keycard/backends/docker.py. Arguments: ROOM_DEFAULTS and _room_overrides; Channels:
--     read, write and resize. Each call of the Docker SDK succeeds, is refused, or raises another
--     exception, as the environment says.
--   Firecracker: src/keycard/backends/firecracker.py. Backend: the constructor; Preflight:
--     _preflight and _check_confinement; Debris: reap_debris; Host and Lifecycle: _spawn, _attach,
--     _configure, open and resume over what one room has on the host, where each await may raise
--     what the environment says; Room: destroy and pause of FirecrackerRoom over the same host, and
--     in Room/Channels read, write and resize; Api: the paths of an Instance, firecracker_argv, and
--     the calls of _configure, open, pause and resume with their bodies; Stop: _stop; Images:
--     _copy_rootfs; Exit: parse_exit and _watch_exit; Machine: the limits of one microVM, with
--     fsize_limit of src/keycard/backends/confine.py, and in Machine/Memory parse_memory_mib and
--     machine_config.
--   Guest: the agent inside a microVM, guest-agent/src. Guest itself has the texts of the control
--     channel (parse_resize, the reader's loop, exit_code); Guest/Agent has Session of session.rs
--     and serve of main.rs: shells start and end, connections come, and tasks report, in any order,
--     also while a connection is being attached, one await after the other.
--     Guest/Pty has the bytes of one shell, from the reader of a connection through the queue into
--     the pty and back, one step of a task at a time; Guest/Args parse_args and main of main.rs;
--     Guest/Keystrokes joins the session, the data channel and the agent.
--   Fcapi: src/keycard/backends/fcapi.py. Requests and responses as bytes (Framing, Lengths, Reply
--     and Request are about them), request and _exchange; Ready: wait_ready; Fault: fault_message
--     and the text of an ApiError, over parameters for json.loads and decode.
--   Confine: src/keycard/backends/confine.py. The access masks, plan_for, build_ruleset with its
--     descriptors, and the function that child_setup returns; System: _load_libc, abi_version and
--     child_setup itself; Structs: the two structs of Landlock as bytes. The kernel is a parameter.
--   Vsock: src/keycard/backends/vsock.py.
--
-- Numbers and bounds: rooms, handles, sessions and backends are numbers that stand for an object's
-- identity. Times are whole numbers of one unit. No width is given to an integer, since Python's
-- have none, but in the guest, where the numbers of a resize have to fit 16 bits and a port 32, and in
-- the two structs of Landlock, whose fields are 64 and 32 bits wide; the access masks of Landlock are combined bit by bit, and none reaches beyond bit 14.
-- The loop over the lines of a buffer runs on fuel, one more than the buffer's length; the loops
-- that poll (connect_with_retry, wait_ready, the destroy of a Docker room) run on fuel that is an
-- argument, of which timeout / delay + 1 is enough. A number that is printed and read back is below
-- 10 ^ 19, well within the 4300 digits that Python reads.
--
-- Not modelled: log lines but for the warnings on ignored keys and on rooms without keep, the texts
-- of errors other than an ApiError, asyncssh, the Docker SDK, click, the system calls themselves,
-- json, floating point, asyncio's limit on the length of a head, the bytes of a host key, how the
-- guest agent listens for connections and starts a process on a pty, and the scripts that build disk
-- images: they are input and output, calls of other libraries, or texts. A text's upper-case letters
-- are those below 256, its white space is what Prelude/Numbers lists, and its
-- digits are those of ASCII.
pub mod Active
pub mod Banner
pub mod Cli
pub mod Config
pub mod Confine
pub mod Docker
pub mod Fcapi
pub mod Firecracker
pub mod Guest
pub mod Hotel
pub mod Kept
pub mod Prelude
pub mod Rooms
pub mod Routing
pub mod Server
pub mod Session
pub mod Stay
pub mod Vsock
