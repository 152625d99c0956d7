-- ===== src/Lib.antt =====
-- jfterm-muxer: the replay engine and the session daemon of a terminal.
--
-- The program keeps shells alive across the connections of a terminal. A daemon owns one
-- pseudo-terminal for each session; what a shell writes is forwarded to the attached client and fed to
-- an engine, which keeps a sanitized, replayable copy for the next client that attaches.
--
-- The parts, and the files that model them:
-- core/src/ring.rs, a ring of chunks with prologues: Ring.
-- core/src/status.rs and core/src/sticky.rs, the state that the scanner tracks: Status, Sticky.
-- core/src/scanner.rs, the callbacks of the parser: Sink; the scanner: Scanner. Scanner.Sanitize is the
-- description it is compared with, a sanitizer with no ring, no cache and no UTF-8 counter.
-- core/src/engine.rs, the scanner at its production watermark: Engine.
-- jftermd/src/protocol.rs, frames and their decoder: Protocol.
-- jftermd/src/registry.rs, the table of sessions: Registry.
-- jftermd/src/pty.rs, the loops over the kernel's answers: Pty; the start of a shell: Pty.Spawn.
-- jftermd/src/session.rs, a shell with its engine and its life: Session.
-- jftermd/src/server.rs, the client of an actor: Client; the actor's loop: Actor, and its end:
-- Actor.Loop; the halves of a connection: Connection, with the writer in Connection.Writer,
-- both halves together in Connection.Halves and the control connection in Connection.Control; the
-- session tasks beside the registry, and the dispatch of a connection: Server, Server.Dispatch; the tasks
-- with the actors that they run: Server.Sessions; the watcher that ends an idle daemon: Idle.
-- jftermd/src/daemonize.rs, jftermd/src/socket.rs and jftermd/src/main.rs, the start: Daemon, with the
-- whole of it in Daemon.Main and the standard streams in Daemon.Redirect.
-- Base has what they share, Utf8 the validation of the standard library, and Samples a scripted parser
-- for the tests, which stand beside each part in a module Tests.
--
-- State is passed on: a method that takes `&mut self` is a function to the new state, and one that may
-- panic gives an Option. A field or a method has its name in the source; `new` of a type is `new` of its
-- module. A byte, a word and an exit status is a number below its bound, and the wrap of the frame length
-- to 32 bits is written out. The parser of the `vte` crate is a parameter (Vte): an unknown state, and
-- for each byte the callbacks it makes. The JSON of serde_json is a parameter too (Json of Client, Decode
-- of Connection). The kernel's answers (reads, waits, locks, file metadata, the clock) are arguments, and
-- requests to it are results. The actor's loop is the relation Runs of Actor over Events: any enabled arm
-- may be taken, of which the order of `biased` (Actor.Select) is a case, and the steps of the writer task
-- on the other end of the client's channel are events of their own. The watcher of Idle is interleaved with the
-- registry's operations in the same way, and so are the session tasks of Server, whose state is the
-- registry and the phase of each task; Server.Sessions adds each task's actor and its turns.
-- Actor.Delivery follows the output from the terminal to the client's decoder, and Server.Dispatch.Laws
-- a connection from its peer's uid to the actor's commands.
--
-- Fuel: Protocol.chunks takes the length of the bytes, since a chunk takes one at least; Decoder.drain
-- and Connection.frames_loop take the number of unread bytes, since a frame takes five at least;
-- Connection.Control.control_loop takes the number of bytes still to come and one more;
-- Base.digits takes a number's successor. The 200 rounds of the reap loop and of the wait for the
-- child's process group are the code's own.
--
-- Not modelled: the accept loop, which spawns a task for each connection; the child's side
-- between the fork and the exec of a shell; tracing and signals. These are calls of the system or of
-- tokio only. The lock file is one answer: what several daemons do with it is not modelled.
pub mod Base
pub mod Ring
pub mod Status
pub mod Sticky
pub mod Utf8
pub mod Vte
pub mod Samples
pub mod Sink
pub mod Scanner
pub mod Engine
pub mod Protocol
pub mod Registry
pub mod Pty
pub mod Session
pub mod Client
pub mod Actor
pub mod Connection
pub mod Idle
pub mod Daemon
pub mod Server
