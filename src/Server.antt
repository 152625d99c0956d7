-- ===== src/Server.antt =====
-- jftermd/src/server.rs, `handle_session` and `session_task`: the sessions of the daemon. The state is
-- the registry and the session tasks, each known by the channel whose receiving side it owns.
pub mod Agree
pub mod Phases
pub mod Invariant
pub mod Laws
pub mod Dispatch
pub mod Sessions
pub mod Tests
use jfterm_muxer.Base.{
  put, ℕ, ◌==◌, Bool, true, false, Option, none, some, List, [], ◌∷◌, if◌then◌else◌, is_some, ◌≡◌,
  ◌≢◌,
}
use jfterm_muxer.Registry.{
  Registry, with_max_sessions, Bind, existing, created, rejected, attach_or_create, remove,
  wait_for_change,
}
use jfterm_muxer.Client.{Outbox}
use jfterm_muxer.Actor.{AttachRequest}

-- The value of an ATTACH_OR_OPEN.
pub record AttachOrOpen : Type 0 where
  pub session_id : List ℕ
  pub cwd : List ℕ
  pub argv : List (List ℕ)
  pub want_chunks : ℕ
  pub cols : ℕ
  pub rows : ℕ

-- A task opens its terminal, runs its actor, or has taken its id out of the registry and is about to
-- return.
pub data Phase : Type 0 where
  opening running leaving : Phase

pub record Task : Type 0 where
  pub id : List ℕ
  pub phase : Phase

pub record Server : Type 0 where
  pub registry : Registry
  pub tasks : ℕ → Option Task

abbrev pub new_server : ℕ → Server
new_server max = record { registry = with_max_sessions max; tasks = λ tx. none }

-- `tokio::spawn(session_task(..))` for a new session.
spawn : Server → List ℕ → Bind × Registry → Bind × Server
unfolding put
spawn s id (created tx, r) = (
  created tx,
  record { registry = r; tasks = put s.tasks tx (some (record { id = id; phase = opening })) },
)
spawn s id (b, r) = (b, record s { registry = r })

-- The first part of `handle_session`: the session is looked up or made, without a wait.
unfoldable pub bind_session : Server → List ℕ → Bind × Server
unfolding spawn
bind_session s id = spawn s id (attach_or_create s.registry id)

pub data Served : Type 0 where
  bad_request refused actor_gone : Served
  attached : ℕ → AttachRequest → Served

-- `cmd_tx.send(SessionCommand::Attach(attach))`: it fails when the task has returned.
unfoldable pub send_attach : Server → ℕ → AttachOrOpen → ℕ → Served
send_attach s tx req out_queue =
    let out : Outbox = record { sent = []; taken = 0; capacity = out_queue; is_open = true } in
    let attach : AttachRequest = record {
      want_chunks = req.want_chunks;
      cols = req.cols;
      rows = req.rows;
      out_tx = out;
    } in
    if is_some (s.tasks tx) then attached tx attach else actor_gone

serve : Server → Bind → AttachOrOpen → ℕ → Served
unfolding send_attach
serve s (existing tx) req out_queue = send_attach s tx req out_queue
serve s (created tx) req out_queue = send_attach s tx req out_queue
serve s rejected req out_queue = refused

-- `handle_session` up to the reader and the writer: what becomes of the connection, and the server
-- after the first part. `parsed` is what the first frame's payload parses to, and `meanwhile` what
-- others do between the lookup and the send.
unfoldable pub handle_session :
    Server → Option AttachOrOpen → (Server → Server) → ℕ → Served × Server
unfolding serve bind_session
handle_session s none meanwhile out_queue = (bad_request, s)
handle_session s (some req) meanwhile out_queue =
    let (b, s') = bind_session s req.session_id in
    (serve (meanwhile s') b req out_queue, meanwhile s')

-- The end of a task: its id leaves the registry, and then the task returns.
unfoldable pub leave : Server → ℕ → List ℕ → Server
unfolding put
leave s tx id = record {
  registry = remove s.registry id;
  tasks = put s.tasks tx (some (record { id = id; phase = leaving }));
}

-- `session_task` when `Session::open` has returned, or its thread has panicked.
unfoldable pub session_opened : Server → ℕ → List ℕ → Bool → Server
unfolding leave
session_opened s tx id true = record s {
  tasks = put s.tasks tx (some (record { id = id; phase = running }));
}
session_opened s tx id false = leave s tx id

-- The end of `actor_loop`.
unfoldable pub actor_ended : Server → ℕ → List ℕ → Server
unfolding leave
actor_ended s tx id = leave s tx id

-- The task returns and drops the receiving side of its channel.
unfoldable pub task_returned : Server → ℕ → Server
unfolding put
task_returned s tx = record s { tasks = put s.tasks tx none }

-- One step of any task of the daemon.
pub data Step : Server → Server → Type 0 where
  binds : {s : Server} (id : List ℕ) → Step s (bind_session s id).1
  opens :
      {s : Server} (tx : ℕ) (id : List ℕ) (is_ok : Bool)
      → s.tasks tx ≡ some (record { id = id; phase = opening })
      → Step s (session_opened s tx id is_ok)
  ends :
      {s : Server} (tx : ℕ) (id : List ℕ)
      → s.tasks tx ≡ some (record { id = id; phase = running })
      → Step s (actor_ended s tx id)
  returns :
      {s : Server} (tx : ℕ) (id : List ℕ)
      → s.tasks tx ≡ some (record { id = id; phase = leaving })
      → Step s (task_returned s tx)
  wakes :
      {s : Server} (r : Registry)
      → wait_for_change s.registry ≡ some r
      → Step s (record s { registry = r })

pub data Reaches : Server → Server → Type 0 where
  here : {s : Server} → Reaches s s
  later : {s t u : Server} → Step s t → Reaches t u → Reaches s u
