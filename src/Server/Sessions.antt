-- ===== src/Server/Sessions.antt =====
-- The session tasks of jftermd/src/server.rs with the actors that they run (`session_task`,
-- `actor_loop`): the daemon's server, and for each task its session, from the open to the drop.
pub mod Held
pub mod Laws
pub mod Tests
use jfterm_muxer.Base.{put, ℕ, ◌≡◌, ◌≢◌, true, false, Option, none, some, List}
use jfterm_muxer.Vte.{Vte}
use jfterm_muxer.Session
use jfterm_muxer.Session.{Session}
use jfterm_muxer.Registry.{Registry, get, wait_for_change}
use jfterm_muxer.Client.{Json}
use jfterm_muxer.Actor.{Event, commands_closed, goes_on, ends, Actor, start, is_enabled, handle}
use jfterm_muxer.Server.{
  opening, running, leaving, Server, new_server, bind_session, session_opened, actor_ended,
  task_returned,
}

module _ (vte : Vte) (json : Json) (dead_grace : ℕ) where
  pub record Sessions : Type 0 where
    pub server : Server
    pub actors : ℕ → Option (Actor vte json dead_grace)

  abbrev pub new_sessions : ℕ → Sessions
  new_sessions max = record { server = new_server max; actors = λ tx. none }

  -- One step of any task: a connection binds an id; a task's open succeeds, with `AsyncFd` or without
  -- it, or fails; its actor takes a turn, or its last one, and the id leaves the registry; the task
  -- returns and drops the session. An entry of the registry is a sender of commands, so that an actor
  -- can find all senders gone only when it has no entry.
  pub data SessionStep : Sessions → Sessions → Type 0 where
    bound :
        {h : Sessions} (id : List ℕ)
        → SessionStep h (record h { server = (bind_session h.server id).1 })
    opened :
        {h : Sessions} (tx : ℕ) (id : List ℕ) (s : Session vte)
        → (h.server).tasks tx ≡ some (record { id = id; phase = opening })
        → Session.is_dead vte s ≡ false
        → SessionStep h (record {
          server = session_opened h.server tx id true;
          actors = put h.actors tx (some (start vte json dead_grace s));
        })
    not_watched :
        {h : Sessions} (tx : ℕ) (id : List ℕ) (s : Session vte)
        → (h.server).tasks tx ≡ some (record { id = id; phase = opening })
        → Session.is_dead vte s ≡ false
        → SessionStep h (record {
          server = actor_ended (session_opened h.server tx id true) tx id;
          actors = put h.actors tx (some (start vte json dead_grace s));
        })
    not_opened :
        {h : Sessions} (tx : ℕ) (id : List ℕ)
        → (h.server).tasks tx ≡ some (record { id = id; phase = opening })
        → SessionStep h (record h { server = session_opened h.server tx id false })
    turns :
        {h : Sessions} (tx : ℕ) (id : List ℕ) (a b : Actor vte json dead_grace) (e : Event)
        → (h.server).tasks tx ≡ some (record { id = id; phase = running })
        → h.actors tx ≡ some a
        → is_enabled vte json dead_grace a e ≡ true
        → handle vte json dead_grace a e ≡ some (goes_on, b)
        → SessionStep h (record h { actors = put h.actors tx (some b) })
    stops :
        {h : Sessions} (tx : ℕ) (id : List ℕ) (a b : Actor vte json dead_grace) (e : Event)
        → (h.server).tasks tx ≡ some (record { id = id; phase = running })
        → h.actors tx ≡ some a
        → is_enabled vte json dead_grace a e ≡ true
        → (e ≡ commands_closed → get id (h.server).registry.sessions ≢ some tx)
        → handle vte json dead_grace a e ≡ some (ends, b)
        → SessionStep h
            (record { server = actor_ended h.server tx id; actors = put h.actors tx (some b) })
    returned :
        {h : Sessions} (tx : ℕ) (id : List ℕ)
        → (h.server).tasks tx ≡ some (record { id = id; phase = leaving })
        → SessionStep h
            (record { server = task_returned h.server tx; actors = put h.actors tx none })
    woken :
        {h : Sessions} (r : Registry)
        → wait_for_change (h.server).registry ≡ some r
        → SessionStep h (record h { server = record h.server { registry = r } })

  pub data SessionReaches : Sessions → Sessions → Type 0 where
    unmoved : {h : Sessions} → SessionReaches h h
    moved : {h k l : Sessions} → SessionStep h k → SessionReaches k l → SessionReaches h l
