-- ===== src/Server/Sessions/Laws.antt =====
-- The sessions that the daemon's tasks hold in every state (`session_task` and `actor_loop` of
-- jftermd/src/server.rs).
use jfterm_muxer.Base.{
  put-same, ℕ, ◌≡◌, ◌≢◌, refl, sym, subst, ◌⊎◌, true, false, Option, none, some, List,
}
use jfterm_muxer.Vte.{Vte}
use jfterm_muxer.Registry.{get, is_empty}
use jfterm_muxer.Client.{Json}
use jfterm_muxer.Actor.{Actor, is_dead}
use jfterm_muxer.Actor.Keeps.{IsSound}
use jfterm_muxer.Server.{
  Phase, opening, running, leaving, Task, Server, new_server, bind_session, session_opened,
  actor_ended, task_returned, spawn, leave, Step, binds, opens, returns, wakes,
}
use jfterm_muxer.Server.Agree.{Serves, IsConsistent, running_is_not_leaving}
use jfterm_muxer.Server.Invariant.{Step-IsConsistent, new-IsConsistent}
use jfterm_muxer.Server.Laws.{empty-idle}
use jfterm_muxer.Server.Sessions.{
  Sessions, new_sessions, SessionStep, bound, opened, not_watched, not_opened, turns, stops,
  returned, woken, SessionReaches, unmoved, moved,
}
use jfterm_muxer.Server.Sessions.Held.{Broken, Holds, Held, AllHeld, SessionStep-AllHeld}

module _ (vte : Vte) (json : Json) (dead_grace : ℕ) where
  SessionStep-IsConsistent :
      (max : ℕ) (h k : Sessions vte json dead_grace)
      → SessionStep vte json dead_grace h k
      → IsConsistent max h.server
      → IsConsistent max k.server
  unfolding session_opened
  SessionStep-IsConsistent max h _ (bound id) c =
      Step-IsConsistent max h.server (bind_session h.server id).1 (binds id) c
  SessionStep-IsConsistent max h _ (opened tx id s e l) c =
      Step-IsConsistent max h.server (session_opened h.server tx id true) (opens tx id true e) c
  SessionStep-IsConsistent max h _ (not_watched tx id s e l) c =
      let s' = session_opened h.server tx id true in
      let c' = Step-IsConsistent max h.server s' (opens tx id true e) c in
      let t : Option Task = some (record { id = id; phase = running }) in
      Step-IsConsistent max s' (actor_ended s' tx id)
        (jfterm_muxer.Server.ends tx id (put-same (h.server).tasks tx t)) c'
  SessionStep-IsConsistent max h _ (not_opened tx id e) c =
      Step-IsConsistent max h.server (session_opened h.server tx id false) (opens tx id false e) c
  SessionStep-IsConsistent max h _ (turns tx id x b e p q g f) c = c
  SessionStep-IsConsistent max h _ (stops tx id x b e p q g o f) c =
      Step-IsConsistent max h.server (actor_ended h.server tx id) (jfterm_muxer.Server.ends tx id p)
        c
  SessionStep-IsConsistent max h _ (returned tx id e) c =
      Step-IsConsistent max h.server (task_returned h.server tx) (returns tx id e) c
  SessionStep-IsConsistent max h _ (woken r e) c =
      Step-IsConsistent max h.server (record h.server { registry = r }) (wakes r e) c

  -- A session that the table lists: its task opens it, or runs its actor, which is sound.
  abbrev pub IsServed : Option Task → Option (Actor vte json dead_grace) → List ℕ → Type 0
  IsServed t none id = t ≡ some (record { id = id; phase = opening })
  IsServed t (some a) id =
      (t ≡ some (record { id = id; phase = running })) × IsSound vte json dead_grace a

  pub record AreServed (h : Sessions vte json dead_grace) : Type 0 where
    pub listed :
        (id : List ℕ) (tx : ℕ)
        → get id (h.server).registry.sessions ≡ some tx
        → IsServed ((h.server).tasks tx) (h.actors tx) id
    pub left :
        (tx : ℕ) (a : Actor vte json dead_grace)
        → is_empty (h.server).registry ≡ true
        → h.actors tx ≡ some a
        → (is_dead vte json dead_grace a ≡ true) ⊎ Broken vte json dead_grace a

  abbrev AllKept : ℕ → Sessions vte json dead_grace → Type 0
  AllKept max h = IsConsistent max h.server × AllHeld vte json dead_grace (h.server).tasks h.actors

  SessionReaches-AllKept :
      (max : ℕ) (h k : Sessions vte json dead_grace)
      → SessionReaches vte json dead_grace h k
      → AllKept max h
      → AllKept max k
  SessionReaches-AllKept max h _ unmoved c = c
  SessionReaches-AllKept max h _ (moved {k = t} {l = k} x r) (c, a) =
      SessionReaches-AllKept max t k r (
        SessionStep-IsConsistent max h t x c,
        SessionStep-AllHeld vte json dead_grace max h t x c a,
      )

  phase-IsServed :
      (p : Phase) (id : List ℕ) (x : Option (Actor vte json dead_grace))
      → p ≢ leaving
      → Holds vte json dead_grace p x
      → IsServed (some (record { id = id; phase = p })) x id
  phase-IsServed opening id none o h = refl
  phase-IsServed opening id (some a) o h = absurd h
  phase-IsServed running id none o h = absurd h
  phase-IsServed running id (some a) o h = (refl, h)
  phase-IsServed leaving id x o h = absurd (o refl)

  serving-IsServed :
      (t : Option Task) (x : Option (Actor vte json dead_grace)) (id : List ℕ)
      → Serves t id
      → Held vte json dead_grace t x
      → IsServed t x id
  serving-IsServed none x id s h = absurd s
  serving-IsServed (some t) x id (e, o) h =
      subst (λ k. IsServed (some (record { id = k; phase = t.phase })) x id) (sym e)
        (phase-IsServed t.phase id x o h)

  phase_left :
      (p : Phase) (a : Actor vte json dead_grace)
      → (p ≢ leaving → ⊥)
      → Holds vte json dead_grace p (some a)
      → Holds vte json dead_grace leaving (some a)
  phase_left opening a o h = absurd h
  phase_left running a o h = absurd (o running_is_not_leaving)
  phase_left leaving a o h = h

  task_left :
      (t : Option Task) (a : Actor vte json dead_grace)
      → ((id : List ℕ) → ¬ Serves t id)
      → Held vte json dead_grace t (some a)
      → Holds vte json dead_grace leaving (some a)
  task_left none a o h = absurd h
  task_left (some t) a o h = phase_left t.phase a (λ n. o t.id (refl, n)) h

  -- In every state that the daemon's tasks reach with their actors, from an empty table: a session that
  -- the table lists is being opened by its task and has no actor yet, or its task runs its actor, which
  -- is sound; and when the table is empty, which is what the idle exit asks, a session that a task still
  -- holds has a dead shell, or could not be watched, or a read of its terminal or the reaping of its
  -- shell failed: it is never one that ended for want of senders of commands.
  pub SessionReaches-AreServed :
      (max : ℕ) (h : Sessions vte json dead_grace)
      → SessionReaches vte json dead_grace (new_sessions vte json dead_grace max) h
      → AreServed h
  SessionReaches-AreServed max h r =
      let (c, held) =
        SessionReaches-AllKept max (new_sessions vte json dead_grace max) h r
          (new-IsConsistent max, λ k. tt) in
      record {
        listed = λ id tx e.
            serving-IsServed ((h.server).tasks tx) (h.actors tx) id (c.served id tx e) (held tx);
        left = λ tx a e q.
            task_left ((h.server).tasks tx) a (λ id. empty-idle max h.server tx id c e)
              (subst (λ x. Held vte json dead_grace ((h.server).tasks tx) x) q (held tx));
      }
