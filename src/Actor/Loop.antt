-- ===== src/Actor/Loop.antt =====
-- The whole of `actor_loop` of jftermd/src/server.rs: its turns until one ends it, and what it leaves
-- behind.
pub mod Over
pub mod Laws
use jfterm_muxer.Base.{
  none_is_not_some, ℕ, ◌≡◌, ◌≢◌, refl, sym, ap, ◌∙◌, subst, inl, inr, ◌⊎◌, Bool, true, false,
  Option, none, some, some-injective, List, [], ◌∷◌, ◌++◌, if◌then◌else◌, Bool-cases, Option-cases,
  >>=-eq-some, bytes_eq, bytes_eq_iff, if-elim, is_some, ◌+◌,
}
use jfterm_muxer.Vte.{Vte}
use jfterm_muxer.Protocol.{Result, ok, err}
use jfterm_muxer.Pty.{Request, DrainResult, drop_pty, sigkill, wait_child}
use jfterm_muxer.Session
use jfterm_muxer.Session.{Session, is_dead_life, DrainOutcome}
use jfterm_muxer.Session.Laws.{Exit, drain-Drained}
use jfterm_muxer.Registry.{Registry, get, remove}
use jfterm_muxer.Registry.Invariant.{IsValid, remove-get}
use jfterm_muxer.Client.{Json, forward_data}
use jfterm_muxer.Actor.Keeps.{ok_is_no_err, IsSound, update_client-Keeps}
use jfterm_muxer.Actor.Invariant.{Runs-IsSound}
use jfterm_muxer.Actor.{
  Event, commands_closed, input, resize, info, close, attach, readable, readable_failed, grace_over,
  kill_due, tick, writer_takes, writer_stops, Flow, goes_on, ends, Actor, start, is_enabled, handle,
  Runs, here, turn, AttachRequest, is_dead, is_due, on_input, on_resize, on_info, on_kill, on_tick,
  on_close, on_attach, attach_client, on_exit, after_drain, on_readable, update_client,
}

module _ (vte : Vte) (json : Json) (dead_grace : ℕ) where
  abbrev Turn : Type 0
  Turn = Flow × Actor vte json dead_grace

  -- The loop on the turns that it takes; `none` when an arm is not enabled, a read does not come to an
  -- end, or the loop has ended before the last of them.
  unfoldable pub run_turns : Actor vte json dead_grace → List Event → Option Turn
  unfolding handle
  run_turns a [] = some (goes_on, a)
  run_turns a (e ∷ es) =
      if is_enabled vte json dead_grace a e
      then elim (handle vte json dead_grace a e) [
        | none ↦ none
        | some (goes_on, b) ↦ run_turns b es
        | some (ends, b) ↦ elim es [ [] ↦ some (ends, b) | _ ↦ none ]
      ]
      else none

  after_turns : Registry → List ℕ → Option Turn → Option (Registry × List Request)
  after_turns registry id none = none
  after_turns registry id (some (goes_on, b)) = none
  after_turns registry id (some (ends, b)) = some (remove registry id, b.requests ++ drop_pty)

  -- `actor_loop`, when its last turn has ended it: the table without the id, and the requests to the
  -- kernel, the last of which come with the drop of the session. `is_registered` is the answer of
  -- `AsyncFd::with_interest`, and `registry` the table at the end.
  unfoldable pub actor_loop :
      Bool → Registry → List ℕ → Session vte → List Event → Option (Registry × List Request)
  unfolding run_turns after_turns
  actor_loop false registry id s es = some (remove registry id, drop_pty)
  actor_loop true registry id s es =
      after_turns registry id (run_turns (start vte json dead_grace s) es)
