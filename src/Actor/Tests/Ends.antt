-- ===== src/Actor/Tests/Ends.antt =====
-- The end of a session, at concrete events.
use jfterm_muxer.Base.{◌≡◌, refl, true, false, some, List, [], ◌∷◌, arith, bytes}
use jfterm_muxer.Pty.{Request, sighup, sigkill, wait_child}
use jfterm_muxer.Protocol.{Result, ok}
use jfterm_muxer.Session
use jfterm_muxer.Registry.{Registry, with_max_sessions, remove}
use jfterm_muxer.Registry.Invariant.{run, bind, run-IsValid}
use jfterm_muxer.Actor.{
  Event, close, readable, Flow, goes_on, ends, Actor, start, handle, Runs, here, turn,
}
use jfterm_muxer.Actor.Loop.Laws.{Finished, actor_loop-Finished}
use jfterm_muxer.Actor.Loop.{actor_loop}
use jfterm_muxer.Actor.Close.{Escalates, close-Escalates}
use jfterm_muxer.Actor.Tests.{
  one_print, codec, new_session, detached_actor, after_x, x_read, end_read,
}

abbrev table : Registry
table = run (with_max_sessions 2) (bind (bytes "s") ∷ (bind (bytes "t") ∷ []))

-- CLOSE, and then the shell ends.
abbrev close_and_end : List Event
close_and_end = close 0 5 ∷ (end_read ∷ [])

abbrev asked : List Request
asked = sighup ∷ (sigkill ∷ (wait_child ∷ []))

closed_lem :
    actor_loop one_print codec 30 true table (bytes "s") new_session close_and_end
    ≡ some (remove table (bytes "s"), asked)
unfolding actor_loop jfterm_muxer.Actor.is_enabled Session.is_dead_life Session.drain
    jfterm_muxer.Client.forward_data jfterm_muxer.Protocol.frame_data Session.hangup
closed_lem = refl

actor_loop-Finished_example :
    Finished one_print codec 30 true new_session close_and_end
      (bytes "s")
      table
      (remove table (bytes "s"))
      asked
unfolding Session.is_dead_life
actor_loop-Finished_example =
    actor_loop-Finished one_print codec 30 2 true new_session close_and_end (bytes "s") table
      (remove table (bytes "s")) asked (run-IsValid 2 (bind (bytes "s") ∷ (bind (bytes "t") ∷ [])))
      refl closed_lem

-- CLOSE with a grace, and output after it.
abbrev closing : Actor one_print codec 30
closing = after_x (handle one_print codec 30 detached_actor (close 300 5))

abbrev still_there : Actor one_print codec 30
still_there = after_x (handle one_print codec 30 closing x_read)

closing_lem : handle one_print codec 30 detached_actor (close 300 5) ≡ some (goes_on, closing)
unfolding handle Session.is_dead_life
closing_lem = refl

still_run : Runs one_print codec 30 closing (x_read ∷ []) still_there
unfolding jfterm_muxer.Actor.is_enabled Session.is_dead_life handle Session.drain
    jfterm_muxer.Engine.feed jfterm_muxer.Scanner.feed jfterm_muxer.Scanner.feed_byte
    jfterm_muxer.Scanner.advance_one jfterm_muxer.Scanner.handle_event jfterm_muxer.Sink.perform_all
    jfterm_muxer.Scanner.keep_span jfterm_muxer.Ring.append jfterm_muxer.Client.forward_data
    jfterm_muxer.Protocol.frame_data
still_run = turn refl refl here

still_live : Session.is_dead one_print still_there.session ≡ false
unfolding Session.is_dead_life handle Session.drain jfterm_muxer.Engine.feed
    jfterm_muxer.Scanner.feed jfterm_muxer.Scanner.feed_byte jfterm_muxer.Scanner.advance_one
    jfterm_muxer.Scanner.handle_event jfterm_muxer.Sink.perform_all jfterm_muxer.Scanner.keep_span
    jfterm_muxer.Ring.append jfterm_muxer.Client.forward_data jfterm_muxer.Protocol.frame_data
still_live = refl

session_live : Session.is_dead one_print new_session ≡ false
unfolding Session.is_dead_life
session_live = refl

close-Escalates_example : Escalates one_print codec 30 still_there 305
close-Escalates_example =
    close-Escalates one_print codec 30 new_session detached_actor closing still_there 300 5 305 []
      (x_read ∷ []) session_live here (ground arith) closing_lem (tt, tt) still_run still_live
      (ground arith)
