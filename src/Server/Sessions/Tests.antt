-- ===== src/Server/Sessions/Tests.antt =====
-- The daemon's tasks with their actors, at a session that is opened, closed and ends.
use jfterm_muxer.Base.{put, put-same, ◌≡◌, ◌≢◌, refl, true, false, some, bytes}
use jfterm_muxer.Session
use jfterm_muxer.Registry.{get}
use jfterm_muxer.Actor.{Event, close, commands_closed, goes_on, ends, Actor, start, handle}
use jfterm_muxer.Actor.Tests.{one_print, codec, detached_actor, new_session, after_x, end_read}
use jfterm_muxer.Server.{opening, running, new_server, bind_session, session_opened, actor_ended}
use jfterm_muxer.Server.Sessions.{
  Sessions, new_sessions, bound, opened, turns, stops, SessionReaches, unmoved, moved,
}
use jfterm_muxer.Server.Sessions.Laws.{AreServed, SessionReaches-AreServed}

abbrev h0 : Sessions one_print codec 30
h0 = new_sessions one_print codec 30 1

abbrev h1 : Sessions one_print codec 30
h1 = record h0 { server = (bind_session (new_server 1) (bytes "s")).1 }

abbrev h2 : Sessions one_print codec 30
h2 = record {
  server = session_opened h1.server 0 (bytes "s") true;
  actors = put h1.actors 0 (some detached_actor);
}

abbrev closing : Actor one_print codec 30
closing = after_x (handle one_print codec 30 detached_actor (close 0 5))

abbrev h3 : Sessions one_print codec 30
h3 = record h2 { actors = put h2.actors 0 (some closing) }

abbrev over : Actor one_print codec 30
over = after_x (handle one_print codec 30 closing end_read)

abbrev h4 : Sessions one_print codec 30
h4 = record { server = actor_ended h3.server 0 (bytes "s"); actors = put h3.actors 0 (some over) }

opening_lem : (h1.server).tasks 0 ≡ some (record { id = bytes "s"; phase = opening })
unfolding bind_session jfterm_muxer.Registry.attach_or_create jfterm_muxer.Registry.get
opening_lem = refl

running_lem : (h2.server).tasks 0 ≡ some (record { id = bytes "s"; phase = running })
unfolding session_opened put
running_lem = refl

live_lem : Session.is_dead one_print new_session ≡ false
unfolding Session.is_dead_life
live_lem = refl

close_lem : handle one_print codec 30 detached_actor (close 0 5) ≡ some (goes_on, closing)
unfolding handle Session.is_dead_life
close_lem = refl

end_lem : handle one_print codec 30 closing end_read ≡ some (ends, over)
unfolding handle Session.is_dead_life Session.drain jfterm_muxer.Client.forward_data
    jfterm_muxer.Protocol.frame_data
end_lem = refl

end_is_no_loss : end_read ≢ commands_closed
end_is_no_loss e = cc

held2 : h2.actors 0 ≡ some detached_actor
held2 = put-same h1.actors 0 (some detached_actor)

held3 : h3.actors 0 ≡ some closing
held3 = put-same h2.actors 0 (some closing)

-- The session is bound, opened and closed, and its shell ends; its task has not returned.
ended_reach : SessionReaches one_print codec 30 h0 h4
unfolding jfterm_muxer.Actor.is_enabled Session.is_dead_life handle
ended_reach = moved (bound (bytes "s")) (
    moved (opened 0 (bytes "s") new_session opening_lem live_lem) (
      moved
        (turns 0 (bytes "s") detached_actor closing (close 0 5) running_lem held2 refl close_lem)
        (moved
          (stops 0 (bytes "s") closing over end_read running_lem held3 refl
            (λ e. absurd (end_is_no_loss e)) end_lem)
          unmoved)))

SessionReaches-AreServed_example : AreServed one_print codec 30 h4
SessionReaches-AreServed_example = SessionReaches-AreServed one_print codec 30 1 h4 ended_reach
