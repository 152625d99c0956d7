-- ===== src/Actor/Tests.antt =====
-- The actor's theorems at a concrete session and client.
pub mod Delivery
pub mod Ends
use jfterm_muxer.Base.{
  ℕ, ◌+◌, Bool, ◌≡◌, refl, true, false, Option, none, some, [], ◌∷◌, arith, bytes, length,
}
use jfterm_muxer.Vte.{Vte, print}
use jfterm_muxer.Samples.{scripted}
use jfterm_muxer.Status.{StatusSnapshot}
use jfterm_muxer.Engine
use jfterm_muxer.Scanner
use jfterm_muxer.Sink
use jfterm_muxer.Ring
use jfterm_muxer.Client
use jfterm_muxer.Protocol.{Result, ok, data_frame, frame_data}
use jfterm_muxer.Session
use jfterm_muxer.Session.{Session, live, is_dead_life}
use jfterm_muxer.Client.{drop_client, exit_frame, Outbox, Json, status_frame}
use jfterm_muxer.Client.Laws.{extended, HasRoom}
use jfterm_muxer.Actor.{
  AttachRequest, Event, attach, readable, Actor, start, effective_status, on_attach, attach_client,
  on_readable, after_drain, on_exit, is_enabled, handle, Runs, here, turn, Flow, goes_on,
}
use jfterm_muxer.Actor.Invariant.{Runs-IsSound}
use jfterm_muxer.Actor.Keeps.{IsSound}
use jfterm_muxer.Actor.Exit.{IsTold, readable-tells}
use jfterm_muxer.Actor.Stream.{data_of}
use jfterm_muxer.Actor.Attach.{replay_of, greeting, on_attach-greets, attach-stream}
use jfterm_muxer.Actor.Current.{last_of, attach-status}

abbrev pub one_print : Vte
one_print = scripted ((print 120 ∷ []) ∷ [])

-- The `running` flag as one byte, and an exit code as itself.
abbrev pub codec : Json
codec = record {
  status_msg = λ s. elim s.running [ true ↦ 1 ∷ [] | false ↦ 0 ∷ [] ];
  exit_msg = λ code. code ∷ [];
}

abbrev pub new_session : Session one_print
new_session = record {
  id = bytes "s";
  argv = bytes "sh" ∷ [];
  cwd = bytes "/";
  engine = Engine.new one_print;
  cols = 80;
  rows = 24;
  created_at = 0;
  lifecycle = live;
}

abbrev queue : Outbox
queue = record { sent = []; taken = 0; capacity = 8; is_open = true }

abbrev request_all : AttachRequest
request_all = record { want_chunks = 0; cols = 80; rows = 24; out_tx = queue }

abbrev not_busy : Result ℕ Bool
not_busy = ok false

abbrev pub detached_actor : Actor one_print codec 30
detached_actor = start one_print codec 30 new_session

queue-HasRoom :
    HasRoom queue
      (length (frame_data (replay_of one_print codec 30 detached_actor request_all)) + 2)
unfolding Session.replay_for_attach Engine.replay Scanner.replay Ring.replay frame_data
queue-HasRoom = record { is_open = refl; room = ground arith }

abbrev attached : Actor one_print codec 30
attached = (on_attach one_print codec 30 detached_actor request_all true not_busy).1

attached_lem :
    handle one_print codec 30 detached_actor (attach request_all true not_busy)
    ≡ some (goes_on, attached)
unfolding handle on_attach attach_client Session.resize is_dead_life
attached_lem = refl

-- The shell writes `x`.
abbrev x_read : Event
x_read = readable (ok (record { bytes = bytes "x"; eof = false })) (ok none) not_busy 0

abbrev pub after_x : Option (Flow × Actor one_print codec 30) → Actor one_print codec 30
after_x none = attached
after_x (some x) = x.1

abbrev written : Actor one_print codec 30
written = after_x (handle one_print codec 30 attached x_read)

written_lem : handle one_print codec 30 attached x_read ≡ some (goes_on, written)
unfolding handle on_attach attach_client Session.resize is_dead_life on_readable Session.drain
    Engine.feed Scanner.feed Scanner.feed_byte Scanner.advance_one Scanner.handle_event
    Sink.perform_all Scanner.keep_span Ring.append after_drain on_exit
written_lem = refl

x_enabled : is_enabled one_print codec 30 attached x_read ≡ true
unfolding is_enabled on_attach attach_client Session.resize is_dead_life
x_enabled = refl

one_run : Runs one_print codec 30 attached (x_read ∷ []) written
one_run = turn x_enabled written_lem here

abbrev idle_status : StatusSnapshot
idle_status = record { running = false; progress = none }

abbrev two_sent : Outbox
two_sent = record queue {
  sent = status_frame codec idle_status ∷ (record { ty = data_frame; payload = bytes "x" } ∷ []);
}

written-client : written.client.current ≡ some two_sent
unfolding handle on_attach attach_client Session.resize is_dead_life on_readable Session.drain
    Engine.feed Scanner.feed Scanner.feed_byte Scanner.advance_one Scanner.handle_event
    Sink.perform_all Scanner.keep_span Ring.append after_drain on_exit
    jfterm_muxer.Client.forward_data frame_data jfterm_muxer.Client.replace
    jfterm_muxer.Client.send_ignored jfterm_muxer.Client.send_all_ignored Session.replay_for_attach
    Engine.replay Scanner.replay Ring.replay Engine.has_prompt_marking Scanner.saw_prompt_marker
    Ring.should_cut effective_status Session.poll_running Engine.status Scanner.status
written-client = refl

attach-status_example :
    last_of none two_sent.sent
    ≡ some (
        status_frame codec
          (effective_status one_print codec 30 written.session written.poll_running))
attach-status_example =
    attach-status one_print codec 30 detached_actor attached written request_all true not_busy
      (x_read ∷ []) two_sent queue-HasRoom attached_lem (tt, tt) one_run written-client

on_attach-greets_example :
    (let (flow, b) = on_attach one_print codec 30 detached_actor request_all true not_busy in
      (b.client ≡ record {
        current = some (extended queue (greeting one_print codec 30 b.session b.poll_running 0));
        gone = [];
      })
      × (b.last_status ≡ some (effective_status one_print codec 30 b.session b.poll_running))
      × (flow ≡ goes_on))
unfolding drop_client is_dead_life
on_attach-greets_example =
    on_attach-greets one_print codec 30 detached_actor request_all true not_busy queue-HasRoom

-- The attach and the write, from the start.
attached_run :
    Runs one_print codec 30 detached_actor
      (attach request_all true not_busy ∷ (x_read ∷ []))
      written
unfolding is_enabled
attached_run = turn refl attached_lem one_run

Runs-IsSound_example : IsSound one_print codec 30 written
unfolding is_dead_life
Runs-IsSound_example =
    Runs-IsSound one_print codec 30 new_session (attach request_all true not_busy ∷ (x_read ∷ []))
      written refl attached_run

-- The shell ends with status 3.
abbrev pub end_read : Event
end_read = readable (ok (record { bytes = []; eof = true })) (ok (some 3)) not_busy 0

abbrev ended : Actor one_print codec 30
ended = after_x (handle one_print codec 30 attached end_read)

ended_lem : handle one_print codec 30 attached end_read ≡ some (goes_on, ended)
unfolding handle on_attach attach_client Session.resize is_dead_life on_readable Session.drain
    Engine.feed Scanner.feed Scanner.feed_byte Scanner.advance_one Scanner.handle_event
    Sink.perform_all Scanner.keep_span Ring.append after_drain on_exit
    jfterm_muxer.Client.forward_data frame_data jfterm_muxer.Client.replace
    jfterm_muxer.Client.send_ignored jfterm_muxer.Client.send_all_ignored Session.replay_for_attach
    Engine.replay Scanner.replay Ring.replay Engine.has_prompt_marking Scanner.saw_prompt_marker
    Ring.should_cut effective_status Session.poll_running Engine.status Scanner.status
ended_lem = refl

abbrev told : Outbox
told = record queue { sent = status_frame codec idle_status ∷ (exit_frame codec 3 ∷ []) }

ended-client : ended.client.current ≡ some told
unfolding handle on_attach attach_client Session.resize is_dead_life on_readable Session.drain
    Engine.feed Scanner.feed Scanner.feed_byte Scanner.advance_one Scanner.handle_event
    Sink.perform_all Scanner.keep_span Ring.append after_drain on_exit
    jfterm_muxer.Client.forward_data frame_data jfterm_muxer.Client.replace
    jfterm_muxer.Client.send_ignored jfterm_muxer.Client.send_all_ignored Session.replay_for_attach
    Engine.replay Scanner.replay Ring.replay Engine.has_prompt_marking Scanner.saw_prompt_marker
    Ring.should_cut effective_status Session.poll_running Engine.status Scanner.status
ended-client = refl

attached-live : Session.is_dead one_print attached.session ≡ false
unfolding handle on_attach attach_client Session.resize is_dead_life on_readable Session.drain
    Engine.feed Scanner.feed Scanner.feed_byte Scanner.advance_one Scanner.handle_event
    Sink.perform_all Scanner.keep_span Ring.append after_drain on_exit
    jfterm_muxer.Client.forward_data frame_data jfterm_muxer.Client.replace
    jfterm_muxer.Client.send_ignored jfterm_muxer.Client.send_all_ignored Session.replay_for_attach
    Engine.replay Scanner.replay Ring.replay Engine.has_prompt_marking Scanner.saw_prompt_marker
    Ring.should_cut effective_status Session.poll_running Engine.status Scanner.status
attached-live = refl

ended-dead : Session.is_dead one_print ended.session ≡ true
unfolding handle on_attach attach_client Session.resize is_dead_life on_readable Session.drain
    Engine.feed Scanner.feed Scanner.feed_byte Scanner.advance_one Scanner.handle_event
    Sink.perform_all Scanner.keep_span Ring.append after_drain on_exit
    jfterm_muxer.Client.forward_data frame_data jfterm_muxer.Client.replace
    jfterm_muxer.Client.send_ignored jfterm_muxer.Client.send_all_ignored Session.replay_for_attach
    Engine.replay Scanner.replay Ring.replay Engine.has_prompt_marking Scanner.saw_prompt_marker
    Ring.should_cut effective_status Session.poll_running Engine.status Scanner.status
ended-dead = refl

readable-tells_example : IsTold one_print codec 30 ended.session told
readable-tells_example =
    readable-tells one_print codec 30 attached ended _ _ not_busy 0 goes_on told attached-live
      ended_lem ended-dead ended-client
