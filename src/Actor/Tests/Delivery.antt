-- ===== src/Actor/Tests/Delivery.antt =====
-- What reaches a client, at a concrete session.
use jfterm_muxer.Base.{
  ℕ, ◌≡◌, refl, true, Option, none, List, [], ◌∷◌, ◌++◌, append-nil, arith, bytes,
}
use jfterm_muxer.Protocol.{Frame}
use jfterm_muxer.Utf8.{from_utf8}
use jfterm_muxer.Scanner
use jfterm_muxer.Scanner.Sanitize.{sanitize, fresh, expand}
use jfterm_muxer.Connection.Writer.{new_socket, writer_task}
use jfterm_muxer.Actor.{Event, attach}
use jfterm_muxer.Actor.Attach.{replay_of}
use jfterm_muxer.Actor.Delivery.{Delivers, attach-Delivers}
use jfterm_muxer.Scanner.Waiting.{Waits}
use jfterm_muxer.Actor.History.{attach-sanitize, attach-verbatim}
use jfterm_muxer.Actor.Tests.{
  one_print, codec, new_session, request_all, not_busy, detached_actor, queue-HasRoom, attached,
  attached_lem, x_read, written, one_run, two_sent, written-client, attached_run,
}

unbroken : List Frame → List (Frame × Option ℕ)
unbroken [] = []
unbroken (f ∷ fs) = (f, none) ∷ unbroken fs

abbrev out_queue : List (Frame × Option ℕ)
unfolding unbroken
out_queue = unbroken two_sent.sent

attach-Delivers_example :
    Delivers one_print codec 30
      ((writer_task new_socket out_queue).written ∷ [])
      out_queue
      (replay_of one_print codec 30 detached_actor request_all ++ bytes "x")
unfolding out_queue unbroken
attach-Delivers_example =
    attach-Delivers one_print codec 30 detached_actor attached written request_all true not_busy
      (x_read ∷ []) two_sent out_queue ((writer_task new_socket out_queue).written ∷ []) refl
      queue-HasRoom attached_lem (tt, tt) one_run written-client refl
      (ground arith, (ground arith, tt)) (append-nil (writer_task new_socket out_queue).written)

abbrev two_events : List Event
two_events = attach request_all true not_busy ∷ (x_read ∷ [])

attach-sanitize_example :
    (let z = sanitize one_print (fresh one_print) (expand 0 (bytes "x")) in
      replay_of one_print codec 30 written request_all ≡ z.base ++ z.stream)
attach-sanitize_example =
    attach-sanitize one_print codec 30 new_session written two_events request_all refl attached_run
      refl (ground arith)

attach-verbatim_example :
    (replay_of one_print codec 30 written request_all ++ written.session.engine.scanner.pending
      ≡ bytes "x")
    × Waits one_print (fresh one_print) (bytes "x") written.session.engine.scanner.pending
unfolding from_utf8 jfterm_muxer.Sink.perform_all jfterm_muxer.Scanner.Sanitize.sanitize_one
attach-verbatim_example =
    attach-verbatim one_print codec 30 new_session written two_events request_all refl attached_run
      refl (ground arith) refl (tt, tt)
