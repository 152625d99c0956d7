-- ===== src/Server/Tests.antt =====
-- The daemon's theorems at concrete sessions and connections.
use jfterm_muxer.Base.{
  ℕ, ◌≡◌, refl, true, false, Option, none, some, List, [], ◌∷◌, append-nil, arith, bytes,
}
use jfterm_muxer.Protocol.{Frame, hello, attach_or_open, input, list, ok}
use jfterm_muxer.Protocol.Stream.{encode_all}
use jfterm_muxer.Registry.{Registry, with_max_sessions, attach_or_create}
use jfterm_muxer.Session.{SessionInfo}
use jfterm_muxer.Connection.{Decode, Reader}
use jfterm_muxer.Connection.Control.{Replies, World, closed, collect_sessions, hello_ok_frame, gone}
use jfterm_muxer.Connection.Control.Answers.{replies_to}
use jfterm_muxer.Server.{
  AttachOrOpen, opening, Served, Server, new_server, bind_session, handle_session, session_opened,
  binds, opens, Reaches, here, later,
}
use jfterm_muxer.Server.Agree.{IsConsistent}
use jfterm_muxer.Server.Invariant.{Reaches-IsConsistent}
use jfterm_muxer.Server.Laws.{Answered, handle_session-Answered, IsGone, session_opened-IsGone}
use jfterm_muxer.Server.Dispatch.{control, session, dispatch_connection}
use jfterm_muxer.Server.Dispatch.Laws.{
  dispatch_connection-control, Sends, dispatch_connection-session,
}

abbrev one_bound : Server
one_bound = (bind_session (new_server 1) (bytes "a")).1

abbrev one_running : Server
one_running = session_opened one_bound 0 (bytes "a") true

abbrev one_failed : Server
one_failed = session_opened one_bound 0 (bytes "a") false

task_lem : one_bound.tasks 0 ≡ some (record { id = bytes "a"; phase = opening })
unfolding bind_session attach_or_create jfterm_muxer.Registry.get
task_lem = refl

bound_reach : Reaches (new_server 1) one_bound
bound_reach = later (binds (bytes "a")) here

running_reach : Reaches (new_server 1) one_running
running_reach = later (binds (bytes "a")) (later (opens 0 (bytes "a") true task_lem) here)

failed_reach : Reaches (new_server 1) one_failed
failed_reach = later (binds (bytes "a")) (later (opens 0 (bytes "a") false task_lem) here)

Reaches-IsConsistent_example : IsConsistent 1 one_running
Reaches-IsConsistent_example = Reaches-IsConsistent 1 one_running running_reach

abbrev request : AttachOrOpen
request = record {
  session_id = bytes "b";
  cwd = bytes "/";
  argv = bytes "sh" ∷ [];
  want_chunks = 0;
  cols = 80;
  rows = 24;
}

abbrev nothing_else : Server → Server
nothing_else s = s

handle_session-Answered_example :
    Answered one_running request 8 nothing_else
      (bind_session one_running (bytes "b"))
      (handle_session one_running (some request) nothing_else 8).0
handle_session-Answered_example =
    handle_session-Answered 1 one_running request 8 nothing_else running_reach

session_opened-IsGone_example : IsGone one_bound one_failed 0 (bytes "a")
session_opened-IsGone_example = session_opened-IsGone 1 one_bound 0 (bytes "a") bound_reach task_lem

-- A HELLO carries its version as one byte, and an ATTACH_OR_OPEN the id of the session.
abbrev version_of : List ℕ → Option ℕ
version_of (v ∷ []) = some v
version_of _ = none

abbrev codec : Decode
codec = record { resize_msg = λ p. none; close_msg = λ p. none; hello_version = version_of }

abbrev answers : Replies
answers = record { hello_msg = bytes "1"; sessions_msg = λ infos. [] }

abbrev parse_id : List ℕ → Option AttachOrOpen
parse_id id = some (record request { session_id = id })

-- No session is there to ask.
abbrev quiet : World
quiet = record { registry = λ n. with_max_sessions 1; ask = λ n tx. gone; write = λ n. none }

abbrev nobody : ℕ → List SessionInfo
nobody n = []

listed_lem : (n : ℕ) → collect_sessions (quiet.registry n) (quiet.ask n) ≡ some (nobody n)
unfolding collect_sessions
listed_lem n = refl

abbrev ask_list : List Frame
ask_list = record { ty = list; payload = [] } ∷ []

abbrev hello_frames : List Frame
hello_frames = record { ty = hello; payload = 1 ∷ [] } ∷ ask_list

dispatch_connection-control_example :
    dispatch_connection answers codec quiet parse_id nothing_else 8 4
      (ok 7)
      7
      (encode_all hello_frames ∷ [])
      one_running
    ≡ (
      control closed (record {
        written =
            encode_all (hello_ok_frame answers quiet ∷ replies_to answers quiet nobody 0 ask_list);
        is_shut = true;
      }),
      one_running,
    )
dispatch_connection-control_example =
    dispatch_connection-control answers codec quiet parse_id nothing_else 8 4 nobody 7 (1 ∷ [])
      ask_list (encode_all hello_frames ∷ []) one_running (λ n. refl) listed_lem refl (ground arith)
      (ground arith, tt) (append-nil (encode_all hello_frames))

abbrev keys : List Frame
keys = record { ty = input; payload = bytes "x" } ∷ []

abbrev open_frames : List Frame
open_frames = record { ty = attach_or_open; payload = bytes "b" } ∷ keys

abbrev b_request : AttachOrOpen
b_request = record request { session_id = bytes "b" }

dispatch_connection-session_example :
    (served : Served) × (r : Option Reader) × (dispatch_connection answers codec quiet parse_id
        nothing_else 8 4
        (ok 7)
        7
        (encode_all open_frames ∷ [])
        one_running
      ≡ (session served r, (bind_session one_running (bytes "b")).1))
    × Answered one_running b_request 8 nothing_else (bind_session one_running (bytes "b")) served
    × Sends answers codec quiet parse_id nothing_else 8 4 keys served r
dispatch_connection-session_example =
    dispatch_connection-session answers codec quiet parse_id nothing_else 8 4 1 7 (bytes "b")
      b_request keys (encode_all open_frames ∷ []) one_running running_reach refl (ground arith)
      (ground arith, tt) (tt, tt) (append-nil (encode_all open_frames)) (ground arith)
