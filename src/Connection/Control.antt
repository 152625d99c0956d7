-- ===== src/Connection/Control.antt =====
-- `collect_sessions` and `handle_control` of jftermd/src/server.rs: the control connection.
pub mod Listing
pub mod Answers
use jfterm_muxer.Base.{
  ℕ, zero, suc, ◌+◌, ◌==◌, Bool, true, false, Option, none, some, List, [], ◌∷◌, ◌++◌, leb,
  if◌then◌else◌, length, ◌>>=◌,
}
use jfterm_muxer.Protocol.{
  FrameDecoder, Frame, FrameType, hello_ok, list, sessions, encode, Result, ok, err, proto_version,
}
use jfterm_muxer.Protocol.Decoder.{unread}
use jfterm_muxer.Protocol.Stream.{concat}
use jfterm_muxer.Registry.{Registry, Table, handles}
use jfterm_muxer.Session.{SessionInfo}
use jfterm_muxer.Connection.{Decode, read_one_frame, accepts_hello}
use jfterm_muxer.Connection.Writer.{Socket, new_socket, write_all, shutdown}

-- What comes of asking one actor: its channel is closed; its queue has no room; it answers, or drops
-- the question, at a time on the clock of the deadline, in milliseconds; or it does neither.
pub data Ask : Type 0 where
  gone full never : Ask
  replies : (after : ℕ) (info : SessionInfo) → Ask
  drops : (after : ℕ) → Ask

abbrev pub reply_timeout : ℕ
reply_timeout = 1000

abbrev pub asks : (ℕ → Ask) → Table → List Ask
asks ask [] = []
asks ask ((id, tx) ∷ m) = ask tx ∷ asks ask m

-- The questions are sent one after another, with no deadline; `none` is a `send` that waits for room.
unfoldable pub send_all : List Ask → Option (List Ask)
send_all [] = some []
send_all (gone ∷ qs) = send_all qs
send_all (full ∷ qs) = none
send_all (a ∷ qs) = do rxs ← send_all qs; some (a ∷ rxs)

-- The receivers are awaited one after another; the deadline ends the loop and keeps what is there.
unfoldable pub await_replies : List Ask → List SessionInfo
await_replies (replies after info ∷ rxs) =
    let rest = await_replies rxs in if leb after reply_timeout then info ∷ rest else []
await_replies (drops after ∷ rxs) =
    let rest = await_replies rxs in if leb after reply_timeout then rest else []
await_replies _ = []

unfoldable pub collect_sessions : Registry → (ℕ → Ask) → Option (List SessionInfo)
unfolding send_all await_replies
collect_sessions r ask = do rxs ← send_all (asks ask (handles r)); some (await_replies rxs)

pub data Ended : Type 0 where
  closed failed waits : Ended

-- `serde_json::to_vec` of the two replies.
pub record Replies : Type 0 where
  pub hello_msg : List ℕ
  pub sessions_msg : List SessionInfo → List ℕ

-- What the connection meets: at its n-th LIST, the table and the actors' answers; and how its n-th
-- write goes.
pub record World : Type 0 where
  pub registry : ℕ → Registry
  pub ask : ℕ → ℕ → Ask
  pub write : ℕ → Option ℕ

pub data Next : Type 0 where
  goes_on : ℕ → Socket → Next
  stops : Ended → Socket → Next

module _ (json : Replies) (w : World) where
  abbrev pub hello_ok_frame : Frame
  hello_ok_frame = record { ty = hello_ok; payload = json.hello_msg }

  abbrev pub sessions_frame : List SessionInfo → Frame
  sessions_frame infos = record { ty = sessions; payload = json.sessions_msg infos }

  after_write : ℕ → Socket → Option ℕ → Next
  after_write n s none = goes_on (suc n) s
  after_write n s (some k) = stops failed s

  -- The reply to the n-th LIST is write n + 1 of the connection.
  answer_list : ℕ → Socket → Next
  unfolding after_write
  answer_list n s = elim (collect_sessions (w.registry n) (w.ask n)) [
    | none ↦ stops waits s
    | some infos ↦
        after_write n (write_all s (encode (sessions_frame infos)) (w.write (suc n)))
          (w.write (suc n))
  ]

  unfoldable pub on_control_frame : FrameType → ℕ → Socket → Next
  unfolding answer_list
  on_control_frame list n s = answer_list n s
  on_control_frame _ n s = goes_on n s

  abbrev pub resume : (ℕ → Socket → Ended × Socket) → Next → Ended × Socket
  resume k (goes_on n s) = k n s
  resume k (stops e s) = (e, s)

  -- The loop; a frame takes at least five bytes, so the bytes still to come are fuel enough.
  unfoldable pub control_loop : ℕ → ℕ → FrameDecoder → List (List ℕ) → Socket → Ended × Socket
  unfolding on_control_frame
  control_loop zero n d pieces s = (waits, s)
  control_loop (suc fuel) n d pieces s =
      let (r, d', pieces') = read_one_frame d pieces in
      let later : ℕ → Socket → Ended × Socket = λ n' s'. control_loop fuel n' d' pieces' s' in
      elim r [
        | err e ↦ (failed, s)
        | ok none ↦ (closed, s)
        | ok (some f) ↦ resume later (on_control_frame f.ty n s)
      ]

  after_hello : FrameDecoder → List (List ℕ) → Socket → Option ℕ → Ended × Socket
  unfolding control_loop
  after_hello d pieces s none =
      control_loop (suc (length (unread d) + length (concat pieces))) 0 d pieces s
  after_hello d pieces s (some k) = (failed, s)

  -- The body of `handle_control`: the first frame was a HELLO with this payload; a payload that does not
  -- parse is an error.
  answer_hello : Decode → List ℕ → FrameDecoder → List (List ℕ) → Ended × Socket
  unfolding after_hello
  answer_hello decode payload d pieces = elim (decode.hello_version payload) [
    | none ↦ (failed, new_socket)
    | some version ↦
        if version == proto_version
        then after_hello d pieces (write_all new_socket (encode hello_ok_frame) (w.write 0))
            (w.write 0)
        else (closed, new_socket)
  ]

  -- At the return, with or without an error, the writing half is dropped, which shuts it.
  drop_half : Ended × Socket → Ended × Socket
  drop_half (waits, s) = (waits, s)
  drop_half (e, s) = (e, shutdown s)

  unfoldable pub handle_control : Decode → List ℕ → FrameDecoder → List (List ℕ) → Ended × Socket
  unfolding answer_hello drop_half
  handle_control decode payload d pieces = drop_half (answer_hello decode payload d pieces)
