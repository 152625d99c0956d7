-- ===== src/Connection.antt =====
-- The connections of jftermd/src/server.rs: what a peer's frames become. A read of the socket is a
-- piece of bytes, and the end of the list is the end of file or an error.
pub mod Commands
pub mod Input
pub mod Pipelined
pub mod First
pub mod Halves
pub mod Writer
pub mod Control
pub mod Tests
use jfterm_muxer.Base.{
  ℕ, zero, suc, ◌+◌, ◌-◌, ◌==◌, Bool, true, false, Option, none, some, List, [], ◌∷◌, ◌++◌,
  if◌then◌else◌, length, unwrap_or,
}
use jfterm_muxer.Protocol.{
  FrameDecoder, push, next_frame, Result, ok, err, Frame, FrameType, hello, attach_or_open, input,
  resize, close, list, ProtocolError, proto_version, encode,
}
use jfterm_muxer.Protocol.Decoder.{unread}

-- `SessionCommand`, as far as a reader sends it.
pub data Command : Type 0 where
  input_command : List ℕ → Command
  resize_command : ℕ → ℕ → Command
  close_command : ℕ → Command

-- `serde_json` on the payloads of a RESIZE, a CLOSE and a HELLO; `none` is an error.
pub record Decode : Type 0 where
  pub resize_msg : List ℕ → Option (ℕ × ℕ)
  pub close_msg : List ℕ → Option ℕ
  pub hello_version : List ℕ → Option ℕ

-- The reader's state: the commands that the actor's queue took, and how many it will still take.
pub record Reader : Type 0 where
  pub commands : List Command
  pub left : ℕ
  pub decoder : FrameDecoder
  pub is_done : Bool

-- `read_one_frame`, with the reads that it leaves; `ok none` is the end of the input before a whole
-- frame.
unfoldable pub read_one_frame :
    FrameDecoder
    → List (List ℕ)
    → Result ProtocolError (Option Frame) × FrameDecoder × List (List ℕ)
read_one_frame d [] = let (r, d') = next_frame d in (r, d', [])
read_one_frame d (piece ∷ pieces) =
    let (r, d') = next_frame d in
    let later = read_one_frame (push d' piece) pieces in
    elim r [
      | err e ↦ (err e, d', piece ∷ pieces)
      | ok (some f) ↦ (ok (some f), d', piece ∷ pieces)
      | ok none ↦ later
    ]

-- What a connection becomes after its first frame.
pub data Kind : Type 0 where
  control_kind session_kind closed_kind : Kind

unfoldable pub dispatch : FrameType → Kind
dispatch hello = control_kind
dispatch attach_or_open = session_kind
dispatch _ = closed_kind

unfoldable pub check_peer_uid : ℕ → ℕ → Bool
check_peer_uid peer me = peer == me

module _ (decode : Decode) where
  -- `cmd_tx.send(command).await`; it fails when the actor has ended, and then the reader stops.
  unfoldable pub send : Reader → Command → Reader
  send r c =
      if r.left == 0
      then record r { is_done = true }
      else record r { commands = r.commands ++ (c ∷ []); left = r.left - 1 }

  send_resize : Reader → Option (ℕ × ℕ) → Reader
  unfolding send
  send_resize r none = r
  send_resize r (some (cols, rows)) = send r (resize_command cols rows)

  unfoldable pub on_frame : FrameType → List ℕ → Reader → Reader
  unfolding send_resize send
  on_frame input payload r = send r (input_command payload)
  on_frame resize payload r = send_resize r (decode.resize_msg payload)
  on_frame close payload r =
      record (send r (close_command (unwrap_or (decode.close_msg payload) 0))) { is_done = true }
  on_frame _ payload r = r

  -- The inner loop; a frame takes at least five bytes, so the number of unread bytes is fuel enough.
  unfoldable pub frames_loop : ℕ → Reader → Reader
  unfolding on_frame
  frames_loop zero r = r
  frames_loop (suc fuel) r =
      let (x, d) = next_frame r.decoder in
      let at = record r { decoder = d } in
      let later : Frame → Reader = λ f. frames_loop fuel (on_frame f.ty f.payload at) in
      elim x [
        | err e ↦ record at { is_done = true }
        | ok none ↦ at
        | ok (some f) ↦
            if (on_frame f.ty f.payload at).is_done then on_frame f.ty f.payload at else later f
      ]

  unfoldable pub reads : Reader → List (List ℕ) → Reader
  unfolding frames_loop
  reads r [] = r
  reads r (piece ∷ pieces) =
      let d = push r.decoder piece in
      let r' = frames_loop (length (unread d)) (record r { decoder = d }) in
      let later = reads r' pieces in if r.is_done then r else later

  -- The reader takes what is buffered behind the first frame before it reads the socket.
  unfoldable pub reader_task : FrameDecoder → List (List ℕ) → ℕ → Reader
  unfolding reads frames_loop
  reader_task d pieces left =
      let r : Reader = record { commands = []; left = left; decoder = d; is_done = false } in
      reads (frames_loop (length (unread d)) r) pieces

  -- `handle_control` on its HELLO: whether it answers, or closes the connection.
  unfoldable pub accepts_hello : List ℕ → Bool
  accepts_hello payload = elim (decode.hello_version payload) [
    | none ↦ false
    | some v ↦ v == proto_version
  ]
