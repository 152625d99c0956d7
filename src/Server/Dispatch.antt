-- ===== src/Server/Dispatch.antt =====
-- `dispatch_connection` of jftermd/src/server.rs: a connection from its peer's uid to the handler of its
-- first frame.
pub mod Laws
use jfterm_muxer.Base.{ℕ, ◌==◌, Bool, true, false, Option, none, some, List, [], ◌∷◌, if◌then◌else◌}
use jfterm_muxer.Protocol.{
  FrameDecoder, new_decoder, Frame, FrameType, hello, attach_or_open, Result, ok, err,
  ProtocolError,
}
use jfterm_muxer.Connection.{
  Decode, Reader, reader_task, Kind, control_kind, session_kind, closed_kind, dispatch,
  check_peer_uid, read_one_frame,
}
use jfterm_muxer.Connection.Writer.{Socket}
use jfterm_muxer.Connection.Control.{Ended, Replies, World, handle_control}
use jfterm_muxer.Server.{AttachOrOpen, Server, Served, attached, handle_session}

-- What becomes of a connection, with the reader of a session in the state it comes to.
pub data Course : Type 0 where
  no_peer denied no_frame unexpected : Course
  malformed : ProtocolError → Course
  control : Ended → Socket → Course
  session : Served → Option Reader → Course

module _ (json : Replies) (decode : Decode) (w : World) (parse : List ℕ → Option AttachOrOpen)
    (meanwhile : Server → Server) (out_queue left : ℕ) where
  run_control : Server → Ended × Socket → Course × Server
  run_control s (e, out) = (control e out, s)

  -- The rest of `handle_session`: the reader starts on what is buffered, and only for a connection that
  -- is attached.
  start_reader : FrameDecoder → List (List ℕ) → Served → Option Reader
  start_reader d pieces (attached tx attach) = some (reader_task decode d pieces left)
  start_reader d pieces _ = none

  run_session : FrameDecoder → List (List ℕ) → Served × Server → Course × Server
  unfolding start_reader
  run_session d pieces (x, s) = (session x (start_reader d pieces x), s)

  on_kind : Kind → Frame → FrameDecoder → List (List ℕ) → Server → Course × Server
  unfolding run_control run_session
  on_kind control_kind f d pieces s =
      run_control s (handle_control json w decode f.payload d pieces)
  on_kind session_kind f d pieces s =
      run_session d pieces (handle_session s (parse f.payload) meanwhile out_queue)
  on_kind closed_kind f d pieces s = (unexpected, s)

  on_first :
      Result ProtocolError (Option Frame) × FrameDecoder × List (List ℕ) → Server → Course × Server
  unfolding on_kind
  on_first (err e, d, pieces) s = (malformed e, s)
  on_first (ok none, d, pieces) s = (no_frame, s)
  on_first (ok (some f), d, pieces) s = on_kind (dispatch f.ty) f d pieces s

  -- `peer` is the answer of `SO_PEERCRED`, and `me` the daemon's own uid; `left` is how many commands
  -- the actor takes from this connection.
  unfoldable pub dispatch_connection : Result ℕ ℕ → ℕ → List (List ℕ) → Server → Course × Server
  unfolding on_first
  dispatch_connection (err e) me pieces s = (no_peer, s)
  dispatch_connection (ok peer) me pieces s =
      if check_peer_uid peer me then on_first (read_one_frame new_decoder pieces) s else (denied, s)
