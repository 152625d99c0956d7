-- ===== src/Server/Dispatch/Laws.antt =====
-- A whole connection (`dispatch_connection` of jftermd/src/server.rs with the handlers that it calls).
use jfterm_muxer.Base.{
  true, ℕ, ◌≤◌, ==_refl, ◌≡◌, refl, ap, ◌∙◌, Option, none, some, List, ◌∷◌, arith, All, length,
}
use jfterm_muxer.Protocol.{
  FrameDecoder, new_decoder, Frame, hello, attach_or_open, ok, proto_version,
}
use jfterm_muxer.Protocol.Frames.{Fits}
use jfterm_muxer.Protocol.Stream.{encode_all, concat}
use jfterm_muxer.Session.{SessionInfo}
use jfterm_muxer.Connection.{Decode, dispatch, check_peer_uid, Reader, reader_task}
use jfterm_muxer.Connection.First.{Reads, read_one_frame-Reads}
use jfterm_muxer.Connection.Commands.{commands_of, IsOpen}
use jfterm_muxer.Connection.Pipelined.{reader_task-pipelined}
use jfterm_muxer.Connection.Control.{closed, Replies, World, collect_sessions, hello_ok_frame}
use jfterm_muxer.Connection.Control.Answers.{replies_to, handle_control-replies}
use jfterm_muxer.Server.{
  AttachOrOpen, Server, new_server, Reaches, bind_session, Served, bad_request, refused, actor_gone,
  attached, handle_session,
}
use jfterm_muxer.Server.Laws.{Answered, handle_session-Answered}
use jfterm_muxer.Server.Dispatch.{
  control, session, on_first, on_kind, run_control, run_session, start_reader, dispatch_connection,
}

module _ (json : Replies) (decode : Decode) (w : World) (parse : List ℕ → Option AttachOrOpen)
    (meanwhile : Server → Server) (out_queue left : ℕ) where
  -- The own user's connection, by its first frame.
  first_lem :
      (me : ℕ) (pieces : List (List ℕ)) (s : Server) (f : Frame) (fs : List Frame)
      (x : Reads f fs new_decoder pieces)
      → dispatch_connection json decode w parse meanwhile out_queue left (ok me) me pieces s
        ≡ on_kind json decode w parse meanwhile out_queue left
            (dispatch f.ty)
            f
            x.decoder
            x.pieces'
            s
  unfolding dispatch_connection check_peer_uid on_first
  first_lem me pieces s f fs x =
      rw (==_refl me) (ap (λ r. on_first json decode w parse meanwhile out_queue left r s) x.result)

  -- A control connection from its first byte to its last: when a client of the own user sends HELLO
  -- with this protocol version and then any frames (each within the frame cap), cut into reads
  -- anywhere, it gets HELLO_OK and one SESSIONS for each LIST, in order, with what that LIST collected,
  -- and then the end, and no session is touched. No write fails and no LIST waits.
  pub dispatch_connection-control :
      (infos : ℕ → List SessionInfo) (me : ℕ) (payload : List ℕ) (fs : List Frame)
      (pieces : List (List ℕ)) (s : Server)
      → ((n : ℕ) → w.write n ≡ none)
      → ((n : ℕ) → collect_sessions (w.registry n) (w.ask n) ≡ some (infos n))
      → decode.hello_version payload ≡ some proto_version
      → Fits (record { ty = hello; payload = payload })
      → All Fits fs
      → concat pieces ≡ encode_all (record { ty = hello; payload = payload } ∷ fs)
      → dispatch_connection json decode w parse meanwhile out_queue left (ok me) me pieces s ≡ (
        control closed (record {
          written = encode_all (hello_ok_frame json w ∷ replies_to json w infos 0 fs);
          is_shut = true;
        }),
        s,
      )
  unfolding on_kind run_control dispatch
  dispatch_connection-control infos me payload fs pieces s written listed v fit fits e =
      let f : Frame = record { ty = hello; payload = payload } in
      let x = read_one_frame-Reads new_decoder pieces f fs fit e in
      first_lem me pieces s f fs x
      ∙ ap (run_control json decode w parse meanwhile out_queue left s) (
          handle_control-replies json w infos written listed decode payload fs x.decoder x.pieces' v
            fits x.left)

  -- The reader of an attached connection has sent the commands of these frames; no other one starts.
  abbrev pub Sends : List Frame → Served → Option Reader → Type 0
  Sends fs (attached tx attach) r =
      (x : Reader) × (r ≡ some x) × (x.commands ≡ commands_of decode fs)
  Sends fs _ r = r ≡ none

  started-Sends :
      (fs : List Frame) (d : FrameDecoder) (pieces : List (List ℕ)) (served : Served)
      → (reader_task decode d pieces left).commands ≡ commands_of decode fs
      → Sends fs served (start_reader json decode w parse meanwhile out_queue left d pieces served)
  unfolding start_reader
  started-Sends fs d pieces bad_request e = refl
  started-Sends fs d pieces refused e = refl
  started-Sends fs d pieces actor_gone e = refl
  started-Sends fs d pieces (attached tx attach) e = (reader_task decode d pieces left, refl, e)

  -- A session connection from its first byte, in any state that the daemon reaches: a client of the own
  -- user sends an ATTACH_OR_OPEN that parses and, without a wait, other frames (each within the frame
  -- cap, none of them CLOSE), cut into reads anywhere, and the actor takes as many commands as there
  -- are frames. Its session is looked up or made; the request is refused only for a new id at a full
  -- table, and else goes to the task that serves the id, unless that has returned by then. When the
  -- actor got it, and only then, the reader starts, and it sends the actor the commands of all the
  -- frames that followed, in order.
  pub dispatch_connection-session :
      (max me : ℕ) (payload : List ℕ) (req : AttachOrOpen) (fs : List Frame)
      (pieces : List (List ℕ)) (s : Server)
      → Reaches (new_server max) s
      → parse payload ≡ some req
      → Fits (record { ty = attach_or_open; payload = payload })
      → All Fits fs
      → All (IsOpen decode) fs
      → concat pieces ≡ encode_all (record { ty = attach_or_open; payload = payload } ∷ fs)
      → length fs ≤ left
      → (served : Served) × (r : Option Reader) × (dispatch_connection json decode w parse meanwhile
            out_queue left
            (ok me)
            me
            pieces
            s
          ≡ (session served r, meanwhile (bind_session s req.session_id).1))
        × Answered s req out_queue meanwhile (bind_session s req.session_id) served
        × Sends fs served r
  unfolding on_kind run_session dispatch handle_session
  dispatch_connection-session max me payload req fs pieces s reached parsed fit fits a e l =
      let f : Frame = record { ty = attach_or_open; payload = payload } in
      let x = read_one_frame-Reads new_decoder pieces f fs fit e in
      let p = x.placed (record { inside = omega arith; low = omega arith }) in
      let served = (handle_session s (some req) meanwhile out_queue).0 in
      (
        served,
        start_reader json decode w parse meanwhile out_queue left x.decoder x.pieces' served,
        first_lem me pieces s f fs x
            ∙ ap
                (λ q.
                  run_session json decode w parse meanwhile out_queue left x.decoder x.pieces'
                    (handle_session s q meanwhile out_queue))
                parsed,
        handle_session-Answered max s req out_queue meanwhile reached,
        started-Sends fs x.decoder x.pieces' served
            (reader_task-pipelined decode x.decoder fs x.pieces' left p fits a x.left l),
      )
