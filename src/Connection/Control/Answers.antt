-- ===== src/Connection/Control/Answers.antt =====
-- What a control connection writes (`handle_control` of jftermd/src/server.rs).
use jfterm_muxer.Base.{
  true, ℕ, zero, suc, ◌+◌, ◌<◌, ◌≡◌, refl, sym, ap, ◌∙◌, none, some, List, [], ◌∷◌, ◌++◌,
  append-nil, append_assoc, arith, false, length, length-append, All,
}
use jfterm_muxer.Protocol.{
  FrameDecoder, ok, Frame, FrameType, list, sessions, attach_or_open, input, resize, close,
  data_frame, status, exit, hello, hello_ok, encode, proto_version,
}
use jfterm_muxer.Protocol.Frames.{Fits, length-encode}
use jfterm_muxer.Protocol.Decoder.{unread}
use jfterm_muxer.Protocol.Stream.{encode_all, concat}
use jfterm_muxer.Session.{SessionInfo}
use jfterm_muxer.Connection.{Decode, read_one_frame}
use jfterm_muxer.Connection.Writer.{Socket, new_socket, write_all}
use jfterm_muxer.Connection.First.{read_one_frame-Reads, read_one_frame_end}
use jfterm_muxer.Connection.Control.{
  collect_sessions, closed, Replies, World, goes_on, hello_ok_frame, sessions_frame, after_write,
  answer_list, on_control_frame, resume, control_loop, after_hello, answer_hello, drop_half,
  handle_control,
}

module _ (json : Replies) (w : World) (infos : ℕ → List SessionInfo) where
  -- The answer to a frame that `n` LISTs came before, and how many came with it.
  abbrev answer_to : ℕ → FrameType → List Frame
  answer_to n list = sessions_frame json w (infos n) ∷ []
  answer_to n _ = []

  abbrev lists_with : ℕ → FrameType → ℕ
  lists_with n list = suc n
  lists_with n _ = n

  abbrev pub replies_to : ℕ → List Frame → List Frame
  replies_to n [] = []
  replies_to n (f ∷ fs) = answer_to n f.ty ++ replies_to (lists_with n f.ty) fs

abbrev wrote : Socket → List Frame → Socket
wrote s fs = record s { written = s.written ++ encode_all fs }

wrote_nothing : (s : Socket) → wrote s [] ≡ s
wrote_nothing s = ap (λ (b : List ℕ). record s { written = b }) (append-nil s.written)

encode_all-append : (fs gs : List Frame) → encode_all (fs ++ gs) ≡ encode_all fs ++ encode_all gs
encode_all-append [] gs = refl
encode_all-append (f ∷ fs) gs =
    ap (◌++◌ (encode f)) (encode_all-append fs gs)
    ∙ sym (append_assoc (encode f) (encode_all fs) (encode_all gs))

wrote-append : (s : Socket) (fs gs : List Frame) → wrote (wrote s fs) gs ≡ wrote s (fs ++ gs)
wrote-append s fs gs =
    ap (λ (b : List ℕ). record s { written = b })
      (append_assoc s.written (encode_all fs) (encode_all gs)
        ∙ ap (◌++◌ s.written) (sym (encode_all-append fs gs)))

module _ (json : Replies) (w : World) (infos : ℕ → List SessionInfo)
    (written : (n : ℕ) → w.write n ≡ none)
    (listed : (n : ℕ) → collect_sessions (w.registry n) (w.ask n) ≡ some (infos n)) where
  on_list :
      (n : ℕ) (s : Socket)
      → on_control_frame json w list n s ≡ goes_on (suc n) (wrote s (answer_to json w infos n list))
  unfolding on_control_frame answer_list after_write write_all
  on_list n s =
      rw (listed n, answer_list, written (suc n))
        (ap (λ (b : List ℕ). goes_on (suc n) (record s { written = s.written ++ b }))
          (sym (append-nil (encode (sessions_frame json w (infos n))))))

  on_control_frame_lem :
      (ty : FrameType) (n : ℕ) (s : Socket)
      → on_control_frame json w ty n s
        ≡ goes_on (lists_with json w infos n ty) (wrote s (answer_to json w infos n ty))
  unfolding on_control_frame
  on_control_frame_lem hello n s = ap (goes_on n) (sym (wrote_nothing s))
  on_control_frame_lem hello_ok n s = ap (goes_on n) (sym (wrote_nothing s))
  on_control_frame_lem list n s = on_list n s
  on_control_frame_lem sessions n s = ap (goes_on n) (sym (wrote_nothing s))
  on_control_frame_lem attach_or_open n s = ap (goes_on n) (sym (wrote_nothing s))
  on_control_frame_lem input n s = ap (goes_on n) (sym (wrote_nothing s))
  on_control_frame_lem resize n s = ap (goes_on n) (sym (wrote_nothing s))
  on_control_frame_lem close n s = ap (goes_on n) (sym (wrote_nothing s))
  on_control_frame_lem data_frame n s = ap (goes_on n) (sym (wrote_nothing s))
  on_control_frame_lem status n s = ap (goes_on n) (sym (wrote_nothing s))
  on_control_frame_lem exit n s = ap (goes_on n) (sym (wrote_nothing s))

  loop_end :
      (fuel n : ℕ) (d : FrameDecoder) (pieces : List (List ℕ)) (s : Socket)
      → (read_one_frame d pieces).0 ≡ ok none
      → control_loop json w (suc fuel) n d pieces s ≡ (closed, s)
  unfolding control_loop
  loop_end fuel n d pieces s e = rw (e, control_loop) refl

  loop_frame :
      (fuel n : ℕ) (d d' : FrameDecoder) (pieces pieces' : List (List ℕ)) (s : Socket) (f : Frame)
      → read_one_frame d pieces ≡ (ok (some f), d', pieces')
      → control_loop json w (suc fuel) n d pieces s
        ≡ resume json w
            (λ n' s'. control_loop json w fuel n' d' pieces' s')
            (on_control_frame json w f.ty n s)
  unfolding control_loop
  loop_frame fuel n d d' pieces pieces' s f e =
      rw (e, control_loop)
        (λ i.
          resume json w (λ n' s'. control_loop json w fuel n' (e i).1 (e i).2 s')
            (on_control_frame json w f.ty n s))

  control_loop-replies :
      (fs : List Frame) (fuel n : ℕ) (d : FrameDecoder) (pieces : List (List ℕ)) (s : Socket)
      → All Fits fs
      → unread d ++ concat pieces ≡ encode_all fs
      → length (encode_all fs) < fuel
      → control_loop json w fuel n d pieces s ≡ (closed, wrote s (replies_to json w infos n fs))
  control_loop-replies fs zero n d pieces s fits e h = absurd (omega arith)
  control_loop-replies [] (suc fuel) n d pieces s fits e h =
      loop_end fuel n d pieces s (read_one_frame_end d pieces e)
      ∙ ap (λ (x : Socket). (closed, x)) (sym (wrote_nothing s))
  control_loop-replies (f ∷ fs) (suc fuel) n d pieces s fits e h =
      let x = read_one_frame-Reads d pieces f fs fits.0 e in
      let next = lists_with json w infos n f.ty in
      let answer = answer_to json w infos n f.ty in
      let rest = replies_to json w infos next fs in
      loop_frame fuel n d x.decoder pieces x.pieces' s f x.result
      ∙ (ap (resume json w (λ n' s'. control_loop json w fuel n' x.decoder x.pieces' s'))
            (on_control_frame_lem f.ty n s)
          ∙ (control_loop-replies fs fuel next x.decoder x.pieces' (wrote s answer) fits.1 x.left
                (omega (arith, length-append (encode f) (encode_all fs), length-encode f))
              ∙ ap (λ (z : Socket). (closed, z)) (wrote-append s answer rest)))

  answer_hello-replies :
      (decode : Decode) (payload : List ℕ) (fs : List Frame) (d : FrameDecoder)
      (pieces : List (List ℕ))
      → decode.hello_version payload ≡ some proto_version
      → All Fits fs
      → unread d ++ concat pieces ≡ encode_all fs
      → answer_hello json w decode payload d pieces ≡ (
        closed,
        record {
          written = encode_all (hello_ok_frame json w ∷ replies_to json w infos 0 fs);
          is_shut = false;
        },
      )
  unfolding answer_hello after_hello write_all
  answer_hello-replies decode payload fs d pieces v fits e =
      let s = write_all new_socket (encode (hello_ok_frame json w)) none in
      let bytes : length (unread d) + length (concat pieces) ≡ length (encode_all fs) =
        sym (length-append (unread d) (concat pieces)) ∙ ap (length {A = ℕ}) e in
      rw (v, answer_hello, written 0)
        (control_loop-replies fs (suc (length (unread d) + length (concat pieces))) 0 d pieces s
          fits e (omega arith))

  -- After a HELLO of this protocol version, however the client's frames (within the frame cap) are cut
  -- into reads, the control connection writes HELLO_OK and then one SESSIONS for each LIST, in order
  -- and with what that LIST collected; every other frame is ignored, and the end of the input ends the
  -- connection without an error and shuts its writing half. No write fails and no LIST waits.
  pub handle_control-replies :
      (decode : Decode) (payload : List ℕ) (fs : List Frame) (d : FrameDecoder)
      (pieces : List (List ℕ))
      → decode.hello_version payload ≡ some proto_version
      → All Fits fs
      → unread d ++ concat pieces ≡ encode_all fs
      → handle_control json w decode payload d pieces ≡ (
        closed,
        record {
          written = encode_all (hello_ok_frame json w ∷ replies_to json w infos 0 fs);
          is_shut = true;
        },
      )
  unfolding handle_control drop_half
  handle_control-replies decode payload fs d pieces v fits e =
      ap (drop_half json w) (answer_hello-replies decode payload fs d pieces v fits e)
