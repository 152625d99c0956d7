-- ===== src/Connection/Pipelined.antt =====
-- `reader_task` of jftermd/src/server.rs with frames that came behind the first one.
use jfterm_muxer.Base.{
  ℕ, ◌+◌, ◌≤◌, ◌≡◌, refl, sym, ap, ◌∙◌, subst, false, List, [], ◌++◌, arith, length, length-append,
  All,
}
use jfterm_muxer.Protocol.{FrameDecoder, ok, Frame}
use jfterm_muxer.Protocol.Frames.{Fits}
use jfterm_muxer.Protocol.Decoder.{unread, IsPlaced, drain, receive}
use jfterm_muxer.Protocol.Stream.{concat, encode_all, drain_lem, receive_lem, All-append_right}
use jfterm_muxer.Connection.{Decode, Reader, frames_loop, reader_task}
use jfterm_muxer.Connection.Commands.{commands_of, commands_of-append, IsOpen}
use jfterm_muxer.Connection.Input.{
  LoopGoal, frames_loop-Took, All-append_both, length-commands_of, reads_lem,
}

module _ (decode : Decode) where
  -- The reader first takes the frames that are buffered behind the ATTACH_OR_OPEN: for a decoder that
  -- holds the beginning of some frames, and reads that bring the rest of them, cut anywhere, it sends
  -- the commands of all of them in order. Each frame is within the cap and none is a CLOSE, and the
  -- actor takes as many commands.
  pub reader_task-pipelined :
      (d : FrameDecoder) (fs : List Frame) (pieces : List (List ℕ)) (left : ℕ)
      → IsPlaced d
      → All Fits fs
      → All (IsOpen decode) fs
      → unread d ++ concat pieces ≡ encode_all fs
      → length fs ≤ left
      → (reader_task decode d pieces left).commands ≡ commands_of decode fs
  unfolding reader_task LoopGoal
  reader_task-pipelined d fs pieces left p fits a e l =
      let n = length (unread d) in
      let start : Reader = record { commands = []; left = left; decoder = d; is_done = false } in
      let x = drain_lem n d fs (concat pieces) fits p e (omega arith) in
      let d' = (drain n d).1 in
      let k : drain n d ≡ (ok x.gs, d') = λ i. (x.taken i, d') in
      let fits' = All-append_right x.gs x.hs (subst (All Fits) x.split fits) in
      let (ag, ah) = All-append_both decode x.gs x.hs (subst (All (IsOpen decode)) x.split a) in
      let lens : length fs ≡ length x.gs + length x.hs =
        ap (length {A = Frame}) x.split ∙ length-append x.gs x.hs in
      let t =
        subst (LoopGoal decode n start) k (frames_loop-Took decode n start refl) ag (omega arith) in
      let r = frames_loop decode n start in
      let received : (receive r.decoder pieces).0 ≡ ok x.hs =
        ap (λ y. (receive y pieces).0) t.kept
        ∙ (receive_lem d' pieces x.hs fits' x.left x.complete).0 in
      reads_lem decode pieces r x.hs received ah
        (omega (arith, t.room, length-commands_of decode x.gs, lens, l)) t.open_
      ∙ (ap (λ c. c ++ commands_of decode x.hs) t.sent
          ∙ (sym (commands_of-append decode x.gs x.hs) ∙ ap (commands_of decode) (sym x.split)))
