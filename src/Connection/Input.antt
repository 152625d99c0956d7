-- ===== src/Connection/Input.antt =====
-- `reader_task` of jftermd/src/server.rs: the frames of a client become its commands.
use jfterm_muxer.Base.{
  ℕ, zero, suc, ◌+◌, ◌≤◌, ◌≡◌, ◌≢◌, refl, sym, ap, ◌∙◌, subst, false, Option, none, some, List, [],
  ◌∷◌, ◌++◌, append-nil, append_assoc, arith, if◌then◌else◌, length, length-append, All,
}
use jfterm_muxer.Protocol.{
  FrameDecoder, new_decoder, push, next_frame, Result, ok, err, Frame, ProtocolError,
}
use jfterm_muxer.Protocol.Frames.{Fits}
use jfterm_muxer.Protocol.Decoder.{unread, drain, prepend, receive}
use jfterm_muxer.Protocol.Stream.{concat, encode_all, drain-some, receive_cons, receive-encode_all}
use jfterm_muxer.Connection.{Decode, Reader, on_frame, frames_loop, reads, reader_task}
use jfterm_muxer.Connection.Commands.{
  Took, none-Took, on_frame-Took, trans-Took, commands_of_frame, commands_of, commands_of-append,
  length-commands_of_frame, IsOpen,
}

abbrev the_err : ProtocolError → Result ProtocolError (List Frame)
the_err x = err x

abbrev the_ok : List Frame → Result ProtocolError (List Frame)
the_ok fs = ok fs

abbrev Received : Type 0
Received = Result ProtocolError (List Frame) × FrameDecoder

err_is_no_ok : (q : Received) (x : ProtocolError) (fs : List Frame) → q.0 ≡ err x → q.0 ≢ ok fs
err_is_no_ok q x fs e k = let z : the_err x ≡ ok fs = sym e ∙ k in cc

-- What comes out after some frames came out.
prepend_split :
    (gs fs : List Frame) (q : Received)
    → (prepend gs q).0 ≡ ok fs
    → (hs : List Frame) × (q.0 ≡ ok hs) × (fs ≡ gs ++ hs)
prepend_split gs fs (err x, d) e = absurd (err_is_no_ok (prepend gs (err x, d)) x fs refl e)
prepend_split gs fs (ok hs, d) e = let z : fs ≡ gs ++ hs = cc in (hs, refl, z)

receive_err :
    (d d' : FrameDecoder) (piece : List ℕ) (pieces : List (List ℕ)) (x : ProtocolError)
    → drain (length (unread (push d piece))) (push d piece) ≡ (err x, d')
    → (receive d (piece ∷ pieces)).0 ≡ err x
unfolding receive
receive_err d d' piece pieces x e = rw (e, receive) refl

ok_inj : (gs fs : List Frame) → the_ok gs ≡ the_ok fs → gs ≡ fs
ok_inj gs fs e = cc

module _ (decode : Decode) where
  -- What one result of `next_frame` makes of the loop.
  loop_none :
      (fuel : ℕ) (r : Reader) (d : FrameDecoder)
      → next_frame r.decoder ≡ (ok none, d)
      → frames_loop decode (suc fuel) r ≡ record r { decoder = d }
  unfolding frames_loop
  loop_none fuel r d e = rw (e, frames_loop) (λ i. record r { decoder = (e i).1 })

  loop_some :
      (fuel : ℕ) (r : Reader) (f : Frame) (d : FrameDecoder)
      → next_frame r.decoder ≡ (ok (some f), d)
      → (let r' = on_frame decode f.ty f.payload (record r { decoder = d }) in
          frames_loop decode (suc fuel) r ≡ (if r'.is_done then r' else frames_loop decode fuel r'))
  unfolding frames_loop
  loop_some fuel r f d e =
      rw (e, frames_loop)
        (λ i.
          let r' : Reader = on_frame decode f.ty f.payload (record r { decoder = (e i).1 }) in
          if r'.is_done then r' else frames_loop decode fuel r')

  unfoldable pub LoopGoal : ℕ → Reader → Result ProtocolError (List Frame) × FrameDecoder → Type 0
  LoopGoal fuel r (err x, d) = Unit {0}
  LoopGoal fuel r (ok fs, d) =
      All (IsOpen decode) fs
      → length fs ≤ r.left
      → Took decode (record r { decoder = d }) (frames_loop decode fuel r) (commands_of decode fs)

  drain_err :
      (fuel : ℕ) (d : FrameDecoder) (x : ProtocolError) (d' : FrameDecoder)
      → next_frame d ≡ (err x, d')
      → drain (suc fuel) d ≡ (err x, d')
  unfolding drain
  drain_err fuel d x d' e = rw (e, drain) (λ i. (err x, (e i).1))

  drain_stop :
      (fuel : ℕ) (d d' : FrameDecoder)
      → next_frame d ≡ (ok none, d')
      → drain (suc fuel) d ≡ (ok [], d')
  unfolding drain
  drain_stop fuel d d' e = rw (e, drain) (λ i. (ok [], (e i).1))

  some_case :
      (fuel : ℕ) (r : Reader) (f : Frame) (d : FrameDecoder)
      (q : Result ProtocolError (List Frame) × FrameDecoder)
      → next_frame r.decoder ≡ (ok (some f), d)
      → r.is_done ≡ false
      → drain fuel d ≡ q
      → ((r' : Reader) → r'.is_done ≡ false → LoopGoal fuel r' (drain fuel r'.decoder))
      → LoopGoal (suc fuel) r (prepend (f ∷ []) q)
  unfolding LoopGoal
  some_case fuel r f d (err x, d2) e o k ih = tt
  some_case fuel r f d (ok gs, d2) e o k ih = λ a l.
      let at : Reader = record r { decoder = d } in
      let r1 = on_frame decode f.ty f.payload at in
      let t1 = on_frame-Took decode f.ty f.payload at a.0 (omega arith) o in
      let g = subst (LoopGoal fuel r1) (ap (drain fuel) t1.kept ∙ k) (ih r1 t1.open_) in
      let t2 = g a.1 (omega (arith, t1.room, length-commands_of_frame decode f.ty f.payload)) in
      let t1' : Took decode (record r { decoder = d2 }) (record r1 { decoder = d2 })
          (commands_of_frame decode f.ty f.payload) =
        record { sent = t1.sent; room = t1.room; open_ = t1.open_; kept = refl } in
      let step : frames_loop decode (suc fuel) r ≡ frames_loop decode fuel r1 =
        loop_some fuel r f d e ∙ ap (λ b. if b then r1 else frames_loop decode fuel r1) t1.open_ in
      subst (λ y. Took decode (record r { decoder = d2 }) y (commands_of decode (f ∷ gs)))
        (sym step)
        (trans-Took decode _ _ _ (commands_of_frame decode f.ty f.payload) (commands_of decode gs)
          t1' t2)

  loop_case :
      (fuel : ℕ) (r : Reader) (x : Result ProtocolError (Option Frame)) (d : FrameDecoder)
      → next_frame r.decoder ≡ (x, d)
      → r.is_done ≡ false
      → ((r' : Reader) → r'.is_done ≡ false → LoopGoal fuel r' (drain fuel r'.decoder))
      → LoopGoal (suc fuel) r (drain (suc fuel) r.decoder)
  unfolding LoopGoal
  loop_case fuel r (err x) d e o ih =
      subst (LoopGoal (suc fuel) r) (sym (drain_err fuel r.decoder x d e)) tt
  loop_case fuel r (ok none) d e o ih =
      subst (LoopGoal (suc fuel) r) (sym (drain_stop fuel r.decoder d e)) (λ a l.
        subst (λ y. Took decode (record r { decoder = d }) y []) (sym (loop_none fuel r d e))
          (none-Took decode (record r { decoder = d }) o))
  loop_case fuel r (ok (some f)) d e o ih =
      subst (LoopGoal (suc fuel) r) (sym (drain-some fuel r.decoder d f e))
        (some_case fuel r f d (drain fuel d) e o refl ih)

  pub frames_loop-Took :
      (fuel : ℕ) (r : Reader) → r.is_done ≡ false → LoopGoal fuel r (drain fuel r.decoder)
  unfolding LoopGoal drain frames_loop
  frames_loop-Took zero r o = λ a l. none-Took decode r o
  frames_loop-Took (suc fuel) r o =
      loop_case fuel r (next_frame r.decoder).0 (next_frame r.decoder).1 refl o
        (λ r' o'. frames_loop-Took fuel r' o')

  pub All-append_both :
      (gs hs : List Frame)
      → All (IsOpen decode) (gs ++ hs)
      → All (IsOpen decode) gs × All (IsOpen decode) hs
  All-append_both [] hs a = (tt, a)
  All-append_both (g ∷ gs) hs a = let (x, y) = All-append_both gs hs a.1 in ((a.0, x), y)

  pub length-commands_of : (fs : List Frame) → length (commands_of decode fs) ≤ length fs
  length-commands_of [] = omega arith
  length-commands_of (f ∷ fs) = omega (
    arith,
    length-commands_of fs,
    length-commands_of_frame decode f.ty f.payload,
    length-append (commands_of_frame decode f.ty f.payload) (commands_of decode fs),
  )

  reads_step :
      (r : Reader) (piece : List ℕ) (pieces : List (List ℕ))
      → r.is_done ≡ false
      → (let d = push r.decoder piece in
          reads decode r (piece ∷ pieces)
          ≡ reads decode (frames_loop decode (length (unread d)) (record r { decoder = d })) pieces)
  unfolding reads
  reads_step r piece pieces o =
      ap
        (λ b.
          if b
          then r
          else reads decode
              (frames_loop decode (length (unread (push r.decoder piece)))
                (record r { decoder = push r.decoder piece }))
              pieces)
        o

  abbrev pub ReadsGoal : List (List ℕ) → Type 0
  ReadsGoal pieces =
      (r : Reader) (fs : List Frame)
      → (receive r.decoder pieces).0 ≡ ok fs
      → All (IsOpen decode) fs
      → length fs ≤ r.left
      → r.is_done ≡ false
      → (reads decode r pieces).commands ≡ r.commands ++ commands_of decode fs

  reads_case :
      (r : Reader) (piece : List ℕ) (pieces : List (List ℕ)) (fs : List Frame) (q : Received)
      → drain (length (unread (push r.decoder piece))) (push r.decoder piece) ≡ q
      → (receive r.decoder (piece ∷ pieces)).0 ≡ ok fs
      → All (IsOpen decode) fs
      → length fs ≤ r.left
      → r.is_done ≡ false
      → ReadsGoal pieces
      → (reads decode r (piece ∷ pieces)).commands ≡ r.commands ++ commands_of decode fs
  unfolding LoopGoal
  reads_case r piece pieces fs (err x, d) k e a l o ih = absurd (
      err_is_no_ok (receive r.decoder (piece ∷ pieces)) x fs
        (receive_err r.decoder d piece pieces x k) e)
  reads_case r piece pieces fs (ok gs, d) k e a l o ih =
      let n = length (unread (push r.decoder piece)) in
      let at : Reader = record r { decoder = push r.decoder piece } in
      let (hs, eh, s) =
        prepend_split gs fs (receive d pieces)
          (ap (λ (q : Received). q.0) (sym (receive_cons r.decoder d piece pieces gs k)) ∙ e) in
      let (ag, ah) = All-append_both gs hs (subst (All (IsOpen decode)) s a) in
      let lens : length fs ≡ length gs + length hs =
        ap (length {A = Frame}) s ∙ length-append gs hs in
      let r1 = frames_loop decode n at in
      let t = subst (LoopGoal n at) k (frames_loop-Took n at o) ag (omega arith) in
      let e1 : (receive r1.decoder pieces).0 ≡ ok hs = ap (λ x. (receive x pieces).0) t.kept ∙ eh in
      let rest = ih r1 hs e1 ah (omega (arith, t.room, length-commands_of gs)) t.open_ in
      ap (λ (y : Reader). y.commands) (reads_step r piece pieces o)
      ∙ (rest
          ∙ (ap (λ c. c ++ commands_of decode hs) t.sent
              ∙ (append_assoc r.commands (commands_of decode gs) (commands_of decode hs)
                  ∙ ap (◌++◌ r.commands)
                      (sym (commands_of-append decode gs hs) ∙ ap (commands_of decode) (sym s)))))

  pub reads_lem : (pieces : List (List ℕ)) → ReadsGoal pieces
  unfolding reads receive
  reads_lem [] r fs e a l o =
      let z : [] ≡ fs = ok_inj [] fs e in
      sym (append-nil r.commands) ∙ ap (λ x. r.commands ++ commands_of decode x) z
  reads_lem (piece ∷ pieces) r fs e a l o =
      reads_case r piece pieces fs
        (drain (length (unread (push r.decoder piece))) (push r.decoder piece)) refl e a l o
        (reads_lem pieces)

  -- However a client's frames (within the frame cap, none of them CLOSE) are cut into reads, the
  -- reader sends the actor exactly the commands they stand for, in order, while the actor takes as
  -- many: every INPUT with its bytes, every RESIZE that parses, and nothing for the others.
  pub reader_task-commands :
      (fs : List Frame) (pieces : List (List ℕ)) (left : ℕ)
      → All Fits fs
      → All (IsOpen decode) fs
      → concat pieces ≡ encode_all fs
      → length fs ≤ left
      → (reader_task decode new_decoder pieces left).commands ≡ commands_of decode fs
  unfolding reader_task
  reader_task-commands fs pieces left fits a e l =
      let start : Reader = record {
        commands = [];
        left = left;
        decoder = new_decoder;
        is_done = false;
      } in
      reads_lem pieces start fs (receive-encode_all fs pieces fits e).0 a l refl
