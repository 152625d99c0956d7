-- ===== src/Protocol/Prefix.antt =====
-- A stream of frames that ends early (jftermd/src/protocol.rs, `push` and `next_frame`).
use jfterm_muxer.Base.{
  ℕ, ◌≡◌, refl, sym, ap, ◌∙◌, subst, List, [], ◌∷◌, ◌++◌, append_assoc, arith, All, length,
  length-append,
}
use jfterm_muxer.Protocol.{FrameDecoder, new_decoder, push, Frame, encode}
use jfterm_muxer.Protocol.Frames.{Fits, length-encode}
use jfterm_muxer.Protocol.Decoder.{unread, IsPlaced, unread-push, push-IsPlaced, drain, receive}
use jfterm_muxer.Protocol.Stream.{
  encode_all, concat, Drained, stays, drain_lem, Drained-after, All-append_right, receive_cons,
}

receive-Drained :
    (d : FrameDecoder) (pieces : List (List ℕ)) (fs : List Frame) (rest : List ℕ)
    → All Fits fs
    → IsPlaced d
    → unread d ++ (concat pieces ++ rest) ≡ encode_all fs
    → (concat pieces ++ rest ≡ [] → fs ≡ [])
    → Drained fs rest (receive d pieces)
unfolding receive
receive-Drained d [] fs rest fits p e c = stays d fs rest p e c
receive-Drained d (q ∷ qs) fs rest fits p e c =
    let d' = push d q in
    let n = length (unread d') in
    let e' : unread d' ++ (concat qs ++ rest) ≡ encode_all fs =
      ap (λ u. u ++ (concat qs ++ rest)) (unread-push d q)
      ∙ (append_assoc (unread d) q (concat qs ++ rest)
          ∙ (ap (◌++◌ (unread d)) (sym (append_assoc q (concat qs) rest)) ∙ e)) in
    let x = drain_lem n d' fs (concat qs ++ rest) fits (push-IsPlaced d q) e' (omega arith) in
    let d'' = (drain n d').1 in
    let fits' = All-append_right x.gs x.hs (subst (All Fits) x.split fits) in
    let later = receive-Drained d'' qs x.hs rest fits' x.placed x.left x.complete in
    let step = receive_cons d d'' q qs x.gs (λ i. (x.taken i, d'')) in
    subst (λ l. Drained l rest (receive d (q ∷ qs))) (sym x.split)
      (subst (Drained (x.gs ++ x.hs) rest) (sym step)
        (Drained-after x.gs x.hs rest (receive d'' qs) later))

-- Nothing is left to come when no byte of the frames is.
encode_all-nil' : (fs : List Frame) (rest : List ℕ) → rest ≡ encode_all fs → rest ≡ [] → fs ≡ []
encode_all-nil' [] rest e z = refl
encode_all-nil' (f ∷ fs) rest e z = absurd (
    omega (
      arith,
      length-append (encode f) (encode_all fs),
      ap (length {A = ℕ}) e,
      ap (length {A = ℕ}) z,
      length-encode f,
    ))

-- A new decoder that is given the beginning of the bytes of some frames, in pieces.
pub receive_prefix :
    (fs : List Frame) (pieces : List (List ℕ)) (rest : List ℕ)
    → All Fits fs
    → concat pieces ++ rest ≡ encode_all fs
    → Drained fs rest (receive new_decoder pieces)
receive_prefix fs pieces rest fits e =
    receive-Drained new_decoder pieces fs rest fits
      (record { inside = omega arith; low = omega arith }) e
      (encode_all-nil' fs (concat pieces ++ rest) e)
