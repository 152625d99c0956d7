-- ===== src/Protocol/Stream.antt =====
-- A stream of frames cut into arbitrary pieces (jftermd/src/protocol.rs, `push` and `next_frame`).
use native.Mathlib.Decide.{dec_le}
use jfterm_muxer.Base.{
  ℕ, zero, suc, ◌≤◌, ◌<◌, ◌≡◌, refl, sym, ap, ◌∙◌, subst, none, some, List, [], ◌∷◌, ◌++◌,
  append_assoc, arith, length, length-append, length-drop, append_longer, All,
}
use jfterm_muxer.Protocol.{
  FrameDecoder, new_decoder, push, advance, next_frame, parse_frame, Result, ok, err, Frame, encode,
  ProtocolError,
}
use jfterm_muxer.Protocol.Frames.{Fits, length-encode, parse_tiny, parse-partial, parse_complete}
use jfterm_muxer.Protocol.Decoder.{
  unread, IsPlaced, unread-push, push-IsPlaced, unread-advance, advance-IsPlaced, next_none,
  next_some, drain, prepend, receive,
}

abbrev pub encode_all : List Frame → List ℕ
encode_all [] = []
encode_all (f ∷ fs) = encode f ++ encode_all fs

abbrev pub concat : List (List ℕ) → List ℕ
concat [] = []
concat (p ∷ ps) = p ++ concat ps

pub nil_of_length : (xs : List ℕ) → length xs ≡ 0 → xs ≡ []
nil_of_length [] e = refl
nil_of_length (x ∷ xs) e = absurd (omega arith)

pub nil_of_append : (xs ys : List ℕ) → xs ++ ys ≡ [] → xs ≡ []
nil_of_append xs ys e = nil_of_length xs (omega (arith, length-append xs ys, ap (length {A = ℕ}) e))

-- The frames `gs` were taken, `hs` are still to come, `rest` is what has not arrived.
pub record Drained (fs : List Frame) (rest : List ℕ)
    (r : Result ProtocolError (List Frame) × FrameDecoder) : Type 0 where
  pub gs : List Frame
  pub hs : List Frame
  pub taken : r.0 ≡ ok gs
  pub split : fs ≡ gs ++ hs
  pub left : unread r.1 ++ rest ≡ encode_all hs
  pub placed : IsPlaced r.1
  pub complete : rest ≡ [] → hs ≡ []

-- Nothing is taken while the front frame is incomplete.
pub stays :
    (d : FrameDecoder) (fs : List Frame) (rest : List ℕ)
    → IsPlaced d
    → unread d ++ rest ≡ encode_all fs
    → (rest ≡ [] → fs ≡ [])
    → Drained fs rest (ok [], d)
stays d fs rest p e c = record {
  gs = [];
  hs = fs;
  taken = refl;
  split = refl;
  left = e;
  placed = p;
  complete = c;
}

drain-none :
    (fuel : ℕ) (d : FrameDecoder) → parse_frame (unread d) ≡ ok none → drain fuel d ≡ (ok [], d)
unfolding drain
drain-none zero d e = refl
drain-none (suc fuel) d e = rw (next_none d e, drain) (λ i. (ok [], (next_none d e i).1))

pub drain-some :
    (fuel : ℕ) (d d' : FrameDecoder) (f : Frame)
    → next_frame d ≡ (ok (some f), d')
    → drain (suc fuel) d ≡ prepend (f ∷ []) (drain fuel d')
unfolding drain
drain-some fuel d d' f e = rw (e, drain) (λ i. prepend (f ∷ []) (drain fuel (e i).1))

prepend_lem :
    (fs gs : List Frame) (r : Result ProtocolError (List Frame) × FrameDecoder)
    → r.0 ≡ ok gs
    → prepend fs r ≡ (ok (fs ++ gs), r.1)
prepend_lem fs gs (ok hs, d) e = let h : hs ≡ gs = cc in λ i. (ok (fs ++ h i), d)
prepend_lem fs gs (err x, d) e = cc

pub Drained-after :
    (fs gs : List Frame) (rest : List ℕ) (r : Result ProtocolError (List Frame) × FrameDecoder)
    → Drained gs rest r
    → Drained (fs ++ gs) rest (prepend fs r)
Drained-after fs gs rest r x = rw (prepend_lem fs x.gs r x.taken) (record {
  gs = fs ++ x.gs;
  hs = x.hs;
  taken = refl;
  split = ap (◌++◌ fs) x.split ∙ sym (append_assoc fs x.gs x.hs);
  left = x.left;
  placed = x.placed;
  complete = x.complete;
})

-- The end of the stream cannot come inside a frame.
not_short :
    (d : FrameDecoder) (f : Frame) (fs : List Frame) (rest : List ℕ)
    → unread d ++ rest ≡ encode_all (f ∷ fs)
    → length (unread d) < length (encode f)
    → rest ≡ []
    → (f ∷ fs) ≡ []
not_short d f fs rest e h z = absurd (
    omega (
      arith,
      length-append (unread d) rest,
      length-append (encode f) (encode_all fs),
      ap (length {A = ℕ}) e,
      ap (length {A = ℕ}) z,
    ))

pub drain_lem :
    (fuel : ℕ) (d : FrameDecoder) (fs : List Frame) (rest : List ℕ)
    → All Fits fs
    → IsPlaced d
    → unread d ++ rest ≡ encode_all fs
    → length (unread d) ≤ fuel
    → Drained fs rest (drain fuel d)
drain_lem fuel d [] rest fits p e h =
    let empty : unread d ≡ [] = nil_of_append (unread d) rest e in
    rw (drain-none fuel d (ap parse_frame empty ∙ parse_tiny [] (omega arith)))
      (stays d [] rest p e (λ _. refl))
drain_lem zero d (f ∷ fs) rest fits p e h =
    let short : length (unread d) < length (encode f) = omega (arith, length-encode f) in
    rw (drain-none zero d (parse-partial f (unread d) rest (encode_all fs) fits.0 e short))
      (stays d (f ∷ fs) rest p e (not_short d f fs rest e short))
drain_lem (suc fuel) d (f ∷ fs) rest fits p e h =
    elim (dec_le (length (encode f)) (length (unread d))) [
      | no short ↦
          rw
            (drain-none (suc fuel) d
              (parse-partial f (unread d) rest (encode_all fs) fits.0 e (omega arith)))
            (stays d (f ∷ fs) rest p e (not_short d f fs rest e (omega arith)))
      | yes long ↦
          let n = length (encode f) in
          let d' = advance d n in
          let step =
            next_some d n f (parse_complete f (unread d) rest (encode_all fs) fits.0 e long) in
          let (_, e') = append_longer (unread d) rest (encode f) (encode_all fs) e long in
          let e'' : unread d' ++ rest ≡ encode_all fs =
            ap (λ u. u ++ rest) (unread-advance d n) ∙ e' in
          let fewer : length (unread d') ≤ fuel = omega (
            arith,
            ap (length {A = ℕ}) (unread-advance d n),
            length-drop n (unread d),
            length-encode f,
          ) in
          rw (drain-some fuel d d' f step) (
            Drained-after (f ∷ []) fs rest (drain fuel d')
              (drain_lem fuel d' fs rest fits.1 (advance-IsPlaced d n p long) e'' fewer))
    ]

pub All-append_right : (fs gs : List Frame) → All Fits (fs ++ gs) → All Fits gs
All-append_right [] gs h = h
All-append_right (f ∷ fs) gs h = All-append_right fs gs h.1

pub receive_cons :
    (d d' : FrameDecoder) (piece : List ℕ) (pieces : List (List ℕ)) (gs : List Frame)
    → drain (length (unread (push d piece))) (push d piece) ≡ (ok gs, d')
    → receive d (piece ∷ pieces) ≡ prepend gs (receive d' pieces)
unfolding receive
receive_cons d d' piece pieces gs e = rw (e, receive) (λ i. prepend gs (receive (e i).1 pieces))

pub receive_lem :
    (d : FrameDecoder) (pieces : List (List ℕ)) (fs : List Frame)
    → All Fits fs
    → unread d ++ concat pieces ≡ encode_all fs
    → (concat pieces ≡ [] → fs ≡ [])
    → ((receive d pieces).0 ≡ ok fs) × (unread (receive d pieces).1 ≡ [])
receive_lem d [] fs fits e c =
    let done : fs ≡ [] = c refl in
    unfold receive in (ap ok (sym done), nil_of_append (unread d) [] (e ∙ ap encode_all done))
receive_lem d (p ∷ ps) fs fits e c =
    let d' = push d p in
    let n = length (unread d') in
    let e' : unread d' ++ concat ps ≡ encode_all fs =
      ap (λ u. u ++ concat ps) (unread-push d p) ∙ (append_assoc (unread d) p (concat ps) ∙ e) in
    let x = drain_lem n d' fs (concat ps) fits (push-IsPlaced d p) e' (omega arith) in
    let d'' = (drain n d').1 in
    let fits' = All-append_right x.gs x.hs (subst (All Fits) x.split fits) in
    let (r, u) = receive_lem d'' ps x.hs fits' x.left x.complete in
    let step : receive d (p ∷ ps) ≡ (ok (x.gs ++ x.hs), (receive d'' ps).1) =
      receive_cons d d'' p ps x.gs (λ i. (x.taken i, d''))
      ∙ prepend_lem x.gs x.hs (receive d'' ps) r in
    (
      ap (λ (q : Result ProtocolError (List Frame) × FrameDecoder). q.0) step ∙ ap ok (sym x.split),
      ap (λ (q : Result ProtocolError (List Frame) × FrameDecoder). unread q.1) step ∙ u,
    )

encode_all-nil : (fs : List Frame) → encode_all fs ≡ [] → fs ≡ []
encode_all-nil [] e = refl
encode_all-nil (f ∷ fs) e = absurd (
    omega (arith, length-append (encode f) (encode_all fs), ap (length {A = ℕ}) e, length-encode f))

-- However the bytes of some frames (each within the frame cap) are cut into pieces, a new decoder
-- that is given the pieces one by one, and asked for frames until it has none, yields exactly those
-- frames in order, with no error and nothing left unread.
pub receive-encode_all :
    (fs : List Frame) (pieces : List (List ℕ))
    → All Fits fs
    → concat pieces ≡ encode_all fs
    → ((receive new_decoder pieces).0 ≡ ok fs) × (unread (receive new_decoder pieces).1 ≡ [])
receive-encode_all fs pieces fits e =
    receive_lem new_decoder pieces fs fits e (λ z. encode_all-nil fs (sym e ∙ z))
