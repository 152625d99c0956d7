-- ===== src/Connection/First.antt =====
-- `read_one_frame` of jftermd/src/server.rs, on a stream of encoded frames.
use native.Mathlib.Decide.{dec_le}
use jfterm_muxer.Base.{
  ℕ, ◌≤◌, ◌≡◌, refl, ap, ◌∙◌, Option, none, some, List, [], ◌∷◌, ◌++◌, append_assoc, arith, length,
  length-append, append_longer,
}
use jfterm_muxer.Protocol.{
  FrameDecoder, push, advance, next_frame, parse_frame, Result, ok, Frame, ProtocolError, encode,
}
use jfterm_muxer.Protocol.Frames.{Fits, parse_tiny, parse-partial, parse_complete}
use jfterm_muxer.Protocol.Decoder.{
  IsPlaced, advance-IsPlaced, push-IsPlaced, unread, unread-push, unread-advance, next_none,
  next_some,
}
use jfterm_muxer.Protocol.Stream.{encode_all, concat, nil_of_append}
use jfterm_muxer.Connection.{read_one_frame}

abbrev FirstRead : Type 0
FirstRead = Result ProtocolError (Option Frame) × FrameDecoder × List (List ℕ)

read_more :
    (d : FrameDecoder) (piece : List ℕ) (pieces : List (List ℕ))
    → next_frame d ≡ (ok none, d)
    → read_one_frame d (piece ∷ pieces) ≡ read_one_frame (push d piece) pieces
unfolding read_one_frame
read_more d piece pieces e =
    rw (e, read_one_frame) (λ i. read_one_frame (push (e i).1 piece) pieces)

read_some :
    (d d' : FrameDecoder) (pieces : List (List ℕ)) (f : Frame)
    → next_frame d ≡ (ok (some f), d')
    → read_one_frame d pieces ≡ (ok (some f), d', pieces)
unfolding read_one_frame
read_some d d' [] f e = rw (e, read_one_frame) refl
read_some d d' (piece ∷ pieces) f e =
    rw (e, read_one_frame) (λ i. (ok (some f), (e i).1, piece ∷ pieces))

pub read_end :
    (d : FrameDecoder) → next_frame d ≡ (ok none, d) → read_one_frame d [] ≡ (ok none, d, [])
unfolding read_one_frame
read_end d e = rw (e, read_one_frame) refl

-- The frame that is read, and what of the stream is left.
pub record Reads (f : Frame) (fs : List Frame) (d : FrameDecoder) (pieces : List (List ℕ))
    : Type 0 where
  pub decoder : FrameDecoder
  pub pieces' : List (List ℕ)
  pub result : read_one_frame d pieces ≡ (ok (some f), decoder, pieces')
  pub left : unread decoder ++ concat pieces' ≡ encode_all fs
  pub placed : IsPlaced d → IsPlaced decoder

push-left :
    (d : FrameDecoder) (piece : List ℕ) (pieces : List (List ℕ)) (bytes : List ℕ)
    → unread d ++ concat (piece ∷ pieces) ≡ bytes
    → unread (push d piece) ++ concat pieces ≡ bytes
push-left d piece pieces bytes e =
    ap (λ u. u ++ concat pieces) (unread-push d piece)
    ∙ (append_assoc (unread d) piece (concat pieces) ∙ e)

whole-Reads :
    (d : FrameDecoder) (pieces : List (List ℕ)) (f : Frame) (fs : List Frame)
    → Fits f
    → unread d ++ concat pieces ≡ encode_all (f ∷ fs)
    → length (encode f) ≤ length (unread d)
    → Reads f fs d pieces
whole-Reads d pieces f fs fits e long =
    let n = length (encode f) in
    let step =
      next_some d n f (parse_complete f (unread d) (concat pieces) (encode_all fs) fits e long) in
    let (_, left) = append_longer (unread d) (concat pieces) (encode f) (encode_all fs) e long in
    record {
      decoder = advance d n;
      pieces' = pieces;
      result = read_some d (advance d n) pieces f step;
      left = ap (λ u. u ++ concat pieces) (unread-advance d n) ∙ left;
      placed = λ p. advance-IsPlaced d n p long;
    }

-- However the stream of some frames is cut, the first of them is read.
pub read_one_frame-Reads :
    (d : FrameDecoder) (pieces : List (List ℕ)) (f : Frame) (fs : List Frame)
    → Fits f
    → unread d ++ concat pieces ≡ encode_all (f ∷ fs)
    → Reads f fs d pieces
read_one_frame-Reads d [] f fs fits e = whole-Reads d [] f fs fits e (
    omega (
      arith,
      length-append (unread d) [],
      length-append (encode f) (encode_all fs),
      ap (length {A = ℕ}) e,
    ))
read_one_frame-Reads d (piece ∷ pieces) f fs fits e =
    elim (dec_le (length (encode f)) (length (unread d))) [
      | yes long ↦ whole-Reads d (piece ∷ pieces) f fs fits e long
      | no short ↦
          let wait = next_none d (
            parse-partial f (unread d) (concat (piece ∷ pieces)) (encode_all fs) fits e
              (omega arith)) in
          let x =
            read_one_frame-Reads (push d piece) pieces f fs fits
              (push-left d piece pieces (encode_all (f ∷ fs)) e) in
          record {
            decoder = x.decoder;
            pieces' = x.pieces';
            result = read_more d piece pieces wait ∙ x.result;
            left = x.left;
            placed = λ p. x.placed (push-IsPlaced d piece);
          }
    ]

-- The end of a stream of whole frames is the end of the input.
pub read_one_frame_end :
    (d : FrameDecoder) (pieces : List (List ℕ))
    → unread d ++ concat pieces ≡ []
    → (read_one_frame d pieces).0 ≡ ok none
read_one_frame_end d [] e =
    let empty : unread d ≡ [] = nil_of_append (unread d) [] e in
    ap (λ (x : FirstRead). x.0)
      (read_end d (next_none d (ap parse_frame empty ∙ parse_tiny [] (omega arith))))
read_one_frame_end d (piece ∷ pieces) e =
    let empty : unread d ≡ [] = nil_of_append (unread d) (concat (piece ∷ pieces)) e in
    ap (λ (x : FirstRead). x.0)
      (read_more d piece pieces (next_none d (ap parse_frame empty ∙ parse_tiny [] (omega arith))))
    ∙ read_one_frame_end (push d piece) pieces (push-left d piece pieces [] e)
