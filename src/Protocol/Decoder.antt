-- ===== src/Protocol/Decoder.antt =====
-- `FrameDecoder` of jftermd/src/protocol.rs: its buffer and cursor seen as the bytes not consumed.
use jfterm_muxer.Base.{
  ℕ, zero, suc, ◌+◌, ◌≤◌, ◌<◌, ◌≡◌, refl, sym, inl, inr, none, some, List, [], ◌∷◌, ◌++◌, arith,
  leb, ◌==◌, ==_iff, length, length-drop, drop, drop-drop, Bool-cases,
}
use jfterm_muxer.Protocol.{
  FrameDecoder, compact, push, advance, next_frame, next_result, parse_frame, Result, ok, err,
  Frame, ProtocolError, compact_threshold,
}

-- The bytes that are buffered and not consumed.
abbrev pub unread : FrameDecoder → List ℕ
unread d = drop d.pos d.buf

-- The cursor stands inside the buffer and below the threshold: between calls the buffer holds less
-- than 64 KiB of consumed bytes, and `drain(..pos)` does not panic.
pub record IsPlaced (d : FrameDecoder) : Type 0 where
  pub inside : d.pos ≤ length d.buf
  pub low : d.pos < compact_threshold

pub compact_lem : (d : FrameDecoder) → compact d ≡ record { buf = unread d; pos = 0 }
unfolding compact
compact_lem d = elim (Bool-cases (d.pos == 0)) [
  | inl e ↦
      let z : d.pos ≡ 0 = (==_iff d.pos 0).0 e in
      rw e (λ i. record { buf = drop (sym z i) d.buf; pos = z i })
  | inr e ↦ rw e refl
]

pub unread-push : (d : FrameDecoder) (bytes : List ℕ) → unread (push d bytes) ≡ unread d ++ bytes
unfolding push
unread-push d bytes = rw compact_lem refl

pub push-IsPlaced : (d : FrameDecoder) (bytes : List ℕ) → IsPlaced (push d bytes)
unfolding push
push-IsPlaced d bytes = rw compact_lem (record { inside = omega arith; low = omega arith })

pub unread-advance :
    (d : FrameDecoder) (total : ℕ) → unread (advance d total) ≡ drop total (unread d)
unfolding advance
unread-advance d total = elim (Bool-cases (leb compact_threshold (d.pos + total))) [
  | inl high ↦ rw (high, compact_lem) (sym (drop-drop total d.pos d.buf))
  | inr low ↦ rw low (sym (drop-drop total d.pos d.buf))
]

pub advance-IsPlaced :
    (d : FrameDecoder) (total : ℕ)
    → IsPlaced d
    → total ≤ length (unread d)
    → IsPlaced (advance d total)
unfolding advance
advance-IsPlaced d total p h = elim (Bool-cases (leb compact_threshold (d.pos + total))) [
  | inl high ↦ rw (high, compact_lem) (record { inside = omega arith; low = omega arith })
  | inr low ↦
      rw low
        (record { inside = omega (arith, length-drop d.pos d.buf, p.inside); low = ground arith })
]

-- What one call of `next_frame` does, by what it reads at the front of the unread bytes.
pub next_none : (d : FrameDecoder) → parse_frame (unread d) ≡ ok none → next_frame d ≡ (ok none, d)
unfolding next_frame next_result
next_none d e = rw e refl

pub next_err :
    (d : FrameDecoder) (x : ProtocolError)
    → parse_frame (unread d) ≡ err x
    → next_frame d ≡ (err x, d)
unfolding next_frame next_result
next_err d x e = rw e refl

pub next_some :
    (d : FrameDecoder) (total : ℕ) (f : Frame)
    → parse_frame (unread d) ≡ ok (some (total, f))
    → next_frame d ≡ (ok (some f), advance d total)
unfolding next_frame next_result
next_some d total f e = rw e refl

-- Frames read before others; an error stands for the whole.
abbrev pub prepend :
    List Frame
    → Result ProtocolError (List Frame) × FrameDecoder
    → Result ProtocolError (List Frame) × FrameDecoder
prepend fs (err x, d) = (err x, d)
prepend fs (ok gs, d) = (ok (fs ++ gs), d)

-- The reader's loop: frames are taken until one is incomplete or malformed. Every frame takes at
-- least five bytes, so the number of unread bytes is fuel enough.
unfoldable pub drain : ℕ → FrameDecoder → Result ProtocolError (List Frame) × FrameDecoder
drain zero d = (ok [], d)
drain (suc fuel) d =
    let later = drain fuel (next_frame d).1 in
    elim (next_frame d).0 [
      | err x ↦ (err x, (next_frame d).1)
      | ok none ↦ (ok [], (next_frame d).1)
      | ok (some f) ↦ prepend (f ∷ []) later
    ]

-- Bytes arrive in pieces; after each piece all complete frames are taken.
unfoldable pub receive :
    FrameDecoder → List (List ℕ) → Result ProtocolError (List Frame) × FrameDecoder
receive d [] = (ok [], d)
receive d (piece ∷ pieces) =
    let d' = push d piece in
    let (r, d'') = drain (length (unread d')) d' in
    let later = receive d'' pieces in elim r [ err x ↦ (err x, d'') | ok fs ↦ prepend fs later ]
