-- ===== src/Protocol/Sound.antt =====
-- What `next_frame` of jftermd/src/protocol.rs answers on any bytes, well formed or not.
use jfterm_muxer.Base.{
  ℕ, suc, ◌+◌, ◌%◌, ◌^◌, ◌≤◌, ◌<◌, ◌≡◌, refl, ap, ◌∙◌, inl, inr, Option, none, some, List, [], ◌∷◌,
  ◌++◌, arith, ltb, length, length-take, take, drop, take-append-drop, Bool-cases, All,
}
use jfterm_muxer.Protocol.{
  FrameDecoder, FrameType, Frame, ProtocolError, Result, ok, err, Next, next_of, parse_frame,
  type_of_byte, to_be_bytes, from_be_bytes, encode, max_frame_len, next_frame,
}
use jfterm_muxer.Protocol.Words.{type_byte-type_of_byte, to_be_bytes-from_be_bytes}
use jfterm_muxer.Protocol.Frames.{Fits}
use jfterm_muxer.Protocol.Decoder.{
  unread, IsPlaced, unread-advance, advance-IsPlaced, next_none, next_err, next_some,
}

-- The frame `f` of `n` bytes stands whole at the front of `avail`.
pub record IsFront (avail : List ℕ) (n : ℕ) (f : Frame) : Type 0 where
  pub fits : Fits f
  pub inside : n ≤ length avail
  pub exact : encode f ++ drop n avail ≡ avail

of_some :
    (avail : List ℕ) (len n : ℕ) (r : Result ℕ FrameType) (f : Frame)
    → next_of avail len r ≡ ok (some (n, f))
    → (r ≡ ok f.ty)
      × (5 + len ≤ length avail)
      × (n ≡ 5 + len)
      × (f.payload ≡ take len (drop 5 avail))
unfolding next_of
of_some avail len n (err b) f h = cc
of_some avail len n (ok ty) f h = ground arith

-- A frame that is read is within the cap, whole, and encodes to exactly the bytes it was read from.
parse-IsFront :
    (avail : List ℕ) (n : ℕ) (f : Frame)
    → All (λ b. b < 256) avail
    → parse_frame avail ≡ ok (some (n, f))
    → IsFront avail n f
unfolding parse_frame encode
parse-IsFront [] n f bytes h = cc
parse-IsFront (a ∷ []) n f bytes h = cc
parse-IsFront (a ∷ b ∷ []) n f bytes h = cc
parse-IsFront (a ∷ b ∷ c ∷ []) n f bytes h = cc
parse-IsFront (a ∷ b ∷ c ∷ d ∷ []) n f bytes h = cc
parse-IsFront (t ∷ a ∷ b ∷ c ∷ d ∷ rest) n f (ht, (ha, (hb, (hc, (hd, hr))))) h =
    elim (Bool-cases (ltb max_frame_len (from_be_bytes a b c d))) [
      | inl large ↦ absurd (cc (rw (large, parse_frame) at h))
      | inr small ↦
          let avail = t ∷ (a ∷ (b ∷ (c ∷ (d ∷ rest)))) in
          let len = from_be_bytes a b c d in
          let (ty, room, total, payload) =
            of_some avail len n (type_of_byte t) f (rw (small, parse_frame) at h) in
          let cap : len ≤ max_frame_len = ground arith in
          let size : length f.payload ≡ len =
            ap length payload ∙ (length-take len rest ∙ omega (arith, room)) in
          let word : to_be_bytes (length f.payload % 2 ^ 32) ≡ a ∷ (b ∷ (c ∷ (d ∷ []))) =
            let e : length f.payload % 2 ^ 32 ≡ len = omega (arith, size, cap) in
            ap to_be_bytes e ∙ to_be_bytes-from_be_bytes a b c d ha hb hc hd in
          let after : drop n avail ≡ drop len rest =
            let e : n ≡ suc (suc (suc (suc (suc len)))) = omega (arith, total) in
            ap (λ k. drop k avail) e in
          record {
            fits = omega (arith, size, cap);
            inside = omega (arith, room, total);
            exact =
                (λ i. type_byte-type_of_byte t f.ty ty i ∷ ((word i ++ payload i) ++ after i))
                ∙ ap (λ r. t ∷ (a ∷ (b ∷ (c ∷ (d ∷ r))))) (take-append-drop len rest);
          }
    ]

abbrev pub Outcome : FrameDecoder → FrameDecoder → Result ProtocolError (Option Frame) → Type 0
Outcome d d' (ok none) = d' ≡ d
Outcome d d' (ok (some f)) = Fits f × (encode f ++ unread d' ≡ unread d)
Outcome d d' (err x) = d' ≡ d

-- Any call of `next_frame` on a well-placed decoder over bytes keeps it well placed; where it yields
-- a frame, the frame is within the cap and its encoding is exactly what was taken off the unread
-- bytes; where it asks for more or fails, the decoder is as it was.
pub next_frame_sound :
    (d : FrameDecoder)
    → IsPlaced d
    → All (λ b. b < 256) (unread d)
    → IsPlaced (next_frame d).1 × Outcome d (next_frame d).1 (next_frame d).0
next_frame_sound d p bytes = go (parse_frame (unread d)) refl
  where
    go :
        (r : Next)
        → parse_frame (unread d) ≡ r
        → IsPlaced (next_frame d).1 × Outcome d (next_frame d).1 (next_frame d).0
    go (err x) e = rw (next_err d x e) (p, refl)
    go (ok none) e = rw (next_none d e) (p, refl)
    go (ok (some (n, f))) e =
        let x = parse-IsFront (unread d) n f bytes e in
        rw (next_some d n f e) (
          advance-IsPlaced d n p x.inside,
          (x.fits, ap (◌++◌ (encode f)) (unread-advance d n) ∙ x.exact),
        )
