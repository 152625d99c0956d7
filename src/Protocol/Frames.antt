-- ===== src/Protocol/Frames.antt =====
-- Reading one frame (jftermd/src/protocol.rs, `next_frame`) from a stream of encoded frames.
use jfterm_muxer.Base.{
  ℕ, suc, ◌+◌, ◌-◌, ◌%◌, ◌^◌, ◌≤◌, ◌<◌, ◌≡◌, refl, sym, ap, ◌∙◌, true, false, none, some, List, [],
  ◌∷◌, ◌++◌, arith, ltb, length, take, drop, if◌then◌else◌, append_longer, take-append_length,
  length-drop,
}
use native.Mathlib.Decide.{dec_le}
use jfterm_muxer.Protocol.{Frame, type_byte, ok, to_be_bytes, encode, max_frame_len, parse_frame}
use jfterm_muxer.Protocol.Words.{type_of_byte-type_byte, from_be_bytes-digits}

-- What the sender guarantees (the `debug_assert!` of `encode`).
abbrev pub Fits : Frame → Type 0
Fits f = length f.payload ≤ max_frame_len

abbrev header : Frame → List ℕ
header f = type_byte f.ty ∷ to_be_bytes (length f.payload % 2 ^ 32)

pub length-encode : (f : Frame) → length (encode f) ≡ 5 + length f.payload
unfolding encode to_be_bytes
length-encode f = omega arith

-- A header is read for its type and length, whatever follows it.
parse-header :
    (f : Frame) (tail : List ℕ)
    → Fits f
    → parse_frame (header f ++ tail) ≡ (
        if ltb (5 + length tail) (5 + length f.payload)
        then ok none
        else ok (
            some
              (5 + length f.payload, record { ty = f.ty; payload = take (length f.payload) tail })))
unfolding parse_frame to_be_bytes
parse-header f tail h =
    let n = length f.payload in
    let small : n % 2 ^ 32 ≡ n = omega arith in
    let digits = from_be_bytes-digits n (omega arith) in
    let fits : ltb max_frame_len n ≡ false = ground arith in
    let five : suc (suc (suc (suc (suc (length tail))))) ≡ 5 + length tail = omega arith in
    rw (small, digits, fits, type_of_byte-type_byte f.ty, five) refl

pub parse_tiny : (v : List ℕ) → length v < 5 → parse_frame v ≡ ok none
unfolding parse_frame
parse_tiny [] h = refl
parse_tiny (a ∷ []) h = refl
parse_tiny (a ∷ b ∷ []) h = refl
parse_tiny (a ∷ b ∷ c ∷ []) h = refl
parse_tiny (a ∷ b ∷ c ∷ d ∷ []) h = refl
parse_tiny (a ∷ b ∷ c ∷ d ∷ e ∷ v) h = absurd (omega arith)

module _ (f : Frame) (v rest more : List ℕ) (fits : Fits f) (e : v ++ rest ≡ encode f ++ more) where
  tail : List ℕ
  tail = drop 5 v

  after_header : 5 ≤ length v → (v ≡ header f ++ tail) × (tail ++ rest ≡ f.payload ++ more)
  unfolding encode tail to_be_bytes
  after_header h = append_longer v rest (header f) (f.payload ++ more) e (omega arith)

  length-tail : length tail ≡ length v - 5
  unfolding tail
  length-tail = length-drop 5 v

  parsed :
      5 ≤ length v
      → parse_frame v ≡ (
          if ltb (5 + length tail) (5 + length f.payload)
          then ok none
          else ok (
              some (
                5 + length f.payload,
                record { ty = f.ty; payload = take (length f.payload) tail },
              )))
  parsed h = ap parse_frame (after_header h).0 ∙ parse-header f tail fits

  -- A piece `v` from the front of a stream that begins with `f` is not read while `f` is incomplete.
  pub parse-partial : length v < length (encode f) → parse_frame v ≡ ok none
  parse-partial h = elim (dec_le 5 (length v)) [
    | no tiny ↦ parse_tiny v (omega arith)
    | yes long ↦
        let short : ltb (5 + length tail) (5 + length f.payload) ≡ true =
          ground (arith, length-encode f, length-tail) in
        parsed long ∙ rw short refl
  ]

  -- Once it is complete, it is read as `f`.
  pub parse_complete :
      length (encode f) ≤ length v → parse_frame v ≡ ok (some (length (encode f), f))
  parse_complete h =
      let n = length-encode f in
      let long : 5 ≤ length v = omega (arith, n) in
      let full : ltb (5 + length tail) (5 + length f.payload) ≡ false =
        ground (arith, n, length-tail) in
      let (t, _) =
        append_longer tail rest f.payload more (after_header long).1
          (omega (arith, n, length-tail)) in
      let payload : take (length f.payload) tail ≡ f.payload =
        ap (take (length f.payload)) t
        ∙ take-append_length f.payload (drop (length f.payload) tail) in
      parsed long
      ∙ (rw full refl ∙ λ i. ok (some (n' n i, record { ty = f.ty; payload = payload i })))
    where
      n' : length (encode f) ≡ 5 + length f.payload → 5 + length f.payload ≡ length (encode f)
      n' = sym
