-- ===== src/Protocol/Words.antt =====
-- The header of a frame (jftermd/src/protocol.rs): the type byte and the big-endian length.
use jfterm_muxer.Base.{ℕ, ◌/◌, ◌%◌, ◌^◌, ◌<◌, ◌≡◌, refl, arith, [], ◌∷◌, All}
use jfterm_muxer.Protocol.{
  FrameType, hello, type_byte, type_of_byte, ok, to_be_bytes, from_be_bytes,
}

pub type_of_byte-type_byte : (t : FrameType) → type_of_byte (type_byte t) ≡ ok t
unfolding type_of_byte type_byte
type_of_byte-type_byte hello = refl
type_of_byte-type_byte _ = refl

-- Only the byte of a type is read as that type.
pub type_byte-type_of_byte : (b : ℕ) (t : FrameType) → type_of_byte b ≡ ok t → type_byte t ≡ b
unfolding type_of_byte type_byte
type_byte-type_of_byte b t h = ground arith

pub from_be_bytes-digits :
    (n : ℕ)
    → n < 2 ^ 32
    → from_be_bytes (n / 2 ^ 24 % 256) (n / 2 ^ 16 % 256) (n / 2 ^ 8 % 256) (n % 256) ≡ n
unfolding from_be_bytes
from_be_bytes-digits n h = omega arith

pub to_be_bytes-IsByte : (n : ℕ) → All (λ b. b < 256) (to_be_bytes n)
unfolding to_be_bytes
to_be_bytes-IsByte n = omega arith

pub to_be_bytes-from_be_bytes :
    (a b c d : ℕ)
    → a < 256
    → b < 256
    → c < 256
    → d < 256
    → to_be_bytes (from_be_bytes a b c d) ≡ a ∷ (b ∷ (c ∷ (d ∷ [])))
unfolding to_be_bytes from_be_bytes
to_be_bytes-from_be_bytes a b c d ha hb hc hd =
    let n : ℕ = from_be_bytes a b c d in
    let e₁ : n / 2 ^ 24 % 256 ≡ a = omega arith in
    let e₂ : n / 2 ^ 16 % 256 ≡ b = omega arith in
    let e₃ : n / 2 ^ 8 % 256 ≡ c = omega arith in
    let e₄ : n % 256 ≡ d = omega arith in λ i. e₁ i ∷ (e₂ i ∷ (e₃ i ∷ (e₄ i ∷ [])))
