-- ===== src/Protocol.antt =====
-- jftermd/src/protocol.rs: the frames of the wire protocol and the incremental decoder.
pub mod Decoder
pub mod Words
pub mod Frames
pub mod Stream
pub mod Prefix
pub mod Sound
pub mod Data
pub mod Tests
use jfterm_muxer.Base.{
  ℕ, zero, suc, ◌+◌, ◌*◌, ◌/◌, ◌%◌, ◌^◌, Option, none, some, List, [], ◌∷◌, ◌++◌, ltb, leb, ◌==◌,
  if◌then◌else◌, length, take, drop, get_elem?, unwrap_or,
}

abbrev pub proto_version : ℕ
proto_version = 1

abbrev pub max_frame_len : ℕ
max_frame_len = 16 * 1024 * 1024

abbrev pub compact_threshold : ℕ
compact_threshold = 64 * 1024

pub data FrameType : Type 0 where
  hello hello_ok list sessions attach_or_open input resize close data_frame status exit : FrameType

-- `self.ty as u8`.
unfoldable pub type_byte : FrameType → ℕ
type_byte hello = 1
type_byte hello_ok = 2
type_byte list = 3
type_byte sessions = 4
type_byte attach_or_open = 5
type_byte input = 6
type_byte resize = 7
type_byte close = 8
type_byte data_frame = 9
type_byte status = 10
type_byte exit = 11

pub data Result (E A : Type 0) : Type 0 where
  ok : A → Result E A
  err : E → Result E A

-- `FrameType::try_from`; the error is the byte.
unfoldable pub type_of_byte : ℕ → Result ℕ FrameType
type_of_byte b =
    if b == 1
    then ok hello
    else if b == 2
    then ok hello_ok
    else if b == 3
    then ok list
    else if b == 4
    then ok sessions
    else if b == 5
    then ok attach_or_open
    else if b == 6
    then ok input
    else if b == 7
    then ok resize
    else if b == 8
    then ok close
    else if b == 9
    then ok data_frame
    else if b == 10
    then ok status
    else if b == 11
    then ok exit
    else err b

pub record Frame : Type 0 where
  pub ty : FrameType
  pub payload : List ℕ

pub data ProtocolError : Type 0 where
  unknown_type frame_too_large : ℕ → ProtocolError

-- `u32::to_be_bytes` and `u32::from_be_bytes`.
unfoldable pub to_be_bytes : ℕ → List ℕ
to_be_bytes n = n / 2 ^ 24 % 256 ∷ (n / 2 ^ 16 % 256 ∷ (n / 2 ^ 8 % 256 ∷ (n % 256 ∷ [])))

unfoldable pub from_be_bytes : ℕ → ℕ → ℕ → ℕ → ℕ
from_be_bytes a b c d = a * 2 ^ 24 + b * 2 ^ 16 + c * 2 ^ 8 + d

-- The release build: `debug_assert!` checks nothing, and `len as u32` wraps.
unfoldable pub encode : Frame → List ℕ
encode f = type_byte f.ty ∷ (to_be_bytes (length f.payload % 2 ^ 32) ++ f.payload)

pub record FrameDecoder : Type 0 where
  pub buf : List ℕ
  pub pos : ℕ

abbrev pub new_decoder : FrameDecoder
new_decoder = record { buf = []; pos = 0 }

unfoldable pub compact : FrameDecoder → FrameDecoder
compact d = if d.pos == 0 then d else record { buf = drop d.pos d.buf; pos = 0 }

unfoldable pub push : FrameDecoder → List ℕ → FrameDecoder
unfolding compact
push d bytes = let d' = compact d in record d' { buf = d'.buf ++ bytes }

-- The frame at the front of `avail`, if it is whole: its total length and the frame.
abbrev pub Next : Type 0
Next = Result ProtocolError (Option (ℕ × Frame))

-- The part of `next_frame` after the length check.
next_of : List ℕ → ℕ → Result ℕ FrameType → Next
next_of avail len (err b) = err (unknown_type b)
next_of avail len (ok ty) =
    if ltb (length avail) (5 + len)
    then ok none
    else ok (some (5 + len, record { ty = ty; payload = take len (drop 5 avail) }))

unfoldable pub parse_frame : List ℕ → Next
unfolding next_of
parse_frame (t ∷ a ∷ b ∷ c ∷ d ∷ rest) =
    let len = from_be_bytes a b c d in
    if ltb max_frame_len len
    then err (frame_too_large len)
    else next_of (t ∷ a ∷ b ∷ c ∷ d ∷ rest) len (type_of_byte t)
parse_frame _ = ok none

-- `self.pos += total` and the eager compaction.
unfoldable pub advance : FrameDecoder → ℕ → FrameDecoder
unfolding compact
advance d total =
    let d' = record d { pos = d.pos + total } in
    if leb compact_threshold d'.pos then compact d' else d'

next_result : FrameDecoder → Next → Result ProtocolError (Option Frame) × FrameDecoder
unfolding advance
next_result d (err e) = (err e, d)
next_result d (ok none) = (ok none, d)
next_result d (ok (some (total, f))) = (ok (some f), advance d total)

-- `next_frame` on `avail = &self.buf[self.pos..]`.
unfoldable pub next_frame : FrameDecoder → Result ProtocolError (Option Frame) × FrameDecoder
unfolding next_result parse_frame
next_frame d = next_result d (parse_frame (drop d.pos d.buf))

-- `bytes.chunks(MAX_FRAME_LEN)` on fuel; a chunk takes at least one byte, so the length is enough.
unfoldable pub chunks : ℕ → ℕ → List ℕ → List (List ℕ)
chunks fuel size [] = []
chunks zero size (b ∷ bs) = []
chunks (suc fuel) size (b ∷ bs) = take size (b ∷ bs) ∷ chunks fuel size (drop size (b ∷ bs))

abbrev data_frames : List (List ℕ) → List Frame
data_frames [] = []
data_frames (c ∷ cs) = record { ty = data_frame; payload = c } ∷ data_frames cs

unfoldable pub frame_data : List ℕ → List Frame
unfolding chunks
frame_data bytes = data_frames (chunks (length bytes) max_frame_len bytes)
