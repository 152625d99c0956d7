-- ===== src/Protocol/Tests.antt =====
-- The protocol's theorems at concrete inputs.
use jfterm_muxer.Base.{ℕ, ◌≡◌, refl, List, [], ◌∷◌, arith, bytes}
use jfterm_muxer.Protocol.{
  FrameDecoder, new_decoder, next_frame, ok, Frame, input, resize, encode, type_byte, to_be_bytes,
}
use jfterm_muxer.Protocol.Decoder.{unread, IsPlaced, receive}
use jfterm_muxer.Protocol.Stream.{receive-encode_all}
use jfterm_muxer.Protocol.Sound.{Outcome, next_frame_sound}

abbrev two_frames : List Frame
two_frames =
    record { ty = input; payload = bytes "ab" } ∷ (record { ty = resize; payload = [] } ∷ [])

-- The first piece ends inside the first frame's length.
abbrev two_pieces : List (List ℕ)
two_pieces =
    (6 ∷ (0 ∷ (0 ∷ []))) ∷ ((0 ∷ (2 ∷ (97 ∷ (98 ∷ (7 ∷ (0 ∷ (0 ∷ (0 ∷ (0 ∷ []))))))))) ∷ [])

receive-encode_all_example :
    ((receive new_decoder two_pieces).0 ≡ ok two_frames)
    × (unread (receive new_decoder two_pieces).1 ≡ [])
unfolding encode type_byte to_be_bytes
receive-encode_all_example =
    receive-encode_all two_frames two_pieces (ground arith, (ground arith, tt)) refl

-- A whole INPUT frame and one byte of the next.
abbrev buffered : FrameDecoder
buffered = record { buf = 6 ∷ (0 ∷ (0 ∷ (0 ∷ (1 ∷ (120 ∷ (7 ∷ [])))))); pos = 0 }

buffered-IsPlaced : IsPlaced buffered
buffered-IsPlaced = record { inside = ground arith; low = ground arith }

next_frame_sound_example :
    IsPlaced (next_frame buffered).1
    × Outcome buffered (next_frame buffered).1 (next_frame buffered).0
next_frame_sound_example = next_frame_sound buffered buffered-IsPlaced (
  ground arith,
  (
    ground arith,
    (ground arith, (ground arith, (ground arith, (ground arith, (ground arith, tt))))),
  ),
)
