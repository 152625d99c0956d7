-- ===== src/Protocol/Data.antt =====
-- `frame_data` of jftermd/src/protocol.rs: raw output as `Data` frames within the cap.
use jfterm_muxer.Base.{
  ℕ, zero, suc, ◌≤◌, ◌<◌, ◌≡◌, refl, ap, ◌∙◌, List, [], ◌∷◌, ◌++◌, arith, length, length-take,
  length-drop, take, drop, take-append-drop, All,
}
use jfterm_muxer.Protocol.{
  ok, new_decoder, Frame, data_frame, max_frame_len, chunks, data_frames, frame_data,
}
use jfterm_muxer.Protocol.Frames.{Fits}
use jfterm_muxer.Protocol.Decoder.{receive}
use jfterm_muxer.Protocol.Stream.{concat, encode_all, receive-encode_all}

chunks_lem :
    (fuel size : ℕ) (bytes : List ℕ)
    → 0 < size
    → length bytes ≤ fuel
    → (concat (chunks fuel size bytes) ≡ bytes)
      × All (λ c. (0 < length c) × (length c ≤ size)) (chunks fuel size bytes)
unfolding chunks
chunks_lem fuel size [] h k = (refl, tt)
chunks_lem zero size (b ∷ bs) h k = absurd (omega arith)
chunks_lem (suc fuel) size (b ∷ bs) h k =
    let (e, a) =
      chunks_lem fuel size (drop size (b ∷ bs)) h (omega (arith, length-drop size (b ∷ bs))) in
    (
      ap (◌++◌ (take size (b ∷ bs))) e ∙ take-append-drop size (b ∷ bs),
      ((omega (arith, length-take size (b ∷ bs)), omega (arith, length-take size (b ∷ bs))), a),
    )

-- The payloads of some frames, joined.
abbrev pub payloads : List Frame → List ℕ
payloads [] = []
payloads (f ∷ fs) = f.payload ++ payloads fs

payloads-data : (cs : List (List ℕ)) → payloads (data_frames cs) ≡ concat cs
payloads-data [] = refl
payloads-data (c ∷ cs) = ap (◌++◌ c) (payloads-data cs)

abbrev pub IsData : Frame → Type 0
IsData f = (f.ty ≡ data_frame) × (0 < length f.payload) × (length f.payload ≤ max_frame_len)

data_frames-IsData :
    (cs : List (List ℕ))
    → All (λ c. (0 < length c) × (length c ≤ max_frame_len)) cs
    → All IsData (data_frames cs)
data_frames-IsData [] h = tt
data_frames-IsData (c ∷ cs) h = ((refl, h.0.0, h.0.1), data_frames-IsData cs h.1)

-- `frame_data` loses nothing and keeps the order: the payloads joined are the bytes, and each frame
-- is a `Data` frame that is not empty and is within the frame cap.
pub frame_data-payloads :
    (bytes : List ℕ) → (payloads (frame_data bytes) ≡ bytes) × All IsData (frame_data bytes)
unfolding frame_data
frame_data-payloads bytes =
    let (e, a) = chunks_lem (length bytes) max_frame_len bytes (omega arith) (omega arith) in
    (payloads-data (chunks (length bytes) max_frame_len bytes) ∙ e, data_frames-IsData _ a)

pub IsData-Fits : (fs : List Frame) → All IsData fs → All Fits fs
IsData-Fits [] h = tt
IsData-Fits (f ∷ fs) h = (h.0.2, IsData-Fits fs h.1)

-- End to end: the bytes, sent as the encodings of their `Data` frames and cut into any pieces on the
-- way, come out of a new decoder as frames whose payloads joined are the bytes again.
pub receive-frame_data :
    (bytes : List ℕ) (pieces : List (List ℕ))
    → concat pieces ≡ encode_all (frame_data bytes)
    → (fs : List Frame) × ((receive new_decoder pieces).0 ≡ ok fs) × (payloads fs ≡ bytes)
receive-frame_data bytes pieces e =
    let (p, d) = frame_data-payloads bytes in
    let (r, _) =
      receive-encode_all (frame_data bytes) pieces (IsData-Fits (frame_data bytes) d) e in
    (frame_data bytes, r, p)
