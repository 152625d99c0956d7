-- ===== src/Client/Tests.antt =====
-- The theorem on sending at a concrete queue.
use jfterm_muxer.Base.{true, List, [], ◌∷◌, bytes}
use jfterm_muxer.Protocol.{Frame, data_frame}
use jfterm_muxer.Client.{Outbox}

-- Room for one frame.
abbrev narrow : Outbox
narrow = record { sent = []; taken = 0; capacity = 1; is_open = true }

abbrev two_frames : List Frame
two_frames =
    record { ty = data_frame; payload = bytes "a" }
    ∷ (record { ty = data_frame; payload = bytes "b" } ∷ [])
