-- ===== src/Connection/Tests.antt =====
-- The theorems on connections at concrete frames.
use jfterm_muxer.Base.{
  ℕ, ◌≡◌, refl, Option, none, some, List, [], ◌∷◌, ◌==◌, true, false, arith, bytes,
}
use jfterm_muxer.Protocol.{Frame, input, resize, status, new_decoder}
use jfterm_muxer.Connection.{Decode}
use jfterm_muxer.Connection.Halves.{
  Halves, HalfEvent, begins, reads_bytes, reads_end, takes, aborts_writer, half_steps, started,
}
use jfterm_muxer.Connection.Halves.Laws.{IsCoupled, half_steps-IsCoupled}
use jfterm_muxer.Registry.{Registry}
use jfterm_muxer.Session.{SessionInfo}
use jfterm_muxer.Connection.Control.{Ask, replies, collect_sessions}
use jfterm_muxer.Connection.Control.Listing.{collect_sessions-prompt}

-- A RESIZE carries its two sizes as two bytes.
abbrev sizes : List ℕ → Option (ℕ × ℕ)
sizes (cols ∷ rows ∷ []) = some (cols, rows)
sizes _ = none

abbrev codec : Decode
codec = record { resize_msg = sizes; close_msg = λ p. none; hello_version = λ p. none }

abbrev keys_and_size : List Frame
keys_and_size =
    record { ty = input; payload = bytes "x" }
    ∷ (record { ty = resize; payload = 80 ∷ (24 ∷ []) } ∷ [])

abbrev pieces : List (List ℕ)
pieces =
    (6 ∷ (0 ∷ [])) ∷ ((0 ∷ (0 ∷ (1 ∷ (120 ∷ (7 ∷ (0 ∷ (0 ∷ (0 ∷ (2 ∷ (80 ∷ (24 ∷ []))))))))))) ∷ [])

-- Two sessions: one answers in time, and the other too late.
abbrev two_sessions : Registry
two_sessions = record {
  sessions = (bytes "a", 0) ∷ ((bytes "b", 1) ∷ []);
  ended = false;
  max_sessions = 2;
  next_channel = 2;
}

abbrev info_of : List ℕ → SessionInfo
info_of id = record {
  session_id = id;
  argv = [];
  cwd = bytes "/";
  running = false;
  has_client = false;
  created_at = 0;
}

abbrev one_late : ℕ → Ask
one_late tx = elim (tx == 0) [
  | true ↦ replies 10 (info_of (bytes "a"))
  | false ↦ replies 2000 (info_of (bytes "b"))
]

collect_sessions-prompt_example :
    collect_sessions two_sessions one_late ≡ some (info_of (bytes "a") ∷ [])
collect_sessions-prompt_example =
    collect_sessions-prompt two_sessions one_late (replies 10 (info_of (bytes "a")) ∷ [])
      (replies 2000 (info_of (bytes "b")) ∷ []) refl (ground arith, tt) (ground arith) (tt, tt)

abbrev x_frame : Frame
x_frame = record { ty = status; payload = bytes "x" }

-- The reader gets the one INPUT between two frames of output, and the client closes its half while the
-- second is written.
abbrev typed_and_gone : List HalfEvent
typed_and_gone =
    begins
    ∷ (takes x_frame none
        ∷ (reads_bytes (6 ∷ (0 ∷ (0 ∷ (0 ∷ (1 ∷ (120 ∷ []))))))
            ∷ (reads_end ∷ (aborts_writer (some (x_frame, 3)) ∷ []))))

abbrev torn : Option Halves → Halves
torn none = started codec new_decoder 5
torn (some h) = h

abbrev torn_down : Halves
torn_down = torn (half_steps codec (started codec new_decoder 5) typed_and_gone)

torn_lem : half_steps codec (started codec new_decoder 5) typed_and_gone ≡ some torn_down
unfolding half_steps jfterm_muxer.Connection.reader_task jfterm_muxer.Protocol.push
    jfterm_muxer.Protocol.next_frame jfterm_muxer.Protocol.from_be_bytes
    jfterm_muxer.Protocol.type_of_byte
torn_lem = refl

half_steps-IsCoupled_example : IsCoupled codec new_decoder 5 torn_down typed_and_gone
half_steps-IsCoupled_example =
    half_steps-IsCoupled codec new_decoder 5 torn_down typed_and_gone torn_lem
