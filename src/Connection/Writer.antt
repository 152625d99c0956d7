-- ===== src/Connection/Writer.antt =====
-- `writer_task` of jftermd/src/server.rs: the frames of a client's queue become bytes of its socket.
use jfterm_muxer.Base.{
  ℕ, ◌≡◌, ◌≢◌, refl, sym, ap, ◌∙◌, Bool, true, false, Option, none, some, List, [], ◌∷◌, ◌++◌,
  append_assoc, take, drop, take-append-drop, All,
}
use jfterm_muxer.Protocol.{Frame, encode, ok, new_decoder}
use jfterm_muxer.Protocol.Frames.{Fits}
use jfterm_muxer.Protocol.Decoder.{receive}
use jfterm_muxer.Protocol.Stream.{encode_all, concat}
use jfterm_muxer.Protocol.Prefix.{receive_prefix}

-- The writing half: the bytes that went out, and whether it is shut, so that the peer reads the end.
pub record Socket : Type 0 where
  pub written : List ℕ
  pub is_shut : Bool

abbrev pub new_socket : Socket
new_socket = record { written = []; is_shut = false }

-- `write_all`; `some n` is a write that failed after `n` bytes.
unfoldable pub write_all : Socket → List ℕ → Option ℕ → Socket
write_all s bytes none = record s { written = s.written ++ bytes }
write_all s bytes (some n) = record s { written = s.written ++ take n bytes }

abbrev pub shutdown : Socket → Socket
shutdown s = record s { is_shut = true }

-- The frames that the queue delivers until it is closed, each with how its write goes.
unfoldable pub writer_task : Socket → List (Frame × Option ℕ) → Socket
unfolding write_all
writer_task s [] = shutdown s
writer_task s ((f, none) ∷ queue) = writer_task (write_all s (encode f) none) queue
writer_task s ((f, some n) ∷ queue) = shutdown (write_all s (encode f) (some n))

abbrev pub frames_of : List (Frame × Option ℕ) → List Frame
frames_of [] = []
frames_of ((f, w) ∷ queue) = f ∷ frames_of queue

abbrev pub IsWritten : List (Frame × Option ℕ) → Type 0
IsWritten [] = Unit {0}
IsWritten ((f, w) ∷ queue) = (w ≡ none) × IsWritten queue

some_is_not_none : (n : ℕ) → some n ≢ none
some_is_not_none n e = cc

-- What went out is the beginning of the frames' bytes, and all of them when no write failed.
record Wrote (s : Socket) (queue : List (Frame × Option ℕ)) : Type 0 where
  rest : List ℕ
  starts : (writer_task s queue).written ++ rest ≡ s.written ++ encode_all (frames_of queue)
  shut : (writer_task s queue).is_shut ≡ true
  whole : IsWritten queue → rest ≡ []

writer_task-Wrote : (s : Socket) (queue : List (Frame × Option ℕ)) → Wrote s queue
unfolding writer_task write_all
writer_task-Wrote s [] = record { rest = []; starts = refl; shut = refl; whole = λ w. refl }
writer_task-Wrote s ((f, none) ∷ queue) =
    let x = writer_task-Wrote (write_all s (encode f) none) queue in
    record {
      rest = x.rest;
      starts = x.starts ∙ append_assoc s.written (encode f) (encode_all (frames_of queue));
      shut = x.shut;
      whole = λ w. x.whole w.1;
    }
writer_task-Wrote s ((f, some n) ∷ queue) =
    let later = encode_all (frames_of queue) in
    record {
      rest = drop n (encode f) ++ later;
      starts =
          append_assoc s.written (take n (encode f)) (drop n (encode f) ++ later)
          ∙ ap (◌++◌ s.written) (
              sym (append_assoc (take n (encode f)) (drop n (encode f)) later)
              ∙ ap (λ l. l ++ later) (take-append-drop n (encode f)));
      shut = refl;
      whole = λ w. absurd (some_is_not_none n w.0);
    }

-- What the client decodes of a queue's frames.
pub record Gets (queue : List (Frame × Option ℕ)) (pieces : List (List ℕ)) : Type 0 where
  pub seen : List Frame
  pub lost : List Frame
  pub decoded : (receive new_decoder pieces).0 ≡ ok seen
  pub split : frames_of queue ≡ seen ++ lost
  pub all_seen : IsWritten queue → lost ≡ []
  pub shut : (writer_task new_socket queue).is_shut ≡ true

-- However the bytes of the writer are cut into reads, the client's decoder never finds a malformed
-- frame: it yields the frames of the queue in order, up to a failed write, and all of them when no
-- write fails; in both cases the writer ends and shuts its half. Each frame is within the cap.
pub writer_task-Gets :
    (queue : List (Frame × Option ℕ)) (pieces : List (List ℕ))
    → All Fits (frames_of queue)
    → concat pieces ≡ (writer_task new_socket queue).written
    → Gets queue pieces
writer_task-Gets queue pieces fits e =
    let x = writer_task-Wrote new_socket queue in
    let d =
      receive_prefix (frames_of queue) pieces x.rest fits (ap (λ b. b ++ x.rest) e ∙ x.starts) in
    record {
      seen = d.gs;
      lost = d.hs;
      decoded = d.taken;
      split = d.split;
      all_seen = λ w. d.complete (x.whole w);
      shut = x.shut;
    }
