-- ===== src/Connection/Halves.antt =====
-- The two halves of a session's connection, which end together (`handle_session` of
-- jftermd/src/server.rs from the reader's start on): `reader_task` and `writer_task` between each
-- other's steps, and the `select!` that aborts the one when the other has ended.
pub mod Reads
pub mod Beside
pub mod Laws
use jfterm_muxer.Base.{
  ℕ, ◌+◌, Bool, true, false, not, ◌&&◌, Option, none, some, List, [], ◌∷◌, take, length,
  if◌then◌else◌,
}
use jfterm_muxer.Protocol.{Frame, FrameDecoder, encode}
use jfterm_muxer.Connection.{Decode, Reader, reads, reader_task}
use jfterm_muxer.Connection.Writer.{Socket, new_socket, write_all, shutdown}

-- `has_begun` is false until the reader is through with the frames that were buffered.
pub record Halves : Type 0 where
  pub reader : Reader
  pub socket : Socket
  pub has_begun : Bool
  pub is_writing : Bool
  pub is_over : Bool

-- What may come next: the reader sends the commands of the buffered frames; the socket has bytes, or their end or an error; the queue has a frame, with how
-- its write goes (`some n` fails after `n` bytes), or is closed; or the `select!` sees that a half has
-- ended and aborts the other one, a reader that has sent only so many commands of the buffered frames or
-- of a last read, or a writer that has written only so many bytes of a last frame; or both have ended.
pub data HalfEvent : Type 0 where
  begins : HalfEvent
  reads_bytes : List ℕ → HalfEvent
  reads_end : HalfEvent
  aborts_buffered : ℕ → HalfEvent
  takes : Frame → Option ℕ → HalfEvent
  queue_closed : HalfEvent
  aborts_reader : Option (List ℕ × ℕ) → HalfEvent
  aborts_writer : Option (Frame × ℕ) → HalfEvent
  both_ended : HalfEvent

module _ (decode : Decode) where
  -- The reader when it is through with what was buffered, and one that is aborted before that.
  pub begun : Reader → Reader
  begun r = reader_task decode r.decoder [] r.left

  pub cut_begun : Reader → ℕ → Reader
  unfolding begun
  cut_begun r n = record (begun r) { commands = take n (begun r).commands; is_done = true }

  -- A reader that is aborted while it sends the commands of a read.
  pub cut_read : Reader → Option (List ℕ × ℕ) → Reader
  cut_read r none = record r { is_done = true }
  cut_read r (some (piece, n)) =
      let r' = reads decode r (piece ∷ []) in
      record r' { commands = take (length r.commands + n) r'.commands; is_done = true }

  -- A writer that is aborted while it writes; its half of the socket is dropped, which shuts it.
  pub cut_write : Socket → Option (Frame × ℕ) → Socket
  unfolding write_all
  cut_write s none = shutdown s
  cut_write s (some (f, n)) = shutdown (write_all s (encode f) (some n))

  abbrev is_reading : Halves → Bool
  is_reading h = not h.is_over && (not h.reader.is_done && h.has_begun)

  abbrev can_begin : Halves → Bool
  can_begin h = not h.is_over && not h.has_begun

  abbrev can_write : Halves → Bool
  can_write h = not h.is_over && h.is_writing

  pub when : Bool → Halves → Option Halves
  when b h = if b then some h else none

  pub written : Halves → Frame → Option ℕ → Halves
  written h f none = record h { socket = write_all h.socket (encode f) none }
  written h f (some n) = record h {
    socket = shutdown (write_all h.socket (encode f) (some n));
    is_writing = false;
  }

  -- One step of the halves; `none` when it cannot come.
  unfoldable pub half_step : Halves → HalfEvent → Option Halves
  unfolding when written begun cut_begun cut_read cut_write
  half_step h begins = when (can_begin h) (record h { reader = begun h.reader; has_begun = true })
  half_step h (aborts_buffered n) =
      when (can_begin h && not h.is_writing)
        (record h { reader = cut_begun h.reader n; is_over = true })
  half_step h (reads_bytes piece) =
      when (is_reading h) (record h { reader = reads decode h.reader (piece ∷ []) })
  half_step h reads_end =
      when (is_reading h) (record h { reader = record h.reader { is_done = true } })
  half_step h (takes f w) = when (can_write h) (written h f w)
  half_step h queue_closed =
      when (can_write h) (record h { socket = shutdown h.socket; is_writing = false })
  half_step h (aborts_reader at) =
      when (is_reading h && not h.is_writing)
        (record h { reader = cut_read h.reader at; is_over = true })
  half_step h (aborts_writer at) =
      when (can_write h && h.reader.is_done)
        (record h { socket = cut_write h.socket at; is_writing = false; is_over = true })
  half_step h both_ended =
      when (not h.is_over && (not h.is_writing && h.reader.is_done)) (record h { is_over = true })

  unfoldable pub half_steps : Halves → List HalfEvent → Option Halves
  unfolding half_step
  half_steps h [] = some h
  half_steps h (e ∷ es) = elim (half_step h e) [ none ↦ none | some h' ↦ half_steps h' es ]

  -- The connection when both halves have started, with what is buffered in the decoder.
  abbrev pub started : FrameDecoder → ℕ → Halves
  started d left = record {
    reader = record { commands = []; left = left; decoder = d; is_done = false };
    socket = new_socket;
    has_begun = false;
    is_writing = true;
    is_over = false;
  }
