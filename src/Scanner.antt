-- ===== src/Scanner.antt =====
-- core/src/scanner.rs, `Scanner`: raw terminal bytes in, sanitized chunks out. The parser is the
-- `vte` crate's, taken as a parameter. `none` is the panic of a ring with no chunk.
pub mod Sanitize
pub mod Refine
pub mod Utf8
pub mod Spans
pub mod Waiting
pub mod Replay
pub mod Cleared
pub mod Bounds
pub mod Strings
pub mod Split
pub mod Tests
use jfterm_muxer.Base.{
  ℕ, ◌-◌, Bool, ◌&&◌, Option, none, some, List, [], ◌∷◌, ◌++◌, ltb, ◌==◌, in_range, if◌then◌else◌,
  ◌>>=◌, bytes,
}
use jfterm_muxer.Ring
use jfterm_muxer.Ring.{ChunkRing}
use jfterm_muxer.Status
use jfterm_muxer.Status.{StatusSnapshot}
use jfterm_muxer.Sticky
use jfterm_muxer.Sink
use jfterm_muxer.Sink.{
  Sink, SegEvent, no_event, keep_byte, keep_seq, drop_seq, clear_seq, take_event, perform_all,
}
use jfterm_muxer.Vte.{Vte}

-- `ESC [ 2 J ESC [ H`, with which the prologue of a cleared ring begins.
abbrev pub clear_bytes : List ℕ
clear_bytes = 0x1b ∷ (bytes "[2J" ++ (0x1b ∷ bytes "[H"))

-- How many continuation bytes follow a lead byte.
unfoldable pub lead_remaining : ℕ → ℕ
lead_remaining b =
    if in_range 0xc2 0xdf b
    then 1
    else if in_range 0xe0 0xef b
    then 2
    else if in_range 0xf0 0xf4 b
    then 3
    else 0

module _ (vte : Vte) where
  pub record Scanner : Type 0 where
    pub parser : vte.Parser
    pub sink : Sink
    pub ring : ChunkRing
    pub pending : List ℕ
    pub utf8_remaining : ℕ

  abbrev pub new : ℕ → Scanner
  new watermark = record {
    parser = vte.start;
    sink = Sink.new;
    ring = Ring.new watermark;
    pending = [];
    utf8_remaining = 0;
  }

  unfoldable pub maybe_cut : Scanner → Scanner
  maybe_cut s =
      let (prologue, sticky) = Sticky.serialize s.sink.sticky in
      if Ring.should_cut s.ring
      then record s { ring = Ring.cut s.ring prologue; sink = record (s.sink) { sticky = sticky } }
      else s

  -- The `KeepByte | KeepSeq` arm: the span joins the open chunk.
  unfoldable pub keep_span : Scanner → Option Scanner
  unfolding maybe_cut
  keep_span s = do
    ring ← Ring.append s.ring s.pending
    some (maybe_cut (record s { ring = ring; pending = [] }))

  -- The `ClearSeq` arm.
  unfoldable pub clear_screen : Scanner → Scanner
  clear_screen s =
      let (prologue, sticky) = Sticky.serialize s.sink.sticky in
      record s {
        pending = [];
        ring = Ring.purge s.ring (clear_bytes ++ prologue);
        sink = record (s.sink) { sticky = sticky };
      }

  unfoldable pub handle_event : Scanner → SegEvent → Option Scanner
  handle_event s no_event = some s
  handle_event s keep_byte = keep_span s
  handle_event s keep_seq = keep_span s
  handle_event s drop_seq = some (record s { pending = [] })
  handle_event s clear_seq = some (clear_screen s)

  unfoldable pub advance_one : Scanner → ℕ → Option Scanner
  advance_one s b =
      let (parser, callbacks) = vte.advance s.parser b in
      let (event, sink) = take_event (perform_all s.sink callbacks) in
      handle_event (record s { parser = parser; sink = sink; pending = s.pending ++ (b ∷ []) })
        event

  -- One round of the loop of `feed`. A byte that is no continuation byte resets the counter and
  -- is then read as a ground byte, which sets it again.
  unfoldable pub feed_byte : Scanner → ℕ → Option Scanner
  feed_byte s b =
      if ltb 0 s.utf8_remaining && in_range 0x80 0xbf b
      then advance_one (record s { utf8_remaining = s.utf8_remaining - 1 }) b
      else (let s' = record s { utf8_remaining = lead_remaining b } in
          if b == 0x9c then (do t ← advance_one s' 0x1b; advance_one t 0x5c) else advance_one s' b)

  unfoldable pub feed : Scanner → List ℕ → Option Scanner
  feed s [] = some s
  feed s (b ∷ bs) = do t ← feed_byte s b; feed t bs

  unfoldable pub replay : Scanner → ℕ → List ℕ
  replay s want_chunks = Ring.replay s.ring want_chunks

  unfoldable pub status : Scanner → StatusSnapshot
  status s = Status.snapshot s.sink.status

  unfoldable pub saw_prompt_marker : Scanner → Bool
  saw_prompt_marker s = s.sink.status.saw_prompt_marker
