-- ===== src/Scanner/Sanitize.antt =====
-- A description of the sanitizer of core/src/scanner.rs with no ring, no cache, no watermark and no
-- UTF-8 counter: the bytes are first rewritten, then each completed span is kept, dropped or clears.
use jfterm_muxer.Base.{ℕ, ◌-◌, ◌&&◌, List, [], ◌∷◌, ◌++◌, ltb, ◌==◌, in_range, if◌then◌else◌}
use jfterm_muxer.Sticky.{build_serialized}
use jfterm_muxer.Sink
use jfterm_muxer.Sink.{
  Sink, SegEvent, no_event, keep_byte, keep_seq, drop_seq, clear_seq, take_event, perform_all,
}
use jfterm_muxer.Scanner.{clear_bytes, lead_remaining}
use jfterm_muxer.Vte.{Vte}

-- What becomes of one byte when `remaining` continuation bytes are expected: an 8-bit string terminator
-- on its own is written `ESC \`, all else stays; and the new count.
unfoldable pub expand_byte : ℕ → ℕ → List ℕ × ℕ
expand_byte remaining b =
    if ltb 0 remaining && in_range 0x80 0xbf b
    then (b ∷ [], remaining - 1)
    else (if b == 0x9c then 0x1b ∷ (0x5c ∷ []) else b ∷ [], lead_remaining b)

unfoldable pub expand : ℕ → List ℕ → List ℕ
expand remaining [] = []
expand remaining (b ∷ bs) = (expand_byte remaining b).0 ++ expand (expand_byte remaining b).1 bs

unfoldable pub remaining_after : ℕ → List ℕ → ℕ
remaining_after remaining [] = remaining
remaining_after remaining (b ∷ bs) = remaining_after (expand_byte remaining b).1 bs

module _ (vte : Vte) where
  pub record Sanitizer : Type 0 where
    pub parser : vte.Parser
    pub sink : Sink
    pub base : List ℕ
    pub stream : List ℕ
    pub pending : List ℕ

  unfoldable pub settle : Sanitizer → SegEvent → Sanitizer
  settle z no_event = z
  settle z keep_byte = record z { stream = z.stream ++ z.pending; pending = [] }
  settle z keep_seq = record z { stream = z.stream ++ z.pending; pending = [] }
  settle z drop_seq = record z { pending = [] }
  settle z clear_seq = record z {
    base = clear_bytes ++ build_serialized z.sink.sticky;
    stream = [];
    pending = [];
  }

  unfoldable pub sanitize_one : Sanitizer → ℕ → Sanitizer
  unfolding settle
  sanitize_one z b =
      let (parser, callbacks) = vte.advance z.parser b in
      let (event, sink) = take_event (perform_all z.sink callbacks) in
      settle (record z { parser = parser; sink = sink; pending = z.pending ++ (b ∷ []) }) event

  unfoldable pub sanitize : Sanitizer → List ℕ → Sanitizer
  sanitize z [] = z
  sanitize z (b ∷ bs) = sanitize (sanitize_one z b) bs

  abbrev pub fresh : Sanitizer
  fresh = record { parser = vte.start; sink = Sink.new; base = []; stream = []; pending = [] }
