-- ===== src/Scanner/Split.antt =====
-- A chunk boundary inside a string terminator (core/src/scanner.rs, `advance_one` and `maybe_cut`).
use jfterm_muxer.Base.{
  ℕ, ◌≤◌, ◌<◌, ◌≡◌, refl, ap, ◌∙◌, Bool, true, false, some, List, [], ◌∷◌, ◌++◌, arith, head?,
  length, leb, ◌>>=◌, if◌then◌else◌,
}
use jfterm_muxer.Ring
use jfterm_muxer.Ring.{ChunkRing, new_chunk}
use jfterm_muxer.Utf8.{from_utf8}
use jfterm_muxer.Sticky
use jfterm_muxer.Sticky.{build_serialized}
use jfterm_muxer.Sticky.Cache.{IsCoherent, serialize_lem}
use jfterm_muxer.Sink.{Sink, no_event, keep_seq, drop_seq, take_event, perform, perform_all}
use jfterm_muxer.Sink.Strings.{is_dropped, osc-st, esc-event}
use jfterm_muxer.Sink.Uncached.{perform_all-IsCoherent}
use jfterm_muxer.Scanner.{
  Scanner, maybe_cut, keep_span, handle_event, advance_one, feed_byte, feed, lead_remaining, replay,
}
use jfterm_muxer.Vte.{Vte, Callback, osc_dispatch, esc_dispatch}

module _ (vte : Vte) where
  -- A scanner whose ring has nothing in it yet.
  abbrev pub at_start : vte.Parser → Sink → ℕ → List ℕ → Scanner vte
  at_start parser sink watermark pending = record {
    parser = parser;
    sink = sink;
    ring = Ring.new watermark;
    pending = pending;
    utf8_remaining = 0;
  }

  -- The scanner after a kept span `span` that filled the first chunk.
  abbrev after_cut : vte.Parser → Sink → ℕ → List ℕ → Scanner vte
  after_cut parser k watermark span = record {
    parser = parser;
    sink = record k { event = no_event; sticky = (Sticky.serialize k.sticky).1 };
    ring = record {
      chunks =
          record { prologue = []; body = span } ∷ (new_chunk (Sticky.serialize k.sticky).0 ∷ []);
      watermark = watermark;
    };
    pending = [];
    utf8_remaining = 0;
  }

  fill_step :
      (p q : vte.Parser) (sink : Sink) (w b : ℕ) (pending : List ℕ) (c : Callback)
      → vte.advance p b ≡ (q, c ∷ [])
      → (perform sink c).event ≡ keep_seq
      → leb w (length (pending ++ (b ∷ []))) ≡ true
      → advance_one vte (at_start p sink w pending) b
        ≡ some (after_cut q (perform sink c) w (pending ++ (b ∷ [])))
  unfolding advance_one handle_event keep_span maybe_cut Ring.append Ring.should_cut Ring.cut
      perform_all
  fill_step p q sink w b pending c e f full = rw (e, f, full) refl

  lone_step :
      (q r : vte.Parser) (k : Sink) (w b : ℕ) (span : List ℕ) (c : Callback)
      → vte.advance q b ≡ (r, c ∷ [])
      → (perform (after_cut q k w span).sink c).event ≡ keep_seq
      → leb w 1 ≡ false
      → (t : Scanner vte) × (advance_one vte (after_cut q k w span) b ≡ some t)
        × (replay vte t 1 ≡ (Sticky.serialize k.sticky).0 ++ (b ∷ []))
  unfolding advance_one handle_event keep_span maybe_cut Ring.append Ring.should_cut perform_all
      replay Ring.replay
  lone_step q r k w b span c e f small = (alone, rw (e, f, small) refl, refl)
    where
      alone : Scanner vte
      alone = record {
        parser = r;
        sink = (take_event (perform (after_cut q k w span).sink c)).1;
        ring = record {
          chunks =
              record { prologue = []; body = span }
              ∷ (record { prologue = (Sticky.serialize k.sticky).0; body = b ∷ [] } ∷ []);
          watermark = w;
        };
        pending = [];
        utf8_remaining = 0;
      }

  feed_two :
      (s u t : Scanner vte)
      → advance_one vte (record s { utf8_remaining = 0 }) 0x1b
        ≡ some (record u { utf8_remaining = 0 })
      → advance_one vte (record u { utf8_remaining = 0 }) 0x5c ≡ some t
      → feed vte (record s { utf8_remaining = 0 }) (0x1b ∷ (0x5c ∷ [])) ≡ some t
  unfolding feed feed_byte lead_remaining
  feed_two s u t e e' = rw (e, e') refl

  -- A kept command that fills its chunk is torn from its terminator: if nothing is stored yet, the
  -- parser dispatches a kept command at `ESC`, the span then reaches the watermark (of at least 2),
  -- and the parser dispatches the terminator at `\`, then a replay of one chunk is the prologue and
  -- a lone `\`, which a terminal prints.
  pub feed-split :
      (p q r : vte.Parser) (sink : Sink) (w : ℕ) (pending : List ℕ) (params : List (List ℕ))
      (bell : Bool)
      → IsCoherent sink.sticky
      → w ≤ length (pending ++ (0x1b ∷ []))
      → 1 < w
      → vte.advance p 0x1b ≡ (q, osc_dispatch params bell ∷ [])
      → vte.advance q 0x5c ≡ (r, esc_dispatch [] false 0x5c ∷ [])
      → is_dropped (head? params >>= from_utf8) ≡ false
      → (t : Scanner vte) × (feed vte (at_start p sink w pending) (0x1b ∷ (0x5c ∷ [])) ≡ some t)
        × (replay vte t 1
            ≡ build_serialized (perform sink (osc_dispatch params bell)).sticky ++ (0x5c ∷ []))
  unfolding perform_all
  feed-split p q r sink w pending params bell h full small osc st kept =
      let c = osc_dispatch params bell in
      let (e, e', _, _, _) = osc-st sink params bell false [] in
      let keeps : (perform sink c).event ≡ keep_seq =
        e ∙ ap (λ b. if b then drop_seq else keep_seq) kept in
      let one = fill_step p q sink w 0x1b pending c osc keeps (ground arith) in
      let (t, two, shown) =
        lone_step q r (perform sink c) w 0x5c (pending ++ (0x1b ∷ [])) (esc_dispatch [] false 0x5c)
          st
          (esc-event (take_event (perform sink c)).1 (Sticky.serialize (perform sink c).sticky).1 []
              false 0x5c
            ∙ (e' ∙ keeps))
          (ground arith) in
      (
        t,
        feed_two (at_start p sink w pending)
            (after_cut q (perform sink c) w (pending ++ (0x1b ∷ []))) t one two,
        shown
            ∙ ap (λ x. x ++ (0x5c ∷ []))
                (serialize_lem (perform sink c).sticky
                  (perform_all-IsCoherent sink (c ∷ []) h)).answer,
      )
