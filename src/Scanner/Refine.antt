-- ===== src/Scanner/Refine.antt =====
-- `Scanner` of core/src/scanner.rs implements the description of `Scanner.Sanitize`.
use jfterm_muxer.Base.{
  ℕ, ◌+◌, ◌-◌, ◌*◌, ◌≤◌, ◌≡◌, refl, sym, ap, ◌∙◌, inl, inr, ◌&&◌, some, List, [], ◌∷◌, ◌++◌, arith,
  length, length-append, ltb, in_range, ◌==◌, Bool-cases, ◌>>=◌,
}
use jfterm_muxer.Ring
use jfterm_muxer.Ring.{new_chunk, cut, purge}
use jfterm_muxer.Ring.Replay.{IsOpen, Appended, append_total, view-cut, cut-IsOpen, replay_full}
use jfterm_muxer.Sticky
use jfterm_muxer.Sticky.{invalidate, build_serialized}
use jfterm_muxer.Sticky.Cache.{IsCoherent, serialize_lem, build-invalidate}
use jfterm_muxer.Sink.{
  SegEvent, no_event, keep_byte, keep_seq, drop_seq, clear_seq, take_event, perform_all,
}
use jfterm_muxer.Sink.Uncached.{uncached, perform_all-uncached, perform_all-IsCoherent}
use jfterm_muxer.Scanner.{
  Scanner, clear_bytes, maybe_cut, keep_span, clear_screen, handle_event, advance_one, feed_byte,
  feed, lead_remaining,
}
use jfterm_muxer.Scanner.Sanitize.{
  Sanitizer, settle, sanitize_one, sanitize, expand_byte, expand, remaining_after,
}
use jfterm_muxer.Vte.{Vte}

module _ (vte : Vte) where
  abbrev pub view : Scanner vte → Sanitizer vte
  view s = record {
    parser = s.parser;
    sink = uncached s.sink;
    base = (Ring.Replay.view s.ring).base;
    stream = (Ring.Replay.view s.ring).stream;
    pending = s.pending;
  }

  -- The ring has a chunk, and the prologue cache is not stale.
  pub record IsValid (s : Scanner vte) : Type 0 where
    pub opened : IsOpen s.ring
    pub coherent : IsCoherent s.sink.sticky

  -- `t` is reached from `s` with at most `n` more chunks, and shows `z`.
  pub record Refines (s : Scanner vte) (n : ℕ) (z : Sanitizer vte) (t : Scanner vte) : Type 0 where
    pub valid : IsValid t
    pub count : length t.ring.chunks ≤ length s.ring.chunks + n
    pub same_utf8 : t.utf8_remaining ≡ s.utf8_remaining
    pub shows : view t ≡ z

  maybe_cut-Refines : (s : Scanner vte) → IsValid s → Refines s 1 (view s) (maybe_cut vte s)
  unfolding maybe_cut cut
  maybe_cut-Refines s v = elim (Bool-cases (Ring.should_cut s.ring)) [
    | inl due ↦ rw due (record {
      valid = record { opened = cut-IsOpen s.ring _; coherent = x.coherent };
      count =
          omega (
            arith,
            length-append s.ring.chunks (new_chunk (Sticky.serialize s.sink.sticky).0 ∷ []),
          );
      same_utf8 = refl;
      shows = λ i. record {
        parser = s.parser;
        sink = record (s.sink) { sticky = x.same i };
        base = (cuts i).base;
        stream = (cuts i).stream;
        pending = s.pending;
      };
    })
    | inr early ↦
        rw early (record { valid = v; count = omega arith; same_utf8 = refl; shows = refl })
  ]
    where
      x : Sticky.Cache.Serialized s.sink.sticky (Sticky.serialize s.sink.sticky)
      x = serialize_lem s.sink.sticky v.coherent

      cuts :
          Ring.Replay.view (cut s.ring (Sticky.serialize s.sink.sticky).0) ≡ Ring.Replay.view s.ring
      cuts = view-cut s.ring (Sticky.serialize s.sink.sticky).0 v.opened

  keep_span-Refines :
      (s : Scanner vte)
      → IsValid s
      → (t : Scanner vte) × (keep_span vte s ≡ some t)
        × Refines s 1 (record (view s) { stream = (view s).stream ++ s.pending; pending = [] }) t
  unfolding keep_span
  keep_span-Refines s v =
      let (ring, e, x) = append_total s.ring s.pending v.opened in
      let s' : Scanner vte = record s { ring = ring; pending = [] } in
      let y : Refines s' 1 (view s') (maybe_cut vte s') =
        maybe_cut-Refines s'
          (record { opened = omega (arith, x.count, v.opened); coherent = v.coherent }) in
      (
        maybe_cut vte s',
        rw e refl,
        record {
          valid = y.valid;
          count = omega (arith, x.count, y.count);
          same_utf8 = y.same_utf8;
          shows = y.shows ∙ λ i. record {
            parser = s.parser;
            sink = uncached s.sink;
            base = x.same_base i;
            stream = x.extended i;
            pending = [];
          };
        },
      )

  clear_screen-Refines :
      (s : Scanner vte)
      → IsValid s
      → Refines s 1 (settle vte (view s) clear_seq) (clear_screen vte s)
  unfolding clear_screen settle purge
  clear_screen-Refines s v =
      let x = serialize_lem s.sink.sticky v.coherent in
      let built : (Sticky.serialize s.sink.sticky).0 ≡ build_serialized (invalidate s.sink.sticky) =
        x.answer ∙ sym (build-invalidate s.sink.sticky) in
      record {
        valid = record { opened = omega arith; coherent = x.coherent };
        count = omega arith;
        same_utf8 = refl;
        shows = λ i. record {
          parser = s.parser;
          sink = record (s.sink) { sticky = x.same i };
          base = clear_bytes ++ built i;
          stream = [];
          pending = [];
        };
      }

  handle_event-Refines :
      (s : Scanner vte) (event : SegEvent)
      → IsValid s
      → (t : Scanner vte) × (handle_event vte s event ≡ some t)
        × Refines s 1 (settle vte (view s) event) t
  unfolding handle_event settle
  handle_event-Refines s no_event v =
      (s, refl, record { valid = v; count = omega arith; same_utf8 = refl; shows = refl })
  handle_event-Refines s keep_byte v = keep_span-Refines s v
  handle_event-Refines s keep_seq v = keep_span-Refines s v
  handle_event-Refines s drop_seq v = (
    record s { pending = [] },
    refl,
    record {
      valid = record { opened = v.opened; coherent = v.coherent };
      count = omega arith;
      same_utf8 = refl;
      shows = refl;
    },
  )
  handle_event-Refines s clear_seq v = (clear_screen vte s, refl, clear_screen-Refines s v)

  advance_one-Refines :
      (s : Scanner vte) (b : ℕ)
      → IsValid s
      → (t : Scanner vte) × (advance_one vte s b ≡ some t)
        × Refines s 1 (sanitize_one vte (view s) b) t
  unfolding advance_one sanitize_one
  advance_one-Refines s b v =
      let p = vte.advance s.parser b in
      let k = perform_all s.sink p.1 in
      let s' : Scanner vte = record s {
        parser = p.0;
        sink = (take_event k).1;
        pending = s.pending ++ (b ∷ []);
      } in
      let (t, e, x) =
        handle_event-Refines s' k.event
          (record { opened = v.opened; coherent = perform_all-IsCoherent s.sink p.1 v.coherent }) in
      let same : uncached k ≡ perform_all (uncached s.sink) p.1 = perform_all-uncached s.sink p.1 in
      (
        t,
        e,
        record {
          valid = x.valid;
          count = x.count;
          same_utf8 = x.same_utf8;
          shows = x.shows ∙ λ i.
              settle vte
                (record {
                  parser = p.0;
                  sink = record (same i) { event = no_event };
                  base = (view s).base;
                  stream = (view s).stream;
                  pending = s.pending ++ (b ∷ []);
                })
                (same i).event;
        },
      )

  pub sanitize-append :
      (z : Sanitizer vte) (xs ys : List ℕ)
      → sanitize vte z (xs ++ ys) ≡ sanitize vte (sanitize vte z xs) ys
  unfolding sanitize
  sanitize-append z [] ys = refl
  sanitize-append z (x ∷ xs) ys = sanitize-append (sanitize_one vte z x) xs ys

  -- `t` is reached from `s` by reading what is rewritten to `bs`, and then expects `remaining`.
  pub record Feeds (s : Scanner vte) (n : ℕ) (bs : List ℕ) (remaining : ℕ) (t : Scanner vte)
      : Type 0 where
    pub valid : IsValid t
    pub count : length t.ring.chunks ≤ length s.ring.chunks + n
    pub utf8 : t.utf8_remaining ≡ remaining
    pub shows : view t ≡ sanitize vte (view s) bs

  one-Feeds :
      (s : Scanner vte) (remaining b : ℕ)
      → IsValid s
      → (t : Scanner vte) × (advance_one vte (record s { utf8_remaining = remaining }) b ≡ some t)
        × Feeds s 1 (b ∷ []) remaining t
  unfolding sanitize
  one-Feeds s remaining b v =
      let (t, e, x) =
        advance_one-Refines (record s { utf8_remaining = remaining }) b
          (record { opened = v.opened; coherent = v.coherent }) in
      (t, e, record { valid = x.valid; count = x.count; utf8 = x.same_utf8; shows = x.shows })

  -- An 8-bit string terminator is read as `ESC \\`.
  two-Feeds :
      (s : Scanner vte) (remaining : ℕ)
      → IsValid s
      → (t : Scanner vte) × ((advance_one vte (record s { utf8_remaining = remaining }) 0x1b
            >>= λ u. advance_one vte u 0x5c)
          ≡ some t)
        × Feeds s 2 (0x1b ∷ (0x5c ∷ [])) remaining t
  unfolding sanitize
  two-Feeds s remaining v =
      let (u, e, x) = one-Feeds s remaining 0x1b v in
      let (t, e', y) = advance_one-Refines u 0x5c x.valid in
      (
        t,
        rw e e',
        record {
          valid = y.valid;
          count = omega (arith, x.count, y.count);
          utf8 = y.same_utf8 ∙ x.utf8;
          shows = y.shows ∙ ap (λ z. sanitize_one vte z 0x5c) x.shows;
        },
      )

  feed_byte-Feeds :
      (s : Scanner vte) (b : ℕ)
      → IsValid s
      → (t : Scanner vte) × (feed_byte vte s b ≡ some t)
        × Feeds s 2 (expand_byte s.utf8_remaining b).0 (expand_byte s.utf8_remaining b).1 t
  unfolding feed_byte expand_byte
  feed_byte-Feeds s b v = elim (Bool-cases (ltb 0 s.utf8_remaining && in_range 0x80 0xbf b)) [
    | inl continues ↦
        let (t, e, x) = one-Feeds s (s.utf8_remaining - 1) b v in
        rw continues (
          t,
          e,
          record {
            valid = x.valid;
            count = omega (arith, x.count);
            utf8 = x.utf8;
            shows = x.shows;
          },
        )
    | inr starts ↦ rw starts (elim (Bool-cases (b == 0x9c)) [
      | inl c1 ↦ rw c1 (two-Feeds s (lead_remaining b) v)
      | inr other ↦
          let (t, e, x) = one-Feeds s (lead_remaining b) b v in
          rw other (
            t,
            e,
            record {
              valid = x.valid;
              count = omega (arith, x.count);
              utf8 = x.utf8;
              shows = x.shows;
            },
          )
    ])
  ]

  -- On every input `feed` succeeds, and what it does to the scanner is what the description says.
  pub feed-Feeds :
      (s : Scanner vte) (bs : List ℕ)
      → IsValid s
      → (t : Scanner vte) × (feed vte s bs ≡ some t)
        × Feeds s
            (2 * length bs)
            (expand s.utf8_remaining bs)
            (remaining_after s.utf8_remaining bs)
            t
  unfolding feed expand remaining_after sanitize
  feed-Feeds s [] v =
      (s, refl, record { valid = v; count = omega arith; utf8 = refl; shows = refl })
  feed-Feeds s (b ∷ bs) v =
      let (u, e, x) = feed_byte-Feeds s b v in
      let (t, e', y) = feed-Feeds u bs x.valid in
      (
        t,
        rw e e',
        record {
          valid = y.valid;
          count = omega (arith, x.count, y.count);
          utf8 = y.utf8 ∙ ap (λ r. remaining_after r bs) x.utf8;
          shows =
              y.shows
              ∙ ((λ i. sanitize vte (x.shows i) (expand (x.utf8 i) bs))
                  ∙ sym (
                      sanitize-append (view s) (expand_byte s.utf8_remaining b).0
                        (expand (expand_byte s.utf8_remaining b).1 bs)));
        },
      )
