-- ===== src/Scanner/Cleared.antt =====
-- What a scanner replays of its input, through drops and clears (core/src/scanner.rs).
use jfterm_muxer.Base.{ℕ, ◌*◌, ◌+◌, ◌≤◌, ◌≡◌, ap, ◌∙◌, some, List, ◌∷◌, ◌++◌, append_assoc, length}
use jfterm_muxer.Sticky.{build_serialized}
use jfterm_muxer.Sink.{clear_seq, perform_all}
use jfterm_muxer.Scanner.{Scanner, new, feed, replay, clear_bytes}
use jfterm_muxer.Scanner.Sanitize.{Sanitizer, sanitize_one, sanitize, fresh, expand}
use jfterm_muxer.Scanner.Refine.{sanitize-append}
use jfterm_muxer.Scanner.Spans.{event_at, AllKept, sanitize-held, sanitize_one-clear}
use jfterm_muxer.Scanner.Replay.{feed-sanitize}
use jfterm_muxer.Vte.{Vte}

module _ (vte : Vte) where
  -- When a byte of the input completes a clear, and all after it is kept, a replay of more than twice
  -- as many chunks as bytes fed is the clear sequence, the sticky state of that moment, and what was
  -- read after it, but for the bytes that wait: the output before the clear is gone.
  pub replay-clear :
      (watermark want_chunks : ℕ) (bs before after : List ℕ) (b : ℕ)
      → 2 * length bs + 1 ≤ want_chunks
      → expand 0 bs ≡ before ++ (b ∷ after)
      → event_at vte (sanitize vte (fresh vte) before) b ≡ clear_seq
      → AllKept vte (sanitize_one vte (sanitize vte (fresh vte) before) b) after
      → (t : Scanner vte) × (feed vte (new vte watermark) bs ≡ some t)
        × (replay vte t want_chunks ++ t.pending
            ≡ (clear_bytes
                ++ build_serialized
                    (perform_all
                      (sanitize vte (fresh vte) before).sink
                      (vte.advance (sanitize vte (fresh vte) before).parser b).1).sticky)
              ++ after)
  unfolding sanitize
  replay-clear watermark want_chunks bs before after b h split clear kept =
      let (t, e, x) = feed-sanitize vte watermark want_chunks bs h in
      let y : Sanitizer vte = sanitize_one vte (sanitize vte (fresh vte) before) b in
      let (empty, base) = sanitize_one-clear vte (sanitize vte (fresh vte) before) b clear in
      let (all, same) = sanitize-held vte y after kept in
      let z : Sanitizer vte = sanitize vte y after in
      let zs : sanitize vte (fresh vte) (expand 0 bs) ≡ z =
        ap (sanitize vte (fresh vte)) split ∙ sanitize-append vte (fresh vte) before (b ∷ after) in
      let full : replay vte t want_chunks ≡ z.base ++ z.stream =
        x.full ∙ ap (λ (u : Sanitizer vte). u.base ++ u.stream) zs in
      let rest : t.pending ≡ z.pending = x.waiting ∙ ap (λ (u : Sanitizer vte). u.pending) zs in
      (
        t,
        e,
        (λ i. full i ++ rest i)
            ∙ (append_assoc z.base z.stream z.pending
                ∙ (λ i. (same ∙ base) i ++ (all ∙ ap (λ l. l ++ after) empty) i)),
      )
