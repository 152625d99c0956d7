-- ===== src/Scanner/Replay.antt =====
-- What a client sees of a scanner (core/src/scanner.rs): the full replay, and the shell status.
use jfterm_muxer.Base.{
  ℕ, ◌+◌, ◌*◌, ◌≤◌, ◌≡◌, refl, sym, subst, ap, ◌∙◌, some, List, ◌++◌, arith, length, inl,
}
use jfterm_muxer.Ring.Replay.{replay_full}
use jfterm_muxer.Status.{snapshot}
use jfterm_muxer.Utf8.{from_utf8}
use jfterm_muxer.Scanner.{Scanner, new, feed, replay, status, saw_prompt_marker}
use jfterm_muxer.Scanner.Sanitize.{Sanitizer, sanitize, fresh, expand}
use jfterm_muxer.Scanner.Refine.{view, feed-Feeds}
use jfterm_muxer.Scanner.Spans.{AllKept, sanitize-held}
use jfterm_muxer.Scanner.Waiting.{Waits, sanitize-Waits}
use jfterm_muxer.Scanner.Utf8.{expand-from_utf8}
use jfterm_muxer.Vte.{Vte}

module _ (vte : Vte) where
  -- A scanner shows a sanitizer: by its full replay, its status and what is still pending.
  pub record Shows (t : Scanner vte) (want_chunks : ℕ) (z : Sanitizer vte) : Type 0 where
    pub full : replay vte t want_chunks ≡ z.base ++ z.stream
    pub shell : status vte t ≡ snapshot z.sink.status
    pub marking : saw_prompt_marker vte t ≡ z.sink.status.saw_prompt_marker
    pub waiting : t.pending ≡ z.pending

  view-Shows :
      (t : Scanner vte) (want_chunks : ℕ) (z : Sanitizer vte)
      → length t.ring.chunks ≤ want_chunks
      → view vte t ≡ z
      → Shows t want_chunks z
  unfolding replay status saw_prompt_marker
  view-Shows t want_chunks z h e = record {
    full = replay_full t.ring want_chunks h ∙ ap (λ (y : Sanitizer vte). y.base ++ y.stream) e;
    shell = ap (λ (y : Sanitizer vte). snapshot y.sink.status) e;
    marking = ap (λ (y : Sanitizer vte). y.sink.status.saw_prompt_marker) e;
    waiting = ap (λ (y : Sanitizer vte). y.pending) e;
  }

  -- A new scanner takes any input without a panic. Its replay of more than twice as many chunks as
  -- bytes were fed, its status, its prompt latch and its pending bytes are those of the description
  -- that has no chunks, no watermark and no cache, on the input with each lone 0x9C as `ESC \`.
  pub feed-sanitize :
      (watermark want_chunks : ℕ) (bs : List ℕ)
      → 2 * length bs + 1 ≤ want_chunks
      → (t : Scanner vte) × (feed vte (new vte watermark) bs ≡ some t)
        × Shows t want_chunks (sanitize vte (fresh vte) (expand 0 bs))
  feed-sanitize watermark want_chunks bs h =
      let (t, e, x) =
        feed-Feeds vte (new vte watermark) bs
          (record { opened = omega arith; coherent = inl refl }) in
      (t, e, view-Shows t want_chunks _ (omega (arith, x.count)) x.shows)

  -- UTF-8 output in which the parser reports nothing to drop and no clear is replayed verbatim, but
  -- for the bytes at the end whose sequence is not complete yet: those behind the last byte at which
  -- something ended.
  pub feed-verbatim :
      (watermark want_chunks : ℕ) (bs : List ℕ)
      → 2 * length bs + 1 ≤ want_chunks
      → from_utf8 bs ≡ some bs
      → AllKept vte (fresh vte) bs
      → (t : Scanner vte) × (feed vte (new vte watermark) bs ≡ some t)
        × (replay vte t want_chunks ++ t.pending ≡ bs)
        × Waits vte (fresh vte) bs t.pending
  feed-verbatim watermark want_chunks bs h u k =
      let (t, e, x) = feed-sanitize watermark want_chunks bs h in
      let (held, base) = sanitize-held vte (fresh vte) bs k in
      let same : sanitize vte (fresh vte) (expand 0 bs) ≡ sanitize vte (fresh vte) bs =
        ap (sanitize vte (fresh vte)) (expand-from_utf8 bs u) in
      let z : Sanitizer vte = sanitize vte (fresh vte) bs in
      let full : replay vte t want_chunks ≡ z.stream =
        x.full
        ∙ (ap (λ (y : Sanitizer vte). y.base ++ y.stream) same ∙ ap (λ b. b ++ z.stream) base) in
      let rest : t.pending ≡ z.pending = x.waiting ∙ ap (λ (y : Sanitizer vte). y.pending) same in
      (
        t,
        e,
        (λ i. full i ++ rest i) ∙ held,
        subst (Waits vte (fresh vte) bs) (sym rest) (sanitize-Waits vte (fresh vte) bs),
      )
