-- ===== src/Scanner/Bounds.antt =====
-- The chunk sizes that `Scanner` of core/src/scanner.rs leaves behind it.
use jfterm_muxer.Base.{
  ℕ, ◌+◌, ◌*◌, ◌≤◌, ◌<◌, ◌&&◌, ◌≡◌, ◌∙◌, some, some-injective, List, [], ◌∷◌, length, ltb, in_range,
  ◌==◌, subst, inl, inr, Bool-cases, >>=-eq-some,
}
use jfterm_muxer.Ring
use jfterm_muxer.Ring.{ChunkRing, concat_bodies}
use jfterm_muxer.Ring.Bounds.{
  IsSized, Sealed, append-Sealed, cut-IsSized, purge-IsSized, new-IsSized, Sealed-count,
}
use jfterm_muxer.Sink.{SegEvent, no_event, keep_byte, keep_seq, drop_seq, clear_seq}
use jfterm_muxer.Scanner.{
  Scanner, new, maybe_cut, keep_span, clear_screen, handle_event, advance_one, feed_byte, feed,
}
use jfterm_muxer.Vte.{Vte}

module _ (vte : Vte) (w : ℕ) (positive : 0 < w) where
  maybe_cut-IsSized :
      (s : Scanner vte)
      → s.ring.watermark ≡ w
      → Sealed w s.ring.chunks
      → IsSized w (maybe_cut vte s).ring
  unfolding maybe_cut
  maybe_cut-IsSized s m k = elim (Bool-cases (Ring.should_cut s.ring)) [
    | inl due ↦ rw due (cut-IsSized w s.ring _ positive m k due)
    | inr early ↦ rw early (record { mark = m; sealed = k; below = early })
  ]

  keep_span-IsSized :
      (s t : Scanner vte) → keep_span vte s ≡ some t → IsSized w s.ring → IsSized w t.ring
  unfolding keep_span
  keep_span-IsSized s t e z =
      let (ring, e', f) = >>=-eq-some _ _ e in
      let (k, m) = append-Sealed w s.ring ring s.pending e' z.sealed in
      subst (λ (u : Scanner vte). IsSized w u.ring) (some-injective _ _ f)
        (maybe_cut-IsSized (record s { ring = ring; pending = [] }) (m ∙ z.mark) k)

  handle_event-IsSized :
      (s t : Scanner vte) (event : SegEvent)
      → handle_event vte s event ≡ some t
      → IsSized w s.ring
      → IsSized w t.ring
  unfolding handle_event clear_screen
  handle_event-IsSized s t no_event e z =
      subst (λ (u : Scanner vte). IsSized w u.ring) (some-injective _ _ e) z
  handle_event-IsSized s t keep_byte e z = keep_span-IsSized s t e z
  handle_event-IsSized s t keep_seq e z = keep_span-IsSized s t e z
  handle_event-IsSized s t drop_seq e z =
      subst (λ (u : Scanner vte). IsSized w u.ring) (some-injective _ _ e) z
  handle_event-IsSized s t clear_seq e z =
      subst (λ (u : Scanner vte). IsSized w u.ring) (some-injective _ _ e)
        (purge-IsSized w s.ring _ positive z.mark)

  advance_one-IsSized :
      (s t : Scanner vte) (b : ℕ)
      → advance_one vte s b ≡ some t
      → IsSized w s.ring
      → IsSized w t.ring
  unfolding advance_one
  advance_one-IsSized s t b e z = handle_event-IsSized _ t _ e z

  feed_byte-IsSized :
      (s t : Scanner vte) (b : ℕ) → feed_byte vte s b ≡ some t → IsSized w s.ring → IsSized w t.ring
  unfolding feed_byte
  feed_byte-IsSized s t b e z = elim (Bool-cases (ltb 0 s.utf8_remaining && in_range 0x80 0xbf b)) [
    | inl continues ↦ advance_one-IsSized _ t b (rw (continues, feed_byte) at e) z
    | inr starts ↦ elim (Bool-cases (b == 0x9c)) [
      | inl c1 ↦
          let (u, e', f) = >>=-eq-some _ _ (rw (starts, c1, feed_byte) at e) in
          advance_one-IsSized u t 0x5c f (advance_one-IsSized _ u 0x1b e' z)
      | inr other ↦ advance_one-IsSized _ t b (rw (starts, other, feed_byte) at e) z
    ]
  ]

  feed-IsSized :
      (s t : Scanner vte) (bs : List ℕ)
      → feed vte s bs ≡ some t
      → IsSized w s.ring
      → IsSized w t.ring
  unfolding feed
  feed-IsSized s t [] e z = subst (λ (u : Scanner vte). IsSized w u.ring) (some-injective _ _ e) z
  feed-IsSized s t (b ∷ bs) e z =
      let (u, e', f) = >>=-eq-some _ _ e in feed-IsSized u t bs f (feed_byte-IsSized s u b e' z)

  -- After any input the open chunk is below the watermark, every sealed chunk has reached it, and so
  -- the number of chunks is at most one more than the bytes kept would fill.
  pub feed_bounds :
      (bs : List ℕ) (t : Scanner vte)
      → feed vte (new vte w) bs ≡ some t
      → IsSized w t.ring × (length t.ring.chunks * w ≤ length (concat_bodies t.ring.chunks) + w)
  feed_bounds bs t e =
      let z = feed-IsSized (new vte w) t bs e (new-IsSized w positive) in
      (z, Sealed-count w t.ring.chunks z.sealed)
