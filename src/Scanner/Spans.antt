-- ===== src/Scanner/Spans.antt =====
-- What the sanitizer keeps: the bytes of kept spans, verbatim and in order, since the last clear.
use mathlib.Core.List.{Sublist, sublist-append_left}
use mathlib.Core.List.Sublist
use jfterm_muxer.Base.{
  ℕ, ◌≡◌, refl, sym, ap, ◌∙◌, subst, List, [], ◌∷◌, ◌++◌, append_assoc, append-nil,
}
use jfterm_muxer.Sticky.{build_serialized}
use jfterm_muxer.Sink.{SegEvent, no_event, keep_byte, keep_seq, drop_seq, clear_seq, perform_all}
use jfterm_muxer.Scanner.{clear_bytes}
use jfterm_muxer.Scanner.Sanitize.{Sanitizer, settle, sanitize_one, sanitize}
use jfterm_muxer.Vte.{Vte}

abbrev pub IsKept : SegEvent → Type 0
IsKept no_event = Unit {0}
IsKept keep_byte = Unit {0}
IsKept keep_seq = Unit {0}
IsKept drop_seq = ⊥
IsKept clear_seq = ⊥

module _ (vte : Vte) where
  -- The event that byte `b` ends with.
  abbrev pub event_at : Sanitizer vte → ℕ → SegEvent
  event_at z b = (perform_all z.sink (vte.advance z.parser b).1).event

  -- No byte of the input ends a dropped sequence or a screen clear.
  abbrev pub AllKept : Sanitizer vte → List ℕ → Type 0
  AllKept z [] = Unit {0}
  AllKept z (b ∷ bs) = IsKept (event_at z b) × AllKept (sanitize_one vte z b) bs

  -- All that has been kept or is not classified yet.
  abbrev pub held : Sanitizer vte → List ℕ
  held z = z.stream ++ z.pending

  settle-held :
      (z : Sanitizer vte) (e : SegEvent)
      → IsKept e
      → (held (settle vte z e) ≡ held z) × ((settle vte z e).base ≡ z.base)
  unfolding settle
  settle-held z no_event k = (refl, refl)
  settle-held z keep_byte k = (append-nil (z.stream ++ z.pending), refl)
  settle-held z keep_seq k = (append-nil (z.stream ++ z.pending), refl)
  settle-held z drop_seq k = absurd k
  settle-held z clear_seq k = absurd k

  one-held :
      (z : Sanitizer vte) (b : ℕ)
      → IsKept (event_at z b)
      → (held (sanitize_one vte z b) ≡ held z ++ (b ∷ [])) × ((sanitize_one vte z b).base ≡ z.base)
  unfolding sanitize_one
  one-held z b k =
      let (e, e') = settle-held _ (event_at z b) k in
      (e ∙ sym (append_assoc z.stream z.pending (b ∷ [])), e')

  -- Where nothing is dropped and nothing clears, every byte read is held, in order.
  pub sanitize-held :
      (z : Sanitizer vte) (bs : List ℕ)
      → AllKept z bs
      → (held (sanitize vte z bs) ≡ held z ++ bs) × ((sanitize vte z bs).base ≡ z.base)
  unfolding sanitize
  sanitize-held z [] k = (sym (append-nil (held z)), refl)
  sanitize-held z (b ∷ bs) (k, ks) =
      let (e, e') = one-held z b k in
      let (f, f') = sanitize-held (sanitize_one vte z b) bs ks in
      (f ∙ (ap (λ h. h ++ bs) e ∙ append_assoc (held z) (b ∷ []) bs), f' ∙ e')

  settle-sublist : (z : Sanitizer vte) (e : SegEvent) → Sublist (held (settle vte z e)) (held z)
  unfolding settle
  settle-sublist z no_event = Sublist.refl (held z)
  settle-sublist z keep_byte =
      subst (λ h. Sublist h (held z)) (sym (append-nil (held z))) (Sublist.refl (held z))
  settle-sublist z keep_seq =
      subst (λ h. Sublist h (held z)) (sym (append-nil (held z))) (Sublist.refl (held z))
  settle-sublist z drop_seq =
      subst (λ h. Sublist h (held z)) (sym (append-nil z.stream))
        (sublist-append_left z.stream z.pending)
  settle-sublist z clear_seq = sublist-append_left [] (held z)

  one-sublist :
      (z : Sanitizer vte) (b : ℕ) → Sublist (held (sanitize_one vte z b)) (held z ++ (b ∷ []))
  unfolding sanitize_one
  one-sublist z b =
      subst (Sublist (held (sanitize_one vte z b))) (sym (append_assoc z.stream z.pending (b ∷ [])))
        (settle-sublist _ (event_at z b))

  -- What is held afterwards is what was held and the bytes read, with some left out.
  pub sanitize-sublist :
      (z : Sanitizer vte) (bs : List ℕ) → Sublist (held (sanitize vte z bs)) (held z ++ bs)
  unfolding sanitize
  sanitize-sublist z [] =
      subst (Sublist (held z)) (sym (append-nil (held z))) (Sublist.refl (held z))
  sanitize-sublist z (b ∷ bs) =
      subst (Sublist (held (sanitize vte (sanitize_one vte z b) bs)))
        (append_assoc (held z) (b ∷ []) bs)
        (Sublist.trans (sanitize-sublist (sanitize_one vte z b) bs)
          (Sublist.append (one-sublist z b) (Sublist.refl bs)))

  clears :
      (z : Sanitizer vte) (e : SegEvent)
      → e ≡ clear_seq
      → (held (settle vte z e) ≡ [])
        × ((settle vte z e).base ≡ clear_bytes ++ build_serialized z.sink.sticky)
  unfolding settle
  clears z no_event h = absurd (cc)
  clears z keep_byte h = absurd (cc)
  clears z keep_seq h = absurd (cc)
  clears z drop_seq h = absurd (cc)
  clears z clear_seq h = (refl, refl)

  -- A byte that completes a clear leaves nothing held, and the clear sequence with the sticky state.
  pub sanitize_one-clear :
      (z : Sanitizer vte) (b : ℕ)
      → event_at z b ≡ clear_seq
      → (held (sanitize_one vte z b) ≡ [])
        × ((sanitize_one vte z b).base
            ≡ clear_bytes
              ++ build_serialized (perform_all z.sink (vte.advance z.parser b).1).sticky)
  unfolding sanitize_one
  sanitize_one-clear z b h = clears _ (event_at z b) h
