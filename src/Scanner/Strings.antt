-- ===== src/Scanner/Strings.antt =====
-- Operating system commands closed by `ESC \` in the byte stream (core/src/scanner.rs).
use jfterm_muxer.Base.{
  ℕ, ◌+◌, ◌*◌, ◌≤◌, arith, length, length-append, subst, inl, some, some-injective, ◌≡◌, refl, sym,
  ap, ◌∙◌, true, false, List, [], ◌∷◌, ◌++◌, append_assoc, append-nil, head?, ◌>>=◌, if◌then◌else◌,
}
use jfterm_muxer.Utf8.{from_utf8}
use jfterm_muxer.Sink.{no_event, keep_seq, drop_seq, take_event, perform, perform_all}
use jfterm_muxer.Sink.Strings.{is_dropped, osc-st}
use jfterm_muxer.Ring.Replay.{replay_full}
use jfterm_muxer.Scanner.{Scanner, new, feed, replay}
use jfterm_muxer.Scanner.Refine.{view, Feeds, feed-Feeds}
use jfterm_muxer.Scanner.Sanitize.{
  Sanitizer, settle, sanitize_one, sanitize, expand, remaining_after,
}
use jfterm_muxer.Vte.{Vte, Callback, osc_dispatch, esc_dispatch}

module _ (vte : Vte) where
  -- The parser reads `bs` from `p` to `q` and calls nothing.
  abbrev pub Quiet : vte.Parser → List ℕ → vte.Parser → Type 0
  Quiet p [] q = p ≡ q
  Quiet p (b ∷ bs) q = ((vte.advance p b).1 ≡ []) × Quiet (vte.advance p b).0 bs q

  quiet_step :
      (z : Sanitizer vte) (b : ℕ)
      → (vte.advance z.parser b).1 ≡ []
      → z.sink.event ≡ no_event
      → sanitize_one vte z b
        ≡ record z { parser = (vte.advance z.parser b).0; pending = z.pending ++ (b ∷ []) }
  unfolding sanitize_one perform_all
  quiet_step z b e f = rw (e, f) refl

  Quiet-run :
      (z : Sanitizer vte) (bs : List ℕ) (q : vte.Parser)
      → Quiet z.parser bs q
      → z.sink.event ≡ no_event
      → sanitize vte z bs ≡ record z { parser = q; pending = z.pending ++ bs }
  unfolding sanitize
  Quiet-run z [] q h f = λ i. record z { parser = h i; pending = sym (append-nil z.pending) i }
  Quiet-run z (b ∷ bs) q h f =
      let z' : Sanitizer vte = record z {
        parser = (vte.advance z.parser b).0;
        pending = z.pending ++ (b ∷ []);
      } in
      ap (λ y. sanitize vte y bs) (quiet_step z b h.0 f)
      ∙ (Quiet-run z' bs q h.1 f ∙ λ i. record z {
        parser = q;
        pending = append_assoc z.pending (b ∷ []) bs i;
      })

  -- One byte at which the parser makes one callback that ends in a drop.
  drop_step :
      (z : Sanitizer vte) (b : ℕ) (c : Callback) (r : vte.Parser)
      → vte.advance z.parser b ≡ (r, c ∷ [])
      → (perform z.sink c).event ≡ drop_seq
      → sanitize_one vte z b
        ≡ record z { parser = r; sink = (take_event (perform z.sink c)).1; pending = [] }
  unfolding sanitize_one perform_all settle
  drop_step z b c r e f = rw (e, f) refl

  sanitize-append :
      (z : Sanitizer vte) (xs ys : List ℕ)
      → sanitize vte z (xs ++ ys) ≡ sanitize vte (sanitize vte z xs) ys
  unfolding sanitize
  sanitize-append z [] ys = refl
  sanitize-append z (x ∷ xs) ys = sanitize-append (sanitize_one vte z x) xs ys

  sanitize-dropped :
      (z : Sanitizer vte) (text : List ℕ) (params : List (List ℕ)) (q r s : vte.Parser)
      → z.sink.event ≡ no_event
      → Quiet z.parser text q
      → vte.advance q 0x1b ≡ (r, osc_dispatch params false ∷ [])
      → vte.advance r 0x5c ≡ (s, esc_dispatch [] false 0x5c ∷ [])
      → is_dropped (head? params >>= from_utf8) ≡ true
      → let u = sanitize vte z (text ++ (0x1b ∷ (0x5c ∷ []))) in
        (u.base ≡ z.base) × (u.stream ≡ z.stream) × (u.pending ≡ []) × (u.parser ≡ s)
  unfolding sanitize
  sanitize-dropped z text params q r s f quiet osc st dropped =
      let k = perform z.sink (osc_dispatch params false) in
      let (e, e', _, _, _) = osc-st z.sink params false false [] in
      let drops : k.event ≡ drop_seq = e ∙ ap (λ b. if b then drop_seq else keep_seq) dropped in
      let z₁ : Sanitizer vte = record z { parser = q; pending = z.pending ++ text } in
      let z₂ : Sanitizer vte = record z { parser = r; sink = (take_event k).1; pending = [] } in
      let whole : sanitize vte z (text ++ (0x1b ∷ (0x5c ∷ []))) ≡ sanitize_one vte z₂ 0x5c =
        sanitize-append z text (0x1b ∷ (0x5c ∷ []))
        ∙ (ap (λ y. sanitize vte y (0x1b ∷ (0x5c ∷ []))) (Quiet-run z text q quiet f)
            ∙ ap (λ y. sanitize_one vte y 0x5c) (drop_step z₁ 0x1b _ r osc drops)) in
      let last = whole ∙ drop_step z₂ 0x5c (esc_dispatch [] false 0x5c) s st (e' ∙ drops) in
      (
        ap (λ (y : Sanitizer vte). y.base) last,
        ap (λ (y : Sanitizer vte). y.stream) last,
        ap (λ (y : Sanitizer vte). y.pending) last,
        ap (λ (y : Sanitizer vte). y.parser) last,
      )

  -- A dropped operating system command that is closed by `ESC \`, fed to a scanner at any time: where
  -- the parser is silent over its text, dispatches it at `ESC` and the terminator at `\`, feeding it
  -- succeeds, a replay of more than twice as many chunks as bytes is what it was before it, and no byte
  -- of it waits. No byte of it is a lone 8-bit terminator.
  pub feed-dropped :
      (watermark want_chunks : ℕ) (earlier text : List ℕ) (params : List (List ℕ)) (a : Scanner vte)
      (q r s : vte.Parser)
      → feed vte (new vte watermark) earlier ≡ some a
      → 2 * length (earlier ++ (text ++ (0x1b ∷ (0x5c ∷ [])))) + 1 ≤ want_chunks
      → expand a.utf8_remaining (text ++ (0x1b ∷ (0x5c ∷ []))) ≡ text ++ (0x1b ∷ (0x5c ∷ []))
      → a.sink.event ≡ no_event
      → Quiet a.parser text q
      → vte.advance q 0x1b ≡ (r, osc_dispatch params false ∷ [])
      → vte.advance r 0x5c ≡ (s, esc_dispatch [] false 0x5c ∷ [])
      → is_dropped (head? params >>= from_utf8) ≡ true
      → (t : Scanner vte) × (feed vte a (text ++ (0x1b ∷ (0x5c ∷ []))) ≡ some t)
        × (replay vte t want_chunks ≡ replay vte a want_chunks)
        × (t.pending ≡ [])
  unfolding replay
  feed-dropped watermark want_chunks earlier text params a q r s fed h plain f quiet osc st
        dropped =
      let cmd = text ++ (0x1b ∷ (0x5c ∷ [])) in
      let first =
        feed-Feeds vte (new vte watermark) earlier
          (record { opened = omega arith; coherent = inl refl }) in
      let same : first.0 ≡ a = some-injective _ _ (sym first.1 ∙ fed) in
      let before =
        subst
          (λ (b : Scanner vte).
            Feeds vte (new vte watermark) (2 * length earlier) (expand 0 earlier)
              (remaining_after 0 earlier) b)
          same first.2 in
      let (t, e, x) = feed-Feeds vte a cmd before.valid in
      let u = sanitize vte (view vte a) cmd in
      let (base, stream, none_left, _) =
        sanitize-dropped (view vte a) text params q r s f quiet osc st dropped in
      let shows : view vte t ≡ u = x.shows ∙ ap (sanitize vte (view vte a)) plain in
      let n = length-append earlier cmd in
      (
        t,
        e,
        replay_full t.ring want_chunks (omega (arith, n, before.count, x.count, h))
            ∙ ((λ i.
                  (ap (λ (z : Sanitizer vte). z.base) shows ∙ base) i
                  ++ (ap (λ (z : Sanitizer vte). z.stream) shows ∙ stream) i)
                ∙ sym (replay_full a.ring want_chunks (omega (arith, n, before.count, h)))),
        ap (λ (z : Sanitizer vte). z.pending) shows ∙ none_left,
      )
