-- ===== src/Scanner/Waiting.antt =====
-- Where a replay of the sanitizer begins, and which bytes wait in it (core/src/scanner.rs).
use mathlib.Core.List.{Sublist}
use jfterm_muxer.Base.{
  ℕ, ◌≡◌, ◌≢◌, ◌⊎◌, inl, inr, refl, sym, ap, ◌∙◌, subst, List, [], ◌∷◌, ◌++◌, append_assoc,
  append-nil,
}
use jfterm_muxer.Sticky.{build_serialized}
use jfterm_muxer.Sink.{SegEvent, no_event, keep_byte, keep_seq, drop_seq, clear_seq, perform_all}
use jfterm_muxer.Scanner.{clear_bytes}
use jfterm_muxer.Scanner.Sanitize.{Sanitizer, settle, sanitize_one, sanitize}
use jfterm_muxer.Vte.{Vte}
use jfterm_muxer.Scanner.Spans.{event_at, held, sanitize-sublist, sanitize_one-clear}

module _ (vte : Vte) where
  -- Where the base came from: it stands as it was, and what is held is some of what was held and read;
  -- or a byte completed a clear, the base was made there, and what is held is some of what came after.
  pub record IsCleared (z : Sanitizer vte) (bs base_bytes kept_bytes : List ℕ) : Type 0 where
    pub before : List ℕ
    pub last : ℕ
    pub after : List ℕ
    pub split : bs ≡ before ++ (last ∷ after)
    pub clear : event_at vte (sanitize vte z before) last ≡ clear_seq
    pub base :
        base_bytes
        ≡ clear_bytes
          ++ build_serialized
              (perform_all
                (sanitize vte z before).sink
                (vte.advance (sanitize vte z before).parser last).1).sticky
    pub kept : Sublist kept_bytes after

  abbrev pub IsBased : Sanitizer vte → List ℕ → List ℕ → List ℕ → Type 0
  IsBased z bs base kept =
      ((base ≡ z.base) × Sublist kept (held vte z ++ bs)) ⊎ IsCleared z bs base kept

  settle-base :
      (z : Sanitizer vte) (e : SegEvent) → (e ≡ clear_seq) ⊎ ((settle vte z e).base ≡ z.base)
  unfolding settle
  settle-base z no_event = inr refl
  settle-base z keep_byte = inr refl
  settle-base z keep_seq = inr refl
  settle-base z drop_seq = inr refl
  settle-base z clear_seq = inl refl

  one-base :
      (z : Sanitizer vte) (b : ℕ)
      → (event_at vte z b ≡ clear_seq) ⊎ ((sanitize_one vte z b).base ≡ z.base)
  unfolding sanitize_one
  one-base z b = settle-base _ (event_at vte z b)

  pub sanitize-IsBased :
      (z : Sanitizer vte) (bs : List ℕ)
      → IsBased z bs (sanitize vte z bs).base (held vte (sanitize vte z bs))
  unfolding sanitize
  sanitize-IsBased z [] = inl (refl, sanitize-sublist vte z [])
  sanitize-IsBased z (b ∷ bs) = elim (sanitize-IsBased (sanitize_one vte z b) bs) [
    | inr c ↦ inr (record {
      before = b ∷ c.before;
      last = c.last;
      after = c.after;
      split = ap (◌∷◌ b) c.split;
      clear = c.clear;
      base = c.base;
      kept = c.kept;
    })
    | inl (e, k) ↦ elim (one-base z b) [
      | inr f ↦ inl (e ∙ f, sanitize-sublist vte z (b ∷ bs))
      | inl f ↦
          let (empty, base) = sanitize_one-clear vte z b f in
          inr (record {
            before = [];
            last = b;
            after = bs;
            split = refl;
            clear = f;
            base = e ∙ base;
            kept =
                subst (λ h. Sublist (held vte (sanitize vte (sanitize_one vte z b) bs)) (h ++ bs))
                  empty k;
          })
    ]
  ]

  -- Nothing ends in these bytes.
  abbrev pub AllSilent : Sanitizer vte → List ℕ → Type 0
  AllSilent z [] = Unit {0}
  AllSilent z (b ∷ bs) = (event_at vte z b ≡ no_event) × AllSilent (sanitize_one vte z b) bs

  -- The pending bytes are those after the last one that ended something.
  pub record Ended (z : Sanitizer vte) (bs : List ℕ) (pending : List ℕ) : Type 0 where
    pub front : List ℕ
    pub last : ℕ
    pub rest : List ℕ
    pub split : bs ≡ front ++ (last ∷ rest)
    pub ends : event_at vte (sanitize vte z front) last ≢ no_event
    pub silent : AllSilent (sanitize_one vte (sanitize vte z front) last) rest
    pub waits : pending ≡ rest

  abbrev pub Waits : Sanitizer vte → List ℕ → List ℕ → Type 0
  Waits z bs pending = (AllSilent z bs × (pending ≡ z.pending ++ bs)) ⊎ Ended z bs pending

  settle-pending :
      (z : Sanitizer vte) (e : SegEvent)
      → ((e ≡ no_event) × ((settle vte z e).pending ≡ z.pending))
        ⊎ ((e ≢ no_event) × ((settle vte z e).pending ≡ []))
  unfolding settle
  settle-pending z no_event = inl (refl, refl)
  settle-pending z keep_byte = inr ((λ h. cc), refl)
  settle-pending z keep_seq = inr ((λ h. cc), refl)
  settle-pending z drop_seq = inr ((λ h. cc), refl)
  settle-pending z clear_seq = inr ((λ h. cc), refl)

  one-pending :
      (z : Sanitizer vte) (b : ℕ)
      → ((event_at vte z b ≡ no_event) × ((sanitize_one vte z b).pending ≡ z.pending ++ (b ∷ [])))
        ⊎ ((event_at vte z b ≢ no_event) × ((sanitize_one vte z b).pending ≡ []))
  unfolding sanitize_one
  one-pending z b = settle-pending _ (event_at vte z b)

  pub sanitize-Waits : (z : Sanitizer vte) (bs : List ℕ) → Waits z bs (sanitize vte z bs).pending
  unfolding sanitize
  sanitize-Waits z [] = inl (tt, sym (append-nil z.pending))
  sanitize-Waits z (b ∷ bs) = elim (sanitize-Waits (sanitize_one vte z b) bs) [
    | inr c ↦ inr (record {
      front = b ∷ c.front;
      last = c.last;
      rest = c.rest;
      split = ap (◌∷◌ b) c.split;
      ends = c.ends;
      silent = c.silent;
      waits = c.waits;
    })
    | inl (s, e) ↦ elim (one-pending z b) [
      | inl (n, f) ↦ inl ((n, s), e ∙ (ap (λ p. p ++ bs) f ∙ append_assoc z.pending (b ∷ []) bs))
      | inr (n, f) ↦ inr (record {
        front = [];
        last = b;
        rest = bs;
        split = refl;
        ends = n;
        silent = s;
        waits = e ∙ ap (λ p. p ++ bs) f;
      })
    ]
  ]
