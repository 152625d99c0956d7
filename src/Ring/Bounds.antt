-- ===== src/Ring/Bounds.antt =====
-- How many bytes the chunks of a ring hold, sealed or open (core/src/ring.rs).
use jfterm_muxer.Base.{
  ℕ, ◌+◌, ◌*◌, ◌≤◌, ◌<◌, ◌≡◌, refl, ap, true, false, some, List, [], ◌∷◌, ◌++◌, arith, length,
  length-append, subst, sym, >>=-eq-some, some-injective, inl, inr, Option-cases,
}
use jfterm_muxer.Ring.{
  Chunk, ChunkRing, new, new_chunk, append_open, append, should_cut, cut, purge, last?,
  concat_bodies,
}

-- Every chunk but the last has at least `w` bytes.
abbrev pub Sealed : ℕ → List Chunk → Type 0
Sealed w [] = ⊥
Sealed w (c ∷ []) = Unit {0}
Sealed w (c ∷ d ∷ cs) = (w ≤ length c.body) × Sealed w (d ∷ cs)

pub record IsSized (w : ℕ) (r : ChunkRing) : Type 0 where
  pub mark : r.watermark ≡ w
  pub sealed : Sealed w r.chunks
  pub below : should_cut r ≡ false

append_open-Sealed :
    (w : ℕ) (bytes : List ℕ) (cs ds : List Chunk)
    → append_open bytes cs ≡ some ds
    → Sealed w cs
    → Sealed w ds
unfolding append_open
append_open-Sealed w bytes [] ds e h = absurd h
append_open-Sealed w bytes (c ∷ []) ds e h = subst (Sealed w) (some-injective _ _ e) tt
append_open-Sealed w bytes (c ∷ d ∷ cs) ds e h =
    let (es, e', f) = >>=-eq-some _ _ e in
    subst (Sealed w) (some-injective _ _ f)
      (sealed_cons es (append_open-Sealed w bytes (d ∷ cs) es e' h.1))
  where
    sealed_cons : (es : List Chunk) → Sealed w es → Sealed w (c ∷ es)
    sealed_cons [] k = absurd k
    sealed_cons (x ∷ xs) k = (h.0, k)

pub append-Sealed :
    (w : ℕ) (r t : ChunkRing) (bytes : List ℕ)
    → append r bytes ≡ some t
    → Sealed w r.chunks
    → Sealed w t.chunks × (t.watermark ≡ r.watermark)
unfolding append
append-Sealed w r t bytes e h =
    let (ds, e', f) = >>=-eq-some _ _ e in
    let g = some-injective _ _ f in
    (
      subst (Sealed w) (ap (λ (u : ChunkRing). u.chunks) g)
          (append_open-Sealed w bytes r.chunks ds e' h),
      sym (ap (λ (u : ChunkRing). u.watermark) g),
    )

pub last?-snoc {ℓ} : {A : Type ℓ} (xs : List A) (x : A) → last? (xs ++ (x ∷ [])) ≡ some x
last?-snoc [] x = refl
last?-snoc (y ∷ []) x = refl
last?-snoc (y ∷ z ∷ xs) x = last?-snoc (z ∷ xs) x

-- Sealing a chunk that has reached the watermark, and opening an empty one.
snoc-Sealed :
    (w : ℕ) (cs : List Chunk) (c d : Chunk)
    → last? cs ≡ some c
    → w ≤ length c.body
    → Sealed w cs
    → Sealed w (cs ++ (d ∷ []))
snoc-Sealed w [] c d e h k = absurd k
snoc-Sealed w (x ∷ []) c d e h k =
    (subst (λ (y : Chunk). w ≤ length y.body) (sym (some-injective _ _ e)) h, tt)
snoc-Sealed w (x ∷ y ∷ cs) c d e h k = (k.0, snoc-Sealed w (y ∷ cs) c d e h k.1)

pub cut-IsSized :
    (w : ℕ) (r : ChunkRing) (prologue : List ℕ)
    → 0 < w
    → r.watermark ≡ w
    → Sealed w r.chunks
    → should_cut r ≡ true
    → IsSized w (cut r prologue)
unfolding cut should_cut
cut-IsSized w r prologue h m k due = elim (Option-cases (last? r.chunks)) [
  | inl e ↦ absurd (cc (rw (e, should_cut) at due))
  | inr (c, e) ↦ record {
    mark = m;
    sealed = snoc-Sealed w r.chunks c (new_chunk prologue) e (full c e) k;
    below = rw (last?-snoc r.chunks (new_chunk prologue), should_cut) (ground arith);
  }
]
  where
    full : (c : Chunk) → last? r.chunks ≡ some c → w ≤ length c.body
    full c e = ground arith

pub purge-IsSized :
    (w : ℕ) (r : ChunkRing) (p : List ℕ) → 0 < w → r.watermark ≡ w → IsSized w (purge r p)
unfolding purge should_cut
purge-IsSized w r p h m = record { mark = m; sealed = tt; below = ground arith }

pub new-IsSized : (w : ℕ) → 0 < w → IsSized w (new w)
unfolding should_cut
new-IsSized w h = record { mark = refl; sealed = tt; below = ground arith }

-- So the number of chunks is bounded by the bytes that they hold.
pub Sealed-count :
    (w : ℕ) (cs : List Chunk) → Sealed w cs → length cs * w ≤ length (concat_bodies cs) + w
Sealed-count w [] k = absurd k
Sealed-count w (c ∷ []) k = omega arith
Sealed-count w (c ∷ d ∷ cs) k =
    omega (arith, Sealed-count w (d ∷ cs) k.1, length-append c.body (concat_bodies (d ∷ cs)))
