-- ===== src/Sticky/Cache.antt =====
-- The prologue cache of core/src/sticky.rs: it never changes what `serialize` answers.
use jfterm_muxer.Base.{
  ℕ, Bool, ◌≡◌, refl, sym, ap, ◌∙◌, ◌⊎◌, inl, inr, Option, none, some, List, [], ◌∷◌, arith,
}
use jfterm_muxer.Sticky.{
  StickyState, invalidate, set_sgr, set_dec_mode, set_scroll_region, set_cwd, set_title,
  build_serialized, serialize,
}

-- The cache is empty or holds what a rebuild would give.
abbrev pub IsCoherent : StickyState → Type 0
IsCoherent s = (s.cache ≡ none) ⊎ (s.cache ≡ some (build_serialized s))

pub build-invalidate : (s : StickyState) → build_serialized (invalidate s) ≡ build_serialized s
unfolding build_serialized
build-invalidate s = refl

-- What one call of `serialize` on a coherent state gives.
pub record Serialized (s : StickyState) (r : List ℕ × StickyState) : Type 0 where
  pub answer : r.0 ≡ build_serialized s
  pub coherent : IsCoherent r.1
  pub same : invalidate r.1 ≡ invalidate s

serialize_by :
    (s : StickyState) (c : Option (List ℕ))
    → (c ≡ none) ⊎ (c ≡ some (build_serialized s))
    → Serialized (record s { cache = c }) (serialize (record s { cache = c }))
unfolding serialize build_serialized
serialize_by s none h = record { answer = refl; coherent = inr refl; same = refl }
serialize_by s (some out) (inl e) = absurd (cc)
serialize_by s (some out) (inr e) = record { answer = cc; coherent = inr e; same = refl }

pub serialize_lem : (s : StickyState) → IsCoherent s → Serialized s (serialize s)
serialize_lem s h = serialize_by s s.cache h

-- The public operations of `StickyState`; `serializes` is a call whose answer is read.
pub data Op : Type 0 where
  sets_sgr : List ℕ → Op
  sets_dec_mode : ℕ → Bool → Op
  sets_scroll_region : Option (ℕ × ℕ) → Op
  sets_cwd sets_title : List ℕ → Op
  serializes : Op

-- The state after the operations, and the answers of `serialize` in order.
unfoldable pub run : StickyState → List Op → List (List ℕ)
run s [] = []
run s (sets_sgr params ∷ ops) = run (set_sgr s params) ops
run s (sets_dec_mode code on ∷ ops) = run (set_dec_mode s code on) ops
run s (sets_scroll_region region ∷ ops) = run (set_scroll_region s region) ops
run s (sets_cwd cwd ∷ ops) = run (set_cwd s cwd) ops
run s (sets_title title ∷ ops) = run (set_title s title) ops
run s (serializes ∷ ops) = (serialize s).0 ∷ run (serialize s).1 ops

-- The same with no cache: each answer is built from scratch.
unfoldable pub run_uncached : StickyState → List Op → List (List ℕ)
run_uncached s [] = []
run_uncached s (sets_sgr params ∷ ops) = run_uncached (set_sgr s params) ops
run_uncached s (sets_dec_mode code on ∷ ops) = run_uncached (set_dec_mode s code on) ops
run_uncached s (sets_scroll_region region ∷ ops) = run_uncached (set_scroll_region s region) ops
run_uncached s (sets_cwd cwd ∷ ops) = run_uncached (set_cwd s cwd) ops
run_uncached s (sets_title title ∷ ops) = run_uncached (set_title s title) ops
run_uncached s (serializes ∷ ops) = build_serialized s ∷ run_uncached s ops

set_dec_mode-IsCoherent :
    (s : StickyState) (code : ℕ) (on : Bool) → IsCoherent (set_dec_mode s code on)
set_dec_mode-IsCoherent s code on = inl refl

-- Neither answers nor later answers depend on what the cache holds.
run_uncached-invalidate :
    (s : StickyState) (ops : List Op) → run_uncached (invalidate s) ops ≡ run_uncached s ops
unfolding run_uncached
run_uncached-invalidate s [] = refl
run_uncached-invalidate s (sets_sgr params ∷ ops) = refl
run_uncached-invalidate s (sets_dec_mode code on ∷ ops) =
    ap (λ t. run_uncached t ops) (set_dec_mode-invalidate s code on)
  where
    set_dec_mode-invalidate :
        (s : StickyState) (code : ℕ) (on : Bool)
        → set_dec_mode (invalidate s) code on ≡ set_dec_mode s code on
    set_dec_mode-invalidate s code on = ground arith
run_uncached-invalidate s (sets_scroll_region region ∷ ops) = refl
run_uncached-invalidate s (sets_cwd cwd ∷ ops) = refl
run_uncached-invalidate s (sets_title title ∷ ops) = refl
run_uncached-invalidate s (serializes ∷ ops) =
    λ i. build-invalidate s i ∷ run_uncached-invalidate s ops i

-- From a coherent state (a new one is), any sequence of operations gets from `serialize` exactly the
-- answers that rebuilding the prologue at each call would give.
pub run-serialize :
    (s : StickyState) (ops : List Op) → IsCoherent s → run s ops ≡ run_uncached s ops
unfolding run run_uncached
run-serialize s [] h = refl
run-serialize s (sets_sgr params ∷ ops) h = run-serialize (set_sgr s params) ops (inl refl)
run-serialize s (sets_dec_mode code on ∷ ops) h =
    run-serialize (set_dec_mode s code on) ops (set_dec_mode-IsCoherent s code on)
run-serialize s (sets_scroll_region region ∷ ops) h =
    run-serialize (set_scroll_region s region) ops (inl refl)
run-serialize s (sets_cwd cwd ∷ ops) h = run-serialize (set_cwd s cwd) ops (inl refl)
run-serialize s (sets_title title ∷ ops) h = run-serialize (set_title s title) ops (inl refl)
run-serialize s (serializes ∷ ops) h =
    let x = serialize_lem s h in
    let later : run (serialize s).1 ops ≡ run_uncached s ops =
      run-serialize (serialize s).1 ops x.coherent
      ∙ (sym (run_uncached-invalidate (serialize s).1 ops)
          ∙ (ap (λ t. run_uncached t ops) x.same ∙ run_uncached-invalidate s ops)) in
    λ i. x.answer i ∷ later i
