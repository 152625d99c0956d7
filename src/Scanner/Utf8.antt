-- ===== src/Scanner/Utf8.antt =====
-- The UTF-8 counter of `feed` (core/src/scanner.rs): text is never rewritten.
use jfterm_muxer.Base.{ℕ, ◌≡◌, refl, ap, inl, inr, Option-cases, some, List, [], ◌∷◌, arith}
use jfterm_muxer.Utf8.{
  Expect, boundary, cont1, cont2, cont3, after_e0, after_ed, after_f0, after_f4, utf8_step,
  utf8_run, from_utf8,
}
use jfterm_muxer.Scanner.{lead_remaining}
use jfterm_muxer.Scanner.Sanitize.{expand_byte, expand}

-- How many continuation bytes the validator still wants.
abbrev pub wanted : Expect → ℕ
wanted boundary = 0
wanted cont1 = 1
wanted cont2 = 2
wanted cont3 = 3
wanted after_e0 = 2
wanted after_ed = 2
wanted after_f0 = 3
wanted after_f4 = 3

-- A byte that the validator accepts is left as it is, and both counters agree after it.
step_agrees :
    (x y : Expect) (b : ℕ) → utf8_step x b ≡ some y → expand_byte (wanted x) b ≡ (b ∷ [], wanted y)
unfolding utf8_step expand_byte lead_remaining
step_agrees boundary y b h = ground arith
step_agrees cont1 y b h = ground arith
step_agrees _ y b h = ground arith

-- Bytes that the validator accepts from `x` on to `y` are left as they are.
run_verbatim : (x y : Expect) (bs : List ℕ) → utf8_run x bs ≡ some y → expand (wanted x) bs ≡ bs
unfolding utf8_run expand
run_verbatim x y [] h = refl
run_verbatim x y (b ∷ bs) h = elim (Option-cases (utf8_step x b)) [
  | inl e ↦ absurd (cc (rw e at h))
  | inr (m, e) ↦
      let h' : utf8_run m bs ≡ some y = rw e at h in
      rw (step_agrees x m b e) (ap (◌∷◌ b) (run_verbatim m y bs h'))
]

-- The rewriting of `feed` leaves every byte string alone that is UTF-8, also where a character has
-- the byte 0x9C (the 8-bit string terminator) in it.
pub expand-from_utf8 : (bs : List ℕ) → from_utf8 bs ≡ some bs → expand 0 bs ≡ bs
unfolding from_utf8
expand-from_utf8 bs h = elim (Option-cases (utf8_run boundary bs)) [
  | inl e ↦ absurd (cc (rw (e, from_utf8) at h))
  | inr (y, e) ↦ run_verbatim boundary y bs e
]
