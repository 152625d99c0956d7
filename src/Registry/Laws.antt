-- ===== src/Registry/Laws.antt =====
-- The map of jftermd/src/registry.rs: what an insertion and a removal do to a lookup.
use jfterm_muxer.Base.{
  ℕ, ◌≤◌, ◌≡◌, refl, sym, ap, true, none, some, suc, ◌≢◌, ◌∙◌, inl, inr, Bool-cases, List, [], ◌∷◌,
  arith, length, if◌then◌else◌, bytes_eq, bytes_eq_iff,
}
use jfterm_muxer.Registry.{Table, get, erase}

-- No id has two entries.
abbrev pub IsDistinct : Table → Type 0
IsDistinct [] = Unit {0}
IsDistinct ((key, tx) ∷ m) = (get key m ≡ none) × IsDistinct m

bytes_eq_trans : (a b c : List ℕ) → bytes_eq a b ≡ true → bytes_eq a c ≡ bytes_eq b c
bytes_eq_trans a b c e = ap (λ x. bytes_eq x c) ((bytes_eq_iff a b).0 e)

bytes_eq_sym : (a b : List ℕ) → bytes_eq a b ≡ true → bytes_eq b a ≡ true
bytes_eq_sym a b e = (bytes_eq_iff b a).1 (sym ((bytes_eq_iff a b).0 e))

pub bytes_eq_refl : (a : List ℕ) → bytes_eq a a ≡ true
bytes_eq_refl a = (bytes_eq_iff a a).1 refl

-- A removal takes the entry of its id away, and no other.
pub get-erase :
    (id key : List ℕ) (m : Table)
    → IsDistinct m
    → get key (erase id m) ≡ (if bytes_eq id key then none else get key m)
unfolding get erase
get-erase id key [] d = ground arith
get-erase id key ((k, tx) ∷ m) d =
    ground (
      arith,
      get-erase id key m d.1,
      bytes_eq_iff k id,
      bytes_eq_iff k key,
      bytes_eq_iff id key,
      d.0,
    )

pub erase-IsDistinct : (id : List ℕ) (m : Table) → IsDistinct m → IsDistinct (erase id m)
unfolding erase
erase-IsDistinct id [] d = tt
erase-IsDistinct id ((k, tx) ∷ m) d =
    ground (arith, erase-IsDistinct id m d.1, get-erase id k m d.1, d.0)

pub length-erase-le : (id : List ℕ) (m : Table) → length (erase id m) ≤ length m
unfolding erase
length-erase-le id [] = omega arith
length-erase-le id ((k, tx) ∷ m) = ground (arith, length-erase-le id m)

-- The removal of an id that is there makes room for one session.
pub length-erase :
    (id : List ℕ) (m : Table) (tx : ℕ) → get id m ≡ some tx → suc (length (erase id m)) ≡ length m
unfolding get erase
length-erase id [] tx e = absurd (no_channel tx e)
  where
    no_channel : (n : ℕ) → none ≢ some n
    no_channel n k = cc
length-erase id ((k, ch) ∷ m) tx e = elim (Bool-cases (bytes_eq k id)) [
  | inl t ↦ rw t refl
  | inr f ↦ rw f (ap suc (length-erase id m tx (sym (rw f refl) ∙ e)))
]
