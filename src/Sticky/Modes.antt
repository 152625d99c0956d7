-- ===== src/Sticky/Modes.antt =====
-- The set of DEC private modes in core/src/sticky.rs: the keys of a `BTreeMap`, ascending.
use jfterm_muxer.Base.{
  ℕ, suc, ◌≤◌, ◌<◌, ◌≡◌, refl, ◌∙◌, Bool, true, false, ◌||◌, not, ◌&&◌, List, [], ◌∷◌, ◌++◌, arith,
  ◌==◌, if◌then◌else◌,
}
use jfterm_muxer.Sticky.{StickyState, insert_key, remove_key, set_dec_mode}

-- The keys rise, and start at `lo` or above.
abbrev pub Ascending : ℕ → List ℕ → Type 0
Ascending lo [] = Unit {0}
Ascending lo (x ∷ xs) = (lo ≤ x) × Ascending (suc x) xs

abbrev pub contains : List ℕ → ℕ → Bool
contains [] k = false
contains (j ∷ js) k = (k == j) || contains js k

Ascending-mono : (lo hi : ℕ) (xs : List ℕ) → lo ≤ hi → Ascending hi xs → Ascending lo xs
Ascending-mono lo hi [] h a = tt
Ascending-mono lo hi (x ∷ xs) h a = (omega arith, a.1)

insert-Ascending :
    (lo k : ℕ) (js : List ℕ) → lo ≤ k → Ascending lo js → Ascending lo (insert_key k js)
unfolding insert_key
insert-Ascending lo k [] h a = (h, tt)
insert-Ascending lo k (j ∷ js) h a = ground (arith, insert-Ascending (suc j) k js)

remove-Ascending : (lo k : ℕ) (js : List ℕ) → Ascending lo js → Ascending lo (remove_key k js)
unfolding remove_key
remove-Ascending lo k [] a = tt
remove-Ascending lo k (j ∷ js) a =
    ground (arith, remove-Ascending (suc j) k js a.1, Ascending-mono lo (suc j) js)

not_below : (lo k : ℕ) (js : List ℕ) → Ascending lo js → k < lo → contains js k ≡ false
not_below lo k [] a h = refl
not_below lo k (j ∷ js) a h = ground (arith, not_below (suc j) k js a.1)

contains-insert : (k i : ℕ) (js : List ℕ) → contains (insert_key k js) i ≡ (i == k) || contains js i
unfolding insert_key
contains-insert k i [] = refl
contains-insert k i (j ∷ js) = ground (arith, contains-insert k i js)

contains-remove :
    (lo k i : ℕ) (js : List ℕ)
    → Ascending lo js
    → contains (remove_key k js) i ≡ not (i == k) && contains js i
unfolding remove_key
contains-remove lo k i [] a = ground arith
contains-remove lo k i (j ∷ js) a =
    ground (arith, contains-remove (suc j) k i js a.1, not_below (suc j) k js a.1)

pub set_dec_mode-Ascending :
    (s : StickyState) (code : ℕ) (on : Bool)
    → Ascending 0 s.dec_modes
    → Ascending 0 (set_dec_mode s code on).dec_modes
set_dec_mode-Ascending s code true a = insert-Ascending 0 code s.dec_modes (omega arith) a
set_dec_mode-Ascending s code false a = remove-Ascending 0 code s.dec_modes a

-- Setting or resetting a mode changes the answer for that mode alone, and the modes stay in strictly
-- ascending order, so that each is written once.
pub set_dec_mode-contains :
    (s : StickyState) (code i : ℕ) (on : Bool)
    → Ascending 0 s.dec_modes
    → Ascending 0 (set_dec_mode s code on).dec_modes
      × (contains (set_dec_mode s code on).dec_modes i
          ≡ (if i == code then on else contains s.dec_modes i))
set_dec_mode-contains s code i true a = (
  set_dec_mode-Ascending s code true a,
  contains-insert code i s.dec_modes ∙ or_if (i == code) (contains s.dec_modes i),
)
  where
    or_if : (b c : Bool) → b || c ≡ (if b then true else c)
    or_if true c = refl
    or_if false c = refl
set_dec_mode-contains s code i false a = (
  set_dec_mode-Ascending s code false a,
  contains-remove 0 code i s.dec_modes a ∙ and_if (i == code) (contains s.dec_modes i),
)
  where
    and_if : (b c : Bool) → not b && c ≡ (if b then false else c)
    and_if true c = refl
    and_if false c = refl

-- A key above all others goes to the end.
pub insert_last :
    (lo k : ℕ) (xs ys : List ℕ) → Ascending lo (xs ++ (k ∷ ys)) → insert_key k xs ≡ xs ++ (k ∷ [])
unfolding insert_key
insert_last lo k [] ys a = refl
insert_last lo k (x ∷ xs) ys a =
    ground (arith, insert_last (suc x) k xs ys a.1, above (suc x) k xs ys a.1)
  where
    above : (lo k : ℕ) (xs ys : List ℕ) → Ascending lo (xs ++ (k ∷ ys)) → lo ≤ k
    above lo k [] ys a = a.0
    above lo k (x ∷ xs) ys a = omega (arith, above (suc x) k xs ys a.1, a.0)
