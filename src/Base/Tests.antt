-- ===== src/Base/Tests.antt =====
-- Boolean tests on the native numbers, the conditional, and the Option monad of code that may stop.
use Prim.Native.Nat.{ℕ, zero, suc, ◌<◌, compare, Ordering}
use mathlib.Core.Path.{◌≡◌, refl}
use mathlib.Core.Logic.{◌≢◌, ◌↔◌, ◌⊎◌, inl, inr}
use mathlib.Core.Bool.{Bool, true, false, ◌||◌}
use mathlib.Core.Option.{Option, none, some}
use native.Mathlib.Omega.{arith}

-- These compute to `compare`, which `ground` and `grind` read with no lemma listed.
abbrev pub ltb : ℕ → ℕ → Bool
ltb a b = elim (compare a b) [ Ordering.lt ↦ true | _ ↦ false ]

abbrev pub leb : ℕ → ℕ → Bool
leb a b = elim (compare a b) [ Ordering.gt ↦ false | _ ↦ true ]

infix 50 ◌==◌
abbrev pub ◌==◌ : ℕ → ℕ → Bool
a == b = elim (compare a b) [ Ordering.eq ↦ true | _ ↦ false ]

infix 1 if◌then◌else◌
abbrev pub if◌then◌else◌ {ℓ} : {A : Type ℓ} → Bool → A → A → A
if true then x else y = x
if false then x else y = y

-- `lo..=hi` of a pattern or of `contains`.
abbrev pub in_range : ℕ → ℕ → ℕ → Bool
in_range lo hi b = if leb lo b then leb b hi else false

pub ==_iff : (a b : ℕ) → ((a == b) ≡ true) ↔ (a ≡ b)
==_iff a b = ground arith

pub ==_refl : (a : ℕ) → (a == a) ≡ true
==_refl a = ground arith

-- To split on a computed value and keep the equation.
pub Bool-cases : (b : Bool) → (b ≡ true) ⊎ (b ≡ false)
Bool-cases true = inl refl
Bool-cases false = inr refl

pub true_is_not_false : true ≢ false
true_is_not_false e = cc

module _ {ℓ} {A : Type ℓ} where
  pub if-elim :
      (P : A → Type 0) (b : Bool) (x y : A)
      → (b ≡ true → P x)
      → (b ≡ false → P y)
      → P (if b then x else y)
  if-elim P true x y h k = h refl
  if-elim P false x y h k = k refl

  pub none_is_not_some : (a : A) → none ≢ some a
  none_is_not_some a e = cc

  pub Option-cases : (o : Option A) → (o ≡ none) ⊎ ((a : A) × (o ≡ some a))
  Option-cases none = inl refl
  Option-cases (some a) = inr (a, refl)

-- `none` is a panic, an early return or an unmet `if let`, as the code at hand says.
infixl 5 ◌>>=◌
abbrev pub ◌>>=◌ {ℓ κ} : {A : Type ℓ} {B : Type κ} → Option A → (A → Option B) → Option B
none >>= f = none
some a >>= f = f a

abbrev pub unwrap_or {ℓ} : {A : Type ℓ} → Option A → A → A
unwrap_or none d = d
unwrap_or (some a) d = a

abbrev pub is_some {ℓ} : {A : Type ℓ} → Option A → Bool
is_some none = false
is_some (some a) = true

-- A chain of fallible steps succeeds where its first step does, and the rest after it.
pub >>=-eq-some {ℓ κ} :
    {A : Type ℓ} {B : Type κ} (m : Option A) (f : A → Option B) {b : B}
    → (m >>= f) ≡ some b
    → (a : A) × (m ≡ some a) × (f a ≡ some b)
>>=-eq-some none f h = cc
>>=-eq-some (some a) f h = (a, refl, h)

pub or_false : (b : Bool) → b ≡ b || false
or_false true = refl
or_false false = refl

-- A test that every number under a bound passes, for proofs by evaluation.
module _ (passes : ℕ → Bool) where
  unfoldable pub table_passes : ℕ → Bool
  table_passes zero = true
  table_passes (suc bound) = if passes bound then table_passes bound else false

  pub table_passes-at : (bound v : ℕ) → table_passes bound ≡ true → v < bound → passes v ≡ true
  unfolding table_passes
  table_passes-at zero v e h = absurd (omega arith)
  table_passes-at (suc bound) v e h = ground (arith, table_passes-at bound v)
