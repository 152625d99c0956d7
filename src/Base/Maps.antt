-- ===== src/Base/Maps.antt =====
-- A store as a function from numbers, and the change of one of its places.
use Prim.Native.Nat.{ℕ}
use mathlib.Core.Path.{◌≡◌, refl}
use mathlib.Core.Logic.{◌≢◌, ◌⊎◌, inl, inr}
use mathlib.Core.Option.{Option}
use native.Mathlib.Omega.{arith}
use jfterm_muxer.Base.Tests.{◌==◌, ==_iff, if◌then◌else◌, Bool-cases}

module _ {ℓ} {A : Type ℓ} where
  unfoldable pub put : (ℕ → Option A) → ℕ → Option A → ℕ → Option A
  put m k v n = if n == k then v else m n

  pub put-cases :
      (m : ℕ → Option A) (k : ℕ) (v : Option A) (n : ℕ)
      → ((n ≡ k) × (put m k v n ≡ v)) ⊎ ((n ≢ k) × (put m k v n ≡ m n))
  unfolding put
  put-cases m k v n = elim (Bool-cases (n == k)) [
    | inl t ↦ inl ((==_iff n k).0 t, rw t refl)
    | inr f ↦ inr ((λ e. absurd (grind (arith, e, f))), rw f refl)
  ]

  pub put-same : (m : ℕ → Option A) (k : ℕ) (v : Option A) → put m k v k ≡ v
  put-same m k v = elim (put-cases m k v k) [ inl (e, q) ↦ q | inr (n, q) ↦ absurd (n refl) ]

  pub put-other : (m : ℕ → Option A) (k n : ℕ) (v : Option A) → n ≢ k → put m k v n ≡ m n
  put-other m k n v h = elim (put-cases m k v n) [ inl (e, q) ↦ absurd (h e) | inr (o, q) ↦ q ]
