-- ===== src/Pty/Spawn/Group.antt =====
-- The wait for the child's process group (`await_own_process_group` of jftermd/src/pty.rs).
use jfterm_muxer.Base.{
  ℕ, zero, suc, ◌+◌, ◌≤◌, ◌<◌, ◌==◌, ==_iff, ◌≡◌, refl, sym, subst, inl, inr, ◌⊎◌, arith,
  Bool-cases,
}
use jfterm_muxer.Pty.Spawn.{PgidAnswer, pgid, esrch, pgid_err, await_from}

-- The end of the wait: a round found the child in its own group, or gone.
abbrev pub IsReady : ℕ → PgidAnswer → Type 0
IsReady child (pgid p) = p ≡ child
IsReady child esrch = Unit {0}
IsReady child pgid_err = ⊥

-- The wait slept in every round before `n`, and stopped there or after the last one.
abbrev pub Waits : ℕ → (ℕ → PgidAnswer) → ℕ → ℕ → ℕ → Type 0
Waits child answer first last n =
    (first ≤ n)
    × (n ≤ last)
    × ((j : ℕ) → first ≤ j → j < n → ¬ IsReady child (answer j))
    × ((n ≡ last) ⊎ IsReady child (answer n))

-- Whether the wait stops in a round.
stops_lem :
    (child left i : ℕ) (answer : ℕ → PgidAnswer) (x : PgidAnswer)
    → answer i ≡ x
    → ((await_from child (suc left) i answer ≡ i) × IsReady child (answer i))
      ⊎ ((await_from child (suc left) i answer ≡ await_from child left (suc i) answer)
          × (¬ IsReady child (answer i)))
unfolding await_from
stops_lem child left i answer (pgid p) e = elim (Bool-cases (p == child)) [
  | inl t ↦ inl (rw (e, await_from, t) refl, subst (IsReady child) (sym e) ((==_iff p child).0 t))
  | inr f ↦ inr (
    rw (e, await_from, f) refl,
    λ r. let q : p ≡ child = subst (IsReady child) e r in absurd (grind (arith, q, f)),
  )
]
stops_lem child left i answer esrch e =
    inl (rw (e, await_from) refl, subst (IsReady child) (sym e) tt)
stops_lem child left i answer pgid_err e =
    inr (rw (e, await_from) refl, λ r. absurd (subst (IsReady child) e r))

pub await_from-Waits :
    (child left i last : ℕ) (answer : ℕ → PgidAnswer)
    → left + i ≡ last
    → Waits child answer i last (await_from child left i answer)
unfolding await_from
await_from-Waits child zero i last answer e =
    (omega arith, omega (arith, e), (λ j h k. absurd (omega (arith, h, k))), inl (omega (arith, e)))
await_from-Waits child (suc left) i last answer e =
    elim (stops_lem child left i answer (answer i) refl) [
      | inl (s, r) ↦
          subst (Waits child answer i last) (sym s)
            (omega arith, omega (arith, e), (λ j h k. absurd (omega (arith, h, k))), inr r)
      | inr (s, r) ↦
          let (lo, hi, slept, why) =
            await_from-Waits child left (suc i) last answer (omega (arith, e)) in
          subst (Waits child answer i last) (sym s) (
            omega (arith, lo),
            hi,
            (λ j h k. elim (Bool-cases (j == i)) [
              | inl t ↦ subst (λ m. ¬ IsReady child (answer m)) (sym ((==_iff j i).0 t)) r
              | inr f ↦ slept j (grind (arith, h, f)) k
            ]),
            why,
          )
    ]
