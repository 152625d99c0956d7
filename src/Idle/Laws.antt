-- ===== src/Idle/Laws.antt =====
-- The watcher of jftermd/src/server.rs between the operations of other tasks on the registry.
use jfterm_muxer.Base.{
  ℕ, ◌≡◌, ◌≢◌, refl, sym, ap, ◌∙◌, subst, ◌⊎◌, inl, inr, Bool, true, false, Option, none, some,
  List, [], ◌∷◌, if◌then◌else◌, if-elim, Bool-cases, Option-cases, ◌>>=◌, All,
}
use jfterm_muxer.Registry.{
  Registry, erase, with_max_sessions, attach_or_create, remove, is_empty, wait_for_change,
}
use jfterm_muxer.Registry.Invariant.{attach_or_create-woken}
use jfterm_muxer.Idle.{
  Watch, first, top, asleep, waiting, idle, watch, Move, bind, end, watcher, step_watch, move,
  moves,
}

-- In the second loop a watcher that waits while the table is empty has a permit to go on.
abbrev pub IsAwake : Watch → Registry → Type 0
IsAwake waiting r = is_empty r ≡ true → r.ended ≡ true
IsAwake _ r = Unit {0}

abbrev IsAwakePair : Watch × Registry → Type 0
IsAwakePair x = IsAwake x.0 x.1

woken-IsAwake :
    (w : Watch) (r r' : Registry) → (r'.ended ≡ true) ⊎ (r' ≡ r) → IsAwake w r → IsAwake w r'
woken-IsAwake first r r' k a = tt
woken-IsAwake top r r' k a = tt
woken-IsAwake asleep r r' k a = tt
woken-IsAwake waiting r r' (inl e) a = λ z. e
woken-IsAwake waiting r r' (inr e) a = subst (IsAwake waiting) (sym e) a
woken-IsAwake idle r r' k a = tt

abbrev Goes : Option (Watch × Registry) → Type 0
Goes none = Unit {0}
Goes (some x) = IsAwake x.0 x.1

false_is_not : (b : Bool) → b ≡ false → b ≢ true
false_is_not b e k = let z : false ≡ true = sym e ∙ k in cc

first-Goes : (o : Option Registry) → Goes (o >>= (λ r'. some (first, r')))
first-Goes none = tt
first-Goes (some r') = tt

top-Goes : (o : Option Registry) → Goes (o >>= (λ r'. some (top, r')))
top-Goes none = tt
top-Goes (some r') = tt

watch-Goes : (w : Watch) (r : Registry) → Goes (watch w r)
unfolding watch
watch-Goes first r = if-elim Goes (is_empty r) _ _ (λ t. first-Goes (wait_for_change r)) (λ f. tt)
watch-Goes top r =
    if-elim Goes (is_empty r) _ _ (λ t. tt) (λ f k. absurd (false_is_not (is_empty r) f k))
watch-Goes asleep r =
    if-elim Goes (is_empty r) _ _ (λ t. tt) (λ f k. absurd (false_is_not (is_empty r) f k))
watch-Goes waiting r = top-Goes (wait_for_change r)
watch-Goes idle r = tt

step_watch_lem :
    (w : Watch) (r : Registry) (o : Option (Watch × Registry))
    → watch w r ≡ o
    → step_watch w r ≡ (elim o [ some (w', r') ↦ (w', r') | none ↦ (w, r) ])
unfolding step_watch
step_watch_lem w r o e = rw (e, step_watch) refl

step_watch-IsAwake : (w : Watch) (r : Registry) → IsAwake w r → IsAwakePair (step_watch w r)
step_watch-IsAwake w r a = elim (Option-cases (watch w r)) [
  | inl n ↦ subst IsAwakePair (sym (step_watch_lem w r none n)) a
  | inr (x, e) ↦
      subst IsAwakePair (sym (step_watch_lem w r (some x) e)) (subst Goes e (watch-Goes w r))
]

moves-IsAwake :
    (w : Watch) (r : Registry) (ms : List Move) → IsAwake w r → IsAwakePair (moves w r ms)
unfolding moves move
moves-IsAwake w r [] a = a
moves-IsAwake w r (bind id ∷ ms) a =
    moves-IsAwake w (attach_or_create r id).1 ms
      (woken-IsAwake w r _ (attach_or_create-woken r id) a)
moves-IsAwake w r (end id ∷ ms) a =
    moves-IsAwake w (remove r id) ms
      (woken-IsAwake w r (remove r id) (inl (unfold remove in refl)) a)
moves-IsAwake w r (watcher ∷ ms) a =
    moves-IsAwake (step_watch w r).0 (step_watch w r).1 ms (step_watch-IsAwake w r a)

-- Why a watcher may not go on.
abbrev pub IsStuck : Watch → Registry → Type 0
IsStuck first r = is_empty r ≡ true
IsStuck waiting r = is_empty r ≡ false
IsStuck idle r = Unit {0}
IsStuck top r = ⊥
IsStuck asleep r = ⊥

wait_none : (r : Registry) → wait_for_change r ≡ none → r.ended ≡ false
unfolding wait_for_change
wait_none r e = elim (Bool-cases r.ended) [
  | inl t ↦ let z : some (record r { ended = false }) ≡ none = sym (rw t refl) ∙ e in cc
  | inr f ↦ f
]

some_is_not : (x : Watch × Registry) → some x ≢ none
some_is_not x e = cc

stuck_first : (r : Registry) → watch first r ≡ none → is_empty r ≡ true
unfolding watch
stuck_first r =
    if-elim (λ o. o ≡ none → is_empty r ≡ true) (is_empty r) _ _ (λ t e. t)
      (λ f e. absurd (some_is_not (top, r) e))

stuck_top : (r : Registry) → watch top r ≢ none
unfolding watch
stuck_top r =
    if-elim (λ o. o ≢ none) (is_empty r) _ _ (λ t. some_is_not (asleep, r))
      (λ f. some_is_not (waiting, r))

stuck_asleep : (r : Registry) → watch asleep r ≢ none
unfolding watch
stuck_asleep r =
    if-elim (λ o. o ≢ none) (is_empty r) _ _ (λ t. some_is_not (idle, r))
      (λ f. some_is_not (waiting, r))

abbrev to_top : Registry → Option (Watch × Registry)
to_top r = some (top, r)

bind_none : (o : Option Registry) → (o >>= to_top) ≡ none → o ≡ none
bind_none none e = refl
bind_none (some r) e = absurd (some_is_not (top, r) e)

stuck_lem : (w : Watch) (r : Registry) → IsAwake w r → watch w r ≡ none → IsStuck w r
stuck_lem first r a e = stuck_first r e
stuck_lem top r a e = stuck_top r e
stuck_lem asleep r a e = stuck_asleep r e
stuck_lem waiting r a e =
    let f = wait_none r (bind_none (wait_for_change r) (unfold watch in e)) in
    elim (Bool-cases (is_empty r)) [ inl t ↦ absurd (false_is_not r.ended f (a t)) | inr g ↦ g ]
stuck_lem idle r a e = tt

-- However other tasks open and end sessions between the watcher's steps, a watcher that cannot go on has
-- returned, or waits in its second loop at a table that has a session, or is in its first loop at an
-- empty table, whatever sessions came and went before.
pub moves-IsStuck :
    (max : ℕ) (ms : List Move) (w : Watch) (r : Registry)
    → moves first (with_max_sessions max) ms ≡ (w, r)
    → watch w r ≡ none
    → IsStuck w r
moves-IsStuck max ms w r m e =
    stuck_lem w r (subst IsAwakePair m (moves-IsAwake first (with_max_sessions max) ms tt)) e

abbrev pub IsNoBind : Move → Type 0
IsNoBind (bind id) = ⊥
IsNoBind _ = Unit {0}

abbrev pub IsFirst : Watch × Registry → Type 0
IsFirst x = (x.0 ≡ first) × (x.1.sessions ≡ [])

empty_lem : (r : Registry) → r.sessions ≡ [] → is_empty r ≡ true
unfolding is_empty
empty_lem r e = rw (e, is_empty) refl

abbrev to_first : Registry → Option (Watch × Registry)
to_first r = some (first, r)

watch_empty : (r : Registry) → is_empty r ≡ true → watch first r ≡ (wait_for_change r >>= to_first)
unfolding watch
watch_empty r e = ap (λ b. if b then (wait_for_change r >>= to_first) else some (top, r)) e

wait_true : (r : Registry) → r.ended ≡ true → wait_for_change r ≡ some (record r { ended = false })
unfolding wait_for_change
wait_true r e = ap (λ b. if b then some (record r { ended = false }) else none) e

wait_false : (r : Registry) → r.ended ≡ false → wait_for_change r ≡ none
unfolding wait_for_change
wait_false r e = ap (λ b. if b then some (record r { ended = false }) else none) e

step-IsFirst : (r : Registry) → r.sessions ≡ [] → IsFirst (step_watch first r)
step-IsFirst r e =
    let w = watch_empty r (empty_lem r e) in
    elim (Bool-cases r.ended) [
      | inl t ↦
          let o : watch first r ≡ some (first, record r { ended = false }) =
            w ∙ ap (λ x. x >>= to_first) (wait_true r t) in
          subst IsFirst (sym (step_watch_lem first r (some (first, record r { ended = false })) o))
            (refl, e)
      | inr f ↦
          let o : watch first r ≡ none = w ∙ ap (λ x. x >>= to_first) (wait_false r f) in
          subst IsFirst (sym (step_watch_lem first r none o)) (refl, e)
    ]

moves_first :
    (r : Registry) (ms : List Move) → r.sessions ≡ [] → All IsNoBind ms → IsFirst (moves first r ms)
unfolding moves move remove
moves_first r [] e a = (refl, e)
moves_first r (bind id ∷ ms) e a = absurd a.0
moves_first r (end id ∷ ms) e a =
    moves_first (remove r id) ms (ap (erase id) e ∙ (unfold erase in refl)) a.1
moves_first r (watcher ∷ ms) e a =
    let (w, e') = step-IsFirst r e in
    subst (λ x. IsFirst (moves x (step_watch first r).1 ms)) (sym w)
      (moves_first (step_watch first r).1 ms e' a.1)

-- A watcher of a new registry in which no session is ever opened stays in its first loop, whatever
-- removals come: a daemon that has had no session does not end.
pub moves-IsFirst :
    (max : ℕ) (ms : List Move) → All IsNoBind ms → IsFirst (moves first (with_max_sessions max) ms)
moves-IsFirst max ms a = moves_first (with_max_sessions max) ms refl a
