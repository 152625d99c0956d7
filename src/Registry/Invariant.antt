-- ===== src/Registry/Invariant.antt =====
-- jftermd/src/registry.rs: what every sequence of operations on the table of sessions keeps, and
-- what one operation answers.
use jfterm_muxer.Base.{
  ℕ, suc, ◌≤◌, ◌<◌, ◌≡◌, refl, sym, ap, subst, inl, inr, true, none, some, List, [], ◌∷◌, arith,
  leb, length, if◌then◌else◌, bytes_eq, bytes_eq_iff, Bool-cases, if-elim, ◌⊎◌, Option-cases,
}
use jfterm_muxer.Registry.{
  Table, get, erase, Registry, with_max_sessions, Bind, existing, created, rejected, create,
  attach_or_create, remove, wait_for_change,
}
use jfterm_muxer.Registry.Laws.{IsDistinct, get-erase, erase-IsDistinct, length-erase-le}

-- Every channel of the table was made before.
abbrev pub IsBelow : ℕ → Table → Type 0
IsBelow n m = (key : List ℕ) (tx : ℕ) → get key m ≡ some tx → tx < n

-- No two ids have the same channel.
abbrev pub IsSeparate : Table → Type 0
IsSeparate m = (a b : List ℕ) (tx : ℕ) → get a m ≡ some tx → get b m ≡ some tx → a ≡ b

abbrev pub IsValid : ℕ → Registry → Type 0
IsValid max r =
    (r.max_sessions ≡ max)
    × (length r.sessions ≤ max)
    × IsDistinct r.sessions
    × IsBelow r.next_channel r.sessions
    × IsSeparate r.sessions

pub data Op : Type 0 where
  bind end : List ℕ → Op
  wait : Op

abbrev pub step : Registry → Op → Registry
step r (bind id) = (attach_or_create r id).1
step r (end id) = remove r id
step r wait = elim (wait_for_change r) [ some r' ↦ r' | none ↦ r ]

abbrev pub run : Registry → List Op → Registry
run r [] = r
run r (op ∷ ops) = run (step r op) ops

get-erase-some :
    (id key : List ℕ) (m : Table) (tx : ℕ)
    → IsDistinct m
    → get key (erase id m) ≡ some tx
    → get key m ≡ some tx
get-erase-some id key m tx d e = ground (arith, get-erase id key m d, e)

get_cons :
    (id key : List ℕ) (n : ℕ) (m : Table)
    → get key ((id, n) ∷ m) ≡ (if bytes_eq id key then some n else get key m)
unfolding get
get_cons id key n m = refl

cons-IsBelow : (id : List ℕ) (n : ℕ) (m : Table) → IsBelow n m → IsBelow (suc n) ((id, n) ∷ m)
cons-IsBelow id n m h key tx e = elim (Bool-cases (bytes_eq id key)) [
  | inl t ↦ grind (arith, get_cons id key n m, t, e)
  | inr f ↦ grind (arith, get_cons id key n m, f, e, h key tx)
]

cons-IsSeparate :
    (id : List ℕ) (n : ℕ) (m : Table) → IsBelow n m → IsSeparate m → IsSeparate ((id, n) ∷ m)
cons-IsSeparate id n m h s a b tx ea eb = ground (
  arith,
  get_cons id a n m,
  get_cons id b n m,
  bytes_eq_iff id a,
  bytes_eq_iff id b,
  h a tx,
  h b tx,
  s a b tx,
)

create-IsValid :
    (max : ℕ) (r : Registry) (id : List ℕ)
    → IsValid max r
    → get id r.sessions ≡ none
    → IsValid max (create r id).1
unfolding create
create-IsValid max r id (em, le, d, b, s) e =
    elim (Bool-cases (leb r.max_sessions (length r.sessions))) [
      | inl t ↦ rw (t) (em, le, d, b, s)
      | inr f ↦ rw (f) (
        em,
        grind (arith, em, f),
        (e, d),
        cons-IsBelow id r.next_channel r.sessions b,
        cons-IsSeparate id r.next_channel r.sessions b s,
      )
    ]

attach_some :
    (r : Registry) (id : List ℕ) (tx : ℕ)
    → get id r.sessions ≡ some tx
    → attach_or_create r id ≡ (existing tx, r)
unfolding attach_or_create
attach_some r id tx e = rw (e, attach_or_create) refl

attach_none :
    (r : Registry) (id : List ℕ) → get id r.sessions ≡ none → attach_or_create r id ≡ create r id
unfolding attach_or_create
attach_none r id e = rw (e, attach_or_create) refl

pub bind-IsValid :
    (max : ℕ) (r : Registry) (id : List ℕ) → IsValid max r → IsValid max (attach_or_create r id).1
bind-IsValid max r id v = elim (Option-cases (get id r.sessions)) [
  | inl n ↦ rw (attach_none r id n) (create-IsValid max r id v n)
  | inr (tx, t) ↦ rw (attach_some r id tx t) v
]

pub remove-IsValid :
    (max : ℕ) (r : Registry) (id : List ℕ) → IsValid max r → IsValid max (remove r id)
unfolding remove
remove-IsValid max r id (em, le, d, b, s) = (
  em,
  omega (arith, length-erase-le id r.sessions),
  erase-IsDistinct id r.sessions d,
  (λ key tx e. b key tx (get-erase-some id key r.sessions tx d e)),
  (λ x y tx ex ey.
      s x y tx (get-erase-some id x r.sessions tx d ex) (get-erase-some id y r.sessions tx d ey)),
)

pub wait-IsValid : (max : ℕ) (r : Registry) → IsValid max r → IsValid max (step r wait)
unfolding wait_for_change
wait-IsValid max r v = elim (Bool-cases r.ended) [ inl t ↦ rw (t) v | inr f ↦ rw (f) v ]

pub step-IsValid : (max : ℕ) (r : Registry) (op : Op) → IsValid max r → IsValid max (step r op)
step-IsValid max r (bind id) v = bind-IsValid max r id v
step-IsValid max r (end id) v = remove-IsValid max r id v
step-IsValid max r wait v = wait-IsValid max r v

run-IsValid' : (max : ℕ) (r : Registry) (ops : List Op) → IsValid max r → IsValid max (run r ops)
run-IsValid' max r [] v = v
run-IsValid' max r (op ∷ ops) v = run-IsValid' max (step r op) ops (step-IsValid max r op v)

pub new-IsValid : (max : ℕ) → IsValid max (with_max_sessions max)
unfolding get
new-IsValid max =
    (refl, omega arith, tt, (λ key tx e. ground arith), (λ a b tx ea eb. ground arith))

-- Whatever operations run on a new table with a cap, in any order, the table holds no more sessions
-- than the cap, no id twice, only channels made so far, and no channel under two ids.
pub run-IsValid : (max : ℕ) (ops : List Op) → IsValid max (run (with_max_sessions max) ops)
run-IsValid max ops = run-IsValid' max (with_max_sessions max) ops (new-IsValid max)

-- What `attach_or_create` may answer for an id.
abbrev pub Bound : Registry → List ℕ → Bind × Registry → Type 0
Bound r id (existing tx, r') = (get id r.sessions ≡ some tx) × (r' ≡ r)
Bound r id (rejected, r') =
    (get id r.sessions ≡ none) × (r.max_sessions ≤ length r.sessions) × (r' ≡ r)
Bound r id (created tx, r') =
    (get id r.sessions ≡ none)
    × (length r.sessions < r.max_sessions)
    × (tx ≡ r.next_channel)
    × (r'.next_channel ≡ suc tx)
    × (r'.ended ≡ true)
    × ((key : List ℕ)
        → get key r'.sessions ≡ (if bytes_eq id key then some tx else get key r.sessions))
    × ((key : List ℕ) (old : ℕ) → get key r.sessions ≡ some old → old < tx)

create-Bound :
    (max : ℕ) (r : Registry) (id : List ℕ)
    → IsValid max r
    → get id r.sessions ≡ none
    → Bound r id (create r id)
unfolding create
create-Bound max r id (em, le, d, b, s) e =
    elim (Bool-cases (leb r.max_sessions (length r.sessions))) [
      | inl t ↦ rw (t) (e, grind (arith, t), refl)
      | inr f ↦ rw (f) (
        e,
        grind (arith, f),
        refl,
        refl,
        refl,
        (λ key. get_cons id key r.next_channel r.sessions),
        b,
      )
    ]

-- In a valid table, `attach_or_create` gives the channel of a session that is there, even at the
-- cap; refuses a new id exactly when the table is full, and then changes nothing; and otherwise
-- adds the id with a channel newer than all others, wakes the watcher, and leaves the other ids.
pub attach_or_create-Bound :
    (max : ℕ) (r : Registry) (id : List ℕ) → IsValid max r → Bound r id (attach_or_create r id)
attach_or_create-Bound max r id v = elim (Option-cases (get id r.sessions)) [
  | inl n ↦ subst (Bound r id) (sym (attach_none r id n)) (create-Bound max r id v n)
  | inr (tx, t) ↦ subst (Bound r id) (sym (attach_some r id tx t)) (t, refl)
]

-- In a valid table, `remove` takes its id away and no other, and wakes the watcher, also when the
-- id had no session.
pub remove-get :
    (max : ℕ) (r : Registry) (id key : List ℕ)
    → IsValid max r
    → (get key (remove r id).sessions ≡ (if bytes_eq id key then none else get key r.sessions))
      × ((remove r id).ended ≡ true)
unfolding remove
remove-get max r id key (em, le, d, b, s) = (get-erase id key r.sessions d, refl)

create-woken : (r : Registry) (id : List ℕ) → ((create r id).1.ended ≡ true) ⊎ ((create r id).1 ≡ r)
unfolding create
create-woken r id =
    if-elim (λ (x : Bind × Registry). (x.1.ended ≡ true) ⊎ (x.1 ≡ r))
      (leb r.max_sessions (length r.sessions)) _ _ (λ t. inr refl) (λ f. inl refl)

-- A new session leaves a permit for the watcher; any other answer leaves the registry as it was.
pub attach_or_create-woken :
    (r : Registry) (id : List ℕ)
    → ((attach_or_create r id).1.ended ≡ true) ⊎ ((attach_or_create r id).1 ≡ r)
attach_or_create-woken r id = elim (Option-cases (get id r.sessions)) [
  | inl n ↦
      subst (λ (x : Bind × Registry). (x.1.ended ≡ true) ⊎ (x.1 ≡ r)) (sym (attach_none r id n))
        (create-woken r id)
  | inr (tx, t) ↦ inr (ap (λ (x : Bind × Registry). x.1) (attach_some r id tx t))
]
