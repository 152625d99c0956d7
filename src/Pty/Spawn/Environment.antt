-- ===== src/Pty/Spawn/Environment.antt =====
-- The environment of a new shell (`Pty::spawn` of jftermd/src/pty.rs).
use jfterm_muxer.Base.{
  none_is_not_some, ℕ, ◌==◌, ◌≡◌, ◌≢◌, refl, sym, ap, ◌∙◌, subst, inl, inr, Bool, true, false,
  Option, none, some, some-injective, List, [], ◌∷◌, ◌++◌, append-nil, arith, if◌then◌else◌, bytes,
  bytes_eq, bytes_eq_iff, Bool-cases, >>=-eq-some,
}
use jfterm_muxer.Pty.Spawn.{
  has_nul, c_string, c_strings, Vars, is_kept, inherited, forced, Program, program,
}

-- What follows a prefix.
after_prefix : List ℕ → List ℕ → Option (List ℕ)
after_prefix [] s = some s
after_prefix (x ∷ xs) [] = none
after_prefix (x ∷ xs) (b ∷ bs) = let rest = after_prefix xs bs in if x == b then rest else none

cons_some : Option (List ℕ) → List (List ℕ) → List (List ℕ)
cons_some none vs = vs
cons_some (some v) vs = v ∷ vs

-- The values that an environment of `k=v` strings has for a name.
unfoldable pub values : List ℕ → List (List ℕ) → List (List ℕ)
unfolding after_prefix cons_some
values name [] = []
values name (s ∷ env) = cons_some (after_prefix (name ++ (61 ∷ [])) s) (values name env)

-- The values of a name among the variables.
abbrev pub values_of : List ℕ → Vars → List (List ℕ)
values_of name [] = []
values_of name ((k, v) ∷ vars) =
    if bytes_eq k name then v ∷ values_of name vars else values_of name vars

-- The name of a variable has no `=` in it.
abbrev pub IsName : List ℕ → Type 0
IsName [] = Unit {0}
IsName (b ∷ bs) = ((b == 61) ≡ false) × IsName bs

prefix_lem :
    (name k v : List ℕ)
    → IsName name
    → IsName k
    → after_prefix (name ++ (61 ∷ [])) (k ++ (61 ∷ v)) ≡ (if bytes_eq k name then some v else none)
unfolding after_prefix bytes_eq
prefix_lem [] [] v n h = refl
prefix_lem [] (b ∷ k) v n h = ground (arith, h.0)
prefix_lem (x ∷ name) [] v n h = ground (arith, n.0)
prefix_lem (x ∷ name) (b ∷ k) v n h = ground (arith, prefix_lem name k v n.1 h.1)

values_cons :
    (name k v : List ℕ) (env : List (List ℕ))
    → IsName name
    → IsName k
    → values name ((k ++ (61 ∷ v)) ∷ env)
      ≡ (if bytes_eq k name then v ∷ values name env else values name env)
unfolding values cons_some
values_cons name k v env n h =
    ap (λ o. cons_some o (values name env)) (prefix_lem name k v n h) ∙ pick (bytes_eq k name)
  where
    pick :
        (b : Bool)
        → cons_some (if b then some v else none) (values name env)
          ≡ (if b then v ∷ values name env else values name env)
    pick true = refl
    pick false = refl

cons_some-append :
    (o : Option (List ℕ)) (xs ys : List (List ℕ)) → cons_some o (xs ++ ys) ≡ cons_some o xs ++ ys
unfolding cons_some
cons_some-append none xs ys = refl
cons_some-append (some v) xs ys = refl

values-append :
    (name : List ℕ) (xs ys : List (List ℕ))
    → values name (xs ++ ys) ≡ values name xs ++ values name ys
unfolding values
values-append name [] ys = refl
values-append name (x ∷ xs) ys =
    ap (cons_some (after_prefix (name ++ (61 ∷ [])) x)) (values-append name xs ys)
    ∙ cons_some-append (after_prefix (name ++ (61 ∷ [])) x) (values name xs) (values name ys)

abbrev pub Names : Vars → Type 0
Names [] = Unit {0}
Names ((k, v) ∷ vars) = IsName k × Names vars

inherited_cons :
    (k v : List ℕ) (vars : Vars)
    → inherited ((k, v) ∷ vars)
      ≡ (if is_kept k then (k ++ (61 ∷ v)) ∷ inherited vars else inherited vars)
unfolding inherited
inherited_cons k v vars = refl

is_kept_same : (k name : List ℕ) → bytes_eq k name ≡ true → is_kept k ≡ is_kept name
is_kept_same k name e = ap is_kept ((bytes_eq_iff k name).0 e)

false_is_not_true : false ≢ true
false_is_not_true e = cc

kept_lem :
    (same kept : Bool) (v : List ℕ) (xs ys : List (List ℕ))
    → (same ≡ true → kept ≡ true)
    → xs ≡ (if kept then ys else [])
    → (if same then v ∷ xs else xs) ≡ (if kept then (if same then v ∷ ys else ys) else [])
kept_lem true true v xs ys h e = ap (◌∷◌ v) e
kept_lem true false v xs ys h e = absurd (false_is_not_true (h refl))
kept_lem false true v xs ys h e = e
kept_lem false false v xs ys h e = e

dropped_lem :
    (same kept : Bool) (v : List ℕ) (ys : List (List ℕ))
    → (same ≡ true → kept ≡ false)
    → (if kept then ys else []) ≡ (if kept then (if same then v ∷ ys else ys) else [])
dropped_lem true true v ys h = absurd (false_is_not_true (sym (h refl)))
dropped_lem true false v ys h = refl
dropped_lem false true v ys h = refl
dropped_lem false false v ys h = refl

-- A name that is kept has the values it had, and the others have none.
values-inherited :
    (name : List ℕ) (vars : Vars)
    → IsName name
    → Names vars
    → values name (inherited vars) ≡ (if is_kept name then values_of name vars else [])
unfolding values inherited
values-inherited name [] n h = ground arith
values-inherited name ((k, v) ∷ vars) n h =
    let ih = values-inherited name vars n h.1 in
    let same = is_kept_same k name in
    elim (Bool-cases (is_kept k)) [
      | inl t ↦ rw t (
          values_cons name k v (inherited vars) n h.0
          ∙ kept_lem (bytes_eq k name) (is_kept name) v _ _ (λ e. sym (same e) ∙ t) ih)
      | inr f ↦ rw f (ih ∙ dropped_lem (bytes_eq k name) (is_kept name) v _ (λ e. sym (same e) ∙ f))
    ]

c_string_lem : (s c : List ℕ) → c_string s ≡ some c → s ≡ c
unfolding c_string
c_string_lem s c e = elim (Bool-cases (has_nul s)) [
  | inl t ↦ absurd (none_is_not_some c (sym (rw t refl) ∙ e))
  | inr f ↦ let q : some s ≡ some c = sym (rw f refl) ∙ e in some-injective _ _ q
]

c_strings_lem : (ss cs : List (List ℕ)) → c_strings ss ≡ some cs → ss ≡ cs
unfolding c_strings
c_strings_lem [] cs e = some-injective _ _ e
c_strings_lem (s ∷ ss) cs e =
    let (c, f, g) = >>=-eq-some (c_string s) _ e in
    let (ds, h, k) = >>=-eq-some (c_strings ss) _ g in
    let q : c ∷ ds ≡ cs = some-injective _ _ k in
    (λ i. c_string_lem s c f i ∷ c_strings_lem ss ds h i) ∙ q

-- The environment of a program is the inherited one and the forced variables.
program-env :
    (args : List (List ℕ)) (vars : Vars) (cwd : List ℕ) (p : Program)
    → program args vars cwd ≡ some p
    → p.env ≡ inherited vars ++ forced
unfolding program
program-env args vars cwd p e =
    let (env_c, f, g) = >>=-eq-some (c_strings (inherited vars)) _ e in
    let (cwd_c, h, k) = >>=-eq-some (c_string cwd) _ g in
    let q : record { argv = args; env = env_c ++ forced; cwd = cwd_c } ≡ p = some-injective _ _ k in
    sym (ap (λ (x : Program). x.env) q)
    ∙ ap (λ c. c ++ forced) (sym (c_strings_lem (inherited vars) env_c f))

-- The names of the forced variables, as tests of a name.
is_term : List ℕ → Bool
is_term name = bytes_eq (bytes "TERM") name

is_color : List ℕ → Bool
is_color name = bytes_eq (bytes "COLORTERM") name

values-forced :
    (name : List ℕ)
    → IsName name
    → values name forced ≡ (
        if is_term name
        then bytes "xterm-256color" ∷ (if is_color name then bytes "truecolor" ∷ [] else [])
        else (if is_color name then bytes "truecolor" ∷ [] else []))
unfolding values is_term is_color
values-forced name n =
    values_cons name (bytes "TERM") (bytes "xterm-256color") (bytes "COLORTERM=truecolor" ∷ []) n
      (ground arith)
    ∙ ap (λ r. if bytes_eq (bytes "TERM") name then bytes "xterm-256color" ∷ r else r)
        (values_cons name (bytes "COLORTERM") (bytes "truecolor") [] n (ground arith))

term_lem : (name : List ℕ) → is_term name ≡ true → (is_kept name ≡ false) × (is_color name ≡ false)
unfolding is_term is_color is_kept bytes_eq
term_lem name e =
    subst (λ k. (is_kept k ≡ false) × (is_color k ≡ false)) ((bytes_eq_iff (bytes "TERM") name).0 e)
      (refl, refl)

color_lem : (name : List ℕ) → is_color name ≡ true → is_kept name ≡ false
unfolding is_color is_kept bytes_eq
color_lem name e = subst (λ k. is_kept k ≡ false) ((bytes_eq_iff (bytes "COLORTERM") name).0 e) refl

other_lem : (name : List ℕ) → is_term name ≡ false → is_color name ≡ false → is_kept name ≡ true
unfolding is_term is_color is_kept
other_lem name t c = ground (
  arith,
  t,
  c,
  bytes_eq_iff (bytes "TERM") name,
  bytes_eq_iff (bytes "COLORTERM") name,
  bytes_eq_iff name (bytes "TERM"),
  bytes_eq_iff name (bytes "COLORTERM"),
)

-- The values that a shell finds.
abbrev pub seen_values : List ℕ → Vars → List (List ℕ)
seen_values name vars =
    if bytes_eq (bytes "TERM") name
    then bytes "xterm-256color" ∷ []
    else if bytes_eq (bytes "COLORTERM") name
    then bytes "truecolor" ∷ []
    else values_of name vars

seen_lem :
    (name : List ℕ) (vars : Vars)
    → (if is_kept name then values_of name vars else [])
        ++ (if is_term name
            then bytes "xterm-256color" ∷ (if is_color name then bytes "truecolor" ∷ [] else [])
            else (if is_color name then bytes "truecolor" ∷ [] else []))
      ≡ seen_values name vars
unfolding is_term is_color
seen_lem name vars = elim (Bool-cases (is_term name)) [
  | inl t ↦ let (k, c) = term_lem name t in rw (k, t, c) refl
  | inr f ↦ elim (Bool-cases (is_color name)) [
    | inl c ↦ rw (color_lem name c, f, c) refl
    | inr g ↦ rw (other_lem name f g, f, g) (append-nil (values_of name vars))
  ]
]

-- Whatever the daemon's environment, a new shell finds exactly one TERM, `xterm-256color`, exactly
-- one COLORTERM, `truecolor`, and every other variable as the daemon has it. Names have no `=`.
pub program-values :
    (args : List (List ℕ)) (vars : Vars) (cwd name : List ℕ) (p : Program)
    → Names vars
    → IsName name
    → program args vars cwd ≡ some p
    → values name p.env ≡ seen_values name vars
program-values args vars cwd name p h n e =
    ap (values name) (program-env args vars cwd p e)
    ∙ (values-append name (inherited vars) forced
        ∙ ((λ i. values-inherited name vars n h i ++ values-forced name n i) ∙ seen_lem name vars))
