-- ===== src/Pty/Spawn/Laws.antt =====
-- When `Pty::spawn` of jftermd/src/pty.rs forks, and what its wait for the child does.
use jfterm_muxer.Base.{
  ℕ, ◌≡◌, refl, inl, inr, ◌⊎◌, Bool, true, false, none, some, List, [], ◌∷◌, ◌++◌, arith,
  if◌then◌else◌, ◌||◌, if-elim, Bool-cases, ◌>>=◌,
}
use jfterm_muxer.Protocol.{Result, ok, err}
use jfterm_muxer.Pty.Spawn.{
  Winsize, has_nul, c_string, c_strings, Vars, inherited, forced, Program, not_empty, args_of,
  program, pgid_rounds, await_own_process_group, SpawnError, invalid_input, os_error, SpawnAction,
  fork, set_nonblocking, set_cloexec, wait_for_group, Kernel, after_cloexec, after_nonblocking,
  after_fork, launch, spawn,
}
use jfterm_muxer.Pty.Spawn.Group.{Waits, await_from-Waits}

abbrev pub any_nul : List (List ℕ) → Bool
any_nul [] = false
any_nul (s ∷ ss) = has_nul s || any_nul ss

abbrev pub is_nil : List (List ℕ) → Bool
is_nil [] = true
is_nil (s ∷ ss) = false

-- The command is empty, or a NUL stands in it, in a variable that is handed on, or in the directory.
abbrev pub is_bad : List (List ℕ) → Vars → List ℕ → Bool
is_bad argv vars cwd =
    if any_nul argv
    then true
    else if is_nil argv
    then true
    else if any_nul (inherited vars)
    then true
    else has_nul cwd

c_strings_lem : (ss : List (List ℕ)) → c_strings ss ≡ (if any_nul ss then none else some ss)
unfolding c_strings c_string
c_strings_lem [] = refl
c_strings_lem (s ∷ ss) = elim (Bool-cases (has_nul s)) [
  | inl t ↦ rw t refl
  | inr f ↦ rw (f, c_strings_lem ss) (rest (any_nul ss))
]
  where
    rest :
        (b : Bool)
        → ((if b then none else some ss) >>= (λ cs. some (s ∷ cs)))
          ≡ (if b then none else some (s ∷ ss))
    rest true = refl
    rest false = refl

abbrev pub clean_program : List (List ℕ) → Vars → List ℕ → Program
clean_program argv vars cwd = record { argv = argv; env = inherited vars ++ forced; cwd = cwd }

program_lem :
    (args : List (List ℕ)) (vars : Vars) (cwd : List ℕ)
    → program args vars cwd ≡ (
        if (if any_nul (inherited vars) then true else has_nul cwd)
        then none
        else some (clean_program args vars cwd))
unfolding program c_string
program_lem args vars cwd = elim (Bool-cases (any_nul (inherited vars))) [
  | inl t ↦ rw (c_strings_lem (inherited vars), t) refl
  | inr f ↦ elim (Bool-cases (has_nul cwd)) [
    | inl t ↦ rw (c_strings_lem (inherited vars), f, t) refl
    | inr g ↦ rw (c_strings_lem (inherited vars), f, g) refl
  ]
]

args_of_cons :
    (a : List ℕ) (argv : List (List ℕ))
    → args_of (a ∷ argv) ≡ (if any_nul (a ∷ argv) then none else some (a ∷ argv))
unfolding args_of not_empty
args_of_cons a argv = elim (Bool-cases (any_nul (a ∷ argv))) [
  | inl t ↦ rw (c_strings_lem (a ∷ argv), t) refl
  | inr f ↦ rw (c_strings_lem (a ∷ argv), f) refl
]

spawn_lem :
    (argv : List (List ℕ)) (vars : Vars) (cwd : List ℕ) (ws : Winsize) (k : Kernel)
    → spawn argv (some vars) cwd ws k
      ≡ some (
          if is_bad argv vars cwd
          then (err invalid_input, [])
          else after_fork k (fork (clean_program argv vars cwd) ws ∷ []) k.forkpty)
unfolding spawn launch args_of not_empty c_strings
spawn_lem [] vars cwd ws k = refl
spawn_lem (a ∷ argv) vars cwd ws k = elim (Bool-cases (any_nul (a ∷ argv))) [
  | inl t ↦ rw (args_of_cons a argv, spawn, t) refl
  | inr f ↦ elim (Bool-cases (if any_nul (inherited vars) then true else has_nul cwd)) [
    | inl t ↦ rw (args_of_cons a argv, spawn, f, program_lem (a ∷ argv) vars cwd, t) refl
    | inr g ↦ rw (args_of_cons a argv, spawn, f, program_lem (a ∷ argv) vars cwd, g) refl
  ]
]

-- What `spawn` did, by its result.
abbrev pub Spawned :
    List (List ℕ)
    → Vars
    → List ℕ
    → Winsize
    → Kernel
    → Result SpawnError ℕ × List SpawnAction
    → Type 0
Spawned argv vars cwd ws k (ok child, actions) =
    (is_bad argv vars cwd ≡ false)
    × (k.forkpty ≡ ok child)
    × ((n : ℕ) × (actions
          ≡ fork (clean_program argv vars cwd) ws
            ∷ (set_nonblocking ∷ (set_cloexec ∷ (wait_for_group n ∷ []))))
        × Waits child k.group 0 pgid_rounds n)
Spawned argv vars cwd ws k (err invalid_input, actions) =
    (is_bad argv vars cwd ≡ true) × (actions ≡ [])
Spawned argv vars cwd ws k (err (os_error e), actions) =
    (is_bad argv vars cwd ≡ false)
    × ((k.forkpty ≡ err e) ⊎ (k.nonblocking ≡ err e) ⊎ (k.cloexec ≡ err e))

cloexec-Spawned :
    (argv : List (List ℕ)) (vars : Vars) (cwd : List ℕ) (ws : Winsize) (k : Kernel) (child : ℕ)
    (r : Result ℕ Unit)
    → is_bad argv vars cwd ≡ false
    → k.forkpty ≡ ok child
    → k.cloexec ≡ r
    → Spawned argv vars cwd ws k (
        after_cloexec k child
          (fork (clean_program argv vars cwd) ws ∷ (set_nonblocking ∷ (set_cloexec ∷ [])))
          r)
unfolding after_cloexec await_own_process_group
cloexec-Spawned argv vars cwd ws k child (ok u) b f c = (
  b,
  f,
  (
    await_own_process_group child k.group,
    refl,
    await_from-Waits child pgid_rounds 0 pgid_rounds k.group (omega arith),
  ),
)
cloexec-Spawned argv vars cwd ws k child (err e) b f c = (b, inr (inr c))

nonblocking-Spawned :
    (argv : List (List ℕ)) (vars : Vars) (cwd : List ℕ) (ws : Winsize) (k : Kernel) (child : ℕ)
    (r : Result ℕ Unit)
    → is_bad argv vars cwd ≡ false
    → k.forkpty ≡ ok child
    → k.nonblocking ≡ r
    → Spawned argv vars cwd ws k (
        after_nonblocking k child
          (fork (clean_program argv vars cwd) ws ∷ (set_nonblocking ∷ []))
          r)
unfolding after_nonblocking
nonblocking-Spawned argv vars cwd ws k child (ok u) b f c =
    cloexec-Spawned argv vars cwd ws k child k.cloexec b f refl
nonblocking-Spawned argv vars cwd ws k child (err e) b f c = (b, inr (inl c))

fork-Spawned :
    (argv : List (List ℕ)) (vars : Vars) (cwd : List ℕ) (ws : Winsize) (k : Kernel) (r : Result ℕ ℕ)
    → is_bad argv vars cwd ≡ false
    → k.forkpty ≡ r
    → Spawned argv vars cwd ws k (after_fork k (fork (clean_program argv vars cwd) ws ∷ []) r)
unfolding after_fork
fork-Spawned argv vars cwd ws k (ok child) b f =
    nonblocking-Spawned argv vars cwd ws k child k.nonblocking b f refl
fork-Spawned argv vars cwd ws k (err e) b f = (b, inl f)

-- With an environment in Unicode, `spawn` always gives a result. It fails as invalid input exactly
-- when the command is empty or a NUL stands in what the child would be given, and has then not forked;
-- any other failure is that of a call to the kernel. When it succeeds, it has forked the command with
-- its environment in the directory at the size, has made the master non-blocking and close-on-exec,
-- and has slept only in rounds, at most 200, that found the child neither gone nor leading its group.
pub spawn-Spawned :
    (argv : List (List ℕ)) (vars : Vars) (cwd : List ℕ) (ws : Winsize) (k : Kernel)
    → (x : Result SpawnError ℕ × List SpawnAction) × (spawn argv (some vars) cwd ws k ≡ some x)
      × Spawned argv vars cwd ws k x
spawn-Spawned argv vars cwd ws k = (
  (if is_bad argv vars cwd
      then (err invalid_input, [])
      else after_fork k (fork (clean_program argv vars cwd) ws ∷ []) k.forkpty),
  spawn_lem argv vars cwd ws k,
  if-elim (Spawned argv vars cwd ws k) (is_bad argv vars cwd) _ _ (λ t. (t, refl))
      (λ f. fork-Spawned argv vars cwd ws k k.forkpty f refl),
)
