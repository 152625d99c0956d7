-- ===== src/Pty/Spawn.antt =====
-- `Pty::spawn` and `winsize` of jftermd/src/pty.rs: what the parent prepares for the child, and in
-- which order it asks the kernel.
pub mod Environment
pub mod Laws
pub mod Group
pub mod Tests
use jfterm_muxer.Base.{
  ℕ, zero, suc, ◌==◌, Bool, true, false, not, ◌||◌, ◌&&◌, Option, none, some, List, [], ◌∷◌, ◌++◌,
  if◌then◌else◌, bytes, bytes_eq, ◌>>=◌,
}
use jfterm_muxer.Protocol.{Result, ok, err}

pub record Winsize : Type 0 where
  pub ws_row : ℕ
  pub ws_col : ℕ
  pub ws_xpixel : ℕ
  pub ws_ypixel : ℕ

unfoldable pub winsize : ℕ → ℕ → Winsize
winsize cols rows = record { ws_row = rows; ws_col = cols; ws_xpixel = 0; ws_ypixel = 0 }

unfoldable pub has_nul : List ℕ → Bool
has_nul [] = false
has_nul (b ∷ bs) = (b == 0) || has_nul bs

-- `CString::new`; `none` is a NUL byte inside.
unfoldable pub c_string : List ℕ → Option (List ℕ)
unfolding has_nul
c_string s = if has_nul s then none else some s

-- `collect::<Result<_, _>>`.
unfoldable pub c_strings : List (List ℕ) → Option (List (List ℕ))
unfolding c_string
c_strings [] = some []
c_strings (s ∷ ss) = do c ← c_string s; cs ← c_strings ss; some (c ∷ cs)

abbrev pub Vars : Type 0
Vars = List (List ℕ × List ℕ)

-- `filter`, and `k=v` for the variables that are kept.
unfoldable pub is_kept : List ℕ → Bool
is_kept k = not (bytes_eq k (bytes "TERM")) && not (bytes_eq k (bytes "COLORTERM"))

unfoldable pub inherited : Vars → List (List ℕ)
unfolding is_kept
inherited [] = []
inherited ((k, v) ∷ vars) =
    let rest = inherited vars in if is_kept k then (k ++ (61 ∷ v)) ∷ rest else rest

abbrev pub forced : List (List ℕ)
forced = bytes "TERM=xterm-256color" ∷ (bytes "COLORTERM=truecolor" ∷ [])

-- What the child hands to `chdir` and `execvpe`.
pub record Program : Type 0 where
  pub argv : List (List ℕ)
  pub env : List (List ℕ)
  pub cwd : List ℕ

not_empty : List (List ℕ) → Option (List (List ℕ))
not_empty [] = none
not_empty (a ∷ argv) = some (a ∷ argv)

-- The arguments, and then the environment and the directory; `none` is `InvalidInput`.
unfoldable pub args_of : List (List ℕ) → Option (List (List ℕ))
unfolding c_strings not_empty
args_of argv = do argv_c ← c_strings argv; not_empty argv_c

unfoldable pub program : List (List ℕ) → Vars → List ℕ → Option Program
unfolding c_strings inherited
program args vars cwd = do
  env_c ← c_strings (inherited vars)
  cwd_c ← c_string cwd
  some (record { argv = args; env = env_c ++ forced; cwd = cwd_c })

-- What `getpgid` answers for the child; `pgid_err` is any error but `ESRCH`.
pub data PgidAnswer : Type 0 where
  pgid : ℕ → PgidAnswer
  esrch pgid_err : PgidAnswer

abbrev pub pgid_rounds : ℕ
pgid_rounds = 200

-- The wait with the rounds that are left; the result is the number of rounds slept.
unfoldable pub await_from : ℕ → ℕ → ℕ → (ℕ → PgidAnswer) → ℕ
await_from child zero i answer = i
await_from child (suc left) i answer =
    let later = await_from child left (suc i) answer in
    elim (answer i) [ pgid p ↦ if p == child then i else later | esrch ↦ i | pgid_err ↦ later ]

unfoldable pub await_own_process_group : ℕ → (ℕ → PgidAnswer) → ℕ
unfolding await_from
await_own_process_group child answer = await_from child pgid_rounds 0 answer

pub data SpawnError : Type 0 where
  invalid_input : SpawnError
  os_error : ℕ → SpawnError

pub data SpawnAction : Type 0 where
  fork : Program → Winsize → SpawnAction
  set_nonblocking set_cloexec : SpawnAction
  wait_for_group : ℕ → SpawnAction

-- The answers of the kernel: the child's pid from `forkpty`, those of the two `fcntl`, and the
-- process group of the child in each round.
pub record Kernel : Type 0 where
  pub forkpty : Result ℕ ℕ
  pub nonblocking : Result ℕ Unit
  pub cloexec : Result ℕ Unit
  pub group : ℕ → PgidAnswer

after_cloexec :
    Kernel → ℕ → List SpawnAction → Result ℕ Unit → Result SpawnError ℕ × List SpawnAction
after_cloexec k child done (ok u) =
    (ok child, done ++ (wait_for_group (await_own_process_group child k.group) ∷ []))
after_cloexec k child done (err e) = (err (os_error e), done)

after_nonblocking :
    Kernel → ℕ → List SpawnAction → Result ℕ Unit → Result SpawnError ℕ × List SpawnAction
unfolding after_cloexec
after_nonblocking k child done (ok u) = after_cloexec k child (done ++ (set_cloexec ∷ [])) k.cloexec
after_nonblocking k child done (err e) = (err (os_error e), done)

after_fork : Kernel → List SpawnAction → Result ℕ ℕ → Result SpawnError ℕ × List SpawnAction
unfolding after_nonblocking
after_fork k done (ok child) =
    after_nonblocking k child (done ++ (set_nonblocking ∷ [])) k.nonblocking
after_fork k done (err e) = (err (os_error e), done)

launch : Winsize → Kernel → Option Program → Result SpawnError ℕ × List SpawnAction
unfolding after_fork
launch ws k none = (err invalid_input, [])
launch ws k (some p) = after_fork k (fork p ws ∷ []) k.forkpty

-- The parent's side: the child's pid, and what was asked of the kernel. `vars` is `std::env::vars`; it
-- panics, here `none`, when a variable is not Unicode.
unfoldable pub spawn :
    List (List ℕ)
    → Option Vars
    → List ℕ
    → Winsize
    → Kernel
    → Option (Result SpawnError ℕ × List SpawnAction)
unfolding args_of program launch
spawn argv vars cwd ws k = elim (args_of argv) [
  | none ↦ some (err invalid_input, [])
  | some args ↦ elim vars [ none ↦ none | some vs ↦ some (launch ws k (program args vs cwd)) ]
]
