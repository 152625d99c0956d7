-- ===== src/Pty.antt =====
-- jftermd/src/pty.rs: what the master of a pseudo-terminal does with the kernel's answers. The
-- kernel is not modelled: each answer is an argument, and each request to it a `Request`.
pub mod Laws
pub mod Spawn
use jfterm_muxer.Base.{
  ℕ, zero, suc, ◌+◌, ◌==◌, Bool, true, false, not, Option, none, some, List, [], ◌∷◌, ◌++◌,
  if◌then◌else◌, length,
}
use jfterm_muxer.Protocol.{Result, ok, err}

-- A request to the kernel: a write to the master, its window size, a signal to the child's group, or a
-- wait for the child without `WNOHANG`.
pub data Request : Type 0 where
  write_master : List ℕ → Request
  set_winsize : ℕ → ℕ → Request
  sigwinch sighup sigkill wait_child : Request

-- What one `read` of the master answers; `read_err` is any error but `EAGAIN`, `EINTR` and `EIO`.
pub data ReadAnswer : Type 0 where
  bytes_read : List ℕ → ReadAnswer
  eagain eintr eio : ReadAnswer
  read_err : ℕ → ReadAnswer

pub record DrainResult : Type 0 where
  pub bytes : List ℕ
  pub eof : Bool

-- The read loop, on the answers of the kernel in order; `none` is a loop that reads on.
unfoldable pub drain_from : List ℕ → List ReadAnswer → Option (Result ℕ DrainResult)
drain_from out [] = none
drain_from out (bytes_read [] ∷ answers) = some (ok (record { bytes = out; eof = true }))
drain_from out (bytes_read (b ∷ bs) ∷ answers) = drain_from (out ++ (b ∷ bs)) answers
drain_from out (eagain ∷ answers) = some (ok (record { bytes = out; eof = false }))
drain_from out (eintr ∷ answers) = drain_from out answers
drain_from out (eio ∷ answers) = some (ok (record { bytes = out; eof = true }))
drain_from out (read_err e ∷ answers) = some (err e)

unfoldable pub drain : List ReadAnswer → Option (Result ℕ DrainResult)
unfolding drain_from
drain answers = drain_from [] answers

-- What `waitpid` with `WNOHANG` answers; `running` is every status that is not final.
pub data WaitAnswer : Type 0 where
  exited signaled : ℕ → WaitAnswer
  running echild : WaitAnswer
  wait_err : ℕ → WaitAnswer

unfoldable pub try_reap : WaitAnswer → Result ℕ (Option ℕ)
try_reap (exited code) = ok (some code)
try_reap (signaled sig) = ok (some (128 + sig))
try_reap running = ok none
try_reap echild = ok none
try_reap (wait_err e) = err e

abbrev pub reap_rounds : ℕ
reap_rounds = 200

-- The reap loop with the rounds that are left; the answer of each round is a function of its number.
unfoldable pub reap_from : ℕ → ℕ → (ℕ → WaitAnswer) → Result ℕ (Option ℕ)
reap_from zero i answer = ok none
reap_from (suc left) i answer =
    let later = reap_from left (suc i) answer in
    elim (answer i) [
      | exited code ↦ ok (some code)
      | signaled sig ↦ ok (some (128 + sig))
      | running ↦ later
      | echild ↦ ok none
      | wait_err e ↦ err e
    ]

unfoldable pub reap_blocking : (ℕ → WaitAnswer) → Result ℕ (Option ℕ)
unfolding reap_from
reap_blocking answer = reap_from reap_rounds 0 answer

-- `resize`: the signal is sent when the new size was set.
unfoldable pub resize : ℕ → ℕ → Bool → List Request
resize cols rows is_set =
    if is_set then set_winsize cols rows ∷ (sigwinch ∷ []) else set_winsize cols rows ∷ []

-- `foreground_busy`: whether a group other than the child's is in the foreground.
unfoldable pub foreground_busy : ℕ → Result ℕ ℕ → Result ℕ Bool
foreground_busy child (ok fg) = ok (not (fg == child))
foreground_busy child (err e) = err e

-- `drop`: whatever the kernel answers.
abbrev pub drop_pty : List Request
drop_pty = sigkill ∷ (wait_child ∷ [])
