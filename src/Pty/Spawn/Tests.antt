-- ===== src/Pty/Spawn/Tests.antt =====
-- The theorems on a new shell at concrete variables and answers.
use jfterm_muxer.Base.{ℕ, ◌≡◌, refl, Option, none, some, List, [], ◌∷◌, bytes}
use jfterm_muxer.Protocol.{Result, ok}
use jfterm_muxer.Pty.Spawn.{
  Vars, Program, program, forced, winsize, pgid, Kernel, SpawnError, SpawnAction, spawn,
}
use jfterm_muxer.Pty.Spawn.Environment.{values, program-values}
use jfterm_muxer.Pty.Spawn.Laws.{Spawned, spawn-Spawned}

abbrev vars : Vars
vars = (bytes "TERM", bytes "vt100") ∷ ((bytes "A", bytes "1") ∷ [])

abbrev shell : Program
shell = record { argv = bytes "sh" ∷ []; env = bytes "A=1" ∷ forced; cwd = bytes "/" }

shell_lem : program (bytes "sh" ∷ []) vars (bytes "/") ≡ some shell
unfolding program jfterm_muxer.Base.bytes_eq
shell_lem = refl

program-values_example : values (bytes "TERM") shell.env ≡ bytes "xterm-256color" ∷ []
unfolding jfterm_muxer.Base.bytes_eq
program-values_example =
    program-values (bytes "sh" ∷ []) vars (bytes "/") (bytes "TERM") shell
      ((refl, (refl, (refl, (refl, tt)))), ((refl, tt), tt)) (refl, (refl, (refl, (refl, tt))))
      shell_lem

-- The child leads its group in the first round.
abbrev answers : Kernel
answers = record { forkpty = ok 42; nonblocking = ok tt; cloexec = ok tt; group = λ i. pgid 42 }

spawn-Spawned_example :
    (x : Result SpawnError ℕ × List SpawnAction) × (spawn
        (bytes "sh" ∷ [])
        (some vars)
        (bytes "/")
        (winsize 80 24)
        answers
      ≡ some x)
    × Spawned (bytes "sh" ∷ []) vars (bytes "/") (winsize 80 24) answers x
spawn-Spawned_example = spawn-Spawned (bytes "sh" ∷ []) vars (bytes "/") (winsize 80 24) answers
