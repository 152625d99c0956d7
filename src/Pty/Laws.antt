-- ===== src/Pty/Laws.antt =====
-- The read loop and the reap loop of jftermd/src/pty.rs.
use jfterm_muxer.Base.{
  ℕ, zero, suc, ◌+◌, ◌<◌, ◌≡◌, refl, sym, ap, ◌∙◌, subst, true, false, Option, none, some, List, [],
  ◌∷◌, ◌++◌, append-nil, append_assoc, arith, All,
}
use jfterm_muxer.Protocol.{Result, ok, err}
use jfterm_muxer.Pty.{
  ReadAnswer, bytes_read, eagain, eintr, eio, read_err, DrainResult, drain_from, drain, WaitAnswer,
  exited, signaled, running, echild, wait_err, try_reap, reap_rounds, reap_from, reap_blocking,
}

-- An answer after which the loop reads on, and the bytes it brings.
abbrev pub IsMore : ReadAnswer → Type 0
IsMore (bytes_read []) = ⊥
IsMore (bytes_read (b ∷ bs)) = Unit {0}
IsMore eintr = Unit {0}
IsMore eagain = ⊥
IsMore eio = ⊥
IsMore (read_err e) = ⊥

abbrev pub bytes_of : List ReadAnswer → List ℕ
bytes_of [] = []
bytes_of (bytes_read bs ∷ answers) = bs ++ bytes_of answers
bytes_of (eagain ∷ answers) = bytes_of answers
bytes_of (eintr ∷ answers) = bytes_of answers
bytes_of (eio ∷ answers) = bytes_of answers
bytes_of (read_err e ∷ answers) = bytes_of answers

-- The outcome that an answer ends the loop with; `none` for one that does not end it.
abbrev pub outcome : List ℕ → ReadAnswer → Option (Result ℕ DrainResult)
outcome out (bytes_read []) = some (ok (record { bytes = out; eof = true }))
outcome out (bytes_read (b ∷ bs)) = none
outcome out eintr = none
outcome out eagain = some (ok (record { bytes = out; eof = false }))
outcome out eio = some (ok (record { bytes = out; eof = true }))
outcome out (read_err e) = some (err e)

drain_last :
    (out : List ℕ) (last : ReadAnswer) (rest : List ReadAnswer) (r : Result ℕ DrainResult)
    → outcome out last ≡ some r
    → drain_from out (last ∷ rest) ≡ some r
unfolding drain_from
drain_last out (bytes_read []) rest r e = e
drain_last out (bytes_read (b ∷ bs)) rest r e = ground arith
drain_last out eintr rest r e = ground arith
drain_last out eagain rest r e = e
drain_last out eio rest r e = e
drain_last out (read_err x) rest r e = e

drain_more :
    (out : List ℕ) (more : List ReadAnswer) (last : ReadAnswer) (rest : List ReadAnswer)
    (r : Result ℕ DrainResult)
    → All IsMore more
    → outcome (out ++ bytes_of more) last ≡ some r
    → drain_from out (more ++ (last ∷ rest)) ≡ some r
unfolding drain_from
drain_more out [] last rest r m e =
    drain_last out last rest r (ap (λ o. outcome o last) (sym (append-nil out)) ∙ e)
drain_more out (bytes_read [] ∷ more) last rest r m e = absurd m.0
drain_more out (bytes_read (b ∷ bs) ∷ more) last rest r m e =
    drain_more (out ++ (b ∷ bs)) more last rest r m.1
      (ap (λ o. outcome o last) (append_assoc out (b ∷ bs) (bytes_of more)) ∙ e)
drain_more out (eintr ∷ more) last rest r m e = drain_more out more last rest r m.1 e
drain_more out (eagain ∷ more) last rest r m e = absurd m.0
drain_more out (eio ∷ more) last rest r m e = absurd m.0
drain_more out (read_err x ∷ more) last rest r m e = absurd m.0

-- However the kernel splits the output over the reads, and whatever interrupts come between, `drain`
-- returns all of it in order, at the first answer that ends the loop: `EAGAIN` without the end of
-- file, an empty read or `EIO` with it, any other error as that error.
pub drain-more :
    (more : List ReadAnswer) (last : ReadAnswer) (rest : List ReadAnswer) (r : Result ℕ DrainResult)
    → All IsMore more
    → outcome (bytes_of more) last ≡ some r
    → drain (more ++ (last ∷ rest)) ≡ some r
unfolding drain
drain-more more last rest r m e = drain_more [] more last rest r m e

abbrev pub IsFinal : WaitAnswer → Type 0
IsFinal (exited code) = Unit {0}
IsFinal (signaled sig) = Unit {0}
IsFinal running = ⊥
IsFinal echild = Unit {0}
IsFinal (wait_err e) = Unit {0}

reap_final :
    (left i : ℕ) (answer : ℕ → WaitAnswer) (w : WaitAnswer)
    → answer i ≡ w
    → IsFinal w
    → reap_from (suc left) i answer ≡ try_reap w
unfolding try_reap reap_from
reap_final left i answer (exited code) e f = rw (e, reap_from) refl
reap_final left i answer (signaled sig) e f = rw (e, reap_from) refl
reap_final left i answer running e f = absurd f
reap_final left i answer echild e f = rw (e, reap_from) refl
reap_final left i answer (wait_err x) e f = rw (e, reap_from) refl

reap_running :
    (left i : ℕ) (answer : ℕ → WaitAnswer)
    → answer i ≡ running
    → reap_from (suc left) i answer ≡ reap_from left (suc i) answer
unfolding reap_from
reap_running left i answer e = rw (e, reap_from) refl

reap_later :
    (k left i : ℕ) (answer : ℕ → WaitAnswer)
    → k < left
    → ((j : ℕ) → j < k → answer (j + i) ≡ running)
    → IsFinal (answer (k + i))
    → reap_from left i answer ≡ try_reap (answer (k + i))
reap_later k zero i answer h r f = absurd (omega arith)
reap_later zero (suc left) i answer h r f =
    let z : i ≡ 0 + i = omega arith in reap_final left i answer (answer (0 + i)) (ap answer z) f
reap_later (suc k) (suc left) i answer h r f =
    let e : (j : ℕ) → j + suc i ≡ suc j + i = λ j. omega arith in
    let z : i ≡ 0 + i = omega arith in
    reap_running left i answer (ap answer z ∙ r 0 (omega arith))
    ∙ (reap_later k left (suc i) answer (omega arith)
          (λ j q. ap answer (e j) ∙ r (suc j) (omega arith))
          (subst (λ n. IsFinal (answer n)) (sym (e k)) f)
        ∙ ap (λ n. try_reap (answer n)) (e k))

reap_never :
    (left i : ℕ) (answer : ℕ → WaitAnswer)
    → ((j : ℕ) → j < left → answer (j + i) ≡ running)
    → reap_from left i answer ≡ ok none
unfolding reap_from
reap_never zero i answer r = refl
reap_never (suc left) i answer r =
    let e : (j : ℕ) → j + suc i ≡ suc j + i = λ j. omega arith in
    let z : i ≡ 0 + i = omega arith in
    reap_running left i answer (ap answer z ∙ r 0 (omega arith))
    ∙ reap_never left (suc i) answer (λ j q. ap answer (e j) ∙ r (suc j) (omega arith))

-- `reap_blocking` answers with the first final status that `waitpid` gives in its 200 rounds, as
-- `try_reap` reads it: the exit code, or 128 and the signal, or no code for a child that is gone.
pub reap_blocking-first :
    (answer : ℕ → WaitAnswer) (k : ℕ)
    → k < reap_rounds
    → ((j : ℕ) → j < k → answer j ≡ running)
    → IsFinal (answer k)
    → reap_blocking answer ≡ try_reap (answer k)
unfolding reap_blocking
reap_blocking-first answer k h r f =
    let e : (j : ℕ) → j + 0 ≡ j = λ j. omega arith in
    reap_later k reap_rounds 0 answer h (λ j q. ap answer (e j) ∙ r j q)
      (subst (λ n. IsFinal (answer n)) (sym (e k)) f)
    ∙ ap (λ n. try_reap (answer n)) (e k)

-- When all 200 rounds find the child running, it gives no code, and does not hang.
pub reap_blocking-never :
    (answer : ℕ → WaitAnswer)
    → ((j : ℕ) → j < reap_rounds → answer j ≡ running)
    → reap_blocking answer ≡ ok none
unfolding reap_blocking
reap_blocking-never answer r =
    let e : (j : ℕ) → j + 0 ≡ j = λ j. omega arith in
    reap_never reap_rounds 0 answer (λ j q. ap answer (e j) ∙ r j q)
