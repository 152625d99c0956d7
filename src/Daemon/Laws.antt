-- ===== src/Daemon/Laws.antt =====
-- What the start of the daemon touches (jftermd/src/socket.rs, jftermd/src/daemonize.rs).
use jfterm_muxer.Base.{
  ℕ, ◌==◌, ==_iff, ◌++◌, ◌≡◌, refl, ap, ◌∙◌, ◌⊎◌, inl, inr, Bool, true, false, not, List, [], ◌∷◌,
  if-elim,
}
use jfterm_muxer.Protocol.{Result, ok, err}
use jfterm_muxer.Daemon.{
  IoError, os_error, not_found, addr_in_use, already_exists, permission_denied, invalid_input,
  Action, take_lock, try_bind, unlink_socket, Metadata, unlink_stale_socket, Acquire, bound,
  already_running, Answers, finish, finish_again, rebind, bind_socket, acquire_daemon,
}

-- A stale socket of the daemon's own user.
pub record IsStale (uid : ℕ) (w : Answers) : Type 0 where
  pub in_use : w.bind ≡ err addr_in_use
  pub file : Metadata
  pub told : w.lstat ≡ ok file
  pub socket : file.is_socket ≡ true
  pub own : file.owner ≡ uid

pub not-false : (b : Bool) → not b ≡ false → b ≡ true
not-false true e = refl
not-false false e = cc

-- Nothing is touched and the call fails, or one stale socket of the own user is unlinked.
abbrev Unlinks : ℕ → Answers → Result IoError Unit × List Action → Type 0
Unlinks uid w x =
    ((x.1 ≡ []) × ((e : IoError) × (x.0 ≡ err e)))
    ⊎ ((x.1 ≡ unlink_socket ∷ [])
        × ((md : Metadata) × (w.lstat ≡ ok md) × (md.is_socket ≡ true) × (md.owner ≡ uid)))

unlink-Unlinks :
    (uid : ℕ) (w : Answers) (lstat : Result IoError Metadata)
    → w.lstat ≡ lstat
    → Unlinks uid w (unlink_stale_socket uid lstat w.removed)
unfolding unlink_stale_socket
unlink-Unlinks uid w (err e) l = inl (refl, (e, refl))
unlink-Unlinks uid w (ok md) l =
    if-elim (Unlinks uid w) (not md.is_socket) _ _ (λ t. inl (refl, (already_exists, refl)))
      (λ f.
        if-elim (Unlinks uid w) (not (md.owner == uid)) _ _
          (λ t. inl (refl, (permission_denied, refl)))
          (λ g. inr (
            refl,
            (
              md,
              l,
              not-false md.is_socket f,
              (==_iff md.owner uid).0 (not-false (md.owner == uid) g),
            ),
          )))

-- What the result says of the lock.
abbrev pub Granted : Result IoError Bool → Result IoError Acquire → Type 0
Granted lock (ok bound) = lock ≡ ok true
Granted lock (ok already_running) = lock ≡ ok false
Granted lock (err e) = Unit {0}

-- What is asked of the system, in this order, by the answer for the lock.
abbrev pub Asks : ℕ → Answers → Result IoError Bool → List Action → Type 0
Asks uid w (ok true) acts =
    (acts ≡ take_lock ∷ (try_bind ∷ []))
    ⊎ (IsStale uid w
        × ((acts ≡ take_lock ∷ (try_bind ∷ (unlink_socket ∷ [])))
            ⊎ (acts ≡ take_lock ∷ (try_bind ∷ (unlink_socket ∷ (try_bind ∷ []))))))
Asks uid w _ acts = acts ≡ take_lock ∷ []

abbrev pub IsSafe :
    ℕ → Answers → Result IoError Bool → Result IoError Acquire × List Action → Type 0
IsSafe uid w lock x = Asks uid w lock x.1 × Granted lock x.0

finish-Granted : (r : Result IoError Unit) → Granted (ok true) (finish r)
unfolding finish
finish-Granted (ok u) = refl
finish-Granted (err x) = tt

again-Granted : (cloexec r : Result IoError Unit) → Granted (ok true) (finish_again cloexec r)
unfolding finish_again
again-Granted cloexec (ok u) = finish-Granted cloexec
again-Granted cloexec (err x) = tt

rebind-Granted :
    (w : Answers) (x : Result IoError Unit × List Action) → Granted (ok true) (rebind w x).0
unfolding rebind
rebind-Granted w (err e, actions) = tt
rebind-Granted w (ok u, actions) = again-Granted w.cloexec w.bind_again

rebind_asks :
    (w : Answers) (x : Result IoError Unit × List Action)
    → ((rebind w x).1 ≡ x.1) ⊎ ((rebind w x).1 ≡ x.1 ++ (try_bind ∷ []))
unfolding rebind
rebind_asks w (err e, actions) = inl refl
rebind_asks w (ok u, actions) = inr refl

abbrev pub an_error : IoError → Result IoError Unit
an_error e = err e

rebind_err :
    (w : Answers) (x : Result IoError Unit × List Action) (e : IoError)
    → x.0 ≡ an_error e
    → (rebind w x).1 ≡ x.1
unfolding rebind
rebind_err w (err d, actions) e h = refl
rebind_err w (ok u, actions) e h = absurd (cc)

in_use-Asks :
    (uid : ℕ) (w : Answers)
    → w.bind ≡ err addr_in_use
    → Asks uid w
        (ok true)
        (take_lock ∷ (try_bind ∷ (rebind w (unlink_stale_socket uid w.lstat w.removed)).1))
in_use-Asks uid w b =
    let x = unlink_stale_socket uid w.lstat w.removed in
    let more : List Action → List Action = λ l. take_lock ∷ (try_bind ∷ l) in
    elim (unlink-Unlinks uid w w.lstat refl) [
      | inl (n, (e, k)) ↦ inl (ap more (rebind_err w x e k ∙ n))
      | inr (n, (md, l, s, o)) ↦
          let stale : IsStale uid w = record {
            in_use = b;
            file = md;
            told = l;
            socket = s;
            own = o;
          } in
          elim (rebind_asks w x) [
            | inl q ↦ inr (stale, inl (ap more (q ∙ n)))
            | inr q ↦ inr (stale, inr (ap more (q ∙ ap (λ l. l ++ (try_bind ∷ [])) n)))
          ]
    ]

bind-IsSafe :
    (uid : ℕ) (w : Answers) (r : Result IoError Unit)
    → w.bind ≡ r
    → (let x = bind_socket uid w r in IsSafe uid w (ok true) (x.0, take_lock ∷ x.1))
unfolding bind_socket
bind-IsSafe uid w (ok u) b = (inl refl, finish-Granted w.cloexec)
bind-IsSafe uid w (err addr_in_use) b =
    (in_use-Asks uid w b, rebind-Granted w (unlink_stale_socket uid w.lstat w.removed))
bind-IsSafe uid w (err (os_error n)) b = (inl refl, tt)
bind-IsSafe uid w (err not_found) b = (inl refl, tt)
bind-IsSafe uid w (err already_exists) b = (inl refl, tt)
bind-IsSafe uid w (err permission_denied) b = (inl refl, tt)
bind-IsSafe uid w (err invalid_input) b = (inl refl, tt)

-- Whatever the system answers, `acquire_daemon` asks for the lock first, and for nothing more when it
-- does not get it. With the lock it asks for a bind, and then for nothing more, unless the address
-- was in use and the file there is a socket of the daemon's own user: that one it removes, and after
-- it at most binds once more. It answers that it is bound only with the lock, and that a daemon is
-- running only when it did not get it.
pub acquire_daemon-IsSafe :
    (uid : ℕ) (w : Answers) (lock : Result IoError Bool)
    → IsSafe uid w lock (acquire_daemon uid w lock)
unfolding acquire_daemon
acquire_daemon-IsSafe uid w (err e) = (refl, tt)
acquire_daemon-IsSafe uid w (ok false) = (refl, refl)
acquire_daemon-IsSafe uid w (ok true) = bind-IsSafe uid w w.bind refl
