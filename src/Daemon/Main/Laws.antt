-- ===== src/Daemon/Main/Laws.antt =====
-- When the program serves, and what it leaves behind (`main` of jftermd/src/main.rs).
use jfterm_muxer.Base.{
  ℕ, ◌≡◌, refl, sym, ap, subst, if◌then◌else◌, ◌∙◌, inl, inr, ◌⊎◌, true, false, List, [], ◌∷◌, ◌++◌,
  append_assoc, if-elim, map, All,
}
use jfterm_muxer.Protocol.{Result, ok, err}
use jfterm_muxer.Daemon.{
  IoError, Action, ensure_socket_dir, acquire_daemon, Acquire, bound, already_running, Args,
}
use jfterm_muxer.Daemon.Laws.{Granted, acquire_daemon-IsSafe}
use jfterm_muxer.Daemon.Main.{
  Act, serve, check_dir, remove_file, chmod, change, Fork, parent, child, fork_failed, Forks,
  Daemonized, parent_exits, daemon, fails, next, next_fork, with_act, root, daemonize, resolve,
  System, Outcome, parent_done, already, served, no_dir, no_daemon, no_lock, no_chmod,
  no_nonblocking, sock, serving, restricting, acquired, acquiring, in_background, checked, main,
}

-- Nothing is served, and neither the socket nor the lock file is removed at the end; a change that
-- `ensure_socket_dir` or `acquire_daemon` asks for is of neither kind.
abbrev pub IsQuiet : Act → Type 0
IsQuiet serve = ⊥
IsQuiet (remove_file path) = ⊥
IsQuiet _ = Unit {0}

module _ (sys : System) (args : Args) where
  abbrev pub dir_result : Result IoError Unit
  dir_result = (ensure_socket_dir sys.uid sys.has_parent sys.lstat sys.created).0

  abbrev pub acquired_result : Result IoError Acquire
  acquired_result = (acquire_daemon sys.uid sys.answers sys.lock).0

  -- The process is the one that serves: the one in the foreground, or the daemon of the two forks.
  abbrev pub IsServer : Type 0
  IsServer = (args.foreground ≡ true) ⊎ ((daemonize sys.forks).0 ≡ daemon)

  -- Why the program came to an outcome.
  abbrev pub Reason : Outcome → Type 0
  Reason parent_done = (args.foreground ≡ false) × ((daemonize sys.forks).0 ≡ parent_exits)
  Reason already = IsServer × (sys.lock ≡ ok false)
  Reason served =
      (dir_result ≡ ok tt)
      × IsServer
      × (sys.lock ≡ ok true)
      × (acquired_result ≡ ok bound)
      × (sys.chmod_answer ≡ ok tt)
      × (sys.nonblocking ≡ ok tt)
  Reason (no_dir e) = dir_result ≡ err e
  Reason (no_daemon e) = (args.foreground ≡ false) × ((daemonize sys.forks).0 ≡ fails e)
  Reason (no_lock e) = acquired_result ≡ err e
  Reason (no_chmod e) = (acquired_result ≡ ok bound) × (sys.chmod_answer ≡ err e)
  Reason (no_nonblocking e) = (acquired_result ≡ ok bound) × (sys.nonblocking ≡ err e)

  -- The working directory in which the socket is bound.
  abbrev pub work_dir : List ℕ
  work_dir = if args.foreground then sys.cwd else root

  abbrev pub Ends : List Act → List Act → Type 0
  Ends acts last = (before : List Act) × All IsQuiet before × (acts ≡ before ++ last)

  -- What was done at the end, and that nothing before it served or removed a file of the daemon's.
  abbrev pub Did : Outcome → List Act → Type 0
  Did served acts = Ends acts (
      chmod (resolve work_dir (sock sys args)) 384
      ∷ (serve
          ∷ (remove_file (resolve work_dir (sock sys args))
              ∷ (remove_file (resolve work_dir sys.lock_path) ∷ []))))
  Did (no_chmod e) acts = Ends acts (
      chmod (resolve work_dir (sock sys args)) 384
      ∷ (remove_file (resolve work_dir (sock sys args)) ∷ []))
  Did _ acts = All IsQuiet acts

  abbrev pub Ran : Outcome × List Act → Type 0
  Ran x = Reason x.0 × Did x.0 x.1

  All-append : (xs ys : List Act) → All IsQuiet xs → All IsQuiet ys → All IsQuiet (xs ++ ys)
  All-append [] ys a b = b
  All-append (x ∷ xs) ys a b = (a.0, All-append xs ys a.1 b)

  Ends-after : (xs acts last : List Act) → All IsQuiet xs → Ends acts last → Ends (xs ++ acts) last
  Ends-after xs acts last a (before, q, e) =
      (xs ++ before, All-append xs before a q, ap (◌++◌ xs) e ∙ sym (append_assoc xs before last))

  Did-after :
      (xs : List Act) (o : Outcome) (acts : List Act)
      → All IsQuiet xs
      → Did o acts
      → Did o (xs ++ acts)
  Did-after xs parent_done acts a d = All-append xs acts a d
  Did-after xs already acts a d = All-append xs acts a d
  Did-after xs served acts a d = Ends-after xs acts _ a d
  Did-after xs (no_dir e) acts a d = All-append xs acts a d
  Did-after xs (no_daemon e) acts a d = All-append xs acts a d
  Did-after xs (no_lock e) acts a d = All-append xs acts a d
  Did-after xs (no_chmod e) acts a d = Ends-after xs acts _ a d
  Did-after xs (no_nonblocking e) acts a d = All-append xs acts a d

  changes-IsQuiet : (dir : List ℕ) (changes : List Action) → All IsQuiet (map (change dir) changes)
  changes-IsQuiet dir [] = tt
  changes-IsQuiet dir (c ∷ cs) = (tt, changes-IsQuiet dir cs)

  serving-Ran :
      (r : Result IoError Unit)
      → dir_result ≡ ok tt
      → IsServer
      → sys.lock ≡ ok true
      → acquired_result ≡ ok bound
      → sys.chmod_answer ≡ ok tt
      → sys.nonblocking ≡ r
      → (let x = serving sys args work_dir r in
          Ran (x.0, chmod (resolve work_dir (sock sys args)) 384 ∷ x.1))
  unfolding serving
  serving-Ran (err e) d s l a c n = ((a, n), (tt, tt))
  serving-Ran (ok u) d s l a c n = ((d, s, l, a, c, n), ([], tt, refl))

  restricting-Ran :
      (r : Result IoError Unit)
      → dir_result ≡ ok tt
      → IsServer
      → sys.lock ≡ ok true
      → acquired_result ≡ ok bound
      → sys.chmod_answer ≡ r
      → Ran (restricting sys args work_dir r)
  unfolding restricting
  restricting-Ran (err e) d s l a c = ((a, c), ([], tt, refl))
  restricting-Ran (ok u) d s l a c = serving-Ran sys.nonblocking d s l a c refl

  acquired-Ran :
      (r : Result IoError Acquire)
      → dir_result ≡ ok tt
      → IsServer
      → Granted sys.lock r
      → acquired_result ≡ r
      → Ran (acquired sys args work_dir r)
  unfolding acquired
  acquired-Ran (err e) d s g a = (a, tt)
  acquired-Ran (ok already_running) d s g a = ((s, g), tt)
  acquired-Ran (ok bound) d s g a = restricting-Ran sys.chmod_answer d s g a refl

  acquiring-Ran :
      (dir : List ℕ) → work_dir ≡ dir → dir_result ≡ ok tt → IsServer → Ran (acquiring sys args dir)
  unfolding acquiring
  acquiring-Ran dir w d s =
      let x = acquire_daemon sys.uid sys.answers sys.lock in
      let (reason, did) =
        acquired-Ran x.0 d s (acquire_daemon-IsSafe sys.uid sys.answers sys.lock).1 refl in
      subst (λ k. Ran (acquiring sys args k)) w
        (
          reason,
          Did-after (map (change work_dir) x.1) (acquired sys args work_dir x.0).0 _
              (changes-IsQuiet work_dir x.1) did,
        )

  next-IsQuiet :
      (r : Result IoError Unit) (x : Daemonized × List Act)
      → All IsQuiet x.1
      → All IsQuiet (next r x).1
  unfolding next
  next-IsQuiet (ok u) x q = q
  next-IsQuiet (err e) x q = tt

  fork-IsQuiet :
      (f : Fork) (x : Daemonized × List Act) → All IsQuiet x.1 → All IsQuiet (next_fork f x).1
  unfolding next_fork
  fork-IsQuiet parent x q = tt
  fork-IsQuiet child x q = q
  fork-IsQuiet (fork_failed e) x q = tt

  daemonize-IsQuiet : (f : Forks) → All IsQuiet (daemonize f).1
  unfolding daemonize with_act
  daemonize-IsQuiet f = (
    tt,
    fork-IsQuiet f.first _ (
      tt,
      next-IsQuiet f.setsid _ (
          fork-IsQuiet f.second _
            (tt, next-IsQuiet f.chdir _ (tt, next-IsQuiet f.redirect (daemon, []) tt))),
    ),
  )

  background-Ran :
      (x : Daemonized × List Act)
      → dir_result ≡ ok tt
      → args.foreground ≡ false
      → (daemonize sys.forks).0 ≡ x.0
      → All IsQuiet x.1
      → Ran (in_background sys args x)
  unfolding in_background
  background-Ran (parent_exits, done) d f e q = ((f, e), q)
  background-Ran (fails err_, done) d f e q = ((f, e), q)
  background-Ran (daemon, done) d f e q =
      let (reason, did) = acquiring-Ran root (ap (λ b. if b then sys.cwd else root) f) d (inr e) in
      (reason, Did-after done (acquiring sys args root).0 (acquiring sys args root).1 q did)

  checked-Ran : (r : Result IoError Unit) → dir_result ≡ r → Ran (checked sys args r)
  unfolding checked
  checked-Ran (err e) d = (d, tt)
  checked-Ran (ok u) d =
      if-elim Ran args.foreground _ _
        (λ t. acquiring-Ran sys.cwd (ap (λ b. if b then sys.cwd else root) t) d (inl t))
        (λ f. background-Ran (daemonize sys.forks) d f refl (daemonize-IsQuiet sys.forks))

  -- However the start goes, its outcome has its reason. The program serves only when the check of the
  -- socket's directory passed (`ensure_socket_dir`), in the foreground or as the daemon of both forks,
  -- with the lock held, the socket bound and its mode set to 0600; after serving it removes the socket
  -- and then the lock file, each at its path from the working directory of the bind. When the mode
  -- cannot be set, it removes the socket and does not serve. In every other case it does not serve, and
  -- removes neither file at its end. A stale socket that `acquire_daemon` unlinks is apart from this.
  pub main-Ran : Ran (main sys args)
  unfolding main
  main-Ran =
      let x = ensure_socket_dir sys.uid sys.has_parent sys.lstat sys.created in
      let (reason, did) = checked-Ran x.0 refl in
      let o = (checked sys args x.0).0 in
      (
        reason,
        Did-after (check_dir (resolve sys.cwd (sock sys args)) ∷ []) o _ (tt, tt)
            (Did-after (map (change sys.cwd) x.1) o _ (changes-IsQuiet sys.cwd x.1) did),
      )
