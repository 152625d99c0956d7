-- ===== src/Daemon/Main.antt =====
-- `main` of jftermd/src/main.rs and `daemonize` of jftermd/src/daemonize.rs: the start and the end of
-- the process. Each answer of the system is an argument, and what is asked of it is an `Act`; a
-- change comes with the working directory, from which a relative path is taken.
pub mod Laws
use jfterm_muxer.Base.{
  ℕ, ◌==◌, Bool, true, false, Option, none, some, List, [], ◌∷◌, ◌++◌, if◌then◌else◌, unwrap_or,
  map,
}
use jfterm_muxer.Protocol.{Result, ok, err}
use jfterm_muxer.Daemon.{
  IoError, Action, Metadata, join, ensure_socket_dir, acquire_daemon, Acquire, bound,
  already_running, Answers, Args,
}

pub data Act : Type 0 where
  set_umask : (mode : ℕ) → Act
  new_session redirect_std serve : Act
  change_dir check_dir remove_file : (path : List ℕ) → Act
  chmod : (path : List ℕ) (mode : ℕ) → Act
  change : (dir : List ℕ) → Action → Act

-- In which process `fork` returned.
pub data Fork : Type 0 where
  parent child : Fork
  fork_failed : IoError → Fork

pub record Forks : Type 0 where
  pub first : Fork
  pub setsid : Result IoError Unit
  pub second : Fork
  pub chdir : Result IoError Unit
  pub redirect : Result IoError Unit

pub data Daemonized : Type 0 where
  parent_exits daemon : Daemonized
  fails : IoError → Daemonized

-- A call that returns its error, before what follows.
next : Result IoError Unit → Daemonized × List Act → Daemonized × List Act
next (ok u) later = later
next (err e) later = (fails e, [])

-- A fork: the parent exits, and the child goes on.
next_fork : Fork → Daemonized × List Act → Daemonized × List Act
next_fork parent later = (parent_exits, [])
next_fork child later = later
next_fork (fork_failed e) later = (fails e, [])

with_act : Act → Daemonized × List Act → Daemonized × List Act
with_act a (d, acts) = (d, a ∷ acts)

abbrev pub root : List ℕ
root = 47 ∷ []

unfoldable pub daemonize : Forks → Daemonized × List Act
unfolding next next_fork with_act
daemonize f = with_act (set_umask 63) (
    next_fork f.first (
      with_act new_session (
        next f.setsid (
          next_fork f.second (
            with_act (change_dir root)
              (next f.chdir (with_act redirect_std (next f.redirect (daemon, [])))))))))

-- A relative path is taken from the working directory of the process.
unfoldable pub resolve : List ℕ → List ℕ → List ℕ
resolve dir [] = dir
resolve dir (c ∷ cs) = if c == 47 then c ∷ cs else join dir (c ∷ cs)

-- What one start of the program meets. `lock_path` is `sock.with_extension("lock")`.
pub record System : Type 0 where
  pub uid : ℕ
  pub cwd : List ℕ
  pub default_path : List ℕ
  pub lock_path : List ℕ
  pub has_parent : Bool
  pub lstat : Result IoError Metadata
  pub created : Result IoError Unit
  pub forks : Forks
  pub lock : Result IoError Bool
  pub answers : Answers
  pub chmod_answer : Result IoError Unit
  pub nonblocking : Result IoError Unit

pub data Outcome : Type 0 where
  parent_done already served : Outcome
  no_dir no_daemon no_lock no_chmod no_nonblocking : IoError → Outcome

unfoldable pub exit_code : Outcome → ℕ
exit_code parent_done = 0
exit_code already = 0
exit_code served = 0
exit_code _ = 1

module _ (sys : System) (args : Args) where
  abbrev pub sock : List ℕ
  sock = unwrap_or args.socket sys.default_path

  -- The runtime runs until it is idle or a signal comes; then the two files are removed.
  serving : List ℕ → Result IoError Unit → Outcome × List Act
  serving dir (err e) = (no_nonblocking e, [])
  serving dir (ok u) = (
    served,
    serve ∷ (remove_file (resolve dir sock) ∷ (remove_file (resolve dir sys.lock_path) ∷ [])),
  )

  restricting : List ℕ → Result IoError Unit → Outcome × List Act
  unfolding serving
  restricting dir (err e) =
      (no_chmod e, chmod (resolve dir sock) 384 ∷ (remove_file (resolve dir sock) ∷ []))
  restricting dir (ok u) =
      let (o, acts) = serving dir sys.nonblocking in (o, chmod (resolve dir sock) 384 ∷ acts)

  acquired : List ℕ → Result IoError Acquire → Outcome × List Act
  unfolding restricting
  acquired dir (err e) = (no_lock e, [])
  acquired dir (ok already_running) = (already, [])
  acquired dir (ok bound) = restricting dir sys.chmod_answer

  -- The part of `main` that runs in the daemon, in its working directory.
  acquiring : List ℕ → Outcome × List Act
  unfolding acquired
  acquiring dir =
      let (r, changes) = acquire_daemon sys.uid sys.answers sys.lock in
      let (o, acts) = acquired dir r in (o, map (change dir) changes ++ acts)

  in_background : Daemonized × List Act → Outcome × List Act
  unfolding acquiring
  in_background (parent_exits, done) = (parent_done, done)
  in_background (fails e, done) = (no_daemon e, done)
  in_background (daemon, done) = let (o, acts) = acquiring root in (o, done ++ acts)

  checked : Result IoError Unit → Outcome × List Act
  unfolding in_background
  checked (err e) = (no_dir e, [])
  checked (ok u) =
      if args.foreground then acquiring sys.cwd else in_background (daemonize sys.forks)

  -- `main` after the options are parsed.
  unfoldable pub main : Outcome × List Act
  unfolding checked
  main =
      let (r, changes) = ensure_socket_dir sys.uid sys.has_parent sys.lstat sys.created in
      let (o, acts) = checked r in
      (o, check_dir (resolve sys.cwd sock) ∷ (map (change sys.cwd) changes ++ acts))
