-- ===== src/Daemon.antt =====
-- The start of the daemon: jftermd/src/socket.rs, the lock and the bind of jftermd/src/daemonize.rs,
-- and the options of jftermd/src/main.rs. Each answer of the system is an argument; what is asked of it
-- to change, granted or not, is an `Action`.
pub mod Laws
pub mod Directory
pub mod Redirect
pub mod Main
pub mod Tests
use jfterm_muxer.Base.{
  ℕ, ◌%◌, ◌==◌, Bool, true, false, not, ◌||◌, Option, none, some, List, [], ◌∷◌, ◌++◌, leb,
  if◌then◌else◌, bytes, bytes_eq, to_string, ◌>>=◌,
}
use jfterm_muxer.Protocol.{Result, ok, err}

pub data IoError : Type 0 where
  os_error : ℕ → IoError
  not_found addr_in_use already_exists permission_denied invalid_input : IoError

pub data Action : Type 0 where
  make_dir : ℕ → Action
  take_lock try_bind unlink_socket : Action

-- What `lstat` tells of a file.
pub record Metadata : Type 0 where
  pub is_dir : Bool
  pub is_socket : Bool
  pub owner : ℕ
  pub mode : ℕ

-- `PathBuf::join` with a relative name.
ends_with_slash : List ℕ → Bool
ends_with_slash [] = false
ends_with_slash (c ∷ []) = c == 47
ends_with_slash (c ∷ d ∷ cs) = ends_with_slash (d ∷ cs)

unfoldable pub join : List ℕ → List ℕ → List ℕ
unfolding ends_with_slash
join [] name = name
join (c ∷ cs) name = if ends_with_slash (c ∷ cs) then (c ∷ cs) ++ name else (c ∷ cs) ++ (47 ∷ name)

socket_base : Option (List ℕ) → ℕ → List ℕ
unfolding join
socket_base none uid = bytes "/tmp/jfterm-" ++ to_string uid
socket_base (some []) uid = bytes "/tmp/jfterm-" ++ to_string uid
socket_base (some (x ∷ xs)) uid = join (x ∷ xs) (bytes "jfterm")

unfoldable pub socket_path_in : Option (List ℕ) → ℕ → List ℕ
unfolding socket_base
socket_path_in xdg uid = join (socket_base xdg uid) (bytes "muxer.sock")

unfoldable pub validate_socket_dir : ℕ → Metadata → Result IoError Unit
validate_socket_dir uid md =
    if not md.is_dir
    then err already_exists
    else if not (md.owner == uid)
    then err permission_denied
    else if not (md.mode % 512 == 448)
    then err permission_denied
    else ok tt

-- `created` is the answer of `DirBuilder::create`.
unfoldable pub ensure_socket_dir :
    ℕ → Bool → Result IoError Metadata → Result IoError Unit → Result IoError Unit × List Action
unfolding validate_socket_dir
ensure_socket_dir uid false lstat created = (err invalid_input, [])
ensure_socket_dir uid true (ok md) created = (validate_socket_dir uid md, [])
ensure_socket_dir uid true (err not_found) created = (created, make_dir 448 ∷ [])
ensure_socket_dir uid true (err e) created = (err e, [])

-- The attempts of `acquire_flock` with the clock after each; `none` is a wait that goes on.
unfoldable pub acquire_flock : ℕ → List (Result IoError Bool × ℕ) → Option (Result IoError Bool)
acquire_flock deadline [] = none
acquire_flock deadline ((ok true, now) ∷ attempts) = some (ok true)
acquire_flock deadline ((err e, now) ∷ attempts) = some (err e)
acquire_flock deadline ((ok false, now) ∷ attempts) =
    let later = acquire_flock deadline attempts in
    if leb deadline now then some (ok false) else later

-- `removed` is the answer of `remove_file`.
unfoldable pub unlink_stale_socket :
    ℕ → Result IoError Metadata → Result IoError Unit → Result IoError Unit × List Action
unlink_stale_socket uid (err e) removed = (err e, [])
unlink_stale_socket uid (ok md) removed =
    if not md.is_socket
    then (err already_exists, [])
    else if not (md.owner == uid)
    then (err permission_denied, [])
    else (removed, unlink_socket ∷ [])

pub data Acquire : Type 0 where
  bound already_running : Acquire

-- The answers that one `acquire_daemon` gets.
pub record Answers : Type 0 where
  pub bind : Result IoError Unit
  pub lstat : Result IoError Metadata
  pub removed : Result IoError Unit
  pub bind_again : Result IoError Unit
  pub cloexec : Result IoError Unit

finish : Result IoError Unit → Result IoError Acquire
finish (ok u) = ok bound
finish (err e) = err e

-- The second bind.
finish_again : Result IoError Unit → Result IoError Unit → Result IoError Acquire
unfolding finish
finish_again cloexec (ok u) = finish cloexec
finish_again cloexec (err e) = err e

rebind : Answers → Result IoError Unit × List Action → Result IoError Acquire × List Action
unfolding finish_again
rebind w (err e, actions) = (err e, actions)
rebind w (ok u, actions) = (finish_again w.cloexec w.bind_again, actions ++ (try_bind ∷ []))

bind_socket : ℕ → Answers → Result IoError Unit → Result IoError Acquire × List Action
unfolding finish rebind unlink_stale_socket
bind_socket uid w (ok u) = (finish w.cloexec, try_bind ∷ [])
bind_socket uid w (err addr_in_use) =
    let (r, actions) = rebind w (unlink_stale_socket uid w.lstat w.removed) in
    (r, try_bind ∷ actions)
bind_socket uid w (err e) = (err e, try_bind ∷ [])

-- `lock` is the answer of `acquire_flock`.
unfoldable pub acquire_daemon :
    ℕ → Answers → Result IoError Bool → Result IoError Acquire × List Action
unfolding bind_socket
acquire_daemon uid w (err e) = (err e, take_lock ∷ [])
acquire_daemon uid w (ok false) = (ok already_running, take_lock ∷ [])
acquire_daemon uid w (ok true) =
    let (r, actions) = bind_socket uid w w.bind in (r, take_lock ∷ actions)

pub record Args : Type 0 where
  pub foreground : Bool
  pub socket : Option (List ℕ)

pub data ArgsOutcome : Type 0 where
  run : Args → ArgsOutcome
  exit_success exit_failure : ArgsOutcome

-- `parse_args`, on the arguments after the program's name. A path that follows `--socket` is taken as
-- it is.
unfoldable pub parse_args : Args → List (List ℕ) → ArgsOutcome
parse_args args [] = run args
parse_args args (arg ∷ []) =
    if bytes_eq arg (bytes "--foreground") || bytes_eq arg (bytes "-f")
    then run (record args { foreground = true })
    else if bytes_eq arg (bytes "--socket")
    then exit_failure
    else if bytes_eq arg (bytes "--help") || bytes_eq arg (bytes "-h")
    then exit_success
    else run args
parse_args args (arg ∷ next ∷ rest) =
    let with_foreground = parse_args (record args { foreground = true }) (next ∷ rest) in
    let with_socket = parse_args (record args { socket = some next }) rest in
    let ignored = parse_args args (next ∷ rest) in
    if bytes_eq arg (bytes "--foreground") || bytes_eq arg (bytes "-f")
    then with_foreground
    else if bytes_eq arg (bytes "--socket")
    then with_socket
    else if bytes_eq arg (bytes "--help") || bytes_eq arg (bytes "-h")
    then exit_success
    else ignored
