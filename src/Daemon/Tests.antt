-- ===== src/Daemon/Tests.antt =====
-- The theorems on the start of the daemon at concrete answers.
use jfterm_muxer.Base.{ℕ, ◌==◌, Option, none, some, ◌≡◌, refl, ◌⊎◌, ◌↔◌, true, false, [], ◌∷◌}
use jfterm_muxer.Protocol.{Result, ok, err}
use jfterm_muxer.Daemon.{
  IoError, addr_in_use, not_found, make_dir, Metadata, Answers, acquire_daemon, ensure_socket_dir,
}
use jfterm_muxer.Daemon.{Args}
use jfterm_muxer.Daemon.Redirect.{Fds, redirect_std_to_devnull, IsRedirected, redirect-IsRedirected}
use jfterm_muxer.Daemon.Main.{child, System, main}
use jfterm_muxer.Daemon.Main.Laws.{Ran, main-Ran}
use jfterm_muxer.Daemon.Laws.{IsSafe, acquire_daemon-IsSafe}
use jfterm_muxer.Daemon.Directory.{Accepts, ensure_socket_dir-IsPrivate}

-- A socket of user 7 is left behind.
abbrev left_behind : Answers
left_behind = record {
  bind = err addr_in_use;
  lstat = ok (record { is_dir = false; is_socket = true; owner = 7; mode = 448 });
  removed = ok tt;
  bind_again = ok tt;
  cloexec = ok tt;
}

acquire_daemon-IsSafe_example :
    IsSafe 7 left_behind (ok true) (acquire_daemon 7 left_behind (ok true))
acquire_daemon-IsSafe_example = acquire_daemon-IsSafe 7 left_behind (ok true)

abbrev private_dir : Metadata
private_dir = record { is_dir = true; is_socket = false; owner = 7; mode = 16832 }

abbrev told : Result IoError Metadata
told = ok private_dir

abbrev made : Result IoError Unit
made = ok tt

ensure_socket_dir-IsPrivate_example :
    (((ensure_socket_dir 7 true told made).0 ≡ ok tt) ↔ Accepts 7 true told made)
    × (((ensure_socket_dir 7 true told made).1 ≡ [])
        ⊎ ((told ≡ err not_found) × ((ensure_socket_dir 7 true told made).1 ≡ make_dir 448 ∷ [])))
ensure_socket_dir-IsPrivate_example = ensure_socket_dir-IsPrivate 7 true told made

-- The null device gets descriptor 1, which was closed.
abbrev closed_output : Fds
closed_output n = elim (n == 1) [ true ↦ none | false ↦ some 5 ]

abbrev no_error : ℕ → Option ℕ
no_error target = none

redirect-IsRedirected_example :
    IsRedirected 9 closed_output (redirect_std_to_devnull 9 (ok 1) no_error closed_output)
redirect-IsRedirected_example = redirect-IsRedirected 9 1 no_error closed_output refl

-- A start as a daemon that gets everything.
abbrev done : Result IoError Unit
done = ok tt

abbrev all_well : System
all_well = record {
  uid = 7;
  cwd = 47 ∷ [];
  default_path = 47 ∷ (115 ∷ []);
  lock_path = 47 ∷ (108 ∷ []);
  has_parent = true;
  lstat = ok private_dir;
  created = done;
  forks = record { first = child; setsid = done; second = child; chdir = done; redirect = done };
  lock = ok true;
  answers = record left_behind { bind = done };
  chmod_answer = done;
  nonblocking = done;
}

abbrev no_options : Args
no_options = record { foreground = false; socket = none }

main-Ran_example : Ran all_well no_options (main all_well no_options)
main-Ran_example = main-Ran all_well no_options
