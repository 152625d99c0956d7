-- ===== src/Session/Tests.antt =====
-- The theorem on a drain at a concrete one.
use jfterm_muxer.Base.{ℕ, true, some, [], ◌∷◌, bytes, unwrap_or}
use jfterm_muxer.Vte.{Vte, print}
use jfterm_muxer.Samples.{scripted}
use jfterm_muxer.Engine
use jfterm_muxer.Engine.{ReplayEngine}
use jfterm_muxer.Protocol.{Result, ok, err}
use jfterm_muxer.Pty.{DrainResult}
use jfterm_muxer.Session.{Session, live, DrainOutcome, drain}

abbrev one_print : Vte
one_print = scripted ((print 120 ∷ []) ∷ [])

abbrev fresh_session : Session one_print
fresh_session = record {
  id = bytes "s";
  argv = bytes "sh" ∷ [];
  cwd = bytes "/";
  engine = Engine.new one_print;
  cols = 80;
  rows = 24;
  created_at = 0;
  lifecycle = live;
}

-- The shell writes `x` and exits with status 3.
abbrev last_words : DrainResult
last_words = record { bytes = bytes "x"; eof = true }

abbrev last_drain : Result ℕ DrainOutcome × Session one_print
last_drain =
    unwrap_or (drain one_print fresh_session (ok last_words) (ok (some 3))) (err 0, fresh_session)
