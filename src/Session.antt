-- ===== src/Session.antt =====
-- jftermd/src/session.rs: a shell's engine, its size and its life. The answers of the kernel are
-- arguments; the requests to it are part of the results.
pub mod Laws
pub mod Tests
use jfterm_muxer.Base.{
  ℕ, ◌==◌, Bool, true, false, not, ◌&&◌, Option, none, some, List, [], ◌∷◌, if◌then◌else◌,
  unwrap_or, ◌>>=◌,
}
use jfterm_muxer.Vte.{Vte}
use jfterm_muxer.Status.{StatusSnapshot}
use jfterm_muxer.Engine
use jfterm_muxer.Engine.{ReplayEngine}
use jfterm_muxer.Protocol.{Result, ok, err}
use jfterm_muxer.Pty.{Request, write_master, sighup, sigkill, DrainResult}
use jfterm_muxer.Pty

-- An exit status is the 32 bits of its `i32`.
pub data Lifecycle : Type 0 where
  live : Lifecycle
  dead : ℕ → Lifecycle

pub record DrainOutcome : Type 0 where
  pub data_bytes : List ℕ
  pub status : StatusSnapshot
  pub exit : Option ℕ

pub record AttachReplay : Type 0 where
  pub data_bytes : List ℕ
  pub status : StatusSnapshot

-- `SessionInfo` of jftermd/src/protocol.rs.
pub record SessionInfo : Type 0 where
  pub session_id : List ℕ
  pub argv : List (List ℕ)
  pub cwd : List ℕ
  pub running : Bool
  pub has_client : Bool
  pub created_at : ℕ

unfoldable pub is_dead_life : Lifecycle → Bool
is_dead_life live = false
is_dead_life (dead status) = true

module _ (vte : Vte) where
  pub record Session : Type 0 where
    pub id : List ℕ
    pub argv : List (List ℕ)
    pub cwd : List ℕ
    pub engine : ReplayEngine vte
    pub cols : ℕ
    pub rows : ℕ
    pub created_at : ℕ
    pub lifecycle : Lifecycle

  -- `Session::open`: the last arguments are what `Pty::spawn` answers, and the seconds of `now_secs`.
  abbrev pub open_session :
      List ℕ → List (List ℕ) → List ℕ → ℕ → ℕ → Result ℕ Unit → ℕ → Result ℕ Session
  open_session id argv cwd cols rows (err e) now = err e
  open_session id argv cwd cols rows (ok u) now = ok (record {
    id = id;
    argv = argv;
    cwd = cwd;
    engine = Engine.new vte;
    cols = cols;
    rows = rows;
    created_at = now;
    lifecycle = live;
  })

  abbrev pub is_dead : Session → Bool
  is_dead s = is_dead_life s.lifecycle

  abbrev pub status : Session → StatusSnapshot
  status s = Engine.status vte s.engine

  abbrev pub has_prompt_marking : Session → Bool
  has_prompt_marking s = Engine.has_prompt_marking vte s.engine

  outcome : Session → List ℕ → Option ℕ → DrainOutcome
  outcome s bytes exit = record { data_bytes = bytes; status = status s; exit = exit }

  -- What follows the feed: at the end of file a live session is reaped.
  finish : Session → DrainResult → Result ℕ (Option ℕ) → Result ℕ DrainOutcome × Session
  unfolding outcome
  finish s drained (err e) =
      if drained.eof && not (is_dead s) then (err e, s) else (ok (outcome s drained.bytes none), s)
  finish s drained (ok code) =
      if drained.eof && not (is_dead s)
      then (let status = unwrap_or code 0 in
          let s' = record s { lifecycle = dead status } in
          (ok (outcome s' drained.bytes (some status)), s'))
      else (ok (outcome s drained.bytes none), s)

  feed_drained : Session → List ℕ → Option Session
  feed_drained s [] = some s
  feed_drained s (b ∷ bs) = do
    engine ← Engine.feed vte s.engine (b ∷ bs)
    some (record s { engine = engine })

  -- `drain`, on the answers of `Pty::drain` and `Pty::reap_blocking`; `none` is a panic of the engine.
  unfoldable pub drain :
      Session
      → Result ℕ DrainResult
      → Result ℕ (Option ℕ)
      → Option (Result ℕ DrainOutcome × Session)
  unfolding finish feed_drained
  drain s (err e) reaped = some (err e, s)
  drain s (ok drained) reaped = do
    s' ← feed_drained s drained.bytes
    some (finish s' drained reaped)

  unfoldable pub write_input : Session → List ℕ → List Request
  write_input s bytes = if is_dead s then [] else write_master bytes ∷ []

  unfoldable pub resize : Session → ℕ → ℕ → Bool → List Request × Session
  resize s cols rows is_set =
      let s' = record s { cols = cols; rows = rows } in
      (if is_dead s then [] else Pty.resize cols rows is_set, s')

  unfoldable pub replay_for_attach : Session → ℕ → AttachReplay
  replay_for_attach s want_chunks = record {
    data_bytes =
        if want_chunks == 0
        then Engine.replay vte s.engine
        else Engine.replay_capped vte s.engine want_chunks;
    status = status s;
  }

  unwrap_busy : Result ℕ Bool → Bool
  unwrap_busy (ok b) = b
  unwrap_busy (err e) = false

  -- `busy` is what `Pty::foreground_busy` answers.
  unfoldable pub poll_running : Session → Result ℕ Bool → Bool
  unfolding unwrap_busy
  poll_running s busy = if is_dead s then false else unwrap_busy busy

  unfoldable pub effective_running : Session → Result ℕ Bool → Bool
  unfolding poll_running
  effective_running s busy =
      if is_dead s
      then false
      else if has_prompt_marking s
      then (status s).running
      else poll_running s busy

  unfoldable pub hangup : Session → List Request
  hangup s = if is_dead s then [] else sighup ∷ []

  unfoldable pub kill : Session → List Request
  kill s = if is_dead s then [] else sigkill ∷ []

  unfoldable pub info : Session → Bool → Result ℕ Bool → SessionInfo
  unfolding effective_running
  info s has_client busy = record {
    session_id = s.id;
    argv = s.argv;
    cwd = s.cwd;
    running = effective_running s busy;
    has_client = has_client;
    created_at = s.created_at;
  }
