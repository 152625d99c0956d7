-- ===== src/Actor.antt =====
-- `actor_loop` of jftermd/src/server.rs: one session, at most one client, and the arms of its
-- `select!`. A turn of the loop is an `Event`, with the answers of the kernel and the clock in it.
-- Any enabled arm may be taken: `biased` only takes choices away.
pub mod Keeps
pub mod Invariant
pub mod Attach
pub mod Stream
pub mod Current
pub mod Exit
pub mod Loop
pub mod Select
pub mod Close
pub mod Delivery
pub mod History
pub mod Tests
use jfterm_muxer.Base.{
  ℕ, ◌+◌, Bool, true, false, not, ◌&&◌, ◌||◌, Option, none, some, List, [], ◌∷◌, ◌++◌, ltb, leb,
  ◌==◌, if◌then◌else◌, is_some, ◌>>=◌, length, ◌≡◌,
}
use jfterm_muxer.Vte.{Vte}
use jfterm_muxer.Status.{StatusSnapshot}
use jfterm_muxer.Protocol.{Result, ok, err, frame_data}
use jfterm_muxer.Pty.{Request, DrainResult}
use jfterm_muxer.Session
use jfterm_muxer.Session.{Session, Lifecycle, live, dead, DrainOutcome, SessionInfo}
use jfterm_muxer.Client.{
  Outbox, send_ignored, send_all_ignored, Client, no_client, push_or_drop, forward_data, replace,
  take_with, Json, status_frame, exit_frame,
}

pub record AttachRequest : Type 0 where
  pub want_chunks : ℕ
  pub cols : ℕ
  pub rows : ℕ
  pub out_tx : Outbox

-- `busy` is the answer of `Pty::foreground_busy`, `is_set` that of the window-size call.
pub data Event : Type 0 where
  commands_closed : Event
  input : (bytes : List ℕ) → Event
  resize : (cols rows : ℕ) (is_set : Bool) → Event
  info : (busy : Result ℕ Bool) → Event
  close : (grace_ms now : ℕ) → Event
  attach : (req : AttachRequest) (is_set : Bool) (busy : Result ℕ Bool) → Event
  readable :
      (drained : Result ℕ DrainResult) (reaped : Result ℕ (Option ℕ)) (busy : Result ℕ Bool)
      (now : ℕ)
      → Event
  readable_failed : Event
  grace_over kill_due : (now : ℕ) → Event
  tick : (busy : Result ℕ Bool) → Event
  writer_takes writer_stops : Event

pub data Flow : Type 0 where
  goes_on ends : Flow

unfoldable pub merge_running : Bool → Bool → Bool → Bool
merge_running has_marking engine_running poll_running =
    if has_marking then engine_running else poll_running

same_bool : Bool → Bool → Bool
same_bool a b = if a then b else not b

same_progress : Option ℕ → Option ℕ → Bool
same_progress none none = true
same_progress (some m) (some n) = m == n
same_progress _ _ = false

-- `last_status == Some(eff)`.
unfoldable pub is_last : Option StatusSnapshot → StatusSnapshot → Bool
unfolding same_bool same_progress
is_last none eff = false
is_last (some s) eff = same_bool s.running eff.running && same_progress s.progress eff.progress

-- A deadline is reached; an unset one never is.
unfoldable pub is_due : Option ℕ → ℕ → Bool
is_due none now = false
is_due (some deadline) now = leb deadline now

module _ (vte : Vte) (json : Json) (dead_grace : ℕ) where
  pub record Actor : Type 0 where
    pub session : Session vte
    pub client : Client
    pub last_status : Option StatusSnapshot
    pub poll_running : Bool
    pub grace_deadline : Option ℕ
    pub closing : Bool
    pub kill_deadline : Option ℕ
    pub requests : List Request
    pub replies : List SessionInfo

  abbrev pub start : Session vte → Actor
  start s = record {
    session = s;
    client = no_client;
    last_status = none;
    poll_running = false;
    grace_deadline = none;
    closing = false;
    kill_deadline = none;
    requests = [];
    replies = [];
  }

  abbrev pub is_dead : Actor → Bool
  is_dead a = Session.is_dead vte a.session

  abbrev pub has_prompt_marking : Actor → Bool
  has_prompt_marking a = Session.has_prompt_marking vte a.session

  unfoldable pub effective_status : Session vte → Bool → StatusSnapshot
  unfolding merge_running
  effective_status s poll_running = record {
    running =
        merge_running (Session.has_prompt_marking vte s) (Session.status vte s).running
          poll_running;
    progress = (Session.status vte s).progress;
  }

  exit_frames : Lifecycle → Outbox → Outbox
  exit_frames live tx = tx
  exit_frames (dead status) tx = send_ignored tx (exit_frame json status)

  -- The frames of the handshake, into the new client's channel.
  unfoldable pub greet : Session vte → Bool → ℕ → Outbox → Outbox
  unfolding exit_frames
  greet s poll_running want_chunks tx =
      let replay = Session.replay_for_attach vte s want_chunks in
      let tx' = send_all_ignored tx (frame_data replay.data_bytes) in
      exit_frames s.lifecycle
        (send_ignored tx' (status_frame json (effective_status s poll_running)))

  unfoldable pub attach_client :
      Session vte → Client → Bool → AttachRequest → Bool → List Request × Session vte × Client
  unfolding greet
  attach_client s c poll_running req is_set =
      let (requests, s') = Session.resize vte s req.cols req.rows is_set in
      (requests, s', replace c (greet s' poll_running req.want_chunks req.out_tx))

  abbrev pub request : Actor → List Request → Actor
  request a rs = record a { requests = a.requests ++ rs }

  unfoldable pub on_input : Actor → List ℕ → Flow × Actor
  on_input a bytes = (goes_on, request a (Session.write_input vte a.session bytes))

  unfoldable pub on_resize : Actor → ℕ → ℕ → Bool → Flow × Actor
  on_resize a cols rows is_set =
      let (rs, s') = Session.resize vte a.session cols rows is_set in
      (goes_on, record (request a rs) { session = s' })

  unfoldable pub on_info : Actor → Result ℕ Bool → Flow × Actor
  on_info a busy =
      let reply = Session.info vte a.session (is_some a.client.current) busy in
      (goes_on, record a { replies = a.replies ++ (reply ∷ []) })

  exit_code : Lifecycle → ℕ
  exit_code live = 0
  exit_code (dead status) = status

  unfoldable pub on_close : Actor → ℕ → ℕ → Flow × Actor
  unfolding exit_code
  on_close a grace_ms now =
      let a' = record (request a (Session.hangup vte a.session)) {
        closing = true;
        kill_deadline = if ltb 0 grace_ms then some (now + grace_ms) else a.kill_deadline;
      } in
      if is_dead a
      then (let code = exit_code (a.session).lifecycle in
          (ends, record a' { client = take_with a.client (exit_frame json code) }))
      else (goes_on, a')

  unfoldable pub on_attach : Actor → AttachRequest → Bool → Result ℕ Bool → Flow × Actor
  unfolding attach_client
  on_attach a req is_set busy =
      let poll =
        if has_prompt_marking a then a.poll_running else Session.poll_running vte a.session busy in
      let (rs, s', c') = attach_client a.session a.client poll req is_set in
      let a' = record (request a rs) {
        session = s';
        client = c';
        poll_running = poll;
        last_status = some (effective_status s' poll);
      } in
      (if is_dead a' then ends else goes_on, a')

  -- A STATUS frame when the effective status is not the last one sent.
  unfoldable pub publish : Actor → Actor
  unfolding is_last
  publish a =
      let eff = effective_status a.session a.poll_running in
      if is_last a.last_status eff then a else record a {
        client = push_or_drop a.client (status_frame json eff);
        last_status = some eff;
      }

  -- The `tcgetpgrp` fallback, read again for a live shell without prompt marking.
  unfoldable pub refresh : Actor → Result ℕ Bool → Actor
  refresh a busy =
      if not (has_prompt_marking a) && not (is_dead a)
      then record a { poll_running = Session.poll_running vte a.session busy }
      else a

  -- The part of the readable arm that a detached actor skips.
  unfoldable pub update_client : Actor → Result ℕ Bool → Actor
  unfolding publish refresh
  update_client a busy = if is_some (a.client).current then publish (refresh a busy) else a

  unfoldable pub on_exit : Actor → Option ℕ → ℕ → Flow × Actor
  on_exit a none deadline = (goes_on, a)
  on_exit a (some code) deadline =
      let a' = record a { client = push_or_drop a.client (exit_frame json code) } in
      if a.closing then (ends, a') else (goes_on, record a' { grace_deadline = some deadline })

  unfoldable pub after_drain : Actor → Result ℕ DrainOutcome → Result ℕ Bool → ℕ → Flow × Actor
  unfolding update_client on_exit
  after_drain a (err e) busy now = (ends, a)
  after_drain a (ok o) busy now =
      let forwarded = record a { client = forward_data a.client o.data_bytes } in
      on_exit (update_client forwarded busy) o.exit (now + dead_grace)

  unfoldable pub on_readable :
      Actor → Result ℕ DrainResult → Result ℕ (Option ℕ) → Result ℕ Bool → ℕ → Option (Flow × Actor)
  unfolding after_drain
  on_readable a drained reaped busy now = do
    (r, s') ← Session.drain vte a.session drained reaped
    some (after_drain (record a { session = s' }) r busy now)

  unfoldable pub on_kill : Actor → Flow × Actor
  on_kill a = (goes_on, record (request a (Session.kill vte a.session)) { kill_deadline = none })

  unfoldable pub on_tick : Actor → Result ℕ Bool → Flow × Actor
  unfolding publish
  on_tick a busy =
      (goes_on, publish (record a { poll_running = Session.poll_running vte a.session busy }))

  -- The writer task: it takes the next frame, or ends.
  pub writer_step : (Outbox → Outbox) → Client → Client
  writer_step f c = elim c.current [ none ↦ c | some tx ↦ record c { current = some (f tx) } ]

  unfoldable pub take_frame : Outbox → Outbox
  take_frame tx = if ltb tx.taken (length tx.sent) then record tx { taken = 1 + tx.taken } else tx

  -- The guards of the arms.
  unfoldable pub is_enabled : Actor → Event → Bool
  unfolding is_due
  is_enabled a (readable drained reaped busy now) = not (is_dead a)
  is_enabled a readable_failed = not (is_dead a)
  is_enabled a (grace_over now) = is_due a.grace_deadline now
  is_enabled a (kill_due now) = is_due a.kill_deadline now
  is_enabled a (tick busy) =
      is_some (a.client).current && not (is_dead a) && not (has_prompt_marking a)
  is_enabled a _ = true

  unfoldable pub handle : Actor → Event → Option (Flow × Actor)
  unfolding on_input on_resize on_info on_close on_attach on_readable on_kill on_tick writer_step
      take_frame
  handle a commands_closed = some (ends, a)
  handle a (input bytes) = some (on_input a bytes)
  handle a (resize cols rows is_set) = some (on_resize a cols rows is_set)
  handle a (info busy) = some (on_info a busy)
  handle a (close grace_ms now) = some (on_close a grace_ms now)
  handle a (attach req is_set busy) = some (on_attach a req is_set busy)
  handle a (readable drained reaped busy now) = on_readable a drained reaped busy now
  handle a readable_failed = some (ends, a)
  handle a (grace_over now) = some (ends, a)
  handle a (kill_due now) = some (on_kill a)
  handle a (tick busy) = some (on_tick a busy)
  handle a writer_takes = some (goes_on, record a { client = writer_step take_frame a.client })
  handle a writer_stops = some (
    goes_on,
    record a { client = writer_step (λ (tx : Outbox). record tx { is_open = false }) a.client },
  )

  -- The loop's turns: from an actor, by some events, to an actor whose loop goes on.
  pub data Runs : Actor → List Event → Actor → Type 0 where
    here : {a : Actor} → Runs a [] a
    turn :
        {a b c : Actor} {e : Event} {es : List Event}
        → is_enabled a e ≡ true
        → handle a e ≡ some (goes_on, b)
        → Runs b es c
        → Runs a (e ∷ es) c
