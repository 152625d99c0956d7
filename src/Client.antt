-- ===== src/Client.antt =====
-- The client of an actor in jftermd/src/server.rs: the sending side of a bounded `mpsc` channel, whose
-- receiving side a writer task owns, and the frames that go into it.
pub mod Laws
pub mod Tests
use jfterm_muxer.Base.{
  ℕ, ◌+◌, Bool, true, false, ◌&&◌, Option, none, some, List, [], ◌∷◌, ◌++◌, ltb, if◌then◌else◌,
  length, unwrap_or,
}
use jfterm_muxer.Status.{StatusSnapshot}
use jfterm_muxer.Protocol.{Frame, status, exit, frame_data}

-- The channel by its history: what was sent into it, how many of those the writer has taken, and
-- whether the writer is there.
pub record Outbox : Type 0 where
  pub sent : List Frame
  pub taken : ℕ
  pub capacity : ℕ
  pub is_open : Bool

-- `mpsc::Sender::try_send`; `none` is a full or closed channel.
unfoldable pub try_send : Outbox → Frame → Option Outbox
try_send tx f =
    if tx.is_open && ltb (length tx.sent) (tx.taken + tx.capacity)
    then some (record tx { sent = tx.sent ++ (f ∷ []) })
    else none

-- `let _ = tx.try_send(f)`.
unfoldable pub send_ignored : Outbox → Frame → Outbox
unfolding try_send
send_ignored tx f = unwrap_or (try_send tx f) tx

unfoldable pub send_all_ignored : Outbox → List Frame → Outbox
unfolding send_ignored
send_all_ignored tx [] = tx
send_all_ignored tx (f ∷ fs) = send_all_ignored (send_ignored tx f) fs

-- The attached client, and the channels whose sender the actor has dropped; their writers still
-- write what was sent, and then end.
pub record Client : Type 0 where
  pub current : Option Outbox
  pub gone : List Outbox

abbrev pub no_client : Client
no_client = record { current = none; gone = [] }

unfoldable pub drop_client : Client → Client
drop_client c = elim c.current [
  | some tx ↦ record { current = none; gone = tx ∷ c.gone }
  | none ↦ c
]

unfoldable pub push_or_drop : Client → Frame → Client
unfolding try_send drop_client
push_or_drop c f = elim c.current [
  | none ↦ c
  | some tx ↦ elim (try_send tx f) [
    | some tx' ↦ record c { current = some tx' }
    | none ↦ drop_client c
  ]
]

unfoldable pub push_all : Client → List Frame → Client
unfolding push_or_drop
push_all c [] = c
push_all c (f ∷ fs) = push_all (push_or_drop c f) fs

unfoldable pub forward_data : Client → List ℕ → Client
unfolding push_all
forward_data c bytes = push_all c (frame_data bytes)

-- `*client = Some(tx)`.
unfoldable pub replace : Client → Outbox → Client
unfolding drop_client
replace c tx = record (drop_client c) { current = some tx }

-- `client.take()` and a last frame into what was taken.
unfoldable pub take_with : Client → Frame → Client
unfolding send_ignored
take_with c f = elim c.current [
  | some tx ↦ record { current = none; gone = send_ignored tx f ∷ c.gone }
  | none ↦ c
]

-- `serde_json::to_vec` of a `StatusMsg` and of an `ExitMsg`.
pub record Json : Type 0 where
  pub status_msg : StatusSnapshot → List ℕ
  pub exit_msg : ℕ → List ℕ

abbrev pub status_frame : Json → StatusSnapshot → Frame
status_frame json s = record { ty = status; payload = json.status_msg s }

abbrev pub exit_frame : Json → ℕ → Frame
exit_frame json code = record { ty = exit; payload = json.exit_msg code }
