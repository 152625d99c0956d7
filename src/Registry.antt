-- ===== src/Registry.antt =====
-- jftermd/src/registry.rs: the table of sessions. Every operation holds the lock for its whole body,
-- so it is one step. A session id is its bytes. A `Sender` is known by a number: `mpsc::channel`
-- makes a new one. `ended` is the permit that `Notify::notify_one` stores.
pub mod Laws
pub mod Invariant
pub mod Tests
use jfterm_muxer.Base.{
  ℕ, suc, ◌+◌, Bool, true, false, Option, none, some, List, [], ◌∷◌, leb, if◌then◌else◌, bytes_eq,
  length,
}

abbrev pub max_sessions_default : ℕ
max_sessions_default = 256

-- The map, as its entries in some order.
abbrev pub Table : Type 0
Table = List (List ℕ × ℕ)

unfoldable pub get : List ℕ → Table → Option ℕ
get id [] = none
get id ((key, tx) ∷ m) = let rest = get id m in if bytes_eq key id then some tx else rest

unfoldable pub erase : List ℕ → Table → Table
erase id [] = []
erase id ((key, tx) ∷ m) = let rest = erase id m in if bytes_eq key id then m else (key, tx) ∷ rest

pub record Registry : Type 0 where
  pub sessions : Table
  pub ended : Bool
  pub max_sessions : ℕ
  pub next_channel : ℕ

abbrev pub with_max_sessions : ℕ → Registry
with_max_sessions max = record {
  sessions = [];
  ended = false;
  max_sessions = max;
  next_channel = 0;
}

pub data Bind : Type 0 where
  existing : ℕ → Bind
  created : ℕ → Bind
  rejected : Bind

-- The branch for an id that has no session.
create : Registry → List ℕ → Bind × Registry
create r id = if leb r.max_sessions (length r.sessions) then (rejected, r) else (
  created r.next_channel,
  record r {
    sessions = (id, r.next_channel) ∷ r.sessions;
    ended = true;
    next_channel = suc r.next_channel;
  },
)

unfoldable pub attach_or_create : Registry → List ℕ → Bind × Registry
unfolding create
attach_or_create r id = elim (get id r.sessions) [ some tx ↦ (existing tx, r) | none ↦ create r id ]

unfoldable pub remove : Registry → List ℕ → Registry
remove r id = record r { sessions = erase id r.sessions; ended = true }

abbrev pub handles : Registry → Table
handles r = r.sessions

unfoldable pub is_empty : Registry → Bool
is_empty r = elim r.sessions [ [] ↦ true | _ ↦ false ]

-- `notified().await` goes on when a permit is stored, and takes it; `none` is waiting.
unfoldable pub wait_for_change : Registry → Option Registry
wait_for_change r = if r.ended then some (record r { ended = false }) else none
