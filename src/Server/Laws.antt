-- ===== src/Server/Laws.antt =====
-- What the daemon answers (`handle_session`, `session_task` of jftermd/src/server.rs).
use jfterm_muxer.Base.{
  none_is_not_some, put-other, put-same, ℕ, ◌≤◌, ◌<◌, ◌≡◌, ◌≢◌, refl, sym, ◌∙◌, subst, inl, inr,
  ◌⊎◌, true, false, Option, none, some, List, [], ◌∷◌, arith, if◌then◌else◌, is_some, bytes_eq,
  bytes_eq_iff, length,
}
use jfterm_muxer.Registry.{
  Registry, Table, get, Bind, existing, created, rejected, attach_or_create, remove, is_empty,
}
use jfterm_muxer.Registry.Laws.{length-erase}
use jfterm_muxer.Registry.Invariant.{Bound, attach_or_create-Bound, remove-get}
use jfterm_muxer.Actor.{AttachRequest}
use jfterm_muxer.Server.{
  AttachOrOpen, opening, Task, Server, new_server, spawn, bind_session, Served, refused, actor_gone,
  attached, send_attach, serve, handle_session, leave, session_opened, Reaches,
}
use jfterm_muxer.Server.Agree.{Serves, IsConsistent, no_leaving}
use jfterm_muxer.Server.Invariant.{Reaches-IsConsistent}

-- The attach that a request asks for, with a new queue of that many frames.
abbrev pub attach_of : AttachOrOpen → ℕ → AttachRequest
attach_of req out_queue = record {
  want_chunks = req.want_chunks;
  cols = req.cols;
  rows = req.rows;
  out_tx = record { sent = []; taken = 0; capacity = out_queue; is_open = true };
}

-- What becomes of a request for a session, by what `bind_session` gave.
abbrev pub Answered :
    Server → AttachOrOpen → ℕ → (Server → Server) → Bind × Server → Served → Type 0
Answered s req out_queue meanwhile (b, s') x =
    ((x ≡ refused)
      × (get req.session_id s.registry.sessions ≡ none)
      × (s.registry.max_sessions ≤ length s.registry.sessions))
    ⊎ ((tx : ℕ) × Serves (s'.tasks tx) req.session_id
        × (x ≡ (
            if is_some ((meanwhile s').tasks tx)
            then attached tx (attach_of req out_queue)
            else actor_gone)))

spawn-Answered :
    (max : ℕ) (s : Server) (req : AttachOrOpen) (out_queue : ℕ) (meanwhile : Server → Server)
    (b : Bind) (r : Registry)
    → IsConsistent max s
    → Bound s.registry req.session_id (b, r)
    → (let x = spawn s req.session_id (b, r) in
        Answered s req out_queue meanwhile x (serve (meanwhile x.1) x.0 req out_queue))
unfolding spawn serve send_attach
spawn-Answered max s req q m (existing tx) r c (e, k) = inr (tx, c.served req.session_id tx e, refl)
spawn-Answered max s req q m rejected r c (e, l, k) = inl (refl, e, l)
spawn-Answered max s req q m (created tx) r c b =
    let new : Option Task = some (record { id = req.session_id; phase = opening }) in
    inr (
      tx,
      subst (λ t. Serves t req.session_id) (sym (put-same s.tasks tx new))
          (refl, no_leaving opening refl),
      refl,
    )

-- In any state that the daemon reaches, a request for a session is refused only when the id is new and
-- the table is full. Otherwise it is bound to a task that serves its id, an old one or one spawned for
-- it, and its attach, with its sizes, its history limit and a new queue, goes to that task, unless the
-- task has returned by then; then the connection ends. A session that is being closed is served like
-- any other one until it has ended.
pub handle_session-Answered :
    (max : ℕ) (s : Server) (req : AttachOrOpen) (out_queue : ℕ) (meanwhile : Server → Server)
    → Reaches (new_server max) s
    → Answered s req out_queue meanwhile
        (bind_session s req.session_id)
        (handle_session s (some req) meanwhile out_queue).0
unfolding handle_session bind_session
handle_session-Answered max s req q m r =
    let c = Reaches-IsConsistent max s r in
    let x = attach_or_create s.registry req.session_id in
    spawn-Answered max s req q m x.0 x.1 c
      (attach_or_create-Bound max s.registry req.session_id c.valid)

no_entry : (id : List ℕ) (m : Table) (tx : ℕ) → m ≡ [] → get id m ≢ some tx
unfolding get
no_entry id [] tx e k = none_is_not_some tx k
no_entry id (x ∷ m) tx e k = cc

is_empty_nil : (r : Registry) → is_empty r ≡ true → r.sessions ≡ []
unfolding is_empty
is_empty_nil r e = nil_of r.sessions e
  where
    nil_of : (m : Table) → (elim m [ [] ↦ true | _ ↦ false ]) ≡ true → m ≡ []
    nil_of [] k = refl
    nil_of (x ∷ m) k = cc

pub empty-idle :
    (max : ℕ) (s : Server) (tx : ℕ) (id : List ℕ)
    → IsConsistent max s
    → is_empty s.registry ≡ true
    → ¬ Serves (s.tasks tx) id
empty-idle max s tx id c e x =
    no_entry id s.registry.sessions tx (is_empty_nil s.registry e) (c.listed id tx x)

-- A session is gone, and nothing else is.
pub record IsGone (s s' : Server) (tx : ℕ) (id : List ℕ) : Type 0 where
  pub gone : get id s'.registry.sessions ≡ none
  pub others :
      (key : List ℕ)
      → bytes_eq id key ≡ false
      → get key s'.registry.sessions ≡ get key s.registry.sessions
  pub tasks : (n : ℕ) → n ≢ tx → s'.tasks n ≡ s.tasks n
  pub woken : s'.registry.ended ≡ true
  pub room : length s'.registry.sessions < s'.registry.max_sessions

leave-IsGone :
    (max : ℕ) (s : Server) (tx : ℕ) (id : List ℕ)
    → IsConsistent max s
    → Serves (s.tasks tx) id
    → IsGone s (leave s tx id) tx id
unfolding leave remove
leave-IsGone max s tx id c x =
    let removed = λ (key : List ℕ). (remove-get max s.registry id key c.valid).0 in
    let here : bytes_eq id id ≡ true = (bytes_eq_iff id id).1 refl in
    let (full, le, d, below, separate) = c.valid in
    record {
      gone = removed id ∙ rw here refl;
      others = λ key f. removed key ∙ rw f refl;
      tasks = λ n h. put-other s.tasks tx n _ h;
      woken = refl;
      room = omega (arith, full, le, length-erase id s.registry.sessions tx (c.listed id tx x));
    }

-- When a session's terminal cannot be opened, its id leaves the registry: no other id or task is
-- touched, the watcher is woken, and there is room for a session again. This holds in any state that
-- the daemon reaches.
pub session_opened-IsGone :
    (max : ℕ) (s : Server) (tx : ℕ) (id : List ℕ)
    → Reaches (new_server max) s
    → s.tasks tx ≡ some (record { id = id; phase = opening })
    → IsGone s (session_opened s tx id false) tx id
unfolding session_opened
session_opened-IsGone max s tx id r e =
    leave-IsGone max s tx id (Reaches-IsConsistent max s r)
      (subst (λ t. Serves t id) (sym e) (refl, no_leaving opening refl))
