-- ===== src/Server/Agree.antt =====
-- How the registry and the tasks of jftermd/src/server.rs agree, and that `handle_session` keeps it.
use jfterm_muxer.Base.{
  none_is_not_some, put, put-cases, put-other, put-same, ℕ, ◌<◌, ◌≡◌, ◌≢◌, refl, sym, ap, ◌∙◌,
  subst, inl, inr, true, Option, none, some, some-injective, List, arith, Bool-cases, bytes_eq,
  bytes_eq_iff,
}
use jfterm_muxer.Registry.{Registry, get, Bind, existing, created, rejected, attach_or_create}
use jfterm_muxer.Registry.Invariant.{IsValid, Bound, attach_or_create-Bound, bind-IsValid}
use jfterm_muxer.Server.{Phase, opening, running, leaving, Task, Server, spawn, bind_session}

-- The task serves this id: it is there and has not left the registry.
abbrev pub Serves : Option Task → List ℕ → Type 0
Serves none id = ⊥
Serves (some t) id = (t.id ≡ id) × (t.phase ≢ leaving)

-- Every entry of the registry is the channel of a task that serves its id; every task that serves an
-- id is its entry; and every task's channel was made before.
pub record IsConsistent (max : ℕ) (s : Server) : Type 0 where
  pub valid : IsValid max s.registry
  pub served :
      (id : List ℕ) (tx : ℕ) → get id s.registry.sessions ≡ some tx → Serves (s.tasks tx) id
  pub listed :
      (id : List ℕ) (tx : ℕ) → Serves (s.tasks tx) id → get id s.registry.sessions ≡ some tx
  pub made : (tx : ℕ) (t : Task) → s.tasks tx ≡ some t → tx < s.registry.next_channel

abbrev Tasks : Type 0
Tasks = ℕ → Option Task

-- What `bind_session` does, by the answer of `attach_or_create`.
abbrev Spawned : Server → List ℕ → Bind × Registry → Bind × Server → Type 0
Spawned s id (existing tx, r) x = x ≡ (existing tx, record s { registry = r })
Spawned s id (rejected, r) x = x ≡ (rejected, record s { registry = r })
Spawned s id (created tx, r) x = x ≡ (
  created tx,
  record { registry = r; tasks = put s.tasks tx (some (record { id = id; phase = opening })) },
)

pub running_is_not_leaving : running ≢ leaving
running_is_not_leaving e = cc

pub no_leaving : (p : Phase) → p ≡ opening → p ≢ leaving
no_leaving p e k = let z : opening ≡ leaving = sym e ∙ k in cc

created-IsConsistent :
    (max : ℕ) (s : Server) (id : List ℕ) (tx : ℕ) (r : Registry)
    → IsConsistent max s
    → IsValid max r
    → Bound s.registry id (created tx, r)
    → IsConsistent max (spawn s id (created tx, r)).1
unfolding spawn
created-IsConsistent max s id tx r c v (n, l, t, k, w, g, o) =
    let new : Option Task = some (record { id = id; phase = opening }) in
    record {
      valid = v;
      served = λ key ch e. elim (Bool-cases (bytes_eq id key)) [
        | inl y ↦
            let z : ch ≡ tx = sym (some-injective _ _ (sym (g key ∙ rw y refl) ∙ e)) in
            subst (λ h. Serves h key) (sym (ap (put s.tasks tx new) z ∙ put-same s.tasks tx new))
              ((bytes_eq_iff id key).0 y, no_leaving opening refl)
        | inr y ↦
            let old : get key s.registry.sessions ≡ some ch = sym (g key ∙ rw y refl) ∙ e in
            let m = o key ch old in
            subst (λ h. Serves h key)
              (sym (put-other s.tasks tx ch new (λ z. absurd (omega (arith, z, m)))))
              (c.served key ch old)
      ];
      listed = λ key ch e. elim (put-cases s.tasks tx new ch) [
        | inl (z, h) ↦
            let (same, q) = subst (λ h'. Serves h' key) h e in
            let y : bytes_eq id key ≡ true = (bytes_eq_iff id key).1 same in
            g key ∙ rw y (ap some (sym z))
        | inr (z, h) ↦
            let old = c.listed key ch (subst (λ h'. Serves h' key) h e) in
            elim (Bool-cases (bytes_eq id key)) [
              | inl y ↦ absurd (
                  none_is_not_some ch (
                    sym n
                    ∙ (ap (λ q. get q s.registry.sessions) ((bytes_eq_iff id key).0 y) ∙ old)))
              | inr y ↦ g key ∙ rw y old
            ]
      ];
      made = λ ch task e. elim (put-cases s.tasks tx new ch) [
        | inl (z, h) ↦ omega (arith, z, k)
        | inr (z, h) ↦ let m = c.made ch task (sym h ∙ e) in omega (arith, m, t, k)
      ];
    }

-- The tasks are the same, and so is the table.
pub same-IsConsistent :
    (max : ℕ) (s : Server) (r : Registry)
    → IsConsistent max s
    → IsValid max r
    → r.sessions ≡ s.registry.sessions
    → r.next_channel ≡ s.registry.next_channel
    → IsConsistent max (record s { registry = r })
same-IsConsistent max s r c v e n = record {
  valid = v;
  served = λ id tx h. c.served id tx (sym (ap (get id) e) ∙ h);
  listed = λ id tx h. ap (get id) e ∙ c.listed id tx h;
  made = λ tx t h. subst (λ k. tx < k) (sym n) (c.made tx t h);
}

spawn-IsConsistent :
    (max : ℕ) (s : Server) (id : List ℕ) (b : Bind) (r : Registry)
    → IsConsistent max s
    → IsValid max r
    → Bound s.registry id (b, r)
    → IsConsistent max (spawn s id (b, r)).1
unfolding spawn
spawn-IsConsistent max s id (existing tx) r c v (e, k) =
    same-IsConsistent max s r c v (ap (λ (q : Registry). q.sessions) k)
      (ap (λ (q : Registry). q.next_channel) k)
spawn-IsConsistent max s id rejected r c v (e, l, k) =
    same-IsConsistent max s r c v (ap (λ (q : Registry). q.sessions) k)
      (ap (λ (q : Registry). q.next_channel) k)
spawn-IsConsistent max s id (created tx) r c v b = created-IsConsistent max s id tx r c v b

pub bind_session-IsConsistent :
    (max : ℕ) (s : Server) (id : List ℕ)
    → IsConsistent max s
    → IsConsistent max (bind_session s id).1
unfolding bind_session
bind_session-IsConsistent max s id c =
    spawn-IsConsistent max s id (attach_or_create s.registry id).0
      (attach_or_create s.registry id).1 c (bind-IsValid max s.registry id c.valid)
      (attach_or_create-Bound max s.registry id c.valid)
