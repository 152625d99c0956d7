-- ===== src/Server/Phases.antt =====
-- The phases of a `session_task` of jftermd/src/server.rs, and what their changes keep.
use jfterm_muxer.Base.{
  true_is_not_false, none_is_not_some, put, put-cases, ℕ, ◌≡◌, ◌≢◌, refl, sym, ap, ◌∙◌, subst, inl,
  inr, Option, none, some, some-injective, List, Bool-cases, bytes_eq, bytes_eq_iff,
}
use jfterm_muxer.Registry.{get, remove}
use jfterm_muxer.Registry.Invariant.{remove-IsValid, remove-get}
use jfterm_muxer.Server.{Phase, running, leaving, Task, Server, leave, task_returned}
use jfterm_muxer.Server.Agree.{Serves, IsConsistent, running_is_not_leaving}

-- A task that serves its id goes on to another phase in which it does.
pub runs-IsConsistent :
    (max : ℕ) (s : Server) (tx : ℕ) (id : List ℕ) (p : Phase)
    → IsConsistent max s
    → s.tasks tx ≡ some (record { id = id; phase = p })
    → p ≢ leaving
    → IsConsistent max
        (record s { tasks = put s.tasks tx (some (record { id = id; phase = running })) })
runs-IsConsistent max s tx id p c e n =
    let new : Option Task = some (record { id = id; phase = running }) in
    let run : running ≢ leaving = λ k. absurd (running_is_not_leaving k) in
    record {
      valid = c.valid;
      served = λ key ch h. elim (put-cases s.tasks tx new ch) [
        | inl (z, k) ↦
            let old = subst (λ t. Serves t key) (ap s.tasks z ∙ e) (c.served key ch h) in
            subst (λ t. Serves t key) (sym k) (old.0, run)
        | inr (z, k) ↦ subst (λ t. Serves t key) (sym k) (c.served key ch h)
      ];
      listed = λ key ch h. elim (put-cases s.tasks tx new ch) [
        | inl (z, k) ↦
            let (same, q) = subst (λ t. Serves t key) k h in
            c.listed key ch (subst (λ t. Serves t key) (sym (ap s.tasks z ∙ e)) (same, n))
        | inr (z, k) ↦ c.listed key ch (subst (λ t. Serves t key) k h)
      ];
      made = λ ch t h. elim (put-cases s.tasks tx new ch) [
        | inl (z, k) ↦ c.made ch (record { id = id; phase = p }) (ap s.tasks z ∙ e)
        | inr (z, k) ↦ c.made ch t (sym k ∙ h)
      ];
    }

pub leave-IsConsistent :
    (max : ℕ) (s : Server) (tx : ℕ) (id : List ℕ) (p : Phase)
    → IsConsistent max s
    → s.tasks tx ≡ some (record { id = id; phase = p })
    → p ≢ leaving
    → IsConsistent max (leave s tx id)
unfolding leave remove
leave-IsConsistent max s tx id p c e n =
    let new : Option Task = some (record { id = id; phase = leaving }) in
    let mine : get id s.registry.sessions ≡ some tx =
      c.listed id tx (subst (λ t. Serves t id) (sym e) (refl, n)) in
    let removed = λ (key : List ℕ). (remove-get max s.registry id key c.valid).0 in
    record {
      valid = remove-IsValid max s.registry id c.valid;
      served = λ key ch h. elim (Bool-cases (bytes_eq id key)) [
        | inl y ↦ absurd (none_is_not_some ch (sym (removed key ∙ rw y refl) ∙ h))
        | inr y ↦
            let old : get key s.registry.sessions ≡ some ch = sym (removed key ∙ rw y refl) ∙ h in
            elim (put-cases s.tasks tx new ch) [
              | inl (z, k) ↦
                  let own = subst (λ t. Serves t key) (ap s.tasks z ∙ e) (c.served key ch old) in
                  absurd (true_is_not_false (sym ((bytes_eq_iff id key).1 own.0) ∙ y))
              | inr (z, k) ↦ subst (λ t. Serves t key) (sym k) (c.served key ch old)
            ]
      ];
      listed = λ key ch h. elim (put-cases s.tasks tx new ch) [
        | inl (z, k) ↦ absurd ((subst (λ t. Serves t key) k h).1 refl)
        | inr (z, k) ↦
            let old = c.listed key ch (subst (λ t. Serves t key) k h) in
            elim (Bool-cases (bytes_eq id key)) [
              | inl y ↦
                  let same : get key s.registry.sessions ≡ some tx =
                    sym (ap (λ q. get q s.registry.sessions) ((bytes_eq_iff id key).0 y)) ∙ mine in
                  absurd (z (some-injective _ _ (sym old ∙ same)))
              | inr y ↦ removed key ∙ rw y old
            ]
      ];
      made = λ ch t h. elim (put-cases s.tasks tx new ch) [
        | inl (z, k) ↦ c.made ch (record { id = id; phase = p }) (ap s.tasks z ∙ e)
        | inr (z, k) ↦ c.made ch t (sym k ∙ h)
      ];
    }

pub returned-IsConsistent :
    (max : ℕ) (s : Server) (tx : ℕ) (id : List ℕ)
    → IsConsistent max s
    → s.tasks tx ≡ some (record { id = id; phase = leaving })
    → IsConsistent max (task_returned s tx)
unfolding task_returned
returned-IsConsistent max s tx id c e = record {
  valid = c.valid;
  served = λ key ch h. elim (put-cases s.tasks tx none ch) [
    | inl (z, k) ↦
        absurd ((subst (λ t. Serves t key) (ap s.tasks z ∙ e) (c.served key ch h)).1 refl)
    | inr (z, k) ↦ subst (λ t. Serves t key) (sym k) (c.served key ch h)
  ];
  listed = λ key ch h. elim (put-cases s.tasks tx none ch) [
    | inl (z, k) ↦ absurd (subst (λ t. Serves t key) k h)
    | inr (z, k) ↦ c.listed key ch (subst (λ t. Serves t key) k h)
  ];
  made = λ ch t h. elim (put-cases s.tasks tx none ch) [
    | inl (z, k) ↦ absurd (none_is_not_some t (sym k ∙ h))
    | inr (z, k) ↦ c.made ch t (sym k ∙ h)
  ];
}
