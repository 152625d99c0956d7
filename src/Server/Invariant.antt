-- ===== src/Server/Invariant.antt =====
-- What every step of the daemon keeps (`handle_session`, `session_task` and the end of `actor_loop` of
-- jftermd/src/server.rs): the registry and the running tasks agree.
use jfterm_muxer.Base.{
  none_is_not_some, ℕ, ◌≡◌, refl, sym, ap, ◌∙◌, subst, inl, inr, Bool, true, false, some,
  some-injective, List, Bool-cases,
}
use jfterm_muxer.Registry.{Registry, get, wait_for_change}
use jfterm_muxer.Registry.Invariant.{IsValid, step-IsValid, step, wait, new-IsValid}
use jfterm_muxer.Server.{
  opening, running, Server, new_server, session_opened, actor_ended, Step, binds, opens, ends,
  returns, wakes, Reaches, here, later,
}
use jfterm_muxer.Server.Agree.{
  IsConsistent, running_is_not_leaving, no_leaving, same-IsConsistent, bind_session-IsConsistent,
}
use jfterm_muxer.Server.Phases.{runs-IsConsistent, leave-IsConsistent, returned-IsConsistent}

woken_same :
    (r r' : Registry)
    → wait_for_change r ≡ some r'
    → (r'.sessions ≡ r.sessions) × (r'.next_channel ≡ r.next_channel)
unfolding wait_for_change
woken_same r r' e = elim (Bool-cases r.ended) [
  | inl t ↦
      let k : some (record r { ended = false }) ≡ some r' = sym (rw t refl) ∙ e in
      let q = some-injective _ _ k in
      (ap (λ (x : Registry). x.sessions) (sym q), ap (λ (x : Registry). x.next_channel) (sym q))
  | inr f ↦ absurd (none_is_not_some r' (sym (rw f refl) ∙ e))
]

woken_step : (r r' : Registry) → wait_for_change r ≡ some r' → step r wait ≡ r'
woken_step r r' e = rw (e, step) refl

wakes-IsConsistent :
    (max : ℕ) (s : Server) (r : Registry)
    → IsConsistent max s
    → wait_for_change s.registry ≡ some r
    → IsConsistent max (record s { registry = r })
wakes-IsConsistent max s r c e =
    let (a, b) = woken_same s.registry r e in
    same-IsConsistent max s r c
      (subst (IsValid max) (woken_step s.registry r e) (step-IsValid max s.registry wait c.valid)) a
      b

opened-IsConsistent :
    (max : ℕ) (s : Server) (tx : ℕ) (id : List ℕ) (is_ok : Bool)
    → IsConsistent max s
    → s.tasks tx ≡ some (record { id = id; phase = opening })
    → IsConsistent max (session_opened s tx id is_ok)
unfolding session_opened
opened-IsConsistent max s tx id true c e =
    runs-IsConsistent max s tx id opening c e (no_leaving opening refl)
opened-IsConsistent max s tx id false c e =
    leave-IsConsistent max s tx id opening c e (no_leaving opening refl)

pub Step-IsConsistent :
    (max : ℕ) (s t : Server) → Step s t → IsConsistent max s → IsConsistent max t
unfolding actor_ended
Step-IsConsistent max s _ (binds id) c = bind_session-IsConsistent max s id c
Step-IsConsistent max s _ (opens tx id is_ok e) c = opened-IsConsistent max s tx id is_ok c e
Step-IsConsistent max s _ (ends tx id e) c =
    leave-IsConsistent max s tx id running c e (λ k. absurd (running_is_not_leaving k))
Step-IsConsistent max s _ (returns tx id e) c = returned-IsConsistent max s tx id c e
Step-IsConsistent max s _ (wakes r e) c = wakes-IsConsistent max s r c e

Reaches-IsConsistent' :
    (max : ℕ) (s t : Server) → Reaches s t → IsConsistent max s → IsConsistent max t
Reaches-IsConsistent' max s _ here c = c
Reaches-IsConsistent' max s t (later {t = u} x r) c =
    Reaches-IsConsistent' max u t r (Step-IsConsistent max s u x c)

pub new-IsConsistent : (max : ℕ) → IsConsistent max (new_server max)
unfolding get
new-IsConsistent max = record {
  valid = new-IsValid max;
  served = λ id tx e. none_is_not_some tx e;
  listed = λ id tx e. absurd e;
  made = λ tx t e. absurd (none_is_not_some t e);
}

-- Whatever the daemon's tasks do, in any order: the registry keeps its own invariant; each of its
-- entries is the channel of a task that opens or runs the session of that id; each such task has its
-- entry, so that no id has two; and all channels are different.
pub Reaches-IsConsistent : (max : ℕ) (s : Server) → Reaches (new_server max) s → IsConsistent max s
Reaches-IsConsistent max s r = Reaches-IsConsistent' max (new_server max) s r (new-IsConsistent max)
