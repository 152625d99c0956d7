-- ===== src/Server/Sessions/Held.antt =====
-- What each step of the daemon's tasks does to the sessions that they hold (`session_task` and
-- `actor_loop` of jftermd/src/server.rs).
use jfterm_muxer.Base.{
  arith, put, put-same, put-other, ℕ, ◌==◌, ==_iff, Bool-cases, ◌≡◌, ◌≢◌, refl, sym, ◌∙◌, subst,
  inl, inr, ◌⊎◌, true, false, Option, none, some, List, [], Option-cases,
}
use jfterm_muxer.Vte.{Vte}
use jfterm_muxer.Session
use jfterm_muxer.Session.{Session}
use jfterm_muxer.Registry.{Registry, Bind, existing, created, rejected, attach_or_create}
use jfterm_muxer.Registry.Invariant.{Bound, attach_or_create-Bound}
use jfterm_muxer.Client.{Json}
use jfterm_muxer.Actor.{Event, commands_closed, ends, Actor, start, handle, here, is_dead}
use jfterm_muxer.Actor.Keeps.{IsSound}
use jfterm_muxer.Actor.Invariant.{Runs-IsSound, handle-IsSound}
use jfterm_muxer.Actor.Loop.Over.{IsBroken, IsOver, ends-IsOver}
use jfterm_muxer.Server.{
  Phase, opening, running, leaving, Task, Server, bind_session, session_opened, actor_ended,
  task_returned, spawn, leave,
}
use jfterm_muxer.Server.Agree.{Serves, IsConsistent, running_is_not_leaving}
use jfterm_muxer.Server.Sessions.{
  Sessions, SessionStep, bound, opened, not_watched, not_opened, turns, stops, returned, woken,
}

module _ (vte : Vte) (json : Json) (dead_grace : ℕ) where
  -- Why an actor that has ended may still have a live shell: the terminal could not be watched, or a
  -- read of it or the reaping of its child failed.
  pub data Broken : Actor vte json dead_grace → Type 0 where
    unwatched : (s : Session vte) → Broken (start vte json dead_grace s)
    unread :
        {b : Actor vte json dead_grace} (a : Actor vte json dead_grace) (e : Event)
        → e ≢ commands_closed
        → IsBroken vte json dead_grace a e
        → handle vte json dead_grace a e ≡ some (ends, b)
        → Broken b

  -- The session that a task holds, by its phase.
  abbrev pub Holds : Phase → Option (Actor vte json dead_grace) → Type 0
  Holds opening none = Unit {0}
  Holds opening (some a) = ⊥
  Holds running none = ⊥
  Holds running (some a) = IsSound vte json dead_grace a
  Holds leaving none = Unit {0}
  Holds leaving (some a) = (is_dead vte json dead_grace a ≡ true) ⊎ Broken a

  abbrev pub Held : Option Task → Option (Actor vte json dead_grace) → Type 0
  Held none none = Unit {0}
  Held none (some a) = ⊥
  Held (some t) x = Holds t.phase x

  abbrev pub AllHeld : (ℕ → Option Task) → (ℕ → Option (Actor vte json dead_grace)) → Type 0
  AllHeld m n = (k : ℕ) → Held (m k) (n k)

  same_or_not : (k tx : ℕ) → (k ≡ tx) ⊎ (k ≢ tx)
  same_or_not k tx = elim (Bool-cases (k == tx)) [
    | inl t ↦ inl ((==_iff k tx).0 t)
    | inr f ↦ inr (λ e. absurd (grind (arith, e, f)))
  ]

  changed-AllHeld :
      (m m' : ℕ → Option Task) (n n' : ℕ → Option (Actor vte json dead_grace)) (tx : ℕ)
      → ((k : ℕ) → k ≢ tx → m' k ≡ m k)
      → ((k : ℕ) → k ≢ tx → n' k ≡ n k)
      → Held (m' tx) (n' tx)
      → AllHeld m n
      → AllHeld m' n'
  changed-AllHeld m m' n n' tx f g x h k = elim (same_or_not k tx) [
    | inl e ↦ subst (λ j. Held (m' j) (n' j)) (sym e) x
    | inr o ↦
        subst (λ t. Held t (n' k)) (sym (f k o)) (subst (λ y. Held (m k) y) (sym (g k o)) (h k))
  ]

  none-Held : (x : Option (Actor vte json dead_grace)) → Held none x → x ≡ none
  none-Held none h = refl
  none-Held (some a) h = absurd h

  opening-Held : (x : Option (Actor vte json dead_grace)) → Holds opening x → x ≡ none
  opening-Held none h = refl
  opening-Held (some a) h = absurd h

  put2-AllHeld :
      (m m' : ℕ → Option Task) (n : ℕ → Option (Actor vte json dead_grace)) (tx : ℕ)
      (t : Option Task) (x : Option (Actor vte json dead_grace))
      → ((k : ℕ) → k ≢ tx → m' k ≡ m k)
      → Held t x
      → AllHeld m n
      → AllHeld (put m' tx t) (put n tx x)
  put2-AllHeld m m' n tx t x f y =
      changed-AllHeld m (put m' tx t) n (put n tx x) tx (λ k o. put-other m' tx k t o ∙ f k o)
        (λ k o. put-other n tx k x o)
        (subst (λ z. Held z (put n tx x tx)) (sym (put-same m' tx t))
          (subst (λ z. Held t z) (sym (put-same n tx x)) y))

  task-AllHeld :
      (m : ℕ → Option Task) (n : ℕ → Option (Actor vte json dead_grace)) (tx : ℕ) (t : Option Task)
      → Held t (n tx)
      → AllHeld m n
      → AllHeld (put m tx t) n
  task-AllHeld m n tx t y =
      changed-AllHeld m (put m tx t) n n tx (λ k o. put-other m tx k t o) (λ k o. refl)
        (subst (λ z. Held z (n tx)) (sym (put-same m tx t)) y)

  actor-AllHeld :
      (m : ℕ → Option Task) (n : ℕ → Option (Actor vte json dead_grace)) (tx : ℕ)
      (x : Option (Actor vte json dead_grace))
      → Held (m tx) x
      → AllHeld m n
      → AllHeld m (put n tx x)
  actor-AllHeld m n tx x y =
      changed-AllHeld m m n (put n tx x) tx (λ k o. refl) (λ k o. put-other n tx k x o)
        (subst (λ z. Held (m tx) z) (sym (put-same n tx x)) y)

  fresh_task :
      (max : ℕ) (s : Server) (tx : ℕ)
      → IsConsistent max s
      → tx ≡ (s.registry).next_channel
      → s.tasks tx ≡ none
  fresh_task max s tx c e = elim (Option-cases (s.tasks tx)) [
    | inl n ↦ n
    | inr (t, q) ↦ let l = c.made tx t q in absurd (omega (arith, e, l))
  ]

  spawn-AllHeld :
      (max : ℕ) (s : Server) (n : ℕ → Option (Actor vte json dead_grace)) (id : List ℕ) (b : Bind)
      (r : Registry)
      → IsConsistent max s
      → Bound s.registry id (b, r)
      → AllHeld s.tasks n
      → AllHeld (spawn s id (b, r)).1.tasks n
  unfolding spawn
  spawn-AllHeld max s n id (existing tx) r c x h = h
  spawn-AllHeld max s n id rejected r c x h = h
  spawn-AllHeld max s n id (created tx) r c (e, l, q, k, w, g, o) h =
      let new : Option Task = some (record { id = id; phase = opening }) in
      let old = none-Held (n tx) (subst (λ t. Held t (n tx)) (fresh_task max s tx c q) (h tx)) in
      task-AllHeld s.tasks n tx new (subst (λ y. Held new y) (sym old) tt) h

  fresh-IsSound :
      (s : Session vte)
      → Session.is_dead vte s ≡ false
      → IsSound vte json dead_grace (start vte json dead_grace s)
  fresh-IsSound s l = Runs-IsSound vte json dead_grace s [] (start vte json dead_grace s) l here

  running-IsSound :
      (m : ℕ → Option Task) (n : ℕ → Option (Actor vte json dead_grace)) (tx : ℕ) (id : List ℕ)
      (a : Actor vte json dead_grace)
      → AllHeld m n
      → m tx ≡ some (record { id = id; phase = running })
      → n tx ≡ some a
      → IsSound vte json dead_grace a
  running-IsSound m n tx id a h e f =
      subst (λ y. Holds running y) f (subst (λ t. Held t (n tx)) e (h tx))

  IsOver-Holds :
      (a b : Actor vte json dead_grace) (e : Event)
      → e ≢ commands_closed
      → handle vte json dead_grace a e ≡ some (ends, b)
      → IsOver vte json dead_grace a e b
      → Holds leaving (some b)
  IsOver-Holds a b e o q (inl d) = inl d
  IsOver-Holds a b e o q (inr k) = inr (unread a e o k q)

  pub SessionStep-AllHeld :
      (max : ℕ) (h k : Sessions vte json dead_grace)
      → SessionStep vte json dead_grace h k
      → IsConsistent max h.server
      → AllHeld (h.server).tasks h.actors
      → AllHeld (k.server).tasks k.actors
  unfolding bind_session session_opened actor_ended task_returned leave
  SessionStep-AllHeld max h _ (bound id) c a =
      let x = attach_or_create (h.server).registry id in
      spawn-AllHeld max h.server h.actors id x.0 x.1 c
        (attach_or_create-Bound max (h.server).registry id c.valid) a
  SessionStep-AllHeld max h _ (opened tx id s e l) c a =
      let t : Option Task = some (record { id = id; phase = running }) in
      put2-AllHeld (h.server).tasks (h.server).tasks h.actors tx t
        (some (start vte json dead_grace s)) (λ k o. refl) (fresh-IsSound s l) a
  SessionStep-AllHeld max h _ (not_watched tx id s e l) c a =
      let p : Option Task = some (record { id = id; phase = running }) in
      let t : Option Task = some (record { id = id; phase = leaving }) in
      put2-AllHeld (h.server).tasks (put (h.server).tasks tx p) h.actors tx t
        (some (start vte json dead_grace s)) (λ k o. put-other (h.server).tasks tx k p o)
        (inr (unwatched s)) a
  SessionStep-AllHeld max h _ (not_opened tx id e) c a =
      let t : Option Task = some (record { id = id; phase = leaving }) in
      let old = opening-Held (h.actors tx) (subst (λ y. Held y (h.actors tx)) e (a tx)) in
      task-AllHeld (h.server).tasks h.actors tx t (subst (λ y. Held t y) (sym old) tt) a
  SessionStep-AllHeld max h _ (turns tx id x b e p q g f) c a =
      actor-AllHeld (h.server).tasks h.actors tx (some b)
        (subst (λ t. Held t (some b)) (sym p)
          (handle-IsSound vte json dead_grace x b e
            (running-IsSound (h.server).tasks h.actors tx id x a p q) f))
        a
  SessionStep-AllHeld max h _ (stops tx id x b e p q g o f) c a =
      let t : Option Task = some (record { id = id; phase = leaving }) in
      let listed =
        c.listed id tx (subst (λ y. Serves y id) (sym p) (refl, running_is_not_leaving)) in
      put2-AllHeld (h.server).tasks (h.server).tasks h.actors tx t (some b) (λ k o'. refl)
        (IsOver-Holds x b e (λ z. o z listed) f
          (ends-IsOver vte json dead_grace x b e
            (running-IsSound (h.server).tasks h.actors tx id x a p q) g f))
        a
  SessionStep-AllHeld max h _ (returned tx id e) c a =
      put2-AllHeld (h.server).tasks (h.server).tasks h.actors tx none none (λ k o. refl) tt a
  SessionStep-AllHeld max h _ (woken r e) c a = a
