-- ===== src/Actor/Loop/Over.antt =====
-- Why a turn of `actor_loop` of jftermd/src/server.rs ends it.
use jfterm_muxer.Base.{
  ℕ, ◌≡◌, ◌≢◌, refl, sym, ap, ◌∙◌, subst, inl, inr, ◌⊎◌, Bool, true, false, Option, none, some,
  some-injective, if◌then◌else◌, >>=-eq-some, if-elim, is_some, ◌+◌,
}
use jfterm_muxer.Vte.{Vte}
use jfterm_muxer.Protocol.{Result, ok, err}
use jfterm_muxer.Pty.{DrainResult}
use jfterm_muxer.Session
use jfterm_muxer.Session.{Session, is_dead_life, DrainOutcome}
use jfterm_muxer.Session.Laws.{Exit, drain-Drained}
use jfterm_muxer.Client.{Json, forward_data}
use jfterm_muxer.Actor.Keeps.{ok_is_no_err, IsSound, update_client-Keeps}
use jfterm_muxer.Actor.{
  Event, commands_closed, input, resize, info, close, attach, readable, readable_failed, grace_over,
  kill_due, tick, writer_takes, writer_stops, Flow, goes_on, ends, Actor, is_enabled, handle,
  AttachRequest, is_dead, is_due, on_input, on_resize, on_info, on_kill, on_tick, on_close,
  on_attach, attach_client, on_exit, after_drain, on_readable, update_client,
}

module _ (vte : Vte) (json : Json) (dead_grace : ℕ) where
  abbrev Turn : Type 0
  Turn = Flow × Actor vte json dead_grace

  -- Why a turn ends the loop: the shell is dead, or the loop cannot go on.
  abbrev pub IsBroken : Actor vte json dead_grace → Event → Type 0
  IsBroken a commands_closed = Unit {0}
  IsBroken a readable_failed = Unit {0}
  IsBroken a (readable drained reaped busy now) =
      (e : ℕ) × (s : Session vte) × (Session.drain vte a.session drained reaped ≡ some (err e, s))
  IsBroken a _ = ⊥

  abbrev pub IsOver : Actor vte json dead_grace → Event → Actor vte json dead_grace → Type 0
  IsOver a e b = (is_dead vte json dead_grace b ≡ true) ⊎ IsBroken a e

  pub on_is_no_end :
      (x : Turn) (b : Actor vte json dead_grace) → x.0 ≡ goes_on → some x ≢ some (ends, b)
  on_is_no_end x b g e =
      let z : goes_on ≡ ends = sym g ∙ ap (λ (y : Turn). y.0) (some-injective _ _ e) in cc

  -- What a turn that ends gives.
  abbrev EndsDead : Turn → Type 0
  EndsDead (goes_on, b) = Unit {0}
  EndsDead (ends, b) = is_dead vte json dead_grace b ≡ true

  EndsDead-of :
      (x : Turn) (b : Actor vte json dead_grace)
      → some x ≡ some (ends, b)
      → EndsDead x
      → is_dead vte json dead_grace b ≡ true
  EndsDead-of x b e d = subst EndsDead (some-injective _ _ e) d

  close-EndsDead :
      (a : Actor vte json dead_grace) (grace_ms now : ℕ)
      → EndsDead (on_close vte json dead_grace a grace_ms now)
  unfolding on_close
  close-EndsDead a grace_ms now =
      if-elim EndsDead (is_dead vte json dead_grace a) _ _ (λ t. t) (λ f. tt)

  attach-EndsDead :
      (a : Actor vte json dead_grace) (req : AttachRequest) (is_set : Bool) (busy : Result ℕ Bool)
      → EndsDead (on_attach vte json dead_grace a req is_set busy)
  unfolding on_attach attach_client Session.resize
  attach-EndsDead a req is_set busy = flow-EndsDead (is_dead vte json dead_grace a) _ (λ t. t)
    where
      flow-EndsDead :
          (c : Bool) (b : Actor vte json dead_grace)
          → (c ≡ true → is_dead vte json dead_grace b ≡ true)
          → EndsDead (if c then ends else goes_on, b)
      flow-EndsDead true b h = h refl
      flow-EndsDead false b h = tt

  exit-EndsDead :
      (a : Actor vte json dead_grace) (exit : Option ℕ) (deadline : ℕ)
      → ((code : ℕ) → exit ≡ some code → is_dead vte json dead_grace a ≡ true)
      → EndsDead (on_exit vte json dead_grace a exit deadline)
  unfolding on_exit
  exit-EndsDead a none deadline h = tt
  exit-EndsDead a (some code) deadline h =
      if-elim EndsDead a.closing _ _ (λ t. h code refl) (λ f. tt)

  Exit-dead :
      (s s' : Session vte) (d : DrainResult) (reaped : Result ℕ (Option ℕ)) (exit : Option ℕ)
      (code : ℕ)
      → Exit vte s d reaped exit s'
      → exit ≡ some code
      → Session.is_dead vte s' ≡ true
  unfolding is_dead_life
  Exit-dead s s' d reaped none code x e = let z : none ≡ some code = e in cc
  Exit-dead s s' d reaped (some c) code (g, l, r) e = ap is_dead_life l

  drain-EndsDead :
      (a : Actor vte json dead_grace) (drained : Result ℕ DrainResult)
      (reaped : Result ℕ (Option ℕ)) (busy : Result ℕ Bool) (now : ℕ) (o : DrainOutcome)
      (s' : Session vte)
      → Session.drain vte a.session drained reaped ≡ some (ok o, s')
      → EndsDead (after_drain vte json dead_grace (record a { session = s' }) (ok o) busy now)
  unfolding after_drain Session.drain
  drain-EndsDead a (err x) reaped busy now o s' e = absurd (
      ok_is_no_err x o
        (ap (λ (z : Result ℕ DrainOutcome × Session vte). z.0) (some-injective _ _ e)))
  drain-EndsDead a (ok d) reaped busy now o s' e =
      let (f, g, h, x) = drain-Drained vte a.session d reaped (ok o, s') e in
      let b = record a { session = s'; client = forward_data a.client o.data_bytes } in
      let k = update_client-Keeps vte json dead_grace b busy in
      exit-EndsDead (update_client vte json dead_grace b busy) o.exit (now + dead_grace)
        (λ code q. ap is_dead_life k.lifecycle ∙ Exit-dead a.session s' d reaped o.exit code x q)

  readable-IsOver :
      (a b : Actor vte json dead_grace) (drained : Result ℕ DrainResult)
      (reaped : Result ℕ (Option ℕ)) (busy : Result ℕ Bool) (now : ℕ) (r : Result ℕ DrainOutcome)
      (s' : Session vte)
      → Session.drain vte a.session drained reaped ≡ some (r, s')
      → some (after_drain vte json dead_grace (record a { session = s' }) r busy now)
        ≡ some (ends, b)
      → IsOver a (readable drained reaped busy now) b
  readable-IsOver a b drained reaped busy now (err x) s' f e = inr (x, s', f)
  readable-IsOver a b drained reaped busy now (ok o) s' f e =
      inl (EndsDead-of _ b e (drain-EndsDead a drained reaped busy now o s' f))

  due_is_some : (d : Option ℕ) (now : ℕ) → is_due d now ≡ true → is_some d ≡ true
  unfolding is_due
  due_is_some none now e = e
  due_is_some (some x) now e = refl

  pub ends-IsOver :
      (a b : Actor vte json dead_grace) (e : Event)
      → IsSound vte json dead_grace a
      → is_enabled vte json dead_grace a e ≡ true
      → handle vte json dead_grace a e ≡ some (ends, b)
      → IsOver a e b
  unfolding handle is_enabled on_input on_resize on_info on_kill on_tick on_readable
  ends-IsOver a b commands_closed s g e = inr tt
  ends-IsOver a b (input bytes) s g e = absurd (on_is_no_end _ b refl e)
  ends-IsOver a b (resize cols rows is_set) s g e = absurd (on_is_no_end _ b refl e)
  ends-IsOver a b (info busy) s g e = absurd (on_is_no_end _ b refl e)
  ends-IsOver a b (close grace_ms now) s g e =
      inl (EndsDead-of _ b e (close-EndsDead a grace_ms now))
  ends-IsOver a b (attach req is_set busy) s g e =
      inl (EndsDead-of _ b e (attach-EndsDead a req is_set busy))
  ends-IsOver a b (readable drained reaped busy now) s g e =
      let ((r, s'), f, h) = >>=-eq-some (Session.drain vte a.session drained reaped) _ e in
      readable-IsOver a b drained reaped busy now r s' f h
  ends-IsOver a b readable_failed s g e = inr tt
  ends-IsOver a b (grace_over now) s g e =
      inl (EndsDead-of (ends, a) b e (s.retained ∙ due_is_some a.grace_deadline now g))
  ends-IsOver a b (kill_due now) s g e = absurd (on_is_no_end _ b refl e)
  ends-IsOver a b (tick busy) s g e = absurd (on_is_no_end _ b refl e)
  ends-IsOver a b writer_takes s g e = absurd (on_is_no_end _ b refl e)
  ends-IsOver a b writer_stops s g e = absurd (on_is_no_end _ b refl e)
