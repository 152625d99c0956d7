-- ===== src/Actor/Invariant.antt =====
-- What holds at the top of the loop of `actor_loop` (jftermd/src/server.rs) at every turn.
use jfterm_muxer.Base.{
  ℕ, ◌+◌, ◌≡◌, ◌≢◌, refl, sym, ap, ◌∙◌, subst, inl, inr, Bool, true, false, Option, none, some,
  List, [], ◌∷◌, some-injective, if◌then◌else◌, is_some, if-elim, Option-cases, >>=-eq-some,
}
use jfterm_muxer.Vte.{Vte}
use jfterm_muxer.Protocol.{Result, ok, err}
use jfterm_muxer.Pty.{DrainResult}
use jfterm_muxer.Session
use jfterm_muxer.Session.{Session, Lifecycle, live, dead, is_dead_life, DrainOutcome}
use jfterm_muxer.Session.Laws.{Exit, drain-Drained}
use jfterm_muxer.Client.{Outbox, Client, forward_data, Json}
use jfterm_muxer.Actor.{
  AttachRequest, Event, commands_closed, input, resize, info, close, attach, readable,
  readable_failed, grace_over, kill_due, tick, writer_takes, writer_stops, Flow, goes_on, ends,
  Actor, start, is_dead, attach_client, on_input, on_resize, on_info, on_close, on_attach, publish,
  update_client, on_exit, after_drain, on_readable, on_kill, on_tick, handle, Runs, here, turn,
  writer_step,
}
use jfterm_muxer.Actor.Keeps.{
  push_kept, forward_kept, ok_is_no_err, IsSound, Keeps-IsSound, publish-Keeps, update_client-Keeps,
}

module _ (vte : Vte) (json : Json) (dead_grace : ℕ) where
  abbrev Safe : Flow × Actor vte json dead_grace → Type 0
  Safe (goes_on, a) = IsSound vte json dead_grace a
  Safe (ends, a) = Unit {0}

  Safe-flow :
      (b : Bool) (a : Actor vte json dead_grace)
      → (b ≡ false → IsSound vte json dead_grace a)
      → Safe (if b then ends else goes_on, a)
  Safe-flow true a h = tt
  Safe-flow false a h = h refl

  Safe-of :
      (x : Flow × Actor vte json dead_grace) (b : Actor vte json dead_grace)
      → some x ≡ some (goes_on, b)
      → Safe x
      → IsSound vte json dead_grace b
  Safe-of x b e s = subst Safe (some-injective _ _ e) s

  pub ends_not_on :
      (x : Flow × Actor vte json dead_grace) (b : Actor vte json dead_grace)
      → x.0 ≡ ends
      → some x ≢ some (goes_on, b)
  ends_not_on x b k e =
      let z : ends ≡ goes_on =
        sym k ∙ ap (λ (q : Flow × Actor vte json dead_grace). q.0) (some-injective _ _ e) in
      cc

  writer_none :
      (f : Outbox → Outbox) (c : Client)
      → c.current ≡ none
      → is_some (writer_step vte json dead_grace f c).current ≡ false
  unfolding writer_step
  writer_none f c e = rw (e, writer_step) (ap is_some e)

  close-Safe :
      (a : Actor vte json dead_grace) (grace_ms now : ℕ)
      → IsSound vte json dead_grace a
      → Safe (on_close vte json dead_grace a grace_ms now)
  unfolding on_close
  close-Safe a grace_ms now s =
      if-elim Safe (is_dead vte json dead_grace a) _ _ (λ t. tt)
        (λ f. record { retained = s.retained; closes = λ e. f; known = s.known })

  attach-Safe :
      (a : Actor vte json dead_grace) (req : AttachRequest) (is_set : Bool) (busy : Result ℕ Bool)
      → IsSound vte json dead_grace a
      → Safe (on_attach vte json dead_grace a req is_set busy)
  unfolding on_attach attach_client Session.resize
  attach-Safe a req is_set busy s =
      Safe-flow (is_dead vte json dead_grace a) _
        (λ f. record { retained = s.retained; closes = s.closes; known = λ e. refl })

  exit_none-Safe :
      (a : Actor vte json dead_grace) (deadline : ℕ)
      → IsSound vte json dead_grace a
      → Safe (on_exit vte json dead_grace a none deadline)
  unfolding on_exit
  exit_none-Safe a deadline s = s

  exit_some-Safe :
      (a : Actor vte json dead_grace) (code deadline : ℕ)
      → is_dead vte json dead_grace a ≡ true
      → (is_some (a.client).current ≡ true → is_some a.last_status ≡ true)
      → Safe (on_exit vte json dead_grace a (some code) deadline)
  unfolding on_exit
  exit_some-Safe a code deadline d k =
      if-elim Safe a.closing _ _ (λ t. tt)
        (λ f. record {
          retained = d;
          closes = λ e. let z : true ≡ false = sym e ∙ f in cc;
          known = λ e. k (push_kept a.client _ e);
        })

  -- The session after the drain, with the client forwarded and updated.
  drained-Safe :
      (a : Actor vte json dead_grace) (s' : Session vte) (d : DrainResult)
      (reaped : Result ℕ (Option ℕ)) (exit : Option ℕ) (bytes : List ℕ) (busy : Result ℕ Bool)
      (deadline : ℕ)
      → IsSound vte json dead_grace a
      → Exit vte a.session d reaped exit s'
      → Safe (
          on_exit vte json dead_grace
            (update_client vte json dead_grace
              (record a { session = s'; client = forward_data a.client bytes })
              busy)
            exit
            deadline)
  unfolding is_dead_life
  drained-Safe a s' d reaped none bytes busy deadline s (g, l) =
      let b = record a { session = s'; client = forward_data a.client bytes } in
      let sb : IsSound vte json dead_grace b = record {
        retained = ap is_dead_life l ∙ s.retained;
        closes = λ e. ap is_dead_life l ∙ s.closes e;
        known = λ e. s.known (forward_kept a.client bytes e);
      } in
      exit_none-Safe (update_client vte json dead_grace b busy) deadline
        (Keeps-IsSound vte json dead_grace b _ (update_client-Keeps vte json dead_grace b busy) sb)
  drained-Safe a s' d reaped (some code) bytes busy deadline s (g, l, r) =
      let b = record a { session = s'; client = forward_data a.client bytes } in
      let k = update_client-Keeps vte json dead_grace b busy in
      exit_some-Safe (update_client vte json dead_grace b busy) code deadline
        (ap is_dead_life (k.lifecycle ∙ l))
        (λ e. let x = k.known e in x.1 (s.known (forward_kept a.client bytes x.0)))

  readable-Safe :
      (a : Actor vte json dead_grace) (drained : Result ℕ DrainResult)
      (reaped : Result ℕ (Option ℕ)) (busy : Result ℕ Bool) (now : ℕ) (r : Result ℕ DrainOutcome)
      (s' : Session vte)
      → IsSound vte json dead_grace a
      → Session.drain vte a.session drained reaped ≡ some (r, s')
      → Safe (after_drain vte json dead_grace (record a { session = s' }) r busy now)
  unfolding after_drain
  readable-Safe a drained reaped busy now (err x) s' s e = tt
  readable-Safe a (err x) reaped busy now (ok o) s' s e =
      let z : Session.drain vte a.session (err x) reaped ≡ some (err x, a.session) =
        (unfold Session.drain in refl) in
      absurd (
        ok_is_no_err x o
          (ap (λ (q : Result ℕ DrainOutcome × Session vte). q.0) (some-injective _ _ (sym z ∙ e))))
  readable-Safe a (ok d) reaped busy now (ok o) s' s e =
      let (f, b, st, x) = drain-Drained vte a.session d reaped (ok o, s') e in
      drained-Safe a s' d reaped o.exit o.data_bytes busy (now + dead_grace) s x

  tick-Safe :
      (a : Actor vte json dead_grace) (busy : Result ℕ Bool)
      → IsSound vte json dead_grace a
      → Safe (on_tick vte json dead_grace a busy)
  unfolding on_tick
  tick-Safe a busy s =
      let b = record a { poll_running = Session.poll_running vte a.session busy } in
      Keeps-IsSound vte json dead_grace b (publish vte json dead_grace b)
        (publish-Keeps vte json dead_grace b)
        (record { retained = s.retained; closes = s.closes; known = s.known })

  writer-IsSound :
      (a : Actor vte json dead_grace) (f : Outbox → Outbox)
      → IsSound vte json dead_grace a
      → IsSound vte json dead_grace
          (record a { client = writer_step vte json dead_grace f a.client })
  unfolding writer_step
  writer-IsSound a f s = record {
    retained = s.retained;
    closes = s.closes;
    known = λ e. elim (Option-cases (a.client).current) [
      | inr (tx, k) ↦ s.known (ap is_some k)
      | inl n ↦ let z : false ≡ true = sym (writer_none f a.client n) ∙ e in cc
    ];
  }

  pub handle-IsSound :
      (a b : Actor vte json dead_grace) (e : Event)
      → IsSound vte json dead_grace a
      → handle vte json dead_grace a e ≡ some (goes_on, b)
      → IsSound vte json dead_grace b
  unfolding handle on_input on_resize on_info on_kill on_readable Session.resize
  handle-IsSound a b commands_closed s e = absurd (ends_not_on (ends, a) b refl e)
  handle-IsSound a b (input bytes) s e =
      Safe-of _ b e (record { retained = s.retained; closes = s.closes; known = s.known })
  handle-IsSound a b (resize cols rows is_set) s e =
      Safe-of _ b e (record { retained = s.retained; closes = s.closes; known = s.known })
  handle-IsSound a b (info busy) s e =
      Safe-of _ b e (record { retained = s.retained; closes = s.closes; known = s.known })
  handle-IsSound a b (close grace_ms now) s e = Safe-of _ b e (close-Safe a grace_ms now s)
  handle-IsSound a b (attach req is_set busy) s e = Safe-of _ b e (attach-Safe a req is_set busy s)
  handle-IsSound a b (readable drained reaped busy now) s e =
      let ((r, s'), f, g) = >>=-eq-some (Session.drain vte a.session drained reaped) _ e in
      Safe-of _ b g (readable-Safe a drained reaped busy now r s' s f)
  handle-IsSound a b readable_failed s e = absurd (ends_not_on (ends, a) b refl e)
  handle-IsSound a b (grace_over now) s e = absurd (ends_not_on (ends, a) b refl e)
  handle-IsSound a b (kill_due now) s e =
      Safe-of _ b e (record { retained = s.retained; closes = s.closes; known = s.known })
  handle-IsSound a b (tick busy) s e = Safe-of _ b e (tick-Safe a busy s)
  handle-IsSound a b writer_takes s e = Safe-of _ b e (writer-IsSound a _ s)
  handle-IsSound a b writer_stops s e = Safe-of _ b e (writer-IsSound a _ s)

  pub Runs-IsSound' :
      (a b : Actor vte json dead_grace) (es : List Event)
      → IsSound vte json dead_grace a
      → Runs vte json dead_grace a es b
      → IsSound vte json dead_grace b
  Runs-IsSound' a b [] s here = s
  Runs-IsSound' a b (e ∷ es) s (turn {b = c} g h r) =
      Runs-IsSound' c b es (handle-IsSound a c e s h) r

  -- After any turns of the loop of a new live session, with the commands, reads, timers and writer
  -- in any order: the session is dead exactly when its retention deadline is set, so a dead session
  -- is always dropped in the end; a session being closed is not dead yet; and an attached client has a
  -- recorded last status.
  pub Runs-IsSound :
      (s : Session vte) (es : List Event) (b : Actor vte json dead_grace)
      → Session.is_dead vte s ≡ false
      → Runs vte json dead_grace (start vte json dead_grace s) es b
      → IsSound vte json dead_grace b
  Runs-IsSound s es b live_ r =
      Runs-IsSound' (start vte json dead_grace s) b es
        (record {
          retained = live_;
          closes = λ e. live_;
          known = λ e. let z : false ≡ true = e in cc;
        })
        r
