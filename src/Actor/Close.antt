-- ===== src/Actor/Close.antt =====
-- CLOSE and its escalation, in `actor_loop` of jftermd/src/server.rs.
use jfterm_muxer.Base.{
  true_is_not_false, sym, ap, inl, inr, is_some, Option-cases, ℕ, ◌+◌, ◌≤◌, ◌<◌, ◌≡◌, refl, ◌∙◌,
  subst, Bool, true, false, Option, none, some, some-injective, List, [], ◌∷◌, ◌++◌, arith, ltb,
  leb, if-elim, >>=-eq-some, All,
}
use jfterm_muxer.Vte.{Vte}
use jfterm_muxer.Protocol.{Result, ok, err}
use jfterm_muxer.Pty.{sigkill}
use jfterm_muxer.Session
use jfterm_muxer.Session.{Session, DrainOutcome}
use jfterm_muxer.Client.{Json, forward_data}
use jfterm_muxer.Actor.{
  start, Event, commands_closed, input, resize, info, close, attach, readable, readable_failed,
  grace_over, kill_due, tick, writer_takes, writer_stops, Flow, goes_on, Actor, handle, Runs, here,
  turn, is_dead, is_due, on_input, on_resize, on_info, on_kill, on_tick, on_close, on_attach,
  attach_client, on_exit, after_drain, on_readable, update_client,
}
use jfterm_muxer.Actor.Select.{Ready, select, select-kill, select-terminal}
use jfterm_muxer.Actor.Invariant.{Runs-IsSound, Runs-IsSound', handle-IsSound}
use jfterm_muxer.Actor.Keeps.{IsSound, update_client-Keeps, publish-Keeps}

-- Not another CLOSE, and not the end of its grace.
abbrev pub IsOther : Event → Type 0
IsOther (close grace_ms now) = ⊥
IsOther (kill_due now) = ⊥
IsOther _ = Unit {0}

module _ (vte : Vte) (json : Json) (dead_grace : ℕ) where
  -- The closing of the session stands as it was.
  record Stays (a b : Actor vte json dead_grace) : Type 0 where
    kill : b.kill_deadline ≡ a.kill_deadline
    closing : b.closing ≡ a.closing

  abbrev Turn : Type 0
  Turn = Flow × Actor vte json dead_grace

  exit-Stays :
      (a : Actor vte json dead_grace) (exit : Option ℕ) (deadline : ℕ)
      → Stays a (on_exit vte json dead_grace a exit deadline).1
  unfolding on_exit
  exit-Stays a none deadline = record { kill = refl; closing = refl }
  exit-Stays a (some code) deadline =
      if-elim (λ (x : Turn). Stays a x.1) a.closing _ _
        (λ t. record { kill = refl; closing = refl }) (λ f. record { kill = refl; closing = refl })

  drain-Stays :
      (a : Actor vte json dead_grace) (s' : Session vte) (r : Result ℕ DrainOutcome)
      (busy : Result ℕ Bool) (now : ℕ)
      → Stays a (after_drain vte json dead_grace (record a { session = s' }) r busy now).1
  unfolding after_drain
  drain-Stays a s' (err x) busy now = record { kill = refl; closing = refl }
  drain-Stays a s' (ok o) busy now =
      let b = record a { session = s'; client = forward_data a.client o.data_bytes } in
      let k = update_client-Keeps vte json dead_grace b busy in
      let x = exit-Stays (update_client vte json dead_grace b busy) o.exit (now + dead_grace) in
      record { kill = x.kill ∙ k.kill; closing = x.closing ∙ k.closing }

  of_turn :
      (a b : Actor vte json dead_grace) (x : Turn)
      → some x ≡ some (goes_on, b)
      → Stays a x.1
      → Stays a b
  of_turn a b x e s = subst (λ (y : Turn). Stays a y.1) (some-injective _ _ e) s

  handle-Stays :
      (a b : Actor vte json dead_grace) (e : Event)
      → IsOther e
      → handle vte json dead_grace a e ≡ some (goes_on, b)
      → Stays a b
  unfolding handle on_input on_resize on_info on_tick on_readable on_attach attach_client
      Session.resize
  handle-Stays a b commands_closed o e = of_turn a b _ e (record { kill = refl; closing = refl })
  handle-Stays a b (input bytes) o e = of_turn a b _ e (record { kill = refl; closing = refl })
  handle-Stays a b (resize cols rows is_set) o e =
      of_turn a b _ e (record { kill = refl; closing = refl })
  handle-Stays a b (info busy) o e = of_turn a b _ e (record { kill = refl; closing = refl })
  handle-Stays a b (close grace_ms now) o e = absurd o
  handle-Stays a b (attach req is_set busy) o e =
      of_turn a b _ e (record { kill = refl; closing = refl })
  handle-Stays a b (readable drained reaped busy now) o e =
      let ((r, s'), f, h) = >>=-eq-some (Session.drain vte a.session drained reaped) _ e in
      of_turn a b _ h (drain-Stays a s' r busy now)
  handle-Stays a b readable_failed o e = of_turn a b _ e (record { kill = refl; closing = refl })
  handle-Stays a b (grace_over now) o e = of_turn a b _ e (record { kill = refl; closing = refl })
  handle-Stays a b (kill_due now) o e = absurd o
  handle-Stays a b (tick busy) o e =
      let c = record a { poll_running = Session.poll_running vte a.session busy } in
      let k = publish-Keeps vte json dead_grace c in
      of_turn a b _ e (record { kill = k.kill; closing = k.closing })
  handle-Stays a b writer_takes o e = of_turn a b _ e (record { kill = refl; closing = refl })
  handle-Stays a b writer_stops o e = of_turn a b _ e (record { kill = refl; closing = refl })

  Runs-Stays :
      (a b : Actor vte json dead_grace) (es : List Event)
      → All IsOther es
      → Runs vte json dead_grace a es b
      → Stays a b
  Runs-Stays a b [] o here = record { kill = refl; closing = refl }
  Runs-Stays a b (e ∷ es) o (turn {b = c} g h r) =
      let x = handle-Stays a c e o.0 h in
      let y = Runs-Stays c b es o.1 r in
      record { kill = y.kill ∙ x.kill; closing = y.closing ∙ x.closing }

  -- What CLOSE with a grace makes of a live session.
  close_lem :
      (a b : Actor vte json dead_grace) (grace_ms now : ℕ)
      → 0 < grace_ms
      → handle vte json dead_grace a (close grace_ms now) ≡ some (goes_on, b)
      → (b.kill_deadline ≡ some (now + grace_ms)) × (b.closing ≡ true)
  unfolding handle on_close
  close_lem a b grace_ms now h e =
      let positive : ltb 0 grace_ms ≡ true = ground arith in
      subst (λ (y : Turn). (y.1.kill_deadline ≡ some (now + grace_ms)) × (y.1.closing ≡ true))
        (some-injective _ _ e)
        (if-elim (λ (y : Turn). (y.1.kill_deadline ≡ some (now + grace_ms)) × (y.1.closing ≡ true))
          (is_dead vte json dead_grace a) _ _ (λ t. (rw positive refl, refl))
          (λ f. (rw positive refl, refl)))

  due_at :
      (d : Option ℕ) (deadline later : ℕ)
      → d ≡ some deadline
      → deadline ≤ later
      → is_due d later ≡ true
  unfolding is_due
  due_at d deadline later e h = let z : leb deadline later ≡ true = ground arith in rw (e, is_due) z

  -- The kill arm is taken, and what it does; and what comes before it.
  pub record Escalates (c : Actor vte json dead_grace) (now : ℕ) : Type 0 where
    pub after : Actor vte json dead_grace
    pub selected :
        (r : Ready)
        → r.now ≡ now
        → r.command ≡ none
        → r.terminal ≡ none
        → select vte json dead_grace c r ≡ some (kill_due now)
    pub starved :
        (r : Ready) (e : Event)
        → r.command ≡ none
        → r.terminal ≡ some e
        → select vte json dead_grace c r ≡ some e
    pub killed : handle vte json dead_grace c (kill_due now) ≡ some (goes_on, after)
    pub requests : after.requests ≡ c.requests ++ (sigkill ∷ [])
    pub once : after.kill_deadline ≡ none
    pub closing : after.closing ≡ true
    pub alive : is_dead vte json dead_grace after ≡ false

  live-no_deadline :
      (c : Actor vte json dead_grace)
      → IsSound vte json dead_grace c
      → is_dead vte json dead_grace c ≡ false
      → c.grace_deadline ≡ none
  live-no_deadline c s l = elim (Option-cases c.grace_deadline) [
    | inl n ↦ n
    | inr (d, e) ↦ absurd (true_is_not_false (sym (ap is_some e) ∙ (sym s.retained ∙ l)))
  ]

  -- After CLOSE with a grace in any state of a session's actor, whatever turns follow but another
  -- CLOSE: when a turn of the loop begins after the end of the grace, with the shell alive, and neither
  -- a command nor output of the terminal is ready, the loop kills the shell's process group, once,
  -- and stays ready to end with the shell. While output is ready, it is read first, so a shell
  -- that does not stop writing puts the kill off.
  pub close-Escalates :
      (s : Session vte) (a b c : Actor vte json dead_grace) (grace_ms now later : ℕ)
      (earlier es : List Event)
      → Session.is_dead vte s ≡ false
      → Runs vte json dead_grace (start vte json dead_grace s) earlier a
      → 0 < grace_ms
      → handle vte json dead_grace a (close grace_ms now) ≡ some (goes_on, b)
      → All IsOther es
      → Runs vte json dead_grace b es c
      → is_dead vte json dead_grace c ≡ false
      → now + grace_ms ≤ later
      → Escalates c later
  unfolding handle on_kill Session.kill
  close-Escalates s a b c grace_ms now later earlier es live_ first h e o r l t =
      let (k, x) = close_lem a b grace_ms now h e in
      let y = Runs-Stays b c es o r in
      let sound_a = Runs-IsSound vte json dead_grace s earlier a live_ first in
      let sound_b = handle-IsSound vte json dead_grace a b (close grace_ms now) sound_a e in
      let sound = Runs-IsSound' vte json dead_grace b c es sound_b r in
      record {
        after = record c {
          requests = c.requests ++ Session.kill vte c.session;
          kill_deadline = none;
        };
        selected = λ q n cmd term.
            select-kill vte json dead_grace c q cmd term (live-no_deadline c sound l) (
              ap (is_due c.kill_deadline) n
              ∙ due_at c.kill_deadline (now + grace_ms) later (y.kill ∙ k) t)
            ∙ ap (λ m. some (kill_due m)) n;
        starved = λ q e cmd term. select-terminal vte json dead_grace c q e cmd l term;
        killed = refl;
        requests = rw (l) refl;
        once = refl;
        closing = y.closing ∙ x;
        alive = l;
      }
