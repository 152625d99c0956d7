-- ===== src/Actor/History.antt =====
-- What the engine of a session holds while `actor_loop` (jftermd/src/server.rs) runs: all that was read
-- from the terminal.
use jfterm_muxer.Base.{
  ℕ, ◌+◌, ◌*◌, ◌≤◌, ◌≡◌, refl, sym, ap, ◌∙◌, subst, Bool, Option, none, some, some-injective, List,
  [], ◌∷◌, ◌++◌, ◌>>=◌, >>=-eq-some, length, if-elim, Option-cases, inl, inr,
}
use jfterm_muxer.Vte.{Vte}
use jfterm_muxer.Utf8.{from_utf8}
use jfterm_muxer.Scanner
use jfterm_muxer.Scanner.{Scanner, feed_byte}
use jfterm_muxer.Scanner.Sanitize.{sanitize, fresh, expand}
use jfterm_muxer.Scanner.Spans.{AllKept}
use jfterm_muxer.Scanner.Waiting.{Waits}
use jfterm_muxer.Scanner.Replay.{feed-sanitize, feed-verbatim}
use jfterm_muxer.Engine
use jfterm_muxer.Engine.{ReplayEngine, usize_max, watermark}
use jfterm_muxer.Protocol.{Result, ok, err}
use jfterm_muxer.Pty.{DrainResult}
use jfterm_muxer.Session
use jfterm_muxer.Session.{Session, DrainOutcome}
use jfterm_muxer.Session.Laws.{drain-Drained}
use jfterm_muxer.Client.{Json, forward_data}
use jfterm_muxer.Actor.{
  AttachRequest, Event, commands_closed, input, resize, info, close, attach, readable,
  readable_failed, grace_over, kill_due, tick, writer_takes, writer_stops, Flow, goes_on, ends,
  Actor, start, is_dead, on_input, on_resize, on_info, on_kill, on_tick, on_close, on_attach,
  attach_client, on_exit, after_drain, on_readable, update_client, handle, Runs, here, turn,
}
use jfterm_muxer.Actor.Keeps.{ok_is_no_err, publish-Keeps, update_client-Keeps}
use jfterm_muxer.Actor.Invariant.{ends_not_on}
use jfterm_muxer.Actor.Stream.{output, output_all, ends_is_not}
use jfterm_muxer.Actor.Attach.{replay_of}

module _ (vte : Vte) where
  scanner_feed-append :
      (s : Scanner vte) (xs ys : List ℕ)
      → Scanner.feed vte s (xs ++ ys) ≡ (Scanner.feed vte s xs >>= (λ t. Scanner.feed vte t ys))
  unfolding Scanner.feed
  scanner_feed-append s [] ys = refl
  scanner_feed-append s (x ∷ xs) ys = elim (Option-cases (feed_byte vte s x)) [
    | inl n ↦ rw n refl
    | inr (t, e) ↦ rw e (scanner_feed-append t xs ys)
  ]

  -- An engine that is fed twice is fed the two together.
  feed_twice :
      (a b c : ReplayEngine vte) (xs ys : List ℕ)
      → Engine.feed vte a xs ≡ some b
      → Engine.feed vte b ys ≡ some c
      → Engine.feed vte a (xs ++ ys) ≡ some c
  unfolding Engine.feed
  feed_twice a b c xs ys e f =
      let (s, g, h) = >>=-eq-some (Scanner.feed vte a.scanner xs) _ e in
      let b' : record { scanner = s } ≡ b = some-injective _ _ h in
      let all : Scanner.feed vte a.scanner (xs ++ ys) ≡ Scanner.feed vte s ys =
        scanner_feed-append a.scanner xs ys ∙ rw g refl in
      let later : (Scanner.feed vte s ys >>= (λ t. some (record { scanner = t }))) ≡ some c =
        ap
          (λ (x : ReplayEngine vte).
            Scanner.feed vte x.scanner ys >>= (λ t. some (record { scanner = t })))
          b'
        ∙ f in
      rw all later

  feed_nothing : (a : ReplayEngine vte) → Engine.feed vte a [] ≡ some a
  unfolding Engine.feed Scanner.feed
  feed_nothing a = refl

module _ (vte : Vte) (json : Json) (dead_grace : ℕ) where
  abbrev Turn : Type 0
  Turn = Flow × Actor vte json dead_grace

  abbrev Fed : Actor vte json dead_grace → List ℕ → Actor vte json dead_grace → Type 0
  Fed a bytes b = Engine.feed vte a.session.engine bytes ≡ some b.session.engine

  Fed-of :
      (a b : Actor vte json dead_grace) (bytes : List ℕ) (x : Turn)
      → some x ≡ some (goes_on, b)
      → (x.0 ≡ goes_on → Fed a bytes x.1)
      → Fed a bytes b
  Fed-of a b bytes x e h =
      subst (λ (y : Turn). y.0 ≡ goes_on → Fed a bytes y.1) (some-injective _ _ e) h refl

  exit-session :
      (a : Actor vte json dead_grace) (exit : Option ℕ) (deadline : ℕ)
      → (on_exit vte json dead_grace a exit deadline).1.session ≡ a.session
  unfolding on_exit
  exit-session a none deadline = refl
  exit-session a (some code) deadline =
      if-elim (λ (x : Turn). x.1.session ≡ a.session) a.closing _ _ (λ t. refl) (λ f. refl)

  close-session :
      (a : Actor vte json dead_grace) (grace_ms now : ℕ)
      → (on_close vte json dead_grace a grace_ms now).1.session ≡ a.session
  unfolding on_close
  close-session a grace_ms now =
      if-elim (λ (x : Turn). x.1.session ≡ a.session) (is_dead vte json dead_grace a) _ _
        (λ t. refl) (λ f. refl)

  drain-Fed :
      (a : Actor vte json dead_grace) (drained : Result ℕ DrainResult)
      (reaped : Result ℕ (Option ℕ)) (busy : Result ℕ Bool) (now : ℕ) (r : Result ℕ DrainOutcome)
      (s' : Session vte)
      → Session.drain vte a.session drained reaped ≡ some (r, s')
      → (let x = after_drain vte json dead_grace (record a { session = s' }) r busy now in
          x.0 ≡ goes_on → Fed a (output (readable drained reaped busy now)) x.1)
  unfolding after_drain
  drain-Fed a drained reaped busy now (err x) s' e k = absurd (ends_is_not k)
  drain-Fed a (err x) reaped busy now (ok o) s' e k =
      let z : Session.drain vte a.session (err x) reaped ≡ some (err x, a.session) =
        (unfold Session.drain in refl) in
      absurd (
        ok_is_no_err x o
          (ap (λ (q : Result ℕ DrainOutcome × Session vte). q.0) (some-injective _ _ (sym z ∙ e))))
  drain-Fed a (ok d) reaped busy now (ok o) s' e k =
      let (f, b, st, x) = drain-Drained vte a.session d reaped (ok o, s') e in
      let c = record a { session = s'; client = forward_data a.client o.data_bytes } in
      let same : (on_exit vte json dead_grace (update_client vte json dead_grace c busy) o.exit
            (now + dead_grace)).1.session
          ≡ s' =
        exit-session (update_client vte json dead_grace c busy) o.exit (now + dead_grace)
        ∙ (update_client-Keeps vte json dead_grace c busy).session in
      f ∙ ap (λ (s : Session vte). some s.engine) (sym same)

  handle-Fed :
      (a b : Actor vte json dead_grace) (e : Event)
      → handle vte json dead_grace a e ≡ some (goes_on, b)
      → Fed a (output e) b
  unfolding handle on_input on_resize on_info on_kill on_readable on_tick on_attach attach_client
      Session.resize
  handle-Fed a b commands_closed e = absurd (ends_not_on vte json dead_grace (ends, a) b refl e)
  handle-Fed a b (input bytes) e = Fed-of a b [] _ e (λ k. feed_nothing vte a.session.engine)
  handle-Fed a b (resize cols rows is_set) e =
      Fed-of a b [] _ e (λ k. feed_nothing vte a.session.engine)
  handle-Fed a b (info busy) e = Fed-of a b [] _ e (λ k. feed_nothing vte a.session.engine)
  handle-Fed a b (close grace_ms now) e = Fed-of a b [] _ e (λ k.
      feed_nothing vte a.session.engine
      ∙ ap (λ (s : Session vte). some s.engine) (sym (close-session a grace_ms now)))
  handle-Fed a b (attach req is_set busy) e =
      Fed-of a b [] _ e (λ k. feed_nothing vte a.session.engine)
  handle-Fed a b (readable drained reaped busy now) e =
      let ((r, s'), f, g) = >>=-eq-some (Session.drain vte a.session drained reaped) _ e in
      Fed-of a b (output (readable drained reaped busy now)) _ g
        (drain-Fed a drained reaped busy now r s' f)
  handle-Fed a b readable_failed e = absurd (ends_not_on vte json dead_grace (ends, a) b refl e)
  handle-Fed a b (grace_over now) e = absurd (ends_not_on vte json dead_grace (ends, a) b refl e)
  handle-Fed a b (kill_due now) e = Fed-of a b [] _ e (λ k. feed_nothing vte a.session.engine)
  handle-Fed a b (tick busy) e =
      let c = record a { poll_running = Session.poll_running vte a.session busy } in
      Fed-of a b [] _ e (λ k.
        feed_nothing vte a.session.engine
        ∙ ap (λ (s : Session vte). some s.engine)
            (sym (publish-Keeps vte json dead_grace c).session))
  handle-Fed a b writer_takes e = Fed-of a b [] _ e (λ k. feed_nothing vte a.session.engine)
  handle-Fed a b writer_stops e = Fed-of a b [] _ e (λ k. feed_nothing vte a.session.engine)

  -- Over any turns of the loop, clients coming and going, the engine is fed exactly what is read from
  -- the terminal, in order.
  pub Runs-feed :
      (a b : Actor vte json dead_grace) (es : List Event)
      → Runs vte json dead_grace a es b
      → Engine.feed vte a.session.engine (output_all es) ≡ some b.session.engine
  Runs-feed a b [] here = feed_nothing vte a.session.engine
  Runs-feed a b (e ∷ es) (turn {b = c} g h r) =
      feed_twice vte a.session.engine c.session.engine b.session.engine (output e) (output_all es)
        (handle-Fed a c e h) (Runs-feed c b es r)

  -- The replay without a cap is that of the engine.
  replay_all :
      (a : Actor vte json dead_grace) (req : AttachRequest)
      → req.want_chunks ≡ 0
      → replay_of vte json dead_grace a req ≡ Scanner.replay vte a.session.engine.scanner usize_max
  unfolding Session.replay_for_attach Engine.replay
  replay_all a req z = rw z refl

  new_engine :
      (t : Scanner vte) (a : Actor vte json dead_grace) (bs : List ℕ)
      → Engine.feed vte (Engine.new vte) bs ≡ some a.session.engine
      → Scanner.feed vte (Scanner.new vte watermark) bs ≡ some t
      → t ≡ a.session.engine.scanner
  unfolding Engine.feed
  new_engine t a bs e f =
      let k : some (record { scanner = t }) ≡ some a.session.engine = sym (rw f refl) ∙ e in
      ap (λ (x : ReplayEngine vte). x.scanner) (some-injective _ _ k)

  -- From the first byte of a session to an attach at any later time, with clients coming and going
  -- in between: the whole replay is the description of the sanitizer on all that was read from the
  -- terminal since the session began, its prologue and then the bytes that are kept.
  pub attach-sanitize :
      (s : Session vte) (a : Actor vte json dead_grace) (es : List Event) (req : AttachRequest)
      → s.engine ≡ Engine.new vte
      → Runs vte json dead_grace (start vte json dead_grace s) es a
      → req.want_chunks ≡ 0
      → 2 * length (output_all es) + 1 ≤ usize_max
      → (let z = sanitize vte (fresh vte) (expand 0 (output_all es)) in
          replay_of vte json dead_grace a req ≡ z.base ++ z.stream)
  attach-sanitize s a es req n r w h =
      let fed =
        ap (λ e. Engine.feed vte e (output_all es)) (sym n)
        ∙ Runs-feed (start vte json dead_grace s) a es r in
      let (t, f, x) = feed-sanitize vte watermark usize_max (output_all es) h in
      replay_all a req w
      ∙ (ap (λ (y : Scanner vte). Scanner.replay vte y usize_max)
            (sym (new_engine t a (output_all es) fed f))
          ∙ x.full)

  -- When what was read is UTF-8 in which there is nothing to drop and no clear, the whole replay at
  -- an attach is all of it, but for the bytes of a sequence that is not complete: those are in no
  -- replay, and what is sent after the attach begins behind them. They are all that was read when no
  -- byte of it ended anything for the parser, and else all behind the last byte that did.
  pub attach-verbatim :
      (s : Session vte) (a : Actor vte json dead_grace) (es : List Event) (req : AttachRequest)
      → s.engine ≡ Engine.new vte
      → Runs vte json dead_grace (start vte json dead_grace s) es a
      → req.want_chunks ≡ 0
      → 2 * length (output_all es) + 1 ≤ usize_max
      → from_utf8 (output_all es) ≡ some (output_all es)
      → AllKept vte (fresh vte) (output_all es)
      → (replay_of vte json dead_grace a req ++ a.session.engine.scanner.pending ≡ output_all es)
        × Waits vte (fresh vte) (output_all es) a.session.engine.scanner.pending
  attach-verbatim s a es req n r w h u k =
      let fed =
        ap (λ e. Engine.feed vte e (output_all es)) (sym n)
        ∙ Runs-feed (start vte json dead_grace s) a es r in
      let (t, f, x, y) = feed-verbatim vte watermark usize_max (output_all es) h u k in
      let same = new_engine t a (output_all es) fed f in
      (
        ap (λ l. l ++ a.session.engine.scanner.pending) (replay_all a req w)
            ∙ (ap (λ (y : Scanner vte). Scanner.replay vte y usize_max ++ y.pending) (sym same)
                ∙ x),
        subst (λ (z : Scanner vte). Waits vte (fresh vte) (output_all es) z.pending) same y,
      )
