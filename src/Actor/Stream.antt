-- ===== src/Actor/Stream.antt =====
-- The bytes that a client of `actor_loop` (jftermd/src/server.rs) gets while it is attached.
use jfterm_muxer.Base.{
  ℕ, ◌+◌, ◌≡◌, refl, sym, ap, ◌∙◌, ◌≢◌, subst, inl, inr, Bool, not, ◌&&◌, Option, none, some, List,
  [], ◌∷◌, ◌++◌, append-nil, append_assoc, some-injective, is_some, if-elim, Option-cases,
  >>=-eq-some, All, length, ltb,
}
use jfterm_muxer.Vte.{Vte}
use jfterm_muxer.Protocol.{Result, ok, err, Frame, FrameType, data_frame, frame_data}
use jfterm_muxer.Protocol.Data.{payloads, IsData, frame_data-payloads}
use jfterm_muxer.Pty.{DrainResult}
use jfterm_muxer.Session
use jfterm_muxer.Session.{Session, DrainOutcome}
use jfterm_muxer.Session.Laws.{drain-Drained}
use jfterm_muxer.Client.{Outbox, Client, push_or_drop, push_all, forward_data, Json}
use jfterm_muxer.Client.Laws.{push_all-kept}
use jfterm_muxer.Actor.{
  Event, commands_closed, input, resize, info, close, attach, readable, readable_failed, grace_over,
  kill_due, tick, writer_takes, writer_stops, Flow, goes_on, ends, is_last, Actor, is_dead,
  effective_status, on_input, on_resize, on_info, on_close, publish, refresh, update_client,
  on_exit, after_drain, on_readable, on_kill, on_tick, handle, Runs, here, turn, writer_step,
  take_frame,
}
use jfterm_muxer.Actor.Invariant.{ends_not_on}
use jfterm_muxer.Actor.Keeps.{ok_is_no_err}

abbrev pub data_bytes : FrameType → List ℕ → List ℕ
data_bytes data_frame p = p
data_bytes _ p = []

-- The bytes of the DATA frames among some frames.
abbrev pub data_of : List Frame → List ℕ
data_of [] = []
data_of (f ∷ fs) = data_bytes f.ty f.payload ++ data_of fs

pub data_of-append : (fs gs : List Frame) → data_of (fs ++ gs) ≡ data_of fs ++ data_of gs
data_of-append [] gs = refl
data_of-append (f ∷ fs) gs =
    ap (◌++◌ (data_bytes f.ty f.payload)) (data_of-append fs gs)
    ∙ sym (append_assoc (data_bytes f.ty f.payload) (data_of fs) (data_of gs))

data_of-payloads : (fs : List Frame) → All IsData fs → data_of fs ≡ payloads fs
data_of-payloads [] h = refl
data_of-payloads (f ∷ fs) h =
    ap (λ ty. data_bytes ty f.payload ++ data_of fs) h.0.0
    ∙ ap (◌++◌ f.payload) (data_of-payloads fs h.1)

pub data_of-frame_data : (bytes : List ℕ) → data_of (frame_data bytes) ≡ bytes
data_of-frame_data bytes =
    let (e, d) = frame_data-payloads bytes in data_of-payloads (frame_data bytes) d ∙ e

-- A client attached at the end was attached at the start, and got exactly these DATA bytes.
abbrev pub Grows : Client → Client → List ℕ → Type 0
Grows c c' bytes =
    (tx' : Outbox)
    → c'.current ≡ some tx'
    → (tx : Outbox) × (c.current ≡ some tx) × (data_of tx'.sent ≡ data_of tx.sent ++ bytes)

same-Grows : (c : Client) → Grows c c []
same-Grows c tx' e = (tx', e, sym (append-nil (data_of tx'.sent)))

trans-Grows : (a b c : Client) (xs ys : List ℕ) → Grows a b xs → Grows b c ys → Grows a c (xs ++ ys)
trans-Grows a b c xs ys g h tx'' e =
    let (tx', e', p) = h tx'' e in
    let (tx, e0, q) = g tx' e' in
    (tx, e0, p ∙ (ap (λ l. l ++ ys) q ∙ append_assoc (data_of tx.sent) xs ys))

push_all-Grows : (c : Client) (fs : List Frame) → Grows c (push_all c fs) (data_of fs)
push_all-Grows c fs tx' e =
    let (tx, k, q) = push_all-kept c fs tx' e in
    (tx, k, ap (λ (t : Outbox). data_of t.sent) q ∙ data_of-append tx.sent fs)

push-Grows : (c : Client) (f : Frame) → data_of (f ∷ []) ≡ [] → Grows c (push_or_drop c f) []
unfolding push_all
push-Grows c f z = subst (Grows c (push_or_drop c f)) z (push_all-Grows c (f ∷ []))

forward-Grows : (c : Client) (bytes : List ℕ) → Grows c (forward_data c bytes) bytes
unfolding forward_data
forward-Grows c bytes =
    subst (Grows c (push_all c (frame_data bytes))) (data_of-frame_data bytes)
      (push_all-Grows c (frame_data bytes))

-- What an event brings from the terminal.
abbrev pub output : Event → List ℕ
output (readable (ok d) reaped busy now) = d.bytes
output _ = []

abbrev pub output_all : List Event → List ℕ
output_all [] = []
output_all (e ∷ es) = output e ++ output_all es

abbrev pub IsDetached : Event → Type 0
IsDetached (attach req is_set busy) = ⊥
IsDetached _ = Unit {0}

pub ends_is_not : ends ≢ goes_on
ends_is_not e = cc

module _ (vte : Vte) (json : Json) (dead_grace : ℕ) where
  publish-Grows :
      (a : Actor vte json dead_grace) → Grows a.client (publish vte json dead_grace a).client []
  unfolding publish
  publish-Grows a =
      if-elim (λ (x : Actor vte json dead_grace). Grows a.client x.client [])
        (is_last a.last_status (effective_status vte json dead_grace a.session a.poll_running)) _ _
        (λ t. same-Grows a.client) (λ f. push-Grows a.client _ refl)

  refresh-client :
      (a : Actor vte json dead_grace) (busy : Result ℕ Bool)
      → (refresh vte json dead_grace a busy).client ≡ a.client
  unfolding refresh
  refresh-client a busy =
      if-elim (λ (x : Actor vte json dead_grace). x.client ≡ a.client)
        (not (Session.has_prompt_marking vte a.session) && not (is_dead vte json dead_grace a)) _ _
        (λ t. refl) (λ f. refl)

  update_client-Grows :
      (a : Actor vte json dead_grace) (busy : Result ℕ Bool)
      → Grows a.client (update_client vte json dead_grace a busy).client []
  unfolding update_client
  update_client-Grows a busy =
      let b = refresh vte json dead_grace a busy in
      if-elim (λ (x : Actor vte json dead_grace). Grows a.client x.client [])
        (is_some (a.client).current) (publish vte json dead_grace b) a
        (λ t.
          subst (λ c. Grows c (publish vte json dead_grace b).client []) (refresh-client a busy)
            (publish-Grows b))
        (λ f. same-Grows a.client)

  on_exit-Grows :
      (a : Actor vte json dead_grace) (exit : Option ℕ) (deadline : ℕ)
      → Grows a.client (on_exit vte json dead_grace a exit deadline).1.client []
  unfolding on_exit
  on_exit-Grows a none deadline = same-Grows a.client
  on_exit-Grows a (some code) deadline =
      if-elim (λ (x : Flow × Actor vte json dead_grace). Grows a.client x.1.client []) a.closing _ _
        (λ t. push-Grows a.client _ refl) (λ f. push-Grows a.client _ refl)

  after_drain-Grows :
      (a : Actor vte json dead_grace) (o : DrainOutcome) (busy : Result ℕ Bool) (now : ℕ)
      → Grows a.client (after_drain vte json dead_grace a (ok o) busy now).1.client o.data_bytes
  unfolding after_drain
  after_drain-Grows a o busy now =
      let b = record a { client = forward_data a.client o.data_bytes } in
      let c = update_client vte json dead_grace b busy in
      let x = on_exit vte json dead_grace c o.exit (now + dead_grace) in
      let g =
        trans-Grows b.client c.client x.1.client [] [] (update_client-Grows b busy)
          (on_exit-Grows c o.exit (now + dead_grace)) in
      subst (Grows a.client x.1.client) (append-nil o.data_bytes) (
        trans-Grows a.client b.client x.1.client o.data_bytes []
          (forward-Grows a.client o.data_bytes) g)

  pub take_frame-sent : (tx : Outbox) → (take_frame vte json dead_grace tx).sent ≡ tx.sent
  unfolding take_frame
  take_frame-sent tx =
      if-elim (λ (t : Outbox). t.sent ≡ tx.sent) (ltb tx.taken (length tx.sent)) _ _ (λ t. refl)
        (λ f. refl)

  pub writer_kept :
      (f : Outbox → Outbox) (c : Client) (tx' : Outbox)
      → (writer_step vte json dead_grace f c).current ≡ some tx'
      → (tx : Outbox) × (c.current ≡ some tx) × (f tx ≡ tx')
  unfolding writer_step
  writer_kept f c tx' e = elim (Option-cases c.current) [
    | inl n ↦ let z : none ≡ some tx' = sym (rw (n, writer_step) n) ∙ e in cc
    | inr (tx, k) ↦
        let w : (writer_step vte json dead_grace f c).current ≡ some (f tx) =
          rw (k, writer_step) refl in
        (tx, k, some-injective _ _ (sym w ∙ e))
  ]

  writer-Grows :
      (f : Outbox → Outbox) (c : Client)
      → ((tx : Outbox) → (f tx).sent ≡ tx.sent)
      → Grows c (writer_step vte json dead_grace f c) []
  writer-Grows f c h tx' e =
      let (tx, k, q) = writer_kept f c tx' e in
      (
        tx,
        k,
        ap (λ (t : Outbox). data_of t.sent) (sym q)
            ∙ (ap data_of (h tx) ∙ sym (append-nil (data_of tx.sent))),
      )

  abbrev Flows : Client → List ℕ → Flow × Actor vte json dead_grace → Type 0
  Flows c bytes x = x.0 ≡ goes_on → Grows c x.1.client bytes

  Grows-of :
      (c : Client) (bytes : List ℕ) (x : Flow × Actor vte json dead_grace)
      (b : Actor vte json dead_grace)
      → some x ≡ some (goes_on, b)
      → Flows c bytes x
      → Grows c b.client bytes
  Grows-of c bytes x b e g = subst (Flows c bytes) (some-injective _ _ e) g refl

  close-Flows :
      (a : Actor vte json dead_grace) (grace_ms now : ℕ)
      → Flows a.client [] (on_close vte json dead_grace a grace_ms now)
  unfolding on_close
  close-Flows a grace_ms now =
      if-elim (Flows a.client []) (is_dead vte json dead_grace a) _ _
        (λ t e. absurd (ends_is_not e)) (λ f e. same-Grows a.client)

  readable-Flows :
      (a : Actor vte json dead_grace) (drained : Result ℕ DrainResult)
      (reaped : Result ℕ (Option ℕ)) (busy : Result ℕ Bool) (now : ℕ) (r : Result ℕ DrainOutcome)
      (s' : Session vte)
      → Session.drain vte a.session drained reaped ≡ some (r, s')
      → Flows a.client
          (output (readable drained reaped busy now))
          (after_drain vte json dead_grace (record a { session = s' }) r busy now)
  unfolding after_drain
  readable-Flows a drained reaped busy now (err x) s' e k = absurd (ends_is_not k)
  readable-Flows a (err x) reaped busy now (ok o) s' e k =
      let z : Session.drain vte a.session (err x) reaped ≡ some (err x, a.session) =
        (unfold Session.drain in refl) in
      absurd (
        ok_is_no_err x o
          (ap (λ (q : Result ℕ DrainOutcome × Session vte). q.0) (some-injective _ _ (sym z ∙ e))))
  readable-Flows a (ok d) reaped busy now (ok o) s' e k =
      let (f, b, st, x) = drain-Drained vte a.session d reaped (ok o, s') e in
      subst
        (Grows a.client
          (after_drain vte json dead_grace (record a { session = s' }) (ok o) busy now).1.client)
        b (after_drain-Grows (record a { session = s' }) o busy now)

  handle-Grows :
      (a b : Actor vte json dead_grace) (e : Event)
      → IsDetached e
      → handle vte json dead_grace a e ≡ some (goes_on, b)
      → Grows a.client b.client (output e)
  unfolding handle on_input on_resize on_info on_kill on_readable on_tick
  handle-Grows a b commands_closed d e = absurd (ends_not_on vte json dead_grace (ends, a) b refl e)
  handle-Grows a b (input bytes) d e = Grows-of a.client [] _ b e (λ k. same-Grows a.client)
  handle-Grows a b (resize cols rows is_set) d e =
      Grows-of a.client [] _ b e (λ k. same-Grows a.client)
  handle-Grows a b (info busy) d e = Grows-of a.client [] _ b e (λ k. same-Grows a.client)
  handle-Grows a b (close grace_ms now) d e =
      Grows-of a.client [] _ b e (close-Flows a grace_ms now)
  handle-Grows a b (attach req is_set busy) d e = absurd d
  handle-Grows a b (readable drained reaped busy now) d e =
      let ((r, s'), f, g) = >>=-eq-some (Session.drain vte a.session drained reaped) _ e in
      Grows-of a.client (output (readable drained reaped busy now)) _ b g
        (readable-Flows a drained reaped busy now r s' f)
  handle-Grows a b readable_failed d e = absurd (ends_not_on vte json dead_grace (ends, a) b refl e)
  handle-Grows a b (grace_over now) d e =
      absurd (ends_not_on vte json dead_grace (ends, a) b refl e)
  handle-Grows a b (kill_due now) d e = Grows-of a.client [] _ b e (λ k. same-Grows a.client)
  handle-Grows a b (tick busy) d e =
      Grows-of a.client [] _ b e
        (λ k. publish-Grows (record a { poll_running = Session.poll_running vte a.session busy }))
  handle-Grows a b writer_takes d e =
      Grows-of a.client [] _ b e
        (λ k. writer-Grows (take_frame vte json dead_grace) a.client take_frame-sent)
  handle-Grows a b writer_stops d e =
      Grows-of a.client [] _ b e (λ k. writer-Grows _ a.client (λ tx. refl))

  -- Over any turns of the loop in which no client attaches, a client that is attached at the end
  -- was attached all the time, and the DATA bytes it was sent are exactly the bytes read from the
  -- terminal, in order: none lost, doubled or changed, whatever commands, timers and status changes
  -- came between.
  pub Runs-Grows :
      (a b : Actor vte json dead_grace) (es : List Event)
      → All IsDetached es
      → Runs vte json dead_grace a es b
      → Grows a.client b.client (output_all es)
  Runs-Grows a b [] d here = same-Grows a.client
  Runs-Grows a b (e ∷ es) d (turn {b = c} g h r) =
      trans-Grows a.client c.client b.client (output e) (output_all es) (handle-Grows a c e d.0 h)
        (Runs-Grows c b es d.1 r)
