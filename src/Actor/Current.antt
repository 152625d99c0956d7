-- ===== src/Actor/Current.antt =====
-- The STATUS frames of `actor_loop` (jftermd/src/server.rs): the last one that a client was sent.
use jfterm_muxer.Base.{
  true_is_not_false, ℕ, ◌+◌, ◌≡◌, refl, sym, ap, ◌∙◌, subst, Bool, true, false, not, ◌&&◌, Option,
  none, some, List, [], ◌∷◌, ◌++◌, some-injective, is_some, if-elim, >>=-eq-some, All, length,
  ==_iff,
}
use jfterm_muxer.Vte.{Vte}
use jfterm_muxer.Status.{StatusSnapshot}
use jfterm_muxer.Protocol.{Result, ok, err, Frame, FrameType, status, frame_data}
use jfterm_muxer.Protocol.Data.{IsData, frame_data-payloads}
use jfterm_muxer.Session
use jfterm_muxer.Session.{Session, Lifecycle, live, dead, DrainOutcome}
use jfterm_muxer.Client.{
  Outbox, Client, push_or_drop, push_all, forward_data, Json, status_frame, exit_frame,
}
use jfterm_muxer.Client.Laws.{extended, push_all-kept, HasRoom}
use jfterm_muxer.Actor.{
  AttachRequest, Event, commands_closed, input, resize, info, close, attach, readable,
  readable_failed, grace_over, kill_due, tick, writer_takes, writer_stops, Flow, goes_on, ends,
  is_last, same_bool, same_progress, Actor, is_dead, effective_status, on_input, on_resize, on_info,
  on_close, on_attach, publish, refresh, update_client, on_exit, after_drain, on_readable, on_kill,
  on_tick, handle, Runs, here, turn, writer_step, take_frame,
}
use jfterm_muxer.Actor.Invariant.{ends_not_on}
use jfterm_muxer.Actor.Stream.{IsDetached, ends_is_not, take_frame-sent, writer_kept}
use jfterm_muxer.Actor.Attach.{exit_list, greeting, replay_of, on_attach-greets}

abbrev newer : FrameType → Frame → Option Frame → Option Frame
newer status f last = some f
newer _ f last = last

-- The last STATUS frame, after one seen before.
abbrev pub last_of : Option Frame → List Frame → Option Frame
last_of last [] = last
last_of last (f ∷ fs) = last_of (newer f.ty f last) fs

last_of-append :
    (last : Option Frame) (fs gs : List Frame)
    → last_of last (fs ++ gs) ≡ last_of (last_of last fs) gs
last_of-append last [] gs = refl
last_of-append last (f ∷ fs) gs = last_of-append (newer f.ty f last) fs gs

last_of-data : (last : Option Frame) (fs : List Frame) → All IsData fs → last_of last fs ≡ last
last_of-data last [] h = refl
last_of-data last (f ∷ fs) h =
    ap (λ ty. last_of (newer ty f last) fs) h.0.0 ∙ last_of-data last fs h.1

same_bool_sound : (a b : Bool) → same_bool a b ≡ true → a ≡ b
unfolding same_bool
same_bool_sound true true e = refl
same_bool_sound true false e = cc
same_bool_sound false true e = cc
same_bool_sound false false e = refl

same_progress_sound : (a b : Option ℕ) → same_progress a b ≡ true → a ≡ b
unfolding same_progress
same_progress_sound none none e = refl
same_progress_sound none (some n) e = cc
same_progress_sound (some m) none e = cc
same_progress_sound (some m) (some n) e = ap some ((==_iff m n).0 e)

and_left : (a b : Bool) → a && b ≡ true → a ≡ true
and_left true b e = refl
and_left false b e = cc

and_right : (a b : Bool) → a && b ≡ true → b ≡ true
and_right true b e = e
and_right false b e = cc

is_last_sound :
    (last : Option StatusSnapshot) (eff : StatusSnapshot)
    → is_last last eff ≡ true
    → last ≡ some eff
unfolding is_last
is_last_sound none eff e = cc
is_last_sound (some s) eff e =
    let r = same_bool_sound s.running eff.running (and_left _ _ e) in
    let p =
      same_progress_sound s.progress eff.progress
        (and_right (same_bool s.running eff.running) _ e) in
    λ i. some (record { running = r i; progress = p i })

module _ (vte : Vte) (json : Json) (dead_grace : ℕ) where
  -- An attached client was last sent the status that is recorded.
  abbrev IsCurrent : Client → Option StatusSnapshot → Type 0
  IsCurrent c last =
      (tx : Outbox)
      → c.current ≡ some tx
      → (st : StatusSnapshot) × (last ≡ some st)
        × (last_of none tx.sent ≡ some (status_frame json st))

  -- It is the one that holds.
  abbrev pub IsFresh : Actor vte json dead_grace → Type 0
  IsFresh a =
      (tx : Outbox)
      → a.client.current ≡ some tx
      → (a.last_status ≡ some (effective_status vte json dead_grace a.session a.poll_running))
        × (last_of none tx.sent
            ≡ some
                (status_frame json (effective_status vte json dead_grace a.session a.poll_running)))

  fresh-IsCurrent : (a : Actor vte json dead_grace) → IsFresh a → IsCurrent a.client a.last_status
  fresh-IsCurrent a f tx e = let (l, s) = f tx e in (_, l, s)

  -- Frames that are no STATUS change nothing.
  push_all-IsCurrent :
      (c : Client) (last : Option StatusSnapshot) (fs : List Frame)
      → ((f : Option Frame) → last_of f fs ≡ f)
      → IsCurrent c last
      → IsCurrent (push_all c fs) last
  push_all-IsCurrent c last fs h k tx' e =
      let (tx, e0, q) = push_all-kept c fs tx' e in
      let (st, l, s) = k tx e0 in
      (
        st,
        l,
        ap (λ (t : Outbox). last_of none t.sent) q
            ∙ (last_of-append none tx.sent fs ∙ (h (last_of none tx.sent) ∙ s)),
      )

  forward-IsCurrent :
      (c : Client) (last : Option StatusSnapshot) (bytes : List ℕ)
      → IsCurrent c last
      → IsCurrent (forward_data c bytes) last
  unfolding forward_data
  forward-IsCurrent c last bytes k =
      push_all-IsCurrent c last (frame_data bytes)
        (λ f. last_of-data f (frame_data bytes) (frame_data-payloads bytes).1) k

  publish-IsFresh :
      (a : Actor vte json dead_grace)
      → IsCurrent a.client a.last_status
      → IsFresh (publish vte json dead_grace a)
  unfolding publish push_all
  publish-IsFresh a k =
      let eff = effective_status vte json dead_grace a.session a.poll_running in
      if-elim IsFresh (is_last a.last_status eff) _ _
        (λ t tx e.
          let (st, l, s) = k tx e in
          let m = is_last_sound a.last_status eff t in
          let q : st ≡ eff = some-injective _ _ (sym l ∙ m) in
          (m, s ∙ ap (λ x. some (status_frame json x)) q))
        (λ f tx' e.
          let (tx, e0, q) = push_all-kept a.client (status_frame json eff ∷ []) tx' e in
          (
            refl,
            ap (λ (t : Outbox). last_of none t.sent) q
                ∙ last_of-append none tx.sent (status_frame json eff ∷ []),
          ))

  refresh-IsCurrent :
      (a : Actor vte json dead_grace) (busy : Result ℕ Bool)
      → IsCurrent a.client a.last_status
      → (let b = refresh vte json dead_grace a busy in IsCurrent b.client b.last_status)
  unfolding refresh
  refresh-IsCurrent a busy k =
      if-elim (λ (b : Actor vte json dead_grace). IsCurrent b.client b.last_status)
        (not (Session.has_prompt_marking vte a.session) && not (is_dead vte json dead_grace a)) _ _
        (λ t. k) (λ f. k)

  update_client-IsFresh :
      (a : Actor vte json dead_grace) (busy : Result ℕ Bool)
      → IsCurrent a.client a.last_status
      → IsFresh (update_client vte json dead_grace a busy)
  unfolding update_client
  update_client-IsFresh a busy k =
      if-elim IsFresh (is_some (a.client).current) _ a
        (λ t. publish-IsFresh (refresh vte json dead_grace a busy) (refresh-IsCurrent a busy k))
        (λ f tx e. let z : true ≡ false = sym (ap is_some e) ∙ f in absurd (true_is_not_false z))

  push_exit-IsFresh :
      (a : Actor vte json dead_grace) (code : ℕ)
      → IsFresh a
      → IsFresh (record a { client = push_or_drop a.client (exit_frame json code) })
  unfolding push_all
  push_exit-IsFresh a code k tx' e =
      let (tx, e0, q) = push_all-kept a.client (exit_frame json code ∷ []) tx' e in
      let (l, s) = k tx e0 in
      (
        l,
        ap (λ (t : Outbox). last_of none t.sent) q
            ∙ (last_of-append none tx.sent (exit_frame json code ∷ []) ∙ s),
      )

  abbrev Freshens : Flow × Actor vte json dead_grace → Type 0
  Freshens x = x.0 ≡ goes_on → IsFresh x.1

  on_exit-Freshens :
      (a : Actor vte json dead_grace) (exit : Option ℕ) (deadline : ℕ)
      → IsFresh a
      → Freshens (on_exit vte json dead_grace a exit deadline)
  unfolding on_exit
  on_exit-Freshens a none deadline k = λ e. k
  on_exit-Freshens a (some code) deadline k =
      if-elim Freshens a.closing _ _ (λ t e. absurd (ends_is_not e))
        (λ f e. push_exit-IsFresh a code k)

  drain-Freshens :
      (a : Actor vte json dead_grace) (r : Result ℕ DrainOutcome) (busy : Result ℕ Bool) (now : ℕ)
      → IsCurrent a.client a.last_status
      → Freshens (after_drain vte json dead_grace a r busy now)
  unfolding after_drain
  drain-Freshens a (err x) busy now k = λ e. absurd (ends_is_not e)
  drain-Freshens a (ok o) busy now k =
      let b = record a { client = forward_data a.client o.data_bytes } in
      on_exit-Freshens (update_client vte json dead_grace b busy) o.exit (now + dead_grace)
        (update_client-IsFresh b busy (forward-IsCurrent a.client a.last_status o.data_bytes k))

  close-Freshens :
      (a : Actor vte json dead_grace) (grace_ms now : ℕ)
      → IsFresh a
      → Freshens (on_close vte json dead_grace a grace_ms now)
  unfolding on_close
  close-Freshens a grace_ms now k =
      if-elim Freshens (is_dead vte json dead_grace a) _ _ (λ t e. absurd (ends_is_not e))
        (λ f e. k)

  writer-IsFresh :
      (a : Actor vte json dead_grace) (f : Outbox → Outbox)
      → ((tx : Outbox) → (f tx).sent ≡ tx.sent)
      → IsFresh a
      → IsFresh (record a { client = writer_step vte json dead_grace f a.client })
  writer-IsFresh a f h k tx' e =
      let (tx, e0, q) = writer_kept vte json dead_grace f a.client tx' e in
      let (l, s) = k tx e0 in
      (l, ap (λ (t : Outbox). last_of none t.sent) (sym q) ∙ (ap (last_of none) (h tx) ∙ s))

  IsFresh-of :
      (x : Flow × Actor vte json dead_grace) (b : Actor vte json dead_grace)
      → some x ≡ some (goes_on, b)
      → Freshens x
      → IsFresh b
  IsFresh-of x b e g = subst Freshens (some-injective _ _ e) g refl

  handle-IsFresh :
      (a b : Actor vte json dead_grace) (e : Event)
      → IsDetached e
      → IsFresh a
      → handle vte json dead_grace a e ≡ some (goes_on, b)
      → IsFresh b
  unfolding handle on_input on_resize on_info on_kill on_readable on_tick Session.resize
      effective_status
  handle-IsFresh a b commands_closed d k e =
      absurd (ends_not_on vte json dead_grace (ends, a) b refl e)
  handle-IsFresh a b (input bytes) d k e = IsFresh-of _ b e (λ g. k)
  handle-IsFresh a b (resize cols rows is_set) d k e = IsFresh-of _ b e (λ g. k)
  handle-IsFresh a b (info busy) d k e = IsFresh-of _ b e (λ g. k)
  handle-IsFresh a b (close grace_ms now) d k e = IsFresh-of _ b e (close-Freshens a grace_ms now k)
  handle-IsFresh a b (attach req is_set busy) d k e = absurd d
  handle-IsFresh a b (readable drained reaped busy now) d k e =
      let ((r, s'), f, g) = >>=-eq-some (Session.drain vte a.session drained reaped) _ e in
      IsFresh-of _ b g (drain-Freshens (record a { session = s' }) r busy now (fresh-IsCurrent a k))
  handle-IsFresh a b readable_failed d k e =
      absurd (ends_not_on vte json dead_grace (ends, a) b refl e)
  handle-IsFresh a b (grace_over now) d k e =
      absurd (ends_not_on vte json dead_grace (ends, a) b refl e)
  handle-IsFresh a b (kill_due now) d k e = IsFresh-of _ b e (λ g. k)
  handle-IsFresh a b (tick busy) d k e = IsFresh-of _ b e (λ g.
      publish-IsFresh (record a { poll_running = Session.poll_running vte a.session busy })
        (fresh-IsCurrent a k))
  handle-IsFresh a b writer_takes d k e = IsFresh-of _ b e (λ g.
      writer-IsFresh a (take_frame vte json dead_grace) (take_frame-sent vte json dead_grace) k)
  handle-IsFresh a b writer_stops d k e = IsFresh-of _ b e (λ g. writer-IsFresh a _ (λ tx. refl) k)

  -- As long as no client attaches, turns of the loop keep this: the last STATUS frame that the
  -- attached client was sent is the one recorded, and it is the session's effective status now.
  pub Runs-IsFresh :
      (a b : Actor vte json dead_grace) (es : List Event)
      → All IsDetached es
      → IsFresh a
      → Runs vte json dead_grace a es b
      → IsFresh b
  Runs-IsFresh a b [] d k here = k
  Runs-IsFresh a b (e ∷ es) d k (turn {b = c} g h r) =
      Runs-IsFresh c b es d.1 (handle-IsFresh a c e d.0 k h) r

  last_of-exit_list :
      (life : Lifecycle) (f : Frame)
      → last_of (some f) (exit_list vte json dead_grace life) ≡ some f
  last_of-exit_list live f = refl
  last_of-exit_list (dead code) f = refl

  last_of-greeting :
      (last : Option Frame) (s : Session vte) (poll_running : Bool) (want_chunks : ℕ)
      → last_of last (greeting vte json dead_grace s poll_running want_chunks)
        ≡ some (status_frame json (effective_status vte json dead_grace s poll_running))
  last_of-greeting last s poll_running want_chunks =
      let replay = frame_data (Session.replay_for_attach vte s want_chunks).data_bytes in
      let f = status_frame json (effective_status vte json dead_grace s poll_running) in
      last_of-append last replay (f ∷ exit_list vte json dead_grace s.lifecycle)
      ∙ last_of-exit_list s.lifecycle f

  attach-IsFresh :
      (a b : Actor vte json dead_grace) (req : AttachRequest) (is_set : Bool) (busy : Result ℕ Bool)
      → HasRoom req.out_tx (length (frame_data (replay_of vte json dead_grace a req)) + 2)
      → handle vte json dead_grace a (attach req is_set busy) ≡ some (goes_on, b)
      → IsFresh b
  unfolding handle
  attach-IsFresh a b req is_set busy r h =
      let x = on_attach vte json dead_grace a req is_set busy in
      let g = on_attach-greets vte json dead_grace a req is_set busy r in
      let gs = greeting vte json dead_grace x.1.session x.1.poll_running req.want_chunks in
      let fresh : IsFresh x.1 = λ tx e.
        let q : extended req.out_tx gs ≡ tx =
          some-injective _ _ (sym (ap (λ (y : Client). y.current) g.0) ∙ e) in
        (
          g.1,
          ap (λ (t : Outbox). last_of none t.sent) (sym q)
              ∙ (last_of-append none req.out_tx.sent gs
                  ∙ last_of-greeting (last_of none req.out_tx.sent) x.1.session x.1.poll_running
                      req.want_chunks),
        ) in
      IsFresh-of x b h (λ e. fresh)

  -- From its attach on, for as long as it stays attached and no other client attaches, the last STATUS
  -- frame sent to a client, whose queue has room for the greeting, is the session's effective status
  -- at every turn of the loop: no change goes unreported.
  pub attach-status :
      (a b c : Actor vte json dead_grace) (req : AttachRequest) (is_set : Bool)
      (busy : Result ℕ Bool) (es : List Event) (tx : Outbox)
      → HasRoom req.out_tx (length (frame_data (replay_of vte json dead_grace a req)) + 2)
      → handle vte json dead_grace a (attach req is_set busy) ≡ some (goes_on, b)
      → All IsDetached es
      → Runs vte json dead_grace b es c
      → c.client.current ≡ some tx
      → last_of none tx.sent
        ≡ some (status_frame json (effective_status vte json dead_grace c.session c.poll_running))
  attach-status a b c req is_set busy es tx r h d rs e =
      (Runs-IsFresh b c es d (attach-IsFresh a b req is_set busy r h) rs tx e).1
