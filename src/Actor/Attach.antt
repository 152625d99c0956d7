-- ===== src/Actor/Attach.antt =====
-- `attach_client` of jftermd/src/server.rs: the handshake of a new client, and the end of the old one.
use jfterm_muxer.Base.{
  ℕ, ◌+◌, ◌≡◌, refl, sym, ap, ◌∙◌, Bool, some, List, [], ◌∷◌, ◌++◌, append-nil, append_assoc,
  some-injective, if◌then◌else◌, All, length,
}
use jfterm_muxer.Vte.{Vte}
use jfterm_muxer.Protocol.{Result, Frame, frame_data}
use jfterm_muxer.Session
use jfterm_muxer.Session.{Session, Lifecycle, live, dead, is_dead_life}
use jfterm_muxer.Client.{
  Outbox, send_ignored, Client, drop_client, replace, Json, status_frame, exit_frame,
}
use jfterm_muxer.Client.Laws.{extended, HasRoom, send_room, send_all_room, extended-HasRoom}
use jfterm_muxer.Actor.{
  AttachRequest, Event, attach, Flow, goes_on, ends, Actor, is_dead, effective_status, exit_frames,
  greet, attach_client, on_attach, handle, Runs,
}
use jfterm_muxer.Actor.Stream.{
  data_of, data_of-append, data_of-frame_data, IsDetached, output_all, Runs-Grows,
}

module _ (vte : Vte) (json : Json) (dead_grace : ℕ) where
  -- The frames of the handshake: the replay, the status, and for a dead session the exit.
  abbrev pub exit_list : Lifecycle → List Frame
  exit_list live = []
  exit_list (dead code) = exit_frame json code ∷ []

  abbrev pub greeting : Session vte → Bool → ℕ → List Frame
  greeting s poll_running want_chunks =
      frame_data (Session.replay_for_attach vte s want_chunks).data_bytes
      ++ (status_frame json (effective_status vte json dead_grace s poll_running)
          ∷ exit_list s.lifecycle)

  exit_room :
      (life : Lifecycle) (tx : Outbox)
      → HasRoom tx 1
      → exit_frames vte json dead_grace life tx ≡ extended tx (exit_list life)
  unfolding exit_frames
  exit_room live tx r = λ i. record tx { sent = sym (append-nil tx.sent) i }
  exit_room (dead code) tx r = send_room tx (exit_frame json code) 0 r

  extended_twice :
      (tx : Outbox) (fs : List Frame) (f : Frame) (gs : List Frame)
      → extended (extended (extended tx fs) (f ∷ [])) gs ≡ extended tx (fs ++ (f ∷ gs))
  extended_twice tx fs f gs =
      let e : ((tx.sent ++ fs) ++ (f ∷ [])) ++ gs ≡ tx.sent ++ (fs ++ (f ∷ gs)) =
        append_assoc (tx.sent ++ fs) (f ∷ []) gs ∙ append_assoc tx.sent fs (f ∷ gs) in
      λ i. record tx { sent = e i }

  -- A new client whose queue has room for it gets the whole greeting, in order: the replay as DATA
  -- frames, then one STATUS, then for a dead session its EXIT.
  pub greet_room :
      (s : Session vte) (poll_running : Bool) (want_chunks : ℕ) (tx : Outbox)
      → HasRoom tx
          (length (frame_data (Session.replay_for_attach vte s want_chunks).data_bytes) + 2)
      → greet vte json dead_grace s poll_running want_chunks tx
        ≡ extended tx (greeting s poll_running want_chunks)
  unfolding greet
  greet_room s poll_running want_chunks tx r =
      let fs = frame_data (Session.replay_for_attach vte s want_chunks).data_bytes in
      let f = status_frame json (effective_status vte json dead_grace s poll_running) in
      let (e, r1) = send_all_room tx fs 2 r in
      let e2 = send_room (extended tx fs) f 1 r1 in
      let r2 = extended-HasRoom (extended tx fs) f 1 r1 in
      ap (λ t. exit_frames vte json dead_grace s.lifecycle (send_ignored t f)) e
      ∙ (ap (exit_frames vte json dead_grace s.lifecycle) e2
          ∙ (exit_room s.lifecycle (extended (extended tx fs) (f ∷ [])) r2
              ∙ extended_twice tx fs f (exit_list s.lifecycle)))

  data_of-exit_list : (life : Lifecycle) → data_of (exit_list life) ≡ []
  data_of-exit_list live = refl
  data_of-exit_list (dead code) = refl

  data_of-greeting :
      (s : Session vte) (poll_running : Bool) (want_chunks : ℕ)
      → data_of (greeting s poll_running want_chunks)
        ≡ (Session.replay_for_attach vte s want_chunks).data_bytes
  data_of-greeting s poll_running want_chunks =
      let replay = (Session.replay_for_attach vte s want_chunks).data_bytes in
      let f = status_frame json (effective_status vte json dead_grace s poll_running) in
      data_of-append (frame_data replay) (f ∷ exit_list s.lifecycle)
      ∙ (ap (λ l. data_of (frame_data replay) ++ l) (data_of-exit_list s.lifecycle)
          ∙ (append-nil (data_of (frame_data replay)) ∙ data_of-frame_data replay))

  abbrev pub replay_of : Actor vte json dead_grace → AttachRequest → List ℕ
  replay_of a req = (Session.replay_for_attach vte a.session req.want_chunks).data_bytes

  -- An attach of a client whose queue has room for the greeting, whether or not another client is there
  -- and also when the session is being closed: the new client becomes the one client and has the whole
  -- greeting; the old one's channel is let go with what was sent; the status sent is recorded as the
  -- last one; and the loop ends exactly when the session is dead.
  pub on_attach-greets :
      (a : Actor vte json dead_grace) (req : AttachRequest) (is_set : Bool) (busy : Result ℕ Bool)
      → HasRoom req.out_tx (length (frame_data (replay_of a req)) + 2)
      → (let (flow, b) = on_attach vte json dead_grace a req is_set busy in
          (b.client ≡ record {
            current =
                some (extended req.out_tx (greeting b.session b.poll_running req.want_chunks));
            gone = (drop_client a.client).gone;
          })
          × (b.last_status ≡ some (effective_status vte json dead_grace b.session b.poll_running))
          × (flow ≡ (if is_dead vte json dead_grace a then ends else goes_on)))
  unfolding on_attach attach_client Session.resize Session.replay_for_attach replace
  on_attach-greets a req is_set busy r =
      let poll = (on_attach vte json dead_grace a req is_set busy).1.poll_running in
      let s' = record (a.session) { cols = req.cols; rows = req.rows } in
      (
        ap (λ (t : Outbox). replace a.client t) (greet_room s' poll req.want_chunks req.out_tx r),
        refl,
        refl,
      )

  -- End to end: from its attach on, for as long as it stays attached and no other client attaches, a
  -- client with a new queue that has room for the greeting is sent, as DATA, the replay at its attach
  -- and then exactly what is read from the terminal.
  pub attach-stream :
      (a b c : Actor vte json dead_grace) (req : AttachRequest) (is_set : Bool)
      (busy : Result ℕ Bool) (es : List Event) (tx : Outbox)
      → req.out_tx.sent ≡ []
      → HasRoom req.out_tx (length (frame_data (replay_of a req)) + 2)
      → handle vte json dead_grace a (attach req is_set busy) ≡ some (goes_on, b)
      → All IsDetached es
      → Runs vte json dead_grace b es c
      → c.client.current ≡ some tx
      → data_of tx.sent ≡ replay_of a req ++ output_all es
  unfolding handle on_attach attach_client Session.resize Session.replay_for_attach
  attach-stream a b c req is_set busy es tx z r h d rs e =
      let x = on_attach vte json dead_grace a req is_set busy in
      let gs = greeting x.1.session x.1.poll_running req.want_chunks in
      let (tx0, k, q) = Runs-Grows vte json dead_grace b c es d rs tx e in
      let g = (on_attach-greets a req is_set busy r).0 in
      let k' : some (extended req.out_tx gs) ≡ some tx0 =
        sym (ap (λ (y : Client). y.current) g)
        ∙ (ap (λ (y : Flow × Actor vte json dead_grace). y.1.client.current) (some-injective _ _ h)
            ∙ k) in
      let start : data_of tx0.sent ≡ replay_of a req =
        ap (λ (t : Outbox). data_of t.sent) (sym (some-injective _ _ k'))
        ∙ (ap (λ l. data_of (l ++ gs)) z
            ∙ data_of-greeting x.1.session x.1.poll_running req.want_chunks) in
      q ∙ ap (λ l. l ++ output_all es) start
