-- ===== src/Actor/Keeps.antt =====
-- What a turn of `actor_loop` (jftermd/src/server.rs) leaves as it is.
use jfterm_muxer.Base.{
  ℕ, ◌≡◌, ◌≢◌, refl, sym, ap, ◌∙◌, inl, inr, Bool, true, false, not, ◌&&◌, List, [], ◌∷◌, is_some,
  if-elim, Bool-cases, Option-cases,
}
use jfterm_muxer.Vte.{Vte}
use jfterm_muxer.Protocol.{Result, ok, err, Frame, frame_data}
use jfterm_muxer.Session
use jfterm_muxer.Session.{Session, Lifecycle, live, dead, is_dead_life, DrainOutcome}
use jfterm_muxer.Client.{Client, push_or_drop, push_all, forward_data, Json}
use jfterm_muxer.Client.Laws.{push_all-kept}
use jfterm_muxer.Actor.{is_last, Actor, is_dead, effective_status, publish, refresh, update_client}

pub push_kept :
    (c : Client) (f : Frame) → is_some (push_or_drop c f).current ≡ true → is_some c.current ≡ true
unfolding push_all
push_kept c f e = elim (Option-cases (push_or_drop c f).current) [
  | inl n ↦ let z : false ≡ true = sym (ap is_some n) ∙ e in cc
  | inr (tx, s) ↦ let (o, k, q) = push_all-kept c (f ∷ []) tx s in ap is_some k
]

pub forward_kept :
    (c : Client) (bytes : List ℕ)
    → is_some (forward_data c bytes).current ≡ true
    → is_some c.current ≡ true
unfolding forward_data
forward_kept c bytes e = elim (Option-cases (forward_data c bytes).current) [
  | inl n ↦ let z : false ≡ true = sym (ap is_some n) ∙ e in cc
  | inr (tx, s) ↦ let (o, k, q) = push_all-kept c (frame_data bytes) tx s in ap is_some k
]

abbrev pub the_err : ℕ → Result ℕ DrainOutcome
the_err x = err x

pub ok_is_no_err : (x : ℕ) (o : DrainOutcome) → the_err x ≢ ok o
ok_is_no_err x o e = cc

module _ (vte : Vte) (json : Json) (dead_grace : ℕ) where
  -- A dead session has its retention deadline, and only it has; a session that is being closed is
  -- not dead yet; an attached client has a recorded status.
  pub record IsSound (a : Actor vte json dead_grace) : Type 0 where
    pub retained : is_dead vte json dead_grace a ≡ is_some a.grace_deadline
    pub closes : a.closing ≡ true → is_dead vte json dead_grace a ≡ false
    pub known : is_some (a.client).current ≡ true → is_some a.last_status ≡ true

  -- The fields that the invariant reads; the client may be dropped.
  pub record Keeps (a b : Actor vte json dead_grace) : Type 0 where
    pub lifecycle : (b.session).lifecycle ≡ (a.session).lifecycle
    pub deadline : b.grace_deadline ≡ a.grace_deadline
    pub closing : b.closing ≡ a.closing
    pub kill : b.kill_deadline ≡ a.kill_deadline
    pub session : b.session ≡ a.session
    pub known :
        is_some (b.client).current ≡ true
        → (is_some (a.client).current ≡ true)
          × (is_some a.last_status ≡ true → is_some b.last_status ≡ true)

  pub Keeps-IsSound : (a b : Actor vte json dead_grace) → Keeps a b → IsSound a → IsSound b
  Keeps-IsSound a b k s = record {
    retained = ap is_dead_life k.lifecycle ∙ (s.retained ∙ ap is_some (sym k.deadline));
    closes = λ e. ap is_dead_life k.lifecycle ∙ s.closes (sym k.closing ∙ e);
    known = λ e. (k.known e).1 (s.known (k.known e).0);
  }

  pub same-Keeps : (a : Actor vte json dead_grace) → Keeps a a
  same-Keeps a = record {
    lifecycle = refl;
    deadline = refl;
    closing = refl;
    kill = refl;
    session = refl;
    known = λ e. (e, λ x. x);
  }

  pub trans-Keeps : (a b c : Actor vte json dead_grace) → Keeps a b → Keeps b c → Keeps a c
  trans-Keeps a b c j k = record {
    lifecycle = k.lifecycle ∙ j.lifecycle;
    deadline = k.deadline ∙ j.deadline;
    closing = k.closing ∙ j.closing;
    kill = k.kill ∙ j.kill;
    session = k.session ∙ j.session;
    known = λ e. let x = k.known e in let y = j.known x.0 in (y.0, λ s. x.1 (y.1 s));
  }

  pub publish-Keeps : (a : Actor vte json dead_grace) → Keeps a (publish vte json dead_grace a)
  unfolding publish
  publish-Keeps a =
      elim (Bool-cases
        (is_last a.last_status (effective_status vte json dead_grace a.session a.poll_running))) [
          | inl t ↦ rw t (same-Keeps a)
          | inr f ↦ rw f (record {
            lifecycle = refl;
            deadline = refl;
            closing = refl;
            kill = refl;
            session = refl;
            known = λ e. (push_kept a.client _ e, λ x. refl);
          })
        ]

  pub refresh-Keeps :
      (a : Actor vte json dead_grace) (busy : Result ℕ Bool)
      → Keeps a (refresh vte json dead_grace a busy)
  unfolding refresh
  refresh-Keeps a busy =
      elim (Bool-cases
        (not (Session.has_prompt_marking vte a.session) && not (is_dead vte json dead_grace a))) [
          | inl t ↦ rw t (record {
            lifecycle = refl;
            deadline = refl;
            closing = refl;
            kill = refl;
            session = refl;
            known = λ e. (e, λ x. x);
          })
          | inr f ↦ rw f (same-Keeps a)
        ]

  pub update_client-Keeps :
      (a : Actor vte json dead_grace) (busy : Result ℕ Bool)
      → Keeps a (update_client vte json dead_grace a busy)
  unfolding update_client
  update_client-Keeps a busy =
      let b = refresh vte json dead_grace a busy in
      if-elim (Keeps a) (is_some (a.client).current) (publish vte json dead_grace b) a
        (λ t.
          trans-Keeps a b (publish vte json dead_grace b) (refresh-Keeps a busy) (publish-Keeps b))
        (λ f. same-Keeps a)
