-- ===== src/Actor/Exit.antt =====
-- The end of a shell, as `actor_loop` (jftermd/src/server.rs) tells its client.
use jfterm_muxer.Base.{
  ℕ, ◌+◌, ◌≡◌, ◌≢◌, sym, ap, ◌∙◌, subst, Bool, true, false, Option, none, some, List, [], ◌∷◌, ◌++◌,
  some-injective, if-elim, >>=-eq-some,
}
use jfterm_muxer.Vte.{Vte}
use jfterm_muxer.Protocol.{Result, ok, err, Frame}
use jfterm_muxer.Pty.{DrainResult}
use jfterm_muxer.Session
use jfterm_muxer.Session.{Session, live, dead, is_dead_life, DrainOutcome}
use jfterm_muxer.Session.Laws.{Exit, drain-Drained}
use jfterm_muxer.Client.{Outbox, push_or_drop, push_all, forward_data, Json, exit_frame}
use jfterm_muxer.Client.Laws.{push_all-kept}
use jfterm_muxer.Actor.{
  readable, Flow, Actor, update_client, on_exit, after_drain, on_readable, handle,
}
use jfterm_muxer.Actor.Keeps.{ok_is_no_err, update_client-Keeps}

module _ (vte : Vte) (json : Json) (dead_grace : ℕ) where
  -- The session has ended with a status, and the client was last sent the EXIT with it.
  abbrev pub IsTold : Session vte → Outbox → Type 0
  IsTold s tx =
      (code : ℕ) × (before : List Frame) × (s.lifecycle ≡ dead code)
      × (tx.sent ≡ before ++ (exit_frame json code ∷ []))

  abbrev Tells : Flow × Actor vte json dead_grace → Type 0
  Tells x =
      (tx : Outbox)
      → Session.is_dead vte x.1.session ≡ true
      → x.1.client.current ≡ some tx
      → IsTold x.1.session tx

  alive :
      (s s' : Session vte)
      → s'.lifecycle ≡ s.lifecycle
      → Session.is_dead vte s ≡ false
      → Session.is_dead vte s' ≢ true
  alive s s' l a d = let z : false ≡ true = sym a ∙ (ap is_dead_life (sym l) ∙ d) in cc

  push-IsTold :
      (a : Actor vte json dead_grace) (code : ℕ) (tx : Outbox)
      → a.session.lifecycle ≡ dead code
      → (push_or_drop a.client (exit_frame json code)).current ≡ some tx
      → IsTold a.session tx
  unfolding push_all
  push-IsTold a code tx l e =
      let (old, k, q) = push_all-kept a.client (exit_frame json code ∷ []) tx e in
      (code, old.sent, l, ap (λ (t : Outbox). t.sent) q)

  Exit-Tells :
      (a : Actor vte json dead_grace) (s s' : Session vte) (d : DrainResult)
      (reaped : Result ℕ (Option ℕ)) (exit : Option ℕ) (deadline : ℕ)
      → Session.is_dead vte s ≡ false
      → Exit vte s d reaped exit s'
      → a.session.lifecycle ≡ s'.lifecycle
      → Tells (on_exit vte json dead_grace a exit deadline)
  unfolding on_exit
  Exit-Tells a s s' d reaped none deadline l (g, k) m =
      λ tx h e. absurd (alive s a.session (m ∙ k) l h)
  Exit-Tells a s s' d reaped (some code) deadline l (g, k, r) m =
      if-elim Tells a.closing _ _ (λ t tx h e. push-IsTold a code tx (m ∙ k) e)
        (λ f tx h e. push-IsTold a code tx (m ∙ k) e)

  drain-Tells :
      (a : Actor vte json dead_grace) (drained : Result ℕ DrainResult)
      (reaped : Result ℕ (Option ℕ)) (busy : Result ℕ Bool) (now : ℕ) (r : Result ℕ DrainOutcome)
      (s' : Session vte)
      → Session.is_dead vte a.session ≡ false
      → Session.drain vte a.session drained reaped ≡ some (r, s')
      → Tells (after_drain vte json dead_grace (record a { session = s' }) r busy now)
  unfolding after_drain Session.drain
  drain-Tells a (err x) reaped busy now (err y) s' l e =
      let q : a.session ≡ s' =
        ap (λ (z : Result ℕ DrainOutcome × Session vte). z.1) (some-injective _ _ e) in
      λ tx h f. absurd (alive a.session s' (ap (λ (z : Session vte). z.lifecycle) (sym q)) l h)
  drain-Tells a (err x) reaped busy now (ok o) s' l e = absurd (
      ok_is_no_err x o
        (ap (λ (z : Result ℕ DrainOutcome × Session vte). z.0) (some-injective _ _ e)))
  drain-Tells a (ok d) reaped busy now (err x) s' l e =
      let (f, g, h, k) = drain-Drained vte a.session d reaped (err x, s') e in
      λ tx h e. absurd (alive a.session s' k l h)
  drain-Tells a (ok d) reaped busy now (ok o) s' l e =
      let (f, g, h, x) = drain-Drained vte a.session d reaped (ok o, s') e in
      let b = record a { session = s'; client = forward_data a.client o.data_bytes } in
      let k = update_client-Keeps vte json dead_grace b busy in
      Exit-Tells (update_client vte json dead_grace b busy) a.session s' d reaped o.exit
        (now + dead_grace) l x k.lifecycle

  -- When a turn of the loop finds the shell's end, a client that is attached after it was last sent
  -- the EXIT with the status that the session now has; the DATA of that turn and a change of the
  -- status come before it.
  pub readable-tells :
      (a b : Actor vte json dead_grace) (drained : Result ℕ DrainResult)
      (reaped : Result ℕ (Option ℕ)) (busy : Result ℕ Bool) (now : ℕ) (flow : Flow) (tx : Outbox)
      → Session.is_dead vte a.session ≡ false
      → handle vte json dead_grace a (readable drained reaped busy now) ≡ some (flow, b)
      → Session.is_dead vte b.session ≡ true
      → b.client.current ≡ some tx
      → IsTold b.session tx
  unfolding handle on_readable
  readable-tells a b drained reaped busy now flow tx l e d c =
      let ((r, s'), f, g) = >>=-eq-some (Session.drain vte a.session drained reaped) _ e in
      subst Tells (some-injective _ _ g) (drain-Tells a drained reaped busy now r s' l f) tx d c
