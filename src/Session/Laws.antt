-- ===== src/Session/Laws.antt =====
-- The life of a session (jftermd/src/session.rs): what one drain does, and what a dead shell is spared.
use jfterm_muxer.Base.{
  ℕ, ◌≡◌, refl, sym, ap, ◌∙◌, subst, inl, inr, true, false, not, ◌&&◌, Option, none, some, List, [],
  ◌∷◌, some-injective, unwrap_or, Bool-cases, >>=-eq-some,
}
use jfterm_muxer.Vte.{Vte}
use jfterm_muxer.Engine
use jfterm_muxer.Scanner
use jfterm_muxer.Engine.{ReplayEngine}
use jfterm_muxer.Protocol.{Result, ok, err}
use jfterm_muxer.Pty.{DrainResult}
use jfterm_muxer.Session.{
  dead, is_dead_life, DrainOutcome, Session, is_dead, status, outcome, finish, feed_drained, drain,
}

module _ (vte : Vte) where
  -- What the code gives for the exit of a live session at the end of file.
  abbrev pub exit_of : Option ℕ → ℕ
  exit_of code = unwrap_or code 0

  -- Whether a drain ends the session, and with which status.
  abbrev pub Exit :
      Session vte → DrainResult → Result ℕ (Option ℕ) → Option ℕ → Session vte → Type 0
  Exit s d reaped none s' = (d.eof && not (is_dead vte s) ≡ false) × (s'.lifecycle ≡ s.lifecycle)
  Exit s d reaped (some code) s' =
      (d.eof && not (is_dead vte s) ≡ true)
      × (s'.lifecycle ≡ dead code)
      × ((c : Option ℕ) × (reaped ≡ ok c) × (code ≡ exit_of c))

  abbrev pub Drained :
      Session vte → DrainResult → Result ℕ (Option ℕ) → Result ℕ DrainOutcome × Session vte → Type 0
  Drained s d reaped (err e, s') =
      (Engine.feed vte s.engine d.bytes ≡ some s'.engine)
      × (d.eof && not (is_dead vte s) ≡ true)
      × (reaped ≡ err e)
      × (s'.lifecycle ≡ s.lifecycle)
  Drained s d reaped (ok o, s') =
      (Engine.feed vte s.engine d.bytes ≡ some s'.engine)
      × (o.data_bytes ≡ d.bytes)
      × (o.status ≡ status vte s')
      × Exit s d reaped o.exit s'

  feed_drained_lem :
      (s s' : Session vte) (bytes : List ℕ)
      → feed_drained vte s bytes ≡ some s'
      → (Engine.feed vte s.engine bytes ≡ some s'.engine) × (s'.lifecycle ≡ s.lifecycle)
  unfolding feed_drained Engine.feed jfterm_muxer.Scanner.feed
  feed_drained_lem s s' [] e =
      let q : s ≡ s' = some-injective _ _ e in
      (ap (λ (t : Session vte). some t.engine) q, ap (λ (t : Session vte). t.lifecycle) (sym q))
  feed_drained_lem s s' (b ∷ bs) e =
      let (en, f, g) = >>=-eq-some (Engine.feed vte s.engine (b ∷ bs)) _ e in
      let q : record s { engine = en } ≡ s' = some-injective _ _ g in
      (f ∙ ap (λ (t : Session vte). some t.engine) q, ap (λ (t : Session vte). t.lifecycle) (sym q))

  finish-false :
      (s : Session vte) (d : DrainResult) (reaped : Result ℕ (Option ℕ))
      → d.eof && not (is_dead vte s) ≡ false
      → finish vte s d reaped ≡ (ok (outcome vte s d.bytes none), s)
  unfolding finish outcome
  finish-false s d (err x) e = rw (e, finish) refl
  finish-false s d (ok c) e = rw (e, finish) refl

  finish_err :
      (s : Session vte) (d : DrainResult) (x : ℕ)
      → d.eof && not (is_dead vte s) ≡ true
      → finish vte s d (err x) ≡ (err x, s)
  unfolding finish
  finish_err s d x e = rw (e, finish) refl

  finish_ok :
      (s : Session vte) (d : DrainResult) (c : Option ℕ)
      → d.eof && not (is_dead vte s) ≡ true
      → finish vte s d (ok c) ≡ (
          let s' = record s { lifecycle = dead (exit_of c) } in
          (ok (outcome vte s' d.bytes (some (exit_of c))), s'))
  unfolding finish outcome
  finish_ok s d c e = rw (e, finish) refl

  finish-Drained :
      (s s' : Session vte) (d : DrainResult) (reaped : Result ℕ (Option ℕ))
      → Engine.feed vte s.engine d.bytes ≡ some s'.engine
      → s'.lifecycle ≡ s.lifecycle
      → Drained s d reaped (finish vte s' d reaped)
  unfolding outcome
  finish-Drained s s' d reaped f l =
      let g : d.eof && not (is_dead vte s) ≡ d.eof && not (is_dead vte s') =
        ap (λ x. d.eof && not (is_dead_life x)) (sym l) in
      elim (Bool-cases (d.eof && not (is_dead vte s'))) [
        | inr f0 ↦
            subst (Drained s d reaped) (sym (finish-false s' d reaped f0))
              (f, refl, refl, (g ∙ f0, l))
        | inl t0 ↦ elim reaped as (λ r. Drained s d r (finish vte s' d r)) [
          | err x ↦ subst (Drained s d (err x)) (sym (finish_err s' d x t0)) (f, g ∙ t0, refl, l)
          | ok c ↦
              subst (Drained s d (ok c)) (sym (finish_ok s' d c t0))
                (f, refl, refl, (g ∙ t0, refl, (c, refl, refl)))
        ]
      ]

  -- A drain that the engine survives feeds it exactly the bytes read, which are the bytes it passes
  -- on, with the status after them. It ends the session, with the exit code that was reaped, or 0 if
  -- none was, exactly at the end of file of a live one, and fails only if the reaping fails there.
  pub drain-Drained :
      (s : Session vte) (d : DrainResult) (reaped : Result ℕ (Option ℕ))
      (r : Result ℕ DrainOutcome × Session vte)
      → drain vte s (ok d) reaped ≡ some r
      → Drained s d reaped r
  unfolding drain
  drain-Drained s d reaped r e =
      let (s', f, g) = >>=-eq-some (feed_drained vte s d.bytes) _ e in
      let (h, l) = feed_drained_lem s s' d.bytes f in
      subst (Drained s d reaped) (some-injective _ _ g) (finish-Drained s s' d reaped h l)
