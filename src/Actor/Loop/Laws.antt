-- ===== src/Actor/Loop/Laws.antt =====
-- The whole run of `actor_loop` of jftermd/src/server.rs, and what it leaves behind.
use jfterm_muxer.Base.{
  none_is_not_some, ℕ, ◌≡◌, refl, sym, ap, ◌∙◌, inl, inr, ◌⊎◌, Bool, true, false, Option, none,
  some, some-injective, List, [], ◌∷◌, ◌++◌, Bool-cases, Option-cases, bytes_eq, bytes_eq_iff,
}
use jfterm_muxer.Vte.{Vte}
use jfterm_muxer.Pty.{Request, drop_pty, sigkill, wait_child}
use jfterm_muxer.Session
use jfterm_muxer.Session.{Session, is_dead_life, DrainOutcome}
use jfterm_muxer.Registry.{Registry, get, remove}
use jfterm_muxer.Registry.Invariant.{IsValid, remove-get}
use jfterm_muxer.Client.{Json}
use jfterm_muxer.Actor.Invariant.{Runs-IsSound}
use jfterm_muxer.Actor.{
  Event, Flow, goes_on, ends, Actor, start, is_enabled, handle, Runs, here, turn,
}
use jfterm_muxer.Actor.Loop.{run_turns, after_turns, actor_loop}
use jfterm_muxer.Actor.Loop.Over.{IsOver, on_is_no_end, ends-IsOver}

module _ (vte : Vte) (json : Json) (dead_grace : ℕ) where
  abbrev Turn : Type 0
  Turn = Flow × Actor vte json dead_grace

  -- The turns before the last, and the last.
  pub record Last (a : Actor vte json dead_grace) (es : List Event) (b : Actor vte json dead_grace)
      : Type 0 where
    pub before : List Event
    pub last : Event
    pub at : Actor vte json dead_grace
    pub split : es ≡ before ++ (last ∷ [])
    pub goes : Runs vte json dead_grace a before at
    pub enabled : is_enabled vte json dead_grace at last ≡ true
    pub ended : handle vte json dead_grace at last ≡ some (ends, b)

  off_turns :
      (a : Actor vte json dead_grace) (e : Event) (es : List Event)
      → is_enabled vte json dead_grace a e ≡ false
      → run_turns vte json dead_grace a (e ∷ es) ≡ none
  unfolding run_turns
  off_turns a e es g = rw (g, run_turns) refl

  bad_turns :
      (a : Actor vte json dead_grace) (e : Event) (es : List Event)
      → is_enabled vte json dead_grace a e ≡ true
      → handle vte json dead_grace a e ≡ none
      → run_turns vte json dead_grace a (e ∷ es) ≡ none
  unfolding run_turns
  bad_turns a e es g h = rw (g, run_turns, h) refl

  on_turns :
      (a c : Actor vte json dead_grace) (e : Event) (es : List Event)
      → is_enabled vte json dead_grace a e ≡ true
      → handle vte json dead_grace a e ≡ some (goes_on, c)
      → run_turns vte json dead_grace a (e ∷ es) ≡ run_turns vte json dead_grace c es
  unfolding run_turns
  on_turns a c e es g h = rw (g, run_turns, h) refl

  last_turn :
      (a c : Actor vte json dead_grace) (e : Event)
      → is_enabled vte json dead_grace a e ≡ true
      → handle vte json dead_grace a e ≡ some (ends, c)
      → run_turns vte json dead_grace a (e ∷ []) ≡ some (ends, c)
  unfolding run_turns
  last_turn a c e g h = rw (g, run_turns, h) refl

  over_turns :
      (a c : Actor vte json dead_grace) (e e' : Event) (es : List Event)
      → is_enabled vte json dead_grace a e ≡ true
      → handle vte json dead_grace a e ≡ some (ends, c)
      → run_turns vte json dead_grace a (e ∷ (e' ∷ es)) ≡ none
  unfolding run_turns
  over_turns a c e e' es g h = rw (g, run_turns, h) refl

  single-Last :
      (a b c : Actor vte json dead_grace) (e : Event) (es : List Event)
      → is_enabled vte json dead_grace a e ≡ true
      → handle vte json dead_grace a e ≡ some (ends, c)
      → run_turns vte json dead_grace a (e ∷ es) ≡ some (ends, b)
      → Last a (e ∷ es) b
  single-Last a b c e [] g h k = record {
    before = [];
    last = e;
    at = a;
    split = refl;
    goes = here;
    enabled = g;
    ended = h ∙ (sym (last_turn a c e g h) ∙ k);
  }
  single-Last a b c e (e' ∷ es) g h k =
      absurd (none_is_not_some (ends, b) (sym (over_turns a c e e' es g h) ∙ k))

  run_turns-Last :
      (a b : Actor vte json dead_grace) (es : List Event)
      → run_turns vte json dead_grace a es ≡ some (ends, b)
      → Last a es b
  unfolding run_turns
  run_turns-Last a b [] k = absurd (on_is_no_end vte json dead_grace (goes_on, a) b refl k)
  run_turns-Last a b (e ∷ es) k = elim (Bool-cases (is_enabled vte json dead_grace a e)) [
    | inl g ↦ elim (Option-cases (handle vte json dead_grace a e)) [
      | inl n ↦ absurd (none_is_not_some (ends, b) (sym (bad_turns a e es g n) ∙ k))
      | inr ((goes_on, c), h) ↦
          let x = run_turns-Last c b es (sym (on_turns a c e es g h) ∙ k) in
          record {
            before = e ∷ x.before;
            last = x.last;
            at = x.at;
            split = ap (◌∷◌ e) x.split;
            goes = turn g h x.goes;
            enabled = x.enabled;
            ended = x.ended;
          }
      | inr ((ends, c), h) ↦ single-Last a b c e es g h k
    ]
    | inr f ↦ absurd (none_is_not_some (ends, b) (sym (off_turns a e es f) ∙ k))
  ]

  -- The loop was entered, and its last turn ended it.
  pub record Turned (s : Session vte) (es : List Event) : Type 0 where
    pub last : Actor vte json dead_grace
    pub turns : Last (start vte json dead_grace s) es last
    pub over : IsOver vte json dead_grace turns.at turns.last last

  -- What `actor_loop` leaves behind, and why it ended.
  pub record Finished (is_registered : Bool) (s : Session vte) (es : List Event) (id : List ℕ)
      (registry r : Registry) (requests : List Request) : Type 0 where
    pub gone : get id r.sessions ≡ none
    pub others :
        (key : List ℕ) → bytes_eq id key ≡ false → get key r.sessions ≡ get key registry.sessions
    pub killed : (asked : List Request) × (requests ≡ asked ++ (sigkill ∷ (wait_child ∷ [])))
    pub why : (is_registered ≡ false) ⊎ Turned s es

  finished_lem :
      (max : ℕ) (s : Session vte) (es : List Event) (id : List ℕ) (registry r : Registry)
      (requests : List Request) (x : Option Turn)
      → IsValid max registry
      → Session.is_dead vte s ≡ false
      → run_turns vte json dead_grace (start vte json dead_grace s) es ≡ x
      → after_turns vte json dead_grace registry id x ≡ some (r, requests)
      → Finished true s es id registry r requests
  unfolding after_turns remove
  finished_lem max s es id registry r requests none v l k e = absurd (none_is_not_some _ e)
  finished_lem max s es id registry r requests (some (goes_on, b)) v l k e =
      absurd (none_is_not_some _ e)
  finished_lem max s es id registry r requests (some (ends, b)) v l k e =
      let q = some-injective _ _ e in
      let t = run_turns-Last (start vte json dead_grace s) b es k in
      let sound = Runs-IsSound vte json dead_grace s t.before t.at l t.goes in
      let table : remove registry id ≡ r = ap (λ (y : Registry × List Request). y.0) q in
      let asked : b.requests ++ drop_pty ≡ requests = ap (λ (y : Registry × List Request). y.1) q in
      let removed = λ (key : List ℕ). (remove-get max registry id key v).0 in
      record {
        gone =
            ap (λ (y : Registry). get id y.sessions) (sym table)
            ∙ (removed id ∙ rw ((bytes_eq_iff id id).1 refl) refl);
        others = λ key f.
            ap (λ (y : Registry). get key y.sessions) (sym table) ∙ (removed key ∙ rw f refl);
        killed = (b.requests, sym asked);
        why = inr (record {
          last = b;
          turns = t;
          over = ends-IsOver vte json dead_grace t.at b t.last sound t.enabled t.ended;
        });
      }

  unregistered_lem :
      (max : ℕ) (s : Session vte) (es : List Event) (id : List ℕ) (registry r : Registry)
      (requests : List Request)
      → IsValid max registry
      → remove registry id ≡ r
      → drop_pty ≡ requests
      → Finished false s es id registry r requests
  unregistered_lem max s es id registry r requests v table asked =
      let removed = λ (key : List ℕ). (remove-get max registry id key v).0 in
      record {
        gone =
            ap (λ (y : Registry). get id y.sessions) (sym table)
            ∙ (removed id ∙ rw ((bytes_eq_iff id id).1 refl) refl);
        others = λ key f.
            ap (λ (y : Registry). get key y.sessions) (sym table) ∙ (removed key ∙ rw f refl);
        killed = ([], sym asked);
        why = inl refl;
      }

  -- When the actor of a live session returns: its id has left the registry, and no other; the last
  -- requests to the kernel kill the shell's process group and wait for the child; and either the
  -- terminal could not be registered with the event loop and no turn was taken, or the last turn came
  -- with the shell dead, with every sender of commands gone, or with a failure to read the terminal or
  -- to reap the child.
  pub actor_loop-Finished :
      (max : ℕ) (is_registered : Bool) (s : Session vte) (es : List Event) (id : List ℕ)
      (registry r : Registry) (requests : List Request)
      → IsValid max registry
      → Session.is_dead vte s ≡ false
      → actor_loop vte json dead_grace is_registered registry id s es ≡ some (r, requests)
      → Finished is_registered s es id registry r requests
  unfolding actor_loop
  actor_loop-Finished max true s es id registry r requests v l e =
      finished_lem max s es id registry r requests
        (run_turns vte json dead_grace (start vte json dead_grace s) es) v l refl e
  actor_loop-Finished max false s es id registry r requests v l e =
      let q = some-injective _ _ e in
      unregistered_lem max s es id registry r requests v
        (ap (λ (y : Registry × List Request). y.0) q) (ap (λ (y : Registry × List Request). y.1) q)
