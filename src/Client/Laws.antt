-- ===== src/Client/Laws.antt =====
-- Sending frames to a client (jftermd/src/server.rs, `push_or_drop` and `try_send`).
use jfterm_muxer.Base.{
  ℕ, suc, ◌+◌, ◌≤◌, ◌≡◌, refl, sym, ap, ◌∙◌, subst, ◌⊎◌, inl, inr, true, ◌&&◌, none, some, List, [],
  ◌∷◌, ◌++◌, append-nil, append_assoc, arith, ltb, length, length-append, Bool-cases, Option-cases,
  unwrap_or, some-injective,
}
use jfterm_muxer.Protocol.{Frame}
use jfterm_muxer.Client.{
  Outbox, try_send, send_ignored, send_all_ignored, Client, drop_client, push_or_drop, push_all,
}

abbrev pub extended : Outbox → List Frame → Outbox
extended tx fs = record tx { sent = tx.sent ++ fs }

-- The channel takes `n` more frames.
pub record HasRoom (tx : Outbox) (n : ℕ) : Type 0 where
  pub is_open : tx.is_open ≡ true
  pub room : length tx.sent + n ≤ tx.taken + tx.capacity

try_send_lem :
    (tx : Outbox) (f : Frame)
    → (try_send tx f ≡ none) ⊎ (try_send tx f ≡ some (extended tx (f ∷ [])))
unfolding try_send
try_send_lem tx f =
    elim (Bool-cases (tx.is_open && ltb (length tx.sent) (tx.taken + tx.capacity))) [
      | inl t ↦ inr (rw t refl)
      | inr e ↦ inl (rw e refl)
    ]

pub try_send_room :
    (tx : Outbox) (f : Frame) (n : ℕ)
    → HasRoom tx (suc n)
    → try_send tx f ≡ some (extended tx (f ∷ []))
unfolding try_send
try_send_room tx f n r =
    let e : ltb (length tx.sent) (tx.taken + tx.capacity) ≡ true = grind (arith, r.room) in
    rw (r.is_open, e) refl

pub extended-HasRoom :
    (tx : Outbox) (f : Frame) (n : ℕ) → HasRoom tx (suc n) → HasRoom (extended tx (f ∷ [])) n
extended-HasRoom tx f n r = record {
  is_open = r.is_open;
  room = omega (arith, r.room, length-append tx.sent (f ∷ []));
}

pub send_room :
    (tx : Outbox) (f : Frame) (n : ℕ)
    → HasRoom tx (suc n)
    → send_ignored tx f ≡ extended tx (f ∷ [])
unfolding send_ignored
send_room tx f n r = ap (λ o. unwrap_or o tx) (try_send_room tx f n r)

extended_cons :
    (tx : Outbox) (f : Frame) (fs : List Frame)
    → extended (extended tx (f ∷ [])) fs ≡ extended tx (f ∷ fs)
extended_cons tx f fs = λ i. record tx { sent = append_assoc tx.sent (f ∷ []) fs i }

-- With room, ignoring the results of sends loses nothing.
pub send_all_room :
    (tx : Outbox) (fs : List Frame) (n : ℕ)
    → HasRoom tx (length fs + n)
    → (send_all_ignored tx fs ≡ extended tx fs) × HasRoom (extended tx fs) n
unfolding send_all_ignored
send_all_room tx [] n r =
    let e : tx ≡ extended tx [] = λ i. record tx { sent = sym (append-nil tx.sent) i } in
    let r' : HasRoom tx n = record { is_open = r.is_open; room = omega (arith, r.room) } in
    (e, subst (λ t. HasRoom t n) e r')
send_all_room tx (f ∷ fs) n r =
    let r1 : HasRoom tx (suc (length fs + n)) = record {
      is_open = r.is_open;
      room = omega (arith, r.room);
    } in
    let (e, h) =
      send_all_room (extended tx (f ∷ [])) fs n (extended-HasRoom tx f (length fs + n) r1) in
    (
      ap (λ t. send_all_ignored t fs) (send_room tx f (length fs + n) r1)
          ∙ (e ∙ extended_cons tx f fs),
      subst (λ t. HasRoom t n) (extended_cons tx f fs) h,
    )

abbrev pub attached : Outbox → List Outbox → Client
attached tx gone = record { current = some tx; gone = gone }

abbrev pub detached : List Outbox → Client
detached gone = record { current = none; gone = gone }

-- What an attached client becomes when frames are pushed to it: it has them all, or it is dropped
-- with those of them that fitted.
abbrev pub Pushed : Outbox → List Outbox → List Frame → Client → Type 0
Pushed tx gone fs c =
    (c ≡ attached (extended tx fs) gone)
    ⊎ ((front : List Frame) × (back : List Frame) × (fs ≡ front ++ back)
        × (c ≡ detached (extended tx front ∷ gone)))

push_some :
    (tx tx' : Outbox) (gone : List Outbox) (f : Frame)
    → try_send tx f ≡ some tx'
    → push_or_drop (attached tx gone) f ≡ attached tx' gone
unfolding push_or_drop
push_some tx tx' gone f e = rw (e, push_or_drop) refl

push_none :
    (tx : Outbox) (gone : List Outbox) (f : Frame)
    → try_send tx f ≡ none
    → push_or_drop (attached tx gone) f ≡ detached (tx ∷ gone)
unfolding push_or_drop drop_client
push_none tx gone f e = rw (e, push_or_drop) refl

pub push_all-detached :
    (gone : List Outbox) (fs : List Frame) → push_all (detached gone) fs ≡ detached gone
unfolding push_all push_or_drop
push_all-detached gone [] = refl
push_all-detached gone (f ∷ fs) = push_all-detached gone fs

Pushed-cons :
    (tx : Outbox) (gone : List Outbox) (f : Frame) (fs : List Frame) (c : Client)
    → Pushed (extended tx (f ∷ [])) gone fs c
    → Pushed tx gone (f ∷ fs) c
Pushed-cons tx gone f fs c (inl e) = inl (e ∙ ap (λ t. attached t gone) (extended_cons tx f fs))
Pushed-cons tx gone f fs c (inr (front, back, s, e)) =
    inr
      (f ∷ front, back, ap (◌∷◌ f) s, e ∙ ap (λ t. detached (t ∷ gone)) (extended_cons tx f front))

-- However full the client's queue is and whether or not its writer is there, pushing frames to it
-- sends them all, or sends the first of them and drops the client: never with a gap, and the
-- channels that were dropped before are not touched.
pub push_all-Pushed :
    (tx : Outbox) (gone : List Outbox) (fs : List Frame)
    → Pushed tx gone fs (push_all (attached tx gone) fs)
unfolding push_all
push_all-Pushed tx gone [] =
    inl (λ i. attached (record tx { sent = sym (append-nil tx.sent) i }) gone)
push_all-Pushed tx gone (f ∷ fs) = elim (try_send_lem tx f) [
  | inl n ↦ inr (
    [],
    f ∷ fs,
    refl,
    ap (λ c. push_all c fs) (push_none tx gone f n)
        ∙ (push_all-detached (tx ∷ gone) fs
            ∙ (λ i. detached (record tx { sent = sym (append-nil tx.sent) i } ∷ gone))),
  )
  | inr e ↦
      subst (λ c. Pushed tx gone (f ∷ fs) (push_all c fs)) (sym (push_some tx _ gone f e))
        (Pushed-cons tx gone f fs _ (push_all-Pushed (extended tx (f ∷ [])) gone fs))
]

-- A client that is still attached after a push was attached before, and has all the frames.
pub push_all-kept :
    (c : Client) (fs : List Frame) (tx' : Outbox)
    → (push_all c fs).current ≡ some tx'
    → (tx : Outbox) × (c.current ≡ some tx) × (tx' ≡ extended tx fs)
push_all-kept c fs tx' e = elim (Option-cases c.current) [
  | inl n ↦
      let d : c ≡ detached c.gone = λ i. record { current = n i; gone = c.gone } in
      let e' : none ≡ some tx' =
        sym
          (ap (λ (x : Client). x.current) (ap (λ x. push_all x fs) d ∙ push_all-detached c.gone fs))
        ∙ e in
      cc
  | inr (tx, s) ↦
      let d : c ≡ attached tx c.gone = λ i. record { current = s i; gone = c.gone } in
      let e' : (push_all (attached tx c.gone) fs).current ≡ some tx' =
        ap (λ x. (push_all x fs).current) (sym d) ∙ e in
      elim (push_all-Pushed tx c.gone fs) [
        | inl q ↦ (tx, s, some-injective _ _ (sym e' ∙ ap (λ (x : Client). x.current) q))
        | inr (front, back, p, q) ↦
            let z : none ≡ some tx' = sym (ap (λ (x : Client). x.current) q) ∙ e' in cc
      ]
]
