-- ===== src/Daemon/Directory.antt =====
-- The directory of the socket, as the start accepts it (jftermd/src/socket.rs).
use jfterm_muxer.Base.{
  ℕ, ◌%◌, ◌==◌, ==_iff, ◌↔◌, ◌≢◌, ◌≡◌, refl, sym, ap, ◌∙◌, ◌⊎◌, inl, inr, Bool, true, false, not,
  [], ◌∷◌, if-elim,
}
use jfterm_muxer.Protocol.{Result, ok, err}
use jfterm_muxer.Daemon.{
  IoError, os_error, not_found, addr_in_use, already_exists, permission_denied, invalid_input,
  make_dir, Metadata, validate_socket_dir, ensure_socket_dir,
}
use jfterm_muxer.Daemon.Laws.{not-false, an_error}

-- A directory that may hold the socket.
pub record IsPrivate (uid : ℕ) (md : Metadata) : Type 0 where
  pub dir : md.is_dir ≡ true
  pub own : md.owner ≡ uid
  pub mode : md.mode % 512 ≡ 448

validate-IsPrivate :
    (uid : ℕ) (md : Metadata) → validate_socket_dir uid md ≡ ok tt → IsPrivate uid md
unfolding validate_socket_dir
validate-IsPrivate uid md =
    if-elim (λ r. r ≡ ok tt → IsPrivate uid md) (not md.is_dir) _ _ (λ t k. cc)
      (λ f.
        if-elim (λ r. r ≡ ok tt → IsPrivate uid md) (not (md.owner == uid)) _ _ (λ t k. cc)
          (λ g.
            if-elim (λ r. r ≡ ok tt → IsPrivate uid md) (not (md.mode % 512 == 448)) _ _ (λ t k. cc)
              (λ h k. record {
                dir = not-false md.is_dir f;
                own = (==_iff md.owner uid).0 (not-false _ g);
                mode = (==_iff (md.mode % 512) 448).0 (not-false _ h);
              })))

validate_ok : (uid : ℕ) (md : Metadata) → IsPrivate uid md → validate_socket_dir uid md ≡ ok tt
unfolding validate_socket_dir
validate_ok uid md p =
    rw (p.dir, (==_iff md.owner uid).1 p.own, (==_iff (md.mode % 512) 448).1 p.mode) refl

abbrev told : Metadata → Result IoError Metadata
told md = ok md

abbrev refused : IoError → Result IoError Metadata
refused e = err e

told_same : (a b : Metadata) → told a ≡ told b → a ≡ b
told_same a b e = ap (λ (r : Result IoError Metadata). elim r [ ok md ↦ md | err x ↦ a ]) e

told_is_no_error : (md : Metadata) (e : IoError) → told md ≢ refused e
told_is_no_error md e k = cc

refused_same : (a b : IoError) → refused a ≡ refused b → a ≡ b
refused_same a b e = ap (λ (r : Result IoError Metadata). elim r [ ok md ↦ a | err x ↦ x ]) e

-- The directory of the socket, as the start accepts it.
abbrev pub Accepts : ℕ → Bool → Result IoError Metadata → Result IoError Unit → Type 0
Accepts uid has_parent lstat created =
    (has_parent ≡ true)
    × (((md : Metadata) × (lstat ≡ ok md) × IsPrivate uid md)
        ⊎ ((lstat ≡ err not_found) × (created ≡ ok tt)))

other_error :
    (uid : ℕ) (e : IoError) (created : Result IoError Unit)
    → e ≢ not_found
    → (an_error e ≡ ok tt) ↔ Accepts uid true (refused e) created
other_error uid e created n = (
  (λ k. cc),
  (λ a. elim a.1 [
    | inl (md, k, p) ↦ absurd (told_is_no_error md e (sym k))
    | inr (k, c) ↦ absurd (n (refused_same e not_found k))
  ]),
)

-- The check of the socket's directory passes exactly when the path has a parent, and `lstat` tells of a
-- directory there of the user's own at mode 0700, or tells that nothing is there and its creation is
-- answered without an error; and creation is asked for, with mode 0700, in the second case only. What
-- the creation found or made is not looked at again.
pub ensure_socket_dir-IsPrivate :
    (uid : ℕ) (has_parent : Bool) (lstat : Result IoError Metadata) (created : Result IoError Unit)
    → (((ensure_socket_dir uid has_parent lstat created).0 ≡ ok tt)
        ↔ Accepts uid has_parent lstat created)
      × (((ensure_socket_dir uid has_parent lstat created).1 ≡ [])
          ⊎ ((lstat ≡ err not_found)
              × ((ensure_socket_dir uid has_parent lstat created).1 ≡ make_dir 448 ∷ [])))
unfolding ensure_socket_dir
ensure_socket_dir-IsPrivate uid false lstat created = (((λ e. cc), (λ a. cc)), inl refl)
ensure_socket_dir-IsPrivate uid true (ok md) created = (
  (
    (λ e. (refl, inl (md, refl, validate-IsPrivate uid md e))),
    (λ a. elim a.1 [
      | inl (md', e, p) ↦ ap (validate_socket_dir uid) (told_same md md' e) ∙ validate_ok uid md' p
      | inr (e, c) ↦ absurd (told_is_no_error md not_found e)
    ]),
  ),
  inl refl,
)
ensure_socket_dir-IsPrivate uid true (err not_found) created = (
  (
    (λ e. (refl, inr (refl, e))),
    (λ a. elim a.1 [
      | inl (md, e, p) ↦ absurd (told_is_no_error md not_found (sym e))
      | inr (e, c) ↦ c
    ]),
  ),
  inr (refl, refl),
)
ensure_socket_dir-IsPrivate uid true (err (os_error n)) created =
    (other_error uid (os_error n) created (λ k. cc), inl refl)
ensure_socket_dir-IsPrivate uid true (err addr_in_use) created =
    (other_error uid addr_in_use created (λ k. cc), inl refl)
ensure_socket_dir-IsPrivate uid true (err already_exists) created =
    (other_error uid already_exists created (λ k. cc), inl refl)
ensure_socket_dir-IsPrivate uid true (err permission_denied) created =
    (other_error uid permission_denied created (λ k. cc), inl refl)
ensure_socket_dir-IsPrivate uid true (err invalid_input) created =
    (other_error uid invalid_input created (λ k. cc), inl refl)
