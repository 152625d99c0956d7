-- ===== src/Connection/Halves/Reads.antt =====
-- What the events of a connection read and take, and a reader on one read after another (`reader_task` of
-- jftermd/src/server.rs).
use jfterm_muxer.Base.{
  true_is_not_false, none_is_not_some, ℕ, ◌≡◌, refl, sym, ap, ◌∙◌, inl, inr, Bool, true, false, not,
  ◌&&◌, some, some-injective, List, [], ◌∷◌, ◌++◌, append-nil, append_assoc, length, if◌then◌else◌,
  Bool-cases,
}
use jfterm_muxer.Protocol.{Frame, encode, push}
use jfterm_muxer.Protocol.Decoder.{unread}
use jfterm_muxer.Protocol.Stream.{encode_all}
use jfterm_muxer.Connection.{Decode, Reader, frames_loop, reads}
use jfterm_muxer.Connection.Halves.{
  Halves, HalfEvent, reads_bytes, takes, aborts_reader, aborts_writer, when,
}

abbrev pub pieces_of : HalfEvent → List (List ℕ)
pieces_of (reads_bytes piece) = piece ∷ []
pieces_of (aborts_reader (some (piece, n))) = piece ∷ []
pieces_of e = []

abbrev pub taken_of : HalfEvent → List Frame
taken_of (takes f w) = f ∷ []
taken_of (aborts_writer (some (f, n))) = f ∷ []
taken_of e = []

abbrev pub all_pieces : List HalfEvent → List (List ℕ)
all_pieces [] = []
all_pieces (e ∷ es) = pieces_of e ++ all_pieces es

abbrev pub all_taken : List HalfEvent → List Frame
all_taken [] = []
all_taken (e ∷ es) = taken_of e ++ all_taken es

pub encode_all-snoc :
    (fs : List Frame) (f : Frame) → encode_all fs ++ encode f ≡ encode_all (fs ++ (f ∷ []))
encode_all-snoc [] f = sym (append-nil (encode f))
encode_all-snoc (g ∷ fs) f =
    append_assoc (encode g) (encode_all fs) (encode f) ∙ ap (◌++◌ (encode g)) (encode_all-snoc fs f)

pub both_true : (b c : Bool) → (b && c) ≡ true → (b ≡ true) × (c ≡ true)
both_true true c e = (refl, e)
both_true false c e = absurd (true_is_not_false (sym e))

pub not-true : (b : Bool) → not b ≡ true → b ≡ false
not-true true e = sym e
not-true false e = refl

module _ (decode : Decode) where
  pub when-some : (b : Bool) (h k : Halves) → when decode b h ≡ some k → (b ≡ true) × (h ≡ k)
  unfolding when
  when-some true h k e = (refl, some-injective _ _ e)
  when-some false h k e = absurd (none_is_not_some k e)

  pub after_read : Reader → List ℕ → Reader
  after_read r p =
      let d = push r.decoder p in frames_loop decode (length (unread d)) (record r { decoder = d })

  pub done-reads :
      (r : Reader) (pieces : List (List ℕ)) → r.is_done ≡ true → reads decode r pieces ≡ r
  unfolding reads after_read
  done-reads r [] t = refl
  done-reads r (p ∷ pieces) t = ap (λ b. if b then r else reads decode (after_read r p) pieces) t

  pub on-reads :
      (r : Reader) (p : List ℕ) (pieces : List (List ℕ))
      → r.is_done ≡ false
      → reads decode r (p ∷ pieces) ≡ reads decode (after_read r p) pieces
  unfolding reads after_read
  on-reads r p pieces f = ap (λ b. if b then r else reads decode (after_read r p) pieces) f

  pub reads-snoc :
      (r : Reader) (pieces : List (List ℕ)) (piece : List ℕ)
      → reads decode (reads decode r pieces) (piece ∷ []) ≡ reads decode r (pieces ++ (piece ∷ []))
  unfolding reads
  reads-snoc r [] piece = refl
  reads-snoc r (p ∷ pieces) piece = elim (Bool-cases r.is_done) [
    | inl t ↦
        ap (λ x. reads decode x (piece ∷ [])) (done-reads r (p ∷ pieces) t)
        ∙ (done-reads r (piece ∷ []) t ∙ sym (done-reads r (p ∷ (pieces ++ (piece ∷ []))) t))
    | inr f ↦
        ap (λ x. reads decode x (piece ∷ [])) (on-reads r p pieces f)
        ∙ (reads-snoc (after_read r p) pieces piece ∙ sym (on-reads r p (pieces ++ (piece ∷ [])) f))
  ]
