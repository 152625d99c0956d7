-- ===== src/Sink/Shell.antt =====
-- The shell status in core/src/scanner.rs: the latch on prompt marking, and the progress value.
use jfterm_muxer.Base.{
  ℕ, ◌+◌, ◌*◌, ◌-◌, ◌<◌, Bool, true, false, ◌||◌, ◌≡◌, refl, ap, Option, none, some, List, [], ◌∷◌,
  arith, ◌>>=◌, head?, get_elem?, bytes, bytes_eq, to_string, table_passes, table_passes-at,
  or_false, ◌==◌, ==_iff,
}
use jfterm_muxer.Utf8.{from_utf8}
use jfterm_muxer.Sink.{
  Sink, is_text, osc_match, on_osc, on_csi, on_esc, perform, perform_all, parse_digits, parse_u8,
}
use jfterm_muxer.Vte.{
  Callback, print, execute, hook, put, unhook, osc_dispatch, csi_dispatch, esc_dispatch,
}

-- An OSC 133 command of any kind.
abbrev pub is_mark : Callback → Bool
is_mark (osc_dispatch params bell) = is_text (head? params >>= from_utf8) (bytes "133")
is_mark _ = false

abbrev pub any_mark : List Callback → Bool
any_mark [] = false
any_mark (c ∷ cs) = is_mark c || any_mark cs

match_marker :
    (k : Sink) (code : Option (List ℕ)) (params : List (List ℕ))
    → (osc_match k code params).status.saw_prompt_marker
      ≡ k.status.saw_prompt_marker || is_text code (bytes "133")
unfolding osc_match bytes_eq
match_marker k none params = ground arith
match_marker k (some []) params = ground arith
match_marker k (some (a ∷ [])) params = ground arith
match_marker k (some (a ∷ b ∷ [])) params = ground arith
match_marker k (some (a ∷ b ∷ c ∷ [])) params = ground arith
match_marker k (some (a ∷ b ∷ c ∷ d ∷ s)) params = ground arith

on_csi-status :
    (k : Sink) (params : List (List ℕ)) (intermediates : List ℕ) (action : ℕ)
    → (on_csi k params intermediates action).status ≡ k.status
unfolding on_csi
on_csi-status k params intermediates action = ground arith

on_esc-status : (k : Sink) (byte : ℕ) → (on_esc k byte).status ≡ k.status
unfolding on_esc
on_esc-status k byte = ground arith

perform-marker :
    (k : Sink) (c : Callback)
    → (perform k c).status.saw_prompt_marker ≡ k.status.saw_prompt_marker || is_mark c
unfolding perform on_osc
perform-marker k (print c) = or_false k.status.saw_prompt_marker
perform-marker k (execute byte) = or_false k.status.saw_prompt_marker
perform-marker k (hook params intermediates ignore action) = or_false k.status.saw_prompt_marker
perform-marker k (put byte) = or_false k.status.saw_prompt_marker
perform-marker k unhook = or_false k.status.saw_prompt_marker
perform-marker k (osc_dispatch params bell) = match_marker k (head? params >>= from_utf8) params
perform-marker k (csi_dispatch params intermediates ignore action) =
    rw on_csi-status (or_false k.status.saw_prompt_marker)
perform-marker k (esc_dispatch intermediates ignore byte) =
    rw on_esc-status (or_false k.status.saw_prompt_marker)

-- The prompt latch: it is set after some callbacks exactly when it was set before or one of them is
-- an OSC 133 command, whatever its subtype; it is never reset.
pub perform_all-marker :
    (k : Sink) (cs : List Callback)
    → (perform_all k cs).status.saw_prompt_marker ≡ k.status.saw_prompt_marker || any_mark cs
unfolding perform_all
perform_all-marker k [] = or_false k.status.saw_prompt_marker
perform_all-marker k (c ∷ cs) =
    ground (arith, perform_all-marker (perform k c) cs, perform-marker k c)

abbrev pub IsByteOrNone : Option ℕ → Type 0
IsByteOrNone none = Unit {0}
IsByteOrNone (some v) = v < 256

digits-byte : (acc : ℕ) (ds : List ℕ) → acc < 256 → IsByteOrNone (parse_digits acc ds)
unfolding parse_digits
digits-byte acc [] h = h
digits-byte acc (d ∷ ds) h = ground (arith, digits-byte (acc * 10 + (d - 48)) ds)

value-byte : (o : Option (List ℕ)) → IsByteOrNone (o >>= parse_u8)
unfolding parse_u8
value-byte none = tt
value-byte (some []) = tt
value-byte (some (c ∷ [])) = digits-byte 0 (c ∷ []) (omega arith)
value-byte (some (c ∷ d ∷ ds)) = ground (arith, digits-byte 0 (d ∷ ds), digits-byte 0 (c ∷ d ∷ ds))

match-byte :
    (k : Sink) (code : Option (List ℕ)) (params : List (List ℕ))
    → IsByteOrNone k.status.progress
    → IsByteOrNone (osc_match k code params).status.progress
unfolding osc_match
match-byte k code params h = ground (arith, value-byte (get_elem? params 3 >>= from_utf8))

perform-byte :
    (k : Sink) (c : Callback)
    → IsByteOrNone k.status.progress
    → IsByteOrNone (perform k c).status.progress
unfolding perform on_osc
perform-byte k (print c) h = h
perform-byte k (execute byte) h = h
perform-byte k (hook params intermediates ignore action) h = h
perform-byte k (put byte) h = h
perform-byte k unhook h = h
perform-byte k (osc_dispatch params bell) h = match-byte k (head? params >>= from_utf8) params h
perform-byte k (csi_dispatch params intermediates ignore action) h = rw on_csi-status h
perform-byte k (esc_dispatch intermediates ignore byte) h = rw on_esc-status h

perform_all-byte :
    (k : Sink) (cs : List Callback)
    → IsByteOrNone k.status.progress
    → IsByteOrNone (perform_all k cs).status.progress
unfolding perform_all
perform_all-byte k [] h = h
perform_all-byte k (c ∷ cs) h = perform_all-byte (perform k c) cs (perform-byte k c h)

is_value : Option ℕ → ℕ → Bool
is_value none v = false
is_value (some u) v = u == v

is_value-eq : (o : Option ℕ) (v : ℕ) → is_value o v ≡ true → o ≡ some v
unfolding is_value
is_value-eq none v h = cc
is_value-eq (some u) v h = ap some ((==_iff u v).0 h)

byte_table : table_passes (λ v. is_value (from_utf8 (to_string v) >>= parse_u8) v) 256 ≡ true
unfolding table_passes is_value to_string from_utf8 parse_u8
byte_table = refl

decimal_byte : (v : ℕ) → v < 256 → (from_utf8 (to_string v) >>= parse_u8) ≡ some v
decimal_byte v h =
    is_value-eq _ v
      (table_passes-at (λ u. is_value (from_utf8 (to_string u) >>= parse_u8) u) 256 v byte_table h)

-- The progress value stays a byte whatever callbacks come, and `OSC 9;4;state;v` with a state other
-- than 0 sets it to any byte `v`, also to one above 100.
pub progress_range :
    (k : Sink) (cs : List Callback) (state : List ℕ) (v : ℕ) (bell : Bool)
    → IsByteOrNone k.status.progress
    → is_text (from_utf8 state) (bytes "0") ≡ false
    → v < 256
    → IsByteOrNone (perform_all k cs).status.progress
      × ((perform k (
            osc_dispatch
              (bytes "9" ∷ (bytes "4" ∷ (state ∷ (to_string v ∷ []))))
              bell)).status.progress
          ≡ some v)
unfolding perform osc_match on_osc bytes_eq from_utf8
progress_range k cs state v bell h other small =
    (perform_all-byte k cs h, rw (other, decimal_byte v small) refl)
