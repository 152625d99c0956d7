-- ===== src/Sink/Strings.antt =====
-- Operating system commands in core/src/scanner.rs: which are dropped, and the terminator `ESC \`.
use jfterm_muxer.Base.{
  ℕ, Bool, ◌||◌, ◌≡◌, refl, Option, none, some, List, [], ◌∷◌, arith, ◌>>=◌, head?, bytes, bytes_eq,
  if◌then◌else◌,
}
use jfterm_muxer.Sticky.{StickyState}
use jfterm_muxer.Utf8.{from_utf8}
use jfterm_muxer.Sink.{Sink, keep_seq, drop_seq, is_text, take_event, osc_match, on_esc, perform}
use jfterm_muxer.Vte.{osc_dispatch, esc_dispatch}

-- Notifications and progress (9, 777), prompt marks (133) and the clipboard (52) are not replayed.
abbrev pub is_dropped : Option (List ℕ) → Bool
is_dropped code =
    is_text code (bytes "9")
    || (is_text code (bytes "133") || (is_text code (bytes "52") || is_text code (bytes "777")))

match_event :
    (k : Sink) (code : Option (List ℕ)) (params : List (List ℕ))
    → (osc_match k code params).event ≡ (if is_dropped code then drop_seq else keep_seq)
unfolding osc_match bytes_eq
match_event k none params = refl
match_event k (some []) params = refl
match_event k (some (a ∷ [])) params = ground arith
match_event k (some (a ∷ b ∷ [])) params = ground arith
match_event k (some (a ∷ b ∷ c ∷ [])) params = ground arith
match_event k (some (a ∷ b ∷ c ∷ d ∷ s)) params = ground arith

-- An operating system command is dropped exactly when its code is 9, 133, 52 or 777, and is else
-- kept; a string terminator `ESC \` right after it, once the event is taken, gets the same event, leaves the sticky state and the
-- shell status as they are, and is not waited for any more.
pub osc-st :
    (k : Sink) (params : List (List ℕ)) (bell ignore : Bool) (intermediates : List ℕ)
    → let t = perform k (osc_dispatch params bell) in
      let u = perform (take_event t).1 (esc_dispatch intermediates ignore 0x5c) in
      (t.event ≡ (if is_dropped (head? params >>= from_utf8) then drop_seq else keep_seq))
      × (u.event ≡ t.event)
      × (u.sticky ≡ t.sticky)
      × (u.status ≡ t.status)
      × (u.st_pending ≡ none)
unfolding perform
osc-st k params bell ignore intermediates =
    (match_event k (head? params >>= from_utf8) params, refl, refl, refl, refl)

-- The terminator's event does not depend on the sticky state.
pub esc-event :
    (k : Sink) (s : StickyState) (intermediates : List ℕ) (ignore : Bool) (byte : ℕ)
    → (perform (record k { sticky = s }) (esc_dispatch intermediates ignore byte)).event
      ≡ (perform k (esc_dispatch intermediates ignore byte)).event
unfolding perform on_esc
esc-event k s intermediates ignore byte = ground arith
