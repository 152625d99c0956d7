-- ===== src/Sink.antt =====
-- core/src/scanner.rs, the `Perform` sink: what each callback does to the sticky state, the shell
-- status and the event that the outer loop reads.
pub mod Uncached
pub mod Strings
pub mod Shell
pub mod Commands
pub mod Normal
pub mod Restore
pub mod Tests
use jfterm_muxer.Base.{
  ℕ, ◌+◌, ◌*◌, ◌-◌, Bool, true, false, not, ◌&&◌, ◌||◌, Option, none, some, List, [], ◌∷◌, ◌++◌,
  ltb, ◌==◌, in_range, if◌then◌else◌, ◌>>=◌, unwrap_or, bytes, bytes_eq, get_elem?, head?,
}
use jfterm_muxer.Utf8.{from_utf8}
use jfterm_muxer.Status
use jfterm_muxer.Status.{StatusCache}
use jfterm_muxer.Sticky
use jfterm_muxer.Sticky.{StickyState}
use jfterm_muxer.Vte.{
  Callback, print, execute, hook, put, unhook, osc_dispatch, csi_dispatch, esc_dispatch,
}

pub data SegEvent : Type 0 where
  no_event keep_byte keep_seq drop_seq clear_seq : SegEvent

pub record Sink : Type 0 where
  pub sticky : StickyState
  pub status : StatusCache
  pub event : SegEvent
  pub st_pending : Option SegEvent
  pub sgr_scratch : List ℕ

abbrev pub new : Sink
new = record {
  sticky = Sticky.new;
  status = Status.new;
  event = no_event;
  st_pending = none;
  sgr_scratch = [];
}

-- `take_event` returns the event and leaves `None`.
abbrev pub take_event : Sink → SegEvent × Sink
take_event k = (k.event, record k { event = no_event })

-- `str::parse::<u8>`: an optional `+`, then at least one digit, with no overflow.
parse_digits : ℕ → List ℕ → Option ℕ
parse_digits acc [] = some acc
parse_digits acc (d ∷ ds) =
    let acc' = acc * 10 + (d - 48) in
    let rest = parse_digits acc' ds in if in_range 48 57 d && ltb acc' 256 then rest else none

unfoldable pub parse_u8 : List ℕ → Option ℕ
unfolding parse_digits
parse_u8 [] = none
parse_u8 (c ∷ []) = parse_digits 0 (c ∷ [])
parse_u8 (c ∷ d ∷ ds) = if c == b'+' then parse_digits 0 (d ∷ ds) else parse_digits 0 (c ∷ d ∷ ds)

-- An optional text against a literal of a `match`.
abbrev pub is_text : Option (List ℕ) → List ℕ → Bool
is_text none t = false
is_text (some s) t = bytes_eq s t

set_event : Sink → SegEvent → Sink
set_event k e = record k { event = e }

osc_title : Sink → Option (List ℕ) → Sink
osc_title k none = k
osc_title k (some text) = record k { sticky = Sticky.set_title k.sticky text }

osc_cwd : Sink → Option (List ℕ) → Sink
osc_cwd k none = k
osc_cwd k (some cwd) = record k { sticky = Sticky.set_cwd k.sticky cwd }

osc_progress : Sink → List (List ℕ) → Sink
osc_progress k params =
    let state = get_elem? params 2 >>= from_utf8 in
    let value = get_elem? params 3 >>= from_utf8 >>= parse_u8 in
    if is_text (get_elem? params 1) (bytes "4")
    then record k {
      status =
          if is_text state (bytes "0")
          then Status.set_progress k.status none
          else Status.set_progress k.status value;
    }
    else k

osc_prompt : Sink → List (List ℕ) → Sink
osc_prompt k params =
    let marked = Status.set_prompt_marker_seen k.status in
    let mark = is_text (get_elem? params 1 >>= λ p. head? p >>= λ b. some (b ∷ [])) in
    record k {
      status =
          if mark (bytes "C")
          then Status.set_running marked true
          else if mark (bytes "D")
          then Status.set_running marked false
          else marked;
    }

-- The `match code` of `osc_dispatch`.
osc_match : Sink → Option (List ℕ) → List (List ℕ) → Sink
unfolding set_event osc_title osc_cwd osc_progress osc_prompt
osc_match k code params =
    if is_text code (bytes "0") || (is_text code (bytes "1") || is_text code (bytes "2"))
    then set_event (osc_title k (get_elem? params 1)) keep_seq
    else if is_text code (bytes "7")
    then set_event (osc_cwd k (get_elem? params 1)) keep_seq
    else if is_text code (bytes "9")
    then set_event (osc_progress k params) drop_seq
    else if is_text code (bytes "133")
    then set_event (osc_prompt k params) drop_seq
    else if is_text code (bytes "52") || is_text code (bytes "777")
    then set_event k drop_seq
    else set_event k keep_seq

unfoldable pub on_osc : Sink → List (List ℕ) → Sink
unfolding osc_match
on_osc k params =
    let t = osc_match k (head? params >>= from_utf8) params in
    record t { st_pending = some t.event }

abbrev flatten : List (List ℕ) → List ℕ
flatten [] = []
flatten (p ∷ ps) = p ++ flatten ps

-- The first subparameter of the `n`th parameter, or 0.
abbrev param : List (List ℕ) → ℕ → ℕ
param params n = unwrap_or (get_elem? params n >>= head?) 0

csi_sgr : Sink → List (List ℕ) → Sink
csi_sgr k params =
    let flat = flatten params in
    record k {
      sgr_scratch = flat;
      sticky =
          if bytes_eq flat [] || bytes_eq flat (0 ∷ [])
          then Sticky.set_sgr k.sticky []
          else Sticky.set_sgr k.sticky flat;
    }

csi_region : Sink → List (List ℕ) → Sink
csi_region k params =
    let top = param params 0 in
    let bottom = param params 1 in
    record k {
      sticky =
          if (top == 0) && (bottom == 0)
          then Sticky.set_scroll_region k.sticky none
          else Sticky.set_scroll_region k.sticky (some (top, bottom));
    }

-- The loop over the parameters of `h` and `l`.
set_modes : StickyState → List (List ℕ) → Bool → StickyState
set_modes s [] on = s
set_modes s ([] ∷ ps) on = set_modes s ps on
set_modes s ((code ∷ subs) ∷ ps) on = set_modes (Sticky.set_dec_mode s code on) ps on

unfoldable pub on_csi : Sink → List (List ℕ) → List ℕ → ℕ → Sink
unfolding set_event csi_sgr csi_region set_modes
on_csi k params intermediates action =
    let is_private = is_text (head? intermediates >>= λ b. some (b ∷ [])) (bytes "?") in
    let mode = param params 0 in
    let k' = record k { st_pending = none } in
    if action == b'n'
    then set_event k' drop_seq
    else if action == b'c'
    then set_event k' drop_seq
    else if (action == b'm') && not is_private
    then set_event (csi_sgr k' params) keep_seq
    else if (action == b'r') && not is_private
    then set_event (csi_region k' params) keep_seq
    else if ((action == b'h') || (action == b'l')) && is_private
    then set_event (record k' { sticky = set_modes k'.sticky params (action == b'h') }) keep_seq
    else if action == b'J'
    then set_event k' (if (mode == 2) || (mode == 3) then clear_seq else keep_seq)
    else set_event k' keep_seq

unfoldable pub on_esc : Sink → ℕ → Sink
on_esc k byte = elim (if byte == 0x5c then k.st_pending else none) [
  | some ev ↦ record k { event = ev; st_pending = none }
  | none ↦ record k { event = if byte == b'c' then clear_seq else keep_seq; st_pending = none }
]

unfoldable pub perform : Sink → Callback → Sink
unfolding on_osc on_csi on_esc
perform k (print c) = record k { st_pending = none; event = keep_byte }
perform k (execute byte) = record k {
  st_pending = none;
  event = if byte == 7 then drop_seq else keep_seq;
}
perform k (hook params intermediates ignore action) = record k {
  st_pending = none;
  event = no_event;
}
perform k (put byte) = record k { st_pending = none; event = no_event }
perform k unhook = record k { st_pending = none; event = keep_seq }
perform k (osc_dispatch params bell) = on_osc k params
perform k (csi_dispatch params intermediates ignore action) = on_csi k params intermediates action
perform k (esc_dispatch intermediates ignore byte) = on_esc k byte

unfoldable pub perform_all : Sink → List Callback → Sink
unfolding perform
perform_all k [] = k
perform_all k (c ∷ cs) = perform_all (perform k c) cs
