-- ===== src/Sink/Normal.antt =====
-- The sticky states that the handlers of core/src/scanner.rs can reach.
use jfterm_muxer.Base.{
  ℕ, ◌≡◌, refl, sym, ap, ◌∙◌, subst, Bool, true, false, Option, List, [], ◌∷◌, arith, head?, ◌>>=◌,
  ◌==◌, bytes_eq,
}
use jfterm_muxer.Sticky
use jfterm_muxer.Sticky.{
  StickyState, invalidate, set_sgr, set_dec_mode, join_params, build_sgr, build_modes, build_region,
  build_osc, build_serialized, insert_key,
}
use jfterm_muxer.Sticky.Modes.{Ascending, set_dec_mode-Ascending}
use jfterm_muxer.Utf8.{from_utf8}
use jfterm_muxer.Sink.{Sink, set_modes, osc_match, on_osc, on_csi, on_esc, perform, perform_all}
use jfterm_muxer.Vte.{
  Callback, print, execute, hook, put, unhook, osc_dispatch, csi_dispatch, esc_dispatch,
}
use jfterm_muxer.Sink.Commands.{IsRegion, IsNormal}

set_modes-Ascending :
    (s : StickyState) (ps : List (List ℕ)) (on : Bool)
    → Ascending 0 s.dec_modes
    → Ascending 0 (set_modes s ps on).dec_modes
unfolding set_modes
set_modes-Ascending s [] on a = a
set_modes-Ascending s ([] ∷ ps) on a = set_modes-Ascending s ps on a
set_modes-Ascending s ((code ∷ subs) ∷ ps) on a =
    set_modes-Ascending (set_dec_mode s code on) ps on (set_dec_mode-Ascending s code on a)

set_modes-rest :
    (s : StickyState) (ps : List (List ℕ)) (on : Bool)
    → ((set_modes s ps on).sgr ≡ s.sgr) × ((set_modes s ps on).scroll_region ≡ s.scroll_region)
unfolding set_modes
set_modes-rest s [] on = (refl, refl)
set_modes-rest s ([] ∷ ps) on = set_modes-rest s ps on
set_modes-rest s ((code ∷ subs) ∷ ps) true = set_modes-rest (set_dec_mode s code true) ps true
set_modes-rest s ((code ∷ subs) ∷ ps) false = set_modes-rest (set_dec_mode s code false) ps false

csi-sgr :
    (k : Sink) (params : List (List ℕ)) (intermediates : List ℕ) (action : ℕ)
    → bytes_eq k.sticky.sgr (0 ∷ []) ≡ false
    → bytes_eq (on_csi k params intermediates action).sticky.sgr (0 ∷ []) ≡ false
unfolding on_csi
csi-sgr k params intermediates action h =
    ground (arith, set_modes-rest k.sticky params (action == b'h'), empty)
  where
    empty : bytes_eq [] (0 ∷ []) ≡ false
    empty = unfold bytes_eq in refl

csi-IsRegion :
    (k : Sink) (params : List (List ℕ)) (intermediates : List ℕ) (action : ℕ)
    → IsRegion k.sticky.scroll_region
    → IsRegion (on_csi k params intermediates action).sticky.scroll_region
unfolding on_csi
csi-IsRegion k params intermediates action h =
    ground (arith, set_modes-rest k.sticky params (action == b'h'))

csi-modes :
    (k : Sink) (params : List (List ℕ)) (intermediates : List ℕ) (action : ℕ)
    → Ascending 0 k.sticky.dec_modes
    → Ascending 0 (on_csi k params intermediates action).sticky.dec_modes
unfolding on_csi
csi-modes k params intermediates action h =
    ground (arith, set_modes-Ascending k.sticky params (action == b'h') h)

-- What an operating system command leaves alone.
osc-rest :
    (k : Sink) (code : Option (List ℕ)) (params : List (List ℕ))
    → let s = (osc_match k code params).sticky in
      (s.sgr ≡ k.sticky.sgr)
      × (s.dec_modes ≡ k.sticky.dec_modes)
      × (s.scroll_region ≡ k.sticky.scroll_region)
unfolding osc_match
osc-rest k code params = ground arith

esc-rest : (k : Sink) (byte : ℕ) → (on_esc k byte).sticky ≡ k.sticky
unfolding on_esc
esc-rest k byte = ground arith

perform-IsNormal : (k : Sink) (c : Callback) → IsNormal k.sticky → IsNormal (perform k c).sticky
unfolding perform on_osc
perform-IsNormal k (print c) h = h
perform-IsNormal k (execute byte) h = h
perform-IsNormal k (hook params intermediates ignore action) h = h
perform-IsNormal k (put byte) h = h
perform-IsNormal k unhook h = h
perform-IsNormal k (osc_dispatch params bell) h =
    let (e, f, g) = osc-rest k (head? params >>= from_utf8) params in
    record {
      modes = subst (Ascending 0) (sym f) h.modes;
      sgr = ap (λ ps. bytes_eq ps (0 ∷ [])) e ∙ h.sgr;
      region = subst IsRegion (sym g) h.region;
    }
perform-IsNormal k (csi_dispatch params intermediates ignore action) h = record {
  modes = csi-modes k params intermediates action h.modes;
  sgr = csi-sgr k params intermediates action h.sgr;
  region = csi-IsRegion k params intermediates action h.region;
}
perform-IsNormal k (esc_dispatch intermediates ignore byte) h =
    subst IsNormal (sym (esc-rest k byte)) h

pub perform_all-IsNormal :
    (k : Sink) (cs : List Callback) → IsNormal k.sticky → IsNormal (perform_all k cs).sticky
unfolding perform_all
perform_all-IsNormal k [] h = h
perform_all-IsNormal k (c ∷ cs) h = perform_all-IsNormal (perform k c) cs (perform-IsNormal k c h)

pub new-IsNormal : IsNormal Sticky.new
unfolding bytes_eq
new-IsNormal = record { modes = tt; sgr = refl; region = tt }
