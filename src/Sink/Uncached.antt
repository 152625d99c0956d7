-- ===== src/Sink/Uncached.antt =====
-- The callbacks of core/src/scanner.rs neither read the prologue cache nor leave a stale one.
use jfterm_muxer.Base.{
  ℕ, Bool, true, false, ◌==◌, ◌≡◌, refl, sym, ap, ◌∙◌, ◌⊎◌, inl, inr, head?, ◌>>=◌, subst, Option,
  none, some, List, [], ◌∷◌, arith,
}
use jfterm_muxer.Utf8.{from_utf8}
use jfterm_muxer.Sticky.{StickyState, invalidate, set_dec_mode}
use jfterm_muxer.Sticky.Cache.{IsCoherent}
use jfterm_muxer.Sink.{Sink, set_modes, osc_match, on_osc, on_csi, on_esc, perform, perform_all}
use jfterm_muxer.Vte.{
  Callback, print, execute, hook, put, unhook, osc_dispatch, csi_dispatch, esc_dispatch,
}

-- The sink with its cache emptied.
abbrev pub uncached : Sink → Sink
uncached k = record k { sticky = invalidate k.sticky }

set_modes-uncached :
    (s : StickyState) (ps : List (List ℕ)) (on : Bool)
    → invalidate (set_modes s ps on) ≡ set_modes (invalidate s) ps on
unfolding set_modes
set_modes-uncached s [] on = refl
set_modes-uncached s ([] ∷ ps) on = set_modes-uncached s ps on
set_modes-uncached s ((code ∷ subs) ∷ ps) true =
    set_modes-uncached (set_dec_mode s code true) ps true
set_modes-uncached s ((code ∷ subs) ∷ ps) false =
    set_modes-uncached (set_dec_mode s code false) ps false

osc_match-uncached :
    (k : Sink) (code : Option (List ℕ)) (params : List (List ℕ))
    → uncached (osc_match k code params) ≡ osc_match (uncached k) code params
unfolding osc_match
osc_match-uncached k code params = ground arith

on_csi-uncached :
    (k : Sink) (params : List (List ℕ)) (intermediates : List ℕ) (action : ℕ)
    → uncached (on_csi k params intermediates action)
      ≡ on_csi (uncached k) params intermediates action
unfolding on_csi
on_csi-uncached k params intermediates action =
    ground (arith, set_modes-uncached k.sticky params (action == b'h'))

on_esc-uncached : (k : Sink) (byte : ℕ) → uncached (on_esc k byte) ≡ on_esc (uncached k) byte
unfolding on_esc
on_esc-uncached k byte = ground arith

perform-uncached : (k : Sink) (c : Callback) → uncached (perform k c) ≡ perform (uncached k) c
unfolding perform on_osc
perform-uncached k (print c) = refl
perform-uncached k (execute byte) = refl
perform-uncached k (hook params intermediates ignore action) = refl
perform-uncached k (put byte) = refl
perform-uncached k unhook = refl
perform-uncached k (osc_dispatch params bell) =
    let e = osc_match-uncached k (head? params >>= from_utf8) params in
    λ i. record (e i) { st_pending = some (e i).event }
perform-uncached k (csi_dispatch params intermediates ignore action) =
    on_csi-uncached k params intermediates action
perform-uncached k (esc_dispatch intermediates ignore byte) = on_esc-uncached k byte

pub perform_all-uncached :
    (k : Sink) (cs : List Callback) → uncached (perform_all k cs) ≡ perform_all (uncached k) cs
unfolding perform_all
perform_all-uncached k [] = refl
perform_all-uncached k (c ∷ cs) =
    perform_all-uncached (perform k c) cs ∙ ap (λ t. perform_all t cs) (perform-uncached k c)

set_modes-IsCoherent :
    (s : StickyState) (ps : List (List ℕ)) (on : Bool)
    → IsCoherent s
    → IsCoherent (set_modes s ps on)
unfolding set_modes
set_modes-IsCoherent s [] on h = h
set_modes-IsCoherent s ([] ∷ ps) on h = set_modes-IsCoherent s ps on h
set_modes-IsCoherent s ((code ∷ subs) ∷ ps) on h =
    set_modes-IsCoherent (set_dec_mode s code on) ps on (inl refl)

-- A callback keeps the sticky state or empties the cache.
abbrev Keeps : StickyState → StickyState → Type 0
Keeps s t = (t.cache ≡ none) ⊎ (t ≡ s)

osc_match-Keeps :
    (k : Sink) (code : Option (List ℕ)) (params : List (List ℕ))
    → Keeps k.sticky (osc_match k code params).sticky
unfolding osc_match
osc_match-Keeps k code params = ground arith

on_csi-IsCoherent :
    (k : Sink) (params : List (List ℕ)) (intermediates : List ℕ) (action : ℕ)
    → IsCoherent k.sticky
    → IsCoherent (on_csi k params intermediates action).sticky
unfolding on_csi
on_csi-IsCoherent k params intermediates action h =
    ground (arith, set_modes-IsCoherent k.sticky params (action == b'h') h)

on_esc-sticky : (k : Sink) (byte : ℕ) → (on_esc k byte).sticky ≡ k.sticky
unfolding on_esc
on_esc-sticky k byte = ground arith

perform-IsCoherent :
    (k : Sink) (c : Callback) → IsCoherent k.sticky → IsCoherent (perform k c).sticky
unfolding perform on_osc
perform-IsCoherent k (print c) h = h
perform-IsCoherent k (execute byte) h = h
perform-IsCoherent k (hook params intermediates ignore action) h = h
perform-IsCoherent k (put byte) h = h
perform-IsCoherent k unhook h = h
perform-IsCoherent k (osc_dispatch params bell) h =
    elim (osc_match-Keeps k (head? params >>= from_utf8) params) [
      | inl e ↦ inl e
      | inr e ↦ subst IsCoherent (sym e) h
    ]
perform-IsCoherent k (csi_dispatch params intermediates ignore action) h =
    on_csi-IsCoherent k params intermediates action h
perform-IsCoherent k (esc_dispatch intermediates ignore byte) h =
    subst IsCoherent (sym (on_esc-sticky k byte)) h

pub perform_all-IsCoherent :
    (k : Sink) (cs : List Callback) → IsCoherent k.sticky → IsCoherent (perform_all k cs).sticky
unfolding perform_all
perform_all-IsCoherent k [] h = h
perform_all-IsCoherent k (c ∷ cs) h =
    perform_all-IsCoherent (perform k c) cs (perform-IsCoherent k c h)
