-- ===== src/Sink/Restore.antt =====
-- The prologue of core/src/sticky.rs against the handlers of core/src/scanner.rs: the commands that
-- `serialize` writes put the sticky state back.
use jfterm_muxer.Base.{
  ℕ, ◌≡◌, refl, sym, ap, ◌∙◌, subst, true, false, ◌&&◌, ◌||◌, Option, none, some, List, [], ◌∷◌,
  ◌++◌, append_assoc, append-nil, map, arith, ◌==◌, if◌then◌else◌, bytes_eq,
}
use jfterm_muxer.Sticky
use jfterm_muxer.Sticky.{
  StickyState, invalidate, set_sgr, set_dec_mode, join_params, build_sgr, build_modes, build_region,
  build_osc, build_serialized, insert_key,
}
use jfterm_muxer.Sticky.Modes.{Ascending, insert_last}
use jfterm_muxer.Utf8.{from_utf8}
use jfterm_muxer.Sink.{
  Sink, flatten, set_modes, osc_match, on_osc, on_csi, on_esc, perform, perform_all,
}
use jfterm_muxer.Vte.{Callback}
use jfterm_muxer.Sink.Normal.{perform_all-IsNormal, new-IsNormal}
use jfterm_muxer.Sink
use jfterm_muxer.Sink.Commands.{
  Command, sgr_command, mode_command, region_command, cwd_command, title_command, single, callback,
  sgr_commands, region_commands, text_commands, commands, write_all, build-write_all, IsRegion,
  IsNormal,
}

-- The effect of a command on the sticky state.
apply : StickyState → Command → StickyState
apply s (sgr_command params) = set_sgr s (if bytes_eq params (0 ∷ []) then [] else params)
apply s (mode_command code) = set_dec_mode s code true
apply s (region_command top bottom) = Sticky.set_scroll_region s (some (top, bottom))
apply s (cwd_command cwd) = Sticky.set_cwd s cwd
apply s (title_command title) = Sticky.set_title s title

abbrev Applies : Command → Type 0
Applies (sgr_command params) = Unit {0}
Applies (mode_command code) = Unit {0}
Applies (region_command top bottom) = (top == 0) && (bottom == 0) ≡ false
Applies (cwd_command cwd) = Unit {0}
Applies (title_command title) = Unit {0}

flatten-single : (ps : List ℕ) → flatten (map single ps) ≡ ps
flatten-single [] = refl
flatten-single (p ∷ ps) = ap (◌∷◌ p) (flatten-single ps)

sgr_case :
    (s : StickyState) (ps qs : List ℕ)
    → ps ≡ qs
    → (if bytes_eq ps [] || bytes_eq ps (0 ∷ []) then set_sgr s [] else set_sgr s ps)
      ≡ set_sgr s (if bytes_eq qs (0 ∷ []) then [] else qs)
unfolding bytes_eq
sgr_case s ps [] e = rw e refl
sgr_case s ps (q ∷ qs) e = rw e (ground arith)

perform-apply :
    (k : Sink) (c : Command) → Applies c → (perform k (callback c)).sticky ≡ apply k.sticky c
unfolding perform apply
perform-apply k (sgr_command params) h =
    unfold on_csi in sgr_case k.sticky (flatten (map single params)) params (flatten-single params)
perform-apply k (mode_command code) h = unfold on_csi bytes_eq in refl
perform-apply k (region_command top bottom) h = unfold on_csi in rw h refl
perform-apply k (cwd_command cwd) h = unfold on_osc osc_match from_utf8 bytes_eq in refl
perform-apply k (title_command title) h = unfold on_osc osc_match from_utf8 bytes_eq in refl

abbrev apply_all : StickyState → List Command → StickyState
apply_all s [] = s
apply_all s (c ∷ cs) = apply_all (apply s c) cs

abbrev AllApply : List Command → Type 0
AllApply [] = Unit {0}
AllApply (c ∷ cs) = Applies c × AllApply cs

-- The sink after the callbacks of some commands.
abbrev pub replayed : Sink → List Command → Sink
replayed k cs = perform_all k (map callback cs)

replayed-apply :
    (k : Sink) (cs : List Command) → AllApply cs → (replayed k cs).sticky ≡ apply_all k.sticky cs
unfolding perform_all
replayed-apply k [] h = refl
replayed-apply k (c ∷ cs) h =
    replayed-apply (perform k (callback c)) cs h.1
    ∙ ap (λ s. apply_all s cs) (perform-apply k c h.0)

apply_all-append :
    (s : StickyState) (cs ds : List Command)
    → apply_all s (cs ++ ds) ≡ apply_all (apply_all s cs) ds
apply_all-append s [] ds = refl
apply_all-append s (c ∷ cs) ds = apply_all-append (apply s c) cs ds

apply-sgr :
    (ps : List ℕ)
    → bytes_eq ps (0 ∷ []) ≡ false
    → apply_all Sticky.new (sgr_commands ps) ≡ set_sgr Sticky.new ps
unfolding apply
apply-sgr [] h = refl
apply-sgr (p ∷ ps) h = rw h refl

apply-modes :
    (s : StickyState) (done codes : List ℕ)
    → Ascending 0 (done ++ codes)
    → s.dec_modes ≡ done
    → s.cache ≡ none
    → apply_all s (map mode_command codes) ≡ record s { dec_modes = done ++ codes }
unfolding apply
apply-modes s done [] a e c = λ i. record s { dec_modes = (e ∙ sym (append-nil done)) i }
apply-modes s done (code ∷ codes) a e c =
    let last : insert_key code s.dec_modes ≡ done ++ (code ∷ []) =
      ap (insert_key code) e ∙ insert_last 0 code done codes a in
    let next : (done ++ (code ∷ [])) ++ codes ≡ done ++ (code ∷ codes) =
      append_assoc done (code ∷ []) codes in
    apply-modes (set_dec_mode s code true) (done ++ (code ∷ [])) codes
      (subst (Ascending 0) (sym next) a) last refl
    ∙ λ i. record s { dec_modes = next i; cache = sym c i }

apply-region :
    (s : StickyState) (r : Option (ℕ × ℕ))
    → s.scroll_region ≡ none
    → s.cache ≡ none
    → apply_all s (region_commands r) ≡ record s { scroll_region = r }
unfolding apply
apply-region s none e c = λ i. record s { scroll_region = e i }
apply-region s (some (top, bottom)) e c =
    λ i. record s { scroll_region = some (top, bottom); cache = sym c i }

apply-cwd :
    (s : StickyState) (o : Option (List ℕ))
    → s.cwd ≡ none
    → s.cache ≡ none
    → apply_all s (text_commands cwd_command o) ≡ record s { cwd = o }
unfolding apply
apply-cwd s none e c = λ i. record s { cwd = e i }
apply-cwd s (some text) e c = λ i. record s { cwd = some text; cache = sym c i }

apply-title :
    (s : StickyState) (o : Option (List ℕ))
    → s.title ≡ none
    → s.cache ≡ none
    → apply_all s (text_commands title_command o) ≡ record s { title = o }
unfolding apply
apply-title s none e c = λ i. record s { title = e i }
apply-title s (some text) e c = λ i. record s { title = some text; cache = sym c i }

-- Applied to a new state, the commands of a normal state give that state back.
apply-commands : (s : StickyState) → IsNormal s → apply_all Sticky.new (commands s) ≡ invalidate s
unfolding apply bytes_eq
apply-commands s h =
    let texts = text_commands cwd_command s.cwd ++ text_commands title_command s.title in
    let regions = region_commands s.scroll_region ++ texts in
    let modes = map mode_command s.dec_modes ++ regions in
    let s₁ : StickyState = set_sgr Sticky.new s.sgr in
    let s₂ : StickyState = record s₁ { dec_modes = s.dec_modes } in
    let s₃ : StickyState = record s₂ { scroll_region = s.scroll_region } in
    let s₄ : StickyState = record s₃ { cwd = s.cwd } in
    let e₁ : apply_all Sticky.new (sgr_commands s.sgr ++ modes) ≡ apply_all s₁ modes =
      apply_all-append Sticky.new (sgr_commands s.sgr) modes
      ∙ ap (λ t. apply_all t modes) (apply-sgr s.sgr h.sgr) in
    let e₂ : apply_all s₁ modes ≡ apply_all s₂ regions =
      apply_all-append s₁ (map mode_command s.dec_modes) regions
      ∙ ap (λ t. apply_all t regions) (apply-modes s₁ [] s.dec_modes h.modes refl refl) in
    let e₃ : apply_all s₂ regions ≡ apply_all s₃ texts =
      apply_all-append s₂ (region_commands s.scroll_region) texts
      ∙ ap (λ t. apply_all t texts) (apply-region s₂ s.scroll_region refl refl) in
    let e₄ : apply_all s₃ texts ≡ apply_all s₄ (text_commands title_command s.title) =
      apply_all-append s₃ (text_commands cwd_command s.cwd) (text_commands title_command s.title)
      ∙ ap (λ t. apply_all t (text_commands title_command s.title))
          (apply-cwd s₃ s.cwd refl refl) in
    e₁ ∙ (e₂ ∙ (e₃ ∙ (e₄ ∙ apply-title s₄ s.title refl refl)))

All_apply-append : (cs ds : List Command) → AllApply cs → AllApply ds → AllApply (cs ++ ds)
All_apply-append [] ds h k = k
All_apply-append (c ∷ cs) ds h k = (h.0, All_apply-append cs ds h.1 k)

commands-apply : (s : StickyState) → IsNormal s → AllApply (commands s)
commands-apply s h = (
  tt,
  All_apply-append (sgr_commands s.sgr) _ (sgr s.sgr) (
      All_apply-append (map mode_command s.dec_modes) _ (modes s.dec_modes) (
        All_apply-append (region_commands s.scroll_region) _ (region s.scroll_region h.region)
          (All_apply-append (text_commands cwd_command s.cwd) _ (cwd s.cwd) (title s.title)))),
)
  where
    sgr : (ps : List ℕ) → AllApply (sgr_commands ps)
    sgr [] = tt
    sgr (p ∷ ps) = (tt, tt)

    modes : (codes : List ℕ) → AllApply (map mode_command codes)
    modes [] = tt
    modes (code ∷ codes) = (tt, modes codes)

    region : (r : Option (ℕ × ℕ)) → IsRegion r → AllApply (region_commands r)
    region none h = tt
    region (some (top, bottom)) h = (h, tt)

    cwd : (o : Option (List ℕ)) → AllApply (text_commands cwd_command o)
    cwd none = tt
    cwd (some text) = (tt, tt)

    title : (o : Option (List ℕ)) → AllApply (text_commands title_command o)
    title none = tt
    title (some text) = (tt, tt)

-- Whatever callbacks a new sink has seen, `serialize` writes a list of commands whose callbacks, made
-- on a new sink, give the same sticky state again (up to the cache).
pub serialize-restores :
    (cs : List Callback)
    → let s = (perform_all Sink.new cs).sticky in
      (write_all (commands s) ≡ build_serialized s)
      × ((replayed Sink.new (commands s)).sticky ≡ invalidate s)
serialize-restores cs =
    let s = (perform_all Sink.new cs).sticky in
    let h : IsNormal s = perform_all-IsNormal Sink.new cs new-IsNormal in
    (
      build-write_all s,
      replayed-apply Sink.new (commands s) (commands-apply s h) ∙ apply-commands s h,
    )
