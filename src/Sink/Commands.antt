-- ===== src/Sink/Commands.antt =====
-- The prologue of core/src/sticky.rs as a list of terminal commands, with the callback of
-- core/src/scanner.rs that a parser makes of each.
use jfterm_muxer.Base.{
  ℕ, ◌≡◌, refl, sym, ap, ◌∙◌, true, false, ◌&&◌, Option, none, some, List, [], ◌∷◌, ◌++◌,
  append_assoc, append-nil, map, ◌==◌, bytes, bytes_eq, to_string,
}
use jfterm_muxer.Sticky.{
  StickyState, join_params, build_sgr, build_modes, build_region, build_osc, build_serialized,
}
use jfterm_muxer.Sticky.Modes.{Ascending}
use jfterm_muxer.Vte.{Callback, osc_dispatch, csi_dispatch}

-- The commands of a prologue.
pub data Command : Type 0 where
  sgr_command : List ℕ → Command
  mode_command : ℕ → Command
  region_command : ℕ → ℕ → Command
  cwd_command title_command : List ℕ → Command

-- How each is written, and the callback that a parser makes of it.
abbrev pub write : Command → List ℕ
write (sgr_command params) = 0x1b ∷ (bytes "[" ++ (join_params params ++ bytes "m"))
write (mode_command code) = 0x1b ∷ (bytes "[?" ++ (to_string code ++ bytes "h"))
write (region_command top bottom) =
    0x1b ∷ (bytes "[" ++ (to_string top ++ (bytes ";" ++ (to_string bottom ++ bytes "r"))))
write (cwd_command cwd) = 0x1b ∷ (bytes "]7;" ++ (cwd ++ (7 ∷ [])))
write (title_command title) = 0x1b ∷ (bytes "]2;" ++ (title ++ (7 ∷ [])))

abbrev pub single : ℕ → List ℕ
single p = p ∷ []

abbrev pub callback : Command → Callback
callback (sgr_command params) = csi_dispatch (map single params) [] false b'm'
callback (mode_command code) = csi_dispatch (single code ∷ []) (bytes "?") false b'h'
callback (region_command top bottom) =
    csi_dispatch (single top ∷ (single bottom ∷ [])) [] false b'r'
callback (cwd_command cwd) = osc_dispatch (bytes "7" ∷ (cwd ∷ [])) true
callback (title_command title) = osc_dispatch (bytes "2" ∷ (title ∷ [])) true

abbrev pub sgr_commands : List ℕ → List Command
sgr_commands [] = []
sgr_commands (p ∷ ps) = sgr_command (p ∷ ps) ∷ []

abbrev pub region_commands : Option (ℕ × ℕ) → List Command
region_commands none = []
region_commands (some (top, bottom)) = region_command top bottom ∷ []

abbrev pub text_commands : (List ℕ → Command) → Option (List ℕ) → List Command
text_commands c none = []
text_commands c (some text) = c text ∷ []

abbrev pub commands : StickyState → List Command
commands s =
    sgr_command (0 ∷ [])
    ∷ (sgr_commands s.sgr
        ++ (map mode_command s.dec_modes
            ++ (region_commands s.scroll_region
                ++ (text_commands cwd_command s.cwd ++ text_commands title_command s.title))))

abbrev pub write_all : List Command → List ℕ
write_all [] = []
write_all (c ∷ cs) = write c ++ write_all cs

write_all-append : (cs ds : List Command) → write_all (cs ++ ds) ≡ write_all cs ++ write_all ds
write_all-append [] ds = refl
write_all-append (c ∷ cs) ds =
    ap (◌++◌ (write c)) (write_all-append cs ds)
    ∙ sym (append_assoc (write c) (write_all cs) (write_all ds))

write-sgr : (ps : List ℕ) → write_all (sgr_commands ps) ≡ build_sgr ps
unfolding build_sgr
write-sgr [] = refl
write-sgr (p ∷ ps) = append-nil _

write-modes : (codes : List ℕ) → write_all (map mode_command codes) ≡ build_modes codes
unfolding build_modes
write-modes [] = refl
write-modes (code ∷ codes) = ap (◌++◌ (write (mode_command code))) (write-modes codes)

write-region : (r : Option (ℕ × ℕ)) → write_all (region_commands r) ≡ build_region r
unfolding build_region
write-region none = refl
write-region (some (top, bottom)) = append-nil _

write-cwd :
    (o : Option (List ℕ)) → write_all (text_commands cwd_command o) ≡ build_osc (bytes "7") o
unfolding build_osc
write-cwd none = refl
write-cwd (some text) = append-nil _

write-title :
    (o : Option (List ℕ)) → write_all (text_commands title_command o) ≡ build_osc (bytes "2") o
unfolding build_osc
write-title none = refl
write-title (some text) = append-nil _

joined :
    (cs ds : List Command) (xs ys : List ℕ)
    → write_all cs ≡ xs
    → write_all ds ≡ ys
    → write_all (cs ++ ds) ≡ xs ++ ys
joined cs ds xs ys e f = write_all-append cs ds ∙ λ i. e i ++ f i

-- `serialize` writes these commands, in this order.
pub build-write_all : (s : StickyState) → write_all (commands s) ≡ build_serialized s
unfolding build_serialized to_string
build-write_all s =
    ap (λ r. 0x1b ∷ (bytes "[0m" ++ r))
      (joined _ _ _ _ (write-sgr s.sgr) (
        joined _ _ _ _ (write-modes s.dec_modes) (
          joined _ _ _ _ (write-region s.scroll_region)
            (joined _ _ _ _ (write-cwd s.cwd) (write-title s.title)))))

-- What the handlers never store: SGR 0 and the region (0, 0) stand for the default, and the modes
-- are a set.
abbrev pub IsRegion : Option (ℕ × ℕ) → Type 0
IsRegion none = Unit {0}
IsRegion (some (top, bottom)) = (top == 0) && (bottom == 0) ≡ false

pub record IsNormal (s : StickyState) : Type 0 where
  pub modes : Ascending 0 s.dec_modes
  pub sgr : bytes_eq s.sgr (0 ∷ []) ≡ false
  pub region : IsRegion s.scroll_region
