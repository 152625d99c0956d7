-- ===== src/Sticky.antt =====
-- core/src/sticky.rs: the visual state that a chunk's prologue puts back.
pub mod Cache
pub mod Modes
pub mod Tests
use jfterm_muxer.Base.{
  ℕ, zero, suc, Bool, true, false, Option, none, some, List, [], ◌∷◌, ◌++◌, ltb, ◌==◌,
  if◌then◌else◌, bytes, to_string,
}

-- `dec_modes` holds the keys of the `BTreeMap<u16, bool>` in ascending order: every entry is `true`.
pub record StickyState : Type 0 where
  pub sgr : List ℕ
  pub dec_modes : List ℕ
  pub scroll_region : Option (ℕ × ℕ)
  pub cwd : Option (List ℕ)
  pub title : Option (List ℕ)
  pub cache : Option (List ℕ)

abbrev pub new : StickyState
new = record {
  sgr = [];
  dec_modes = [];
  scroll_region = none;
  cwd = none;
  title = none;
  cache = none;
}

-- `BTreeMap::insert` and `BTreeMap::remove` on the ascending keys.
unfoldable pub insert_key : ℕ → List ℕ → List ℕ
insert_key k [] = k ∷ []
insert_key k (j ∷ js) =
    let rest = insert_key k js in
    if k == j then j ∷ js else if ltb k j then k ∷ (j ∷ js) else j ∷ rest

unfoldable pub remove_key : ℕ → List ℕ → List ℕ
remove_key k [] = []
remove_key k (j ∷ js) = let rest = remove_key k js in if k == j then js else j ∷ rest

abbrev pub invalidate : StickyState → StickyState
invalidate s = record s { cache = none }

abbrev pub set_sgr : StickyState → List ℕ → StickyState
set_sgr s params = invalidate (record s { sgr = params })

abbrev pub set_dec_mode : StickyState → ℕ → Bool → StickyState
set_dec_mode s code on = invalidate (
    if on
    then record s { dec_modes = insert_key code s.dec_modes }
    else record s { dec_modes = remove_key code s.dec_modes })

abbrev pub set_scroll_region : StickyState → Option (ℕ × ℕ) → StickyState
set_scroll_region s region = invalidate (record s { scroll_region = region })

abbrev pub set_cwd : StickyState → List ℕ → StickyState
set_cwd s cwd = invalidate (record s { cwd = some cwd })

abbrev pub set_title : StickyState → List ℕ → StickyState
set_title s title = invalidate (record s { title = some title })

-- The loop over the SGR parameters, with `;` before all but the first.
unfoldable pub join_params : List ℕ → List ℕ
join_params [] = []
join_params (p ∷ []) = to_string p
join_params (p ∷ q ∷ ps) = to_string p ++ (bytes ";" ++ join_params (q ∷ ps))

unfoldable pub build_sgr : List ℕ → List ℕ
build_sgr [] = []
build_sgr (p ∷ ps) = 0x1b ∷ (bytes "[" ++ (join_params (p ∷ ps) ++ bytes "m"))

unfoldable pub build_modes : List ℕ → List ℕ
build_modes [] = []
build_modes (code ∷ codes) =
    (0x1b ∷ (bytes "[?" ++ (to_string code ++ bytes "h"))) ++ build_modes codes

unfoldable pub build_region : Option (ℕ × ℕ) → List ℕ
build_region none = []
build_region (some (top, bottom)) =
    0x1b ∷ (bytes "[" ++ (to_string top ++ (bytes ";" ++ (to_string bottom ++ bytes "r"))))

-- `out.extend_from_slice(b"\x1b]7;")`, the payload, and BEL; so for the title with `2`.
unfoldable pub build_osc : List ℕ → Option (List ℕ) → List ℕ
build_osc number none = []
build_osc number (some payload) =
    0x1b ∷ (bytes "]" ++ (number ++ (bytes ";" ++ (payload ++ (7 ∷ [])))))

unfoldable pub build_serialized : StickyState → List ℕ
unfolding build_sgr build_modes build_region build_osc join_params
build_serialized s =
    (0x1b ∷ bytes "[0m")
    ++ (build_sgr s.sgr
        ++ (build_modes s.dec_modes
            ++ (build_region s.scroll_region
                ++ (build_osc (bytes "7") s.cwd ++ build_osc (bytes "2") s.title))))

-- `serialize(&self)` fills the cache behind the shared reference, so it returns the state too.
unfoldable pub serialize : StickyState → List ℕ × StickyState
serialize s = elim s.cache [
  | some cached ↦ (cached, s)
  | none ↦ let out = build_serialized s in (out, record s { cache = some out })
]
