-- ===== src/Sticky/Tests.antt =====
-- The sticky state's theorems at concrete inputs.
use jfterm_muxer.Base.{◌≡◌, refl, inl, List, [], ◌∷◌, arith, bytes}
use jfterm_muxer.Sticky.{StickyState, new}
use jfterm_muxer.Sticky.Cache.{
  Op, sets_sgr, sets_title, serializes, run, run_uncached, run-serialize,
}
use jfterm_muxer.Sticky.Modes.{Ascending}

abbrev five_ops : List Op
five_ops =
    serializes ∷ (sets_sgr (31 ∷ []) ∷ (serializes ∷ (sets_title (bytes "t") ∷ (serializes ∷ []))))

run-serialize_example : run new five_ops ≡ run_uncached new five_ops
run-serialize_example = run-serialize new five_ops (inl refl)

abbrev two_modes : StickyState
two_modes = record new { dec_modes = 25 ∷ (2004 ∷ []) }

two_modes-Ascending : Ascending 0 two_modes.dec_modes
two_modes-Ascending = (ground arith, (ground arith, tt))
