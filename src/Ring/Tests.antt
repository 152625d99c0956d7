-- ===== src/Ring/Tests.antt =====
-- The ring's theorems at concrete inputs.
use jfterm_muxer.Base.{◌≡◌, some, List, [], ◌∷◌, ◌++◌, arith, bytes}
use jfterm_muxer.Ring.{ChunkRing, new, replay}
use jfterm_muxer.Ring.Refine.{
  Op, appends, cuts, run, spec_run, empty_view, replay-run, CappedReplay, replay-newest,
}

abbrev three_ops : List Op
three_ops = appends (bytes "ab") ∷ (cuts (bytes "P") ∷ (appends (bytes "c") ∷ []))

replay-run_example :
    (t : ChunkRing) × (run (new 2) three_ops ≡ some t)
    × (replay t 4 ≡ (spec_run empty_view three_ops).base ++ (spec_run empty_view three_ops).stream)
replay-run_example = replay-run 2 4 three_ops (ground arith)

-- Two chunks, of which the newest is asked for.
abbrev two_chunks : ChunkRing
two_chunks = record {
  chunks =
      record { prologue = []; body = bytes "ab" }
      ∷ (record { prologue = bytes "P"; body = bytes "c" } ∷ []);
  watermark = 2;
}

replay-newest_example : CappedReplay two_chunks 1
replay-newest_example = replay-newest two_chunks 1 (ground arith)
