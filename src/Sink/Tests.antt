-- ===== src/Sink/Tests.antt =====
-- The sink's theorems at concrete inputs.
use jfterm_muxer.Base.{◌≡◌, true, false, ◌||◌, List, [], ◌∷◌, bytes}
use jfterm_muxer.Vte.{Callback, osc_dispatch, csi_dispatch, print}
use jfterm_muxer.Sticky.{invalidate, build_serialized}
use jfterm_muxer.Sink
use jfterm_muxer.Sink.{Sink, keep_seq, drop_seq, take_event, perform, perform_all, is_text}
use jfterm_muxer.Sink.Shell.{any_mark, perform_all-marker}
use jfterm_muxer.Sink.Commands.{commands, write_all}
use jfterm_muxer.Sink.Restore.{serialize-restores, replayed}

-- Bold red, the bracketed paste mode, a scroll region, and a title.
abbrev colours : List Callback
colours =
    csi_dispatch ((1 ∷ []) ∷ ((31 ∷ []) ∷ [])) [] false 109
    ∷ (csi_dispatch ((2004 ∷ []) ∷ []) (63 ∷ []) false 104
        ∷ (csi_dispatch ((2 ∷ []) ∷ ((9 ∷ []) ∷ [])) [] false 114
            ∷ (osc_dispatch (bytes "2" ∷ (bytes "t" ∷ [])) true ∷ [])))

serialize-restores_example :
    (let s = (perform_all Sink.new colours).sticky in
      (write_all (commands s) ≡ build_serialized s)
      × ((replayed Sink.new (commands s)).sticky ≡ invalidate s))
serialize-restores_example = serialize-restores colours

abbrev one_mark : List Callback
one_mark = print 104 ∷ (osc_dispatch (bytes "133" ∷ (bytes "A" ∷ [])) true ∷ [])

perform_all-marker_example :
    (perform_all Sink.new one_mark).status.saw_prompt_marker
    ≡ Sink.new.status.saw_prompt_marker || any_mark one_mark
perform_all-marker_example = perform_all-marker Sink.new one_mark
