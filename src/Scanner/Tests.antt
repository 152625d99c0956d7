-- ===== src/Scanner/Tests.antt =====
-- The scanner's theorems at concrete inputs.
use jfterm_muxer.Base.{
  ℕ, ◌*◌, ◌+◌, ◌≤◌, ◌≡◌, refl, inl, true, false, some, List, [], ◌∷◌, ◌++◌, arith, bytes, bytes_eq,
  length, unwrap_or,
}
use jfterm_muxer.Vte.{Vte, print, osc_dispatch, csi_dispatch, esc_dispatch}
use jfterm_muxer.Samples.{Script, scripted}
use jfterm_muxer.Utf8.{from_utf8}
use jfterm_muxer.Ring.Bounds.{IsSized}
use jfterm_muxer.Ring.{concat_bodies}
use jfterm_muxer.Sticky.{build_serialized}
use jfterm_muxer.Sink
use jfterm_muxer.Sink.{Sink, perform, perform_all}
use jfterm_muxer.Scanner
use jfterm_muxer.Scanner.{Scanner, clear_bytes, feed, replay}
use jfterm_muxer.Scanner.Sanitize.{expand, remaining_after, sanitize, sanitize_one, fresh}
use jfterm_muxer.Scanner.Refine.{IsValid}
use jfterm_muxer.Scanner.Cleared.{replay-clear}
use jfterm_muxer.Scanner.Strings.{feed-dropped}
use jfterm_muxer.Scanner.Replay.{Shows, feed-sanitize}
use jfterm_muxer.Scanner.Bounds.{feed_bounds}
use jfterm_muxer.Scanner.Split.{at_start, feed-split}

-- `h`, the prompt mark `ESC ] 133 ; D BEL`, and `i`.
abbrev marked : List ℕ
marked = bytes "h" ++ (0x1b ∷ (bytes "]133;D" ++ (7 ∷ bytes "i")))

abbrev mark_script : Script
mark_script =
    (print 104 ∷ [])
    ∷ ([]
        ∷ ([]
            ∷ ([]
                ∷ ([]
                    ∷ ([]
                        ∷ ([]
                            ∷ ([]
                                ∷ ((osc_dispatch (bytes "133" ∷ (bytes "D" ∷ [])) true ∷ [])
                                    ∷ ((print 105 ∷ []) ∷ [])))))))))

abbrev marking : Vte
marking = scripted mark_script

abbrev hi : Vte
hi = scripted ((print 104 ∷ []) ∷ ((print 105 ∷ []) ∷ []))

feed-sanitize_example :
    (t : Scanner marking) × (feed marking (Scanner.new marking 4) marked ≡ some t)
    × Shows marking t 100 (sanitize marking (fresh marking) (expand 0 marked))
feed-sanitize_example = feed-sanitize marking 4 100 marked (ground arith)

-- `a`, then `ESC [ 2 J` completed by its `J`, then `x`.
abbrev clearing : Vte
clearing =
    scripted (
      (print 97 ∷ []) ∷ ((csi_dispatch ((2 ∷ []) ∷ []) [] false 74 ∷ []) ∷ ((print 120 ∷ []) ∷ [])))

replay-clear_example :
    (t : Scanner clearing) × (feed clearing (Scanner.new clearing 1) (bytes "aJx") ≡ some t)
    × (replay clearing t 9 ++ t.pending
        ≡ (clear_bytes
            ++ build_serialized
                (perform_all
                  (sanitize clearing (fresh clearing) (bytes "a")).sink
                  (csi_dispatch ((2 ∷ []) ∷ []) [] false 74 ∷ [])).sticky)
          ++ bytes "x")
unfolding perform_all sanitize sanitize_one expand jfterm_muxer.Scanner.Sanitize.expand_byte
    Scanner.lead_remaining
replay-clear_example =
    replay-clear clearing 1 9 (bytes "aJx") (bytes "a") (bytes "x") 74 (ground arith) refl refl
      (tt, tt)

-- `ESC ] 133 ESC \`, without the byte that starts it.
abbrev stripped : Vte
stripped =
    scripted (
      []
      ∷ ((osc_dispatch (bytes "133" ∷ []) false ∷ []) ∷ ((esc_dispatch [] false 0x5c ∷ []) ∷ [])))

feed-dropped_example :
    (t : Scanner stripped) × (feed stripped
        (Scanner.new stripped 4)
        (bytes "]" ++ (0x1b ∷ (0x5c ∷ [])))
      ≡ some t)
    × (replay stripped t 9 ≡ replay stripped (Scanner.new stripped 4) 9)
    × (t.pending ≡ [])
unfolding from_utf8 bytes_eq feed expand jfterm_muxer.Scanner.Sanitize.expand_byte
    Scanner.lead_remaining
feed-dropped_example =
    feed-dropped stripped 4 9 [] (bytes "]") (bytes "133" ∷ []) (Scanner.new stripped 4) _ _ [] refl
      (ground arith) refl refl (refl, refl) refl refl refl

feed_bounds_example :
    (let t = unwrap_or (feed marking (Scanner.new marking 2) marked) (Scanner.new marking 2) in
      IsSized 2 t.ring × (length t.ring.chunks * 2 ≤ length (concat_bodies t.ring.chunks) + 2))
unfolding feed Scanner.feed_byte Scanner.advance_one Scanner.handle_event perform_all
    Scanner.keep_span Scanner.Ring.append Scanner.Ring.should_cut Scanner.lead_remaining from_utf8
    bytes_eq
feed_bounds_example = feed_bounds marking 2 (ground arith) marked _ refl

new-IsValid : IsValid marking (Scanner.new marking 2)
new-IsValid = record { opened = ground arith; coherent = inl refl }

-- The title `t`, at its terminator, behind one byte that waits, at a watermark of two bytes.
abbrev title_params : List (List ℕ)
title_params = bytes "0" ∷ (bytes "t" ∷ [])

abbrev split_script : Script
split_script = (osc_dispatch title_params false ∷ []) ∷ ((esc_dispatch [] false 0x5c ∷ []) ∷ [])

abbrev splitting : Vte
splitting = scripted split_script

feed-split_example :
    (t : Scanner splitting) × (feed splitting
        (at_start splitting split_script Sink.new 2 (bytes "t"))
        (0x1b ∷ (0x5c ∷ []))
      ≡ some t)
    × (replay splitting t 1
        ≡ build_serialized (perform Sink.new (osc_dispatch title_params false)).sticky
          ++ (0x5c ∷ []))
unfolding from_utf8 bytes_eq
feed-split_example =
    feed-split splitting split_script _ [] Sink.new 2 (bytes "t") title_params false (inl refl)
      (ground arith) (ground arith) refl refl refl
