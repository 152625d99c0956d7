-- ===== src/Engine.antt =====
-- core/src/engine.rs: the core that a session holds, a scanner with the production watermark.
use jfterm_muxer.Base.{ℕ, ◌*◌, ◌-◌, ◌^◌, Bool, Option, some, List, ◌>>=◌}
use jfterm_muxer.Scanner
use jfterm_muxer.Scanner.{Scanner}
use jfterm_muxer.Status.{StatusSnapshot}
use jfterm_muxer.Vte.{Vte}

abbrev pub watermark : ℕ
watermark = 128 * 1024

-- `usize::MAX` of a 64-bit target.
abbrev pub usize_max : ℕ
usize_max = 2 ^ 64 - 1

module _ (vte : Vte) where
  pub record ReplayEngine : Type 0 where
    pub scanner : Scanner vte

  abbrev pub new : ReplayEngine
  new = record { scanner = Scanner.new vte watermark }

  unfoldable pub feed : ReplayEngine → List ℕ → Option ReplayEngine
  feed e bytes = do scanner ← Scanner.feed vte e.scanner bytes; some (record { scanner = scanner })

  unfoldable pub replay : ReplayEngine → List ℕ
  replay e = Scanner.replay vte e.scanner usize_max

  unfoldable pub replay_capped : ReplayEngine → ℕ → List ℕ
  replay_capped e want_chunks = Scanner.replay vte e.scanner want_chunks

  unfoldable pub status : ReplayEngine → StatusSnapshot
  status e = Scanner.status vte e.scanner

  unfoldable pub has_prompt_marking : ReplayEngine → Bool
  has_prompt_marking e = Scanner.saw_prompt_marker vte e.scanner
