-- ===== src/Status.antt =====
-- core/src/status.rs: the shell status that OSC 133 and OSC 9;4 sequences report.
use jfterm_muxer.Base.{ℕ, Bool, true, false, Option, none}

pub record StatusSnapshot : Type 0 where
  pub running : Bool
  pub progress : Option ℕ

pub record StatusCache : Type 0 where
  pub running : Bool
  pub progress : Option ℕ
  pub saw_prompt_marker : Bool

abbrev pub new : StatusCache
new = record { running = false; progress = none; saw_prompt_marker = false }

abbrev pub set_running : StatusCache → Bool → StatusCache
set_running c running = record c { running = running }

abbrev pub set_progress : StatusCache → Option ℕ → StatusCache
set_progress c progress = record c { progress = progress }

abbrev pub set_prompt_marker_seen : StatusCache → StatusCache
set_prompt_marker_seen c = record c { saw_prompt_marker = true }

abbrev pub snapshot : StatusCache → StatusSnapshot
snapshot c = record { running = c.running; progress = c.progress }
