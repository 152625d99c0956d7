-- ===== src/Actor/Select.antt =====
-- The order of the arms of the `select!` in `actor_loop` of jftermd/src/server.rs: it is `biased`, so of
-- the arms that are ready the first one is taken.
use jfterm_muxer.Base.{
  ℕ, ◌≡◌, refl, Bool, true, false, not, ◌&&◌, Option, none, some, is_some, if◌then◌else◌,
}
use jfterm_muxer.Vte.{Vte}
use jfterm_muxer.Protocol.{Result}
use jfterm_muxer.Client.{Json}
use jfterm_muxer.Actor.{
  Event, grace_over, kill_due, tick, Actor, is_dead, is_due, has_prompt_marking,
}

-- What is ready at one poll: the next command, or the end of the channel; the terminal; and the tick
-- of the status poll, with the answer of the foreground test. `now` is the clock.
pub record Ready : Type 0 where
  pub command : Option Event
  pub terminal : Option Event
  pub ticked : Option (Result ℕ Bool)
  pub now : ℕ

-- An arm with its guard, before the arms that come after it.
unfoldable pub arm : Bool → Option Event → Option Event → Option Event
arm guard none later = later
arm guard (some e) later = if guard then some e else later

abbrev tick_of : Option (Result ℕ Bool) → Option Event
tick_of none = none
tick_of (some busy) = some (tick busy)

module _ (vte : Vte) (json : Json) (dead_grace : ℕ) where
  -- The arm that is taken; `none` when none is ready.
  unfoldable pub select : Actor vte json dead_grace → Ready → Option Event
  unfolding arm
  select a r = arm true r.command (
      arm (not (is_dead vte json dead_grace a)) r.terminal (
        arm (is_due a.grace_deadline r.now) (some (grace_over r.now)) (
          arm (is_due a.kill_deadline r.now) (some (kill_due r.now)) (
            arm
              (is_some (a.client).current
                && (not (is_dead vte json dead_grace a)
                    && not (has_prompt_marking vte json dead_grace a)))
              (tick_of r.ticked) none))))

  -- With no command and no output ready, a live session whose kill deadline is over takes that arm.
  pub select-kill :
      (a : Actor vte json dead_grace) (r : Ready)
      → r.command ≡ none
      → r.terminal ≡ none
      → a.grace_deadline ≡ none
      → is_due a.kill_deadline r.now ≡ true
      → select a r ≡ some (kill_due r.now)
  unfolding select is_due
  select-kill a r c t g k = rw (c, t, g, k, select, arm) refl

  -- While a command or output is ready, a live session takes that first.
  pub select-command :
      (a : Actor vte json dead_grace) (r : Ready) (e : Event)
      → r.command ≡ some e
      → select a r ≡ some e
  unfolding select
  select-command a r e c = rw (c, select, arm) refl

  pub select-terminal :
      (a : Actor vte json dead_grace) (r : Ready) (e : Event)
      → r.command ≡ none
      → is_dead vte json dead_grace a ≡ false
      → r.terminal ≡ some e
      → select a r ≡ some e
  unfolding select
  select-terminal a r e c d t = rw (c, t, d, select, arm) refl
