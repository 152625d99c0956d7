-- ===== src/Idle.antt =====
-- `wait_until_idle` of jftermd/src/server.rs, the watcher that ends an idle daemon, between the
-- operations of other tasks on the registry.
pub mod Laws
pub mod Tests
use jfterm_muxer.Base.{
  ℕ, Bool, true, false, Option, none, some, List, [], ◌∷◌, if◌then◌else◌, ◌>>=◌, ◌≡◌,
}
use jfterm_muxer.Registry.{Registry, attach_or_create, remove, is_empty, wait_for_change}

-- Where the watcher stands: in its first loop; at the top of the second; asleep for the grace; in
-- `wait_for_change` of the second; returned.
pub data Watch : Type 0 where
  first top asleep waiting idle : Watch

-- The watcher goes on; `none` is a watcher that cannot.
unfoldable pub watch : Watch → Registry → Option (Watch × Registry)
watch first r = if is_empty r then (do r' ← wait_for_change r; some (first, r')) else some (top, r)
watch top r = if is_empty r then some (asleep, r) else some (waiting, r)
watch asleep r = if is_empty r then some (idle, r) else some (waiting, r)
watch waiting r = do r' ← wait_for_change r; some (top, r')
watch idle r = none

-- A move of another task or of the watcher.
pub data Move : Type 0 where
  bind end : List ℕ → Move
  watcher : Move

unfoldable pub step_watch : Watch → Registry → Watch × Registry
unfolding watch
step_watch w r = elim (watch w r) [ some (w', r') ↦ (w', r') | none ↦ (w, r) ]

unfoldable pub move : Watch → Registry → Move → Watch × Registry
unfolding step_watch
move w r (bind id) = (w, (attach_or_create r id).1)
move w r (end id) = (w, remove r id)
move w r watcher = step_watch w r

unfoldable pub moves : Watch → Registry → List Move → Watch × Registry
unfolding move
moves w r [] = (w, r)
moves w r (m ∷ ms) = let (w', r') = move w r m in moves w' r' ms
