-- ===== src/Idle/Tests.antt =====
-- The watcher's theorems at concrete inputs.
use jfterm_muxer.Base.{refl, List, [], ◌∷◌, bytes}
use jfterm_muxer.Registry
use jfterm_muxer.Registry.{Registry, with_max_sessions}
use jfterm_muxer.Idle.{first, watch, Move, bind, watcher, moves}
use jfterm_muxer.Idle.Laws.{IsStuck, moves-IsStuck}

-- A session comes, the watcher sees it and waits.
abbrev one_session : List Move
one_session = bind (bytes "a") ∷ (watcher ∷ (watcher ∷ (watcher ∷ (watcher ∷ []))))

moves-IsStuck_example : (let (w, r) = moves first (with_max_sessions 4) one_session in IsStuck w r)
unfolding watch moves jfterm_muxer.Registry.is_empty jfterm_muxer.Registry.attach_or_create
    jfterm_muxer.Registry.get jfterm_muxer.Registry.wait_for_change
moves-IsStuck_example = moves-IsStuck 4 one_session _ _ refl refl
