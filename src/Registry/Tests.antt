-- ===== src/Registry/Tests.antt =====
-- The registry's theorems at concrete inputs.
use jfterm_muxer.Base.{List, [], ◌∷◌, bytes}
use jfterm_muxer.Registry.{with_max_sessions, attach_or_create}
use jfterm_muxer.Registry.Invariant.{
  Op, bind, end, wait, run, run-IsValid, Bound, attach_or_create-Bound,
}

abbrev one_session : List Op
one_session = bind (bytes "a") ∷ (wait ∷ (bind (bytes "b") ∷ (end (bytes "b") ∷ [])))

-- The table is full, and `b` is new.
attach_or_create-Bound_example :
    (let r = run (with_max_sessions 1) one_session in
      Bound r (bytes "b") (attach_or_create r (bytes "b")))
attach_or_create-Bound_example =
    attach_or_create-Bound 1 (run (with_max_sessions 1) one_session) (bytes "b")
      (run-IsValid 1 one_session)
