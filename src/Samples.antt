-- ===== src/Samples.antt =====
-- A parser that follows a script, for the tests of the modules that take the `vte` crate's parser as
-- a parameter: for each byte, whatever it is, the callbacks that the script has next.
use jfterm_muxer.Base.{List, [], ◌∷◌}
use jfterm_muxer.Vte.{Callback, Vte}

abbrev pub Script : Type 0
Script = List (List Callback)

abbrev next : Script → Script × List Callback
next [] = ([], [])
next (cs ∷ script) = (script, cs)

abbrev pub scripted : Script → Vte
scripted script = record { Parser = Script; start = script; advance = λ s b. next s }
