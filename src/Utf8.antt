-- ===== src/Utf8.antt =====
-- `std::str::from_utf8`: which byte strings are UTF-8. After a lead byte `Expect` says which
-- continuation bytes may follow (overlong forms, surrogates and code points past U+10FFFF are out).
use jfterm_muxer.Base.{
  ℕ, Option, none, some, List, [], ◌∷◌, ltb, ◌==◌, in_range, if◌then◌else◌, ◌>>=◌,
}

pub data Expect : Type 0 where
  boundary cont1 cont2 cont3 after_e0 after_ed after_f0 after_f4 : Expect

unfoldable pub utf8_lead : ℕ → Option Expect
utf8_lead b =
    if ltb b 0x80
    then some boundary
    else if in_range 0xc2 0xdf b
    then some cont1
    else if b == 0xe0
    then some after_e0
    else if b == 0xed
    then some after_ed
    else if in_range 0xe1 0xef b
    then some cont2
    else if b == 0xf0
    then some after_f0
    else if in_range 0xf1 0xf3 b
    then some cont3
    else if b == 0xf4
    then some after_f4
    else none

abbrev within : ℕ → ℕ → Expect → ℕ → Option Expect
within lo hi next b = if in_range lo hi b then some next else none

unfoldable pub utf8_step : Expect → ℕ → Option Expect
unfolding utf8_lead
utf8_step boundary b = utf8_lead b
utf8_step cont1 b = within 0x80 0xbf boundary b
utf8_step cont2 b = within 0x80 0xbf cont1 b
utf8_step cont3 b = within 0x80 0xbf cont2 b
utf8_step after_e0 b = within 0xa0 0xbf cont1 b
utf8_step after_ed b = within 0x80 0x9f cont1 b
utf8_step after_f0 b = within 0x90 0xbf cont2 b
utf8_step after_f4 b = within 0x80 0x8f cont2 b

unfoldable pub utf8_run : Expect → List ℕ → Option Expect
unfolding utf8_step
utf8_run x [] = some x
utf8_run x (b ∷ bs) = do y ← utf8_step x b; utf8_run y bs

unfoldable pub from_utf8 : List ℕ → Option (List ℕ)
unfolding utf8_run
from_utf8 bs = elim (utf8_run boundary bs) [ some boundary ↦ some bs | _ ↦ none ]
