-- ===== src/Base/Utf8.antt =====
-- `str::from_utf8` and `String::from_utf8` of Rust's standard library: which byte strings are UTF-8.
use mathlib.Core.Path.{◌≡◌, refl}
use mathlib.Core.Bool.{Bool, true, false, ◌&&◌}
use mathlib.Core.Option.{Option, none, some}
use mathlib.Core.List.{List, [], ◌∷◌}
use Prim.Native.Nat.{ℕ, ◌<◌}
use native.Mathlib.Omega.{arith}
use pqcscan.Base.Tests.{leb, ltb, ◌==◌, if◌then◌else◌}
use pqcscan.Base.Lists.{All}
use pqcscan.Base.Octets.{Bytes}

abbrev Ranges : Type 0
Ranges = List (ℕ × ℕ)

abbrev tail_byte : ℕ × ℕ
tail_byte = (0x80, 0xbf)

-- What must follow a lead byte: a range for each byte, as the Unicode standard's table 3-7 has it.
utf8_lead : ℕ → Option Ranges
utf8_lead c =
    if ltb c 0x80
    then some []
    else if ltb c 0xc2
    then none
    else if ltb c 0xe0
    then some (tail_byte ∷ [])
    else if c == 0xe0
    then some ((0xa0, 0xbf) ∷ tail_byte ∷ [])
    else if c == 0xed
    then some ((0x80, 0x9f) ∷ tail_byte ∷ [])
    else if ltb c 0xf0
    then some (tail_byte ∷ tail_byte ∷ [])
    else if c == 0xf0
    then some ((0x90, 0xbf) ∷ tail_byte ∷ tail_byte ∷ [])
    else if ltb c 0xf4
    then some (tail_byte ∷ tail_byte ∷ tail_byte ∷ [])
    else if c == 0xf4
    then some ((0x80, 0x8f) ∷ tail_byte ∷ tail_byte ∷ [])
    else none

utf8_from : Ranges → Bytes → Bool
utf8_from [] [] = true
utf8_from (_ ∷ _) [] = false
utf8_from ((lo, hi) ∷ rest) (c ∷ s) = leb lo c && leb c hi && utf8_from rest s
utf8_from [] (c ∷ s) = elim (utf8_lead c) [ none ↦ false | some rest ↦ utf8_from rest s ]

unfoldable pub is_utf8 : Bytes → Bool
unfolding utf8_from utf8_lead
is_utf8 s = utf8_from [] s

abbrev pub IsAscii : Bytes → Type 0
IsAscii = All (λ c. c < 0x80)

pub is_utf8-IsAscii : (s : Bytes) → IsAscii s → is_utf8 s ≡ true
unfolding is_utf8
is_utf8-IsAscii [] h = refl
is_utf8-IsAscii (c ∷ s) h = ground (arith, is_utf8-IsAscii s h.1)

utf8_table :
    (is_utf8 (0xc3 ∷ 0xa9 ∷ []) ≡ true)
    × (is_utf8 (0xe2 ∷ 0x82 ∷ 0xac ∷ []) ≡ true)
    × (is_utf8 (0xed ∷ 0xa0 ∷ 0x80 ∷ []) ≡ false)
    × (is_utf8 (0xc0 ∷ 0x80 ∷ []) ≡ false)
    × (is_utf8 (0xff ∷ []) ≡ false)
unfolding is_utf8
utf8_table = (refl, refl, refl, refl, refl)
