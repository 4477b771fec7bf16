-- ===== src/Prelude/Utf8.antt =====
-- `String::from_utf8` of the standard library: which bytes are the UTF-8 form of a text.
use mathlib.Core.Bool.{Bool, true, false, ◌&&◌}
use mathlib.Core.List.{List, [], ◌∷◌}
use Prim.Native.Nat.{ℕ}
use lan_link.Prelude.Tests.{ltb, leb, ◌==◌, if◌then◌else◌}

-- What may follow. After four of the leading bytes the range of the next byte is narrower.
pub data Utf8 : Type 0 where
  ready tail_one tail_two tail_three after_e0 after_ed after_f0 after_f4 bad : Utf8

within : ℕ → ℕ → ℕ → Utf8 → Utf8
within low high b next = if leb low b && leb b high then next else bad

follow : Utf8 → ℕ → Utf8
unfolding within
follow ready b =
    if ltb b 0x80
    then ready
    else if ltb b 0xc2
    then bad
    else if ltb b 0xe0
    then tail_one
    else if b == 0xe0
    then after_e0
    else if b == 0xed
    then after_ed
    else if ltb b 0xf0
    then tail_two
    else if b == 0xf0
    then after_f0
    else if ltb b 0xf4
    then tail_three
    else if b == 0xf4
    then after_f4
    else bad
follow tail_one b = within 0x80 0xbf b ready
follow tail_two b = within 0x80 0xbf b tail_one
follow tail_three b = within 0x80 0xbf b tail_two
follow after_e0 b = within 0xa0 0xbf b tail_one
follow after_ed b = within 0x80 0x9f b tail_one
follow after_f0 b = within 0x90 0xbf b tail_two
follow after_f4 b = within 0x80 0x8f b tail_two
follow bad b = bad

ends_well : Utf8 → List ℕ → Bool
ends_well ready [] = true
ends_well s [] = false
ends_well s (b ∷ bytes) = ends_well (follow s b) bytes

-- The bytes are the UTF-8 form of a text.
unfoldable pub is_utf8 : List ℕ → Bool
unfolding ends_well follow
is_utf8 bytes = ends_well ready bytes
