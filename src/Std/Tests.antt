-- ===== src/Std/Tests.antt =====
-- Runs of the standard functions, and their theorems at concrete memories.
use legendary_journey.Base.{
  ◌-◌, ◌≡◌, refl, some, [], ◌∷◌, arith, ltb, if◌then◌else◌, Block, slice, get_or, pos, negsuc,
}
use legendary_journey.Std.{memmove, strcmp, strncmp}
use legendary_journey.Std.Move.{memmove_lem}
use legendary_journey.Std.Strings.{CString}

-- "abc" at 100 and "abd" at 200
abbrev words : Block
words i =
    if ltb i 104
    then get_or (b'a' ∷ b'b' ∷ b'c' ∷ 0 ∷ []) (i - 100) 0
    else get_or (b'a' ∷ b'b' ∷ b'd' ∷ 0 ∷ []) (i - 200) 0

abc : CString words 100 (b'a' ∷ b'b' ∷ b'c' ∷ [])
abc = (
  refl,
  omega arith,
  omega arith,
  omega arith,
  (
    refl,
    omega arith,
    omega arith,
    omega arith,
    (refl, omega arith, omega arith, omega arith, refl),
  ),
)

abd : CString words 200 (b'a' ∷ b'b' ∷ b'd' ∷ [])
abd = (
  refl,
  omega arith,
  omega arith,
  omega arith,
  (
    refl,
    omega arith,
    omega arith,
    omega arith,
    (refl, omega arith, omega arith, omega arith, refl),
  ),
)

overlapping : slice (memmove 101 100 3 words) 100 4 ≡ b'a' ∷ b'a' ∷ b'b' ∷ b'c' ∷ []
unfolding memmove slice
overlapping = refl

reversed : strcmp 9 words 100 200 ≡ some (pos 1)
unfolding strcmp
reversed = refl

in_order : strncmp 9 words 100 200 ≡ negsuc 0
unfolding strncmp
in_order = refl

memmove_lem_example : memmove 101 100 3 words 103 ≡ b'c'
memmove_lem_example = memmove_lem 101 100 3 words (omega arith) (omega arith) (omega arith) 103
