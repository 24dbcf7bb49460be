-- ===== src/Names.antt =====
-- src/kernel/disk/fat.c: the 8.3 names of directory entries, in one memory of bytes. Loops that end only
-- at a character take fuel, and `none` is a string that is longer than the fuel.
use legendary_journey.Base.{
  ℕ, zero, suc, ◌+◌, ◌-◌, ◌^◌, Bool, true, false, not, ◌&&◌, ◌||◌, Option, none, some, List, [],
  ◌∷◌, ltb, leb, ◌==◌, if◌then◌else◌, ◌>>=◌, has, Block, write, blit, add32, sub32, ℤ, pos, negsuc,
}
use legendary_journey.Std.{memset, strlen, strnchr, umin}
pub mod Part
pub mod Format
mod Tests

abbrev pub fat_filename_len : ℕ
fat_filename_len = 8

abbrev pub fat_fileext_len : ℕ
fat_fileext_len = 3

abbrev pub fat_filetotal_len : ℕ
fat_filetotal_len = fat_filename_len + fat_fileext_len

abbrev pub fat_default_filename_char : ℕ
fat_default_filename_char = 95

abbrev pub fat_default_filename_padding : ℕ
fat_default_filename_padding = 32

-- ".          "
abbrev pub fat_dot : List ℕ
fat_dot = 46 ∷ 32 ∷ 32 ∷ 32 ∷ 32 ∷ 32 ∷ 32 ∷ 32 ∷ 32 ∷ 32 ∷ 32 ∷ []

-- "..         "
abbrev pub fat_dotdot : List ℕ
fat_dotdot = 46 ∷ 46 ∷ 32 ∷ 32 ∷ 32 ∷ 32 ∷ 32 ∷ 32 ∷ 32 ∷ 32 ∷ 32 ∷ []

-- the characters of FAT_VALID_FILENAME_CHARS that are neither upper-case letters nor digits
abbrev pub fat_valid_marks : List ℕ
fat_valid_marks =
    33 ∷ 35 ∷ 36 ∷ 37 ∷ 38 ∷ 39 ∷ 40 ∷ 41 ∷ 45 ∷ 64 ∷ 94 ∷ 95 ∷ 96 ∷ 123 ∷ 125 ∷ 126 ∷ []

-- `strchr(FAT_VALID_FILENAME_CHARS, c)`
abbrev pub fat_valid : ℕ → Bool
fat_valid c = (leb 65 c && leb c 90) || ((leb 48 c && leb c 57) || has c fat_valid_marks)

-- a byte read as a signed `char`
abbrev pub signed_char : ℕ → ℤ
signed_char b = if ltb b 128 then pos b else negsuc (255 - b)

unfoldable pub fatformatchar : ℤ → ℕ
fatformatchar (pos c) =
    if fat_valid c || leb 128 c
    then c
    else if leb 97 c && leb c 122
    then c - 32
    else if c == 0xE5
    then 5
    else fat_default_filename_char
fatformatchar (negsuc c) = fat_default_filename_char

-- `while (*name == ' ') name++;`
unfoldable pub skip_spaces : ℕ → Block → ℕ → Option ℕ
skip_spaces zero m name = none
skip_spaces (suc fuel) m name =
    let rest = skip_spaces fuel m (add32 name 1) in if m name == 32 then rest else some name

-- `while (*name && max--)`
unfoldable pub format_loop : ℕ → ℕ → ℕ → Block → Block
unfolding fatformatchar
format_loop zero name dest m = m
format_loop (suc max) name dest m =
    let formatted = write m dest (fatformatchar (signed_char (m name))) in
    let rest = format_loop max (add32 name 1) (add32 dest 1) formatted in
    if m name == 0 then m else rest

-- `_fatformatfilename`, whose result is not used
unfoldable pub format_part : ℕ → ℕ → ℕ → ℕ → Block → Option Block
unfolding skip_spaces format_loop
format_part fuel name dest max m = do
  start ← skip_spaces fuel m name
  some (format_loop max start dest m)

-- `memcmp` with the bytes of a constant, equal
abbrev pub holds_bytes : Block → ℕ → List ℕ → Bool
holds_bytes m a [] = true
holds_bytes m a (c ∷ cs) = (m a == c) && holds_bytes m (a + 1) cs

-- the part of `fatformatfilename` behind the two special names
unfoldable pub format_parts : ℕ → ℕ → ℕ → ℕ → Block → Option Block
unfolding format_part strnchr strlen umin
format_parts fuel input inputlength output m =
    let dotlocation = strnchr inputlength m input 46 in
    let with_extension = (do
      m₁ ← format_part fuel (add32 dotlocation 1) (add32 output fat_filename_len) fat_fileext_len m
      behind ← strlen fuel m₁ dotlocation
      format_part fuel input output (umin fat_filename_len (sub32 inputlength behind)) m₁) in
    if dotlocation == 0
    then format_part fuel input output (umin fat_filename_len inputlength) m
    else with_extension

unfoldable pub fatformatfilename : ℕ → ℕ → ℕ → ℕ → Block → Option Block
unfolding format_parts memset
fatformatfilename fuel input inputlength output m =
    let m₁ = memset output fat_default_filename_padding fat_filetotal_len m in
    if holds_bytes m₁ input fat_dot || ((inputlength == 1) && (m₁ input == 46))
    then some (blit m₁ output fat_dot)
    else if holds_bytes m₁ input fat_dotdot
        || ((inputlength == 2) && ((m₁ input == 46) && (m₁ (input + 1) == 46)))
    then some (blit m₁ output fat_dotdot)
    else format_parts fuel input inputlength output m₁
