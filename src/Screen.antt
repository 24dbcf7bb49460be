-- ===== src/Screen.antt =====
-- src/kernel/graphics/printf.c: the text screen, its cursor and what is printed on it.
use Prim.Native.Nat.{bit_or}
use legendary_journey.Base.{
  ℕ, zero, suc, ◌+◌, ◌-◌, ◌*◌, ◌/◌, ◌%◌, ◌^◌, Bool, true, false, ◌&&◌, List, [], ◌∷◌, ltb, leb,
  ◌==◌, if◌then◌else◌, Block, write, add32, sub32, min, length,
}
pub mod Print
pub mod Bounds
pub mod Number
pub mod Text
pub mod Lines
mod Tests

abbrev pub screen_width : ℕ
screen_width = 80

abbrev pub screen_height : ℕ
screen_height = 25

abbrev pub empty_char : ℕ
empty_char = 0

abbrev pub tab_width : ℕ
tab_width = 4

-- `COLOR(0, CURSOR_COLOR)`
abbrev pub cursor_color : ℕ
cursor_color = 48

-- the words of the video memory, the position of the cursor and the color of what is written
pub record Screen : Type 0 where
  pub cells : Block
  pub cursor : ℕ
  pub color : ℕ

-- a `char` as a 16-bit word: its sign is extended
abbrev pub char16 : ℕ → ℕ
char16 c = if ltb c 128 then c else c + 65280

-- `c | color << 8` in a 16-bit word
unfoldable pub cell : ℕ → ℕ → ℕ
cell c color = bit_or (char16 c) (color * 256)

-- `-x` as a 32-bit word
abbrev pub neg32 : ℕ → ℕ
neg32 x = sub32 0 x

-- the word with the color of its character replaced
abbrev pub recolored : Block → ℕ → ℕ → Block
recolored cells at color = write cells at (cell (cells at % 256) color)

unfoldable pub move_cursor : ℕ → Screen → Screen
move_cursor delta s =
    let cells = recolored s.cells s.cursor s.color in
    let cursor = add32 s.cursor delta in
    record s { cells = recolored cells cursor cursor_color; cursor = cursor }

-- one row becomes the row below it
abbrev pub copy_row : ℕ → Block → Block
copy_row row cells i =
    if leb (row * screen_width) i && ltb i (row * screen_width + screen_width)
    then cells (i + screen_width)
    else cells i

unfoldable pub scroll_rows : ℕ → ℕ → Block → Block
scroll_rows zero row cells = cells
scroll_rows (suc n) row cells = scroll_rows n (row + 1) (copy_row row cells)

unfoldable pub scroll : Screen → Screen
unfolding scroll_rows cell
scroll s =
    let cells = scroll_rows (screen_height - 1) 0 s.cells in
    let last_row = (screen_height - 1) * screen_width in
    record s {
      cells = λ i.
          if leb last_row i && ltb i (last_row + screen_width)
          then cell empty_char s.color
          else cells i;
    }

unfoldable pub printf_clear : Screen → Screen
printf_clear s = record s {
  cells = λ i. if ltb i (screen_width * screen_height) then s.color * 256 else s.cells i;
  cursor = 0;
}

-- the loop of a backspace at the start of a line: back over the empty cells of the line above
unfoldable pub back_over : ℕ → ℕ → Screen → Screen
unfolding move_cursor
back_over zero prev_line_start s = s
back_over (suc n) prev_line_start s =
    let rest = back_over n prev_line_start (move_cursor (neg32 1) s) in
    if ltb prev_line_start s.cursor && (s.cells (s.cursor - 1) % 256 == empty_char) then rest else s

-- the case of a backspace
unfoldable pub backspace : Screen → Screen
unfolding back_over move_cursor cell
backspace s =
    let above = back_over screen_width (sub32 s.cursor screen_width) s in
    let from =
      if s.cursor % screen_width == 0 then record above { cursor = add32 above.cursor 1 } else s in
    move_cursor (neg32 1)
      (record from { cells = write from.cells (from.cursor - 1) (cell empty_char from.color) })

-- the scroll that follows a character
unfoldable pub scrolled : Screen → Screen
unfolding scroll move_cursor
scrolled s =
    let s' = scroll s in
    if leb (screen_height * screen_width) s.cursor
    then move_cursor (sub32 (screen_width * (screen_height - 1)) s'.cursor) s'
    else s

unfoldable pub putc : ℕ → Screen → Screen
unfolding move_cursor backspace scrolled cell
putc c s =
    let line = move_cursor screen_width s in
    let tab = move_cursor tab_width s in
    if c == 10
    then scrolled (move_cursor (neg32 (line.cursor % screen_width)) line)
    else if c == 8
    then (if s.cursor == 0 then s else scrolled (backspace s))
    else if c == 9
    then scrolled (move_cursor (neg32 (tab.cursor % tab_width)) tab)
    else if c == 13
    then scrolled (move_cursor (neg32 (s.cursor % screen_width)) s)
    else scrolled (move_cursor 1 (record s { cells = write s.cells s.cursor (cell c s.color) }))

-- the characters of a list, one after the other: `putsn`, and the loop of `puts`
unfoldable pub putsn : List ℕ → Screen → Screen
unfolding putc
putsn [] s = s
putsn (c ∷ cs) s = putsn cs (putc c s)

unfoldable pub puts : List ℕ → Screen → Screen
unfolding putsn
puts str s = putc 10 (putsn str s)

abbrev pub printfcolor : ℕ → Screen → Screen
printfcolor color s = record s { color = color }
