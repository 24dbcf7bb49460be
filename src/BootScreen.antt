-- ===== src/BootScreen.antt =====
-- src/boot/stage2/write.c: the text screen of the second boot stage.
use Prim.Native.Nat.{bit_or}
use legendary_journey.Base.{
  ℕ, zero, suc, ◌+◌, ◌*◌, ◌%◌, ◌^◌, Bool, true, false, List, [], ◌∷◌, ltb, leb, ◌==◌, if◌then◌else◌,
  Block, write,
}
pub mod Cursor
mod Tests

abbrev pub scr_width : ℕ
scr_width = 80

abbrev pub scr_height : ℕ
scr_height = 25

-- the words of the video memory, the place of the next character, and the color in the high byte
pub record Console : Type 0 where
  pub cells : Block
  pub curcol : ℕ
  pub currow : ℕ
  pub color : ℕ

unfoldable pub checkcur : Console → Console
checkcur s =
    let over = leb scr_width s.curcol in
    let col = if over then 0 else s.curcol in
    let row = if over then (s.currow + 1) % 256 else s.currow in
    record s { curcol = col; currow = if leb scr_height row then 0 else row }

-- a `char` widened to 16 bits
abbrev pub widened : ℕ → ℕ
widened c = if ltb c 128 then c else c + 65280

unfoldable pub putc : ℕ → Console → Console
unfolding checkcur
putc chr s =
    let line = record s { curcol = 0; currow = (s.currow + 1) % 256 } in
    let at = s.currow * scr_width + s.curcol in
    let char = record s {
      cells = write s.cells at (bit_or (widened chr) s.color);
      curcol = (s.curcol + 1) % 256;
    } in
    checkcur (if chr == 10 then line else char)

-- the characters of a string before its null byte
unfoldable pub puts : List ℕ → Console → Console
unfolding putc
puts [] s = s
puts (c ∷ cs) s = puts cs (putc c s)

-- `puterr` of an error that can be recovered from; any other one stops the machine behind the message
unfoldable pub puterr : List ℕ → Console → Console
unfolding puts
puterr message s = record (puts message (record s { color = 0x1F00 })) { color = 0x0F00 }

unfoldable pub clrscr : Console → Console
clrscr s = record s {
  cells = λ i. if ltb i (scr_width * scr_height) then s.color else s.cells i;
  curcol = 0;
  currow = 0;
}
