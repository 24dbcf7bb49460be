-- ===== src/Screen/Text.antt =====
-- Printing of a text that fits on the screen.
use legendary_journey.Base.{
  ℕ, zero, suc, ◌+◌, ◌*◌, ◌%◌, ◌≤◌, ◌<◌, ◌≡◌, ◌∙◌, refl, ap, false, List, [], ◌∷◌, arith, leb, ◌==◌,
  ◌⊎◌, Block, write, add32, length, get_or, bit_or_shift,
}
use legendary_journey.Screen.{
  Screen, cell, move_cursor, scrolled, putc, putsn, recolored, cursor_color, char16,
}

-- the characters that `putc` writes as they are
abbrev pub Plain : List ℕ → Type 0
Plain [] = Unit
Plain (c ∷ cs) = (32 ≤ c) × (c < 128) × Plain cs

-- a character below the last cell
putc_plain :
    (c : ℕ) (s : Screen)
    → 32 ≤ c
    → s.cursor + 1 < 2000
    → putc c s ≡ move_cursor 1 (record s { cells = write s.cells s.cursor (cell c s.color) })
unfolding putc scrolled move_cursor
putc_plain c s shown room =
    let line : (c == 10) ≡ false = ground arith in
    let back : (c == 8) ≡ false = ground arith in
    let tab : (c == 9) ≡ false = ground arith in
    let return : (c == 13) ≡ false = ground arith in
    let on : leb 2000 (add32 s.cursor 1) ≡ false = ground arith in
    rw (line, back, tab, return, on) refl

cell_plain : (c color : ℕ) → c < 128 → cell c color ≡ c + color * 256
unfolding cell
cell_plain c color ascii =
    let same : char16 c ≡ c = ground arith in rw same (bit_or_shift 8 c color (omega arith))

write_at : (f : Block) (a v : ℕ) → write f a v a ≡ v
write_at f a v = ground arith

pub write_ne : (f : Block) (a i v : ℕ) → (i < a) ⊎ (a < i) → write f a v i ≡ f i
write_ne f a i v h = ground arith

-- what one plain character does to the cells
cells_plain :
    (c : ℕ) (s : Screen) (i : ℕ)
    → c < 128
    → s.cursor + 1 < 2000
    → s.color < 256
    → let s' = move_cursor 1 (record s { cells = write s.cells s.cursor (cell c s.color) }) in
      (s'.cells s.cursor ≡ cell c s.color)
      × ((i < s.cursor) ⊎ (s.cursor + 1 < i) → s'.cells i ≡ s.cells i)
unfolding move_cursor
cells_plain c s i ascii room byte =
    let next : add32 s.cursor 1 ≡ s.cursor + 1 = omega arith in
    let byte_of : cell c s.color % 256 ≡ c = omega (arith, cell_plain c s.color ascii) in
    let written : Block = write s.cells s.cursor (cell c s.color) in
    let there : recolored written s.cursor s.color s.cursor ≡ cell c s.color =
      write_at written s.cursor (cell (written s.cursor % 256) s.color)
      ∙ ap (λ (x : ℕ). cell (x % 256) s.color) (write_at s.cells s.cursor (cell c s.color))
      ∙ ap (λ (x : ℕ). cell x s.color) byte_of in
    let cursor' : ℕ = add32 s.cursor 1 in
    let last_cell : Block = recolored written s.cursor s.color in
    (
      write_ne last_cell cursor' s.cursor (cell (last_cell cursor' % 256) cursor_color)
            (omega (arith, next))
          ∙ there,
      λ h.
          write_ne last_cell cursor' i (cell (last_cell cursor' % 256) cursor_color)
            (omega (arith, next, h))
          ∙ write_ne written s.cursor i (cell (written s.cursor % 256) s.color) (omega (arith, h))
          ∙ write_ne s.cells s.cursor i (cell c s.color) (omega (arith, h)),
    )

-- The cells of a text from those of its head and of its tail.
from_head :
    (f : Block) (at color c : ℕ) (cs : List ℕ)
    → f at ≡ cell c color
    → ((i : ℕ) → i < length cs → f (add32 at 1 + i) ≡ cell (get_or cs i 0) color)
    → at < 2000
    → (i : ℕ) → i < length (c ∷ cs)
    → f (at + i) ≡ cell (get_or (c ∷ cs) i 0) color
from_head f at color c cs here rest low zero h =
    let start : at + 0 ≡ at = omega arith in ap f start ∙ here
from_head f at color c cs here rest low (suc i) h =
    let next : at + suc i ≡ add32 at 1 + i = omega arith in ap f next ∙ rest i (omega arith)

-- A text of plain characters that ends before the last cell leaves its characters, in the current color, in the cells from the
-- cursor on, and the cursor behind them. No cell before the cursor or behind the new one changes.
putsn_lem :
    (cs : List ℕ) (s : Screen)
    → Plain cs
    → s.cursor + length cs < 2000
    → s.color < 256
    → ((putsn cs s).cursor ≡ s.cursor + length cs)
      × ((putsn cs s).color ≡ s.color)
      × ((i : ℕ) → i < length cs → (putsn cs s).cells (s.cursor + i) ≡ cell (get_or cs i 0) s.color)
      × ((i : ℕ) → (i < s.cursor) ⊎ (s.cursor + length cs < i) → (putsn cs s).cells i ≡ s.cells i)
unfolding putsn
putsn_lem [] s plain room byte = (omega arith, refl, λ i h. absurd (omega arith), λ i h. refl)
putsn_lem (c ∷ cs) s (shown, ascii, plain) room byte =
    let s' = move_cursor 1 (record s { cells = write s.cells s.cursor (cell c s.color) }) in
    let next : add32 s.cursor 1 ≡ s.cursor + 1 = omega arith in
    let rest = putsn_lem cs s' plain (omega arith) byte in
    let first : putsn cs (putc c s) ≡ putsn cs s' =
      ap (putsn cs) (putc_plain c s shown (omega arith)) in
    let here : (putsn cs s').cells s.cursor ≡ cell c s.color =
      rest.3 s.cursor (omega (arith, next)) ∙ (cells_plain c s 0 ascii (omega arith) byte).0 in
    (
      ap (λ (t : Screen). t.cursor) first ∙ rest.0 ∙ omega arith,
      ap (λ (t : Screen). t.color) first ∙ rest.1,
      λ i h.
          ap (λ (t : Screen). t.cells (s.cursor + i)) first
          ∙ from_head (putsn cs s').cells s.cursor s.color c cs here rest.2 (omega arith) i h,
      λ i h.
          ap (λ (t : Screen). t.cells i) first
          ∙ rest.3 i (omega (arith, h, next))
          ∙ (cells_plain c s i ascii (omega arith) byte).1 (omega arith),
    )
