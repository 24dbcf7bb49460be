-- ===== src/BootScreen/Cursor.antt =====
-- The cursor of the boot screen, and what a character writes.
use Prim.Native.Nat.{bit_or}
use mathlib.Core.Path.{subst}
use legendary_journey.Base.{
  ℕ, ◌+◌, ◌*◌, ◌%◌, ◌≤◌, ◌<◌, ◌≡◌, ◌≢◌, ◌∙◌, refl, sym, ap, false, List, [], ◌∷◌, arith, ◌==◌,
  Bool-cases, inl, inr, if_true, if_false, write,
}
use legendary_journey.BootScreen.{Console, widened, checkcur, putc, puts}

-- the next character goes to a cell of the screen
pub record Ready (s : Console) : Type 0 where
  pub column : s.curcol < 80
  pub row : s.currow < 25

checkcur-Ready : (s : Console) → s.curcol ≤ 80 → s.currow ≤ 25 → Ready (checkcur s)
unfolding checkcur
checkcur-Ready s col row = record { column = ground arith; row = ground arith }

-- the screen behind a line break, and behind any other character, before the cursor is looked at
abbrev new_line : Console → Console
new_line s = record s { curcol = 0; currow = (s.currow + 1) % 256 }

abbrev with_char : ℕ → Console → Console
with_char c s = record s {
  cells = write s.cells (s.currow * 80 + s.curcol) (bit_or (widened c) s.color);
  curcol = (s.curcol + 1) % 256;
}

putc-Ready : (c : ℕ) (s : Console) → Ready s → Ready (putc c s)
unfolding putc
putc-Ready c s ok = elim (Bool-cases (c == 10)) [
  | inl line ↦
      subst Ready (sym (ap checkcur (if_true _ _ line)))
        (checkcur-Ready (new_line s) (omega arith) (omega (arith, ok.row)))
  | inr other ↦
      subst Ready (sym (ap checkcur (if_false _ _ other)))
        (checkcur-Ready (with_char c s) (omega (arith, ok.column)) (omega (arith, ok.row)))
]

putc-outside : (c : ℕ) (s : Console) (i : ℕ) → Ready s → 2000 ≤ i → (putc c s).cells i ≡ s.cells i
unfolding putc checkcur
putc-outside c s i ok high =
    let there : i ≢ s.currow * 80 + s.curcol = omega (arith, ok.column, ok.row, high) in
    let away : (i == s.currow * 80 + s.curcol) ≡ false = ground (arith, there) in
    elim (Bool-cases (c == 10)) [
      | inl line ↦ ap (λ (t : Console). t.cells i) (ap checkcur (if_true _ _ line))
      | inr other ↦
          ap (λ (t : Console). t.cells i) (ap checkcur (if_false _ _ other)) ∙ if_false _ _ away
    ]

-- If the next character goes to a cell of the screen, it still does so after any text is printed,
-- and no word of memory behind the screen has changed.
pub puts-Ready :
    (cs : List ℕ) (s : Console)
    → Ready s
    → Ready (puts cs s) × ((i : ℕ) → 2000 ≤ i → (puts cs s).cells i ≡ s.cells i)
unfolding puts
puts-Ready [] s ok = (ok, λ i high. refl)
puts-Ready (c ∷ cs) s ok =
    let rest = puts-Ready cs (putc c s) (putc-Ready c s ok) in
    (rest.0, λ i high. rest.1 i high ∙ putc-outside c s i ok high)
