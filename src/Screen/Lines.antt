-- ===== src/Screen/Lines.antt =====
-- Scrolling, backspaces over the start of a line, and formats without conversions.
use legendary_journey.Base.{
  ℕ, zero, suc, ◌+◌, ◌-◌, ◌*◌, ◌%◌, ◌≤◌, ◌<◌, ◌^◌, ◌≡◌, ◌≢◌, ◌∙◌, sym, ap, true, false, ◌&&◌, some,
  List, [], ◌∷◌, arith, ltb, leb, ◌==◌, Bool-cases, inl, inr, if◌then◌else◌, if_true, if_false,
  lt→leb, Block, add32, sub32, length,
}
use legendary_journey.Std.Strings.{CString}
use legendary_journey.Screen.{
  Screen, cell, neg32, move_cursor, scroll, scroll_rows, scrolled, back_over, backspace, putc,
  putsn, recolored, copy_row, empty_char, cursor_color,
}
use mathlib.Core.Path.{subst}
use legendary_journey.Screen.Print.{printf, printf_loop}
use legendary_journey.Screen.Text.{write_ne}

scroll_rows_lem :
    (n row : ℕ) (cells : Block) (i : ℕ)
    → scroll_rows n row cells i
      ≡ (if leb (row * 80) i && ltb i ((row + n) * 80) then cells (i + 80) else cells i)
unfolding scroll_rows
scroll_rows_lem zero row cells i = ground arith
scroll_rows_lem (suc n) row cells i =
    ground (arith, scroll_rows_lem n (row + 1) (copy_row row cells) i)

-- Scrolling moves every line one up, clears the last line in the current color, and leaves the memory behind the screen alone.
pub scroll_lem :
    (s : Screen) (i : ℕ)
    → (scroll s).cells i
      ≡ (if ltb i 1920 then s.cells (i + 80) else if ltb i 2000 then cell 0 s.color else s.cells i)
unfolding scroll
scroll_lem s i =
    ap (λ (x : ℕ). if leb 1920 i && ltb i 2000 then cell 0 s.color else x)
      (scroll_rows_lem 24 0 s.cells i)
    ∙ choose i (cell 0 s.color) (s.cells (i + 80)) (s.cells i)
  where
    choose :
        (i blank below same : ℕ)
        → (if leb 1920 i && ltb i 2000
            then blank
            else if leb 0 i && ltb i 1920
            then below
            else same)
          ≡ (if ltb i 1920 then below else if ltb i 2000 then blank else same)
    choose i blank below same = ground arith

-- the last `n - k` of the `n` cells from `start` on are empty, and the one before them is not
pub record Ends (cells : Block) (start n k : ℕ) : Type 0 where
  pub inside : k ≤ n
  pub empty : (i : ℕ) → k ≤ i → i < n → cells (start + i) % 256 ≡ 0
  pub some_char : 0 < k → 0 < cells (start + (k - 1)) % 256

move_back-cells :
    (s : Screen) (i : ℕ)
    → 0 < s.cursor
    → s.cursor < 2000
    → i + 1 < s.cursor
    → (move_cursor (neg32 1) s).cells i ≡ s.cells i
unfolding move_cursor
move_back-cells s i some_before low h =
    let back : add32 s.cursor (neg32 1) ≡ s.cursor - 1 = omega arith in
    let cells' : Block = recolored s.cells s.cursor s.color in
    let cursor' : ℕ = add32 s.cursor (neg32 1) in
    write_ne cells' cursor' i (cell (cells' cursor' % 256) cursor_color) (omega (arith, back, h))
    ∙ write_ne s.cells s.cursor i (cell (s.cells s.cursor % 256) s.color) (omega (arith, h))

back_over-Ends :
    (n k start : ℕ) (s : Screen)
    → s.cursor ≡ start + n
    → s.cursor < 2000
    → Ends s.cells start n k
    → (back_over n start s).cursor ≡ start + k
unfolding back_over
back_over-Ends zero k start s at low ends = omega (arith, at, ends.inside)
back_over-Ends (suc n) k start s at low ends =
    let before : s.cursor - 1 ≡ start + n = omega (arith, at) in
    elim (Bool-cases (k == suc n)) [
      | inl full ↦
          let whole : k ≡ suc n = ground (arith, full) in
          let last_cell : start + (k - 1) ≡ s.cursor - 1 = omega (arith, whole, at) in
          let char : 0 < s.cells (s.cursor - 1) % 256 =
            rw⁻¹ last_cell (ends.some_char (omega (arith, whole))) in
          let stay : (ltb start s.cursor && (s.cells (s.cursor - 1) % 256 == empty_char)) ≡ false =
            ground (arith, char) in
          rw stay (omega (arith, at, whole))
      | inr shorter ↦
          let less : k ≤ n = ground (arith, shorter, ends.inside) in
          let char : s.cells (s.cursor - 1) % 256 ≡ 0 =
            ap (λ (i : ℕ). s.cells i % 256) before ∙ ends.empty n less (omega arith) in
          let go : (ltb start s.cursor && (s.cells (s.cursor - 1) % 256 == empty_char)) ≡ true =
            ground (arith, char, at) in
          let s' = move_cursor (neg32 1) s in
          rw go (
            back_over-Ends n k start s' (omega (arith, at)) (omega (arith, at, low)) (record {
              inside = less;
              empty = λ i h h'.
                  ap (λ (x : ℕ). x % 256)
                    (move_back-cells s (start + i) (omega (arith, at)) low (omega (arith, at, h')))
                  ∙ ends.empty i h (omega (arith, h'));
              some_char = λ h.
                  subst (λ (x : ℕ). 0 < x % 256)
                    (sym (
                      move_back-cells s (start + (k - 1)) (omega (arith, at)) low
                        (omega (arith, at, less, h))))
                    (ends.some_char h);
            }))
    ]

scrolled_inside : (s : Screen) → s.cursor < 2000 → scrolled s ≡ s
unfolding scrolled
scrolled_inside s low = if_false _ _ (lt→leb s.cursor 2000 low)

putc_back : (s : Screen) → 0 < s.cursor → putc 8 s ≡ scrolled (backspace s)
unfolding putc
putc_back s later =
    let not_first : (s.cursor == 0) ≡ false = ground (arith, later) in if_false _ _ not_first

backspace-cursor :
    (s : Screen)
    → s.cursor % 80 ≡ 0
    → (backspace s).cursor ≡ add32 (add32 (back_over 80 (sub32 s.cursor 80) s).cursor 1) (neg32 1)
unfolding backspace move_cursor
backspace-cursor s at =
    let start : (s.cursor % 80 == 0) ≡ true = ground (arith, at) in
    ap (λ (t : Screen). add32 t.cursor (neg32 1)) (if_true _ _ start)

-- A backspace at the start of a line moves the cursor behind the last character of the line above that is not empty.
-- In particular, it does not move it at all where that line is full.
pub backspace_lem :
    (s : Screen) (line k : ℕ)
    → s.cursor ≡ line * 80 + 80
    → s.cursor < 2000
    → Ends s.cells (line * 80) 80 k
    → (putc 8 s).cursor ≡ line * 80 + k
backspace_lem s line k at low ends =
    let above : sub32 s.cursor 80 ≡ line * 80 = omega (arith, at, low) in
    let ended : (back_over 80 (sub32 s.cursor 80) s).cursor ≡ line * 80 + k =
      ap (λ (x : ℕ). (back_over 80 x s).cursor) above
      ∙ back_over-Ends 80 k (line * 80) s at low ends in
    let moved : (backspace s).cursor ≡ line * 80 + k =
      backspace-cursor s (omega (arith, at)) ∙ omega (arith, ended, at, low, ends.inside) in
    ap (λ (t : Screen). t.cursor)
      (putc_back s (omega (arith, at))
        ∙ scrolled_inside (backspace s) (omega (arith, moved, at, low, ends.inside)))
    ∙ moved

-- the characters of a format without conversions
abbrev pub NoPercent : List ℕ → Type 0
NoPercent [] = Unit
NoPercent (c ∷ cs) = (c ≢ 37) × NoPercent cs

printf_loop_plain :
    (fuel : ℕ) (m : Block) (err format i : ℕ) (args : Block) (s : Screen) (cs : List ℕ)
    → CString m (format + i) cs
    → NoPercent cs
    → length cs < fuel
    → format + i < 2 ^ 32
    → printf_loop fuel m err format i args s ≡ some (putsn cs s)
unfolding printf_loop putsn
printf_loop_plain zero m err format i args s cs h plain enough low = absurd (omega arith)
printf_loop_plain (suc fuel) m err format i args s [] h plain enough low =
    let at : add32 format i ≡ format + i = omega arith in
    let ends : (m (add32 format i) == 0) ≡ true = ground (arith, at, h, ap m at) in if_true _ _ ends
printf_loop_plain (suc fuel) m err format i args s (c ∷ cs) (e, some_char, byte, fits, rest)
      (other, plain) enough low =
    let at : add32 format i ≡ format + i = omega arith in
    let char : m (add32 format i) ≡ c = ap m at ∙ e in
    let goes_on : (m (add32 format i) == 0) ≡ false = ground (arith, some_char, char) in
    let not_percent : (m (add32 format i) == 37) ≡ false = ground (arith, other, char) in
    let onward : format + i + 1 ≡ format + (i + 1) = omega arith in
    let rest' : CString m (format + (i + 1)) cs = rw onward at rest in
    if_false _ _ goes_on
    ∙ if_false _ _ not_percent
    ∙ ap (λ (x : ℕ). printf_loop fuel m err format (i + 1) args (putc x s)) char
    ∙ printf_loop_plain fuel m err format (i + 1) args (putc c s) cs rest' plain (omega arith)
        (omega arith)

-- A format without conversions is printed as it stands, within one round more than it has characters.
pub printf_lem :
    (fuel : ℕ) (m : Block) (err format : ℕ) (args : Block) (s : Screen) (cs : List ℕ)
    → CString m format cs
    → NoPercent cs
    → length cs < fuel
    → format < 2 ^ 32
    → printf fuel m err format args s ≡ some (putsn cs s)
unfolding printf
printf_lem fuel m err format args s cs h plain enough low =
    let start : format + 0 ≡ format = omega arith in
    let h' : CString m (format + 0) cs = rw start h in
    printf_loop_plain fuel m err format 0 args s cs h' plain enough (omega (arith, low))
