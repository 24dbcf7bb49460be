-- ===== src/Screen/Bounds.antt =====
-- Where the cursor and the writes of the screen are.
use legendary_journey.Base.{
  ℕ, zero, suc, ◌-◌, ◌%◌, ◌≤◌, ◌<◌, ◌≡◌, ◌&&◌, List, [], ◌∷◌, arith, ltb, ◌==◌, Bool-cases, inl,
  inr, write, add32, sub32,
}
use legendary_journey.Screen.{
  Screen, cell, neg32, move_cursor, scroll, scrolled, back_over, backspace, putc, putsn,
  screen_width, tab_width, empty_char,
}

-- the cursor is on the screen
abbrev pub OnScreen : Screen → Type 0
OnScreen s = s.cursor < 2000

back_over-cursor :
    (n start : ℕ) (s : Screen)
    → start ≤ s.cursor
    → s.cursor < 2000
    → (start ≤ (back_over n start s).cursor) × ((back_over n start s).cursor ≤ s.cursor)
unfolding back_over move_cursor
back_over-cursor zero start s low high = (low, omega arith)
back_over-cursor (suc n) start s low high =
    elim (Bool-cases (ltb start s.cursor && (s.cells (s.cursor - 1) % 256 == empty_char))) [
      | inl go ↦
          let back : add32 s.cursor (neg32 1) ≡ s.cursor - 1 = ground (arith, go) in
          let rest =
            back_over-cursor n start (move_cursor (neg32 1) s) (ground (arith, go, back))
              (ground (arith, back)) in
          rw go (ground (arith, rest.0), ground (arith, rest.1, back))
      | inr stay ↦ rw stay (low, omega arith)
    ]

scrolled-OnScreen : (s : Screen) → s.cursor < 2080 → OnScreen (scrolled s)
unfolding scrolled move_cursor scroll
scrolled-OnScreen s h = ground arith

back_over-line :
    (s : Screen)
    → OnScreen s
    → 0 < s.cursor
    → s.cursor % 80 ≡ 0
    → (back_over screen_width (sub32 s.cursor screen_width) s).cursor < 2000
back_over-line s h some_before start =
    let above : sub32 s.cursor screen_width ≡ s.cursor - 80 =
      omega (arith, h, some_before, start) in
    let low : sub32 s.cursor screen_width ≤ s.cursor = omega (arith, above) in
    omega (arith, (back_over-cursor screen_width (sub32 s.cursor screen_width) s low h).1, h)

backspace-OnScreen : (s : Screen) → OnScreen s → 0 < s.cursor → (backspace s).cursor < 2080
unfolding backspace move_cursor
backspace-OnScreen s h some_before = elim (Bool-cases (s.cursor % 80 == 0)) [
  | inl start ↦
      let at : s.cursor % 80 ≡ 0 = ground (arith, start) in
      rw start (omega (arith, back_over-line s h some_before at))
  | inr inside ↦ rw inside (omega (arith, h, some_before))
]

-- Whatever the character, `putc` leaves a cursor that is on the screen on the screen.
pub putc-OnScreen : (c : ℕ) (s : Screen) → OnScreen s → OnScreen (putc c s)
unfolding putc move_cursor
putc-OnScreen c s h =
    let line =
      move_cursor (neg32 ((move_cursor screen_width s).cursor % screen_width))
        (move_cursor screen_width s) in
    let tab =
      move_cursor (neg32 ((move_cursor tab_width s).cursor % tab_width))
        (move_cursor tab_width s) in
    let return = move_cursor (neg32 (s.cursor % screen_width)) s in
    let next = move_cursor 1 (record s { cells = write s.cells s.cursor (cell c s.color) }) in
    elim (Bool-cases (c == 10)) [
      | inl e ↦ rw e (scrolled-OnScreen line (omega (arith, h)))
      | inr not_line ↦ elim (Bool-cases (c == 8)) [
        | inl e ↦ elim (Bool-cases (s.cursor == 0)) [
          | inl first ↦ rw (not_line, e, first) h
          | inr later ↦
              rw (not_line, e, later)
                (scrolled-OnScreen (backspace s) (backspace-OnScreen s h (ground (arith, later))))
        ]
        | inr not_back ↦ elim (Bool-cases (c == 9)) [
          | inl e ↦ rw (not_line, not_back, e) (scrolled-OnScreen tab (omega (arith, h)))
          | inr not_tab ↦ elim (Bool-cases (c == 13)) [
            | inl e ↦
                rw (not_line, not_back, not_tab, e) (scrolled-OnScreen return (omega (arith, h)))
            | inr not_return ↦
                rw (not_line, not_back, not_tab, not_return)
                  (scrolled-OnScreen next (omega (arith, h)))
          ]
        ]
      ]
    ]

pub putsn-OnScreen : (cs : List ℕ) (s : Screen) → OnScreen s → OnScreen (putsn cs s)
unfolding putsn
putsn-OnScreen [] s h = h
putsn-OnScreen (c ∷ cs) s h = putsn-OnScreen cs (putc c s) (putc-OnScreen c s h)
