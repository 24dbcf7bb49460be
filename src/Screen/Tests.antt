-- ===== src/Screen/Tests.antt =====
-- Theorems of the screen at concrete screens.
use legendary_journey.Base.{
  ℕ, ◌≤◌, ◌-◌, ◌≡◌, true, List, [], ◌∷◌, ◌++◌, arith, ltb, if◌then◌else◌, Block, write, length,
}
use legendary_journey.Screen.{Screen, cell, scroll, putc}
use legendary_journey.Screen.Print.{number_text}
use legendary_journey.Screen.Bounds.{OnScreen, putc-OnScreen}
use legendary_journey.Screen.Number.{AllDigits, Shortest, spelled, repeated, number_text_lem}
use legendary_journey.Screen.Lines.{scroll_lem}

-- an empty screen, white on black
abbrev screen : ℕ → Screen
screen cursor = record { cells = λ _. 3840; cursor = cursor; color = 15 }

-- "hi"
abbrev text : List ℕ
text = 104 ∷ 105 ∷ []

abbrev memory : Block
memory = write (write (λ _. 0) 10 104) 11 105

putc-OnScreen_example : OnScreen (putc 10 (screen 1999))
putc-OnScreen_example = putc-OnScreen 10 (screen 1999) (omega arith)

number_text_lem_example :
    (ds : List ℕ) × AllDigits 10 ds
    × Shortest ds
    × (spelled 10 0 ds ≡ 42)
    × (number_text 4294967254 10 true 6 ≡ repeated (6 - length (45 ∷ ds)) 32 ++ (45 ∷ ds))
    × (length (number_text 4294967254 10 true 6) ≤ 32)
number_text_lem_example =
    number_text_lem 4294967254 10 true 6 (omega arith) (omega arith) (omega arith)

scroll_lem_example :
    (scroll (screen 0)).cells 1925
    ≡ (if ltb 1925 1920 then 3840 else if ltb 1925 2000 then cell 0 15 else 3840)
scroll_lem_example = scroll_lem (screen 0) 1925

-- a first line that is full
abbrev full : Screen
full = record { cells = λ _. 3905; cursor = 80; color = 15 }
