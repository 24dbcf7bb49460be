-- ===== src/Shell/Line.antt =====
-- The line that the keys make, and the string that the loop leaves.
use legendary_journey.Base.{
  ℕ, suc, ◌+◌, ◌-◌, ◌≤◌, ◌<◌, ◌≡◌, ◌≢◌, ◌∙◌, refl, ap, true, false, List, [], ◌∷◌, ◌++◌, arith, ltb,
  leb, ◌==◌, Bool-cases, inl, inr, if◌then◌else◌, Block, write, length,
}
use legendary_journey.Std.{isprint}
use legendary_journey.Std.Strings.{CString}
use legendary_journey.Shell.{shell_loop, command_ready, shell_max_cmd_len}

-- the line without its last character
abbrev pub erased : List ℕ → List ℕ
erased [] = []
erased (c ∷ cs) = cs

-- what one key does to the line, its last character first
unfoldable pub edit_key : ℕ → List ℕ → List ℕ
unfolding isprint
edit_key ch line =
    if ch == 8
    then erased line
    else if ch == 9
    then 32 ∷ line
    else if isprint ch
    then ch ∷ line
    else line

unfoldable pub edit : List ℕ → List ℕ → List ℕ
edit [] line = line
edit (ch ∷ chs) line = edit chs (edit_key ch line)

-- the line from its first character on, before `cs`
abbrev pub in_order : List ℕ → List ℕ → List ℕ
in_order [] cs = cs
in_order (c ∷ line) cs = in_order line (c ∷ cs)

-- no key of the list is the new line, and the line is never as long as the buffer
unfoldable pub Fits : List ℕ → List ℕ → Type 0
unfolding edit_key
Fits [] line = length line < shell_max_cmd_len
Fits (ch ∷ chs) line = (length line < shell_max_cmd_len) × (ch ≢ 10) × Fits chs (edit_key ch line)

-- the buffer holds the line
abbrev Stored : Block → List ℕ → Type 0
Stored cmd [] = Unit
Stored cmd (c ∷ line) = (cmd (length line) ≡ c) × (0 < c) × (c < 256) × Stored cmd line

Stored-write :
    (cmd : Block) (i x : ℕ) (line : List ℕ)
    → length line ≤ i
    → Stored cmd line
    → Stored (write cmd i x) line
Stored-write cmd i x [] h st = tt
Stored-write cmd i x (c ∷ line) h (e, some_char, byte, st) =
    (ground arith, some_char, byte, Stored-write cmd i x line (omega arith) st)

Stored-CString :
    (cmd : Block) (line cs : List ℕ)
    → length line < 256
    → Stored cmd line
    → CString cmd (length line) cs
    → CString cmd 0 (in_order line cs)
Stored-CString cmd [] cs h st str = str
Stored-CString cmd (c ∷ line) cs h (e, some_char, byte, st) str =
    let next : suc (length line) ≡ length line + 1 = omega arith in
    Stored-CString cmd line (c ∷ cs) (omega arith) st
      (e, some_char, byte, omega arith, rw⁻¹ next str)

Stored-erased :
    (cmd : Block) (line : List ℕ)
    → Stored cmd line
    → Stored (write cmd (length line - 1) 0) (erased line)
Stored-erased cmd [] st = tt
Stored-erased cmd (c ∷ line) (e, some_char, byte, st) =
    Stored-write cmd (suc (length line) - 1) 0 line (omega arith) st

-- One key takes the loop to the edited line.
Step : ℕ → List ℕ → Block → List ℕ → Type 0
Step ch tl cmd line =
    (cmd' : Block) × (shell_loop (ch ∷ tl) cmd (length line)
      ≡ shell_loop tl cmd' (length (edit_key ch line)))
    × Stored cmd' (edit_key ch line)

erase-Step :
    (ch : ℕ) (tl : List ℕ) (cmd : Block) (line : List ℕ)
    → length line < shell_max_cmd_len
    → (ch == 8) ≡ true
    → (ch == 10) ≡ false
    → Stored cmd line
    → Step ch tl cmd line
unfolding Step shell_loop edit_key
erase-Step ch tl cmd [] short is_back not_enter st =
    (cmd, rw (not_enter, is_back) refl, rw is_back tt)
erase-Step ch tl cmd (c ∷ line) short is_back not_enter st =
    let room : leb shell_max_cmd_len (suc (length line)) ≡ false = ground arith in
    let present : ltb 0 (suc (length line)) ≡ true = ground arith in
    let one_less : suc (length line) - 1 ≡ length line = omega arith in
    (
      write cmd (suc (length line) - 1) 0,
      rw (room, not_enter, is_back, present)
          (ap (shell_loop tl (write cmd (suc (length line) - 1) 0)) one_less),
      rw is_back (Stored-erased cmd (c ∷ line) st),
    )

key-Step :
    (ch : ℕ) (tl : List ℕ) (cmd : Block) (line : List ℕ)
    → length line < shell_max_cmd_len
    → (ch == 8) ≡ false
    → (ch == 10) ≡ false
    → Stored cmd line
    → Step ch tl cmd line
unfolding Step shell_loop edit_key isprint
key-Step ch tl cmd line short not_back not_enter st =
    let room : leb shell_max_cmd_len (length line) ≡ false = ground arith in
    let one_more : length line + 1 ≡ suc (length line) = omega arith in
    elim (Bool-cases (ch == 9)) [
      | inl tab ↦ (
        write cmd (length line) 32,
        rw (room, not_enter, not_back, tab)
            (ap (shell_loop tl (write cmd (length line) 32)) one_more),
        rw (not_back, tab)
            (
              ground arith,
              omega arith,
              omega arith,
              Stored-write cmd (length line) 32 line (omega arith) st,
            ),
      )
      | inr not_tab ↦ elim (Bool-cases (isprint ch)) [
        | inl shown ↦ (
          write cmd (length line) ch,
          rw (room, not_enter, not_back, not_tab, shown)
              (ap (shell_loop tl (write cmd (length line) ch)) one_more),
          rw (not_back, not_tab, shown)
              (
                ground arith,
                ground arith,
                ground arith,
                Stored-write cmd (length line) ch line (omega arith) st,
              ),
        )
        | inr hidden ↦ (
          cmd,
          rw (room, not_enter, not_back, not_tab, hidden) refl,
          rw (not_back, not_tab, hidden) st,
        )
      ]
    ]

loop_lem :
    (chs rest : List ℕ) (cmd : Block) (line : List ℕ)
    → Fits chs line
    → Stored cmd line
    → (cmd' : Block) × (shell_loop (chs ++ 10 ∷ rest) cmd (length line) ≡ command_ready cmd')
      × CString cmd' 0 (in_order (edit chs line) [])
unfolding shell_loop edit Fits Step
loop_lem [] rest cmd line fits st =
    let room : leb shell_max_cmd_len (length line) ≡ false = ground arith in
    (
      write cmd (length line) 0,
      rw room refl,
      Stored-CString (write cmd (length line) 0) line [] (omega arith)
          (Stored-write cmd (length line) 0 line (omega arith) st) (ground arith),
    )
loop_lem (ch ∷ chs) rest cmd line (short, not_enter, fits) st =
    let other : (ch == 10) ≡ false = ground (arith, not_enter) in
    let step : Step ch (chs ++ 10 ∷ rest) cmd line = elim (Bool-cases (ch == 8)) [
      | inl back ↦ erase-Step ch (chs ++ 10 ∷ rest) cmd line short back other st
      | inr key ↦ key-Step ch (chs ++ 10 ∷ rest) cmd line short key other st
    ] in
    let (cmd₁, run, st₁) = step in
    let (cmd', done, str) = loop_lem chs rest cmd₁ (edit_key ch line) fits st₁ in
    (cmd', run ∙ done, str)

-- `shell` reads a line of keys that ends with Enter, and is never as long as its buffer, to the end:
-- the buffer then holds, as a string, the line that those keys edit, where backspace takes the last
-- character away, a tab is a space, and keys without a printable character do nothing.
pub shell_loop_lem :
    (chs rest : List ℕ) (cmd : Block)
    → Fits chs []
    → (cmd' : Block) × (shell_loop (chs ++ 10 ∷ rest) cmd 0 ≡ command_ready cmd')
      × CString cmd' 0 (in_order (edit chs []) [])
shell_loop_lem chs rest cmd fits = loop_lem chs rest cmd [] fits tt
