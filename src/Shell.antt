-- ===== src/Shell.antt =====
-- src/kernel/user/shell.c: the loop of `shell` that reads a command. The characters that
-- `kbd_getc_blocking` returns are a list; the echo on the screen is left out.
pub mod Line
pub mod Exec
pub mod Words
mod Whole
mod Tests
use legendary_journey.Base.{ℕ, ◌+◌, ◌-◌, List, [], ◌∷◌, leb, ltb, ◌==◌, if◌then◌else◌, Block, write}
use legendary_journey.Std.{isprint}

abbrev pub shell_max_cmd_len : ℕ
shell_max_cmd_len = 128

-- The command is too long; it is in the buffer; or the next character has not been typed.
pub data Input : Type 0 where
  too_long : Input
  command_ready : Block → Input
  waiting : Input

-- the loop at `cmd` and `cmd_idx`
unfoldable pub shell_loop : List ℕ → Block → ℕ → Input
shell_loop [] cmd cmd_idx = if leb shell_max_cmd_len cmd_idx then too_long else waiting
shell_loop (ch ∷ chs) cmd cmd_idx =
    let erased = shell_loop chs (write cmd (cmd_idx - 1) 0) (cmd_idx - 1) in
    let ignored = shell_loop chs cmd cmd_idx in
    let space = shell_loop chs (write cmd cmd_idx 32) (cmd_idx + 1) in
    let typed = shell_loop chs (write cmd cmd_idx ch) (cmd_idx + 1) in
    if leb shell_max_cmd_len cmd_idx
    then too_long
    else if ch == 10
    then command_ready (write cmd cmd_idx 0)
    else if ch == 8
    then if ltb 0 cmd_idx then erased else ignored
    else if ch == 9
    then space
    else if isprint ch
    then typed
    else ignored
