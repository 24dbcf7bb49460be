-- ===== src/Shell/Tests.antt =====
-- A line typed at the shell.
use legendary_journey.Base.{
  ℕ, ◌<◌, ◌≡◌, refl, Option, some, [], ◌∷◌, List, arith, Block, blit, ℤ, pos,
}
use legendary_journey.Errno.{no_error}
use legendary_journey.Path.{Paths}
use legendary_journey.Shell.Exec.{split_loop, shell_exec, shell_exec_args}
use legendary_journey.Shell.Words.{AreStrings}
use legendary_journey.Shell.Whole.{shell_exec_lem}
use legendary_journey.Std.{isprint, strchr}
use legendary_journey.Std.Strings.{CString}
use legendary_journey.Shell.{shell_loop, command_ready}
use legendary_journey.Shell.Line.{Fits, edit, edit_key, shell_loop_lem}

-- l, p, backspace, s, Enter
shell_loop_lem_example :
    (cmd' : Block) × (shell_loop (b'l' ∷ b'p' ∷ 8 ∷ b's' ∷ 10 ∷ []) (λ _. 0) 0 ≡ command_ready cmd')
    × CString cmd' 0 (b'l' ∷ b's' ∷ [])
unfolding edit edit_key Fits isprint
shell_loop_lem_example =
    shell_loop_lem (b'l' ∷ b'p' ∷ 8 ∷ b's' ∷ []) [] (λ _. 0)
      (
        omega arith,
        λ e. absurd (omega arith),
        (
          omega arith,
          λ e. absurd (omega arith),
          (
            omega arith,
            λ e. absurd (omega arith),
            (omega arith, λ e. absurd (omega arith), omega arith),
          ),
        ),
      )

-- "ls a" at address 100, and "a  b" at 200
abbrev typed : Paths
typed = record {
  mem = blit (blit (λ _. 0) 100 (b'l' ∷ b's' ∷ 32 ∷ b'a' ∷ [])) 200 (b'a' ∷ 32 ∷ 32 ∷ b'b' ∷ []);
  errno = no_error;
}

abbrev run : List ℕ → Paths → Option (ℤ × Paths)
run argv st = some ((pos 0, st))

shell_exec_lem_example :
    (m : Block) × (shell_exec 5 1000 run 100 typed
      ≡ shell_exec_args 5 1000 run (100 ∷ 103 ∷ []) (record typed { mem = m }))
    × AreStrings m 100 ((b'l' ∷ b's' ∷ []) ∷ (b'a' ∷ []) ∷ [])
    × ((i : ℕ) → i < 100 → m i ≡ typed.mem i)
unfolding blit
shell_exec_lem_example =
    shell_exec_lem 5 1000 run 100 typed (b'l' ∷ b's' ∷ []) ((b'a' ∷ []) ∷ []) (omega arith)
      ((omega arith, omega arith), ((omega arith, omega arith), tt)) (omega arith) (omega arith)
      (omega arith) (omega arith)

-- Two spaces in a row give an empty argument between them.
abbrev arguments : Option (Option (List ℕ) × Paths) → Option (List ℕ)
arguments (some (some argv, st)) = some argv
arguments o = some []

empty_argument : arguments (split_loop 9 9 200 [] typed) ≡ some (200 ∷ 202 ∷ 203 ∷ [])
unfolding split_loop blit strchr
empty_argument = refl
