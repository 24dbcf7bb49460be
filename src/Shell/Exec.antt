-- ===== src/Shell/Exec.antt =====
-- src/kernel/user/shell.c and shell_builtins.c: a command cut into its arguments, and the commands of the shell
-- itself. The command lies in a memory of bytes, and the arguments are addresses. What running a program does is a
-- parameter, and messages on the screen are left out. `none` is a string longer than the fuel.
use legendary_journey.Base.{
  ℕ, zero, suc, Bool, not, ◌&&◌, ◌||◌, Option, none, some, List, [], ◌∷◌, ◌++◌, leb, ◌==◌,
  if◌then◌else◌, ◌>>=◌, Block, write, add32, sub32, length, ℤ, pos, negsuc,
}
use legendary_journey.Errno.{e2big}
use legendary_journey.Std.{strchr, strlen}
use legendary_journey.Names.{holds_bytes}
use legendary_journey.Path.{Paths, path_max}
use legendary_journey.Path.Join.{path_load}

abbrev pub shell_max_args : ℕ
shell_max_args = 16

abbrev pub shell_fail : ℤ
shell_fail = negsuc 0

abbrev pub space : ℕ
space = 32

-- `while (*command == ' ') command++;`
unfoldable pub trim_start : ℕ → Block → ℕ → Option ℕ
trim_start zero m command = none
trim_start (suc fuel) m command =
    let rest = trim_start fuel m (add32 command 1) in
    if m command == space then rest else some command

-- `while (*back_iter == ' ')`
unfoldable pub trim_end : ℕ → ℕ → Block → Option Block
trim_end zero back_iter m = none
trim_end (suc fuel) back_iter m =
    let rest = trim_end fuel (sub32 back_iter 1) (write m back_iter 0) in
    if m back_iter == space then rest else some m

-- a quotation mark
abbrev pub quote : ℕ → Bool
quote c = (c == 39) || (c == 34)

-- The loop over the command, with at most `rounds` arguments. The first `none` is SHELL_FAIL.
unfoldable pub split_loop : ℕ → ℕ → ℕ → List ℕ → Paths → Option (Option (List ℕ) × Paths)
split_loop zero fuel cmd_iter argv st = none
split_loop (suc rounds) fuel cmd_iter argv st =
    let c = st.mem cmd_iter in
    let target = if quote c then c else space in
    let start = if quote c then add32 cmd_iter 1 else cmd_iter in
    let round = (do
      end ← strchr fuel st.mem start target
      let st' = if end == 0 then st else record st { mem = write st.mem end 0 }
      let next = if end == 0 then 0 else add32 end 1
      (let rest = split_loop rounds fuel next (argv ++ start ∷ []) st' in
          if (end == 0) && not (target == space)
          then some ((none, st))
          else if leb shell_max_args (length argv)
          then some ((none, record st' { errno = e2big }))
          else rest)) in
    if (cmd_iter == 0) || (c == 0) then some ((some argv, st)) else round

-- the functions of `shell_builtins`
pub data ShellBuiltin : Type 0 where
  shell_builtin_cd shell_builtin_clear : ShellBuiltin

-- `strcmp` with a constant, equal
unfoldable pub shell_check_builtin : Block → ℕ → Option ShellBuiltin
shell_check_builtin m name =
    if holds_bytes m name (99 ∷ 100 ∷ 0 ∷ [])
    then some shell_builtin_cd
    else if holds_bytes m name (99 ∷ 108 ∷ 101 ∷ 97 ∷ 114 ∷ 0 ∷ [])
    then some shell_builtin_clear
    else none

abbrev cd_result : ℤ → ℤ
cd_result (pos n) = pos 0
cd_result (negsuc n) = pos 1

-- `dir` is the address of `state.dir`.
unfoldable pub cd : ℕ → ℕ → List ℕ → Paths → Option (ℤ × Paths)
unfolding path_load
cd fuel dir (name ∷ path ∷ []) st = do
  (result, st') ← path_load fuel dir path dir path_max st
  some ((cd_result result, st'))
cd fuel dir argv st = some ((pos 1, st))

module _ (fuel dir : ℕ) (run : List ℕ → Paths → Option (ℤ × Paths)) where
  unfoldable pub call_builtin : ShellBuiltin → List ℕ → Paths → Option (ℤ × Paths)
  unfolding cd
  call_builtin shell_builtin_cd argv st = cd fuel dir argv st
  call_builtin shell_builtin_clear argv st = some ((pos 0, st))

  unfoldable pub shell_exec_args : List ℕ → Paths → Option (ℤ × Paths)
  unfolding shell_check_builtin call_builtin
  shell_exec_args [] st = some ((shell_fail, st))
  shell_exec_args (name ∷ argv) st = elim (shell_check_builtin st.mem name) [
    | none ↦ run (name ∷ argv) st
    | some builtin ↦ call_builtin builtin (name ∷ argv) st
  ]

  abbrev exec_split : Option (List ℕ) × Paths → Option (ℤ × Paths)
  exec_split (none, st) = some ((shell_fail, st))
  exec_split (some argv, st) = shell_exec_args argv st

  unfoldable pub shell_exec : ℕ → Paths → Option (ℤ × Paths)
  unfolding trim_start strlen trim_end split_loop shell_exec_args
  shell_exec command st = do
    start ← trim_start fuel st.mem command
    (if st.mem start == 0 then some ((shell_fail, st)) else (do
      command_len ← strlen fuel st.mem start
      m ← trim_end fuel (sub32 (add32 start command_len) 1) st.mem
      split ← split_loop fuel fuel start [] (record st { mem = m })
      exec_split split))
