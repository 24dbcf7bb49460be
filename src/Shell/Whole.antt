-- ===== src/Shell/Whole.antt =====
-- The whole of `shell_exec` on a command of plain words.
use mathlib.Core.Path.{subst}
use legendary_journey.Base.{
  ℕ, zero, suc, ◌+◌, ◌-◌, ◌≤◌, ◌<◌, ◌^◌, ◌≡◌, ◌∙◌, refl, sym, ap, false, Option, some, List, [],
  ◌∷◌, ◌++◌, append-nil, arith, ◌==◌, if_false, Block, add32, sub32, ℤ, length, length-append,
}
use legendary_journey.Std.{strlen}
use legendary_journey.Std.Strings.{CString, strlen_lem}
use legendary_journey.Path.{Paths}
use legendary_journey.Path.Next.{CString-behind}
use legendary_journey.Shell.Exec.{trim_start, trim_end, split_loop, shell_exec_args, shell_exec}
use legendary_journey.Shell.Words.{Word, Words, behind, starts, AreStrings, first_char, split-Words}

Word-last :
    (m : Block) (a : ℕ) (w : List ℕ) → CString m a w → Word w → (m (a + length w - 1) == 32) ≡ false
Word-last m a [] h (some_char, plain) = absurd (omega arith)
Word-last m a (c ∷ []) (e, positive, byte, fits, h) (some_char, (plain, others)) =
    let at : a + 1 - 1 ≡ a = omega arith in ap (λ (x : ℕ). m x == 32) at ∙ ground (arith, e, plain)
Word-last m a (c ∷ d ∷ cs) (e, positive, byte, fits, h) (some_char, (plain, others)) =
    let on : a + suc (suc (length cs)) - 1 ≡ a + 1 + suc (length cs) - 1 = omega arith in
    ap (λ (x : ℕ). m x == 32) on ∙ Word-last m (a + 1) (d ∷ cs) h (omega arith, others)

-- The last character of the line is no space.
line_last :
    (m : Block) (a : ℕ) (w : List ℕ) (ws : List (List ℕ))
    → CString m a (w ++ behind ws)
    → Words (w ∷ ws)
    → a < 2 ^ 32
    → (m (a + length (w ++ behind ws) - 1) == 32) ≡ false
line_last m a w [] h (word, _) small =
    let whole = append-nil w in
    ap (λ (l : List ℕ). m (a + length l - 1) == 32) whole
    ∙ Word-last m a w (subst (λ (l : List ℕ). CString m a l) whole h) word
line_last m a w (v ∷ vs) h (word, words) small =
    let b = CString-behind m a w (behind (v ∷ vs)) h small in
    let count = length-append w (behind (v ∷ vs)) in
    let on : a + length (w ++ behind (v ∷ vs)) - 1
        ≡ a + length w + 1 + length (v ++ behind vs) - 1 =
      omega (arith, count) in
    ap (λ (x : ℕ). m x == 32) on
    ∙ line_last m (a + length w + 1) v vs b.0.4 words (omega (arith, b.0.3))

length-behind : (ws : List (List ℕ)) → length ws ≤ length (behind ws)
length-behind [] = omega arith
length-behind (w ∷ ws) = omega (arith, length-behind ws, length-append w (behind ws))

trim_start_none :
    (fuel : ℕ) (m : Block) (a : ℕ) → (m a == 32) ≡ false → 0 < fuel → trim_start fuel m a ≡ some a
unfolding trim_start
trim_start_none zero m a plain enough = absurd (omega arith)
trim_start_none (suc fuel) m a plain enough = if_false _ _ plain

trim_end_none :
    (fuel : ℕ) (m : Block) (a : ℕ) → (m a == 32) ≡ false → 0 < fuel → trim_end fuel a m ≡ some m
unfolding trim_end
trim_end_none zero m a plain enough = absurd (omega arith)
trim_end_none (suc fuel) m a plain enough = if_false _ _ plain

-- The steps of `shell_exec`, put together.
exec_steps :
    (fuel dir : ℕ) (run : List ℕ → Paths → Option (ℤ × Paths)) (command n : ℕ) (st : Paths)
    (argv : List ℕ) (st' : Paths)
    → trim_start fuel st.mem command ≡ some command
    → (st.mem command == 0) ≡ false
    → strlen fuel st.mem command ≡ some n
    → trim_end fuel (sub32 (add32 command n) 1) st.mem ≡ some st.mem
    → split_loop fuel fuel command [] st ≡ some (some argv, st')
    → shell_exec fuel dir run command st ≡ shell_exec_args fuel dir run argv st'
unfolding shell_exec
exec_steps fuel dir run command n st argv st' first some_char size last split =
    rw (first, some_char, size, last, split) refl

-- For a command of at most 16 words with one space between two of them and none around them,
-- and with no quotation marks, `shell_exec` runs the command with exactly these words as its arguments:
-- the arguments are the addresses where the words stood, and a string of its own stands at each. One round
-- more than the command has characters is enough fuel.
pub shell_exec_lem :
    (fuel dir : ℕ) (run : List ℕ → Paths → Option (ℤ × Paths)) (command : ℕ) (st : Paths)
    (w : List ℕ) (ws : List (List ℕ))
    → CString st.mem command (w ++ behind ws)
    → Words (w ∷ ws)
    → 0 < command
    → command < 2 ^ 32
    → length ws < 16
    → length (w ++ behind ws) < fuel
    → (m : Block) × (shell_exec fuel dir run command st
        ≡ shell_exec_args fuel dir run (starts command (w ∷ ws)) (record st { mem = m }))
      × AreStrings m command (w ∷ ws)
      × ((i : ℕ) → i < command → m i ≡ st.mem i)
shell_exec_lem fuel dir run command st w ws h words some_address small few enough =
    let (no_quote, some_char, no_space) = first_char st.mem command w (behind ws) h words.0 in
    let line = w ++ behind ws in
    let count = length-append w (behind ws) in
    let c =
      split-Words fuel fuel command [] st w ws h words some_address small (omega (arith, few))
        enough (omega (arith, length-behind ws, count, enough, words.0.0)) in
    let fits =
      (CString-behind st.mem command line []
        (subst (λ (l : List ℕ). CString st.mem command l) (sym (append-nil line)) h) small).1 in
    let end : sub32 (add32 command (length line)) 1 ≡ command + length line - 1 =
      omega (arith, fits, some_address) in
    let last = line_last st.mem command w ws h words small in
    (
      c.mem,
      exec_steps fuel dir run command (length line) st (starts command (w ∷ ws))
          (record st { mem = c.mem }) (trim_start_none fuel st.mem command no_space (omega arith))
          some_char (strlen_lem fuel st.mem command line h enough small)
          (ap (λ (e : ℕ). trim_end fuel e st.mem) end
            ∙ trim_end_none fuel st.mem (command + length line - 1) last (omega arith))
          c.run,
      c.strings,
      c.kept,
    )
