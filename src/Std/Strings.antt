-- ===== src/Std/Strings.antt =====
-- Null-terminated strings in memory, and the functions that compare and measure them.
use legendary_journey.Base.{
  ℕ, zero, suc, ◌+◌, ◌-◌, ◌<◌, ◌^◌, ◌≡◌, ◌↔◌, ◌∙◌, refl, some, List, [], ◌∷◌, arith, ◌==◌,
  if◌then◌else◌, Block, add32, length, take, ℤ, pos, char_minus,
}
use legendary_journey.Std.{rounds, strlen_loop, strlen, strcmp, strncmp_loop, strncmp}

-- the string at an address: its characters, none of them 0, and then a 0
abbrev pub CString : Block → ℕ → List ℕ → Type 0
CString m a [] = m a ≡ 0
CString m a (c ∷ cs) = (m a ≡ c) × (0 < c) × (c < 256) × (a + 1 < 2 ^ 32) × CString m (a + 1) cs

-- The comparison of strings character by character, as signed characters, with the end as 0.
abbrev pub compare_chars : List ℕ → List ℕ → ℤ
compare_chars [] [] = pos 0
compare_chars [] (y ∷ ys) = char_minus 0 y
compare_chars (x ∷ xs) [] = char_minus x 0
compare_chars (x ∷ xs) (y ∷ ys) = if x == y then compare_chars xs ys else char_minus x y

-- all characters are bytes other than 0
abbrev pub Chars : List ℕ → Type 0
Chars [] = Unit
Chars (c ∷ cs) = (0 < c) × (c < 256) × Chars cs

pub CString-Chars : (m : Block) (a : ℕ) (cs : List ℕ) → CString m a cs → Chars cs
CString-Chars m a [] h = tt
CString-Chars m a (c ∷ cs) (e, some_char, byte, fits, rest) =
    (some_char, byte, CString-Chars m (a + 1) cs rest)

strlen_loop_lem :
    (fuel : ℕ) (m : Block) (a len : ℕ) (cs : List ℕ)
    → CString m (a + len) cs
    → length cs < fuel
    → a + len < 2 ^ 32
    → strlen_loop fuel m a len ≡ some (len + length cs)
unfolding strlen_loop
strlen_loop_lem zero m a len cs h enough fits = absurd (omega arith)
strlen_loop_lem (suc fuel) m a len [] h enough fits =
    let at : add32 a len ≡ a + len = omega arith in rw at (ground arith)
strlen_loop_lem (suc fuel) m a len (c ∷ cs) (e, some_char, byte, room, rest) enough fits =
    let at : add32 a len ≡ a + len = omega arith in
    let next : add32 len 1 ≡ len + 1 = omega arith in
    let onward : a + len + 1 ≡ a + (len + 1) = omega arith in
    let rest' : CString m (a + (len + 1)) cs = rw onward at rest in
    let more = strlen_loop_lem fuel m a (len + 1) cs rest' (omega arith) (omega arith) in
    rw (at, next, more) (ground arith)

-- `strlen` ends within one round more than the string has characters, and returns their number.
pub strlen_lem :
    (fuel : ℕ) (m : Block) (a : ℕ) (cs : List ℕ)
    → CString m a cs
    → length cs < fuel
    → a < 2 ^ 32
    → strlen fuel m a ≡ some (length cs)
unfolding strlen
strlen_lem fuel m a cs h enough fits =
    let at : a + 0 ≡ a = omega arith in
    let h' : CString m (a + 0) cs = rw at h in
    strlen_loop_lem fuel m a 0 cs h' enough (omega arith) ∙ ground arith

strcmp_run :
    (fuel : ℕ) (m : Block) (a b : ℕ) (s t : List ℕ)
    → CString m a s
    → CString m b t
    → length s < fuel
    → strcmp fuel m a b ≡ some (compare_chars t s)
unfolding strcmp
strcmp_run zero m a b s t hs ht enough = absurd (omega arith)
strcmp_run (suc fuel) m a b [] [] hs ht enough = ground arith
strcmp_run (suc fuel) m a b [] (y ∷ ys) hs ht enough = ground arith
strcmp_run (suc fuel) m a b (x ∷ xs) [] hs ht enough = ground arith
strcmp_run (suc fuel) m a b (x ∷ xs) (y ∷ ys) (e, some_char, byte, room, rest)
      (e', some_char', byte', room', rest') enough =
    let p : add32 a 1 ≡ a + 1 = omega arith in
    let q : add32 b 1 ≡ b + 1 = omega arith in
    rw (p, q, strcmp_run fuel m (a + 1) (b + 1) xs ys rest rest' (omega arith)) (ground arith)

compare_chars_zero : (s t : List ℕ) → Chars s → Chars t → (compare_chars s t ≡ pos 0) ↔ (s ≡ t)
compare_chars_zero [] [] hs ht = (λ _. refl, λ _. refl)
compare_chars_zero [] (y ∷ ys) hs ht = ground arith
compare_chars_zero (x ∷ xs) [] hs ht = ground arith
compare_chars_zero (x ∷ xs) (y ∷ ys) hs ht = ground (arith, compare_chars_zero xs ys hs.2 ht.2)

strncmp_run :
    (left : ℕ) (m : Block) (a b : ℕ) (s t : List ℕ)
    → CString m a s
    → CString m b t
    → strncmp_loop left m a b ≡ compare_chars (take (suc left) s) (take (suc left) t)
unfolding strncmp_loop
strncmp_run zero m a b [] [] hs ht = ground arith
strncmp_run zero m a b [] (y ∷ ys) hs ht = ground arith
strncmp_run zero m a b (x ∷ xs) [] hs ht = ground arith
strncmp_run zero m a b (x ∷ xs) (y ∷ ys) hs ht = ground arith
strncmp_run (suc left) m a b [] [] hs ht = ground arith
strncmp_run (suc left) m a b [] (y ∷ ys) hs ht = ground arith
strncmp_run (suc left) m a b (x ∷ xs) [] hs ht = ground arith
strncmp_run (suc left) m a b (x ∷ xs) (y ∷ ys) (e, some_char, byte, room, rest)
      (e', some_char', byte', room', rest') =
    let p : add32 a 1 ≡ a + 1 = omega arith in
    let q : add32 b 1 ≡ b + 1 = omega arith in
    rw (p, q, strncmp_run left m (a + 1) (b + 1) xs ys rest rest') (ground arith)

-- `strcmp` of two strings ends within one round more than the first has characters. Its result is 0
-- exactly if they are equal; otherwise it is the difference at the first place where they differ,
-- the second string's character less the first string's, as signed characters.
pub strcmp_lem :
    (fuel : ℕ) (m : Block) (a b : ℕ) (s t : List ℕ)
    → CString m a s
    → CString m b t
    → length s < fuel
    → (r : ℤ) × (strcmp fuel m a b ≡ some r) × (r ≡ compare_chars t s) × ((r ≡ pos 0) ↔ (t ≡ s))
strcmp_lem fuel m a b s t hs ht enough = (
  compare_chars t s,
  strcmp_run fuel m a b s t hs ht enough,
  refl,
  compare_chars_zero t s (CString-Chars m b t ht) (CString-Chars m a s hs),
)

-- `strncmp` of at least one character compares the first `n` characters of both strings: the first
-- string's character less the second string's, as signed characters, where they differ.
pub strncmp_lem :
    (n : ℕ) (m : Block) (a b : ℕ) (s t : List ℕ)
    → CString m a s
    → CString m b t
    → 0 < n
    → strncmp n m a b ≡ compare_chars (take n s) (take n t)
unfolding strncmp
strncmp_lem zero m a b s t hs ht n_pos = absurd (omega arith)
strncmp_lem (suc n) m a b s t hs ht n_pos =
    let left : rounds (suc n) - 1 ≡ n = ground arith in rw left (strncmp_run n m a b s t hs ht)
