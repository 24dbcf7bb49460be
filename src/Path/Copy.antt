-- ===== src/Path/Copy.antt =====
-- What `path_copy` writes.
use legendary_journey.Base.{
  ℕ, ◌+◌, ◌-◌, ◌≤◌, ◌≡◌, ◌∙◌, ◌⊎◌, ◌&&◌, List, [], ◌∷◌, arith, ltb, leb, if◌then◌else◌, Block,
  write, add32, length, ℤ, pos, negsuc,
}
use legendary_journey.Errno.{enametoolong}
use legendary_journey.Std.Strings.{CString}
use legendary_journey.Path.{Paths}

-- the `n` cells from `a` on do not touch the `k` cells from `b` on
abbrev pub Apart : ℕ → ℕ → ℕ → ℕ → Type 0
Apart a n b k = (a + n ≤ b) ⊎ (b + k ≤ a)

-- memory with the `n` bytes of `m` from `source` on at `dest`
abbrev pub placed : Block → ℕ → ℕ → ℕ → Block
placed m source dest n i = if leb dest i && ltb i (dest + n) then m (source + (i - dest)) else m i

-- a string keeps its characters where the memory does
pub CString-same :
    (m m' : Block) (a : ℕ) (cs : List ℕ)
    → CString m a cs
    → ((i : ℕ) → a ≤ i → i ≤ a + length cs → m' i ≡ m i)
    → CString m' a cs
CString-same m m' a [] e same = same a (omega arith) (omega arith) ∙ e
CString-same m m' a (c ∷ cs) (e, some_char, byte, fits, rest) same = (
  same a (omega arith) (omega arith) ∙ e,
  some_char,
  byte,
  fits,
  CString-same m m' (a + 1) cs rest (λ i low high. same i (omega arith) (omega arith)),
)

-- the end of `path_copy`, from what its loop leaves
abbrev copied_to : ℕ → Paths → ℕ → Block → ℤ × Paths
copied_to dest s i m =
    if ltb 256 i
    then (negsuc 0, record s { mem = write m (add32 dest i) 0; errno = enametoolong })
    else (pos (i + 1), record s { mem = write m (add32 dest i) 0 })
