-- ===== src/Std/Move.antt =====
-- What the copying functions leave in memory.
use legendary_journey.Base.{
  ℕ, zero, suc, ◌+◌, ◌-◌, ◌≤◌, ◌<◌, ◌^◌, ◌≡◌, ◌∙◌, ◌⊎◌, inl, inr, ◌&&◌, arith, ltb, leb, Bool-cases,
  if◌then◌else◌, Block, write, add32, sub32,
}
use legendary_journey.Std.{rounds, copy_up, copy_down, memcpy, memmove, memset}

-- the memory in which the `n` bytes from `dst` on are those that `m` has from `src` on
abbrev pub moved : ℕ → ℕ → ℕ → Block → Block
moved dst src n m i = if leb dst i && ltb i (dst + n) then m (src + (i - dst)) else m i

-- one byte moved upwards, and then the rest
pub moved-write :
    (n dst src : ℕ) (m : Block)
    → (dst ≤ src) ⊎ (src + suc n ≤ dst)
    → (i : ℕ) → moved (dst + 1) (src + 1) n (write m dst (m src)) i ≡ moved dst src (suc n) m i
moved-write n dst src m apart i = ground arith

copy_up_lem :
    (n dst src : ℕ) (m : Block)
    → dst + n < 2 ^ 32
    → src + n < 2 ^ 32
    → (dst ≤ src) ⊎ (src + n ≤ dst)
    → (i : ℕ) → copy_up n dst src m i ≡ moved dst src n m i
unfolding copy_up
copy_up_lem zero dst src m hd hs apart i = ground arith
copy_up_lem (suc n) dst src m hd hs apart i =
    let d : add32 dst 1 ≡ dst + 1 = omega arith in
    let s : add32 src 1 ≡ src + 1 = omega arith in
    rw (d, s)
      (copy_up_lem n (dst + 1) (src + 1) (write m dst (m src)) (omega arith) (omega arith)
          (omega arith) i
        ∙ moved-write n dst src m apart i)

copy_down_lem :
    (n dst src : ℕ) (m : Block)
    → dst + n < 2 ^ 32
    → src + n < 2 ^ 32
    → src ≤ dst
    → (i : ℕ) → copy_down n (dst + n) (src + n) m i ≡ moved dst src n m i
unfolding copy_down
copy_down_lem zero dst src m hd hs apart i = ground arith
copy_down_lem (suc n) dst src m hd hs apart i =
    let d : sub32 (dst + suc n) 1 ≡ dst + n = omega arith in
    let s : sub32 (src + suc n) 1 ≡ src + n = omega arith in
    rw (d, s)
      (copy_down_lem n dst src (write m (dst + n) (m (src + n))) (omega arith) (omega arith) apart i
        ∙ down_step n dst src m apart i)
  where
    down_step :
        (n dst src : ℕ) (m : Block)
        → src ≤ dst
        → (i : ℕ) → moved dst src n (write m (dst + n) (m (src + n))) i ≡ moved dst src (suc n) m i
    down_step n dst src m apart i = ground arith

-- `memmove` of at least one byte is right for blocks that overlap in either direction: the
-- destination holds the bytes that the source held before the call, and no other byte changes.
pub memmove_lem :
    (dst src n : ℕ) (m : Block)
    → 0 < n
    → dst + n < 2 ^ 32
    → src + n < 2 ^ 32
    → (i : ℕ) → memmove dst src n m i ≡ moved dst src n m i
unfolding memmove
memmove_lem dst src n m pos hd hs i =
    let some_left : rounds n ≡ n = ground arith in
    let d : add32 dst n ≡ dst + n = omega arith in
    let s : add32 src n ≡ src + n = omega arith in
    rw (some_left, d, s)
      (elim (Bool-cases (ltb dst src)) [
        | inl up ↦ rw up (copy_up_lem n dst src m hd hs (ground arith) i)
        | inr down ↦ rw down (copy_down_lem n dst src m hd hs (ground arith) i)
      ])

-- `memcpy` is right for blocks that do not overlap, and for a destination below the source.
pub memcpy_lem :
    (dst src n : ℕ) (m : Block)
    → dst + n < 2 ^ 32
    → src + n < 2 ^ 32
    → (dst ≤ src) ⊎ (src + n ≤ dst)
    → (i : ℕ) → memcpy dst src n m i ≡ moved dst src n m i
unfolding memcpy
memcpy_lem dst src n m hd hs apart i = copy_up_lem n dst src m hd hs apart i

-- `memset` sets exactly the `n` bytes from `dst` on.
pub memset_lem :
    (dst c n : ℕ) (m : Block)
    → dst + n < 2 ^ 32
    → (i : ℕ) → memset dst c n m i ≡ (if leb dst i && ltb i (dst + n) then c else m i)
unfolding memset
memset_lem dst c zero m h i = ground arith
memset_lem dst c (suc n) m h i =
    let d : add32 dst 1 ≡ dst + 1 = omega arith in
    rw d (memset_lem (dst + 1) c n (write m dst c) (omega arith) i ∙ ground arith)
