-- ===== src/Base/Blocks.antt =====
-- A block of memory as a function from its index, with `memcpy` between distinct objects.
use Prim.Native.Nat.{ℕ, zero, suc, ◌+◌, ◌*◌, ◌/◌, ◌%◌, ◌^◌, ◌≤◌, ◌<◌}
use mathlib.Core.Path.{◌≡◌, refl, ap, ap₂, ◌∙◌}
use mathlib.Core.Logic.{◌⊎◌, inl, inr}
use mathlib.Core.List.{List, [], ◌∷◌, ◌++◌}
use native.Mathlib.Nat.{zero-add, add-zero, suc-add, add_assoc}
use native.Mathlib.Omega.{arith}
use legendary_journey.Base.Tests.{◌==◌, if◌then◌else◌}
use legendary_journey.Base.Lists.{length}

abbrev pub Block : Type 0
Block = ℕ → ℕ

-- the `n` values from index `off` on
unfoldable pub slice : Block → ℕ → ℕ → List ℕ
slice f off zero = []
slice f off (suc n) = f off ∷ slice f (off + 1) n

-- the block with the values of the list written from index `off` on
unfoldable pub blit : Block → ℕ → List ℕ → Block
blit f off [] i = f i
blit f off (x ∷ xs) i = if i == off then x else blit f (off + 1) xs i

abbrev pub write : Block → ℕ → ℕ → Block
write f off x i = if i == off then x else f i

pub length-slice : (f : Block) (off n : ℕ) → length (slice f off n) ≡ n
unfolding slice
length-slice f off zero = refl
length-slice f off (suc n) = ap suc (length-slice f (off + 1) n)

pub blit_out :
    (f : Block) (off : ℕ) (xs : List ℕ) (i : ℕ)
    → (i < off) ⊎ (off + length xs ≤ i)
    → blit f off xs i ≡ f i
unfolding blit
blit_out f off [] i h = refl
blit_out f off (x ∷ xs) i h = ground (arith, blit_out f (off + 1) xs i)

pub slice_ext :
    (f g : Block) (off n : ℕ)
    → ((i : ℕ) → off ≤ i → i < off + n → f i ≡ g i)
    → slice f off n ≡ slice g off n
unfolding slice
slice_ext f g off zero h = refl
slice_ext f g off (suc n) h =
    ap₂ ◌∷◌ (h off (omega arith) (omega arith))
      (slice_ext f g (off + 1) n (λ i lo hi. h i (omega arith) (omega arith)))

pub slice-blit_out :
    (f : Block) (off : ℕ) (xs : List ℕ) (a n : ℕ)
    → (a + n ≤ off) ⊎ (off + length xs ≤ a)
    → slice (blit f off xs) a n ≡ slice f a n
slice-blit_out f off xs a n h =
    slice_ext (blit f off xs) f a n (λ i lo hi. blit_out f off xs i (omega arith))

pub slice-blit_self :
    (f : Block) (off : ℕ) (xs : List ℕ) → slice (blit f off xs) off (length xs) ≡ xs
unfolding slice blit
slice-blit_self f off [] = refl
slice-blit_self f off (x ∷ xs) = ap₂ ◌∷◌ (ground arith) (
    slice_ext (blit f off (x ∷ xs)) (blit f (off + 1) xs) (off + 1) (length xs)
      (λ i lo hi. ground arith)
    ∙ slice-blit_self f (off + 1) xs)

pub slice-append :
    (f : Block) (off n m : ℕ) → slice f off (n + m) ≡ slice f off n ++ slice f (off + n) m
unfolding slice
slice-append f off zero m = rw (zero-add, add-zero)
slice-append f off (suc n) m =
    ground (arith, slice-append f (off + 1) n m, suc-add n m, add_assoc off 1 n, one-add n)
  where
    one-add : (k : ℕ) → 1 + k ≡ suc k
    one-add k = omega arith

-- What `memcpy` writes over a window that begins at the written index.
pub slice-blit_prefix :
    (f : Block) (off : ℕ) (xs : List ℕ) (n : ℕ)
    → slice (blit f off xs) off (length xs + n) ≡ xs ++ slice f (off + length xs) n
slice-blit_prefix f off xs n =
    slice-append (blit f off xs) off (length xs) n
    ∙ ap₂ ◌++◌ (slice-blit_self f off xs)
        (slice-blit_out f off xs (off + length xs) n (inr (omega arith)))

pub slice_split :
    (f : Block) (off k n m off' : ℕ)
    → off' ≡ off + n
    → k ≡ n + m
    → slice f off k ≡ slice f off n ++ slice f off' m
slice_split f off k n m off' e e' = rw (e, e') (slice-append f off n m)

-- Writing just past a window extends the window by what is written.
pub slice-blit_append :
    (f : Block) (off n k at : ℕ) (xs : List ℕ)
    → at ≡ off + n
    → k ≡ n + length xs
    → slice (blit f at xs) off k ≡ slice f off n ++ xs
slice-blit_append f off n k at xs e e' =
    slice_split (blit f at xs) off k n (length xs) at e e'
    ∙ ap₂ ◌++◌ (slice-blit_out f at xs off n (inl (omega arith))) (slice-blit_self f at xs)

-- A little-endian 32-bit word in a block of bytes.
unfoldable pub le32 : Block → ℕ → ℕ
le32 f a = f a + 256 * f (a + 1) + 65536 * f (a + 2) + 16777216 * f (a + 3)

unfoldable pub put32 : Block → ℕ → ℕ → Block
put32 f a v =
    write (write (write (write f a (v % 256)) (a + 1) (v / 256 % 256)) (a + 2) (v / 65536 % 256))
      (a + 3) (v / 16777216 % 256)

pub le32-put32_self : (f : Block) (a v : ℕ) → v < 2 ^ 32 → le32 (put32 f a v) a ≡ v
unfolding le32 put32
le32-put32_self f a v h = ground arith

pub put32_out : (f : Block) (a v i : ℕ) → (i < a) ⊎ (a + 4 ≤ i) → put32 f a v i ≡ f i
unfolding put32
put32_out f a v i h = ground arith

pub le32_ext :
    (f g : Block) (a b : ℕ) → ((i : ℕ) → i < 4 → f (a + i) ≡ g (b + i)) → le32 f a ≡ le32 g b
unfolding le32
le32_ext f g a b h =
    let first : f a ≡ g b = simp add-zero at (h 0 (omega arith)) in
    omega (arith, first, h 1 (omega arith), h 2 (omega arith), h 3 (omega arith))

pub le32-put32_ne :
    (f : Block) (a b v : ℕ) → (a + 4 ≤ b) ⊎ (b + 4 ≤ a) → le32 (put32 f a v) b ≡ le32 f b
unfolding le32
le32-put32_ne f a b v h = ground (
  arith,
  put32_out f a v b,
  put32_out f a v (b + 1),
  put32_out f a v (b + 2),
  put32_out f a v (b + 3),
)
