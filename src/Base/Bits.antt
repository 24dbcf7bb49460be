-- ===== src/Base/Bits.antt =====
-- Single bits of `&`, `|` and `^`, which the libraries give by a recursion on binary digits.
use Prim.Native.Nat.{
  ℕ, zero, suc, ◌+◌, ◌-◌, ◌*◌, ◌/◌, ◌%◌, ◌^◌, ◌≤◌, ◌<◌, min, max, differ, digits, bitwise, bit_and,
  bit_or, bit_xor, bit_and-bitwise, bit_or-bitwise, bit_xor-bitwise,
}
use mathlib.Core.Path.{◌≡◌, refl, ap, ◌∙◌}
use native.Mathlib.Omega.{arith}
use native.Mathlib.Nat.{
  pow-suc, one-le-pow, mod-one, mod-lt, mod-eq_of_lt, mul-add-mod_self_left, div-add-mod,
}
use legendary_journey.Base.Tests.{◌==◌, ltb, if◌then◌else◌}

-- bit `n` of `x`, as 0 or 1
abbrev pub bit : ℕ → ℕ → ℕ
bit x zero = x % 2
bit x (suc n) = bit (x / 2) n

module _ (z : ℕ → ℕ) (f : ℕ → ℕ → ℕ) where
  enough_digits : (m k x y : ℕ) → x ≤ m → x ≤ k → digits z f m x y ≡ digits z f k x y
  enough_digits zero zero x y p q = refl
  enough_digits zero (suc k) zero y p q = refl
  enough_digits zero (suc k) (suc x) y p q = absurd (omega arith)
  enough_digits (suc m) zero zero y p q = refl
  enough_digits (suc m) zero (suc x) y p q = absurd (omega arith)
  enough_digits (suc m) (suc k) zero y p q = refl
  enough_digits (suc m) (suc k) (suc x) y p q =
      rw (enough_digits m k (suc x / 2) (y / 2) (omega arith) (omega arith))

  low_digit :
      (x y : ℕ)
      → bitwise z f (suc x) y ≡ bitwise z f (suc x / 2) (y / 2) * 2 + f (suc x % 2) (y % 2)
  low_digit x y =
      omega (arith, enough_digits x (suc x / 2) (suc x / 2) (y / 2) (omega arith) (omega arith))

pub bit_and_step : (x y : ℕ) → bit_and x y ≡ bit_and (x / 2) (y / 2) * 2 + min (x % 2) (y % 2)
bit_and_step zero y = simp bit_and-bitwise (omega arith)
bit_and_step (suc x) y = simp bit_and-bitwise (low_digit (λ b. 0) min x y)

pub bit_or_step : (x y : ℕ) → bit_or x y ≡ bit_or (x / 2) (y / 2) * 2 + max (x % 2) (y % 2)
bit_or_step zero y = simp bit_or-bitwise (omega arith)
bit_or_step (suc x) y = simp bit_or-bitwise (low_digit (λ b. b) max x y)

differ-add : (a b : ℕ) → a < 2 → b < 2 → differ a b ≡ (a + b) % 2
differ-add zero b p q = omega arith
differ-add (suc zero) zero p q = refl
differ-add (suc zero) (suc zero) p q = refl
differ-add (suc zero) (suc (suc b)) p q = absurd (omega arith)
differ-add (suc (suc a)) b p q = absurd (omega arith)

pub bit_xor_step : (x y : ℕ) → bit_xor x y ≡ bit_xor (x / 2) (y / 2) * 2 + (x + y) % 2
bit_xor_step zero y = simp bit_xor-bitwise (omega arith)
bit_xor_step (suc x) y = simp bit_xor-bitwise (
    omega (
      arith,
      low_digit (λ b. b) differ x y,
      differ-add (suc x % 2) (y % 2) (omega arith) (omega arith),
    ))

pub bit-lt : (x n : ℕ) → bit x n < 2
bit-lt x zero = omega arith
bit-lt x (suc n) = bit-lt (x / 2) n

bit-half : (x y n : ℕ) → x / 2 ≡ y → bit x (suc n) ≡ bit y n
bit-half x y n e = rw e

pub bit-bit_and : (x y n : ℕ) → bit (bit_and x y) n ≡ min (bit x n) (bit y n)
bit-bit_and x y zero = omega (arith, bit_and_step x y)
bit-bit_and x y (suc n) =
    bit-half (bit_and x y) (bit_and (x / 2) (y / 2)) n (omega (arith, bit_and_step x y))
    ∙ bit-bit_and (x / 2) (y / 2) n

pub bit-bit_or : (x y n : ℕ) → bit (bit_or x y) n ≡ max (bit x n) (bit y n)
bit-bit_or x y zero = omega (arith, bit_or_step x y)
bit-bit_or x y (suc n) =
    bit-half (bit_or x y) (bit_or (x / 2) (y / 2)) n (omega (arith, bit_or_step x y))
    ∙ bit-bit_or (x / 2) (y / 2) n

pub bit-bit_xor : (x y n : ℕ) → bit (bit_xor x y) n ≡ (bit x n + bit y n) % 2
bit-bit_xor x y zero = omega (arith, bit_xor_step x y)
bit-bit_xor x y (suc n) =
    bit-half (bit_xor x y) (bit_xor (x / 2) (y / 2)) n (omega (arith, bit_xor_step x y))
    ∙ bit-bit_xor (x / 2) (y / 2) n

-- `1 << k` has bit `k` alone.
pub bit_zero : (n : ℕ) → bit 0 n ≡ 0
bit_zero zero = refl
bit_zero (suc n) = bit_zero n

pub bit-pow : (k n : ℕ) → bit (2 ^ k) n ≡ (if n == k then 1 else 0)
bit-pow zero zero = refl
bit-pow zero (suc n) = ground (arith, bit_zero n)
bit-pow (suc k) zero = ground (arith, pow-suc 2 k)
bit-pow (suc k) (suc n) =
    bit-half (2 ^ suc k) (2 ^ k) n (omega (arith, pow-suc 2 k)) ∙ bit-pow k n ∙ ground arith

double-mod : (p x : ℕ) → 0 < p → x % (2 * p) ≡ 2 * (x / 2 % p) + x % 2
double-mod p x h =
    ap (λ (t : ℕ). t % (2 * p)) split
    ∙ mul-add-mod_self_left (2 * p) (x / 2 / p) (2 * (x / 2 % p) + x % 2)
    ∙ mod-eq_of_lt (omega (arith, mod-lt (x / 2) h))
  where
    split : x ≡ 2 * p * (x / 2 / p) + (2 * (x / 2 % p) + x % 2)
    split = omega (arith, div-add-mod (x / 2) p)

shrink : (k x : ℕ) → x % 2 ^ suc k ≡ 2 * (x / 2 % 2 ^ k) + x % 2
shrink k x =
    ap (λ (t : ℕ). x % t) (omega (arith, pow-suc 2 k))
    ∙ double-mod (2 ^ k) x (one-le-pow k 2 (omega arith))

-- A remainder by `2 ^ k` keeps the bits below `k` and clears the others.
pub bit-mod : (k x n : ℕ) → bit (x % 2 ^ k) n ≡ (if ltb n k then bit x n else 0)
bit-mod zero x n = ground (arith, bit_zero n, mod-one x, ap (λ (t : ℕ). bit t n) (mod-one x))
bit-mod (suc k) x zero = ground (arith, shrink k x)
bit-mod (suc k) x (suc n) =
    bit-half (x % 2 ^ suc k) (x / 2 % 2 ^ k) n (omega (arith, shrink k x))
    ∙ bit-mod k (x / 2) n
    ∙ ground arith

-- The bits of `2 ^ k - 1`.
pub bit_ones : (k n : ℕ) → bit (2 ^ k - 1) n ≡ (if ltb n k then 1 else 0)
bit_ones zero n = ground (arith, bit_zero n)
bit_ones (suc k) zero = ground (arith, pow-suc 2 k, one-le-pow k 2)
bit_ones (suc k) (suc n) =
    bit-half (2 ^ suc k - 1) (2 ^ k - 1) n (omega (arith, pow-suc 2 k, one-le-pow k 2))
    ∙ bit_ones k n
    ∙ ground arith

bit_and-zero_below : (m x : ℕ) → x ≤ m → bit_and x 0 ≡ 0
bit_and-zero_below m zero h = omega (arith, bit_and_step 0 0)
bit_and-zero_below zero (suc x) h = absurd (omega arith)
bit_and-zero_below (suc m) (suc x) h =
    omega (arith, bit_and_step (suc x) 0, bit_and-zero_below m (suc x / 2) (omega arith))

pub bit_and-zero : (x : ℕ) → bit_and x 0 ≡ 0
bit_and-zero x = bit_and-zero_below x x (omega arith)

-- `x & (1 << k)` is bit `k` at its place.
pub bit_and-pow : (k x : ℕ) → bit_and x (2 ^ k) ≡ bit x k * 2 ^ k
bit_and-pow zero x = omega (arith, bit_and_step x 1, bit_and-zero (x / 2))
bit_and-pow (suc k) x = ground (
  arith,
  bit_and_step x (2 ^ suc k),
  pow-suc 2 k,
  ap (λ (t : ℕ). bit_and (x / 2) t) (halve k),
  bit_and-pow k (x / 2),
  bit-half x (x / 2) k refl,
  ap (λ (t : ℕ). bit (x / 2) k * t) (pow-suc 2 k),
)
  where
    halve : (k : ℕ) → 2 ^ suc k / 2 ≡ 2 ^ k
    halve k = omega (arith, pow-suc 2 k)

-- A mask of `k` low bits is a remainder.
pub bit_and_mask : (k x : ℕ) → bit_and x (2 ^ k - 1) ≡ x % 2 ^ k
bit_and_mask zero x = omega (arith, bit_and-zero x, mod-one x)
bit_and_mask (suc k) x = ground (
  arith,
  bit_and_step x (2 ^ suc k - 1),
  pow-suc 2 k,
  one-le-pow k 2,
  ap (λ (t : ℕ). bit_and (x / 2) t) (halve k),
  bit_and_mask k (x / 2),
  shrink k x,
)
  where
    halve : (k : ℕ) → (2 ^ suc k - 1) / 2 ≡ 2 ^ k - 1
    halve k = omega (arith, pow-suc 2 k, one-le-pow k 2)
