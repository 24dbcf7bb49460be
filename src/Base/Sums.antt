-- ===== src/Base/Sums.antt =====
-- `|` of numbers that share no bit, as a sum.
use Prim.Native.Nat.{ℕ, zero, suc, ◌+◌, ◌*◌, ◌/◌, ◌%◌, ◌^◌, ◌≤◌, ◌<◌, bit_or}
use mathlib.Core.Path.{◌≡◌, ◌∙◌, sym, ap}
use native.Mathlib.Omega.{arith}
use native.Mathlib.Nat.{pow-suc, mul_comm, mul_assoc}
use legendary_journey.Base.Bits.{bit_or_step}

bit_or-zero_below : (m y : ℕ) → y ≤ m → bit_or 0 y ≡ y
bit_or-zero_below m zero h = omega (arith, bit_or_step 0 0)
bit_or-zero_below zero (suc y) h = absurd (omega arith)
bit_or-zero_below (suc m) (suc y) h =
    omega (arith, bit_or_step 0 (suc y), bit_or-zero_below m (suc y / 2) (omega arith))

pub bit_or-zero : (y : ℕ) → bit_or 0 y ≡ y
bit_or-zero y = bit_or-zero_below y y (omega arith)

bit_or_comm_below : (m x y : ℕ) → x ≤ m → y ≤ m → bit_or x y ≡ bit_or y x
bit_or_comm_below zero x y h h' =
    omega (arith, bit_or_step x y, bit_or_step y x, bit_or_zeros x y h h')
  where
    bit_or_zeros : (x y : ℕ) → x ≤ 0 → y ≤ 0 → bit_or (x / 2) (y / 2) ≡ bit_or (y / 2) (x / 2)
    bit_or_zeros x y h h' =
        let e : x / 2 ≡ y / 2 = omega arith in
        ap (λ (t : ℕ). bit_or t (y / 2)) e ∙ ap (bit_or (y / 2)) (sym e)
bit_or_comm_below (suc m) x y h h' = omega (
  arith,
  bit_or_step x y,
  bit_or_step y x,
  bit_or_comm_below m (x / 2) (y / 2) (omega arith) (omega arith),
)

pub bit_or_comm : (x y : ℕ) → bit_or x y ≡ bit_or y x
bit_or_comm x y = bit_or_comm_below (x + y) x y (omega arith) (omega arith)

half_of_shift : (k y : ℕ) → (y * 2 ^ suc k / 2 ≡ y * 2 ^ k) × (y * 2 ^ suc k % 2 ≡ 0)
half_of_shift k y =
    let double : y * 2 ^ suc k ≡ 2 * (y * 2 ^ k) =
      ap (λ (p : ℕ). y * p) (pow-suc 2 k) ∙ shuffle (2 ^ k) in
    (omega (arith, double), omega (arith, double))
  where
    shuffle : (p : ℕ) → y * (p * 2) ≡ 2 * (y * p)
    shuffle p = sym (mul_assoc y p 2) ∙ mul_comm (y * p) 2

-- `|` of a number below `2 ^ k` and a multiple of it is the sum.
pub bit_or_shift : (k x y : ℕ) → x < 2 ^ k → bit_or x (y * 2 ^ k) ≡ x + y * 2 ^ k
bit_or_shift zero x y low =
    let none_left : x ≡ 0 = omega arith in
    rw none_left (omega (arith, bit_or_step 0 (y * 1), bit_or-zero (y * 1)))
bit_or_shift (suc k) x y low = omega (
  arith,
  bit_or_step x (y * 2 ^ suc k),
  half_of_shift k y,
  bit_or_shift k (x / 2) y (omega (arith, pow-suc 2 k)),
  ap (bit_or (x / 2)) (half_of_shift k y).0,
)

-- `|` with 1 sets the lowest bit.
pub bit_or-one : (x : ℕ) → bit_or x 1 ≡ x / 2 * 2 + 1
bit_or-one x = omega (arith, bit_or_step x 1, bit_or_comm (x / 2) 0, bit_or-zero (x / 2))
