-- ===== src/Cpu/Mask.antt =====
-- The mask of the interrupt controllers.
use Prim.Native.Nat.{bit_and, bit_or}
use legendary_journey.Base.{
  ℕ, zero, suc, ◌-◌, ◌/◌, ◌%◌, ◌<◌, ◌^◌, ◌≡◌, ◌∙◌, refl, ap, arith, ◌==◌, ◌∷◌, if◌then◌else◌, bit,
  bit-lt, bit-mod, bit-bit_and, bit-bit_or, bit-pow,
}
use native.Mathlib.Nat.{pow-suc, one-le-pow}
use legendary_journey.Cpu.{Cpu, irqenable, irqdisable, irqsetmask}

-- The bits of `~x`, in a word of `k` bits.
bit_not : (k x n : ℕ) → x < 2 ^ k → n < k → bit (2 ^ k - 1 - x) n ≡ 1 - bit x n
bit_not zero x n small low = absurd (omega arith)
bit_not (suc k) x zero small low = omega (arith, pow-suc 2 k)
bit_not (suc k) x (suc n) small low =
    let half : (2 ^ suc k - 1 - x) / 2 ≡ 2 ^ k - 1 - x / 2 = omega (arith, pow-suc 2 k, small) in
    ap (λ (y : ℕ). bit y n) half
    ∙ bit_not k (x / 2) n (omega (arith, pow-suc 2 k, small)) (omega arith)

pow_small : (k i : ℕ) → i < k → 2 ^ i < 2 ^ k
pow_small zero i h = absurd (omega arith)
pow_small (suc k) zero h = omega (arith, pow-suc 2 k, one-le-pow k 2 (omega arith))
pow_small (suc k) (suc i) h = omega (arith, pow-suc 2 k, pow-suc 2 i, pow_small k i (omega arith))

-- `irqenable` clears the bit of its line in the mask and leaves the other 15, and tells both controllers
-- their half of the new mask; `irqdisable` sets the bit.
pub irqenable_lem :
    (i n : ℕ) (s : Cpu)
    → i < 16
    → n < 16
    → (bit (irqenable i s).mask n ≡ (if n == i then 0 else bit s.mask n))
      × (bit (irqdisable i s).mask n ≡ (if n == i then 1 else bit s.mask n))
      × ((irqenable i s).ports
          ≡ (0xa1, (irqenable i s).mask / 256) ∷ (0x21, (irqenable i s).mask % 256) ∷ s.ports)
unfolding irqenable irqdisable irqsetmask
irqenable_lem i n s hi hn = (
  ground (
    arith,
    bit-mod 16 (bit_and s.mask (2 ^ 32 - 1 - 2 ^ i)) n,
    bit-bit_and s.mask (2 ^ 32 - 1 - 2 ^ i) n,
    bit_not 32 (2 ^ i) n (pow_small 32 i (omega arith)) (omega arith),
    bit-pow i n,
    bit-lt s.mask n,
  ),
  ground (
    arith,
    bit-mod 16 (bit_or s.mask (2 ^ i)) n,
    bit-bit_or s.mask (2 ^ i) n,
    bit-pow i n,
    bit-lt s.mask n,
  ),
  refl,
)
