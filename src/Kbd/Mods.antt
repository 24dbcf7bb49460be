-- ===== src/Kbd/Mods.antt =====
-- What `kbdhandler` does to the modifier word.
use Prim.Native.Nat.{bit_and, bit_xor}
use legendary_journey.Base.{
  ℕ, ◌-◌, ◌^◌, ◌<◌, ◌≡◌, ◌↔◌, refl, Bool, true, false, ◌||◌, Option, none, some, arith, ◌==◌,
  if◌then◌else◌, bit, bit-lt, bit-mod, bit-bit_xor, bit-bit_and, bit-pow, bit_ones, bit_zero,
  bit_and-pow,
}
use legendary_journey.Kbd.{hibit, bit_set, mods_after, key_mod, key_mod_shift}

pub as_bit : Bool → ℕ
as_bit b = if b then 1 else 0

-- `BIT_SET(V, N, X)` is V with bit N equal to X.
pub bit-bit_set :
    (v n : ℕ) (x : Bool) (i : ℕ)
    → n < 16
    → i < 16
    → bit (bit_set v n x) i ≡ (if i == n then as_bit x else bit v i)
unfolding bit_set as_bit
bit-bit_set v n x i hn hi =
    let neg : ℕ = if x then 2 ^ 32 - 1 else 0 in
    ground (
      arith,
      bit-mod 16 (bit_xor v (bit_and (bit_xor neg v) (2 ^ n))) i,
      bit-bit_xor v (bit_and (bit_xor neg v) (2 ^ n)) i,
      bit-bit_and (bit_xor neg v) (2 ^ n) i,
      bit-bit_xor neg v i,
      bit_ones 32 i,
      bit_zero i,
      bit-pow n i,
      bit-lt v i,
    )

-- The bit of the modifier word that stands for a key: the KEY_MOD constants of kbd.h.
pub modifier_bit : ℕ → Option ℕ
modifier_bit code =
    if code == 0x38
    then some 9
    else if code == 0x1D
    then some 10
    else if (code == 0x2A) || (code == 0x36)
    then some 11
    else if code == 0x3A
    then some 12
    else if code == 0x45
    then some 13
    else if code == 0x46
    then some 14
    else none

abbrev pub is_bit : Option ℕ → ℕ → Bool
is_bit none i = false
is_bit (some n) i = i == n

hibits :
    (hibit 0x0200 ≡ 9)
    × (hibit 0x0400 ≡ 10)
    × (hibit 0x0800 ≡ 11)
    × (hibit 0x1000 ≡ 12)
    × (hibit 0x2000 ≡ 13)
    × (hibit 0x4000 ≡ 14)
unfolding hibit
hibits = (refl, refl, refl, refl, refl, refl)

-- After a key, the bit of its modifier says whether it was pressed or released, and every other bit
-- of the 16-bit modifier word is unchanged.
mods_after_lem :
    (mods code : ℕ) (pressed : Bool) (i : ℕ)
    → i < 16
    → bit (mods_after mods code pressed) i
      ≡ (if is_bit (modifier_bit code) i then as_bit pressed else bit mods i)
unfolding mods_after modifier_bit
mods_after_lem mods code pressed i h = ground (
  arith,
  hibits,
  bit-bit_set mods 9 pressed i,
  bit-bit_set mods 10 pressed i,
  bit-bit_set mods 11 pressed i,
  bit-bit_set mods 12 pressed i,
  bit-bit_set mods 13 pressed i,
  bit-bit_set mods 14 pressed i,
)

-- `KEY_MOD(mods, KEY_MOD_SHIFT)` reads bit 11.
pub key_mod-shift : (mods : ℕ) → (key_mod mods key_mod_shift ≡ true) ↔ (bit mods 11 ≡ 1)
key_mod-shift mods = ground (arith, bit_and-pow 11 mods, bit-lt mods 11)
