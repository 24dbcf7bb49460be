-- ===== src/Kbd.antt =====
-- src/kernel/drivers/kbd.c and kbd.h: the keyboard interrupt handler, its scancode tables and the
-- ring of typed characters.
pub mod Table
pub mod Mods
pub mod Typing
pub mod Blocking
mod Tests
use Prim.Native.Nat.{bit_and, bit_or, bit_xor}
use legendary_journey.Base.{
  ℕ, zero, suc, ◌+◌, ◌-◌, ◌/◌, ◌%◌, ◌^◌, Bool, true, false, not, ◌&&◌, ◌||◌, Option, none, some,
  List, [], ◌∷◌, ltb, ◌==◌, if◌then◌else◌, get_or, Block, write,
}
use legendary_journey.RingBuf.{RingBuf, ringbuf_put, ringbuf_take}
use Table.{keyboard_us}

-- `struct keyboard`, with the 128 elements of its arrays, and the bytes of memory behind `chars`, its last
-- field, where a write past that array goes. Which object the linker puts there is not modelled.
pub record Keyboard : Type 0 where
  pub mods : ℕ
  pub keys : Block
  pub chars : Block
  pub behind : Block

-- the driver's globals
pub record Kbd : Type 0 where
  pub keyboard : Keyboard
  pub key_input_buf : RingBuf

abbrev pub key_null : ℕ
key_null = 0

abbrev pub key_mod_shift : ℕ
key_mod_shift = 0x0800

abbrev pub key_scancode : ℕ → ℕ
key_scancode s = bit_and s 0x7F

abbrev pub key_pressed : ℕ → Bool
key_pressed s = bit_and s 0x80 == 0

abbrev pub key_mod : ℕ → ℕ → Bool
key_mod s m = not (bit_and s m == 0)

-- `31 - __builtin_clz(x)`, the place of the highest bit of a 32-bit word
hibit_below : ℕ → ℕ → ℕ
hibit_below zero x = 0
hibit_below (suc f) x = let rest = suc (hibit_below f (x / 2)) in if ltb x 2 then 0 else rest

pub hibit : ℕ → ℕ
unfolding hibit_below
hibit x = hibit_below 32 x

-- BIT_SET(V, N, X) of common/std.h at a 16-bit V: X is the unsigned 0 or 1, so -X is all zeros or
-- all ones, and the assignment keeps 16 bits.
pub bit_set : ℕ → ℕ → Bool → ℕ
bit_set v n x =
    let neg : ℕ = if x then 2 ^ 32 - 1 else 0 in
    bit_xor v (bit_and (bit_xor neg v) (2 ^ n)) % 2 ^ 16

-- `keyboard.mods` after a key
pub mods_after : ℕ → ℕ → Bool → ℕ
unfolding hibit
mods_after mods key_code pressed =
    if (key_code == 0x38) || (key_code == 0x38)
    then bit_set mods (hibit 0x0200) pressed
    else if (key_code == 0x1D) || (key_code == 0x1D)
    then bit_set mods (hibit 0x0400) pressed
    else if (key_code == 0x2A) || (key_code == 0x36)
    then bit_set mods (hibit key_mod_shift) pressed
    else if key_code == 0x3A
    then bit_set mods (hibit 0x1000) pressed
    else if key_code == 0x45
    then bit_set mods (hibit 0x2000) pressed
    else if key_code == 0x46
    then bit_set mods (hibit 0x4000) pressed
    else mods

pub getkeychar : Keyboard → ℕ → ℕ
getkeychar keyboard scancode =
    let shift = key_mod keyboard.mods key_mod_shift in
    let code = key_scancode scancode in
    if ltb code 128 then get_or (keyboard_us shift) code 0 else 0

-- what goes into the ring for a pressed key: bit 7 marks a character that is not ascii
pub typed_char : ℕ → ℕ → ℕ
typed_char key_code key_char = if key_code == key_char then bit_or key_char 0x80 else key_char

as_byte : Bool → ℕ
as_byte b = if b then 1 else 0

-- `kbdhandler`, with the byte that `inb(0x60)` reads
pub kbdhandler : ℕ → Kbd → Kbd
unfolding as_byte
kbdhandler scancode s =
    let key_code = key_scancode scancode in
    let pressed = key_pressed scancode in
    let k = record s.keyboard { mods = mods_after s.keyboard.mods key_code pressed } in
    let key_char = getkeychar k scancode in
    let k' = record k {
      keys = write k.keys key_code (as_byte pressed);
      chars = if ltb key_char 128 then write k.chars key_char (as_byte pressed) else k.chars;
      behind =
          if ltb key_char 128 then k.behind else write k.behind (key_char - 128) (as_byte pressed);
    } in
    if pressed && not (key_char == 0)
    then record {
      keyboard = k';
      key_input_buf = (ringbuf_put s.key_input_buf (typed_char key_code key_char ∷ [])).1;
    }
    else record s { keyboard = k' }

-- The first byte of the ring, if `ringbuf_take` wrote one into `ch`.
taken : Option (List ℕ) → ℕ
taken none = key_null
taken (some []) = key_null
taken (some (ch ∷ _)) = ch

pub kbd_getc : Kbd → ℕ × Kbd
unfolding taken
kbd_getc s =
    let (out, buf) = ringbuf_take s.key_input_buf 1 in (taken out, record s { key_input_buf = buf })

-- `kbd_getc_blocking`: each `halt` waits for one interrupt, here the next scancode of the list.
-- `none`: the key has not been typed yet when the list ends.
pub kbd_getc_blocking : List ℕ → Kbd → Option (ℕ × List ℕ × Kbd)
kbd_getc_blocking [] s =
    let (ch, s') = kbd_getc s in if ch == key_null then none else some (ch, [], s')
kbd_getc_blocking (code ∷ codes) s =
    let (ch, s') = kbd_getc s in
    let rest = kbd_getc_blocking codes (kbdhandler code s') in
    if ch == key_null then rest else some (ch, code ∷ codes, s')
