-- ===== src/Kbd/Typing.antt =====
-- From an interrupt to the characters that a reader gets.
use Prim.Native.Nat.{bit_or}
use mathlib.Core.Path.{subst}
use legendary_journey.Base.{
  ℕ, ◌≤◌, ◌<◌, ◌≡◌, ◌≢◌, refl, ap, Bool, true, false, not, ◌&&◌, List, [], ◌∷◌, ◌++◌, arith, ◌==◌,
  length, bit, bit-bit_or, get_or, ◌||◌, if◌then◌else◌, all_below-at, ==_iff, sym, ◌∙◌, lt→ltb,
  if_false,
}
use legendary_journey.RingBuf.{ringbuf_len, ringbuf_space}
use legendary_journey.RingBuf.Queue
use legendary_journey.RingBuf.Queue.{IsValid, contents}
use legendary_journey.RingBuf.Put.{Fits, ringbuf_put_refines, ringbuf_put_fills}
use legendary_journey.RingBuf.Take.{ringbuf_take_refines, ringbuf_take_refuses}
use legendary_journey.Kbd.Table.{plain, shifted, keyboard_us}
use legendary_journey.Kbd.Mods.{key_mod-shift}
use legendary_journey.Kbd.{
  Keyboard, key_mod, key_mod_shift, Kbd, key_scancode, key_pressed, key_null, mods_after,
  getkeychar, typed_char, kbdhandler, kbd_getc,
}

-- the character that a scancode stands for, after its own effect on the modifiers
abbrev pub char_of : Kbd → ℕ → ℕ
char_of s scancode =
    getkeychar
      (record s.keyboard {
        mods = mods_after s.keyboard.mods (key_scancode scancode) (key_pressed scancode);
      })
      scancode

-- whether the handler queues a character
abbrev pub types : Kbd → ℕ → Bool
types s scancode = key_pressed scancode && not (char_of s scancode == 0)

abbrev pub queued : Kbd → ℕ → ℕ
queued s scancode = typed_char (key_scancode scancode) (char_of s scancode)

abbrev pub typed : Kbd → List ℕ
typed s = contents s.key_input_buf

-- the character of a key in the layout of its state: that with shift held, or that without
abbrev pub character : Kbd → ℕ → ℕ
character s code = get_or (if bit s.keyboard.mods 11 == 1 then shifted else plain) code 0

-- Bits of a scancode below 128, and facts of the tables: a modifier has no character, and no
-- character is the number of its own key.
scancode_parts : (code : ℕ) → code < 128 → (key_scancode code ≡ code) × (key_pressed code ≡ true)
scancode_parts code small = (
  (==_iff (key_scancode code) code).0 (all_below-at (λ k. key_scancode k == k) 128 code refl small),
  all_below-at key_pressed 128 code refl small,
)

not_both : (a b : Bool) → (not a && not b) ≡ true → a ≡ false
not_both true b h = absurd (cc)
not_both false b h = refl

not_second : (a b : Bool) → (not a && not b) ≡ true → b ≡ false
not_second a true h = ground (arith, h)
not_second a false h = refl

abbrev is_modifier : ℕ → Bool
is_modifier code =
    (code == 0x38)
    || (code == 0x1D)
    || (code == 0x2A)
    || (code == 0x36)
    || (code == 0x3A)
    || (code == 0x45)
    || (code == 0x46)

abbrev plain_key : Bool → ℕ → Bool
plain_key shift code =
    let c = get_or (keyboard_us shift) code 0 in
    (c == 0) || (not (is_modifier code) && not (code == c))

plain_keys : (shift : Bool) (code : ℕ) → code < 128 → plain_key shift code ≡ true
plain_keys true code small = all_below-at (plain_key true) 128 code refl small
plain_keys false code small = all_below-at (plain_key false) 128 code refl small

mods_after_same :
    (mods code : ℕ) (pressed : Bool)
    → is_modifier code ≡ false
    → mods_after mods code pressed ≡ mods
unfolding mods_after
mods_after_same mods code pressed other = ground (arith, other)

key_mod_held : (mods : ℕ) → key_mod mods key_mod_shift ≡ (bit mods 11 == 1)
key_mod_held mods = ground (arith, key_mod-shift mods)

layout_of : (shift : Bool) → (if shift then shifted else plain) ≡ keyboard_us shift
layout_of true = refl
layout_of false = refl

getkeychar_lem :
    (k : Keyboard) (code : ℕ)
    → code < 128
    → getkeychar k code ≡ get_or (keyboard_us (bit k.mods 11 == 1)) code 0
unfolding getkeychar
getkeychar_lem k code small =
    rw ((scancode_parts code small).0, lt→ltb code 128 small, key_mod_held k.mods) refl

-- what the handler queues for a key with a character
queued_lem :
    (s : Kbd) (code : ℕ)
    → code < 128
    → 0 < character s code
    → (types s code ≡ true) × (queued s code ≡ character s code)
unfolding typed_char
queued_lem s code small some =
    let shift : Bool = bit s.keyboard.mods 11 == 1 in
    let c : ℕ = character s code in
    let listed : c ≡ get_or (keyboard_us shift) code 0 =
      ap (λ (l : List ℕ). get_or l code 0) (layout_of shift) in
    let (at, down) = scancode_parts code small in
    let plain_one = plain_keys shift code small in
    let none_of : (get_or (keyboard_us shift) code 0 == 0) ≡ false = ground (arith, listed, some) in
    let both : (not (is_modifier code) && not (code == get_or (keyboard_us shift) code 0)) ≡ true =
      sym (
        ap
          (λ (b : Bool).
            b || (not (is_modifier code) && not (code == get_or (keyboard_us shift) code 0)))
          none_of)
      ∙ plain_one in
    let free : is_modifier code ≡ false = not_both (is_modifier code) _ both in
    let other : (code == get_or (keyboard_us shift) code 0) ≡ false =
      not_second (is_modifier code) _ both in
    let same : mods_after s.keyboard.mods (key_scancode code) (key_pressed code) ≡ s.keyboard.mods =
      ap (λ (k : ℕ). mods_after s.keyboard.mods k (key_pressed code)) at
      ∙ mods_after_same s.keyboard.mods code (key_pressed code) free in
    let char : char_of s code ≡ get_or (keyboard_us shift) code 0 =
      ap (λ (m : ℕ). getkeychar (record s.keyboard { mods = m }) code) same
      ∙ getkeychar_lem s.keyboard code small in
    (
      ap (λ (b : Bool). b && not (char_of s code == 0)) down
          ∙ ap (λ (k : ℕ). not (k == 0)) char
          ∙ ap not none_of,
      ap (λ (k : ℕ). typed_char k (char_of s code)) at
          ∙ ap (λ (k : ℕ). typed_char code k) char
          ∙ if_false _ _ other
          ∙ sym listed,
    )

pub kbdhandler_queues :
    (s : Kbd) (scancode : ℕ)
    → IsValid s.key_input_buf
    → types s scancode ≡ true
    → Fits s.key_input_buf (queued s scancode ∷ [])
    → let s' = kbdhandler scancode s in
      (typed s' ≡ typed s ++ queued s scancode ∷ []) × IsValid s'.key_input_buf
unfolding kbdhandler
kbdhandler_queues s scancode v press fits =
    let (_, held, v') = ringbuf_put_refines s.key_input_buf (queued s scancode ∷ []) v fits in
    rw press (held, v')

-- A pressed key of a scancode below 128, with a character in the layout of the shift key's state before it, of
-- ascii: the handler appends exactly that character to those waiting to be read, while the ring has room for it
-- and one more, or has never been read past its first byte.
pub kbdhandler-types :
    (s : Kbd) (code : ℕ)
    → IsValid s.key_input_buf
    → code < 128
    → 0 < character s code
    → character s code < 128
    → Fits s.key_input_buf (character s code ∷ [])
    → let s' = kbdhandler code s in
      (typed s' ≡ typed s ++ character s code ∷ []) × IsValid s'.key_input_buf
kbdhandler-types s code v small some ascii fits =
    let (press, same) = queued_lem s code small some in
    let (held, v') =
      kbdhandler_queues s code v press
        (subst (λ (c : ℕ). Fits s.key_input_buf (c ∷ [])) (sym same) fits) in
    (held ∙ ap (λ (c : ℕ). typed s ++ c ∷ []) same, v')

-- A release, and a key with no character, leave the waiting characters alone.
pub kbdhandler_quiet :
    (s : Kbd) (scancode : ℕ)
    → types s scancode ≡ false
    → (kbdhandler scancode s).key_input_buf ≡ s.key_input_buf
unfolding kbdhandler
kbdhandler_quiet s scancode quiet = rw quiet refl

-- The key that takes the last free byte of a ring whose `start` is inside the block discards every
-- waiting character, itself included.
pub kbdhandler_loses :
    (s : Kbd) (scancode : ℕ)
    → IsValid s.key_input_buf
    → types s scancode ≡ true
    → 0 < s.key_input_buf.start
    → ringbuf_space s.key_input_buf ≡ 1
    → typed (kbdhandler scancode s) ≡ []
unfolding kbdhandler
kbdhandler_loses s scancode v press inside full = rw press (
    (ringbuf_put_fills s.key_input_buf (queued s scancode ∷ []) v inside (omega arith)
      (omega arith)).1)

-- With a character waiting, `kbd_getc` returns the oldest one, which leaves the ring; the modifiers
-- and key states are unchanged.
pub kbd_getc_nonempty :
    (s : Kbd) (ch : ℕ) (rest : List ℕ)
    → IsValid s.key_input_buf
    → typed s ≡ ch ∷ rest
    → let (out, s') = kbd_getc s in
      (out ≡ ch) × (typed s' ≡ rest) × IsValid s'.key_input_buf × (s'.keyboard ≡ s.keyboard)
unfolding kbd_getc
kbd_getc_nonempty s ch rest v e =
    let held : 1 ≤ ringbuf_len s.key_input_buf =
      omega (arith, Queue.ringbuf_len-contents s.key_input_buf v, ap length e) in
    let (out, left, v') = ringbuf_take_refines s.key_input_buf 1 v held in
    ground (arith, out, left, v', e)

-- With none waiting, `kbd_getc` returns KEY_NULL and changes nothing.
pub kbd_getc_empty : (s : Kbd) → IsValid s.key_input_buf → typed s ≡ [] → kbd_getc s ≡ (key_null, s)
unfolding kbd_getc
kbd_getc_empty s v e =
    rw (ringbuf_take_refuses s.key_input_buf 1 v (omega (arith, ap length e))) refl

-- Nothing that the handler queues is KEY_NULL, so a reader can tell a character from no character.
pub queued-ne-null :
    (s : Kbd) (scancode : ℕ) → types s scancode ≡ true → queued s scancode ≢ key_null
unfolding typed_char
queued-ne-null s scancode h = ground (arith, bit_or_pos (char_of s scancode))
  where
    bit_or_pos : (x : ℕ) → bit_or x 0x80 ≢ 0
    bit_or_pos x e = omega (arith, bit-bit_or x 0x80 7, ap (λ (t : ℕ). bit t 7) e)
