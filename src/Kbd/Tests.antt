-- ===== src/Kbd/Tests.antt =====
-- Runs of the keyboard driver, and its theorems at concrete states.
use legendary_journey.Base.{◌≡◌, refl, inr, [], ◌∷◌, ◌++◌, arith, slice, blit}
use legendary_journey.RingBuf.{ringbuf_space, ringbuf_put}
use legendary_journey.RingBuf.Queue.{IsValid}
use legendary_journey.Kbd.{Kbd, Keyboard, getkeychar, typed_char, kbdhandler, mods_after, bit_set}
use legendary_journey.Kbd.Typing.{typed, kbdhandler-types}
use legendary_journey.Kbd.Blocking.{interrupts}

abbrev idle : Keyboard
idle = record { mods = 0; keys = λ _. 0; chars = λ _. 0; behind = λ _. 0 }

abbrev fresh : Kbd
fresh = record {
  keyboard = idle;
  key_input_buf = record { buffer = λ _. 0; cap = 4096; start = 0; end = 0 };
}

-- 4095 of 4096 bytes are waiting, and the first byte has been read
abbrev crowded : Kbd
crowded = record fresh {
  key_input_buf = record { buffer = λ _. 65; cap = 4096; start = 1; end = 4096 };
}

-- shift down, H, shift up, I
typing : typed (interrupts (0x2A ∷ 0x23 ∷ 0xA3 ∷ 0xAA ∷ 0x17 ∷ []) fresh) ≡ b'H' ∷ b'i' ∷ []
unfolding interrupts kbdhandler getkeychar mods_after bit_set typed_char ringbuf_put slice blit
typing = refl

kbdhandler-types_example :
    let s' = kbdhandler 0x23 fresh in
    (typed s' ≡ typed fresh ++ b'h' ∷ []) × IsValid s'.key_input_buf
unfolding ringbuf_space
kbdhandler-types_example =
    kbdhandler-types fresh 0x23 (omega arith) (omega arith) (omega arith) (omega arith)
      (omega arith, inr refl)

abbrev one_waiting : Kbd
one_waiting = record fresh {
  key_input_buf = record { buffer = λ _. 65; cap = 4096; start = 3; end = 4 };
}
