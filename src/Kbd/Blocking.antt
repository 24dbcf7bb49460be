-- ===== src/Kbd/Blocking.antt =====
-- The blocking reader against the interrupts that wake it.
use legendary_journey.Base.{ℕ, ◌≡◌, false, List, [], ◌∷◌}
use legendary_journey.Kbd.{Kbd, kbdhandler}
use legendary_journey.Kbd.Typing.{types}

-- the state after some interrupts
unfoldable pub interrupts : List ℕ → Kbd → Kbd
interrupts [] s = s
interrupts (code ∷ codes) s = interrupts codes (kbdhandler code s)

-- none of the scancodes, in this order, queues a character
abbrev pub Quiet : List ℕ → Kbd → Type 0
Quiet [] s = Unit
Quiet (code ∷ codes) s = (types s code ≡ false) × Quiet codes (kbdhandler code s)
