-- ===== src/BootScreen/Tests.antt =====
-- A run of the boot screen.
use legendary_journey.Base.{◌≡◌, refl, [], ◌∷◌}
use legendary_journey.BootScreen.{Console, checkcur, putc, puts}

-- at the last cell
abbrev at_end : Console
at_end = record { cells = λ i. i; curcol = 79; currow = 24; color = 0x0F00 }

back_to_top : (puts (65 ∷ []) at_end).currow ≡ 0
unfolding puts putc checkcur
back_to_top = refl
