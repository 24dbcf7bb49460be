-- ===== src/Timer/Tests.antt =====
-- Theorems of the timer at concrete interrupts.
use legendary_journey.Base.{◌≡◌, refl, true, false, some, [], ◌∷◌, arith}
use legendary_journey.Timer.{timersethz, timer_wait_until, timer_wait}
use legendary_journey.Timer.Wait.{timer_wait_until_lem, timer_wait_wraps}

thousand_hertz : timersethz 1000 ≡ (0x43, 0x36) ∷ (0x40, 0xa9) ∷ (0x40, 4) ∷ []
unfolding timersethz
thousand_hertz = refl

timer_wait_until_lem_example : timer_wait_until 7 (true ∷ false ∷ true ∷ []) 5 ≡ some 7
timer_wait_until_lem_example =
    timer_wait_until_lem 7 (true ∷ false ∷ true ∷ []) 5 (omega arith) (omega arith)

timer_wraps : timer_wait 10 [] 4294967290 ≡ some 4294967290
timer_wraps = timer_wait_wraps 10 [] 4294967290 (omega arith) (omega arith) (omega arith)
