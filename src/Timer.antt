-- ===== src/Timer.antt =====
-- src/kernel/drivers/timer.c: the tick counter. A `halt` ends with the next interrupt, so the interrupts to come are a
-- list, `true` for one of the timer and `false` for any other one.
use legendary_journey.Base.{
  ℕ, zero, suc, ◌+◌, ◌/◌, ◌%◌, ◌^◌, Bool, true, false, Option, none, some, List, [], ◌∷◌, ltb,
  if◌then◌else◌, add32,
}
pub mod Wait
mod Tests

-- `timerinterrupt`
abbrev pub timerinterrupt : ℕ → ℕ
timerinterrupt ticks = add32 ticks 1

-- the bytes that `timersethz` writes, with their ports
unfoldable pub timersethz : ℕ → List (ℕ × ℕ)
timersethz hz =
    let divisor = 1193180 / hz % 2 ^ 16 in
    (0x43, 0x36) ∷ (0x40, divisor % 2 ^ 8) ∷ (0x40, divisor / 2 ^ 8 % 2 ^ 8) ∷ []

-- the ticks at the return; `none` is a wait that the interrupts do not end
unfoldable pub timer_wait_until : ℕ → List Bool → ℕ → Option ℕ
timer_wait_until time [] ticks = if ltb ticks time then none else some ticks
timer_wait_until time (event ∷ events) ticks =
    let rest = timer_wait_until time events (if event then timerinterrupt ticks else ticks) in
    if ltb ticks time then rest else some ticks

unfoldable pub timer_wait : ℕ → List Bool → ℕ → Option ℕ
unfolding timer_wait_until
timer_wait ticks events now = timer_wait_until (add32 now ticks) events now
