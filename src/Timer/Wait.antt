-- ===== src/Timer/Wait.antt =====
-- When a wait for the timer ends.
use legendary_journey.Base.{
  ℕ, ◌+◌, ◌≤◌, ◌<◌, ◌^◌, ◌≡◌, ◌∙◌, ap, Bool, true, false, some, List, [], ◌∷◌, arith, ltb,
  Bool-cases, inl, inr, if_true, if_false, add32, max,
}
use legendary_journey.Timer.{timer_wait_until, timer_wait}

-- how many interrupts are the timer's
abbrev pub timer_events : List Bool → ℕ
timer_events [] = 0
timer_events (true ∷ events) = timer_events events + 1
timer_events (false ∷ events) = timer_events events

-- With as many timer interrupts to come as there are ticks left, whatever other interrupts arrive between them,
-- `timer_wait_until` returns, and at exactly its time unless that was over before.
pub timer_wait_until_lem :
    (time : ℕ) (events : List Bool) (ticks : ℕ)
    → time < 2 ^ 32
    → time ≤ ticks + timer_events events
    → timer_wait_until time events ticks ≡ some (max ticks time)
unfolding timer_wait_until
timer_wait_until_lem time [] ticks small enough =
    let over : ltb ticks time ≡ false = ground (arith, enough) in
    let late : ticks ≡ max ticks time = omega (arith, enough) in if_false _ _ over ∙ ap some late
timer_wait_until_lem time (true ∷ events) ticks small enough = elim (Bool-cases (ltb ticks time)) [
  | inl early ↦
      let next : add32 ticks 1 ≡ ticks + 1 = ground (arith, early, small) in
      let same : max (add32 ticks 1) time ≡ max ticks time = ground (arith, early, next) in
      if_true _ _ early
      ∙ timer_wait_until_lem time events (add32 ticks 1) small (omega (arith, enough, next))
      ∙ ap some same
  | inr over ↦
      let late : ticks ≡ max ticks time = ground (arith, over) in if_false _ _ over ∙ ap some late
]
timer_wait_until_lem time (false ∷ events) ticks small enough = elim (Bool-cases (ltb ticks time)) [
  | inl early ↦ if_true _ _ early ∙ timer_wait_until_lem time events ticks small enough
  | inr over ↦
      let late : ticks ≡ max ticks time = ground (arith, over) in if_false _ _ over ∙ ap some late
]

-- A wait that would end after the counter wraps round ends at once.
pub timer_wait_wraps :
    (ticks : ℕ) (events : List Bool) (now : ℕ)
    → now < 2 ^ 32
    → ticks < 2 ^ 32
    → 2 ^ 32 ≤ now + ticks
    → timer_wait ticks events now ≡ some now
unfolding timer_wait timer_wait_until
timer_wait_wraps ticks [] now low short wraps =
    let over : ltb now (add32 now ticks) ≡ false = ground arith in if_false _ _ over
timer_wait_wraps ticks (event ∷ events) now low short wraps =
    let over : ltb now (add32 now ticks) ≡ false = ground arith in if_false _ _ over
