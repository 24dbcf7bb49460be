-- ===== src/Cpu/Dispatch.antt =====
-- What an interrupt line does once a handler is installed for it.
use Prim.Native.Nat.{bit_or}
use legendary_journey.Base.{
  ℕ, ◌+◌, ◌≤◌, ◌<◌, ◌^◌, ◌≡◌, ◌∙◌, refl, ap, true, false, Option, none, some, arith, ltb, leb, ◌==◌,
  if◌then◌else◌, if_true, if_false, bit, sub32,
}
use legendary_journey.Cpu.{
  IdtEntry, Isr, not_installed, exceptionhandler, irqstub, other_handler, Cpu, outb, idtenable,
  irqenable, irqsetmask, irqinstall, run_irqstub, isrhandler,
}
use legendary_journey.Cpu.Vectors.{gate_address, within}
use legendary_journey.Cpu.Start.{start, start_lem}
use legendary_journey.Cpu.Mask.{irqenable_lem}

-- the end of an interrupt of a line: the second controller is told before the first one
abbrev pub acknowledged : ℕ → Cpu → Cpu
acknowledged i s = outb 0x20 0x20 (if leb 8 i then outb 0xa0 0x20 s else s)

irqinstall-irqs : (i h : ℕ) (s : Cpu) → (irqinstall i h s).irqs i ≡ h
unfolding irqinstall irqenable irqsetmask idtenable
irqinstall-irqs i h s = let here : (i == i) ≡ true = ground arith in if_true _ _ here

irqinstall-isrs : (i h : ℕ) (s : Cpu) → (irqinstall i h s).isrs ≡ s.isrs
unfolding irqinstall irqenable irqsetmask idtenable
irqinstall-isrs i h s = refl

irqinstall-entry :
    (i h : ℕ) (s : Cpu)
    → (irqinstall i h s).entries (i + 32)
      ≡ (record (s.entries (i + 32)) { flags = bit_or (s.entries (i + 32)).flags 128 })
unfolding irqinstall irqenable irqsetmask idtenable
irqinstall-entry i h s = let here : (i + 32 == i + 32) ≡ true = ground arith in if_true _ _ here

irqinstall-mask :
    (i h n : ℕ) (s : Cpu)
    → i < 16
    → n < 16
    → bit (irqinstall i h s).mask n ≡ (if n == i then 0 else bit s.mask n)
unfolding irqinstall irqenable idtenable irqsetmask
irqinstall-mask i h n s hi hn = (irqenable_lem i n s hi hn).0

run_installed :
    (call : ℕ → ℕ → Cpu → Cpu) (i h : ℕ) (s : Cpu)
    → i < 16
    → 0 < h
    → s.irqs i ≡ h
    → run_irqstub call (i + 32) s ≡ acknowledged i (call h (i + 32) s)
unfolding run_irqstub
run_installed call i h s low some_handler there =
    let line : sub32 (i + 32) 32 ≡ i = omega (arith, low) in
    let present : (s.irqs i == 0) ≡ false = ground (arith, some_handler, there) in
    ap (λ (k : ℕ). acknowledged k (if s.irqs k == 0 then s else call (s.irqs k) (i + 32) s)) line
    ∙ ap (acknowledged i) (if_false _ _ present ∙ ap (λ (f : ℕ). call f (i + 32) s) there)

-- Once, after the start, a handler that is not NULL is installed for one of the 16 lines, the
-- gate of the line is present and leads to its stub, the line is not masked, and an interrupt on
-- it calls the handler once and then acknowledges it: to the second controller if the line is one
-- of its lines, and to the first.
pub irqinstall_lem :
    (call : ℕ → ℕ → Cpu → Cpu) (stubs : ℕ → ℕ) (s : Cpu) (i h : ℕ)
    → ((k : ℕ) → k < 256 → stubs k < 2 ^ 32)
    → i < 16
    → 0 < h
    → let s' = irqinstall i h (start stubs s) in
      (isrhandler call (i + 32) s' ≡ some (acknowledged i (call h (i + 32) s')))
      × (gate_address (s'.entries (i + 32)) ≡ stubs (i + 32))
      × ((s'.entries (i + 32)).flags ≡ 0x8E)
      × (bit s'.mask i ≡ 0)
unfolding isrhandler
irqinstall_lem call stubs s i h small low some_handler =
    let s' = irqinstall i h (start stubs s) in
    let vector = start_lem stubs s (i + 32) small (omega arith) in
    let entry = irqinstall-entry i h (start stubs s) in
    let upper : ltb (i + 32) 32 ≡ false = ground arith in
    let line : within 32 16 (i + 32) ≡ true = ground (arith, low) in
    let stub : s'.isrs (i + 32) ≡ irqstub =
      ap (λ (f : ℕ → Isr). f (i + 32)) (irqinstall-isrs i h (start stubs s))
      ∙ vector.3
      ∙ if_true _ _ line in
    let here : (i == i) ≡ true = ground arith in
    (
      ap (dispatch call (i + 32) s') stub
          ∙ ap (λ (t : Cpu). some t)
              (run_installed call i h s' low some_handler (irqinstall-irqs i h (start stubs s))),
      ap gate_address entry ∙ vector.0,
      ap (λ (e : IdtEntry). e.flags) entry
          ∙ ap (λ (f : ℕ). bit_or f 128) (vector.2 ∙ if_false _ _ upper),
      irqinstall-mask i h i (start stubs s) low low ∙ if_true _ _ here,
    )
  where
    dispatch : (ℕ → ℕ → Cpu → Cpu) → ℕ → Cpu → Isr → Option Cpu
    dispatch call int_no s isr = elim isr [
      | not_installed ↦ some s
      | exceptionhandler ↦ none
      | irqstub ↦ some (run_irqstub call int_no s)
      | other_handler f ↦ some (call f int_no s)
    ]

-- Installing a handler for a line of the second controller takes the mask from that line, but line 2,
-- by which the second controller is connected to the first, stays masked if it was.
pub irqinstall_cascade :
    (i h : ℕ) (s : Cpu)
    → 8 ≤ i
    → i < 16
    → bit s.mask 2 ≡ 1
    → (bit (irqinstall i h s).mask i ≡ 0) × (bit (irqinstall i h s).mask 2 ≡ 1)
irqinstall_cascade i h s second low masked =
    let here : (i == i) ≡ true = ground arith in
    let beside : (2 == i) ≡ false = ground (arith, second) in
    (
      irqinstall-mask i h i s low low ∙ if_true _ _ here,
      irqinstall-mask i h 2 s low (omega arith) ∙ if_false _ _ beside ∙ masked,
    )
