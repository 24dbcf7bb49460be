-- ===== src/Cpu.antt =====
-- src/kernel/cpu/idt.c, isr.c and irq.c: the interrupt table, and the way from an interrupt to its
-- handler. A handler is the address of a function, and 0 is NULL.
use Prim.Native.Nat.{bit_and, bit_or}
use legendary_journey.Base.{
  ℕ, zero, suc, ◌+◌, ◌-◌, ◌*◌, ◌/◌, ◌%◌, ◌^◌, Bool, true, false, Option, none, some, List, [], ◌∷◌,
  ltb, leb, ◌==◌, if◌then◌else◌, write, sub32, add32,
}
pub mod Gdt
pub mod Vectors
pub mod Start
pub mod Mask
pub mod Dispatch
mod Tests

-- `struct idtentry`
pub record IdtEntry : Type 0 where
  pub offset_lo : ℕ
  pub selector : ℕ
  pub reserved : ℕ
  pub flags : ℕ
  pub offset_hi : ℕ

-- what `isr.c` calls for an interrupt
pub data Isr : Type 0 where
  not_installed : Isr
  exceptionhandler : Isr
  irqstub : Isr
  other_handler : ℕ → Isr

-- the interrupt table, the handlers of `isr.c` and of `irq.c`, the globals of `irq.c`, and the bytes written to
-- ports, the last one first
pub record Cpu : Type 0 where
  pub entries : ℕ → IdtEntry
  pub isrs : ℕ → Isr
  pub irqs : ℕ → ℕ
  pub mask : ℕ
  pub autoeoi : ℕ
  pub ports : List (ℕ × ℕ)

abbrev pub idt_flag_present : ℕ
idt_flag_present = 0x80

-- `IDT_FLAG_RING0 | IDT_FLAG_GATE_32BIT_INT`
abbrev pub stub_flags : ℕ
stub_flags = 14

abbrev pub outb : ℕ → ℕ → Cpu → Cpu
outb port byte s = record s { ports = (port, byte) ∷ s.ports }

-- one entry of a table replaced
abbrev pub replaced {ℓ} : {A : Type ℓ} → (ℕ → A) → ℕ → A → ℕ → A
replaced f at a i = if i == at then a else f i

abbrev pub set_flags : ℕ → ℕ → Cpu → Cpu
set_flags index flags s = record s {
  entries = replaced s.entries index (record (s.entries index) { flags = flags });
}

unfoldable pub idtset : ℕ → ℕ → ℕ → ℕ → Cpu → Cpu
idtset index base selector flags s = record s {
  entries = replaced s.entries index (record {
    offset_lo = base % 2 ^ 16;
    selector = selector;
    reserved = (s.entries index).reserved;
    flags = flags;
    offset_hi = base / 2 ^ 16 % 2 ^ 16;
  });
}

unfoldable pub idtenable : ℕ → Cpu → Cpu
idtenable index s = set_flags index (bit_or (s.entries index).flags idt_flag_present) s

-- `~0x80` of a byte
unfoldable pub idtdisable : ℕ → Cpu → Cpu
idtdisable index s = set_flags index (bit_and (s.entries index).flags (255 - idt_flag_present)) s

unfoldable pub idtinit : Cpu → Cpu
idtinit s = record s {
  entries = λ i.
      if ltb i 256
      then record { offset_lo = 0; selector = 0; reserved = 0; flags = 0; offset_hi = 0 }
      else s.entries i;
}

-- the stub of every interrupt from `i` on, with the addresses of the stubs
unfoldable pub fill_from : (ℕ → ℕ) → ℕ → ℕ → Cpu → Cpu
unfolding idtset
fill_from stubs zero i s = s
fill_from stubs (suc n) i s = fill_from stubs n (i + 1) (idtset i (stubs i) 8 stub_flags s)

unfoldable pub isrfillstubs : (ℕ → ℕ) → Cpu → Cpu
unfolding fill_from
isrfillstubs stubs s = fill_from stubs 256 0 s

unfoldable pub isrinstall : ℕ → Isr → Cpu → Cpu
isrinstall i handler s = record s { isrs = replaced s.isrs (i % 256) handler }

-- the loop of `isrinit`
unfoldable pub install_exceptions : ℕ → ℕ → Cpu → Cpu
unfolding isrinstall idtenable
install_exceptions zero i s = s
install_exceptions (suc n) i s =
    install_exceptions n (i + 1) (idtenable i (isrinstall i exceptionhandler s))

unfoldable pub isrinit : (ℕ → ℕ) → Cpu → Cpu
unfolding isrfillstubs install_exceptions
isrinit stubs s = install_exceptions 32 0 (isrfillstubs stubs s)

abbrev pub pic1_command : ℕ
pic1_command = 0x20

abbrev pub pic1_data : ℕ
pic1_data = 0x21

abbrev pub pic2_command : ℕ
pic2_command = 0xa0

abbrev pub pic2_data : ℕ
pic2_data = 0xa1

abbrev pub pic_eoi : ℕ
pic_eoi = 0x20

abbrev pub pic_remap_offset : ℕ
pic_remap_offset = 0x20

unfoldable pub irqsetmask : ℕ → Cpu → Cpu
irqsetmask new_mask s =
    outb pic2_data (new_mask / 2 ^ 8)
      (outb pic1_data (new_mask % 2 ^ 8) (record s { mask = new_mask }))

unfoldable pub irqremap : ℕ → ℕ → Cpu → Cpu
unfolding irqsetmask
irqremap offset_pic1 offset_pic2 s =
    let s₁ = irqsetmask s.mask s in
    let s₂ = outb pic2_command 0x11 (outb pic1_command 0x11 s₁) in
    let s₃ = outb pic2_data offset_pic2 (outb pic1_data offset_pic1 s₂) in
    let s₄ = outb pic2_data 0x2 (outb pic1_data 0x4 s₃) in
    let ecw4 = if s.autoeoi == 0 then 0x1 else 0x3 in
    let s₅ = outb pic2_data ecw4 (outb pic1_data ecw4 s₄) in irqsetmask s₅.mask s₅

-- `mask & ~(1 << i)`, in 32 bits
unfoldable pub irqenable : ℕ → Cpu → Cpu
unfolding irqsetmask
irqenable i s = irqsetmask (bit_and s.mask (2 ^ 32 - 1 - 2 ^ i) % 2 ^ 16) s

unfoldable pub irqdisable : ℕ → Cpu → Cpu
unfolding irqsetmask
irqdisable i s = irqsetmask (bit_or s.mask (2 ^ i) % 2 ^ 16) s

unfoldable pub irqinstall : ℕ → ℕ → Cpu → Cpu
unfolding irqenable idtenable
irqinstall i handler s =
    idtenable (i + pic_remap_offset) (irqenable i (record s { irqs = replaced s.irqs i handler }))

-- the loop of `irqinit`
unfoldable pub install_stubs : ℕ → ℕ → Cpu → Cpu
unfolding isrinstall
install_stubs zero i s = s
install_stubs (suc n) i s = install_stubs n (i + 1) (isrinstall (pic_remap_offset + i) irqstub s)

unfoldable pub irqinit : Cpu → Cpu
unfolding irqremap install_stubs
irqinit s = install_stubs 16 0 (irqremap pic_remap_offset (pic_remap_offset + 8) s)

-- What a handler does to the processor's tables and ports is a parameter.
module _ (call : ℕ → ℕ → Cpu → Cpu) where
  -- `irqstub` for an interrupt
  unfoldable pub run_irqstub : ℕ → Cpu → Cpu
  run_irqstub int_no s =
      let irq = sub32 int_no pic_remap_offset in
      let s₁ = if s.irqs irq == 0 then s else call (s.irqs irq) int_no s in
      let s₂ = if leb 8 irq then outb pic2_command pic_eoi s₁ else s₁ in
      outb pic1_command pic_eoi s₂

  -- `none` is the `STOP()` of `exceptionhandler`.
  unfoldable pub isrhandler : ℕ → Cpu → Option Cpu
  unfolding run_irqstub
  isrhandler int_no s = elim (s.isrs int_no) [
    | not_installed ↦ some s
    | exceptionhandler ↦ none
    | irqstub ↦ some (run_irqstub int_no s)
    | other_handler f ↦ some (call f int_no s)
  ]
