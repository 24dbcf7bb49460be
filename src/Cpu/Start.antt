-- ===== src/Cpu/Start.antt =====
-- The interrupt table after the start: where its gates lead, and what is called for an interrupt.
use Prim.Native.Nat.{bit_or}
use legendary_journey.Base.{
  ℕ, zero, suc, ◌+◌, ◌<◌, ◌^◌, ◌≡◌, ◌∙◌, refl, ap, Bool, true, false, arith, ltb, if◌then◌else◌,
}
use legendary_journey.Cpu.{
  IdtEntry, Isr, exceptionhandler, irqstub, Cpu, idtset, idtinit, fill_from, isrfillstubs, isrinit,
  irqsetmask, irqremap, irqinit, stub_flags,
}
use legendary_journey.Cpu.Vectors.{
  gate_address, idtset_lem, fill_from_lem, within, install_exceptions_isrs, install_stubs_isrs,
  install_stubs_entries, enabled, install_exceptions_entries,
}

-- the calls of the kernel's start, in their order
abbrev pub start : (ℕ → ℕ) → Cpu → Cpu
start stubs s = irqinit (isrinit stubs (idtinit s))

start_entries :
    (stubs : ℕ → ℕ) (s : Cpu) (i : ℕ)
    → (start stubs s).entries i ≡ (
        if within 0 32 i
        then enabled ((isrfillstubs stubs (idtinit s)).entries i)
        else (isrfillstubs stubs (idtinit s)).entries i)
unfolding irqinit isrinit irqremap irqsetmask
start_entries stubs s i =
    ap (λ (f : ℕ → IdtEntry). f i)
      (install_stubs_entries 16 0 (irqremap 32 40 (isrinit stubs (idtinit s))))
    ∙ install_exceptions_entries 32 0 (isrfillstubs stubs (idtinit s)) i

fill_from_isrs : (stubs : ℕ → ℕ) (n from : ℕ) (s : Cpu) → (fill_from stubs n from s).isrs ≡ s.isrs
unfolding fill_from idtset
fill_from_isrs stubs zero from s = refl
fill_from_isrs stubs (suc n) from s =
    fill_from_isrs stubs n (from + 1) (idtset from (stubs from) 8 stub_flags s)

start_isrs :
    (stubs : ℕ → ℕ) (s : Cpu) (i : ℕ)
    → (start stubs s).isrs i
      ≡ (if within 32 16 i then irqstub else if within 0 32 i then exceptionhandler else s.isrs i)
unfolding irqinit isrinit irqremap irqsetmask isrfillstubs idtinit
start_isrs stubs s i =
    install_stubs_isrs 16 0 (irqremap 32 40 (isrinit stubs (idtinit s))) i (omega arith)
    ∙ ap (λ (x : Isr). if within 32 16 i then irqstub else x)
        (install_exceptions_isrs 32 0 (isrfillstubs stubs (idtinit s)) i (omega arith)
          ∙ ap (λ (f : ℕ → Isr). if within 0 32 i then exceptionhandler else f i)
              (fill_from_isrs stubs 256 0 (idtinit s)))

below : (i : ℕ) → within 0 32 i ≡ ltb i 32
below i = ground arith

-- After the start every gate leads to the stub of its number, in the code segment. The
-- gates of the 32 exceptions are present and lead to the exception handler, those of the 16 lines of the interrupt controllers are not
-- yet present and lead to `irqstub`.
pub start_lem :
    (stubs : ℕ → ℕ) (s : Cpu) (i : ℕ)
    → ((k : ℕ) → k < 256 → stubs k < 2 ^ 32)
    → i < 256
    → (gate_address ((start stubs s).entries i) ≡ stubs i)
      × (((start stubs s).entries i).selector ≡ 8)
      × (((start stubs s).entries i).flags ≡ (if ltb i 32 then 0x8E else 0x0E))
      × ((start stubs s).isrs i ≡ (
          if within 32 16 i then irqstub else if within 0 32 i then exceptionhandler else s.isrs i))
unfolding isrfillstubs
start_lem stubs s i small low =
    let filled = isrfillstubs stubs (idtinit s) in
    let address : gate_address (filled.entries i) ≡ stubs i =
      fill_from_lem gate_address stubs 256 0 (idtinit s) i (stubs i)
        (λ s'. (idtset_lem i (stubs i) 8 stub_flags s' (small i low)).0) (omega arith) low in
    let selector : (filled.entries i).selector ≡ 8 =
      fill_from_lem (λ e. e.selector) stubs 256 0 (idtinit s) i 8
        (λ s'. (idtset_lem i (stubs i) 8 stub_flags s' (small i low)).1) (omega arith) low in
    let flags : (filled.entries i).flags ≡ 14 =
      fill_from_lem (λ e. e.flags) stubs 256 0 (idtinit s) i 14
        (λ s'. (idtset_lem i (stubs i) 8 stub_flags s' (small i low)).2) (omega arith) low in
    let entry = start_entries stubs s i in
    (
      ap gate_address entry ∙ both gate_address (within 0 32 i) (filled.entries i) refl ∙ address,
      ap (λ (e : IdtEntry). e.selector) entry
          ∙ both (λ e. e.selector) (within 0 32 i) (filled.entries i) refl
          ∙ selector,
      ap (λ (e : IdtEntry). e.flags) entry
          ∙ flags_of (within 0 32 i) (filled.entries i) flags
          ∙ ap (λ (b : Bool). if b then 0x8E else 0x0E) (below i),
      start_isrs stubs s i,
    )
  where
    both :
        (read : IdtEntry → ℕ) (b : Bool) (e : IdtEntry)
        → read (enabled e) ≡ read e
        → read (if b then enabled e else e) ≡ read e
    both read true e same = same
    both read false e same = refl

    flags_of :
        (b : Bool) (e : IdtEntry)
        → e.flags ≡ 14
        → (if b then enabled e else e).flags ≡ (if b then 0x8E else 0x0E)
    flags_of true e h = ap (λ (f : ℕ). bit_or f 128) h
    flags_of false e h = h
