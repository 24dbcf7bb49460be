-- ===== src/Cpu/Tests.antt =====
-- The descriptors of the segments, and theorems of the interrupt tables at a concrete processor.
use legendary_journey.Base.{ℕ, ◌+◌, ◌≡◌, refl, some, [], arith, bit}
use legendary_journey.Cpu.{not_installed, irqstub, Cpu, irqinstall, isrhandler}
use legendary_journey.Cpu.Gdt.{
  descriptor, code_segment, data_segment, user_code_segment, user_data_segment,
}
use legendary_journey.Cpu.Vectors.{gate_address}
use legendary_journey.Cpu.Start.{start, start_lem}
use legendary_journey.Cpu.Dispatch.{acknowledged, irqinstall_lem}

descriptors :
    (descriptor code_segment ≡ 0x00CF9A000000FFFF)
    × (descriptor data_segment ≡ 0x00CF92000000FFFF)
    × (descriptor user_code_segment ≡ 0x00DFFA000000FFFF)
    × (descriptor user_data_segment ≡ 0x00DFF2000000FFFF)
unfolding descriptor
descriptors = (refl, refl, refl, refl)

abbrev processor : Cpu
processor = record {
  entries = λ _. record { offset_lo = 7; selector = 7; reserved = 0; flags = 7; offset_hi = 7 };
  isrs = λ _. not_installed;
  irqs = λ _. 0;
  mask = 0xFFFF;
  autoeoi = 0;
  ports = [];
}

abbrev stubs : ℕ → ℕ
stubs i = 0x80100000 + i

-- a handler that leaves the tables alone
abbrev call : ℕ → ℕ → Cpu → Cpu
call f int_no s = s

start_lem_example :
    (gate_address ((start stubs processor).entries 33) ≡ 0x80100021)
    × (((start stubs processor).entries 33).selector ≡ 8)
    × (((start stubs processor).entries 33).flags ≡ 0x0E)
    × ((start stubs processor).isrs 33 ≡ irqstub)
start_lem_example = start_lem stubs processor 33 (λ k h. omega (arith, h)) (omega arith)

irqinstall_lem_example :
    (isrhandler call 33 (irqinstall 1 0x80105000 (start stubs processor))
      ≡ some (acknowledged 1 (irqinstall 1 0x80105000 (start stubs processor))))
    × (gate_address ((irqinstall 1 0x80105000 (start stubs processor)).entries 33) ≡ 0x80100021)
    × (((irqinstall 1 0x80105000 (start stubs processor)).entries 33).flags ≡ 0x8E)
    × (bit (irqinstall 1 0x80105000 (start stubs processor)).mask 1 ≡ 0)
irqinstall_lem_example =
    irqinstall_lem call stubs processor 1 0x80105000 (λ k h. omega (arith, h)) (omega arith)
      (omega arith)
