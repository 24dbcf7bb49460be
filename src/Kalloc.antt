-- ===== src/Kalloc.antt =====
-- src/kernel/memory/kalloc.c: the list of free pages, which runs through the pages themselves: the
-- first four bytes of a free page are the address of the next one.
pub mod Pages
pub mod Range
mod Tests
use legendary_journey.Base.{
  ℕ, zero, suc, ◌-◌, ◌%◌, Bool, true, false, not, Option, none, some, ltb, leb, ◌==◌, if◌then◌else◌,
  Block, le32, put32, add32, sub32,
}
use legendary_journey.Errno.{Errno, enomem}
use legendary_journey.Std.{memset}

-- the memory, the globals of kalloc.c, and `errno`
pub record Kalloc : Type 0 where
  pub mem : Block
  pub freemem : ℕ
  pub available : ℕ
  pub total : ℕ
  pub errno : Errno

-- The constants of the build and of the linker: KERNBASE, `end`, and KERNEL_MEM_END.
pub record Layout : Type 0 where
  pub kernbase : ℕ
  pub kernel_end : ℕ
  pub kernel_mem_end : ℕ

abbrev pub page_size : ℕ
page_size = 4096

-- `PGROUNDUP`, whose mask drops the last 12 bits
abbrev pub pgroundup : ℕ → ℕ
pgroundup a = let b = add32 a (page_size - 1) in b - b % page_size

-- the address 0 is NULL
unfoldable pub kalloc : Kalloc → ℕ × Kalloc
kalloc s =
    if s.freemem == 0
    then (0, record s { errno = enomem })
    else (s.freemem, record s { freemem = le32 s.mem s.freemem; available = sub32 s.available 1 })

-- the free list with the page put in front
unfoldable pub freed : ℕ → Kalloc → Kalloc
freed address s = record s {
  mem = put32 (memset address 0 page_size s.mem) address s.freemem;
  freemem = address;
  available = add32 s.available 1;
}

-- `none` is `STOP()`.
unfoldable pub kfree : Layout → ℕ → Kalloc → Option Kalloc
unfolding freed
kfree layout address s =
    if address == 0
    then some s
    else if not (address % page_size == 0)
    then none
    else if ltb address layout.kernel_end
    then none
    else if leb layout.kernel_mem_end (sub32 address layout.kernbase)
    then none
    else some (freed address s)

-- one round of the loop of `kfreerange`
unfoldable pub free_next : Layout → ℕ → Kalloc → Option Kalloc
free_next layout pstart s = elim (kfree layout pstart s) [
  | none ↦ none
  | some s' ↦ some (record s' { total = add32 s'.total 1 })
]

-- The loop of `kfreerange`; on fuel, since `pstart + PGSIZE` may wrap round.
unfoldable pub free_loop : Layout → ℕ → ℕ → ℕ → Kalloc → Option Kalloc
free_loop layout zero pstart end s = none
free_loop layout (suc fuel) pstart end s =
    if leb (add32 pstart page_size) end
    then elim (free_next layout pstart s) [
      | none ↦ none
      | some s' ↦ free_loop layout fuel (add32 pstart page_size) end s'
    ]
    else some s

unfoldable pub kfreerange : Layout → ℕ → ℕ → ℕ → Kalloc → Option Kalloc
unfolding free_loop
kfreerange layout fuel start end s = free_loop layout fuel (pgroundup start) end s
