-- ===== src/Paging.antt =====
-- src/kernel/memory/virtmem.c: page directories and page tables, which stand in the memory of the
-- page allocator. An address is one of the kernel, and `Layout.kernbase` is its distance from the
-- physical address.
use Prim.Native.Nat.{bit_or}
use legendary_journey.Base.{
  ℕ, zero, suc, ◌+◌, ◌-◌, ◌*◌, ◌/◌, ◌%◌, ◌^◌, Bool, true, false, not, ◌&&◌, ◌||◌, List, [], ◌∷◌,
  Option, none, some, ltb, leb, ◌==◌, if◌then◌else◌, Block, le32, put32, add32, sub32, ℤ, pos,
  negsuc, ◌>>=◌,
}
use legendary_journey.Std.{memset}
use legendary_journey.Kalloc.{Kalloc, Layout, page_size, kalloc, kfree}
pub mod Walk
pub mod Entered
pub mod Table
pub mod Entry
pub mod Map
pub mod Present
mod Tests

abbrev pub pgrounddown : ℕ → ℕ
pgrounddown a = a - a % page_size

abbrev pub pdx : ℕ → ℕ
pdx va = va / 2 ^ 22 % 1024

abbrev pub ptx : ℕ → ℕ
ptx va = va / 2 ^ 12 % 1024

-- `PTE_ADDR`
abbrev pub pte_addr : ℕ → ℕ
pte_addr entry = entry - entry % page_size

-- `entry & PTE_P`
abbrev pub is_present : ℕ → Bool
is_present entry = not (entry % 2 == 0)

module _ (layout : Layout) where
  open layout use {kernbase}

  -- the address of the entry of an address in its page table; 0 is NULL
  unfoldable pub walkpgdir : ℕ → ℕ → Bool → Kalloc → ℕ × Kalloc
  walkpgdir pgdir va alloc s =
      let pde = add32 pgdir (4 * pdx va) in
      let (pgtab, s') = kalloc s in
      let entry = bit_or (sub32 pgtab kernbase) 7 in
      if is_present (le32 s.mem pde)
      then (add32 (add32 (pte_addr (le32 s.mem pde)) kernbase) (4 * ptx va), s)
      else if not alloc
      then (0, s)
      else if pgtab == 0
      then (0, s')
      else (
        add32 pgtab (4 * ptx va),
        record s' { mem = put32 (memset pgtab 0 page_size s'.mem) pde entry },
      )

  -- The loop of `mappages`: a result below 0 is that no page was left, and `none` is `STOP()`, or a
  -- range of more pages than the fuel.
  unfoldable pub map_loop : ℕ → ℕ → ℕ → ℕ → ℕ → ℕ → Kalloc → Option (ℤ × Kalloc)
  unfolding walkpgdir
  map_loop zero pgdir a last pa perm s = none
  map_loop (suc fuel) pgdir a last pa perm s =
      let (pte, s') = walkpgdir pgdir a true s in
      let s'' = record s' { mem = put32 s'.mem pte (bit_or (bit_or pa perm) 1) } in
      let rest = map_loop fuel pgdir (add32 a page_size) last (add32 pa page_size) perm s'' in
      if pte == 0
      then some ((negsuc 0, s'))
      else if is_present (le32 s'.mem pte)
      then none
      else if a == last
      then some ((pos 0, s''))
      else rest

  unfoldable pub mappages : ℕ → ℕ → ℕ → ℕ → ℕ → ℕ → Kalloc → Option (ℤ × Kalloc)
  unfolding map_loop
  mappages fuel pgdir va size pa perm s =
      map_loop fuel pgdir (pgrounddown va) (pgrounddown (sub32 (add32 va size) 1)) pa perm s

  unfoldable pub pg_is_present : ℕ → ℕ → Kalloc → Bool
  unfolding walkpgdir
  pg_is_present pgdir ptr s =
      let (pte, s') = walkpgdir pgdir (pgrounddown ptr) false s in
      not (pte == 0) && is_present (le32 s'.mem pte)

  -- `none` is a NULL pointer that is followed.
  unfoldable pub pg_map : ℕ → ℕ → ℕ → ℕ → Kalloc → Option (Bool × Kalloc)
  unfolding walkpgdir
  pg_map pgdir page_addr virt_addr perm s =
      let (pte, s') = walkpgdir pgdir (pgrounddown virt_addr) true s in
      let flag = if page_addr == 0 then 0 else 1 in
      let entry = bit_or (bit_or (pgrounddown page_addr) perm) flag in
      if pte == 0
      then none
      else if not (page_addr == 0) && is_present (le32 s'.mem pte)
      then some ((false, s'))
      else some ((true, record s' { mem = put32 s'.mem pte entry }))

  -- the loop of `pg_map_range` that looks for addresses in use
  unfoldable pub none_present : ℕ → ℕ → ℕ → Kalloc → Bool × Kalloc
  unfolding walkpgdir
  none_present zero pgdir virt_addr s = (true, s)
  none_present (suc n) pgdir virt_addr s =
      let (pte, s') = walkpgdir pgdir (pgrounddown virt_addr) true s in
      let rest = none_present n pgdir (add32 virt_addr page_size) s' in
      if (pte == 0) || is_present (le32 s'.mem pte) then (false, s') else rest

  -- the loop of `pg_map_range` that maps
  unfoldable pub map_pages : ℕ → ℕ → ℕ → ℕ → Kalloc → Option (Bool × Kalloc)
  unfolding pg_map
  map_pages zero pgdir virt_addr perm s = some ((true, s))
  map_pages (suc n) pgdir virt_addr perm s =
      let (new_page, s') = kalloc s in
      let mapped = (do
        (more, s'') ← pg_map pgdir (sub32 new_page kernbase) virt_addr perm s'
        let rest = map_pages n pgdir (add32 virt_addr page_size) perm s''
        if more then rest else some ((false, s''))) in
      if new_page == 0 then some ((false, s')) else mapped

  unfoldable pub pg_map_range : ℕ → ℕ → ℕ → ℕ → Kalloc → Option (Bool × Kalloc)
  unfolding none_present map_pages
  pg_map_range pgdir virt_addr page_count perm s =
      let (free, s') = none_present page_count pgdir virt_addr s in
      let mapped = map_pages page_count pgdir virt_addr perm s' in
      if free then mapped else some ((false, s'))

  -- `none` is the `STOP()` of `kfree`.
  unfoldable pub pg_unmap_range : ℕ → ℕ → ℕ → Kalloc → Option Kalloc
  unfolding walkpgdir
  pg_unmap_range pgdir virt_addr zero s = some s
  pg_unmap_range pgdir virt_addr (suc n) s =
      let (pte, s') = walkpgdir pgdir virt_addr false s in
      let skip = pg_unmap_range pgdir (add32 virt_addr page_size) n s' in
      let unmapped = (do
        s'' ← kfree layout (add32 (pte_addr (le32 s'.mem pte)) kernbase) s'
        pg_unmap_range pgdir (add32 virt_addr page_size) n
            (record s'' { mem = put32 s''.mem pte 0 })) in
      if pte == 0 then skip else unmapped

-- a row of the table `kmap`
pub record Kmap : Type 0 where
  pub virt : ℕ
  pub phystart : ℕ
  pub phyend : ℕ
  pub perm : ℕ

abbrev pub extmem : ℕ
extmem = 0x100000

abbrev pub pte_w : ℕ
pte_w = 2

-- the end of memory, or the last address where it would not fit behind `KERNBASE`
abbrev pub memory_end : Layout → ℕ
memory_end layout =
    if ltb (2 ^ 32 - 1 - layout.kernel_mem_end) layout.kernbase
    then 2 ^ 32 - 1
    else layout.kernel_mem_end

-- the kernel's mappings, with the address `data` of the linker
abbrev pub kmap : Layout → ℕ → List Kmap
kmap layout data_start =
    record { virt = layout.kernbase; phystart = 0; phyend = extmem; perm = pte_w }
    ∷ record {
      virt = add32 layout.kernbase extmem;
      phystart = extmem;
      phyend = sub32 data_start layout.kernbase;
      perm = 0;
    }
    ∷ record {
      virt = data_start;
      phystart = sub32 data_start layout.kernbase;
      phyend = memory_end layout;
      perm = pte_w;
    }
    ∷ []

-- the loop of `kpginit`; `none` is `STOP()`
unfoldable pub map_regions : Layout → ℕ → ℕ → List Kmap → Kalloc → Option Kalloc
unfolding mappages
map_regions layout fuel pgdir [] s = some s
map_regions layout fuel pgdir (k ∷ ks) s = do
  (success, s') ← mappages layout fuel pgdir k.virt (sub32 k.phyend k.phystart) k.phystart k.perm s
  elim success [ pos n ↦ map_regions layout fuel pgdir ks s' | negsuc n ↦ none ]

-- the kernel's directory, and the memory with it
unfoldable pub kpginit : Layout → ℕ → ℕ → Kalloc → Option (ℕ × Kalloc)
unfolding map_regions
kpginit layout fuel data_start s =
    let (kpgdir, s') = kalloc s in
    do
      s'' ←
          map_regions layout fuel kpgdir (kmap layout data_start)
            (record s' { mem = memset kpgdir 0 page_size s'.mem })
      some ((kpgdir, s''))
