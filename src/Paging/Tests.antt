-- ===== src/Paging/Tests.antt =====
-- Theorems of paging at a concrete directory.
use legendary_journey.Base.{
  ℕ, ◌/◌, ◌<◌, ◌^◌, ◌≡◌, refl, inr, true, some, arith, ◌==◌, if◌then◌else◌, le32, Block,
}
use legendary_journey.Errno.{no_error}
use legendary_journey.Kalloc.{Kalloc, Layout, kalloc}
use legendary_journey.Paging.{pg_map, pg_is_present}
use legendary_journey.Paging.Walk.{Directory, translate}
use legendary_journey.Paging.Table.{Fresh}
use legendary_journey.Paging.Map.{moved_to, pg_map_lem}
use legendary_journey.Paging.Present.{leads_somewhere, pg_is_present_lem}

abbrev layout : Layout
layout = record { kernbase = 0x80000000; kernel_end = 0x80110000; kernel_mem_end = 0x200000 }

-- an empty directory, and one free page
abbrev memory : Kalloc
memory = record { mem = λ _. 0; freemem = 0x80112000; available = 1; total = 2; errno = no_error }

abbrev pgdir : ℕ
pgdir = 0x80111000

abbrev empty_memory : Block
empty_memory = λ _. 0

directory : Directory 0x80000000 empty_memory pgdir
unfolding le32
directory = record {
  page = record { not_null = omega arith; aligned = refl; fits = omega arith };
  table_page = λ i h there. absurd (ground (arith, there));
  apart = λ i h there. absurd (ground (arith, there));
  distinct = λ i j hi hj there. absurd (ground (arith, there));
}

fresh : Fresh 0x80000000 memory pgdir 0x80112000
unfolding le32 kalloc
fresh = record {
  got = refl;
  page = record { not_null = omega arith; aligned = refl; fits = omega arith };
  not_directory = λ e. absurd (omega (arith, e));
  not_table = λ i h there. absurd (ground (arith, there));
}

pg_map_lem_example :
    (s' : Kalloc) × (pg_map layout pgdir 0x5000 0x400123 7 memory ≡ some (true, s'))
    × Directory 0x80000000 s'.mem pgdir
    × ((va : ℕ)
        → va < 2 ^ 32
        → translate 0x80000000 s'.mem pgdir va ≡ (
            if va / 4096 == 1024
            then moved_to 0x5000 va
            else translate 0x80000000 empty_memory pgdir va))
unfolding le32 translate
pg_map_lem_example =
    pg_map_lem layout memory pgdir 0x400123 0x5000 7 directory (inr (refl, 0x80112000, fresh)) refl
      (omega arith) (omega arith) (omega arith) (omega arith) refl (omega arith) refl

pg_is_present_lem_example :
    pg_is_present layout pgdir 0x400123 memory
    ≡ leads_somewhere (translate 0x80000000 empty_memory pgdir 0x400000)
pg_is_present_lem_example = pg_is_present_lem layout memory pgdir 0x400123 directory
