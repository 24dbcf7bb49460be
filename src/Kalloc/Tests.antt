-- ===== src/Kalloc/Tests.antt =====
-- Runs of the page allocator, and its theorems at a concrete layout.
use legendary_journey.Base.{ℕ, ◌+◌, ◌≤◌, ◌<◌, ◌≡◌, ◌⊎◌, refl, some, none, [], ◌∷◌, arith}
use legendary_journey.Errno.{no_error}
use legendary_journey.Kalloc.{Kalloc, Layout, kfree, kfreerange}
use legendary_journey.Kalloc.Pages.{IsFree, Freeable, kfree_lem}
use legendary_journey.Kalloc.Range.{kfreerange_lem}

abbrev layout : Layout
layout = record { kernbase = 0x80000000; kernel_end = 0x80110000; kernel_mem_end = 0x200000 }

abbrev empty : Kalloc
empty = record { mem = λ _. 7; freemem = 0; available = 0; total = 0; errno = no_error }

abbrev none_free : IsFree empty []
none_free = record { linked = refl; counted = refl; few = omega arith }

abbrev page : ℕ
page = 0x80111000

abbrev freeable : Freeable layout page
freeable = record {
  not_null = omega arith;
  aligned = refl;
  fits = omega arith;
  above_kernel = omega arith;
  below_top = omega arith;
  in_memory = omega arith;
}

low_stops : kfree layout 0x80001000 empty ≡ none
unfolding kfree
low_stops = refl

kfree_lem_example :
    (s' : Kalloc) × (kfree layout page empty ≡ some s')
    × IsFree s' (page ∷ [])
    × ((i : ℕ) → (i < page) ⊎ (page + 4096 ≤ i) → s'.mem i ≡ 7)
    × (s'.total ≡ 0)
kfree_lem_example = kfree_lem layout page empty [] none_free freeable refl (omega arith)

kfreerange_lem_example :
    (s' : Kalloc) × (kfreerange layout 3 0x80110005 0x80113000 empty ≡ some s')
    × IsFree s' (0x80112000 ∷ 0x80111000 ∷ [])
    × (s'.total ≡ 2)
kfreerange_lem_example =
    kfreerange_lem layout 3 0x80110005 0x80113000 empty [] (omega arith) (omega arith) (omega arith)
      (omega arith) (omega arith) (omega arith) (omega arith) none_free (λ q h. refl) (omega arith)
      (omega arith)
