-- ===== src/Kalloc/Range.antt =====
-- The pages that `kfreerange` gives to the free list.
use legendary_journey.Base.{
  ℕ, zero, suc, ◌+◌, ◌-◌, ◌*◌, ◌/◌, ◌%◌, ◌≤◌, ◌<◌, ◌^◌, ◌≡◌, ◌∙◌, refl, true, false, some, List,
  ◌∷◌, arith, leb, add32, length, has,
}
use legendary_journey.Kalloc.{
  Kalloc, Layout, page_size, pgroundup, free_next, free_loop, kfreerange,
}
use legendary_journey.Kalloc.Pages.{IsFree, Freeable, kfree_lem}

-- `n` pages from `p` on, put in front one after the other
abbrev pub stacked : ℕ → ℕ → List ℕ → List ℕ
stacked p zero pages = pages
stacked p (suc n) pages = stacked (p + page_size) n (p ∷ pages)

module _ (layout : Layout) where
  free_next_lem :
      (p : ℕ) (s : Kalloc) (pages : List ℕ)
      → IsFree s pages
      → Freeable layout p
      → has p pages ≡ false
      → length pages + 1 < 2 ^ 20
      → s.total + 1 < 2 ^ 32
      → (s' : Kalloc) × (free_next layout p s ≡ some s')
        × IsFree s' (p ∷ pages)
        × (s'.total ≡ s.total + 1)
  unfolding free_next
  free_next_lem p s pages free ok out few fits =
      let (s', run, free', _, total) = kfree_lem layout p s pages free ok out few in
      (
        record s' { total = add32 s'.total 1 },
        rw (run, free_next) refl,
        record { linked = free'.linked; counted = free'.counted; few = free'.few },
        omega (arith, total),
      )

  free_step :
      (fuel p end : ℕ) (s s₁ : Kalloc)
      → leb (add32 p page_size) end ≡ true
      → add32 p page_size ≡ p + page_size
      → free_next layout p s ≡ some s₁
      → free_loop layout (suc fuel) p end s ≡ free_loop layout fuel (p + page_size) end s₁
  unfolding free_loop
  free_step fuel p end s s₁ more next run = rw (more, run, next) refl

  free_loop_lem :
      (fuel n p end : ℕ) (s : Kalloc) (pages : List ℕ)
      → n < fuel
      → p + n * page_size + page_size < 2 ^ 32
      → (0 < n → p + n * page_size ≤ end)
      → end < p + n * page_size + page_size
      → end + page_size < 2 ^ 32
      → IsFree s pages
      → ((q : ℕ) → p ≤ q → q + page_size ≤ end → q % page_size ≡ 0 → Freeable layout q)
      → p % page_size ≡ 0
      → ((q : ℕ) → p ≤ q → has q pages ≡ false)
      → length pages + n < 2 ^ 20
      → s.total + n < 2 ^ 32
      → (s' : Kalloc) × (free_loop layout fuel p end s ≡ some s')
        × IsFree s' (stacked p n pages)
        × (s'.total ≡ s.total + n)
  unfolding free_loop
  free_loop_lem zero n p end s pages enough room within high small free ok al out few fits =
      absurd (omega arith)
  free_loop_lem (suc fuel) zero p end s pages enough room within high small free ok al out few
        fits =
      let done : leb (add32 p page_size) end ≡ false = ground arith in
      (s, rw done refl, free, omega arith)
  free_loop_lem (suc fuel) (suc n) p end s pages enough room within high small free ok al out few
        fits =
      let more : leb (add32 p page_size) end ≡ true = ground arith in
      let next : add32 p page_size ≡ p + page_size = ground arith in
      let (s₁, run, free₁, total₁) =
        free_next_lem p s pages free (ok p (omega arith) (omega (arith, within (omega arith))) al)
          (out p (omega arith)) (omega arith) (omega arith) in
      let (s', rest, free', total') =
        free_loop_lem fuel n (p + page_size) end s₁ (p ∷ pages) (omega arith) (omega arith)
          (λ _. omega (arith, within (omega arith))) (omega arith) small free₁
          (λ q lo hi a. ok q (omega arith) hi a) (omega arith)
          (λ q lo. ground (arith, out q (omega arith))) (omega arith) (omega (arith, total₁)) in
      (s', free_step fuel p end s s₁ more next run ∙ rest, free', omega (arith, total₁, total'))

-- `kfreerange` over memory of the kernel, of which no page from the start on is free yet, ends
-- within one round more than the range has whole pages, puts exactly those pages into the free
-- list, the last one first, and counts them in both counters.
pub kfreerange_lem :
    (layout : Layout) (fuel start end : ℕ) (s : Kalloc) (pages : List ℕ)
    → let from = pgroundup start in
      let n = (end - from) / page_size in
      n < fuel
      → 0 < start
      → layout.kernel_end ≤ start
      → layout.kernbase ≤ start
      → end - layout.kernbase ≤ layout.kernel_mem_end
      → start + 2 * page_size < 2 ^ 32
      → end + page_size < 2 ^ 32
      → IsFree s pages
      → ((q : ℕ) → start ≤ q → has q pages ≡ false)
      → length pages + n < 2 ^ 20
      → s.total + n < 2 ^ 32
      → (s' : Kalloc) × (kfreerange layout fuel start end s ≡ some s')
        × IsFree s' (stacked from n pages)
        × (s'.total ≡ s.total + n)
unfolding kfreerange
kfreerange_lem layout fuel start end s pages enough not_null above base top start_small end_small
      free out few fits =
    free_loop_lem layout fuel ((end - pgroundup start) / page_size) (pgroundup start) end s pages
      enough (omega arith) (λ some_pages. omega arith) (omega arith) end_small free
      (λ q lo hi al. record {
        not_null = omega arith;
        aligned = al;
        fits = omega arith;
        above_kernel = omega arith;
        below_top = omega arith;
        in_memory = omega arith;
      })
      (omega arith) (λ q lo. out q (omega arith)) few fits
