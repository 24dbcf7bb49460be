-- ===== src/Paging/Entered.antt =====
-- The memory with a new page table entered in the directory.
use legendary_journey.Base.{
  ℕ, ◌+◌, ◌*◌, ◌<◌, ◌^◌, ◌≡◌, ◌≢◌, ◌∙◌, inl, inr, refl, sym, ap, true, false, not, ◌&&◌, none,
  arith, ltb, leb, ◌==◌, Bool-cases, if_true, if_false, Block, le32, put32, le32_ext,
  le32-put32_self, le32-put32_ne,
}
use legendary_journey.Std.{memset}
use legendary_journey.Std.Move.{memset_lem}
use legendary_journey.Kalloc.{Kalloc, page_size, kalloc}
use legendary_journey.Paging.{pdx, ptx, is_present}
use legendary_journey.Paging.Walk.{entry_at, table_of, translate, Page, pages_apart}

pub kalloc-mem : (s : Kalloc) → (kalloc s).1.mem ≡ s.mem
unfolding kalloc
kalloc-mem s = elim (Bool-cases (s.freemem == 0)) [
  | inl full ↦ rw full refl
  | inr some_page ↦ rw some_page refl
]

pub translate_absent :
    (kernbase : ℕ) (m : Block) (pgdir va : ℕ)
    → is_present (entry_at m pgdir (pdx va)) ≡ false
    → translate kernbase m pgdir va ≡ none
unfolding translate
translate_absent kernbase m pgdir va absent = if_true _ _ (ap not absent)

-- An empty entry leads nowhere.
pub translate-none :
    (kernbase : ℕ) (m : Block) (pgdir va : ℕ)
    → entry_at m (table_of kernbase (entry_at m pgdir (pdx va))) (ptx va) ≡ 0
    → translate kernbase m pgdir va ≡ none
unfolding translate
translate-none kernbase m pgdir va empty =
    elim (Bool-cases (is_present (entry_at m pgdir (pdx va)))) [
      | inl there ↦
          if_false _ _ (ap not there) ∙ if_true _ _ (ap (λ (e : ℕ). not (is_present e)) empty)
      | inr absent ↦ if_true _ _ (ap not absent)
    ]

module _ (kernbase : ℕ) (m : Block) (pgdir p k : ℕ) (dir : Page pgdir) (page : Page p)
    (apart : p ≢ pgdir) (index : k < 1024) (e : ℕ) (small : e < 2 ^ 32) where
  -- the memory with the page cleared and entered in the directory
  abbrev pub entered : Block
  entered = put32 (memset p 0 page_size m) (pgdir + 4 * k) e

  cleared_elsewhere :
      (q j : ℕ) → Page q → q ≢ p → j < 1024 → entry_at (memset p 0 page_size m) q j ≡ entry_at m q j
  cleared_elsewhere q j at ne h =
      le32_ext (memset p 0 page_size m) m (q + 4 * j) (q + 4 * j) (λ i low.
        let out : (leb p (q + 4 * j + i) && ltb (q + 4 * j + i) (p + page_size)) ≡ false =
          ground (arith, page.aligned, at.aligned, ne, h, low) in
        memset_lem p 0 page_size m page.fits (q + 4 * j + i) ∙ if_false _ _ out)

  pub entered_here : entry_at entered pgdir k ≡ e
  entered_here = le32-put32_self (memset p 0 page_size m) (pgdir + 4 * k) e small

  pub entered_beside : (j : ℕ) → j < 1024 → j ≢ k → entry_at entered pgdir j ≡ entry_at m pgdir j
  entered_beside j h ne =
      le32-put32_ne (memset p 0 page_size m) (pgdir + 4 * k) (pgdir + 4 * j) e (omega (arith, ne))
      ∙ cleared_elsewhere pgdir j dir (λ eq. apart (sym eq)) h

  pub entered_elsewhere :
      (q j : ℕ) → Page q → q ≢ p → q ≢ pgdir → j < 1024 → entry_at entered q j ≡ entry_at m q j
  entered_elsewhere q j at ne ne' h =
      le32-put32_ne (memset p 0 page_size m) (pgdir + 4 * k) (q + 4 * j) e
        (pages_apart pgdir q k j dir at (λ eq. ne' (sym eq)) index h)
      ∙ cleared_elsewhere q j at ne h

  zeros : le32 (λ _. 0) 0 ≡ 0
  unfolding le32
  zeros = refl

  pub entered_empty : (j : ℕ) → j < 1024 → entry_at entered p j ≡ 0
  entered_empty j h =
      le32-put32_ne (memset p 0 page_size m) (pgdir + 4 * k) (p + 4 * j) e
        (pages_apart pgdir p k j dir page (λ eq. apart (sym eq)) index h)
      ∙ le32_ext (memset p 0 page_size m) (λ _. 0) (p + 4 * j) 0
          (λ i low.
            let inside : (leb p (p + 4 * j + i) && ltb (p + 4 * j + i) (p + page_size)) ≡ true =
              ground (arith, h, low) in
            memset_lem p 0 page_size m page.fits (p + 4 * j + i) ∙ if_true _ _ inside)
      ∙ zeros
