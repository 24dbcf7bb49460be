-- ===== src/Kalloc/Pages.antt =====
-- The free list as a list of pages.
use legendary_journey.Base.{
  ℕ, ◌+◌, ◌-◌, ◌%◌, ◌≤◌, ◌<◌, ◌^◌, ◌≡◌, ◌≢◌, ◌∙◌, ◌⊎◌, refl, true, false, some, List, [], ◌∷◌,
  arith, ◌==◌, Block, le32, le32_ext, put32_out, le32-put32_self, length, has,
}
use legendary_journey.Std.{memset}
use legendary_journey.Std.Move.{memset_lem}
use legendary_journey.Kalloc.{Kalloc, Layout, page_size, kalloc, freed, kfree}

-- From the address `p` the links lead through the pages of the list to NULL.
abbrev pub Linked : Block → ℕ → List ℕ → Type 0
Linked m p [] = p ≡ 0
Linked m p (page ∷ pages) =
    (p ≡ page)
    × (0 < page)
    × (page % page_size ≡ 0)
    × (page + page_size < 2 ^ 32)
    × Linked m (le32 m page) pages

-- the free list is the list of pages, and the counter is their number
pub record IsFree (s : Kalloc) (pages : List ℕ) : Type 0 where
  pub linked : Linked s.mem s.freemem pages
  pub counted : s.available ≡ length pages
  pub few : length pages < 2 ^ 20

-- the first page, or NULL
abbrev pub first : List ℕ → ℕ
first [] = 0
first (page ∷ pages) = page

abbrev pub others : List ℕ → List ℕ
others [] = []
others (page ∷ pages) = pages

-- what `kfree` asks of a page
pub record Freeable (layout : Layout) (page : ℕ) : Type 0 where
  pub not_null : 0 < page
  pub aligned : page % page_size ≡ 0
  pub fits : page + page_size < 2 ^ 32
  pub above_kernel : layout.kernel_end ≤ page
  pub below_top : layout.kernbase ≤ page
  pub in_memory : page - layout.kernbase < layout.kernel_mem_end

Linked-frame :
    (m m' : Block) (p page : ℕ) (pages : List ℕ)
    → Linked m p pages
    → has page pages ≡ false
    → page % page_size ≡ 0
    → ((i : ℕ) → (i < page) ⊎ (page + page_size ≤ i) → m' i ≡ m i)
    → Linked m' p pages
Linked-frame m m' p page [] h out aligned same = h
Linked-frame m m' p page (q ∷ qs) (e, ne, al, fits, rest) out aligned same =
    let other : page ≢ q = ground arith in
    let next : le32 m' q ≡ le32 m q = le32_ext m' m q q (λ i hi. same (q + i) (omega arith)) in
    (
      e,
      ne,
      al,
      fits,
      rw next (Linked-frame m m' (le32 m q) page qs rest (ground arith) aligned same),
    )

module _ (s : Kalloc) (page : ℕ) (fits : page + page_size < 2 ^ 32) where
  freed_outside : (i : ℕ) → (i < page) ⊎ (page + page_size ≤ i) → (freed page s).mem i ≡ s.mem i
  unfolding freed
  freed_outside i h =
      put32_out (memset page 0 page_size s.mem) page s.freemem i (omega arith)
      ∙ memset_lem page 0 page_size s.mem fits i
      ∙ ground arith

  freed_next : s.freemem < 2 ^ 32 → le32 (freed page s).mem page ≡ s.freemem
  unfolding freed
  freed_next h = le32-put32_self (memset page 0 page_size s.mem) page s.freemem h

kfree_accepts :
    (layout : Layout) (page : ℕ) (s : Kalloc)
    → Freeable layout page
    → page < 2 ^ 32
    → kfree layout page s ≡ some (freed page s)
unfolding kfree
kfree_accepts layout page s ok small =
    ground (arith, ok.not_null, ok.aligned, ok.above_kernel, ok.below_top, ok.in_memory)

head_small : (m : Block) (p : ℕ) (pages : List ℕ) → Linked m p pages → p < 2 ^ 32
head_small m p [] h = omega arith
head_small m p (q ∷ qs) (e, ne, al, fits, rest) = omega arith

-- `kfree` of a page of the kernel's memory that is not free yet puts it in front of the free pages,
-- counts it, and changes no byte outside the page.
pub kfree_lem :
    (layout : Layout) (page : ℕ) (s : Kalloc) (pages : List ℕ)
    → IsFree s pages
    → Freeable layout page
    → has page pages ≡ false
    → length pages + 1 < 2 ^ 20
    → (s' : Kalloc) × (kfree layout page s ≡ some s')
      × IsFree s' (page ∷ pages)
      × ((i : ℕ) → (i < page) ⊎ (page + page_size ≤ i) → s'.mem i ≡ s.mem i)
      × (s'.total ≡ s.total)
unfolding freed
kfree_lem layout page s pages free ok out few =
    let outside = freed_outside s page ok.fits in
    let next = freed_next s page ok.fits (head_small s.mem s.freemem pages free.linked) in
    let linked =
      Linked-frame s.mem (freed page s).mem s.freemem page pages free.linked out ok.aligned
        outside in
    (
      freed page s,
      kfree_accepts layout page s ok (omega (arith, ok.fits)),
      record {
        linked = (refl, ok.not_null, ok.aligned, ok.fits, rw next linked);
        counted = omega (arith, free.counted);
        few = omega arith;
      },
      outside,
      refl,
    )

-- With a free page, `kalloc` returns the first one and leaves the others; without one it returns NULL
-- and leaves the list alone.
kalloc_lem :
    (s : Kalloc) (pages : List ℕ)
    → IsFree s pages
    → let (page, s') = kalloc s in
      (page ≡ first pages) × IsFree s' (others pages) × (s'.mem ≡ s.mem)
unfolding kalloc
kalloc_lem s [] free =
    let absent : (s.freemem == 0) ≡ true = ground (arith, free.linked) in
    rw absent (refl, record { linked = free.linked; counted = free.counted; few = free.few }, refl)
kalloc_lem s (page ∷ pages) free =
    let (head, some_page, _, _, linked) = free.linked in
    let present : (s.freemem == 0) ≡ false = ground (arith, head, some_page) in
    rw present (
      head,
      record {
        linked = rw head linked;
        counted = omega (arith, free.counted, free.few);
        few = omega (arith, free.few);
      },
      refl,
    )

-- A page that `kfree` took is the one that the next `kalloc` returns, and the free pages are as before.
pub kalloc-kfree :
    (layout : Layout) (page : ℕ) (s : Kalloc) (pages : List ℕ)
    → IsFree s pages
    → Freeable layout page
    → has page pages ≡ false
    → length pages + 1 < 2 ^ 20
    → (s' : Kalloc) × (kfree layout page s ≡ some s')
      × ((kalloc s').0 ≡ page)
      × IsFree (kalloc s').1 pages
kalloc-kfree layout page s pages free ok out few =
    let (s', run, free', _, _) = kfree_lem layout page s pages free ok out few in
    let (got, left, _) = kalloc_lem s' (page ∷ pages) free' in (s', run, got, left)

-- A page freed twice in a row becomes its own successor: from then on every `kalloc` returns that page,
-- and leaves it the first of the list.
pub kfree_twice :
    (layout : Layout) (page : ℕ) (s : Kalloc)
    → Freeable layout page
    → (s' : Kalloc) × (kfree layout page (freed page s) ≡ some s')
      × ((kalloc s').0 ≡ page)
      × ((kalloc s').1.freemem ≡ page)
unfolding kalloc freed
kfree_twice layout page s ok =
    let s₁ = freed page s in
    let present : (page == 0) ≡ false = ground (arith, ok.not_null) in
    (
      freed page s₁,
      kfree_accepts layout page s₁ ok (omega (arith, ok.fits)),
      rw present refl,
      rw present (freed_next s₁ page ok.fits (omega (arith, ok.fits))),
    )
