-- ===== src/Paging/Table.antt =====
-- `walkpgdir` finds the entry of an address, in a new table where there was none, and no address
-- leads elsewhere than before.
use Prim.Native.Nat.{bit_or}
use legendary_journey.Base.{
  ℕ, ◌+◌, ◌*◌, ◌%◌, ◌<◌, ◌^◌, ◌≡◌, ◌≢◌, ◌∙◌, ◌⊎◌, inl, inr, refl, sym, ap, true, false, arith, ◌==◌,
  Bool-cases, if_true, if_false, Block, le32, put32, add32, sub32,
}
use mathlib.Core.Path.{subst}
use legendary_journey.Std.{memset}
use legendary_journey.Kalloc.{Kalloc, Layout, page_size, kalloc}
use legendary_journey.Paging.{pdx, ptx, is_present, walkpgdir}
use legendary_journey.Paging.Walk.{
  entry_at, table_of, translate, Page, Directory, translate_ext, table_entry, table_entry_lem,
}
use legendary_journey.Paging.Entered.{
  kalloc-mem, translate_absent, translate-none, entered_here, entered_beside, entered_elsewhere,
  entered_empty,
}

-- The page that `kalloc` returns next, in use neither for the directory nor for one of its tables.
pub record Fresh (kernbase : ℕ) (s : Kalloc) (pgdir p : ℕ) : Type 0 where
  pub got : (kalloc s).0 ≡ p
  pub page : Page p
  pub not_directory : p ≢ pgdir
  pub not_table :
      (i : ℕ)
      → i < 1024
      → is_present (entry_at s.mem pgdir i) ≡ true
      → table_of kernbase (entry_at s.mem pgdir i) ≢ p

-- The address has a table, or there is a page for one.
abbrev pub HasTable : ℕ → Kalloc → ℕ → ℕ → Type 0
HasTable kernbase s pgdir va =
    (is_present (entry_at s.mem pgdir (pdx va)) ≡ true)
    ⊎ ((is_present (entry_at s.mem pgdir (pdx va)) ≡ false) × (p : ℕ) × Fresh kernbase s pgdir p)

-- what `walkpgdir` does
pub record Walked (layout : Layout) (s : Kalloc) (pgdir va : ℕ) : Type 0 where
  pub pte : ℕ
  pub after : Kalloc
  pub run : walkpgdir layout pgdir va true s ≡ (pte, after)
  pub directory : Directory layout.kernbase after.mem pgdir
  pub there : is_present (entry_at after.mem pgdir (pdx va)) ≡ true
  pub at : pte ≡ table_of layout.kernbase (entry_at after.mem pgdir (pdx va)) + 4 * ptx va
  pub same :
      (va' : ℕ)
      → translate layout.kernbase after.mem pgdir va' ≡ translate layout.kernbase s.mem pgdir va'

module _ (layout : Layout) (s : Kalloc) (pgdir va : ℕ)
    (dir : Directory layout.kernbase s.mem pgdir) where
  walk_present : is_present (entry_at s.mem pgdir (pdx va)) ≡ true → Walked layout s pgdir va
  unfolding walkpgdir
  walk_present there =
      let table = dir.table_page (pdx va) (omega arith) there in
      let pde : add32 pgdir (4 * pdx va) ≡ pgdir + 4 * pdx va = omega (arith, dir.page.fits) in
      let entry : le32 s.mem (add32 pgdir (4 * pdx va)) ≡ entry_at s.mem pgdir (pdx va) =
        ap (le32 s.mem) pde in
      let pte : add32 (table_of layout.kernbase (entry_at s.mem pgdir (pdx va))) (4 * ptx va)
          ≡ table_of layout.kernbase (entry_at s.mem pgdir (pdx va)) + 4 * ptx va =
        omega (arith, table.fits) in
      record {
        pte = table_of layout.kernbase (entry_at s.mem pgdir (pdx va)) + 4 * ptx va;
        after = s;
        run =
            if_true _ _ (ap is_present entry ∙ there)
            ∙ ap (λ (e : ℕ). (add32 (table_of layout.kernbase e) (4 * ptx va), s)) entry
            ∙ ap (λ (a : ℕ). (a, s)) pte;
        directory = dir;
        there = there;
        at = refl;
        same = λ va'. refl;
      }

  module _ (p : ℕ) (absent : is_present (entry_at s.mem pgdir (pdx va)) ≡ false)
      (fresh : Fresh layout.kernbase s pgdir p) (aligned : layout.kernbase % 4096 ≡ 0)
      (small : layout.kernbase < 2 ^ 32) where
    abbrev entry : ℕ
    entry = table_entry layout.kernbase p

    entry_lem : (entry < 2 ^ 32) × (is_present entry ≡ true) × (table_of layout.kernbase entry ≡ p)
    entry_lem = table_entry_lem layout.kernbase p fresh.page aligned small

    abbrev new_memory : Block
    new_memory = put32 (memset p 0 page_size s.mem) (pgdir + 4 * pdx va) entry

    new_here : entry_at new_memory pgdir (pdx va) ≡ entry
    new_here =
        entered_here layout.kernbase s.mem pgdir p (pdx va) dir.page fresh.page fresh.not_directory
          (omega arith) entry entry_lem.0

    new_beside :
        (j : ℕ) → j < 1024 → j ≢ pdx va → entry_at new_memory pgdir j ≡ entry_at s.mem pgdir j
    new_beside =
        entered_beside layout.kernbase s.mem pgdir p (pdx va) dir.page fresh.page
          fresh.not_directory (omega arith) entry entry_lem.0

    new_table : table_of layout.kernbase (entry_at new_memory pgdir (pdx va)) ≡ p
    new_table = ap (table_of layout.kernbase) new_here ∙ entry_lem.2

    -- an entry that is present afterwards is the new one or an old one
    present_cases :
        (i : ℕ)
        → i < 1024
        → is_present (entry_at new_memory pgdir i) ≡ true
        → ((i ≡ pdx va) × (table_of layout.kernbase (entry_at new_memory pgdir i) ≡ p))
          ⊎ ((entry_at new_memory pgdir i ≡ entry_at s.mem pgdir i)
              × (is_present (entry_at s.mem pgdir i) ≡ true))
    present_cases i h there = elim (Bool-cases (i == pdx va)) [
      | inl here ↦
          let same : i ≡ pdx va = ground (arith, here) in
          inl (
            same,
            ap (λ (j : ℕ). table_of layout.kernbase (entry_at new_memory pgdir j)) same ∙ new_table,
          )
      | inr other ↦
          let old = new_beside i h (ground (arith, other)) in
          inr (old, ap is_present (sym old) ∙ there)
    ]

    new_page :
        (i : ℕ)
        → i < 1024
        → is_present (entry_at new_memory pgdir i) ≡ true
        → Page (table_of layout.kernbase (entry_at new_memory pgdir i))
    new_page i h there = elim (present_cases i h there) [
      | inl here ↦ subst Page (sym here.1) fresh.page
      | inr old ↦
          subst (λ (e : ℕ). Page (table_of layout.kernbase e)) (sym old.0)
            (dir.table_page i h old.1)
    ]

    new_apart :
        (i : ℕ)
        → i < 1024
        → is_present (entry_at new_memory pgdir i) ≡ true
        → table_of layout.kernbase (entry_at new_memory pgdir i) ≢ pgdir
    new_apart i h there e = elim (present_cases i h there) [
      | inl here ↦ fresh.not_directory (sym here.1 ∙ e)
      | inr old ↦ dir.apart i h old.1 (ap (table_of layout.kernbase) (sym old.0) ∙ e)
    ]

    new_distinct :
        (i j : ℕ)
        → i < 1024
        → j < 1024
        → is_present (entry_at new_memory pgdir i) ≡ true
        → is_present (entry_at new_memory pgdir j) ≡ true
        → table_of layout.kernbase (entry_at new_memory pgdir i)
          ≡ table_of layout.kernbase (entry_at new_memory pgdir j)
        → i ≡ j
    new_distinct i j hi hj pi pj e = elim (present_cases i hi pi) [
      | inl here ↦ elim (present_cases j hj pj) [
        | inl here' ↦ here.0 ∙ sym here'.0
        | inr old ↦ absurd (
            fresh.not_table j hj old.1 (ap (table_of layout.kernbase) (sym old.0) ∙ sym e ∙ here.1))
      ]
      | inr old ↦ elim (present_cases j hj pj) [
        | inl here ↦
            absurd
              (fresh.not_table i hi old.1 (ap (table_of layout.kernbase) (sym old.0) ∙ e ∙ here.1))
        | inr old' ↦
            dir.distinct i j hi hj old.1 old'.1
              (ap (table_of layout.kernbase) (sym old.0) ∙ e ∙ ap (table_of layout.kernbase) old'.0)
      ]
    ]

    -- no address is translated otherwise
    new_same :
        (va' : ℕ)
        → translate layout.kernbase new_memory pgdir va' ≡ translate layout.kernbase s.mem pgdir va'
    new_same va' = elim (Bool-cases (pdx va' == pdx va)) [
      | inl here ↦
          let same : pdx va' ≡ pdx va = ground (arith, here) in
          translate-none layout.kernbase new_memory pgdir va' (
            ap
              (λ (j : ℕ).
                entry_at (new_memory) (table_of layout.kernbase (entry_at new_memory pgdir j))
                  (ptx va'))
              same
            ∙ ap (λ (t : ℕ). entry_at new_memory t (ptx va')) new_table
            ∙ entered_empty layout.kernbase s.mem pgdir p (pdx va) dir.page fresh.page
                fresh.not_directory (omega arith) entry entry_lem.0 (ptx va') (omega arith))
          ∙ sym (
              translate_absent layout.kernbase s.mem pgdir va'
                (ap (λ (j : ℕ). is_present (entry_at s.mem pgdir j)) same ∙ absent))
      | inr other ↦
          translate_ext layout.kernbase s.mem new_memory pgdir va'
            (new_beside (pdx va') (omega arith) (ground (arith, other)))
            (λ there.
              entered_elsewhere layout.kernbase s.mem pgdir p (pdx va) dir.page fresh.page
                fresh.not_directory (omega arith) entry entry_lem.0
                (table_of layout.kernbase (entry_at s.mem pgdir (pdx va'))) (ptx va')
                (dir.table_page (pdx va') (omega arith) there)
                (fresh.not_table (pdx va') (omega arith) there)
                (dir.apart (pdx va') (omega arith) there) (omega arith))
    ]

    -- what `walkpgdir` returns, of the page, the memory before and the address of the directory's entry
    abbrev result : ℕ → Block → ℕ → ℕ × Kalloc
    result pgtab m pde = (
      add32 pgtab (4 * ptx va),
      record (kalloc s).1 {
        mem = put32 (memset pgtab 0 page_size m) pde (bit_or (sub32 pgtab layout.kernbase) 7);
      },
    )

    walk_fresh_run :
        walkpgdir layout pgdir va true s
        ≡ (p + 4 * ptx va, record (kalloc s).1 { mem = new_memory })
    unfolding walkpgdir
    walk_fresh_run =
        let pde : add32 pgdir (4 * pdx va) ≡ pgdir + 4 * pdx va = omega (arith, dir.page.fits) in
        let some_page : ((kalloc s).0 == 0) ≡ false =
          ground (arith, fresh.got, fresh.page.not_null) in
        let pte : add32 p (4 * ptx va) ≡ p + 4 * ptx va = omega (arith, fresh.page.fits) in
        if_false _ _ (ap (λ (a : ℕ). is_present (le32 s.mem a)) pde ∙ absent)
        ∙ if_false _ _ some_page
        ∙ ap (λ (g : ℕ). result g (kalloc s).1.mem (add32 pgdir (4 * pdx va))) fresh.got
        ∙ ap (λ (m : Block). result p m (add32 pgdir (4 * pdx va))) (kalloc-mem s)
        ∙ ap (result p s.mem) pde
        ∙ ap (λ (a : ℕ). (a, (result p s.mem (pgdir + 4 * pdx va)).1)) pte

    walk_fresh : Walked layout s pgdir va
    walk_fresh = record {
      pte = p + 4 * ptx va;
      after = record (kalloc s).1 { mem = new_memory };
      run = walk_fresh_run;
      directory = record {
        page = dir.page;
        table_page = new_page;
        apart = new_apart;
        distinct = new_distinct;
      };
      there = ap is_present new_here ∙ entry_lem.1;
      at = ap (λ (t : ℕ). t + 4 * ptx va) (sym new_table);
      same = new_same;
    }

-- `walkpgdir` that may allocate finds the entry of an address in its table, which is a new one where
-- there was none. The directory stays well formed, and every address is translated as before.
pub walkpgdir_lem :
    (layout : Layout) (s : Kalloc) (pgdir va : ℕ)
    → Directory layout.kernbase s.mem pgdir
    → HasTable layout.kernbase s pgdir va
    → layout.kernbase % 4096 ≡ 0
    → layout.kernbase < 2 ^ 32
    → Walked layout s pgdir va
walkpgdir_lem layout s pgdir va dir (inl there) aligned small =
    walk_present layout s pgdir va dir there
walkpgdir_lem layout s pgdir va dir (inr fresh) aligned small =
    walk_fresh layout s pgdir va dir fresh.1 fresh.0 fresh.2 aligned small
