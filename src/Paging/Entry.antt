-- ===== src/Paging/Entry.antt =====
-- The memory with the entry of one address replaced.
use Prim.Native.Nat.{bit_or}
use mathlib.Core.Path.{subst}
use legendary_journey.Base.{
  ℕ, ◌+◌, ◌*◌, ◌/◌, ◌%◌, ◌<◌, ◌^◌, ◌≡◌, ◌≢◌, ◌∙◌, inl, inr, refl, sym, ap, true, false, not, none,
  some, arith, ◌==◌, Bool-cases, if_false, Block, put32, le32-put32_self, le32-put32_ne,
  bit_or_comm, bit_or-one, bit_or_shift,
}
use legendary_journey.Kalloc.{Kalloc, Layout}
use legendary_journey.Paging.{pgrounddown, pdx, ptx, pte_addr, is_present}
use legendary_journey.Paging.Walk.{
  entry_at, table_of, translate, Page, Directory, translate_ext, pages_apart,
}

-- the entry of a page
abbrev pub page_entry : ℕ → ℕ → ℕ
page_entry page_addr perm = bit_or (bit_or (pgrounddown page_addr) perm) 1

pub page_entry_lem :
    (page_addr perm : ℕ)
    → page_addr < 2 ^ 32
    → page_addr % 4096 ≡ 0
    → perm < 4096
    → (page_entry page_addr perm < 2 ^ 32)
      × (is_present (page_entry page_addr perm) ≡ true)
      × (pte_addr (page_entry page_addr perm) ≡ page_addr)
page_entry_lem page_addr perm small aligned flags =
    let whole : pgrounddown page_addr ≡ page_addr / 4096 * 2 ^ 12 = omega (arith, aligned) in
    let sum : bit_or (pgrounddown page_addr) perm ≡ perm + page_addr / 4096 * 4096 =
      ap (λ (x : ℕ). bit_or x perm) whole
      ∙ bit_or_comm (page_addr / 4096 * 2 ^ 12) perm
      ∙ bit_or_shift 12 perm (page_addr / 4096) flags in
    let all : page_entry page_addr perm ≡ (perm + page_addr / 4096 * 4096) / 2 * 2 + 1 =
      ap (λ (x : ℕ). bit_or x 1) sum ∙ bit_or-one (perm + page_addr / 4096 * 4096) in
    (omega (arith, all, small, flags), ground (arith, all), omega (arith, all, aligned, flags))

-- An address with a present entry leads where the entry says.
pub translate-some :
    (kernbase : ℕ) (m : Block) (pgdir va entry : ℕ)
    → is_present (entry_at m pgdir (pdx va)) ≡ true
    → entry_at m (table_of kernbase (entry_at m pgdir (pdx va))) (ptx va) ≡ entry
    → is_present entry ≡ true
    → translate kernbase m pgdir va ≡ some (pte_addr entry + va % 4096)
unfolding translate
translate-some kernbase m pgdir va entry there here present =
    if_false _ _ (ap not there)
    ∙ if_false _ _ (ap (λ (e : ℕ). not (is_present e)) here ∙ ap not present)
    ∙ ap (λ (e : ℕ). some (pte_addr e + va % 4096)) here

module _ (layout : Layout) (pgdir va : ℕ) (s : Kalloc) (dir : Directory layout.kernbase s.mem pgdir)
    (there : is_present (entry_at s.mem pgdir (pdx va)) ≡ true) (entry : ℕ)
    (small : entry < 2 ^ 32) where
  abbrev pub table : ℕ
  table = table_of layout.kernbase (entry_at s.mem pgdir (pdx va))

  -- the memory with the entry of the address replaced
  abbrev pub with_entry : Block
  with_entry = put32 s.mem (table + 4 * ptx va) entry

  table_page : Page table
  table_page = dir.table_page (pdx va) (omega arith) there

  pub directory_kept : (i : ℕ) → i < 1024 → entry_at with_entry pgdir i ≡ entry_at s.mem pgdir i
  directory_kept i h = le32-put32_ne s.mem (table + 4 * ptx va) (pgdir + 4 * i) entry (
      pages_apart table pgdir (ptx va) i table_page dir.page
        (dir.apart (pdx va) (omega arith) there) (omega arith) h)

  pub entry_there :
      entry_at with_entry (table_of layout.kernbase (entry_at with_entry pgdir (pdx va))) (ptx va)
      ≡ entry
  entry_there =
      ap (λ (e : ℕ). entry_at with_entry (table_of layout.kernbase e) (ptx va))
        (directory_kept (pdx va) (omega arith))
      ∙ le32-put32_self s.mem (table + 4 * ptx va) entry small

  -- Every address of another page is translated as before.
  pub others_kept :
      (va' : ℕ)
      → va < 2 ^ 32
      → va' < 2 ^ 32
      → va' / 4096 ≢ va / 4096
      → translate layout.kernbase with_entry pgdir va' ≡ translate layout.kernbase s.mem pgdir va'
  others_kept va' low low' other =
      translate_ext layout.kernbase s.mem with_entry pgdir va'
        (directory_kept (pdx va') (omega arith))
        (λ there'. elim (Bool-cases (pdx va' == pdx va)) [
          | inl here ↦
              let same : pdx va' ≡ pdx va = ground (arith, here) in
              let apart : ptx va' ≢ ptx va = λ e. other (omega (arith, e, same, low, low')) in
              let tables : table_of layout.kernbase (entry_at s.mem pgdir (pdx va')) ≡ table =
                ap (λ (j : ℕ). table_of layout.kernbase (entry_at s.mem pgdir j)) same in
              le32-put32_ne s.mem (table + 4 * ptx va)
                (table_of layout.kernbase (entry_at s.mem pgdir (pdx va')) + 4 * ptx va') entry
                (omega (arith, apart, tables))
          | inr away ↦
              let index : pdx va' ≢ pdx va = ground (arith, away) in
              le32-put32_ne s.mem (table + 4 * ptx va)
                (table_of layout.kernbase (entry_at s.mem pgdir (pdx va')) + 4 * ptx va') entry
                (pages_apart table (table_of layout.kernbase (entry_at s.mem pgdir (pdx va')))
                  (ptx va) (ptx va') table_page (dir.table_page (pdx va') (omega arith) there')
                  (λ e. index (
                    dir.distinct (pdx va') (pdx va) (omega arith) (omega arith) there' there
                      (sym e)))
                  (omega arith) (omega arith))
        ])

-- The directory is well formed as long as its own entries stay.
pub Directory-kept :
    (kernbase : ℕ) (m m' : Block) (pgdir : ℕ)
    → Directory kernbase m pgdir
    → ((i : ℕ) → i < 1024 → entry_at m' pgdir i ≡ entry_at m pgdir i)
    → Directory kernbase m' pgdir
Directory-kept kernbase m m' pgdir dir same =
    let old : (i : ℕ)
        → i < 1024
        → is_present (entry_at m' pgdir i) ≡ true
        → is_present (entry_at m pgdir i) ≡ true =
      λ i h there. ap is_present (sym (same i h)) ∙ there in
    let tables : (i : ℕ)
        → i < 1024
        → table_of kernbase (entry_at m' pgdir i) ≡ table_of kernbase (entry_at m pgdir i) =
      λ i h. ap (table_of kernbase) (same i h) in
    record {
      page = dir.page;
      table_page = λ i h there. subst Page (sym (tables i h)) (dir.table_page i h (old i h there));
      apart = λ i h there e. dir.apart i h (old i h there) (sym (tables i h) ∙ e);
      distinct = λ i j hi hj pi pj e.
          dir.distinct i j hi hj (old i hi pi) (old j hj pj) (sym (tables i hi) ∙ e ∙ tables j hj);
    }

-- An address that leads nowhere has an entry that is not present.
pub absent_entry :
    (kernbase : ℕ) (m : Block) (pgdir va : ℕ)
    → is_present (entry_at m pgdir (pdx va)) ≡ true
    → translate kernbase m pgdir va ≡ none
    → is_present (entry_at m (table_of kernbase (entry_at m pgdir (pdx va))) (ptx va)) ≡ false
absent_entry kernbase m pgdir va there nowhere =
    elim (Bool-cases
      (is_present (entry_at m (table_of kernbase (entry_at m pgdir (pdx va))) (ptx va)))) [
        | inl present ↦
            absurd (
              some_ne_none
                (sym (translate-some kernbase m pgdir va _ there refl present) ∙ nowhere))
        | inr absent ↦ absent
      ]
  where
    some_ne_none : {x : ℕ} → some x ≢ none
    some_ne_none e = ground (arith, e)
