-- ===== src/Paging/Walk.antt =====
-- Where the addresses of a page directory lead, and what `walkpgdir` does to that.
use Prim.Native.Nat.{bit_or}
use legendary_journey.Base.{
  ℕ, ◌+◌, ◌*◌, ◌/◌, ◌%◌, ◌≤◌, ◌<◌, ◌^◌, ◌≡◌, ◌≢◌, ◌∙◌, ◌⊎◌, inl, inr, sym, ap, true, false, not,
  Option, none, some, arith, Bool-cases, if◌then◌else◌, if_true, if_false, Block, le32, add32,
  sub32, bit_or_comm, bit_or_shift,
}
use legendary_journey.Kalloc.{page_size}
use legendary_journey.Paging.{pdx, ptx, pte_addr, is_present}

-- entry `i` of a table of entries
abbrev pub entry_at : Block → ℕ → ℕ → ℕ
entry_at m table i = le32 m (table + 4 * i)

-- the table that a directory entry names, as an address of the kernel
abbrev pub table_of : ℕ → ℕ → ℕ
table_of kernbase pde = add32 (pte_addr pde) kernbase

-- What the processor does with an address: the physical address, or none where no page is present.
unfoldable pub translate : ℕ → Block → ℕ → ℕ → Option ℕ
translate kernbase m pgdir va =
    let pde = entry_at m pgdir (pdx va) in
    let pte = entry_at m (table_of kernbase pde) (ptx va) in
    if not (is_present pde)
    then none
    else if not (is_present pte)
    then none
    else some (pte_addr pte + va % page_size)

-- a page of memory
pub record Page (a : ℕ) : Type 0 where
  pub not_null : 0 < a
  pub aligned : a % 4096 ≡ 0
  pub fits : a + 4096 < 2 ^ 32

-- A directory of which every present entry has a table of its own, in a page that is not the directory's.
pub record Directory (kernbase : ℕ) (m : Block) (pgdir : ℕ) : Type 0 where
  pub page : Page pgdir
  pub table_page :
      (i : ℕ)
      → i < 1024
      → is_present (entry_at m pgdir i) ≡ true
      → Page (table_of kernbase (entry_at m pgdir i))
  pub apart :
      (i : ℕ)
      → i < 1024
      → is_present (entry_at m pgdir i) ≡ true
      → table_of kernbase (entry_at m pgdir i) ≢ pgdir
  pub distinct :
      (i j : ℕ)
      → i < 1024
      → j < 1024
      → is_present (entry_at m pgdir i) ≡ true
      → is_present (entry_at m pgdir j) ≡ true
      → table_of kernbase (entry_at m pgdir i) ≡ table_of kernbase (entry_at m pgdir j)
      → i ≡ j

-- Two memories that agree on the directory and on its present tables translate alike.
pub translate_ext :
    (kernbase : ℕ) (m m' : Block) (pgdir va : ℕ)
    → entry_at m' pgdir (pdx va) ≡ entry_at m pgdir (pdx va)
    → (is_present (entry_at m pgdir (pdx va)) ≡ true
        → entry_at m' (table_of kernbase (entry_at m pgdir (pdx va))) (ptx va)
          ≡ entry_at m (table_of kernbase (entry_at m pgdir (pdx va))) (ptx va))
    → translate kernbase m' pgdir va ≡ translate kernbase m pgdir va
unfolding translate
translate_ext kernbase m m' pgdir va same below =
    elim (Bool-cases (is_present (entry_at m pgdir (pdx va)))) [
      | inl there ↦
          let there' : not (is_present (entry_at m' pgdir (pdx va))) ≡ false =
            ap (λ (e : ℕ). not (is_present e)) same ∙ ap not there in
          if_false _ _ there'
          ∙ ap
              (λ (t : ℕ).
                if not (is_present (entry_at m' (table_of kernbase t) (ptx va)))
                then none
                else some (pte_addr (entry_at m' (table_of kernbase t) (ptx va)) + va % page_size))
              same
          ∙ ap (λ (e : ℕ). if not (is_present e) then none else some (pte_addr e + va % page_size))
              (below there)
          ∙ sym (if_false _ _ (ap not there))
      | inr absent ↦
          if_true _ _ (ap (λ (e : ℕ). not (is_present e)) same ∙ ap not absent)
          ∙ sym (if_true _ _ (ap not absent))
    ]

-- words of different pages do not touch
pub pages_apart :
    (a b i j : ℕ)
    → Page a
    → Page b
    → a ≢ b
    → i < 1024
    → j < 1024
    → (a + 4 * i + 4 ≤ b + 4 * j) ⊎ (b + 4 * j + 4 ≤ a + 4 * i)
pages_apart a b i j p q ne hi hj = omega (arith, p.aligned, q.aligned, ne)

-- the entry for a new table
abbrev pub table_entry : ℕ → ℕ → ℕ
table_entry kernbase pgtab = bit_or (sub32 pgtab kernbase) 7

pub table_entry_lem :
    (kernbase pgtab : ℕ)
    → Page pgtab
    → kernbase % 4096 ≡ 0
    → kernbase < 2 ^ 32
    → (table_entry kernbase pgtab < 2 ^ 32)
      × (is_present (table_entry kernbase pgtab) ≡ true)
      × (table_of kernbase (table_entry kernbase pgtab) ≡ pgtab)
table_entry_lem kernbase pgtab p aligned small =
    let pages : ℕ = sub32 pgtab kernbase / 4096 in
    let whole : sub32 pgtab kernbase ≡ pages * 2 ^ 12 = omega (arith, p.aligned, p.fits) in
    let sum : table_entry kernbase pgtab ≡ 7 + pages * 4096 =
      ap (λ (x : ℕ). bit_or x 7) whole
      ∙ bit_or_comm (pages * 2 ^ 12) 7
      ∙ bit_or_shift 12 7 pages (omega arith) in
    (omega (arith, sum, whole), ground (arith, sum), omega (arith, sum, whole, p.fits, p.aligned))
