-- ===== src/Paging/Map.antt =====
-- What `pg_map` does to the translation of addresses.
use Prim.Native.Nat.{bit_or}
use legendary_journey.Base.{
  ℕ, ◌+◌, ◌/◌, ◌%◌, ◌<◌, ◌^◌, ◌≡◌, ◌∙◌, inl, inr, refl, sym, ap, Bool, true, false, not, ◌&&◌,
  Option, none, some, arith, ◌==◌, Bool-cases, if◌then◌else◌, if_true, if_false, le32, put32,
}
use legendary_journey.Kalloc.{Kalloc, Layout}
use legendary_journey.Paging.{pgrounddown, pdx, ptx, is_present, pg_map}
use legendary_journey.Paging.Walk.{entry_at, table_of, translate, Directory}
use legendary_journey.Paging.Table.{HasTable, walkpgdir_lem}
use legendary_journey.Paging.Entry.{
  page_entry, page_entry_lem, translate-some, with_entry, directory_kept, entry_there, others_kept,
  Directory-kept, absent_entry,
}

-- the page of an address, below the address's own place in it
abbrev pub moved_to : ℕ → ℕ → Option ℕ
moved_to page_addr va = some (page_addr + va % 4096)

-- `pg_map` behind its walk
abbrev mapped_at : ℕ → ℕ → ℕ × Kalloc → Option (Bool × Kalloc)
mapped_at page_addr perm (pte, s') =
    if pte == 0
    then none
    else if not (page_addr == 0) && is_present (le32 s'.mem pte)
    then some ((false, s'))
    else some (
        (
          true,
          record s' {
            mem =
                put32 s'.mem pte
                  (bit_or (bit_or (pgrounddown page_addr) perm) (if page_addr == 0 then 0 else 1));
          },
        ))

and_false : (b : Bool) → (b && false) ≡ false
and_false true = refl
and_false false = refl

module _ (layout : Layout) (s : Kalloc) (pgdir virt page_addr perm : ℕ) where
  -- With a well-formed directory, and a free page for a new table if the address has none,
  -- mapping a page at an address that leads nowhere succeeds. Then exactly the addresses of that
  -- page of the address space lead into the mapped page, all other ones lead where they did, and
  -- the directory is well formed.
  pub pg_map_lem :
      Directory layout.kernbase s.mem pgdir
      → HasTable layout.kernbase s pgdir (pgrounddown virt)
      → layout.kernbase % 4096 ≡ 0
      → layout.kernbase < 2 ^ 32
      → virt < 2 ^ 32
      → 0 < page_addr
      → page_addr < 2 ^ 32
      → page_addr % 4096 ≡ 0
      → perm < 4096
      → translate layout.kernbase s.mem pgdir (pgrounddown virt) ≡ none
      → (s' : Kalloc) × (pg_map layout pgdir page_addr virt perm s ≡ some (true, s'))
        × Directory layout.kernbase s'.mem pgdir
        × ((va : ℕ)
            → va < 2 ^ 32
            → translate layout.kernbase s'.mem pgdir va ≡ (
                if va / 4096 == virt / 4096
                then moved_to page_addr va
                else translate layout.kernbase s.mem pgdir va))
  unfolding pg_map
  pg_map_lem dir ready aligned low low_virt some_page small whole flags nowhere =
      let v = pgrounddown virt in
      let w = walkpgdir_lem layout s pgdir v dir ready aligned low in
      let entry = page_entry page_addr perm in
      let e = page_entry_lem page_addr perm small whole flags in
      let table = w.directory.table_page (pdx v) (omega arith) w.there in
      let m' = with_entry layout pgdir v w.after w.directory w.there entry e.0 in
      let absent = absent_entry layout.kernbase w.after.mem pgdir v w.there (w.same v ∙ nowhere) in
      let not_null : (w.pte == 0) ≡ false = ground (arith, w.at, table.not_null) in
      let nonzero : (page_addr == 0) ≡ false = ground (arith, some_page) in
      let kept = directory_kept layout pgdir v w.after w.directory w.there entry e.0 in
      let there : is_present (entry_at m' pgdir (pdx v)) ≡ true =
        ap is_present (kept (pdx v) (omega arith)) ∙ w.there in
      let reached = entry_there layout pgdir v w.after w.directory w.there entry e.0 in
      let translated : (va : ℕ)
          → va < 2 ^ 32
          → translate layout.kernbase m' pgdir va ≡ (
              if va / 4096 == virt / 4096
              then moved_to page_addr va
              else translate layout.kernbase s.mem pgdir va) =
        λ va h. elim (Bool-cases (va / 4096 == virt / 4096)) [
          | inl here ↦
              let page : va / 4096 ≡ v / 4096 = ground (arith, here) in
              let directory_index : pdx va ≡ pdx v = omega (arith, page) in
              let table_index : ptx va ≡ ptx v = omega (arith, page) in
              translate-some layout.kernbase m' pgdir va entry
                (ap (λ (j : ℕ). is_present (entry_at m' pgdir j)) directory_index ∙ there)
                (ap
                    (λ (j : ℕ).
                      entry_at m' (table_of layout.kernbase (entry_at m' pgdir j)) (ptx va))
                    directory_index
                  ∙ ap (entry_at m' (table_of layout.kernbase (entry_at m' pgdir (pdx v))))
                      table_index
                  ∙ reached)
                e.1
              ∙ ap (λ (a : ℕ). some (a + va % 4096)) e.2
              ∙ sym (if_true _ _ here)
          | inr other ↦
              others_kept layout pgdir v w.after w.directory w.there entry e.0 va
                (omega (arith, low_virt)) h (ground (arith, other))
              ∙ w.same va
              ∙ sym (if_false _ _ other)
        ] in
      let free : is_present (le32 w.after.mem w.pte) ≡ false =
        ap (λ (a : ℕ). is_present (le32 w.after.mem a)) w.at ∙ absent in
      let taken : (not (page_addr == 0) && is_present (le32 w.after.mem w.pte)) ≡ false =
        ap (λ (b : Bool). not (page_addr == 0) && b) free ∙ and_false (not (page_addr == 0)) in
      (
        record w.after { mem = m' },
        ap (mapped_at page_addr perm) w.run
            ∙ if_false _ _ not_null
            ∙ if_false _ _ taken
            ∙ ap
                (λ (f : ℕ). some (
                  (
                    true,
                    record w.after {
                      mem =
                          put32 w.after.mem w.pte (bit_or (bit_or (pgrounddown page_addr) perm) f);
                    },
                  )))
                (if_false 0 1 nonzero)
            ∙ ap (λ (a : ℕ). some ((true, record w.after { mem = put32 w.after.mem a entry })))
                w.at,
        Directory-kept layout.kernbase w.after.mem m' pgdir w.directory
            (directory_kept layout pgdir v w.after w.directory w.there entry e.0),
        λ va h. translated va h,
      )
