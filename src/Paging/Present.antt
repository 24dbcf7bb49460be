-- ===== src/Paging/Present.antt =====
-- `pg_is_present` answers whether an address leads somewhere.
use legendary_journey.Base.{
  ℕ, ◌+◌, ◌*◌, ◌%◌, ◌≡◌, ◌∙◌, inl, inr, refl, sym, ap, Bool, true, false, not, ◌&&◌, Option, none,
  some, arith, ◌==◌, Bool-cases, if◌then◌else◌, if_true, if_false, le32, add32,
}
use legendary_journey.Kalloc.{Kalloc, Layout, page_size}
use legendary_journey.Paging.{pgrounddown, pdx, ptx, pte_addr, is_present, walkpgdir, pg_is_present}
use legendary_journey.Paging.Walk.{entry_at, table_of, translate, Directory}

abbrev pub leads_somewhere : Option ℕ → Bool
leads_somewhere none = false
leads_somewhere (some a) = true

-- the answer from the address of an entry
abbrev answer : ℕ × Kalloc → Bool
answer (pte, s') = not (pte == 0) && is_present (le32 s'.mem pte)

unanswered : (e : Bool) → (if not e then false else true) ≡ e
unanswered true = refl
unanswered false = refl

leads-if : (b : Bool) (a : ℕ) → leads_somewhere (if not b then none else some a) ≡ b
leads-if true a = refl
leads-if false a = refl

-- With a well-formed directory, `pg_is_present` is true of exactly the addresses whose page the processor finds.
pub pg_is_present_lem :
    (layout : Layout) (s : Kalloc) (pgdir va : ℕ)
    → Directory layout.kernbase s.mem pgdir
    → pg_is_present layout pgdir va s
      ≡ leads_somewhere (translate layout.kernbase s.mem pgdir (pgrounddown va))
unfolding pg_is_present walkpgdir translate
pg_is_present_lem layout s pgdir va dir =
    let v = pgrounddown va in
    let pde : add32 pgdir (4 * pdx v) ≡ pgdir + 4 * pdx v = omega (arith, dir.page.fits) in
    let entry : le32 s.mem (add32 pgdir (4 * pdx v)) ≡ entry_at s.mem pgdir (pdx v) =
      ap (le32 s.mem) pde in
    elim (Bool-cases (is_present (entry_at s.mem pgdir (pdx v)))) [
      | inl there ↦
          let table = dir.table_page (pdx v) (omega arith) there in
          let t : ℕ = table_of layout.kernbase (entry_at s.mem pgdir (pdx v)) in
          let pte : add32 t (4 * ptx v) ≡ t + 4 * ptx v = omega (arith, table.fits) in
          let not_null : (t + 4 * ptx v == 0) ≡ false = ground (arith, table.not_null) in
          ap answer (if_true _ _ (ap is_present entry ∙ there))
          ∙ ap (λ (e : ℕ). answer (add32 (table_of layout.kernbase e) (4 * ptx v), s)) entry
          ∙ ap (λ (a : ℕ). answer (a, s)) pte
          ∙ ap (λ (b : Bool). not b && is_present (le32 s.mem (t + 4 * ptx v))) not_null
          ∙ sym (
              leads-if (is_present (le32 s.mem (t + 4 * ptx v)))
                (pte_addr (le32 s.mem (t + 4 * ptx v)) + v % page_size))
          ∙ sym (ap leads_somewhere (if_false _ _ (ap not there)))
      | inr absent ↦
          ap answer (if_false _ _ (ap is_present entry ∙ absent))
          ∙ sym (ap leads_somewhere (if_true _ _ (ap not absent)))
    ]
