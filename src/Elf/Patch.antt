-- ===== src/Elf/Patch.antt =====
-- What a relocation of the type R_386_PC32 leaves.
use legendary_journey.Base.{
  ℕ, ◌+◌, ◌%◌, ◌≤◌, ◌<◌, ◌^◌, ◌≡◌, ◌∙◌, ◌⊎◌, inl, inr, refl, sym, ap, true, false, ◌&&◌, arith,
  ◌==◌, Bool-cases, if◌then◌else◌, if_true, if_false, Block, le32, put32, le32-put32_self,
  put32_out, add32, sub32,
}
use legendary_journey.Errno.{enosys}
use legendary_journey.Elf.{
  Loader, Functions, with_mem, with_errno, user_function_ptr, resolved, undefined_symbol,
  patch_relative,
}

module _ (f : Functions) (sym_at strtab : ℕ) (m : Block) where
  -- the function of the table that the symbol names, or 0
  abbrev pub function_of : ℕ
  function_of = user_function_ptr f m (add32 strtab (le32 m sym_at))

  -- what a call through the symbol is meant to reach
  abbrev pub target : ℕ
  target = if function_of == 0 then le32 m (sym_at + 4) else function_of

  resolved-target : function_of < 2 ^ 32 → le32 (resolved f sym_at strtab m) (sym_at + 4) ≡ target
  unfolding resolved
  resolved-target small = elim (Bool-cases (function_of == 0)) [
    | inl none_known ↦
        ap (λ (b : Block). le32 b (sym_at + 4)) (if_true _ _ none_known)
        ∙ sym (if_true _ _ none_known)
    | inr known ↦
        ap (λ (b : Block). le32 b (sym_at + 4)) (if_false _ _ known)
        ∙ le32-put32_self m (sym_at + 4) function_of small
        ∙ sym (if_false _ _ known)
  ]

  resolved_out : (i : ℕ) → (i < sym_at + 4) ⊎ (sym_at + 8 ≤ i) → resolved f sym_at strtab m i ≡ m i
  unfolding resolved
  resolved_out i out = elim (Bool-cases (function_of == 0)) [
    | inl none_known ↦ ap (λ (b : Block). b i) (if_true _ _ none_known)
    | inr known ↦
        ap (λ (b : Block). b i) (if_false _ _ known)
        ∙ put32_out m (sym_at + 4) function_of i (omega (arith, out))
  ]

-- One relocation of type R_386_PC32, of `elf_rel_patch`, at an address of 32 bits: for a symbol
-- that is a function of the table or is defined, it writes such a distance at the relocated place
-- that the processor, which adds the address behind the four bytes, arrives at the function, or
-- else at the symbol's value. Only these four bytes and the value of the symbol change. For any
-- other symbol nothing changes, and the result is false with ENOSYS.
pub patch_relative_lem :
    (f : Functions) (loc sym_at strtab : ℕ) (st : Loader)
    → loc < 2 ^ 32
    → function_of f sym_at strtab st.kernel.mem < 2 ^ 32
    → let known =
        (function_of f sym_at strtab st.kernel.mem == 0) && undefined_symbol sym_at st.kernel.mem in
      ((known ≡ false)
        → (st' : Loader) × (patch_relative f loc sym_at strtab st ≡ (true, st'))
          × ((loc + 4 + le32 st'.kernel.mem loc) % 2 ^ 32
              ≡ target f sym_at strtab st.kernel.mem % 2 ^ 32)
          × ((i : ℕ)
              → (i < loc) ⊎ (loc + 4 ≤ i)
              → (i < sym_at + 4) ⊎ (sym_at + 8 ≤ i)
              → st'.kernel.mem i ≡ st.kernel.mem i)
          × (st'.fat ≡ st.fat))
      × ((known ≡ true) → patch_relative f loc sym_at strtab st ≡ (false, with_errno enosys st))
unfolding patch_relative
patch_relative_lem f loc sym_at strtab st small small' =
    let m = resolved f sym_at strtab st.kernel.mem in
    let value = le32 m (sym_at + 4) in
    let distance : ℕ = sub32 (sub32 value loc) 4 in
    (
      λ defined. (
        with_mem (put32 m loc distance) st,
        if_false _ _ defined,
        ap (λ (d : ℕ). (loc + 4 + d) % 2 ^ 32) (le32-put32_self m loc distance (omega arith))
            ∙ omega (arith, small)
            ∙ ap (λ (v : ℕ). v % 2 ^ 32) (resolved-target f sym_at strtab st.kernel.mem small'),
        λ i out out'.
            put32_out m loc distance i out ∙ resolved_out f sym_at strtab st.kernel.mem i out',
        refl,
      ),
      λ unknown. if_true _ _ unknown,
    )
