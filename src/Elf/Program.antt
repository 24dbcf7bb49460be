-- ===== src/Elf/Program.antt =====
-- What `load_program_header` puts into memory.
use mathlib.Core.Path.{subst}
use legendary_journey.Base.{
  ℕ, ◌+◌, ◌-◌, ◌/◌, ◌≤◌, ◌<◌, ◌^◌, ◌≡◌, ◌∙◌, ◌⊎◌, inl, inr, sym, ap, Bool, true, false, not, List,
  Option, arith, ltb, leb, ◌==◌, ◌&&◌, Bool-cases, if◌then◌else◌, if_true, if_false, Block, le32,
  le32_ext, add32, sub32, length, ℤ, pos,
}
use legendary_journey.Std.{memset}
use legendary_journey.Std.Move.{memset_lem}
use legendary_journey.Fat.{BootSector, Fat}
use legendary_journey.Fat.Covered.{Covered}
use legendary_journey.File.{File, copied, capacity}
use legendary_journey.File.Write.{file_after}
use legendary_journey.File.Seek.{Geometry}
use legendary_journey.File.Stream.{all_sectors}
use legendary_journey.File.Read.{stream}
use legendary_journey.File.At.{Readable, ReadAt, read_at_lem}
use legendary_journey.Elf.{Loader, with_mem, is_count, seek, read_into, read_local}
use legendary_journey.Elf.Header.{
  p_offset, p_vaddr, p_filesz, p_memsz, clear_rest, load_program_header,
}

-- A program header at an address: what it describes is in the file, and fits into memory away from the header.
pub record Loadable (boot : BootSector) (st : Loader) (header : ℕ) (cs : List ℕ) : Type 0 where
  pub some_bytes : 0 < p_filesz st header
  pub larger : p_filesz st header ≤ p_memsz st header
  pub some_address : 0 < p_vaddr st header
  pub fits : p_vaddr st header + p_memsz st header < 2 ^ 32
  pub apart : (header + 32 ≤ p_vaddr st header) ⊎ (p_vaddr st header + p_memsz st header ≤ header)
  pub room : p_offset st header + p_filesz st header ≤ capacity boot st.file
  pub known : p_offset st header + p_filesz st header ≤ st.file.fsentry.filesize
  pub inside : (p_offset st header + p_filesz st header) / 512 < length (all_sectors boot cs)

-- the memory with the bytes of the file, and zeros behind them
abbrev pub image : BootSector → Loader → ℕ → List ℕ → Block
image boot st header cs x =
    if leb (p_vaddr st header) x && ltb x (p_vaddr st header + p_filesz st header)
    then stream st.fat (all_sectors boot cs) (p_offset st header + (x - p_vaddr st header))
    else if leb (p_vaddr st header) x && ltb x (p_vaddr st header + p_memsz st header)
    then 0
    else st.kernel.mem x

clear_rest_lem :
    (boot : BootSector) (address header : ℕ) (st : Loader) (filesz memsz : ℕ)
    → p_filesz st header ≡ filesz
    → p_memsz st header ≡ memsz
    → filesz ≤ memsz
    → address + memsz < 2 ^ 32
    → ((x : ℕ)
        → (clear_rest boot address header st).kernel.mem x
          ≡ (if leb (address + filesz) x && ltb x (address + memsz) then 0 else st.kernel.mem x))
      × ((clear_rest boot address header st).fat ≡ st.fat)
      × ((clear_rest boot address header st).file ≡ st.file)
unfolding clear_rest
clear_rest_lem boot address header st filesz memsz e e' larger fits =
    elim (Bool-cases (ltb (p_filesz st header) (p_memsz st header))) [
      | inl more ↦
          let to : add32 address (p_filesz st header) ≡ address + filesz = omega (arith, fits) in
          let n : sub32 (p_memsz st header) (p_filesz st header) ≡ memsz - filesz =
            omega (arith, fits) in
          let end : address + filesz + (memsz - filesz) ≡ address + memsz = omega arith in
          (
            λ x.
                ap (λ (t : Loader). t.kernel.mem x) (if_true _ _ more)
                ∙ ap
                    (λ (a : ℕ).
                      memset a 0 (sub32 (p_memsz st header) (p_filesz st header)) st.kernel.mem x)
                    to
                ∙ ap (λ (k : ℕ). memset (address + filesz) 0 k st.kernel.mem x) n
                ∙ memset_lem (address + filesz) 0 (memsz - filesz) st.kernel.mem
                    (omega (arith, fits)) x
                ∙ ap (λ (k : ℕ). if leb (address + filesz) x && ltb x k then 0 else st.kernel.mem x)
                    end,
            ap (λ (t : Loader). t.fat) (if_true _ _ more),
            ap (λ (t : Loader). t.file) (if_true _ _ more),
          )
      | inr none_left ↦ (
        λ x.
            let out : (leb (address + filesz) x && ltb x (address + memsz)) ≡ false =
              ground (arith, none_left, e, e') in
            ap (λ (t : Loader). t.kernel.mem x) (if_false _ _ none_left) ∙ sym (if_false _ _ out),
        ap (λ (t : Loader). t.fat) (if_false _ _ none_left),
        ap (λ (t : Loader). t.file) (if_false _ _ none_left),
      )
    ]

image_parts :
    (m bytes g : Block) (at n size offset x : ℕ)
    → n ≤ size
    → ((i : ℕ) → bytes i ≡ (if ltb i n then g (offset + i) else m (at + i)))
    → (if leb (at + n) x && ltb x (at + size) then 0 else copied m at bytes 0 n x) ≡ (
        if leb at x && ltb x (at + n)
        then g (offset + (x - at))
        else if leb at x && ltb x (at + size)
        then 0
        else m x)
image_parts m bytes g at n size offset x larger same = ground (arith, same (x - at))

module _ (boot : BootSector) (st : Loader) (header : ℕ) (cs : List ℕ) (geo : Geometry boot)
    (cov : Covered boot st.fat) (r : Readable boot st.fat st.file cs)
    (l : Loadable boot st header cs) where
  abbrev offset : ℕ
  offset = p_offset st header

  abbrev address : ℕ
  address = p_vaddr st header

  abbrev filesz : ℕ
  filesz = p_filesz st header

  abbrev memsz : ℕ
  memsz = p_memsz st header

  part : ReadAt boot st.fat st.file cs offset filesz (λ i. st.kernel.mem (address + i))
  part =
      read_at_lem boot st.fat st.file cs offset filesz (λ i. st.kernel.mem (address + i)) geo cov r
        l.some_bytes l.room l.known l.inside

  -- after the seek, and after the read
  abbrev at_part : Loader
  at_part = record st { file = part.at }

  abbrev copied_part : Loader
  copied_part =
      with_mem (copied st.kernel.mem address part.bytes 0 filesz) (record st { file = part.after })

  seek_part : seek boot offset st ≡ (true, at_part)
  unfolding seek
  seek_part =
      ap
        (λ ((ok, f, t) : Bool × Option File × Fat).
          (ok, record st { file = file_after st.file f; fat = t }))
        part.sought

  read_part : read_into boot address filesz at_part ≡ (pos filesz, copied_part)
  unfolding read_into read_local
  read_part =
      let used : (address == 0) ≡ false = ground (arith, l.some_address) in
      if_false _ _ used
      ∙ ap
          (λ ((n, out, f, t) : ℤ × Block × Option File × Fat). (
            n,
            with_mem (copied st.kernel.mem address out 0 filesz)
                (record at_part { file = file_after at_part.file f; fat = t }),
          ))
          part.read

  kept :
      (k : ℕ)
      → k + 4 ≤ 32
      → le32 copied_part.kernel.mem (header + k) ≡ le32 st.kernel.mem (header + k)
  kept k h = le32_ext copied_part.kernel.mem st.kernel.mem (header + k) (header + k) (λ i lt.
      let out : (leb address (header + k + i) && ltb (header + k + i) (address + filesz)) ≡ false =
        ground (arith, l.apart, l.larger) in
      if_false _ _ out)

  -- the rest of `load_program_header` behind its seek, and behind its read
  abbrev behind_read : Bool → Loader → ℤ × Loader → Bool × Loader
  behind_read ok st₁ (n, st₂) =
      if memsz == 0
      then (true, st)
      else if not ok
      then (false, st₁)
      else if not (is_count n (p_filesz st₂ header))
      then (false, st₂)
      else (true, clear_rest boot address header st₂)

  abbrev behind_seek : Bool × Loader → Bool × Loader
  behind_seek (ok, st₁) = behind_read ok st₁ (read_into boot address (p_filesz st₁ header) st₁)

  loaded : load_program_header boot header st ≡ (true, clear_rest boot address header copied_part)
  unfolding load_program_header
  loaded =
      let some_memory : (memsz == 0) ≡ false = ground (arith, l.some_bytes, l.larger) in
      let same : p_filesz copied_part header ≡ filesz = kept 16 (omega arith) in
      let counted : not (filesz == p_filesz copied_part header) ≡ false = ground (arith, same) in
      ap behind_seek seek_part
      ∙ ap (behind_read true at_part) read_part
      ∙ if_false _ _ some_memory
      ∙ if_false _ _ counted

-- What `load_program_header` does with a program header that has bytes in the file, no more of them
-- than in memory, whose bytes end inside the file and before the end of the last sector of its
-- chain, and whose memory is not at address 0, does not wrap round and lies away from the header,
-- for an open file that can be read, on sound sectors of a volume of 512-byte sectors whose table
-- fits into the cache and stands there: it succeeds, the bytes of the file are at the address,
-- zeros follow up to the size in memory, all other memory and the file system are as they were, and
-- the file can be read again.
pub load_program_header_lem :
    (boot : BootSector) (st : Loader) (header : ℕ) (cs : List ℕ)
    → Geometry boot
    → Covered boot st.fat
    → Readable boot st.fat st.file cs
    → Loadable boot st header cs
    → (st' : Loader) × (load_program_header boot header st ≡ (true, st'))
      × ((x : ℕ) → st'.kernel.mem x ≡ image boot st header cs x)
      × (st'.fat ≡ st.fat)
      × Readable boot st'.fat st'.file cs
load_program_header_lem boot st header cs geo cov r l =
    let p = part boot st header cs geo cov r l in
    let at = p_vaddr st header in
    let n = p_filesz st header in
    let after = copied_part boot st header cs geo cov r l in
    let (bytes, fat, file) =
      clear_rest_lem boot at header after n (p_memsz st header)
        (kept boot st header cs geo cov r l 16 (omega arith))
        (kept boot st header cs geo cov r l 20 (omega arith)) l.larger l.fits in
    (
      clear_rest boot at header after,
      loaded boot st header cs geo cov r l,
      λ x.
          bytes x
          ∙ image_parts st.kernel.mem p.bytes (stream st.fat (all_sectors boot cs)) at n
              (p_memsz st header) (p_offset st header) x l.larger p.same,
      fat,
      subst (λ (t : Fat). Readable boot t (clear_rest boot at header after).file cs) (sym fat)
          (subst (λ (f : File). Readable boot st.fat f cs) (sym file) p.readable),
    )
