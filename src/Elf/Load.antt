-- ===== src/Elf/Load.antt =====
-- src/kernel/user/elf.c: the steps of `elfread`. Its locals are a record, and a step that ends with `goto done`
-- has the result false. `none` is `STOP()` in `kfree`.
use legendary_journey.Base.{
  Block, ℕ, zero, suc, ◌+◌, ◌*◌, Bool, true, false, not, ◌&&◌, Option, some, ltb, ◌==◌,
  if◌then◌else◌, ◌>>=◌,
}
use legendary_journey.Errno.{enomem}
use legendary_journey.Kalloc.{Layout, page_size}
use legendary_journey.Fat.{BootSector}
use legendary_journey.Elf.{Loader, Functions, with_errno, is_count, seek, read_into, elf_rel_patch}
use legendary_journey.Elf.Header.{
  prog_hdr_size, sec_hdr_size, alloc, release, ElfHdr, elf_hdr, sh_type, sh_offset, sh_size,
  read_elf_header, load_program_header, read_program_headers, read_section_headers,
}

-- the locals of `elfread`
pub record Elf : Type 0 where
  pub header : ElfHdr
  pub proghdr : ℕ
  pub sechdr : ℕ
  pub symtab : ℕ
  pub strtab : ℕ
  pub loader : Loader

module _ (boot : BootSector) where
  module _ (layout : Layout) where
    -- `read_section` behind a successful `kalloc`
    unfoldable pub fill_section : ℕ → ℕ → Loader → Option (ℕ × Loader)
    unfolding read_into release
    fill_section section data_at st =
        let (n, st') = read_into boot data_at (sh_size st section) st in
        if is_count n (sh_size st' section)
        then some ((data_at, st'))
        else (do st'' ← release layout data_at st'; some ((0, st'')))

    unfoldable pub read_section : ℕ → Loader → Option (ℕ × Loader)
    unfolding seek alloc fill_section
    read_section section st =
        let (ok, st₁) = seek boot (sh_offset st section) st in
        let (page, st₂) = alloc st₁ in
        if not ok
        then some ((0, st₁))
        else if ltb page_size (sh_size st₁ section)
        then some ((0, with_errno enomem st₁))
        else if page == 0
        then some ((0, st₂))
        else fill_section section page st₂

    -- a section that must be read
    unfoldable pub required_section : ℕ → (ℕ → Loader → Elf) → Elf → Option (Bool × Elf)
    unfolding read_section
    required_section section put e = do
      (page, st) ← read_section section e.loader
      some ((not (page == 0), put page st))

    -- the first loop of `elfread`, over the sections left from index `i` on
    unfoldable pub table_loop : ℕ → ℕ → Elf → Option (Bool × Elf)
    unfolding required_section
    table_loop zero i e = some ((true, e))
    table_loop (suc left) i e = do
      let section = e.sechdr + sec_hdr_size * i
      let type = sh_type e.loader section
      (ok, e') ←
          if type == 2
          then required_section section (λ page st. record e { symtab = page; loader = st }) e
          else if (type == 3) && not (i == e.header.e_shstrndx)
          then required_section section (λ page st. record e { strtab = page; loader = st }) e
          else some ((true, e))
      (let rest = table_loop left (i + 1) e' in if ok then rest else some ((false, e')))

    -- the loop over the program headers
    unfoldable pub load_loop : ℕ → ℕ → Elf → Bool × Elf
    unfolding load_program_header
    load_loop zero i e = (true, e)
    load_loop (suc left) i e =
        let (ok, st) = load_program_header boot (e.proghdr + prog_hdr_size * i) e.loader in
        let e' = record e { loader = st } in
        let rest = load_loop left (i + 1) e' in if ok then rest else (false, e')

    -- the second loop over the sections
    unfoldable pub rel_loop : Functions → ℕ → ℕ → Elf → Bool × Elf
    unfolding elf_rel_patch
    rel_loop f zero i e = (true, e)
    rel_loop f (suc left) i e =
        let section = e.sechdr + sec_hdr_size * i in
        let (ok, st) = elf_rel_patch boot f section e.symtab e.strtab e.loader in
        let e' = record e { loader = st } in
        let patched = rel_loop f left (i + 1) e' in
        let skipped = rel_loop f left (i + 1) e in
        if not (sh_type e.loader section == 9) then skipped else if ok then patched else (false, e')

    -- `elfread` with both pages of headers allocated
    unfoldable pub load_all : Functions → Elf → Option (Bool × Elf)
    unfolding read_program_headers read_section_headers table_loop load_loop rel_loop
    load_all f e =
        let (ok, st) = read_program_headers boot e.header e.proghdr e.loader in
        let (ok', st') = read_section_headers boot e.header e.sechdr st in
        let e' = record e { loader = st' } in
        if not ok
        then some ((false, record e { loader = st }))
        else if not ok'
        then some ((false, e'))
        else (do
          (tables, e₁) ← table_loop e.header.e_shnum 0 e'
          (let (loaded, e₂) = load_loop e.header.e_phnum 0 e₁ in
              let patched = rel_loop f e.header.e_shnum 0 e₂ in
              some
                (if not tables then (false, e₁) else if not loaded then (false, e₂) else patched)))

    -- `elfread` behind `read_elf_header`, up to `done`
    unfoldable pub behind_header : Functions → Elf → Bool × Block × Loader → Option (Bool × Elf)
    unfolding alloc load_all
    behind_header f e (ok, bytes, st) =
        let header = elf_hdr bytes in
        let (proghdr, st₁) = alloc st in
        let (sechdr, st₂) = alloc st₁ in
        let read = record e { header = header; loader = st } in
        if not ok
        then some ((false, read))
        else if ltb page_size (header.e_phnum * prog_hdr_size)
        then some ((false, record read { loader = with_errno enomem st }))
        else if ltb page_size (header.e_shnum * sec_hdr_size)
        then some ((false, record read { loader = with_errno enomem st }))
        else if proghdr == 0
        then some ((false, record read { loader = st₁ }))
        else if sechdr == 0
        then some ((false, record read { proghdr = proghdr; loader = st₂ }))
        else load_all f (record read { proghdr = proghdr; sechdr = sechdr; loader = st₂ })

    -- the part of `elfread` up to `done`
    unfoldable pub elf_body : Functions → Elf → Option (Bool × Elf)
    unfolding read_elf_header behind_header
    elf_body f e = behind_header f e (read_elf_header boot (λ _. 0) e.loader)

    -- `struct elf_hdr elfhdr = {0}`, and pointers that are NULL
    abbrev pub locals : Loader → Elf
    locals st = record {
      header = elf_hdr (λ _. 0);
      proghdr = 0;
      sechdr = 0;
      symtab = 0;
      strtab = 0;
      loader = st;
    }

    -- what stands behind the label `done`: the result, and the entry point, which is NULL on failure
    unfoldable pub done : Bool × Elf → Option (Bool × ℕ × Loader)
    unfolding release
    done (ok, e) = do
      st₁ ← release layout e.proghdr e.loader
      st₂ ← release layout e.sechdr st₁
      st₃ ← release layout e.symtab st₂
      some ((ok, if ok then e.header.e_entry else 0, st₃))

    unfoldable pub elfread : Functions → Loader → Option (Bool × ℕ × Loader)
    unfolding elf_body done
    elfread f st = do result ← elf_body f (locals st); done result
