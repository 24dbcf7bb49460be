-- ===== src/Elf/Header.antt =====
-- src/kernel/user/elf.c: the headers of a file, and the loading of what a program header describes.
use legendary_journey.Base.{
  ℕ, ◌+◌, ◌*◌, Bool, true, false, not, Option, none, some, ltb, ◌==◌, if◌then◌else◌, Block, le32,
  add32, sub32, ℤ, pos, negsuc,
}
use legendary_journey.Errno.{enoexec}
use legendary_journey.Kalloc.{Layout, kalloc, kfree}
use legendary_journey.Std.{memset}
use legendary_journey.Fat.{BootSector}
use legendary_journey.File.{fail}
use legendary_journey.Dir.{le16}
use legendary_journey.Elf.{
  Loader, elf_magic, with_errno, with_mem, is_count, seek, read_local, read_into,
}

-- `fileread(...)` as a truth value, and `fileread(...) > 0`
abbrev pub nonzero : ℤ → Bool
nonzero (pos n) = not (n == 0)
nonzero (negsuc n) = true

abbrev pub positive : ℤ → Bool
positive (pos n) = ltb 0 n
positive (negsuc n) = false

-- `sizeof` of the headers
abbrev pub elf_hdr_size : ℕ
elf_hdr_size = 52

abbrev pub prog_hdr_size : ℕ
prog_hdr_size = 32

abbrev pub sec_hdr_size : ℕ
sec_hdr_size = 40

-- `kalloc` and `kfree`, which share `errno` with the file system
unfoldable pub alloc : Loader → ℕ × Loader
unfolding kalloc
alloc st =
    let (page, kernel) = kalloc (record st.kernel { errno = st.fat.errno }) in
    (page, record st { kernel = kernel; fat = fail kernel.errno st.fat })

unfoldable pub release : Layout → ℕ → Loader → Option Loader
unfolding kfree
release layout page st = elim (kfree layout page st.kernel) [
  | none ↦ none
  | some kernel ↦ some (record st { kernel = kernel })
]

-- The fields of `struct elf_hdr` that the loader reads.
pub record ElfHdr : Type 0 where
  pub e_magic : ℕ
  pub e_entry : ℕ
  pub e_phoff : ℕ
  pub e_shoff : ℕ
  pub e_phnum : ℕ
  pub e_shnum : ℕ
  pub e_shstrndx : ℕ

abbrev pub elf_hdr : Block → ElfHdr
elf_hdr b = record {
  e_magic = le32 b 0;
  e_entry = le32 b 24;
  e_phoff = le32 b 28;
  e_shoff = le32 b 32;
  e_phnum = le16 b 44;
  e_shnum = le16 b 48;
  e_shstrndx = le16 b 50;
}

-- the fields of the program header and of the section header at an address
abbrev pub p_offset : Loader → ℕ → ℕ
p_offset st h = le32 st.kernel.mem (h + 4)

abbrev pub p_vaddr : Loader → ℕ → ℕ
p_vaddr st h = le32 st.kernel.mem (h + 8)

abbrev pub p_filesz : Loader → ℕ → ℕ
p_filesz st h = le32 st.kernel.mem (h + 16)

abbrev pub p_memsz : Loader → ℕ → ℕ
p_memsz st h = le32 st.kernel.mem (h + 20)

abbrev pub sh_type : Loader → ℕ → ℕ
sh_type st h = le32 st.kernel.mem (h + 4)

abbrev pub sh_offset : Loader → ℕ → ℕ
sh_offset st h = le32 st.kernel.mem (h + 16)

abbrev pub sh_size : Loader → ℕ → ℕ
sh_size st h = le32 st.kernel.mem (h + 20)

module _ (boot : BootSector) where
  unfoldable pub read_elf_header : Block → Loader → Bool × Block × Loader
  unfolding seek read_local
  read_elf_header dest st =
      let (ok, st₁) = seek boot 0 st in
      let (n, dest', st₂) = read_local boot dest elf_hdr_size st₁ in
      if not ok
      then (false, dest, with_errno enoexec st₁)
      else if not (nonzero n)
      then (false, dest', with_errno enoexec st₂)
      else if not ((elf_hdr dest').e_magic == elf_magic)
      then (false, dest', with_errno enoexec st₂)
      else (true, dest', st₂)

  -- what `memset` adds behind the bytes of the file
  unfoldable pub clear_rest : ℕ → ℕ → Loader → Loader
  unfolding memset
  clear_rest address header st =
      let filesz = p_filesz st header in
      let memsz = p_memsz st header in
      if ltb filesz memsz
      then with_mem (memset (add32 address filesz) 0 (sub32 memsz filesz) st.kernel.mem) st
      else st

  unfoldable pub load_program_header : ℕ → Loader → Bool × Loader
  unfolding seek read_into clear_rest
  load_program_header header st =
      let address = p_vaddr st header in
      let (ok, st₁) = seek boot (p_offset st header) st in
      let (n, st₂) = read_into boot address (p_filesz st₁ header) st₁ in
      if p_memsz st header == 0
      then (true, st)
      else if not ok
      then (false, st₁)
      else if not (is_count n (p_filesz st₂ header))
      then (false, st₂)
      else (true, clear_rest address header st₂)

  -- `read_program_headers` and `read_section_headers`
  unfoldable pub read_program_headers : ElfHdr → ℕ → Loader → Bool × Loader
  unfolding seek read_into
  read_program_headers header dest st =
      let (ok, st₁) = seek boot header.e_phoff st in
      let (n, st₂) = read_into boot dest (prog_hdr_size * header.e_phnum) st₁ in
      if ok then (positive n, st₂) else (false, st₁)

  unfoldable pub read_section_headers : ElfHdr → ℕ → Loader → Bool × Loader
  unfolding seek read_into
  read_section_headers header dest st =
      let (ok, st₁) = seek boot header.e_shoff st in
      let (n, st₂) = read_into boot dest (sec_hdr_size * header.e_shnum) st₁ in
      if ok then (positive n, st₂) else (false, st₁)
