-- ===== src/Elf/Refused.antt =====
-- What `elfread` does with a file that is no ELF file.
use legendary_journey.Base.{
  ℕ, ◌+◌, ◌/◌, ◌≤◌, ◌<◌, ◌≡◌, ◌≢◌, ◌∙◌, refl, ap, Bool, true, false, some, List, arith, ◌==◌, ◌>>=◌,
  Block, le32, le32_ext, length, pos,
}
use legendary_journey.Errno.{enoexec}
use legendary_journey.Kalloc.{Layout, kfree}
use legendary_journey.Fat.{BootSector}
use legendary_journey.Fat.Covered.{Covered}
use legendary_journey.File.{File, capacity, fileseek}
use legendary_journey.File.Io.{fileread}
use legendary_journey.File.Seek.{Geometry}
use legendary_journey.File.Stream.{all_sectors}
use legendary_journey.File.Read.{stream}
use legendary_journey.File.At.{Readable, read_at_lem}
use legendary_journey.Elf.{Loader, Functions, elf_magic, with_errno, seek, read_local}
use legendary_journey.Elf.Header.{read_elf_header, release}
use legendary_journey.Elf.Load.{behind_header, elf_body, done, elfread, locals}

module _ (boot : BootSector) (layout : Layout) (f : Functions) (st : Loader) (at after : File)
    (bytes : Block) (sought : fileseek boot (some st.file) 0 st.fat ≡ (true, some at, st.fat))
    (read : fileread boot (some at) (λ _. 0) 52 st.fat ≡ (pos 52, bytes, some after, st.fat))
    (no_elf : (le32 bytes 0 == elf_magic) ≡ false) where
  refused_header :
      read_elf_header boot (λ _. 0) st
      ≡ (false, bytes, with_errno enoexec (record st { file = after }))
  unfolding read_elf_header seek read_local
  refused_header = rw (sought, read, no_elf) refl

  refused :
      elfread boot layout f st ≡ some (false, 0, with_errno enoexec (record st { file = after }))
  unfolding elfread elf_body behind_header done release kfree
  refused =
      ap
        (λ (r : Bool × Block × Loader).
          behind_header boot layout f (locals boot layout st) r >>= done boot layout)
        refused_header

-- For an open file of at least 52 bytes that can be read, on a volume whose table fits into the cache,
-- and that does not begin with the magic number: `elfread` returns false with ENOEXEC and a NULL entry
-- point, and leaves the memory, the table and the drive as they were. The file can be read again.
pub elfread_refuses :
    (boot : BootSector) (layout : Layout) (f : Functions) (st : Loader) (cs : List ℕ)
    → Geometry boot
    → Covered boot st.fat
    → Readable boot st.fat st.file cs
    → 52 ≤ capacity boot st.file
    → 52 ≤ st.file.fsentry.filesize
    → 52 / 512 < length (all_sectors boot cs)
    → le32 (stream st.fat (all_sectors boot cs)) 0 ≢ elf_magic
    → (file : File) × (elfread boot layout f st
        ≡ some (false, 0, with_errno enoexec (record st { file = file })))
      × Readable boot st.fat file cs
elfread_refuses boot layout f st cs geo cov r room known inside no_elf =
    let p =
      read_at_lem boot st.fat st.file cs 0 52 (λ _. 0) geo cov r (omega arith) (omega (arith, room))
        (omega (arith, known)) (omega (arith, inside)) in
    let magic : le32 p.bytes 0 ≡ le32 (stream st.fat (all_sectors boot cs)) 0 =
      le32_ext p.bytes (stream st.fat (all_sectors boot cs)) 0 0
        (λ i h. p.same (0 + i) ∙ ground (arith, h)) in
    (
      p.after,
      refused boot layout f st p.at p.after p.bytes p.sought p.read (ground (arith, magic, no_elf)),
      p.readable,
    )
