-- ===== src/File/Stale.antt =====
-- Writes that end exactly at the end of a sector.
use Prim.Native.Nat.{bit_and}
use legendary_journey.Base.{
  ℕ, suc, ◌+◌, ◌-◌, ◌/◌, ◌%◌, ◌≤◌, ◌<◌, ◌≡◌, ◌∙◌, refl, ap, true, false, some, none, arith, ltb,
  ◌==◌, Bool-cases, inl, inr, if◌then◌else◌, Block, add32, mul32, pos,
}
use legendary_journey.Fat.{BootSector, Fat}
use legendary_journey.File.{File, capacity, read_only}
use legendary_journey.File.Write.{
  make_room, fill_buffer, write_loop, write_sized, finish_write, write_open, checked, filewrite,
  Writing, size_after,
}

-- What a write of at most a sector leaves: the table and the drive untouched, the data in the buffer.
record Buffered (boot : BootSector) (file : File) (src : Block) (n : ℕ) (file' : File)
    : Type 0 where
  buffer : (i : ℕ) → file'.buffer i ≡ (if ltb i n then src i else file.buffer i)
  position : file'.position ≡ file.position + n
  cluster : file'.currentcluster ≡ file.currentcluster
  sector : file'.sectorincluster ≡ file.sectorincluster
  total : file'.totalclusters ≡ file.totalclusters
  opened : file'.opened ≡ file.opened
  attributes : file'.fsentry.attributes ≡ file.fsentry.attributes

module _ (boot : BootSector) where
  fill_empties :
      (src : Block) (w : Writing)
      → w.sectorpos ≤ 512
      → w.bytesleft ≤ 512 - w.sectorpos
      → (fill_buffer boot src w).bytesleft ≡ 0
  unfolding fill_buffer
  fill_empties src w inside few = omega arith

  quiet_round :
      (rounds : ℕ) (src : Block) (w : Writing) (s : Fat)
      → w.sectorpos ≤ 512
      → w.bytesleft ≤ 512 - w.sectorpos
      → write_loop boot (suc rounds) src w s ≡ write_loop boot rounds src (fill_buffer boot src w) s
  unfolding write_loop
  quiet_round rounds src w s inside few =
      let none_left : ltb 0 (fill_buffer boot src w).bytesleft ≡ false =
        ground (arith, fill_empties src w inside few) in
      rw none_left refl

  stays :
      (file : File) (bytes : ℕ) (s : Fat)
      → bytes ≤ capacity boot file
      → make_room boot file bytes s ≡ (file, s)
  unfolding make_room
  stays file bytes s room =
      let enough : ltb (capacity boot file) bytes ≡ false = ground arith in rw enough refl

  -- the file with the size that the write sets
  abbrev sized : File → File
  sized file = record file { fsentry = record file.fsentry { filesize = size_after boot file } }

  opening : File → ℕ → Writing
  opening file n = record { done = 0; bytesleft = n; sectorpos = file.position % 512; file = file }

  write_open_run :
      (file file' : File) (src : Block) (n : ℕ) (s : Fat)
      → file.position + n ≤ capacity boot file
      → write_loop boot (suc (add32 (file.position % 512) n / 512)) src (opening file n) s
        ≡ (none, file', s)
      → write_open boot file src n s ≡ (pos n, sized file', s)
  unfolding write_open write_sized finish_write opening
  write_open_run file file' src n s room run =
      ap (λ (r : File × Fat). write_sized boot r.0 src n r.1)
        (stays file (add32 file.position n) s (omega arith))
      ∙ ap (finish_write boot n) run

  -- `fill_buffer` once, or twice for a whole sector
  filled : File → Block → ℕ → Writing
  filled file src n =
      if n == 512
      then fill_buffer boot src (fill_buffer boot src (opening file n))
      else fill_buffer boot src (opening file n)

  filled_run :
      (s : Fat) (file : File) (src : Block) (n : ℕ)
      → file.position % 512 ≡ 0
      → n ≤ 512
      → write_loop boot (suc (add32 (file.position % 512) n / 512)) src (opening file n) s
        ≡ (none, (filled file src n).file, s)
  unfolding filled opening write_loop
  filled_run s file src n aligned few = elim (Bool-cases (n == 512)) [
    | inl whole ↦
        let two : suc (add32 (file.position % 512) n / 512) ≡ 2 = ground (arith, whole) in
        let emptied = fill_empties src (opening file n) (omega arith) (omega arith) in
        ap (λ (k : ℕ). write_loop boot k src (opening file n) s) two
        ∙ quiet_round 1 src (opening file n) s (omega arith) (omega arith)
        ∙ quiet_round 0 src (fill_buffer boot src (opening file n)) s (omega arith)
            (omega (arith, emptied))
        ∙ rw whole refl
    | inr part ↦
        let one : suc (add32 (file.position % 512) n / 512) ≡ 1 = ground (arith, part) in
        ap (λ (k : ℕ). write_loop boot k src (opening file n) s) one
        ∙ quiet_round 0 src (opening file n) s (omega arith) (omega arith)
        ∙ rw part refl
  ]

  filled-Buffered :
      (file : File) (src : Block) (n : ℕ)
      → file.position % 512 ≡ 0
      → n ≤ 512
      → file.position + n ≤ capacity boot file
      → Buffered boot file src n (sized (filled file src n).file)
  unfolding filled opening fill_buffer
  filled-Buffered file src n aligned few room = record {
    buffer = λ i. ground arith;
    position = ground arith;
    cluster = ground arith;
    sector = ground arith;
    total = ground arith;
    opened = ground arith;
    attributes = ground arith;
  }

write_in_sector :
    (boot : BootSector) (s : Fat) (file : File) (src : Block) (n : ℕ)
    → file.position % 512 ≡ 0
    → n ≤ 512
    → file.position + n ≤ capacity boot file
    → (file' : File) × (write_open boot file src n s ≡ (pos n, file', s))
      × Buffered boot file src n file'
write_in_sector boot s file src n aligned few room =
    let file' = (filled boot file src n).file in
    (
      sized boot file',
      write_open_run boot file file' src n s room (filled_run boot s file src n aligned few),
      filled-Buffered boot file src n aligned few room,
    )

module _ (boot : BootSector) where
  passed :
      (s : Fat) (file file' : File) (n : ℕ)
      → file.opened ≡ true
      → (bit_and file.fsentry.attributes read_only == 0) ≡ true
      → 0 < n
      → checked boot file n s (pos n, file', s) ≡ (pos n, some file', s)
  unfolding checked
  passed s file file' n open_file writable some_bytes =
      let more : (n == 0) ≡ false = ground arith in simp (open_file, writable, more) refl

  filewrite_open :
      (s : Fat) (file file' : File) (src : Block) (n : ℕ)
      → file.opened ≡ true
      → (bit_and file.fsentry.attributes read_only == 0) ≡ true
      → 0 < n
      → write_open boot file src n s ≡ (pos n, file', s)
      → filewrite boot (some file) src n s ≡ (pos n, some file', s)
  unfolding filewrite
  filewrite_open s file file' src n open_file writable some_bytes run =
      ap (checked boot file n s) run ∙ passed s file file' n open_file writable some_bytes

-- After a write of a whole sector from its start on, the sector is still only in the buffer, and the
-- file is not moved to the next one. The next, shorter write goes to the front of the same buffer: it
-- overwrites the first bytes of the sector just written. Both writes report success, and neither
-- reaches the drive.
pub filewrite_loses :
    (boot : BootSector) (s : Fat) (file : File) (src more : Block) (n : ℕ)
    → file.opened ≡ true
    → (bit_and file.fsentry.attributes read_only == 0) ≡ true
    → file.position % 512 ≡ 0
    → 0 < n
    → n < 512
    → file.position + 512 + n ≤ capacity boot file
    → (file₁ : File) × (file₂ : File) × (filewrite boot (some file) src 512 s
        ≡ (pos 512, some file₁, s))
      × (filewrite boot (some file₁) more n s ≡ (pos n, some file₂, s))
      × (file₂.currentcluster ≡ file.currentcluster)
      × (file₂.sectorincluster ≡ file.sectorincluster)
      × ((i : ℕ) → i < 512 → file₂.buffer i ≡ (if ltb i n then more i else src i))
filewrite_loses boot s file src more n open_file writable aligned some_bytes part room =
    let (file₁, run₁, b₁) =
      write_in_sector boot s file src 512 aligned (omega arith) (omega arith) in
    let same : capacity boot file₁ ≡ capacity boot file =
      ap (λ (k : ℕ). mul32 (mul32 k boot.sectorspercluster) boot.bytespersector) b₁.total in
    let (file₂, run₂, b₂) =
      write_in_sector boot s file₁ more n (omega (arith, b₁.position)) (omega arith)
        (omega (arith, b₁.position, same)) in
    let writable₁ : (bit_and file₁.fsentry.attributes read_only == 0) ≡ true =
      ap (λ (k : ℕ). bit_and k read_only == 0) b₁.attributes ∙ writable in
    (
      file₁,
      file₂,
      filewrite_open boot s file file₁ src 512 open_file writable (omega arith) run₁,
      filewrite_open boot s file₁ file₂ more n (b₁.opened ∙ open_file) writable₁ some_bytes run₂,
      b₂.cluster ∙ b₁.cluster,
      b₂.sector ∙ b₁.sector,
      λ i h. ground (arith, b₂.buffer i, b₁.buffer i),
    )
