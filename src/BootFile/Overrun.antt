-- ===== src/BootFile/Overrun.antt =====
-- What a read of the second boot stage does behind the whole sectors that it copies.
use legendary_journey.Base.{
  ℕ, zero, suc, ◌+◌, ◌-◌, ◌&&◌, ◌*◌, ◌/◌, ◌%◌, ◌^◌, ◌≤◌, ◌<◌, ◌≡◌, ◌∙◌, refl, ap, Bool, true, false,
  not, Option, some, arith, ltb, leb, ◌==◌, if◌then◌else◌, if_true, if_false, Bool-cases, inl, inr,
  ◌>>=◌, Block, add32, pos, ℤ,
}
use legendary_journey.Ata.{Disk, lba28, beyond_end}
use legendary_journey.Fat.{BootSector}
use legendary_journey.File.{File}
use legendary_journey.BootFat.{BootTable, ataread, fatreadsector, fatclustertolba}
use legendary_journey.BootFile.{
  Copying, copy_sector, copy_all, fill, next_sector, read_loop, read_size, read_open, fileread,
}

module _ (errors : ℕ → ℕ) where
  ataread-some :
      (lba : ℕ) (d : Disk) (dst : Block)
      → ((i : ℕ) → d.faulty i ≡ false)
      → (r : Bool × Block) × (ataread errors lba d dst ≡ some r)
  unfolding ataread
  ataread-some lba d dst sound = elim (Bool-cases (beyond_end d lba 1)) [
    | inl beyond ↦ ((false, dst), if_true _ _ beyond)
    | inr on ↦ (
      (true, λ i. if ltb i 512 then d.bytes (lba28 lba * 512 + i) else dst i),
      if_false _ _ on ∙ if_false _ _ (sound (lba28 lba)),
    )
  ]

  module _ (boot : BootSector) where
    fill-some :
        (cluster sector : ℕ) (file : File) (s : BootTable)
        → ((i : ℕ) → s.disk.faulty i ≡ false)
        → (b : Block) × (fill errors boot cluster sector file s ≡ some (record file { buffer = b }))
    unfolding fatreadsector
    fill-some cluster sector file s sound =
        let (r, run) =
          ataread-some (add32 (fatclustertolba errors boot cluster) sector) s.disk file.buffer
            sound in
        (
          r.1,
          ap (λ (x : Option (Bool × Block)). x >>= λ p. some (record file { buffer = p.1 })) run,
        )

    -- how far the loop has come behind `n` rounds
    record Moved (n : ℕ) (c c' : Copying) : Type 0 where
      position : c'.file.position + c.sectorpos ≡ c.file.position + c'.sectorpos + n * 512
      done : c'.done + c.sectorpos ≡ c.done + c'.sectorpos + n * 512
      at_front : c'.sectorpos ≡ (if n == 0 then c.sectorpos else 0)

    -- what a round of the loop does behind the step to the next sector
    abbrev go_on : ℕ → Copying → Bool × File × BootTable → Option (Bool × Copying × BootTable)
    go_on n c (more, file, s) =
        if more
        then (do
          file' ← fill errors boot file.currentcluster file.sectorincluster file s
          read_loop errors boot n (record c { file = file' }) s)
        else some ((false, record c { file = record file { position = file.fsentry.filesize } }, s))

    read_loop-Moved :
        (n : ℕ) (c : Copying) (s : BootTable)
        → ((i : ℕ) → s.disk.faulty i ≡ false)
        → c.sectorpos ≤ 512
        → c.file.sectorincluster + n < boot.sectorspercluster
        → boot.sectorspercluster < 2 ^ 32
        → c.file.position + 512 * n < 2 ^ 32
        → (c' : Copying) × (read_loop errors boot n c s ≡ some ((true, c', s))) × Moved n c c'
    unfolding read_loop next_sector copy_sector
    read_loop-Moved zero c s sound inside near few fits =
        (c, refl, record { position = omega arith; done = omega arith; at_front = refl })
    read_loop-Moved (suc n) c s sound inside near few fits =
        let m = copy_sector c in
        let f : File = record m.file { sectorincluster = add32 c.file.sectorincluster 1 } in
        let same : leb boot.sectorspercluster (add32 c.file.sectorincluster 1) ≡ false =
          ground (arith, near, few) in
        let step : next_sector errors boot m.file s ≡ some ((true, f, s)) = if_false _ _ same in
        let (b, filled) = fill-some f.currentcluster f.sectorincluster f s sound in
        let (c', run, moved) =
          read_loop-Moved n (record m { file = record f { buffer = b } }) s sound (omega arith)
            (omega (arith, near, few)) few (omega (arith, fits, inside)) in
        (
          c',
          ap (λ r. r >>= go_on n m) step
              ∙ ap (λ r. r >>= λ file'. read_loop errors boot n (record m { file = file' }) s)
                  filled
              ∙ run,
          record {
            position = omega (arith, moved.position, fits, inside);
            done = omega (arith, moved.done, fits, inside);
            at_front = ground (arith, moved.at_front);
          },
        )

    -- what `_fileread` does behind its loop, and what `fileread` makes of that
    abbrev finish : ℕ → Bool × Copying × BootTable → Option (ℤ × Block × File × BootTable)
    finish bytes (more, c, s) =
        let c' = copy_all bytes c in
        some (if more then (pos bytes, c'.out, c'.file, s) else (pos 0, c.out, c.file, s))

    abbrev hand_back : ℤ × Block × File × BootTable → Option (ℤ × Block × Option File × BootTable)
    hand_back (n, out, file, s) = some ((n, out, some file, s))

    -- `fileread` of an open file, on a drive without faulty sectors, of bytes that reach over at least one
    -- end of a sector and stay in the cluster: it returns the number of bytes, as if it had delivered them. But
    -- behind the whole sectors, which end at index `whole`, it copies that many bytes once more from the buffer: all of
    -- them stand from `whole` on in the caller's block, and the position ends as far behind the last sector.
    pub fileread_overruns :
        (file : File) (out : Block) (size : ℕ) (s : BootTable)
        → file.opened ≡ true
        → ((i : ℕ) → s.disk.faulty i ≡ false)
        → let bytes = read_size errors boot file size in
          let sectors = (file.position % 512 + bytes) / 512 in
          let whole = sectors * 512 - file.position % 512 in
          0 < sectors
          → file.sectorincluster + sectors < boot.sectorspercluster
          → boot.sectorspercluster < 2 ^ 32
          → file.position + 512 * sectors + bytes < 2 ^ 32
          → (out' : Block) × (file' : File) × (fileread errors boot (some file) out size s
              ≡ some ((pos bytes, out', some file', s)))
            × (file'.position ≡ file.position + whole + bytes)
            × ((i : ℕ) → i < bytes → out' (whole + i) ≡ file'.buffer i)
    unfolding fileread read_open copy_all
    fileread_overruns file out size s opened sound some_sectors near few fits =
        let p = file.position % 512 in
        let bytes = read_size errors boot file size in
        let sectors = (p + bytes) / 512 in
        let start : Copying = record { out = out; done = 0; sectorpos = p; file = file } in
        let rounds : add32 p bytes / 512 ≡ sectors = omega (arith, fits) in
        let (c, run, moved) =
          read_loop-Moved sectors start s sound (omega arith) near few (omega (arith, fits)) in
        let front : c.sectorpos ≡ 0 = ground (arith, moved.at_front, some_sectors) in
        let end : c.done ≡ sectors * 512 - p = omega (arith, moved.done, front) in
        let last = copy_all bytes c in
        (
          last.out,
          last.file,
          if_false _ _ (ap not opened)
              ∙ ap (λ n. read_loop errors boot n start s >>= finish bytes >>= hand_back) rounds
              ∙ ap (λ r. r >>= finish bytes >>= hand_back) run,
          omega (arith, moved.position, front, fits, some_sectors),
          λ i h.
              if_true
                {b = leb c.done (sectors * 512 - p + i)
                  && ltb (sectors * 512 - p + i) (c.done + bytes)}
                _ _ (ground (arith, end, h))
              ∙ ap c.file.buffer (omega (arith, end, front)),
        )
