-- ===== src/BootFile.antt =====
-- src/boot/stage2/file.c: an open file in the second boot stage. The caller's data is a block indexed from 0,
-- and the indices of `buffer` from 512 on are the memory behind it. `none` is a stop of the machine, or
-- a chain longer than the fuel.
pub mod Overrun
mod Tests
use Prim.Native.Nat.{bit_or}
use legendary_journey.Base.{
  ℕ, zero, suc, ◌+◌, ◌*◌, ◌/◌, ◌%◌, ◌^◌, Bool, true, false, not, ◌&&◌, ◌||◌, Option, none, some,
  ltb, leb, ◌==◌, if◌then◌else◌, ◌>>=◌, min, Block, add32, sub32, mul32, ℤ, pos, negsuc,
}
use legendary_journey.Fat.{BootSector, feend32l}
use legendary_journey.File.{DirEntry, File, fileisdir, sector_size, copied, cluster_bytes, capacity}
use legendary_journey.BootFat.{BootTable, fatreadsector, fatclustervalue, fattotalclusters}

-- the caller's block, the number of bytes copied, the position in the sector, and the file
pub record Copying : Type 0 where
  pub out : Block
  pub done : ℕ
  pub sectorpos : ℕ
  pub file : File

-- a round of `_fileread` up to the next sector
unfoldable pub copy_sector : Copying → Copying
copy_sector c =
    let n = sub32 sector_size c.sectorpos in
    record {
      out = copied c.out c.done c.file.buffer c.sectorpos n;
      done = c.done + n;
      sectorpos = 0;
      file = record c.file { position = add32 c.file.position n };
    }

-- the copy behind the loop, of all `size` bytes
unfoldable pub copy_all : ℕ → Copying → Copying
copy_all size c = record c {
  out = copied c.out c.done c.file.buffer c.sectorpos size;
  file = record c.file { position = add32 c.file.position size };
}

module _ (errors : ℕ → ℕ) (boot : BootSector) where
  open boot use {bytespersector, sectorspercluster}

  -- `fatreadsector` into the buffer of a file
  abbrev pub fill : ℕ → ℕ → File → BootTable → Option File
  fill cluster sector file s = do
    (done, buffer) ← fatreadsector errors boot cluster sector s file.buffer
    some (record file { buffer = buffer })

  -- `old` is what `fileout` held
  unfoldable pub filenew : ℕ → DirEntry → File → BootTable → Option (File × BootTable)
  filenew fuel entry old s = do
    let first = bit_or entry.firstclusterlo (entry.firstclusterhi * 2 ^ 16)
    (total, last, s') ← fattotalclusters errors boot fuel first s
    file ←
        fill first 0
          (record old {
            fsentry = entry;
            opened = true;
            position = 0;
            firstcluster = first;
            totalclusters = total;
            lastcluster = last;
            currentcluster = first;
            sectorincluster = 0;
          })
          s'
    some ((file, s'))

  -- the step of a round of `_fileread` to the next sector; `false` is the end of the chain
  unfoldable pub next_sector : File → BootTable → Option (Bool × File × BootTable)
  next_sector file s =
      let sector = add32 file.sectorincluster 1 in
      if leb sectorspercluster sector
      then (do
        (value, s') ← fatclustervalue errors boot file.currentcluster s
        let next = record file { sectorincluster = 0; currentcluster = value }
        some ((ltb value feend32l, next, s')))
      else some ((true, record file { sectorincluster = sector }, s))

  -- the loop of `_fileread`; `false` is the end of the chain
  unfoldable pub read_loop : ℕ → Copying → BootTable → Option (Bool × Copying × BootTable)
  unfolding copy_sector next_sector fatreadsector
  read_loop zero c s = some ((true, c, s))
  read_loop (suc n) c s = do
    let c' = copy_sector c
    (more, file, s') ← next_sector c'.file s
    if more
        then (do
          file' ← fill file.currentcluster file.sectorincluster file s'
          read_loop n (record c' { file = file' }) s')
        else some
            ((false, record c' { file = record file { position = file.fsentry.filesize } }, s'))

  -- the number of bytes that `_fileread` means to read
  unfoldable pub read_size : File → ℕ → ℕ
  read_size file size =
      let clusters = capacity boot file in
      let total = if fileisdir file then clusters else min clusters file.fsentry.filesize in
      min size (sub32 total file.position)

  -- `_fileread`: the result, the caller's block, the file and the table
  unfoldable pub read_open : File → Block → ℕ → BootTable → Option (ℤ × Block × File × BootTable)
  unfolding read_loop read_size copy_all
  read_open file out size s = do
    let bytes = read_size file size
    let sectorpos = file.position % sector_size
    let start : Copying = record { out = out; done = 0; sectorpos = sectorpos; file = file }
    (more, c, s') ← read_loop (add32 sectorpos bytes / sector_size) start s
    let c' = copy_all bytes c
    some (if more then (pos bytes, c'.out, c'.file, s') else (pos 0, c.out, c.file, s'))

  unfoldable pub fileread :
      Option File → Block → ℕ → BootTable → Option (ℤ × Block × Option File × BootTable)
  unfolding read_open
  fileread none out size s = some ((negsuc 0, out, none, s))
  fileread (some file) out size s =
      if not file.opened
      then some ((negsuc 0, out, some file, s))
      else (do (n, out', file', s') ← read_open file out size s; some ((n, out', some file', s')))

  unfoldable pub filereset : Option File → BootTable → Option (Bool × Option File)
  unfolding fatreadsector
  filereset none s = some ((false, none))
  filereset (some file) s = if not file.opened then some ((false, some file)) else (do
    read ← (if leb sector_size file.position then fill file.firstcluster 0 file s else some file)
    some (
        (
          true,
          some (record read {
            position = 0;
            currentcluster = file.firstcluster;
            sectorincluster = 0;
          }),
        )))

  -- `while (clustersin--) newcluster = fatclustervalue(newcluster)`
  unfoldable pub follow : ℕ → ℕ → BootTable → Option (ℕ × BootTable)
  follow zero cluster s = some ((cluster, s))
  follow (suc n) cluster s = do (next, s') ← fatclustervalue errors boot cluster s; follow n next s'

  unfoldable pub fileseek : Option File → ℕ → BootTable → Option (Bool × Option File × BootTable)
  unfolding follow fatreadsector
  fileseek none seek s = some ((false, none, s))
  fileseek (some file) seek s =
      if not file.opened || leb file.fsentry.filesize seek
      then some ((false, some file, s))
      else (do
        let newsector = seek / bytespersector % sectorspercluster
        (newcluster, s') ← follow (seek / cluster_bytes boot) file.firstcluster s
        let same = (file.currentcluster == newcluster) && (file.sectorincluster == newsector)
        read ← (if same then some file else fill newcluster newsector file s')
        some (
            (
              true,
              some (record read {
                position = seek;
                currentcluster = newcluster;
                sectorincluster = newsector;
              }),
              s',
            )))
