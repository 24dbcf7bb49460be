-- ===== src/File/Io.antt =====
-- src/kernel/disk/file.c: reading and writing at the position.
use Prim.Native.Nat.{bit_and}
use legendary_journey.Base.{
  ℕ, zero, suc, ◌+◌, ◌/◌, ◌%◌, Bool, true, false, not, Option, none, some, ltb, leb, ◌==◌,
  if◌then◌else◌, min, Block, add32, sub32, ℤ, pos, negsuc,
}
use legendary_journey.Errno.{einval, ebadf, eacces}
use legendary_journey.Fat.{BootSector, Fat, feend32l, fatreadsector, fatclustervalue}
use legendary_journey.File.{File, fileisdir, sector_size, read_only, copied, fail, capacity}

-- the caller's block, the bytes copied and those left, the position in the sector, and the file
pub record Reading : Type 0 where
  pub out : Block
  pub done : ℕ
  pub bytesleft : ℕ
  pub sectorpos : ℕ
  pub file : File

module _ (boot : BootSector) where
  -- the part of a round of `_fileread` up to the next cluster
  unfoldable pub rest_of_sector : Reading → Reading
  rest_of_sector r =
      let n = sub32 sector_size r.sectorpos in
      record {
        out = copied r.out r.done r.file.buffer r.sectorpos n;
        done = r.done + n;
        bytesleft = sub32 r.bytesleft n;
        sectorpos = 0;
        file = record r.file { position = add32 r.file.position n };
      }

  -- the step to the next sector; `false` is the end of the chain
  unfoldable pub next_sector : File → Fat → Bool × File × Fat
  next_sector file s =
      let sector = add32 file.sectorincluster 1 in
      let (value, s') = fatclustervalue boot file.currentcluster s in
      if leb boot.sectorspercluster sector
      then (ltb value feend32l, record file { sectorincluster = 0; currentcluster = value }, s')
      else (true, record file { sectorincluster = sector }, s)

  -- the loop of `_fileread`; `false` is the end of the chain
  unfoldable pub read_loop : ℕ → Reading → Fat → Bool × Reading × Fat
  unfolding rest_of_sector next_sector
  read_loop zero r s = (true, r, s)
  read_loop (suc n) r s =
      let r' = rest_of_sector r in
      let (more, file, s') = next_sector r'.file s in
      let buffer = (fatreadsector boot s' file.currentcluster file.sectorincluster file.buffer).1 in
      let r'' = record r' { file = record file { buffer = buffer } } in
      let rest = read_loop n r'' s' in
      if more
      then rest
      else (false, record r' { file = record file { position = file.fsentry.filesize } }, s')

  -- the bytes left behind the last whole sector
  unfoldable pub last_part : Reading → Reading
  last_part r = if r.bytesleft == 0 then r else record r {
    out = copied r.out r.done r.file.buffer r.sectorpos r.bytesleft;
    file = record r.file { position = add32 r.file.position r.bytesleft };
  }

  -- how many bytes a read of `size` bytes asks for: no more than the file has behind the position
  unfoldable pub read_size : File → ℕ → ℕ
  read_size file size =
      let clusters = capacity boot file in
      let total = if fileisdir file then clusters else min clusters file.fsentry.filesize in
      min size (sub32 total file.position)

  -- `_fileread`: the result, the caller's block, the file and the file system
  unfoldable pub read_open : File → Block → ℕ → Fat → ℤ × Block × File × Fat
  unfolding read_loop last_part read_size
  read_open file out size s =
      let size = read_size file size in
      let sectorpos = file.position % sector_size in
      let start : Reading = record {
        out = out;
        done = 0;
        bytesleft = size;
        sectorpos = sectorpos;
        file = file;
      } in
      let (more, r, s') = read_loop (add32 sectorpos size / sector_size) start s in
      let r' = last_part r in
      if more then (pos size, r'.out, r'.file, s') else (pos 0, r.out, r.file, s')

  -- `fileread` with a block to read into
  unfoldable pub fileread : Option File → Block → ℕ → Fat → ℤ × Block × Option File × Fat
  unfolding read_open
  fileread none out size s = (negsuc 0, out, none, fail einval s)
  fileread (some file) out size s =
      let (n, out', file', s') = read_open file out size s in
      if not file.opened
      then (negsuc 0, out, some file, fail ebadf s)
      else if not (bit_and file.fsentry.attributes read_only == 0)
      then (negsuc 0, out, some file, fail eacces s)
      else if size == 0
      then (pos 0, out, some file, s)
      else (n, out', some file', s')
