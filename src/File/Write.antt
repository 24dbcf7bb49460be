-- ===== src/File/Write.antt =====
-- src/kernel/disk/file.c: writing at the position.
use Prim.Native.Nat.{bit_and}
use legendary_journey.Base.{
  ℕ, zero, suc, ◌+◌, ◌/◌, ◌%◌, Bool, true, not, Option, none, some, ltb, ◌==◌, if◌then◌else◌, min,
  max, Block, add32, sub32, ℤ, pos, negsuc,
}
use legendary_journey.Errno.{einval, ebadf, eacces}
use legendary_journey.Fat.{BootSector, Fat}
use legendary_journey.File.{
  File, fileisdir, sector_size, read_only, copied, fail, capacity, fileresize, fileflush,
}

-- the caller's bytes written and those left, the position in the sector, and the file
pub record Writing : Type 0 where
  pub done : ℕ
  pub bytesleft : ℕ
  pub sectorpos : ℕ
  pub file : File

-- the file that a call leaves behind its pointer
abbrev pub file_after : File → Option File → File
file_after file none = file
file_after file (some file') = file'

abbrev after_resize : File → Fat → Option (Bool × Option File × Fat) → File × Fat
after_resize file s none = (file, s)
after_resize file s (some (_, file', s')) = (file_after file file', s')

module _ (boot : BootSector) where
  -- The result of `fileresize` is dropped. A larger size cuts no chain, so no fuel is used.
  unfoldable pub make_room : File → ℕ → Fat → File × Fat
  unfolding fileresize
  make_room file bytes s =
      if ltb (capacity boot file) bytes
      then after_resize file s (fileresize boot 0 (some file) bytes s)
      else (file, s)

  -- what the copy of one round leaves
  unfoldable pub fill_buffer : Block → Writing → Writing
  fill_buffer src w =
      let n = min w.bytesleft (sub32 sector_size w.sectorpos) in
      record {
        done = w.done + n;
        bytesleft = sub32 w.bytesleft n;
        sectorpos = 0;
        file = record w.file {
          buffer = copied w.file.buffer w.sectorpos src w.done n;
          dirty = true;
          position = add32 w.file.position n;
        };
      }

  -- The loop of `_filewrite`; `some` is the early return when a flush fails.
  unfoldable pub write_loop : ℕ → Block → Writing → Fat → Option ℕ × File × Fat
  unfolding fill_buffer
  write_loop zero src w s = (none, w.file, s)
  write_loop (suc rounds) src w s =
      let w' = fill_buffer src w in
      let (ok, flushed, s') = fileflush boot (some w'.file) s in
      let file = file_after w'.file flushed in
      let unflushed = write_loop rounds src w' s in
      let onward = write_loop rounds src (record w' { file = file }) s' in
      if ltb 0 w'.bytesleft then if ok then onward else (some w.bytesleft, file, s') else unflushed

  -- the size that a write sets
  unfoldable pub size_after : File → ℕ
  size_after file =
      if fileisdir file then capacity boot file else max file.fsentry.filesize file.position

  -- the end of `_filewrite`, behind its loop
  unfoldable pub finish_write : ℕ → Option ℕ × File × Fat → ℤ × File × Fat
  unfolding size_after
  finish_write size (none, file, s) =
      (pos size, record file { fsentry = record file.fsentry { filesize = size_after file } }, s)
  finish_write size (some n, file, s) = (pos n, file, s)

  -- `_filewrite` once there is room
  unfoldable pub write_sized : File → Block → ℕ → Fat → ℤ × File × Fat
  unfolding write_loop finish_write
  write_sized file src size s =
      let sectorpos = file.position % sector_size in
      let start : Writing = record {
        done = 0;
        bytesleft = size;
        sectorpos = sectorpos;
        file = file;
      } in
      finish_write size (write_loop (suc (add32 sectorpos size / sector_size)) src start s)

  -- `_filewrite`
  unfoldable pub write_open : File → Block → ℕ → Fat → ℤ × File × Fat
  unfolding make_room write_sized
  write_open file src size s =
      let (file', s') = make_room file (add32 file.position size) s in write_sized file' src size s'

  -- the checks of `filewrite`, before what `_filewrite` gives
  unfoldable pub checked : File → ℕ → Fat → ℤ × File × Fat → ℤ × Option File × Fat
  checked file size s (n, file', s') =
      if not file.opened
      then (negsuc 0, some file, fail ebadf s)
      else if size == 0
      then (pos 1, some file, s)
      else if not (bit_and file.fsentry.attributes read_only == 0)
      then (negsuc 0, some file, fail eacces s)
      else (n, some file', s')

  -- `filewrite` with a block to write from
  unfoldable pub filewrite : Option File → Block → ℕ → Fat → ℤ × Option File × Fat
  unfolding write_open checked
  filewrite none src size s = (negsuc 0, none, fail einval s)
  filewrite (some file) src size s = checked file size s (write_open file src size s)
