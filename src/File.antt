-- ===== src/File.antt =====
-- src/kernel/disk/file.c: an open file, which buffers the sector at its position. The caller's
-- data is a block indexed from 0. Calls that cut a chain take the fuel of `fatdeallocclusters`;
-- `none` is a chain longer than the fuel.
pub mod Io
pub mod Stream
pub mod Read
pub mod Delivered
pub mod Seek
pub mod Write
pub mod Place
pub mod At
pub mod Stale
pub mod Resize
mod Tests
use Prim.Native.Nat.{bit_and, bit_or}
use legendary_journey.Base.{
  ℕ, zero, suc, ◌+◌, ◌-◌, ◌*◌, ◌/◌, ◌%◌, ◌^◌, Bool, true, false, not, ◌&&◌, ◌||◌, Option, none,
  some, List, ltb, leb, ◌==◌, if◌then◌else◌, Block, add32, sub32, mul32,
}
use legendary_journey.Errno.{Errno, einval, ebadf, eacces}
use legendary_journey.Fat.{
  BootSector, Fat, feend32l, fatreadsector, fatwritesector, fatcommit, fatclustervalue,
}
use legendary_journey.Fat.Chains.{
  fattotalclusters, fattraverse, fatallocclusters, fatdeallocclusters,
}

-- `struct fatdirentry`; `filename` holds the bytes of the name and of the extension
pub record DirEntry : Type 0 where
  pub filename : List ℕ
  pub attributes : ℕ
  pub reserved : ℕ
  pub creationtimetenths : ℕ
  pub creationtime : ℕ
  pub creationdate : ℕ
  pub accessdate : ℕ
  pub firstclusterhi : ℕ
  pub modifytime : ℕ
  pub modifydate : ℕ
  pub firstclusterlo : ℕ
  pub filesize : ℕ

pub record File : Type 0 where
  pub fsentry : DirEntry
  pub opened : Bool
  pub dirty : Bool
  pub position : ℕ
  pub buffer : Block
  pub totalclusters : ℕ
  pub firstcluster : ℕ
  pub lastcluster : ℕ
  pub currentcluster : ℕ
  pub parentdircluster : ℕ
  pub sectorincluster : ℕ

abbrev pub sector_size : ℕ
sector_size = 512

-- the bits READ_ONLY and DIRECTORY of `attributes`
abbrev pub read_only : ℕ
read_only = 1

abbrev pub directory : ℕ
directory = 16

abbrev pub entryisdir : DirEntry → Bool
entryisdir entry = not (bit_and entry.attributes directory == 0)

abbrev pub fileisdir : File → Bool
fileisdir file = entryisdir file.fsentry

-- `dst` with the `n` values of `src` from `from` on at index `at`: `memcpy` between two objects
abbrev pub copied : Block → ℕ → Block → ℕ → ℕ → Block
copied dst at src from n i = if leb at i && ltb i (at + n) then src (from + (i - at)) else dst i

abbrev pub fail : Errno → Fat → Fat
fail e s = record s { errno = e }

module _ (boot : BootSector) where
  -- `sectorspercluster * bytespersector`
  abbrev pub cluster_bytes : ℕ
  cluster_bytes = mul32 boot.sectorspercluster boot.bytespersector

  -- `totalclusters * sectorspercluster * bytespersector`
  abbrev pub capacity : File → ℕ
  capacity file = mul32 (mul32 file.totalclusters boot.sectorspercluster) boot.bytespersector

  -- `old` is what `fileout->buffer` held
  unfoldable pub filenew : ℕ → ℕ → DirEntry → Block → Fat → Option (File × Fat)
  filenew fuel parentcluster entry old s =
      let first = bit_or entry.firstclusterlo (entry.firstclusterhi * 2 ^ 16) in
      elim (fattotalclusters boot fuel first s) [
        | none ↦ none
        | some (total, last, s') ↦
            let size = mul32 (mul32 total boot.sectorspercluster) boot.bytespersector in
            some (
              record {
                fsentry = if entryisdir entry then record entry { filesize = size } else entry;
                opened = true;
                dirty = false;
                position = 0;
                buffer = (fatreadsector boot s' first 0 old).1;
                totalclusters = total;
                firstcluster = first;
                lastcluster = last;
                currentcluster = first;
                parentdircluster = parentcluster;
                sectorincluster = 0;
              },
              s',
            )
      ]

  -- the end of `fileresize`
  unfoldable pub resized : File → ℕ → ℕ → ℕ → Fat → Bool × Option File × Fat
  resized file size total last s =
      let entry = record file.fsentry { filesize = size } in
      let file' = record file {
        fsentry = entry;
        dirty = true;
        totalclusters = total;
        lastcluster = last;
      } in
      (true, some file', fatcommit boot s)

  unfoldable pub shrink : ℕ → File → ℕ → Fat → Option (Bool × Option File × Fat)
  unfolding resized
  shrink fuel file size s =
      let remove = sub32 (capacity file) size / cluster_bytes in
      let kept = sub32 file.totalclusters remove in
      let (at, s') = fattraverse boot file.firstcluster kept s in
      elim (fatdeallocclusters boot fuel at s') [
        | none ↦ none
        | some cut ↦ some (resized file size kept cut.0 cut.1)
      ]

  unfoldable pub grow : File → ℕ → Fat → Bool × Option File × Fat
  unfolding resized
  grow file size s =
      let more = sub32 (add32 (sub32 size (capacity file)) cluster_bytes) 1 / cluster_bytes in
      let (last, s') = fatallocclusters boot file.lastcluster more s in
      resized file size (add32 file.totalclusters more) last s'

  unfoldable pub fileresize : ℕ → Option File → ℕ → Fat → Option (Bool × Option File × Fat)
  unfolding resized shrink grow
  fileresize fuel none size s = some ((false, none, fail einval s))
  fileresize fuel (some file) size s =
      if not file.opened
      then some ((false, some file, fail ebadf s))
      else if ltb (capacity file) size
      then some (grow file size s)
      else if ltb size (capacity file)
      then shrink fuel file size s
      else some (resized file size file.totalclusters file.lastcluster s)

  -- `fileflush` of an open file
  unfoldable pub flush_open : File → Fat → Bool × File × Fat
  flush_open file s =
      let (done, s') = fatwritesector boot s file.currentcluster file.sectorincluster file.buffer in
      let sector = add32 file.sectorincluster 1 in
      let next = fatclustervalue boot file.currentcluster s' in
      if not file.dirty
      then (true, file, s)
      else if not done
      then (false, file, s')
      else if leb boot.sectorspercluster sector
      then (
        true,
        record file { sectorincluster = 0; currentcluster = next.0; dirty = false },
        next.1,
      )
      else (true, record file { sectorincluster = sector; dirty = false }, s')

  unfoldable pub fileflush : Option File → Fat → Bool × Option File × Fat
  unfolding flush_open
  fileflush none s = (false, none, fail einval s)
  fileflush (some file) s =
      let (done, file', s') = flush_open file s in
      if not file.opened then (false, some file, fail ebadf s) else (done, some file', s')

  unfoldable pub filereset : Option File → Fat → Bool × Option File × Fat
  filereset none s = (false, none, fail einval s)
  filereset (some file) s =
      let first = (fatreadsector boot s file.firstcluster 0 file.buffer).1 in
      if not file.opened then (false, some file, fail ebadf s) else (
        true,
        some (record file {
          buffer = if leb sector_size file.position then first else file.buffer;
          position = 0;
          currentcluster = file.firstcluster;
          sectorincluster = 0;
        }),
        s,
      )

  -- `while (clustersin--) newcluster = fatclustervalue(newcluster)`
  unfoldable pub follow : ℕ → ℕ → Fat → ℕ × Fat
  follow zero cluster s = (cluster, s)
  follow (suc n) cluster s = let (next, s') = fatclustervalue boot cluster s in follow n next s'

  unfoldable pub fileseek : Option File → ℕ → Fat → Bool × Option File × Fat
  unfolding follow
  fileseek none seek s = (false, none, fail einval s)
  fileseek (some file) seek s =
      let newsector = seek / boot.bytespersector % boot.sectorspercluster in
      let (newcluster, s') = follow (seek / cluster_bytes) file.firstcluster s in
      let same = (file.currentcluster == newcluster) && (file.sectorincluster == newsector) in
      let read = (fatreadsector boot s' newcluster newsector file.buffer).1 in
      if ltb file.fsentry.filesize seek
      then (false, some file, fail einval s)
      else if not file.opened
      then (false, some file, fail ebadf s)
      else (
        true,
        some (record file {
          buffer = if same then file.buffer else read;
          position = seek;
          currentcluster = newcluster;
          sectorincluster = newsector;
        }),
        s',
      )

  unfoldable pub filesize : Option File → Fat → ℕ × Fat
  filesize none s = (0, fail einval s)
  filesize (some file) s = if not file.opened then (0, fail ebadf s) else (file.fsentry.filesize, s)

  unfoldable pub filetell : Option File → Fat → ℕ × Fat
  filetell none s = (0, fail einval s)
  filetell (some file) s = if not file.opened then (0, fail ebadf s) else (file.position, s)
