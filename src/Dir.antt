-- ===== src/Dir.antt =====
-- src/kernel/disk/file.c: directories as files of 32-byte entries, and the opening and closing of files by
-- path. Results that are `none` are chains or strings longer than the fuel.
mod Entry
pub mod Create
pub mod Open
mod Search
pub mod Opened
mod Tests
pub use Entry.*
use Prim.Native.Nat.{bit_or}
use legendary_journey.Base.{
  ℕ, zero, suc, ◌+◌, ◌/◌, ◌%◌, ◌^◌, Bool, true, false, not, ◌&&◌, Option, none, some, List, ltb,
  leb, ◌==◌, if◌then◌else◌, ◌>>=◌, Block, slice, sub32, mul32, ℤ, pos, negsuc,
}
use legendary_journey.Errno.{Errno, einval, ebadf, enotdir, enoent, eexist}
use legendary_journey.Fat.{BootSector, Fat, feend32l, fatsetcluster, fatcommit}
use legendary_journey.Fat.Chains.{fatfindfreecluster}
use legendary_journey.Std.{strlen}
use legendary_journey.Names.{fatformatfilename, holds_bytes, fat_filetotal_len, fat_dot, fat_dotdot}
use legendary_journey.File.{
  DirEntry, File, directory, fileisdir, fail, capacity, filenew, fileflush, filereset, fileseek,
}
use legendary_journey.File.Io.{read_open}
use legendary_journey.File.Write.{file_after, write_open}

-- `fatnomoredirentry` of an entry that is not NULL
abbrev pub fatnomoredirentry : Block → Bool
fatnomoredirentry entry = entry 0 == 0

abbrev pub negative : ℤ → Bool
negative (pos n) = false
negative (negsuc n) = true

-- `_fileread(...) == sizeof(struct fatdirentry)`
abbrev pub whole_entry : ℤ → Bool
whole_entry (pos n) = n == entry_bytes
whole_entry (negsuc n) = false

abbrev pub is_enoent : Errno → Bool
is_enoent enoent = true
is_enoent e = false

-- The result, the caller's entry, the directory and the file system.
abbrev pub Found : Type 0
Found = ℤ × Block × File × Fat

-- a round of the loop of `dirfindentry`, before what the rounds behind it give
unfoldable pub entry_round : List ℕ → ℕ → Found → Found → Found
entry_round name index (n, entry, dir, s) rest =
    if not (whole_entry n)
    then (negsuc 0, entry, dir, s)
    else if holds_bytes entry 0 name
    then (pos index, entry, dir, s)
    else if fatnomoredirentry entry
    then (negsuc 0, entry, dir, fail enoent s)
    else rest

module _ (boot : BootSector) where
  -- the loop of `dirfindentry`, with the value of `possibleentries`
  unfoldable pub entry_loop : ℕ → List ℕ → ℕ → Block → File → Fat → Found
  unfolding entry_round
  entry_loop zero name index entry dir s =
      let (n, entry', dir', s') = read_open boot dir entry entry_bytes s in
      entry_round name index (n, entry', dir', s') (negsuc 0, entry', dir', fail enoent s')
  entry_loop (suc left) name index entry dir s =
      let (n, entry', dir', s') = read_open boot dir entry entry_bytes s in
      let rest = entry_loop left name (index + 1) entry' dir' s' in
      entry_round name index (n, entry', dir', s') rest

  -- the start of the directory, whether or not `filereset` succeeds
  unfoldable pub at_start : File → Fat → File × Fat
  unfolding filereset
  at_start dir s =
      let (_, dir', s') = filereset boot (some dir) s in
      if dir.position == 0 then (dir, s) else (file_after dir dir', s')

  abbrev pub possible_entries : File → ℕ
  possible_entries dir = capacity boot dir / entry_bytes

  -- `dirfindentry` of a directory that is not NULL
  unfoldable pub dirfindentry : File → List ℕ → Block → Fat → Found
  unfolding entry_loop at_start
  dirfindentry dir name entry s =
      let (dir', s') = at_start dir s in
      if not (fileisdir dir)
      then (negsuc 0, entry, dir, fail enotdir s)
      else entry_loop (possible_entries dir) name 0 entry dir' s'

  -- `dirsetentry` of pointers that are not NULL
  unfoldable pub set_entry : File → ℕ → DirEntry → Fat → Bool × File × Fat
  unfolding fileseek write_open fileflush encode
  set_entry dir index entry s =
      let (sought, at, s₁) = fileseek boot (some dir) (mul32 index entry_bytes) s in
      let dir₁ = file_after dir at in
      let (n, dir₂, s₂) = write_open boot dir₁ (encode entry) entry_bytes s₁ in
      let (flushed, dir₃, s₃) = fileflush boot (some dir₂) s₂ in
      if leb (possible_entries dir) index
      then (false, dir, fail einval s)
      else if not dir.opened
      then (false, dir, fail ebadf s)
      else if not (fileisdir dir)
      then (false, dir, fail enotdir s)
      else if not sought
      then (false, dir₁, s₁)
      else if negative n
      then (false, dir₂, s₂)
      else (flushed, file_after dir₂ dir₃, s₃)

  -- `diraddentry` of pointers that are not NULL
  unfoldable pub add_entry : File → DirEntry → Fat → ℤ × File × Fat
  unfolding dirfindentry fileseek write_open encode
  add_entry dir entry s =
      let (index, _, dir₁, s₁) = dirfindentry dir entry.filename (λ _. 0) s in
      let (sought, at, s₂) = fileseek boot (some dir₁) (sub32 dir₁.position entry_bytes) s₁ in
      let dir₂ = file_after dir₁ at in
      if not dir.opened
      then (negsuc 0, dir, fail ebadf s)
      else if not (fileisdir dir)
      then (negsuc 0, dir, fail enotdir s)
      else if not (negative index)
      then (negsuc 0, dir₁, fail eexist s₁)
      else if not (is_enoent s₁.errno)
      then (negsuc 0, dir₁, s₁)
      else if not sought
      then (negsuc 0, dir₂, s₂)
      else write_open boot dir₂ (encode entry) entry_bytes s₂

  -- the index that `dirfindentry` returned, when it is no error
  abbrev set_found : ℤ → File → DirEntry → Fat → ℤ × File × Fat
  set_found (negsuc n) dir entry s = (negsuc 0, dir, s)
  set_found (pos index) dir entry s =
      let (done, dir', s') = set_entry dir index entry s in (pos (if done then 1 else 0), dir', s')

  -- `dirupdateentry` of pointers that are not NULL
  unfoldable pub update_entry : File → DirEntry → Fat → ℤ × File × Fat
  unfolding dirfindentry set_entry
  update_entry dir entry s =
      let (index, _, dir₁, s₁) = dirfindentry dir entry.filename (λ _. 0) s in
      if not dir.opened
      then (negsuc 0, dir, fail ebadf s)
      else if not (fileisdir dir)
      then (negsuc 0, dir, fail enotdir s)
      else set_found index dir₁ entry s₁

  -- The NULL checks of `diraddentry` and of `dirupdateentry`.
  unfoldable pub diraddentry : Option File → Option DirEntry → Fat → ℤ × Option File × Fat
  unfolding add_entry
  diraddentry none entry s = (negsuc 0, none, fail einval s)
  diraddentry (some dir) none s = (negsuc 0, some dir, fail einval s)
  diraddentry (some dir) (some entry) s =
      let (n, dir', s') = add_entry dir entry s in (n, some dir', s')

  unfoldable pub dirupdateentry : Option File → Option DirEntry → Fat → ℤ × Option File × Fat
  unfolding update_entry
  dirupdateentry none entry s = (negsuc 0, none, fail einval s)
  dirupdateentry (some dir) none s = (negsuc 0, some dir, fail einval s)
  dirupdateentry (some dir) (some entry) s =
      let (n, dir', s') = update_entry dir entry s in (n, some dir', s')

  -- `filefromentry` into the directory itself, as its only call has it
  unfoldable pub filefromentry : ℕ → File → List ℕ → Fat → Option (ℤ × File × Fat)
  unfolding dirfindentry filenew decode
  filefromentry fuel dir name s =
      let (index, entry, dir', s') = dirfindentry dir name (λ _. 0) s in
      if not (fileisdir dir)
      then some ((negsuc 0, dir, fail enotdir s))
      else if negative index
      then some ((negsuc 0, dir', s'))
      else (do
        (file, s'') ← filenew boot fuel dir'.firstcluster (decode entry) dir'.buffer s'
        some ((pos 0, file, s'')))
