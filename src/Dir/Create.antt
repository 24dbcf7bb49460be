-- ===== src/Dir/Create.antt =====
-- src/kernel/disk/file.c: the creation of files and directories, and the closing of files.
use legendary_journey.Base.{
  ℕ, ◌/◌, ◌%◌, ◌^◌, Bool, true, false, not, ◌&&◌, Option, none, some, List, ◌==◌, if◌then◌else◌,
  ◌>>=◌, Block, slice, ℤ, pos, negsuc,
}
use legendary_journey.Errno.{einval, ebadf, enotdir}
use legendary_journey.Fat.{BootSector, Fat, feend32l, fatsetcluster, fatcommit}
use legendary_journey.Fat.Chains.{fatfindfreecluster}
use legendary_journey.Std.{strlen}
use legendary_journey.Names.{fatformatfilename, fat_filetotal_len, fat_dot, fat_dotdot}
use legendary_journey.File.{
  DirEntry, File, directory, fileisdir, fail, filenew, flush_open, fileflush,
}
use legendary_journey.File.Write.{file_after}
use legendary_journey.Dir.{negative, add_entry, update_entry}

-- `struct fatdirentry entry = {0}`
abbrev pub blank : DirEntry
blank = record {
  filename = slice (λ _. 0) 0 fat_filetotal_len;
  attributes = 0;
  reserved = 0;
  creationtimetenths = 0;
  creationtime = 0;
  creationdate = 0;
  accessdate = 0;
  firstclusterhi = 0;
  modifytime = 0;
  modifydate = 0;
  firstclusterlo = 0;
  filesize = 0;
}

-- an entry of a name, of attributes and of a first cluster
abbrev pub entry_of : List ℕ → ℕ → ℕ → DirEntry
entry_of name attributes cluster = record blank {
  filename = name;
  attributes = attributes;
  firstclusterlo = cluster % 2 ^ 16;
  firstclusterhi = cluster / 2 ^ 16 % 2 ^ 16;
}

-- What `fatformatfilename` writes into the 11 bytes at `scratch`, which are the caller's own.
unfoldable pub short_name : ℕ → Block → ℕ → ℕ → ℕ → Option (List ℕ)
unfolding fatformatfilename
short_name fuel m scratch name size = do
  m' ← fatformatfilename fuel name size scratch m
  some (slice m' scratch fat_filetotal_len)

-- The end of `dircreatefile`: the table is committed and the directory marked.
abbrev finish_create : BootSector → File → Option File → Fat → ℤ × File × Option File × Fat
finish_create boot dir out s = (pos 0, record dir { dirty = true }, out, fatcommit boot s)

module _ (boot : BootSector) (fuel : ℕ) where
  -- the entries "." and ".." of a new directory; `old` is what the buffer of the static file held
  unfoldable pub add_dots : File → DirEntry → Block → Fat → Option (Bool × Fat)
  unfolding filenew add_entry flush_open
  add_dots dir entry old s = do
    (child, s₁) ← filenew boot fuel dir.firstcluster entry old s
    let dot = record blank {
      filename = fat_dot;
      firstclusterlo = entry.firstclusterlo;
      firstclusterhi = entry.firstclusterhi;
    }
    let dotdot = entry_of fat_dotdot 0 dir.firstcluster
    let (first, child₁, s₂) = add_entry boot child dot s₁
    let (second, child₂, s₃) = add_entry boot child₁ dotdot s₂
    let (flushed, child₃, s₄) = fileflush boot (some child₂) s₃
    some (
        if negative first then (false, s₂) else if negative second then (false, s₃) else (true, s₄))

  -- `if (fileout)`
  unfoldable pub open_created : File → DirEntry → Option File → Fat → Option (Option File × Fat)
  unfolding filenew
  open_created dir entry none s = some ((none, s))
  open_created dir entry (some out) s = do
    (file, s') ← filenew boot fuel dir.firstcluster entry out.buffer s
    some ((some (record file { dirty = true }), s'))

  -- `dircreatefile` once the entry is in the directory
  unfoldable pub fill_created :
      File → DirEntry → Bool → Option File → Block → Fat → Option (ℤ × File × Option File × Fat)
  unfolding add_dots open_created
  fill_created dir entry isdirectory fileout old s = do
    (done, s₁) ← if isdirectory then add_dots dir entry old s else some ((true, s))
    (if not done then some ((negsuc 0, dir, fileout, s₁)) else (do
      (out, s₂) ← open_created dir entry fileout s₁
      some (finish_create boot dir out s₂)))

  -- `dircreatefile` with the new entry's name formatted
  unfoldable pub create_named :
      File → Option File → List ℕ → Bool → Block → Fat → Option (ℤ × File × Option File × Fat)
  unfolding fatfindfreecluster fatsetcluster add_entry fill_created
  create_named dir fileout name isdirectory old s =
      let (cluster, s₁) = fatfindfreecluster boot s in
      let entry = entry_of name (if isdirectory then directory else 0) cluster in
      let (n, dir', s₂) = add_entry boot dir entry (fatsetcluster boot cluster feend32l s₁) in
      if cluster == 0
      then some ((negsuc 0, dir, fileout, s₁))
      else if negative n
      then some ((negsuc 0, dir', fileout, s₂))
      else fill_created dir' entry isdirectory fileout old s₂

  -- `dircreatefile` in a directory that is not NULL; the name is the string at `filename`
  unfoldable pub dircreatefile :
      Block
      → ℕ
      → File
      → Option File
      → ℕ
      → Bool
      → Block
      → Fat
      → Option (ℤ × File × Option File × Fat)
  unfolding short_name strlen create_named
  dircreatefile m scratch dir fileout filename isdirectory old s =
      if filename == 0
      then some ((negsuc 0, dir, fileout, fail einval s))
      else if not dir.opened
      then some ((negsuc 0, dir, fileout, fail ebadf s))
      else if not (fileisdir dir)
      then some ((negsuc 0, dir, fileout, fail enotdir s))
      else (do
        size ← strlen fuel m filename
        name ← short_name fuel m scratch filename size
        create_named dir fileout name isdirectory old s)

  -- The entry of a changed file is written back; `old` is what the buffer of `parentdir` held.
  unfoldable pub update_parent : File → Block → Fat → Option Fat
  unfolding filenew update_entry
  update_parent file old s =
      if file.dirty && not (file.parentdircluster == 0)
      then (do
        (parentdir, s₁) ←
            filenew boot fuel 0 (entry_of blank.filename directory file.parentdircluster) old s
        some (update_entry boot parentdir file.fsentry s₁).2)
      else some s

  unfoldable pub fileclose : Option File → Block → Fat → Option (Bool × Option File × Fat)
  unfolding update_parent fileflush
  fileclose none old s = some ((false, none, fail einval s))
  fileclose (some file) old s =
      if not file.opened then some ((false, some file, fail ebadf s)) else (do
        s₁ ← update_parent file old s
        let (_, flushed, s₂) = fileflush boot (some file) s₁
        some ((true, some (record (file_after file flushed) { opened = false }), s₂)))
