-- ===== src/Dir/Open.antt =====
-- src/kernel/disk/file.c and path.c: the opening of files by path. The path lies in a memory of bytes.
use Prim.Native.Nat.{bit_and}
use legendary_journey.Base.{
  ℕ, zero, suc, ◌%◌, ◌^◌, Bool, true, false, not, ◌&&◌, ◌||◌, Option, none, some, ◌==◌,
  if◌then◌else◌, ◌>>=◌, Block, ℤ, pos, negsuc,
}
use legendary_journey.Errno.{no_error, enoent, epath, eio, eexist, eisdir, enotdir}
use legendary_journey.Fat.{BootSector, Fat}
use legendary_journey.Path.{path_sep, path_next}
use legendary_journey.File.{DirEntry, File, fileisdir, fail, filenew, fileseek}
use legendary_journey.File.Write.{file_after}
use legendary_journey.Dir.{negative, filefromentry, is_enoent}
use legendary_journey.Dir.Create.{blank, short_name, dircreatefile, fileclose}

-- the flags FAPPEND, FCREATE, FDIRECTORY and FEXISTS
abbrev pub fappend : ℕ
fappend = 2

abbrev pub fcreate : ℕ
fcreate = 4

abbrev pub fdirectory : ℕ
fdirectory = 8

abbrev pub fexists : ℕ
fexists = 16

abbrev pub asks : ℕ → ℕ → Bool
asks flags flag = not (bit_and flags flag == 0)

-- The bytes that are the call's own: the address of `fatformattedname`, and what the static files and
-- `parentdir` of `fileclose` held before.
pub record Scratch : Type 0 where
  pub name : ℕ
  pub parent : File
  pub child : Block
  pub closing : Block

-- `memset(file, 0, sizeof(struct file))`
abbrev pub zeroed : File
zeroed = record {
  fsentry = blank;
  opened = false;
  dirty = false;
  position = 0;
  buffer = λ _. 0;
  totalclusters = 0;
  firstcluster = 0;
  lastcluster = 0;
  currentcluster = 0;
  parentdircluster = 0;
  sectorincluster = 0;
}

-- What a round of the loop leaves: the result of the call, or the file of the component.
pub data Opening : Type 0 where
  returned : Bool → File → Fat → Opening
  entered : File → Fat → Opening

-- what stands behind a round that does not return
abbrev pub onward : Opening → (File → Fat → Option (Bool × File × Fat)) → Option (Bool × File × Fat)
onward (returned ok file s) rest = some ((ok, file, s))
onward (entered file s) rest = rest file s

module _ (boot : BootSector) (fuel : ℕ) (m : Block) (scratch : Scratch) where
  -- FAT_VIRT_ROOT_ENTRY
  abbrev pub root_entry : DirEntry
  root_entry = record blank { attributes = 20; firstclusterlo = boot.rootcluster % 2 ^ 16 }

  unfoldable pub open_root : File → Fat → Option (File × Fat)
  unfolding filenew
  open_root file s = filenew boot fuel 0 root_entry file.buffer s

  -- `(flags & FCREATE) && path_next(&tempstart) == 0`
  unfoldable pub creates : ℕ → ℕ → Option Bool
  unfolding path_next
  creates flags start =
      if not (asks flags fcreate)
      then some false
      else (do (_, size) ← path_next fuel m start; some (size == 0))

  -- the branch of `fileopen` that creates a file in the directory `dir`
  unfoldable pub open_new : ℕ → ℕ → File → Fat → Option (Bool × File × Fat)
  unfolding dircreatefile fileclose
  open_new filename flags dir s = do
    (res, parent, out, s₁) ←
        dircreatefile boot fuel m scratch.name dir (some dir) filename (asks flags fdirectory)
          scratch.child s
    (_, _, s₂) ← fileclose boot fuel (some parent) scratch.closing s₁
    some (if negative res then (false, zeroed, fail eio s₂) else (true, file_after dir out, s₂))

  -- the "terrible fix" for entries whose first cluster is 0
  unfoldable pub patch_root : File → Fat → Option (File × Fat)
  unfolding open_root
  patch_root file s =
      if (file.firstcluster == 0) && fileisdir file then open_root file s else some ((file, s))

  -- `fileopen` behind its loop
  unfoldable pub opened_file : ℕ → File → Fat → Bool × File × Fat
  unfolding fileseek
  opened_file flags file s =
      let file' = record file { opened = true } in
      let (_, at, s') = fileseek boot (some file') file'.fsentry.filesize s in
      if asks flags fdirectory && not (fileisdir file)
      then (false, file, fail enotdir s)
      else if asks flags fexists
      then (true, file, s)
      else if fileisdir file && not (asks flags fdirectory)
      then (false, file, fail eisdir s)
      else if asks flags fappend
      then (true, file_after file' at, s')
      else (true, file', s)

  -- a round of the loop, for the component of `size` characters at `start`
  unfoldable pub open_round : ℕ → ℕ → ℕ → File → Fat → Option Opening
  unfolding short_name filefromentry creates open_new patch_root
  open_round start size flags dir s = do
    name ← short_name fuel m scratch.name start size
    (found, file, s₁) ← filefromentry boot fuel dir name s
    creating ← creates flags start
    (if negative found && creating
        then (do (ok, file', s₂) ← open_new start flags file s₁; some (returned ok file' s₂))
        else if negative found
        then some (returned false zeroed (fail enoent s₁))
        else if creating
        then some (returned false zeroed (fail eexist s₁))
        else (do (file', s₂) ← patch_root file s₁; some (entered file' s₂)))

  -- the loop of `fileopen` and the rest, with at most `rounds` components
  unfoldable pub open_loop : ℕ → ℕ → ℕ → File → Fat → Option (Bool × File × Fat)
  unfolding path_next open_round opened_file
  open_loop zero start flags file s = none
  open_loop (suc rounds) start flags file s = do
    (next, size) ← path_next fuel m start
    round ← if size == 0 then some (entered file s) else open_round next size flags file s
    onward round (λ file' s'.
        let rest = open_loop rounds next flags file' s' in
        if size == 0 then some (opened_file flags file' s') else rest)

  -- `fileopen` of a file that is not NULL; 0 is the NULL path
  unfoldable pub open_path : ℕ → ℕ → File → Fat → Option (Bool × File × Fat)
  unfolding open_root open_loop
  open_path pathname flags file s = do
    (root, s₁) ← open_root file s
    (if (pathname == 0) || not (m pathname == path_sep)
        then some ((false, root, fail epath s₁))
        else open_loop fuel pathname (if flags == 0 then 1 else flags) root s₁)

  -- With NULL and FEXISTS a static file is used; NULL alone is a fault.
  unfoldable pub fileopen : ℕ → ℕ → Option File → Fat → Option (Bool × File × Fat)
  unfolding open_path
  fileopen pathname flags none s =
      if asks flags fexists then open_path pathname flags scratch.parent s else none
  fileopen pathname flags (some file) s = open_path pathname flags file s

  unfoldable pub path_exists : ℕ → Bool → Fat → Option (ℤ × Fat)
  unfolding fileopen
  path_exists path require_dir s = do
    (found, _, s') ← fileopen path (if require_dir then 24 else 16) none (fail no_error s)
    some (if found then (pos 1, s') else if is_enoent s'.errno then (pos 0, s') else (negsuc 0, s'))
