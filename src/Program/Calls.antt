-- ===== src/Program/Calls.antt =====
-- src/kernel/user/user_functions.c: the functions that a program may call and that work on its files and its
-- directory. A pointer to a file is its number in `user_data->files`, and NULL is `none`. Of the other functions in
-- the table, `malloc` and `free` call librmalloc.h, and the rest are functions of other modules.
use legendary_journey.Base.{
  ℕ, zero, suc, ◌+◌, ◌/◌, Bool, true, false, not, ◌||◌, Option, none, some, ltb, ◌==◌,
  if◌then◌else◌, ◌>>=◌, mul32, ℤ, pos, negsuc,
}
use legendary_journey.Errno.{einval, emfile}
use legendary_journey.Fat.{Fat}
use legendary_journey.File.{
  File, copied, fail, fileseek, fileflush, filereset, fileresize, filesize, filetell,
}
use legendary_journey.File.Io.{fileread}
use legendary_journey.File.Write.{filewrite}
use legendary_journey.Path.{path_max, path_copy}
use legendary_journey.Path.Join.{path_load}
use legendary_journey.Dir.{negative}
use legendary_journey.Dir.Create.{fileclose}
use legendary_journey.Dir.Open.{fileopen, path_exists}
use legendary_journey.Program.{System, Machine, paths_of, put_paths, program_max_files}

-- The running program: its files, the address of its directory, and that of `temp_path`.
pub record Process : Type 0 where
  pub files : ℕ → File
  pub dir : ℕ
  pub temp_path : ℕ
  pub system : System

-- the files with one of them replaced
abbrev pub put_file : ℕ → File → (ℕ → File) → ℕ → File
put_file fd file files k = if k == fd then file else files k

abbrev pub with_fat : Fat → Process → Process
with_fat fat p = record p { system = record p.system { fat = fat } }

-- the file behind a pointer
abbrev pub file_of : Option ℕ → Process → Option File
file_of none p = none
file_of (some fd) p = some (p.files fd)

-- what a call leaves of the file and the file system
abbrev pub after_call : Option ℕ → Option File → Fat → Process → Process
after_call none file fat p = with_fat fat p
after_call (some fd) none fat p = with_fat fat p
after_call (some fd) (some file) fat p =
    with_fat fat (record p { files = put_file fd file p.files })

abbrev ok_or_fail : Bool → ℤ
ok_or_fail done = if done then pos 0 else negsuc 0

-- the count that `fread` and `fwrite` return; `none` is a division by 0
abbrev pub items : ℤ → ℕ → Option ℕ
items (pos n) size = if not (ltb 0 n) then some 0 else if size == 0 then none else some (n / size)
items (negsuc n) size = some 0

abbrev is_nothing : ℤ → Bool
is_nothing (pos n) = n == 0
is_nothing (negsuc n) = false

-- The loop of `fopen`, over the numbers from `fd` on: the last file that is not open.
unfoldable pub free_fd : ℕ → ℕ → (ℕ → File) → Option ℕ → Option ℕ
free_fd zero fd files best = best
free_fd (suc left) fd files best =
    free_fd left (fd + 1) files (if not (files fd).opened then some fd else best)

getcwd : Process → ℕ
getcwd p = p.dir

module _ (mc : Machine) where
  -- LOAD_PATH
  unfoldable pub load_path : ℕ → Process → Option (ℤ × Process)
  unfolding path_load
  load_path path p = do
    (result, paths) ← path_load mc.fuel p.dir path p.temp_path path_max (paths_of p.system)
    some ((result, record p { system = put_paths p.system paths }))

  -- the end of `setcwd`, with the path in `temp_path`
  unfoldable pub check_cwd : Process → Option (ℤ × Process)
  unfolding path_exists path_copy
  check_cwd p = do
    (exists, fat) ←
        path_exists mc.boot mc.fuel p.system.kernel.mem mc.scratch p.temp_path true p.system.fat
    (let found = with_fat fat p in
        let (result, paths) = path_copy p.temp_path p.dir path_max (paths_of found.system) in
        some (
          if negative exists || is_nothing exists
          then (negsuc 0, found)
          else (result, record found { system = put_paths found.system paths })))

  unfoldable pub setcwd : ℕ → Process → Option (ℤ × Process)
  unfolding load_path check_cwd
  setcwd path p = do
    (result, p') ← load_path path p
    (if negative result then some ((negsuc 0, p')) else check_cwd p')

  -- `fopen` with a free file and the path in `temp_path`
  unfoldable pub open_at : ℕ → ℕ → Process → Option (Option ℕ × Process)
  unfolding fileopen
  open_at fd flags p = do
    (ok, file, fat) ←
        fileopen mc.boot mc.fuel p.system.kernel.mem mc.scratch p.temp_path flags
          (some (p.files fd)) p.system.fat
    some ((if ok then some fd else none, after_call (some fd) (some file) fat p))

  -- `fopen` with the number that its loop ends with
  abbrev pub open_free : ℕ → ℕ → Option ℕ → Process → Option (Option ℕ × Process)
  open_free path flags none p = some ((none, with_fat (fail emfile p.system.fat) p))
  open_free path flags (some fd) p = do
    (result, p') ← load_path path p
    (if negative result then some ((none, p')) else open_at fd flags p')

  unfoldable pub fopen : ℕ → ℕ → Process → Option (Option ℕ × Process)
  unfolding free_fd load_path open_at
  fopen path flags p = open_free path flags (free_fd program_max_files 0 p.files none) p

  unfoldable pub fclose : Option ℕ → Process → Option (ℤ × Process)
  unfolding fileclose
  fclose fp p = do
    (done, file, fat) ← fileclose mc.boot mc.fuel (file_of fp p) mc.scratch.closing p.system.fat
    some ((ok_or_fail done, after_call fp file fat p))

  -- a buffer at an address that is not NULL
  unfoldable pub fread : ℕ → ℕ → ℕ → Option ℕ → Process → Option (ℕ × Process)
  unfolding fileread
  fread buffer size count fp p =
      let n = mul32 size count in
      let m = p.system.kernel.mem in
      let (result, out, file, fat) =
        fileread mc.boot (file_of fp p) (λ i. m (buffer + i)) n p.system.fat in
      let p' = after_call fp file fat p in
      let read = record p'.system.kernel { mem = copied m buffer out 0 n } in
      if buffer == 0 then some ((0, with_fat (fail einval p.system.fat) p)) else (do
        n_items ← items result size
        some ((n_items, record p' { system = record p'.system { kernel = read } })))

  -- what `fwrite` makes of the result of `filewrite`
  abbrev pub wrote : ℕ → Option ℕ → Process → ℤ × Option File × Fat → Option (ℕ × Process)
  wrote size fp p (result, file, fat) = do
    n_items ← items result size
    some ((n_items, after_call fp file fat p))

  unfoldable pub fwrite : ℕ → ℕ → ℕ → Option ℕ → Process → Option (ℕ × Process)
  unfolding filewrite
  fwrite buffer size count fp p =
      let m = p.system.kernel.mem in
      if buffer == 0
      then some ((0, with_fat (fail einval p.system.fat) p))
      else wrote size fp p
          (filewrite mc.boot (file_of fp p) (λ i. m (buffer + i)) (mul32 size count) p.system.fat)

  unfoldable pub ftell : Option ℕ → Process → ℤ × Process
  unfolding filetell
  ftell none p = (negsuc 0, p)
  ftell (some fd) p =
      let (at, fat) = filetell mc.boot (some (p.files fd)) p.system.fat in (pos at, with_fat fat p)

  unfoldable pub fseek : Option ℕ → ℕ → Process → ℤ × Process
  unfolding fileseek
  fseek fp offset p =
      let (done, file, fat) = fileseek mc.boot (file_of fp p) offset p.system.fat in
      (ok_or_fail done, after_call fp file fat p)

  unfoldable pub fflush : Option ℕ → Process → ℤ × Process
  unfolding fileflush
  fflush fp p =
      let (done, file, fat) = fileflush mc.boot (file_of fp p) p.system.fat in
      (ok_or_fail done, after_call fp file fat p)

  unfoldable pub frewind : Option ℕ → Process → Process
  unfolding filereset
  frewind fp p =
      let (_, file, fat) = filereset mc.boot (file_of fp p) p.system.fat in after_call fp file fat p

  unfoldable pub fresize : Option ℕ → ℕ → Process → Option (ℤ × Process)
  unfolding fileresize
  fresize fp size p = do
    (done, file, fat) ← fileresize mc.boot mc.fuel (file_of fp p) size p.system.fat
    some ((ok_or_fail done, after_call fp file fat p))

  unfoldable pub fsize : Option ℕ → Process → ℕ × Process
  unfolding filesize
  fsize fp p =
      let (size, fat) = filesize mc.boot (file_of fp p) p.system.fat in (size, with_fat fat p)
