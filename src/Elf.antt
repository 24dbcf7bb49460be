-- ===== src/Elf.antt =====
-- src/kernel/user/elf.c and user_functions.c: the loading of ELF files into memory, and the table of the
-- functions that programs may call. The messages on the screen are left out. Memory is that of
-- kalloc.c; an address is a number below 2^32, and 0 is NULL.
mod Header
pub mod Load
mod Program
mod Patch
mod Refused
mod Tests
use legendary_journey.Base.{
  ℕ, zero, suc, ◌+◌, ◌-◌, ◌*◌, ◌/◌, ◌%◌, ◌^◌, Bool, true, false, not, ◌&&◌, ◌||◌, Option, none,
  some, ltb, leb, ◌==◌, if◌then◌else◌, Block, le32, put32, add32, sub32, mul32, ℤ, pos, negsuc,
}
use legendary_journey.Errno.{Errno, einval, enosys, enoexec}
use legendary_journey.Kalloc.{Kalloc}
use legendary_journey.Std.{strncmp, memset}
use legendary_journey.Fat.{BootSector, Fat}
use legendary_journey.File.{File, copied, fail, fileseek}
use legendary_journey.File.Io.{fileread}
use legendary_journey.File.Write.{file_after}
use legendary_journey.Dir.{le16}

abbrev pub sysdef_max_len : ℕ
sysdef_max_len = 16

-- `sizeof(struct user_function_def)`
abbrev pub def_size : ℕ
def_size = 20

abbrev pub elf_magic : ℕ
elf_magic = 0x464C457F

-- the file that is loaded, the file system with `errno`, and the memory
pub record Loader : Type 0 where
  pub file : File
  pub fat : Fat
  pub kernel : Kalloc

-- The table of functions that the image of the kernel holds: its address and the number of its entries.
pub record Functions : Type 0 where
  pub table : ℕ
  pub count : ℕ

abbrev is_zero : ℤ → Bool
is_zero (pos n) = n == 0
is_zero (negsuc n) = false

-- the result is `n` as a number of bytes
abbrev pub is_count : ℤ → ℕ → Bool
is_count (pos k) n = k == n
is_count (negsuc k) n = false

-- the loop of `user_function_index`, with the entries left and the index of the next one
unfoldable pub index_loop : ℕ → ℕ → Block → ℕ → ℕ → Option ℕ
unfolding strncmp
index_loop table zero m name i = none
index_loop table (suc left) m name i =
    let rest = index_loop table left m name (i + 1) in
    if is_zero (strncmp sysdef_max_len m name (table + def_size * i)) then some i else rest

-- `none` is -1
unfoldable pub user_function_index : Functions → Block → ℕ → Option ℕ
unfolding index_loop
user_function_index f m name = index_loop f.table f.count m name 0

unfoldable pub user_function_ptr : Functions → Block → ℕ → ℕ
unfolding user_function_index
user_function_ptr f m name = elim (user_function_index f m name) [
  | none ↦ 0
  | some i ↦ le32 m (f.table + def_size * i + sysdef_max_len)
]

abbrev pub with_errno : Errno → Loader → Loader
with_errno e st = record st { fat = fail e st.fat }

abbrev pub with_mem : Block → Loader → Loader
with_mem m st = record st { kernel = record st.kernel { mem = m } }

-- the type 1 of a relocation, R_386_32
unfoldable pub check_absolute : ℕ → Loader → Bool × Loader
check_absolute loc st =
    if le32 st.kernel.mem loc == 0 then (false, with_errno enosys st) else (true, st)

-- the symbol has no value, and is in no section
abbrev pub undefined_symbol : ℕ → Block → Bool
undefined_symbol sym m = (le16 m (sym + 14) == 0) && (le32 m (sym + 4) == 0)

module _ (f : Functions) where
  -- the memory with the value of a symbol replaced by a function of the table, if it is one
  unfoldable pub resolved : ℕ → ℕ → Block → Block
  unfolding user_function_ptr
  resolved sym strtab m =
      let sysfunc_addr = user_function_ptr f m (add32 strtab (le32 m sym)) in
      if sysfunc_addr == 0 then m else put32 m (sym + 4) sysfunc_addr

  -- the type 2, R_386_PC32
  unfoldable pub patch_relative : ℕ → ℕ → ℕ → Loader → Bool × Loader
  unfolding resolved
  patch_relative loc sym strtab st =
      let m = resolved sym strtab st.kernel.mem in
      let sysfunc_addr =
        user_function_ptr f st.kernel.mem (add32 strtab (le32 st.kernel.mem sym)) in
      if (sysfunc_addr == 0) && undefined_symbol sym st.kernel.mem
      then (false, with_errno enosys st)
      else (true, with_mem (put32 m loc (sub32 (sub32 (le32 m (sym + 4)) loc) 4)) st)

  -- a relocation as it is read: `r_offset` and `r_info`
  unfoldable pub patch_entry : ℕ → ℕ → Block → Loader → Bool × Loader
  unfolding check_absolute patch_relative
  patch_entry symtab strtab entry st =
      let loc = le32 entry 0 in
      let info = le32 entry 4 in
      let sym = add32 symtab (mul32 16 (info / 256)) in
      if info % 256 == 1
      then check_absolute loc st
      else if info % 256 == 2
      then patch_relative loc sym strtab st
      else (true, st)

module _ (boot : BootSector) where
  unfoldable pub seek : ℕ → Loader → Bool × Loader
  unfolding fileseek
  seek at st =
      let (ok, file, fat) = fileseek boot (some st.file) at st.fat in
      (ok, record st { file = file_after st.file file; fat = fat })

  -- `fileread` into an object of its own
  unfoldable pub read_local : Block → ℕ → Loader → ℤ × Block × Loader
  unfolding fileread
  read_local out size st =
      let (n, out', file, fat) = fileread boot (some st.file) out size st.fat in
      (n, out', record st { file = file_after st.file file; fat = fat })

  -- `fileread` into memory
  unfoldable pub read_into : ℕ → ℕ → Loader → ℤ × Loader
  unfolding read_local
  read_into at size st =
      let (n, out, st') = read_local (λ i. st.kernel.mem (at + i)) size st in
      if at == 0
      then (negsuc 0, with_errno einval st)
      else (n, with_mem (copied st.kernel.mem at out 0 size) st')

  module _ (f : Functions) where
    -- the loop of `elf_rel_patch` over the entries left
    unfoldable pub patch_loop : ℕ → ℕ → ℕ → Block → Loader → Bool × Loader
    unfolding read_local patch_entry
    patch_loop zero symtab strtab entry st = (true, st)
    patch_loop (suc left) symtab strtab entry st =
        let (n, entry', st₁) = read_local entry 8 st in
        let (ok, st₂) = patch_entry f symtab strtab entry' st₁ in
        let rest = patch_loop left symtab strtab entry' st₂ in
        if not (is_count n 8) then (false, st₁) else if not ok then (false, st₂) else rest

    -- the header of the relocations is at `relhdr`
    unfoldable pub elf_rel_patch : ℕ → ℕ → ℕ → Loader → Bool × Loader
    unfolding seek patch_loop
    elf_rel_patch relhdr symtab strtab st =
        let (ok, st') = seek (le32 st.kernel.mem (relhdr + 16)) st in
        if (symtab == 0) || (strtab == 0)
        then (false, st)
        else if not ok
        then (false, st')
        else patch_loop (le32 st'.kernel.mem (relhdr + 20) / 8) symtab strtab (λ _. 0) st'
