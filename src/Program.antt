-- ===== src/Program.antt =====
-- src/kernel/user/program.c: the starting and ending of a program. The state is the memory of kalloc.c and
-- the file system; they share `errno`, which is that of the file system. The allocator librmalloc.h is a
-- parameter. A `struct program_data` is an address, with the files that it holds in a record of their own.
pub mod Calls
pub mod Files
mod Tests
use legendary_journey.Base.{
  ℕ, ◌+◌, Bool, true, false, not, Option, none, some, ◌==◌, if◌then◌else◌, ◌>>=◌, Block, le32,
  put32, ℤ, pos, negsuc,
}
use legendary_journey.Kalloc.{Kalloc, Layout}
use legendary_journey.Fat.{BootSector, Fat}
use legendary_journey.File.{File, fail}
use legendary_journey.Path.{Paths, path_max, path_copy}
use legendary_journey.Path.Join.{path_load}
use legendary_journey.Dir.{negative}
use legendary_journey.Dir.Create.{fileclose}
use legendary_journey.Dir.Open.{Scratch, zeroed, fileopen}
use legendary_journey.Elf.{Loader, Functions}
use legendary_journey.Elf.Load.{elfread}

abbrev pub program_max_files : ℕ
program_max_files = 4

abbrev pub program_malloc_size : ℕ
program_malloc_size = 0x1000

-- `sizeof(struct program_data)`, and where its fields `entry`, `dir` and `malloc_context` lie in it
abbrev pub program_data_size : ℕ
program_data_size = 2568

abbrev pub entry_at : ℕ
entry_at = 2304

abbrev pub dir_at : ℕ
dir_at = 2308

abbrev pub context_at : ℕ
context_at = 2564

pub record System : Type 0 where
  pub kernel : Kalloc
  pub fat : Fat

-- The allocator: `rm_alloc` and `rm_free` of the global context, and `rm_init_block`. 0 is NULL.
pub record Heap : Type 0 where
  pub rm_alloc : ℕ → System → ℕ × System
  pub rm_free : ℕ → System → System
  pub rm_init_block : ℕ → ℕ → System → ℕ × System

-- What does not change: the layout of memory, the functions for programs, the bytes of `fileopen`'s own, what the
-- stack holds where `program_file` lies, and the address of `program_path`.
pub record Machine : Type 0 where
  pub boot : BootSector
  pub layout : Layout
  pub functions : Functions
  pub scratch : Scratch
  pub junk : File
  pub program_path : ℕ
  pub fuel : ℕ

abbrev pub store32 : ℕ → ℕ → System → System
store32 a v s = record s { kernel = record s.kernel { mem = put32 s.kernel.mem a v } }

-- a function of path.c on the memory and `errno`
abbrev pub paths_of : System → Paths
paths_of s = record { mem = s.kernel.mem; errno = s.fat.errno }

abbrev pub put_paths : System → Paths → System
put_paths s p = record { kernel = record s.kernel { mem = p.mem }; fat = fail p.errno s.fat }

module _ (mc : Machine) where
  -- what stands behind a successful `fileopen`
  unfoldable pub load_open : File → System → Option (ℕ × System)
  unfolding elfread fileclose
  load_open file s = do
    (_, entry, loader) ←
        elfread mc.boot mc.layout mc.functions
          (record { file = file; fat = s.fat; kernel = s.kernel })
    (_, _, fat) ← fileclose mc.boot mc.fuel (some loader.file) mc.scratch.closing loader.fat
    some ((entry, record { kernel = loader.kernel; fat = fat }))

  -- the entry point, or NULL
  unfoldable pub program_load : ℕ → System → Option (ℕ × System)
  unfolding fileopen load_open
  program_load filename s = do
    (ok, file, fat) ←
        fileopen mc.boot mc.fuel s.kernel.mem mc.scratch filename 0 (some mc.junk) s.fat
    (let s' = record s { fat = fat } in if ok then load_open file s' else some ((0, s')))

  module _ (heap : Heap) where
    -- the end of `user_mode_start`, with the program loaded
    unfoldable pub give_heap : ℕ → System → ℕ × System
    give_heap data_at s =
        let (block, s₁) = heap.rm_alloc program_malloc_size s in
        let (context, s₂) = heap.rm_init_block block program_malloc_size s₁ in
        if block == 0
        then (0, heap.rm_free data_at s₁)
        else (data_at, store32 (data_at + context_at) context s₂)

    -- `user_mode_start` with both paths copied
    unfoldable pub start_loaded : ℕ → System → Option (ℕ × System)
    unfolding program_load give_heap
    start_loaded data_at s = do
      (entry, s₁) ← program_load mc.program_path s
      (let s₂ = store32 (data_at + entry_at) entry s₁ in
          some (if entry == 0 then (0, heap.rm_free data_at s₂) else give_heap data_at s₂))

    -- `user_mode_start` with the data allocated
    unfoldable pub start_paths : ℕ → ℕ → ℕ → System → Option (ℕ × System)
    unfolding path_copy path_load start_loaded
    start_paths data_at path filename s =
        let (copied, p) = path_copy path (data_at + dir_at) path_max (paths_of s) in
        let s₁ = put_paths s p in
        if negative copied then some ((0, heap.rm_free data_at s₁)) else (do
          (joined, p') ← path_load mc.fuel path filename mc.program_path path_max p
          (let s₂ = put_paths s p' in
              if negative joined
              then some ((0, heap.rm_free data_at s₂))
              else start_loaded data_at s₂))

    -- the address of the program's data, or NULL
    unfoldable pub user_mode_start : ℕ → ℕ → System → Option (ℕ × System)
    unfolding start_paths
    user_mode_start path filename s =
        let (data_at, s₁) = heap.rm_alloc program_data_size s in
        if data_at == 0 then some ((0, s₁)) else start_paths data_at path filename s₁

    unfoldable pub user_mode_end : ℕ → System → System
    user_mode_end data_at s =
        heap.rm_free data_at (heap.rm_free (le32 s.kernel.mem (data_at + context_at)) s)
