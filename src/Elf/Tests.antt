-- ===== src/Elf/Tests.antt =====
-- Theorems of the loader at a concrete file and memory.
use legendary_journey.Base.{
  ℕ, ◌+◌, ◌%◌, ◌<◌, ◌≤◌, ◌^◌, ◌≡◌, ◌≢◌, ◌⊎◌, inl, refl, true, false, ◌&&◌, Block, some, none, [],
  ◌∷◌, arith, ◌==◌, le32, put32, blit,
}
use legendary_journey.Errno.{no_error, enosys, enoexec}
use legendary_journey.Kalloc.{Kalloc, Layout}
use legendary_journey.Fat.{BootSector, Fat, feend32l, fatclustertolba}
use legendary_journey.Fat.Covered.{Covered}
use legendary_journey.Fat.Walk.{last, link}
use legendary_journey.File.{File}
use legendary_journey.File.Seek.{Geometry}
use legendary_journey.File.Stream.{all_sectors}
use legendary_journey.File.Read.{stream}
use legendary_journey.File.At.{Readable}
use legendary_journey.Elf.{
  Loader, Functions, with_errno, undefined_symbol, user_function_ptr, user_function_index,
  patch_relative,
}
use legendary_journey.Elf.Header.{load_program_header}
use legendary_journey.Elf.Load.{elfread}
use legendary_journey.Elf.Patch.{function_of, target, patch_relative_lem}
use legendary_journey.Elf.Program.{Loadable, image, load_program_header_lem}
use legendary_journey.Elf.Refused.{elfread_refuses}

abbrev boot : BootSector
boot = record {
  bytespersector = 512;
  sectorspercluster = 1;
  reservedsectors = 32;
  fatcount = 2;
  fatsize32 = 1;
  rootcluster = 2;
}

abbrev layout : Layout
layout = record { kernbase = 0x80000000; kernel_end = 0x80110000; kernel_mem_end = 0x200000 }

-- clusters 2 and 3 in a chain
abbrev volume : Fat
volume = record {
  disk = record { useraddressablesectors = 1000; bytes = λ i. i % 251; faulty = λ _. false };
  cache = record {
    dirty = false;
    firstentry = 0;
    startingsector = 0;
    sectorsbuffered = 1;
    buffer = put32 (put32 (λ _. 0) 8 3) 12 feend32l;
  };
  search_start = 4;
  errno = no_error;
}

-- a file of 1000 bytes in them
abbrev file : File
file = record {
  fsentry = record {
    filename = [];
    attributes = 0;
    reserved = 0;
    creationtimetenths = 0;
    creationtime = 0;
    creationdate = 0;
    accessdate = 0;
    firstclusterhi = 0;
    modifytime = 0;
    modifydate = 0;
    firstclusterlo = 2;
    filesize = 1000;
  };
  opened = true;
  dirty = false;
  position = 0;
  buffer = λ i. (17408 + i) % 251;
  totalclusters = 2;
  firstcluster = 2;
  lastcluster = 3;
  currentcluster = 2;
  parentdircluster = 2;
  sectorincluster = 0;
}

-- A program header at 1000, a table of the one function "free" at 2000, a symbol table at 3000, and its
-- names at 4000: symbol 1 is "free", and symbol 2 is "x", which is not defined.
abbrev memory : Block
memory =
    put32
      (put32
        (put32
          (put32
            (blit
              (blit (blit (λ _. 0) 2000 (102 ∷ 114 ∷ 101 ∷ 101 ∷ [])) 4001
                (102 ∷ 114 ∷ 101 ∷ 101 ∷ []))
              4006 (120 ∷ []))
            1004 100)
          1008 5000)
        1016 500)
      1020 800

abbrev symbols : Block
symbols = put32 (put32 (put32 memory 2016 0x80001234) 3016 1) 3032 6

abbrev kernel : Block → Kalloc
kernel m = record { mem = m; freemem = 0; available = 0; total = 0; errno = no_error }

abbrev start : Block → Loader
start m = record { file = file; fat = volume; kernel = kernel m }

abbrev functions : Functions
functions = record { table = 2000; count = 1 }

geometry : Geometry boot
geometry = record { sector_bytes = refl; some_sectors = omega arith; few_sectors = omega arith }

covered : Covered boot volume
covered = record {
  sector_size = refl;
  some_sectors = omega arith;
  few_sectors = omega arith;
  first = refl;
  starting = refl;
  buffered = refl;
}

readable : Readable boot volume file (2 ∷ 3 ∷ [])
unfolding le32 put32 fatclustertolba
readable = record {
  chain = link (omega arith) refl (omega arith) (omega arith) (last (omega arith) (omega arith));
  sound = record {
    sound = λ lba m. record {
      on_drive = ground (arith, m);
      addressable = ground (arith, m);
      sound = λ _ _ _. refl;
    };
  };
  holds = λ i h. refl;
  opened = refl;
  allowed = refl;
}

loadable : Loadable boot (start memory) 1000 (2 ∷ 3 ∷ [])
unfolding le32 put32 blit
loadable = record {
  some_bytes = omega arith;
  larger = omega arith;
  some_address = omega arith;
  fits = omega arith;
  apart = inl (omega arith);
  room = omega arith;
  known = omega arith;
  inside = omega arith;
}

load_program_header_lem_example :
    (st' : Loader) × (load_program_header boot 1000 (start memory) ≡ (true, st'))
    × ((x : ℕ) → st'.kernel.mem x ≡ image boot (start memory) 1000 (2 ∷ 3 ∷ []) x)
    × (st'.fat ≡ volume)
    × Readable boot st'.fat st'.file (2 ∷ 3 ∷ [])
load_program_header_lem_example =
    load_program_header_lem boot (start memory) 1000 (2 ∷ 3 ∷ []) geometry covered readable loadable

no_elf : le32 (stream volume (all_sectors boot (2 ∷ 3 ∷ []))) 0 ≢ 0x464C457F
unfolding le32 fatclustertolba
no_elf = omega arith

elfread_refuses_example :
    (file' : File) × (elfread boot layout functions (start memory)
      ≡ some (false, 0, with_errno enoexec (record (start memory) { file = file' })))
    × Readable boot volume file' (2 ∷ 3 ∷ [])
elfread_refuses_example =
    elfread_refuses boot layout functions (start memory) (2 ∷ 3 ∷ []) geometry covered readable
      (omega arith) (omega arith) (omega arith) no_elf

-- the names of the functions, and of the symbols
free_index : user_function_index functions symbols 4001 ≡ some 0
unfolding user_function_index put32 blit
free_index = refl

x_index : user_function_index functions symbols 4006 ≡ none
unfolding user_function_index put32 blit
x_index = refl

free_function : function_of functions 3016 4000 symbols ≡ 0x80001234
unfolding user_function_ptr put32 blit le32
free_function = refl

patch_relative_lem_example :
    let known = (function_of functions 3016 4000 symbols == 0) && undefined_symbol 3016 symbols in
    ((known ≡ false)
      → (st' : Loader) × (patch_relative functions 6000 3016 4000 (start symbols) ≡ (true, st'))
        × ((6000 + 4 + le32 st'.kernel.mem 6000) % 2 ^ 32
            ≡ target functions 3016 4000 symbols % 2 ^ 32)
        × ((i : ℕ)
            → (i < 6000) ⊎ (6004 ≤ i)
            → (i < 3020) ⊎ (3024 ≤ i)
            → st'.kernel.mem i ≡ symbols i)
        × (st'.fat ≡ volume))
    × ((known ≡ true)
        → patch_relative functions 6000 3016 4000 (start symbols)
          ≡ (false, with_errno enosys (start symbols)))
patch_relative_lem_example =
    patch_relative_lem functions 6000 3016 4000 (start symbols) (omega arith)
      (omega (arith, free_function))
