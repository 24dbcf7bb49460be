-- ===== src/Program/Tests.antt =====
-- Theorems of the calls of programs at a concrete process.
use legendary_journey.Base.{
  ℕ, ◌&&◌, ◌==◌, if◌then◌else◌, Option, Block, le32, slice, ◌%◌, ◌<◌, ◌≡◌, ◌≢◌, refl, false, some,
  none, arith, put32, ltb,
}
use legendary_journey.Errno.{no_error, emfile}
use legendary_journey.Fat.{Fat, feend32l}
use legendary_journey.File.{fail}
use legendary_journey.Ata.{ataread, good_sectors}
use legendary_journey.Fat.{fatclustervalue, fatreadsector}
use legendary_journey.Fat.Chains.{fattotalclusters}
use legendary_journey.File.Io.{read_open}
use legendary_journey.Path.Join.{path_load}
use legendary_journey.Dir.Open.{zeroed, fileopen}
use legendary_journey.Dir.Opened.{IsOpened}
use legendary_journey.Program.{Machine}
use legendary_journey.Program.Calls.{Process, with_fat, free_fd, fopen, fwrite}
use legendary_journey.Program.Files.{fopen_lem, fopen_full, fwrite_divides}

abbrev machine : Machine
machine = record {
  boot = record {
    bytespersector = 512;
    sectorspercluster = 1;
    reservedsectors = 32;
    fatcount = 2;
    fatsize32 = 1;
    rootcluster = 2;
  };
  layout = record { kernbase = 0x80000000; kernel_end = 0x80110000; kernel_mem_end = 0x200000 };
  functions = record { table = 2000; count = 0 };
  scratch = record { name = 3000; parent = zeroed; child = λ _. 0; closing = λ _. 0 };
  junk = zeroed;
  program_path = 4000;
  fuel = 9;
}

abbrev volume : Fat
volume = record {
  disk = record { useraddressablesectors = 1000; bytes = λ i. i % 251; faulty = λ _. false };
  cache = record {
    dirty = false;
    firstentry = 0;
    startingsector = 0;
    sectorsbuffered = 1;
    buffer = put32 (λ _. 0) 8 feend32l;
  };
  search_start = 3;
  errno = no_error;
}

-- a process with the first `n` files open
abbrev process : ℕ → Process
process n = record {
  files = λ k. record zeroed { opened = ltb k n };
  dir = 5000;
  temp_path = 6000;
  system = record {
    kernel = record { mem = λ _. 47; freemem = 0; available = 0; total = 0; errno = no_error };
    fat = volume;
  };
}

-- The last free file is taken.
free_last : free_fd 4 0 (process 2).files none ≡ some 3
unfolding free_fd
free_last = refl

-- The directory "/" at 5000 and the path "A" at 7000; the volume has a file "A" of 5 bytes in cluster 3.
abbrev memory : Block
memory i = if i == 5000 then 47 else if i == 7000 then 65 else 0

abbrev with_file : Fat
with_file = record volume {
  disk = record volume.disk {
    bytes = λ i.
        if i == 17408
        then 65
        else if ltb 17408 i && ltb i 17419
        then 32
        else if i == 17434
        then 3
        else if i == 17436
        then 5
        else 0;
  };
  cache = record volume.cache { buffer = put32 (put32 (λ _. 0) 8 feend32l) 12 feend32l };
}

abbrev opener : Process
opener = record (process 2) {
  system = record { kernel = record (process 2).system.kernel { mem = memory }; fat = with_file };
}

-- the process behind a call
abbrev process_of : Option (Option ℕ × Process) → Process
process_of none = opener
process_of (some (fd, p)) = p

abbrev opening : Option (Option ℕ × Process)
opening = fopen machine 7000 0 opener

opening_succeeds : opening ≡ some (some 3, process_of opening)
unfolding fopen fileopen path_load fattotalclusters fatclustervalue le32 put32 read_open slice
    fatreadsector ataread good_sectors
opening_succeeds = refl

fopen_lem_example :
    (3 < 4)
    × (ltb 3 2 ≡ false)
    × IsOpened 0 ((process_of opening).files 3)
    × ((k : ℕ) → k ≢ 3 → (process_of opening).files k ≡ opener.files k)
fopen_lem_example =
    fopen_lem machine 7000 0 opener 3 (process_of opening) refl refl opening_succeeds

fopen_full_example :
    fopen machine 7000 8 (process 4) ≡ some (none, with_fat (fail emfile volume) (process 4))
fopen_full_example = fopen_full machine 7000 8 (process 4) (λ k h. ground arith)

fwrite_divides_example : fwrite machine 8000 0 5 (some 1) (process 2) ≡ none
fwrite_divides_example = fwrite_divides machine 8000 5 1 (process 2) (omega arith) refl
