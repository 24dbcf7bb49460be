-- ===== src/BootFile/Tests.antt =====
-- A read of the second boot stage over the end of a sector.
use legendary_journey.Base.{ℕ, ◌+◌, ◌%◌, ◌<◌, ◌≡◌, refl, true, false, some, [], arith, Block, pos}
use legendary_journey.Fat.{BootSector}
use legendary_journey.File.{File}
use legendary_journey.BootFat.{BootTable}
use legendary_journey.BootFile.{read_size, fileread}
use legendary_journey.BootFile.Overrun.{fileread_overruns}

abbrev boot : BootSector
boot = record {
  bytespersector = 512;
  sectorspercluster = 8;
  reservedsectors = 32;
  fatcount = 2;
  fatsize32 = 1;
  rootcluster = 2;
}

abbrev table : BootTable
table = record {
  disk = record { useraddressablesectors = 1000; bytes = λ i. i % 251; faulty = λ _. false };
  first_fat = 32;
  cachefirstentry = 0;
  buffer = λ _. 0;
}

-- a file of 1000 bytes in one cluster, at its start
abbrev file : File
file = record {
  fsentry = record {
    filename = [];
    attributes = 0;
    reserved = 0;
    creationtimetenths = 0;
    creationtime = 0;
    creationdate = 0;
    accessdate = 0;
    firstclusterhi = 0;
    modifytime = 0;
    modifydate = 0;
    firstclusterlo = 3;
    filesize = 1000;
  };
  opened = true;
  dirty = false;
  position = 0;
  buffer = λ _. 7;
  totalclusters = 1;
  firstcluster = 3;
  lastcluster = 3;
  currentcluster = 3;
  parentdircluster = 2;
  sectorincluster = 0;
}

-- the position behind a read of 600 bytes from the start is 1112
fileread_overruns_example :
    (out' : Block) × (file' : File) × (fileread (λ _. 0) boot (some file) (λ _. 0) 600 table
      ≡ some ((pos 600, out', some file', table)))
    × (file'.position ≡ 1112)
    × ((i : ℕ) → i < 600 → out' (512 + i) ≡ file'.buffer i)
unfolding read_size
fileread_overruns_example =
    fileread_overruns (λ _. 0) boot file (λ _. 0) 600 table refl (λ _. refl) (omega arith)
      (omega arith) (omega arith) (omega arith)
