-- ===== src/File/Tests.antt =====
-- Theorems of the file layer at a concrete volume.
use legendary_journey.Base.{
  ℕ, ◌+◌, ◌%◌, ◌/◌, ◌<◌, ◌≡◌, refl, true, false, drop, Block, List, some, [], ◌∷◌, arith, ltb,
  if◌then◌else◌, le32, put32, pos,
}
use legendary_journey.Errno.{no_error}
use legendary_journey.Fat.{BootSector, Fat, feend32l, fatclustertolba}
use legendary_journey.Fat.Covered.{Covered, entries, table}
use legendary_journey.Fat.Walk.{Chain, last, link}
use legendary_journey.File.{File, fileseek, fileresize}
use legendary_journey.File.Write.{filewrite}
use legendary_journey.File.Seek.{Holds, fileseek_lem}
use legendary_journey.File.Stream.{Remaining, Sound, ahead}
use legendary_journey.File.Read.{stream}
use legendary_journey.File.Io.{read_size, fileread}
use legendary_journey.File.Delivered.{fileread_lem}
use legendary_journey.File.At.{Readable, ReadAt, read_at_lem}
use legendary_journey.File.Stale.{filewrite_loses}
use legendary_journey.File.Resize.{fileresize_shrinks}

abbrev boot : BootSector
boot = record {
  bytespersector = 512;
  sectorspercluster = 1;
  reservedsectors = 32;
  fatcount = 2;
  fatsize32 = 1;
  rootcluster = 2;
}

-- clusters 2, 3 and 4 in a chain
abbrev volume : Fat
volume = record {
  disk = record { useraddressablesectors = 1000; bytes = λ i. i % 251; faulty = λ _. false };
  cache = record {
    dirty = false;
    firstentry = 0;
    startingsector = 0;
    sectorsbuffered = 1;
    buffer = put32 (put32 (put32 (λ _. 0) 8 3) 12 4) 16 feend32l;
  };
  search_start = 5;
  errno = no_error;
}

-- a file of 1200 bytes in them, at its start
abbrev file : File
file = record {
  fsentry = record {
    filename = [];
    attributes = 0;
    reserved = 0;
    creationtimetenths = 0;
    creationtime = 0;
    creationdate = 0;
    accessdate = 0;
    firstclusterhi = 0;
    modifytime = 0;
    modifydate = 0;
    firstclusterlo = 2;
    filesize = 1200;
  };
  opened = true;
  dirty = false;
  position = 0;
  buffer = λ i. (17408 + i) % 251;
  totalclusters = 3;
  firstcluster = 2;
  lastcluster = 4;
  currentcluster = 2;
  parentdircluster = 2;
  sectorincluster = 0;
}

abbrev covered : Covered boot volume
covered = record {
  sector_size = refl;
  some_sectors = omega arith;
  few_sectors = omega arith;
  first = refl;
  starting = refl;
  buffered = refl;
}

chain : Chain (table volume) (entries boot) 2 (2 ∷ 3 ∷ 4 ∷ [])
unfolding le32 put32
chain =
    link (omega arith) refl (omega arith) (omega arith)
      (link (omega arith) refl (omega arith) (omega arith) (last (omega arith) (omega arith)))

fileseek_lem_example :
    (file' : File) × (fileseek boot (some file) 600 volume ≡ (true, some file', volume))
    × (file'.position ≡ 600)
    × (file'.currentcluster ≡ 3)
    × (file'.sectorincluster ≡ 0)
    × Holds boot volume file'.buffer file'.currentcluster file'.sectorincluster
unfolding fatclustertolba
fileseek_lem_example =
    fileseek_lem boot volume file 600 (2 ∷ 3 ∷ 4 ∷ [])
      (record { sector_bytes = refl; some_sectors = omega arith; few_sectors = omega arith })
      covered chain refl (omega arith) (omega arith) (λ i h. refl)
      (record { on_drive = omega arith; addressable = omega arith; sound = λ _ _ _. refl })

filewrite_loses_example :
    (file₁ : File) × (file₂ : File) × (filewrite boot (some file) (λ _. 1) 512 volume
      ≡ (pos 512, some file₁, volume))
    × (filewrite boot (some file₁) (λ _. 2) 10 volume ≡ (pos 10, some file₂, volume))
    × (file₂.currentcluster ≡ 2)
    × (file₂.sectorincluster ≡ 0)
    × ((i : ℕ) → i < 512 → file₂.buffer i ≡ (if ltb i 10 then 2 else 1))
filewrite_loses_example =
    filewrite_loses boot volume file (λ _. 1) (λ _. 2) 10 refl refl refl (omega arith) (omega arith)
      (omega arith)

fileresize_shrinks_example :
    (file' : File) × (s' : Fat) × (fileresize boot 3 (some file) 100 volume
      ≡ some (true, some file', s'))
    × (file'.totalclusters ≡ 1)
    × Chain (table s') (entries boot) 2 (2 ∷ 3 ∷ [])
fileresize_shrinks_example =
    fileresize_shrinks boot volume file 100 3 (2 ∷ 3 ∷ 4 ∷ []) covered chain refl refl (omega arith)
      (omega arith) (omega arith) (omega arith) (omega arith)

sound : Sound volume (ahead boot file (2 ∷ 3 ∷ 4 ∷ []))
unfolding fatclustertolba
sound = record {
  sound = λ lba m. record {
    on_drive = ground (arith, m);
    addressable = ground (arith, m);
    sound = λ _ _ _. refl;
  };
}

thousand : read_size boot file 1000 ≡ 1000
unfolding read_size
thousand = refl

fileread_lem_example :
    (out' : Block) × (file' : File) × (rest : List ℕ) × (fileread boot
        (some file)
        (λ _. 0)
        1000
        volume
      ≡ (pos 1000, out', some file', volume))
    × ((i : ℕ)
        → out' i
          ≡ (if ltb i 1000 then stream volume (ahead boot file (2 ∷ 3 ∷ 4 ∷ [])) (0 + i) else 0))
    × (file'.position ≡ 0 + 1000)
    × Remaining boot volume file' rest
    × (ahead boot file' rest ≡ drop ((0 + 1000) / 512) (ahead boot file (2 ∷ 3 ∷ 4 ∷ [])))
unfolding fatclustertolba
fileread_lem_example =
    fileread_lem boot volume file (2 ∷ 3 ∷ 4 ∷ []) (λ _. 0) 1000
      (record { sector_bytes = refl; some_sectors = omega arith; few_sectors = omega arith })
      covered (record { chain = chain; inside = omega arith; holds = λ i h. refl }) sound refl refl
      (omega arith) (omega arith) (omega arith) (omega arith)

readable : Readable boot volume file (2 ∷ 3 ∷ 4 ∷ [])
unfolding fatclustertolba
readable = record {
  chain = chain;
  sound = record { sound = λ lba m. sound.sound lba m };
  holds = λ i h. refl;
  opened = refl;
  allowed = refl;
}

read_at_lem_example : ReadAt boot volume file (2 ∷ 3 ∷ 4 ∷ []) 700 400 (λ _. 0)
read_at_lem_example =
    read_at_lem boot volume file (2 ∷ 3 ∷ 4 ∷ []) 700 400 (λ _. 0)
      (record { sector_bytes = refl; some_sectors = omega arith; few_sectors = omega arith })
      covered readable (omega arith) (omega arith) (omega arith) (omega arith)
