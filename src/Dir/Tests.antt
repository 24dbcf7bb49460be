-- ===== src/Dir/Tests.antt =====
-- Theorems of directories at a concrete volume.
use legendary_journey.Base.{
  ℕ, zero, suc, ◌+◌, ◌*◌, ◌<◌, ◌≡◌, ◌≢◌, refl, Bool, Option, none, true, false, ◌&&◌, inr, Block,
  List, some, [], ◌∷◌, arith, ltb, ◌==◌, if◌then◌else◌, le32, put32, slice, pos, negsuc,
}
use legendary_journey.Errno.{no_error, enoent, epath}
use legendary_journey.Ata.{ataread, good_sectors}
use legendary_journey.Fat.{
  BootSector, Fat, feend32l, fatclustertolba, fatclustervalue, fatreadsector,
}
use legendary_journey.Fat.Chains.{fattotalclusters}
use legendary_journey.File.Io.{read_open}
use legendary_journey.Fat.Walk.{last}
use legendary_journey.Names.{holds_bytes}
use legendary_journey.File.{File, fail}
use legendary_journey.File.Stream.{Remaining}
use legendary_journey.Dir.{dirfindentry}
use legendary_journey.Dir.Create.{blank}
use legendary_journey.Dir.Open.{Scratch, zeroed, fileopen, path_exists}
use legendary_journey.Dir.Search.{entry_at, Listing, dirfindentry_lem}
use legendary_journey.Dir.Opened.{IsOpened, fileopen-IsOpened}

abbrev boot : BootSector
boot = record {
  bytespersector = 512;
  sectorspercluster = 1;
  reservedsectors = 32;
  fatcount = 2;
  fatsize32 = 1;
  rootcluster = 2;
}

-- The root directory in cluster 2 has the one entry "A", of a file of 5 bytes in cluster 3.
abbrev volume : Fat
volume = record {
  disk = record {
    useraddressablesectors = 1000;
    bytes = λ i.
        if i == 17408
        then 65
        else if ltb 17408 i && ltb i 17419
        then 32
        else if i == 17434
        then 3
        else if i == 17436
        then 5
        else 0;
    faulty = λ _. false;
  };
  cache = record {
    dirty = false;
    firstentry = 0;
    startingsector = 0;
    sectorsbuffered = 1;
    buffer = put32 (put32 (λ _. 0) 8 feend32l) 12 feend32l;
  };
  search_start = 4;
  errno = no_error;
}

abbrev root : File
root = record {
  fsentry = record blank { attributes = 20; firstclusterlo = 2; filesize = 512 };
  opened = true;
  dirty = false;
  position = 0;
  buffer = λ i. volume.disk.bytes (17408 + i);
  totalclusters = 1;
  firstcluster = 2;
  lastcluster = 2;
  currentcluster = 2;
  parentdircluster = 0;
  sectorincluster = 0;
}

abbrev name_a : List ℕ
name_a = 65 ∷ 32 ∷ 32 ∷ 32 ∷ 32 ∷ 32 ∷ 32 ∷ 32 ∷ 32 ∷ 32 ∷ 32 ∷ []

abbrev name_b : List ℕ
name_b = 66 ∷ 32 ∷ 32 ∷ 32 ∷ 32 ∷ 32 ∷ 32 ∷ 32 ∷ 32 ∷ 32 ∷ 32 ∷ []

-- the path "/A" at address 1000, "A" at 1001, and "/B/" at 1010
abbrev paths : Block
paths i =
    if i == 1000
    then 47
    else if i == 1001
    then 65
    else if i == 1010
    then 47
    else if i == 1011
    then 66
    else if i == 1012
    then 47
    else 0

abbrev scratch : Scratch
scratch = record { name = 2000; parent = zeroed; child = λ _. 0; closing = λ _. 0 }

listing : (n : ℕ) → n < 3 → Listing boot volume root (2 ∷ []) n
unfolding fatclustertolba le32 put32
listing n h = record {
  remaining = record {
    chain = last (omega arith) (omega arith);
    inside = omega arith;
    holds = λ i lt. refl;
  };
  sound = record {
    sound = λ lba m. record {
      on_drive = ground (arith, m);
      addressable = ground (arith, m);
      sound = λ _ _ _. refl;
    };
  };
  isdir = refl;
  room = omega arith;
  inside = omega arith;
}

first_passes :
    (j : ℕ)
    → j < 1
    → (holds_bytes (entry_at boot volume root (2 ∷ []) j) 0 name_b ≡ false)
      × (entry_at boot volume root (2 ∷ []) j 0 ≢ 0)
unfolding fatclustertolba
first_passes zero h = (refl, cc)
first_passes (suc j) h = absurd (omega arith)

dirfindentry_lem_example :
    (entry : Block) × (to : File) × (rest : List ℕ) × (dirfindentry boot root name_b (λ _. 0) volume
      ≡ (if holds_bytes (entry_at boot volume root (2 ∷ []) 1) 0 name_b
          then (pos 1, entry, to, volume)
          else (negsuc 0, entry, to, fail enoent volume)))
    × ((i : ℕ) → i < 32 → entry i ≡ entry_at boot volume root (2 ∷ []) 1 i)
    × (to.position ≡ 32 * (1 + 1))
    × (to.firstcluster ≡ 2)
    × Remaining boot volume to rest
unfolding fatclustertolba
dirfindentry_lem_example =
    dirfindentry_lem boot volume root (2 ∷ []) name_b (λ _. 0) 1
      (record { sector_bytes = refl; some_sectors = omega arith; few_sectors = omega arith })
      (record {
        sector_size = refl;
        some_sectors = omega arith;
        few_sectors = omega arith;
        first = refl;
        starting = refl;
        buffered = refl;
      })
      (listing 2 (omega arith)) refl (omega arith) first_passes (inr refl)

-- the parts of a result
abbrev file_of : Option (Bool × File × Fat) → File
file_of none = zeroed
file_of (some (ok, file, s)) = file

abbrev fat_of : Option (Bool × File × Fat) → Fat
fat_of none = volume
fat_of (some (ok, file, s)) = s

abbrev opening : Option (Bool × File × Fat)
opening = fileopen boot 5 paths scratch 1000 0 (some zeroed) volume

opening_succeeds : opening ≡ some (true, file_of opening, fat_of opening)
unfolding fileopen fattotalclusters fatclustervalue le32 put32 read_open slice fatreadsector ataread
    good_sectors
opening_succeeds = refl

fileopen-IsOpened_example : IsOpened 0 (file_of opening)
fileopen-IsOpened_example =
    fileopen-IsOpened boot 5 paths scratch 1000 0 zeroed volume refl refl opening_succeeds

-- "A" is no path; "/A" is there, and is no directory
open_relative : (fat_of (fileopen boot 5 paths scratch 1001 0 (some zeroed) volume)).errno ≡ epath
unfolding fileopen fattotalclusters fatclustervalue le32 put32 read_open slice fatreadsector ataread
    good_sectors
open_relative = refl

exists : path_exists boot 5 paths scratch 1000 false volume ≡ some (pos 1, volume)
unfolding path_exists fattotalclusters fatclustervalue le32 put32 read_open slice fatreadsector
    ataread good_sectors
exists = refl

opened_a :
    (file_of opening).fsentry ≡ record blank { filename = name_a; firstclusterlo = 3; filesize = 5 }
unfolding fileopen fattotalclusters fatclustervalue le32 put32 read_open slice fatreadsector ataread
    good_sectors
opened_a = refl

-- A file that is created by a path with a separator at its end gets the separator into its name.
created_name :
    (file_of (fileopen boot 5 paths scratch 1010 4 (some zeroed) volume)).fsentry.filename
    ≡ 66 ∷ 95 ∷ 32 ∷ 32 ∷ 32 ∷ 32 ∷ 32 ∷ 32 ∷ 32 ∷ 32 ∷ 32 ∷ []
unfolding fileopen fattotalclusters fatclustervalue le32 put32 read_open slice fatreadsector ataread
    good_sectors
created_name = refl
