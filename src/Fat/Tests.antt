-- ===== src/Fat/Tests.antt =====
-- Runs of the allocation table, and its theorems at concrete volumes.
use legendary_journey.Base.{
  ℕ, ◌+◌, ◌*◌, ◌%◌, ◌≤◌, ◌<◌, ◌≡◌, ◌≢◌, ◌⊎◌, refl, Bool, true, false, some, [], ◌∷◌, arith, Block,
  has, ltb, ◌==◌, if◌then◌else◌, le32, put32,
}
use legendary_journey.Errno.{no_error}
use legendary_journey.Ata.{Disk}
use legendary_journey.Fat.{
  BootSector, Fat, fefree, feend32l, fatclustervalue, fatsetcluster, fatcommit,
}
use legendary_journey.Fat.Covered.{Covered, entries, table}
use legendary_journey.Fat.Chains.{
  fattotalclusters, fatdeallocclusters, fatfindfreecluster, fatallocclusters,
}
use legendary_journey.Fat.Walk.{Chain, last, link, fattotalclusters_lem}
use legendary_journey.Fat.Dealloc.{fatdeallocclusters_lem}
use legendary_journey.Fat.Find.{fatfindfreecluster_finds}
use legendary_journey.Fat.Alloc.{FreeRun, enough, next, fatallocclusters_lem}
use legendary_journey.Fat.Commit.{disk_entry, fatcommit_lem}

abbrev drive : Disk
drive = record { useraddressablesectors = 1000; bytes = λ i. i % 251; faulty = λ _. false }

abbrev small : BootSector
small = record {
  bytespersector = 512;
  sectorspercluster = 1;
  reservedsectors = 32;
  fatcount = 2;
  fatsize32 = 1;
  rootcluster = 2;
}

-- a table of which the first `k` entries are in use
abbrev used_below : ℕ → Block
used_below k i = if ltb i (4 * k) then 1 else 0

abbrev volume : Bool → ℕ → Block → Fat
volume dirty search_start buffer = record {
  disk = drive;
  cache = record {
    dirty = dirty;
    firstentry = 0;
    startingsector = 0;
    sectorsbuffered = 1;
    buffer = buffer;
  };
  search_start = search_start;
  errno = no_error;
}

abbrev covered :
    (dirty : Bool) (search_start : ℕ) (buffer : Block)
    → Covered small (volume dirty search_start buffer)
covered dirty search_start buffer = record {
  sector_size = refl;
  some_sectors = omega arith;
  few_sectors = omega arith;
  first = refl;
  starting = refl;
  buffered = refl;
}

-- cluster 2 leads to cluster 3, which ends the chain; the entries from 4 on are free
abbrev chained : Fat
chained = volume true 4 (put32 (put32 (used_below 4) 8 3) 12 feend32l)

chain : Chain (table chained) (entries small) 2 (2 ∷ 3 ∷ [])
unfolding le32 put32
chain = link (omega arith) refl (omega arith) (omega arith) (last (omega arith) (omega arith))

two_free : FreeRun (table chained) (entries small) 4 (4 ∷ 5 ∷ [])
unfolding le32 put32
two_free =
    next (omega arith) (omega arith) (omega arith) refl (λ x lo hi. absurd (omega arith))
      (next (omega arith) (omega arith) (omega arith) refl (λ x lo hi. absurd (omega arith)) enough)

grown_chain : (fatallocclusters small 3 2 chained).0 ≡ 5
unfolding fatallocclusters le32 put32 fatsetcluster fatclustervalue
grown_chain = refl

fattotalclusters_lem_example : fattotalclusters small 2 2 chained ≡ some (2, 3, chained)
fattotalclusters_lem_example =
    fattotalclusters_lem small chained 2 2 (2 ∷ 3 ∷ []) (covered true 4 chained.cache.buffer) chain
      (omega arith) (omega arith)

fatdeallocclusters_lem_example :
    (s' : Fat) × (fatdeallocclusters small 2 2 chained ≡ some (2, s'))
    × Covered small s'
    × ((x : ℕ)
        → table s' x
          ≡ (if x == 2 then feend32l else if has x (3 ∷ []) then fefree else table chained x))
fatdeallocclusters_lem_example =
    fatdeallocclusters_lem small chained 2 2 (3 ∷ []) (covered true 4 chained.cache.buffer) chain
      (omega arith)

fatallocclusters_lem_example :
    let (end, s') = fatallocclusters small 3 2 chained in
    (end ≡ 5)
    × Covered small s'
    × Chain (table s') (entries small) 2 (2 ∷ 3 ∷ 4 ∷ 5 ∷ [])
    × ((x : ℕ) → has x (3 ∷ 4 ∷ 5 ∷ []) ≡ false → table s' x ≡ table chained x)
fatallocclusters_lem_example =
    fatallocclusters_lem small chained 2 (2 ∷ 3 ∷ []) 4 (5 ∷ [])
      (covered true 4 chained.cache.buffer) (omega arith) chain two_free

-- the entries from 100 on are free, and the search begins at 20
abbrev half_full : Fat
half_full = volume false 20 (used_below 100)

hidden : (x : ℕ) → 20 ≤ x → x + 60 < 128 → table half_full x ≢ fefree
unfolding le32
hidden x lo hi = ground arith

fatfindfreecluster_finds_example :
    fatfindfreecluster small chained ≡ (4, record chained { search_start = 5 })
unfolding le32 put32
fatfindfreecluster_finds_example =
    fatfindfreecluster_finds small chained 4 (covered true 4 chained.cache.buffer) (omega arith)
      (omega arith) (omega arith) refl (λ x lo hi. absurd (omega arith))

-- what a failed search leaves, with entry 3 free
abbrev searched : Fat
searched = volume false 128 (used_below 3)

fatcommit_lem_example :
    let s' = fatcommit small chained in
    ((k c : ℕ) → k < 2 → c < 128 → disk_entry small s'.disk k c ≡ table chained c)
    × ((i : ℕ) → (i < 32 * 512) ⊎ (34 * 512 ≤ i) → s'.disk.bytes i ≡ i % 251)
    × (s'.cache ≡ record chained.cache { dirty = false })
fatcommit_lem_example =
    fatcommit_lem small chained (covered true 4 chained.cache.buffer)
      (record { on_drive = omega arith; addressable = omega arith; sound = λ _ _ _. refl }) refl

-- a table of twenty sectors
abbrev large : BootSector
large = record small { fatsize32 = 20 }
