-- ===== src/File/Stream.antt =====
-- The sectors that a file has from its current one on, and the step of `_fileread` to the next.
use legendary_journey.Base.{
  ℕ, zero, suc, ◌+◌, ◌-◌, ◌<◌, ◌≡◌, refl, ap, true, false, List, [], ◌∷◌, ◌++◌, arith, ltb, leb,
  Bool-cases, inl, inr, lt→ltb, add32, length, has, drop,
}
use legendary_journey.Ata.Transfer.{Healthy}
use legendary_journey.Fat.{BootSector, Fat, feend32l, fatreadsector, fatclustervalue}
use legendary_journey.Fat.Covered.{Covered, entries, table, fatclustervalue_covered}
use legendary_journey.Fat.Walk.{Chain, last, link}
use legendary_journey.File.{File}
use legendary_journey.File.Io.{next_sector}
use legendary_journey.File.Seek.{sector_lba, Holds, Geometry, fatreadsector-Holds}

module _ (boot : BootSector) where
  -- `n` sectors of a cluster from sector `j` on
  abbrev pub run_of : ℕ → ℕ → ℕ → List ℕ
  run_of c j zero = []
  run_of c j (suc n) = sector_lba boot c j ∷ run_of c (j + 1) n

  -- all sectors of a list of clusters
  abbrev pub all_sectors : List ℕ → List ℕ
  all_sectors [] = []
  all_sectors (c ∷ cs) = run_of c 0 boot.sectorspercluster ++ all_sectors cs

  -- the sectors of a list of clusters from sector `j` of the first on
  abbrev pub sectors_from : ℕ → List ℕ → List ℕ
  sectors_from j [] = []
  sectors_from j (c ∷ cs) = run_of c j (boot.sectorspercluster - j) ++ all_sectors cs

-- An open file at a place of its chain: the clusters from the current one on, and the sector in the buffer.
pub record Remaining (boot : BootSector) (s : Fat) (file : File) (cs : List ℕ) : Type 0 where
  pub chain : Chain (table s) (entries boot) file.currentcluster cs
  pub inside : file.sectorincluster < boot.sectorspercluster
  pub holds : Holds boot s file.buffer file.currentcluster file.sectorincluster

-- every sector of the list is sound
pub record Sound (s : Fat) (lbas : List ℕ) : Type 0 where
  pub sound : (lba : ℕ) → has lba lbas ≡ true → Healthy s.disk lba 1

-- the sectors from the current one on
abbrev pub ahead : BootSector → File → List ℕ → List ℕ
ahead boot file cs = sectors_from boot file.sectorincluster cs

pub has_tail : (y : ℕ) (xs : List ℕ) → has y (drop 1 xs) ≡ true → has y xs ≡ true
has_tail y [] h = h
has_tail y (x ∷ xs) h = ground (arith, h)

pub has-drop : (y n : ℕ) (xs : List ℕ) → has y (drop n xs) ≡ true → has y xs ≡ true
has-drop y zero xs h = h
has-drop y (suc n) [] h = h
has-drop y (suc n) (x ∷ xs) h = let later = has-drop y n xs h in ground (arith, later)

module _ (boot : BootSector) (s : Fat) where
  open boot use {sectorspercluster}

  -- The current sector comes first.
  pub ahead_head :
      (j : ℕ) {c : ℕ} {cs : List ℕ}
      → Chain (table s) (entries boot) c cs
      → j < sectorspercluster
      → sectors_from boot j cs ≡ sector_lba boot c j ∷ drop 1 (sectors_from boot j cs)
  ahead_head j (last h e) inside =
      let n : sectorspercluster - j ≡ suc (sectorspercluster - (j + 1)) = omega arith in rw n refl
  ahead_head j (link h e some_mark small rest) inside =
      let n : sectorspercluster - j ≡ suc (sectorspercluster - (j + 1)) = omega arith in rw n refl

  -- Within a cluster, the sectors after the current one.
  ahead_within :
      (j : ℕ) {c : ℕ} {cs : List ℕ}
      → Chain (table s) (entries boot) c cs
      → j + 1 < sectorspercluster
      → sectors_from boot (j + 1) cs ≡ drop 1 (sectors_from boot j cs)
  ahead_within j (last h e) inside =
      let n : sectorspercluster - j ≡ suc (sectorspercluster - (j + 1)) = omega arith in rw n refl
  ahead_within j (link h e some_mark small rest) inside =
      let n : sectorspercluster - j ≡ suc (sectorspercluster - (j + 1)) = omega arith in rw n refl

  ahead_start : (cs : List ℕ) → sectors_from boot 0 cs ≡ all_sectors boot cs
  ahead_start [] = refl
  ahead_start (c ∷ cs) =
      let n : sectorspercluster - 0 ≡ sectorspercluster = omega arith in rw n refl

-- a file with its sector read
abbrev pub loaded : BootSector → Fat → File → File
loaded boot s file = record file {
  buffer = (fatreadsector boot s file.currentcluster file.sectorincluster file.buffer).1;
}

-- what the step to the next sector does
pub record Stepped (boot : BootSector) (s : Fat) (file : File) (cs : List ℕ) : Type 0 where
  pub rest : List ℕ
  pub to : File
  pub run : next_sector boot file s ≡ (true, to, s)
  pub tail : ahead boot to rest ≡ drop 1 (ahead boot file cs)
  pub remaining : Remaining boot s (loaded boot s to) rest
  pub position : to.position ≡ file.position
  pub fsentry : to.fsentry ≡ file.fsentry
  pub totalclusters : to.totalclusters ≡ file.totalclusters
  pub firstcluster : to.firstcluster ≡ file.firstcluster
  pub opened : to.opened ≡ file.opened

module _ (boot : BootSector) (s : Fat) (geo : Geometry boot) (cov : Covered boot s) where
  open boot use {sectorspercluster}

  -- the sound sector that a step reads
  read_next :
      (file : File) (c j : ℕ) (cs lbas : List ℕ)
      → Chain (table s) (entries boot) c cs
      → j < sectorspercluster
      → sectors_from boot j cs ≡ drop 1 lbas
      → Sound s lbas
      → Holds boot s (fatreadsector boot s c j file.buffer).1 c j
  read_next file c j cs lbas ch inside tail sound =
      let first : has (sector_lba boot c j) (sectors_from boot j cs) ≡ true =
        rw (ahead_head boot s j ch inside) (ground arith) in
      fatreadsector-Holds boot s c j file.buffer
        (sound.sound (sector_lba boot c j) (has_tail (sector_lba boot c j) lbas (rw tail at first)))

  next_within :
      (file : File) (cs : List ℕ)
      → Remaining boot s file cs
      → Sound s (ahead boot file cs)
      → file.sectorincluster + 1 < sectorspercluster
      → Stepped boot s file cs
  unfolding next_sector
  next_within file cs at sound within =
      let one : add32 file.sectorincluster 1 ≡ file.sectorincluster + 1 =
        omega (arith, geo.few_sectors) in
      let stay : leb sectorspercluster (file.sectorincluster + 1) ≡ false = ground arith in
      let tail = ahead_within boot s file.sectorincluster at.chain within in
      record {
        rest = cs;
        to = record file { sectorincluster = file.sectorincluster + 1 };
        run = rw (one, stay) refl;
        tail = tail;
        remaining = record {
          chain = at.chain;
          inside = within;
          holds =
              read_next file file.currentcluster (file.sectorincluster + 1) cs (ahead boot file cs)
                at.chain within tail sound;
        };
        position = refl;
        fsentry = refl;
        totalclusters = refl;
        firstcluster = refl;
        opened = refl;
      }

  next_cluster :
      (file : File) {c : ℕ} {cs : List ℕ}
      → file.currentcluster ≡ c
      → Chain (table s) (entries boot) c cs
      → Sound s (ahead boot file cs)
      → file.sectorincluster + 1 ≡ sectorspercluster
      → 1 < length (ahead boot file cs)
      → Stepped boot s file cs
  unfolding next_sector
  next_cluster file at (last h e) sound full more =
      let n : sectorspercluster - file.sectorincluster ≡ 1 = omega arith in
      absurd (ground (arith, n, more))
  next_cluster file at (link {c} {d} {cs} h e some_mark small rest) sound full more =
      let one : add32 file.sectorincluster 1 ≡ sectorspercluster = omega (arith, geo.few_sectors) in
      let over : leb sectorspercluster sectorspercluster ≡ true = ground arith in
      let n : sectorspercluster - file.sectorincluster ≡ 1 = omega arith in
      let value : fatclustervalue boot file.currentcluster s ≡ (d, s) =
        rw (at, fatclustervalue_covered boot s cov c h) (ap (λ (k : ℕ). (k, s)) e) in
      let below : ltb d feend32l ≡ true = lt→ltb d feend32l small in
      let tail : sectors_from boot 0 cs ≡ drop 1 (ahead boot file (c ∷ cs)) =
        rw n (ahead_start boot s cs) in
      record {
        rest = cs;
        to = record file { sectorincluster = 0; currentcluster = d };
        run = rw (value, one, over, below) refl;
        tail = tail;
        remaining = record {
          chain = rest;
          inside = geo.some_sectors;
          holds = read_next file d 0 cs (ahead boot file (c ∷ cs)) rest geo.some_sectors tail sound;
        };
        position = refl;
        fsentry = refl;
        totalclusters = refl;
        firstcluster = refl;
        opened = refl;
      }

-- A file that is not at its last sector steps to the next one, reads it, and changes nothing else.
pub next_lem :
    (boot : BootSector) (s : Fat) (file : File) (cs : List ℕ)
    → Geometry boot
    → Covered boot s
    → Remaining boot s file cs
    → Sound s (ahead boot file cs)
    → 1 < length (ahead boot file cs)
    → Stepped boot s file cs
next_lem boot s file cs geo cov at sound more =
    elim (Bool-cases (ltb (file.sectorincluster + 1) boot.sectorspercluster)) [
      | inl within ↦ next_within boot s geo cov file cs at sound (ground (arith, within))
      | inr full ↦
          next_cluster boot s geo cov file refl at.chain sound (ground (arith, full, at.inside))
            more
    ]
