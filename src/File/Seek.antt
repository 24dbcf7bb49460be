-- ===== src/File/Seek.antt =====
-- Where `fileseek` puts a file.
use legendary_journey.Base.{
  ℕ, zero, suc, ◌+◌, ◌*◌, ◌/◌, ◌%◌, ◌≤◌, ◌<◌, ◌≡◌, ◌∙◌, refl, ap, Bool, true, false, ◌&&◌, some,
  List, arith, ltb, ◌==◌, Bool-cases, inl, inr, if◌then◌else◌, Block, add32, length, get_or,
}
use legendary_journey.Ata.Transfer.{Healthy, ataread_ok}
use legendary_journey.Fat.{BootSector, Fat, fatclustertolba, fatreadsector}
use legendary_journey.Fat.Covered.{Covered, entries, table, fatclustervalue_covered}
use legendary_journey.Fat.Walk.{Chain, last, link}
use legendary_journey.File.Write.{file_after}
use legendary_journey.File.{File, cluster_bytes, follow, fileseek}

-- the sector of the drive that a file is at
abbrev pub sector_lba : BootSector → ℕ → ℕ → ℕ
sector_lba boot cluster sector = add32 (fatclustertolba boot cluster) sector

-- the buffer holds the sector of the drive
abbrev pub Holds : BootSector → Fat → Block → ℕ → ℕ → Type 0
Holds boot s buffer cluster sector =
    (i : ℕ) → i < 512 → buffer i ≡ s.disk.bytes (sector_lba boot cluster sector * 512 + i)

-- sectors of 512 bytes, and a cluster of at least one of them
pub record Geometry (boot : BootSector) : Type 0 where
  pub sector_bytes : boot.bytespersector ≡ 512
  pub some_sectors : 0 < boot.sectorspercluster
  pub few_sectors : boot.sectorspercluster < 256

pub fatreadsector-Holds :
    (boot : BootSector) (s : Fat) (cluster sector : ℕ) (old : Block)
    → Healthy s.disk (sector_lba boot cluster sector) 1
    → Holds boot s (fatreadsector boot s cluster sector old).1 cluster sector
unfolding fatreadsector
fatreadsector-Holds boot s cluster sector old healthy i h =
    (ataread_ok s.disk (sector_lba boot cluster sector) 1 healthy (omega arith) (omega arith) old
      i).1
    ∙ ground arith

pub follow_lem :
    (boot : BootSector) (s : Fat) (k : ℕ) {c : ℕ} {cs : List ℕ}
    → Covered boot s
    → Chain (table s) (entries boot) c cs
    → k < length cs
    → follow boot k c s ≡ (get_or cs k 0, s)
unfolding follow
follow_lem boot s zero cov (last h e) inside = refl
follow_lem boot s zero cov (link h e some_mark small rest) inside = refl
follow_lem boot s (suc k) cov (last h e) inside = absurd (omega arith)
follow_lem boot s (suc k) cov (link {c} {d} {cs} h e some_mark small rest) inside =
    rw (fatclustervalue_covered boot s cov c h, e) (follow_lem boot s k cov rest (omega arith))

-- On a volume of 512-byte sectors whose table fits into the cache and stands there, for an open
-- file whose buffer holds its sector, and a position inside its clusters, not behind the file size,
-- whose sector is sound: `fileseek` puts the file at the cluster of its chain and the sector that
-- hold that position, with that sector in the buffer, and changes neither the table nor the drive.
pub fileseek_lem :
    (boot : BootSector) (s : Fat) (file : File) (seek : ℕ) (cs : List ℕ)
    → Geometry boot
    → Covered boot s
    → Chain (table s) (entries boot) file.firstcluster cs
    → file.opened ≡ true
    → seek ≤ file.fsentry.filesize
    → seek / (boot.sectorspercluster * 512) < length cs
    → Holds boot s file.buffer file.currentcluster file.sectorincluster
    → Healthy s.disk
        (sector_lba boot
          (get_or cs (seek / (boot.sectorspercluster * 512)) 0)
          (seek / 512 % boot.sectorspercluster))
        1
    → (file' : File) × (fileseek boot (some file) seek s ≡ (true, some file', s))
      × (file'.position ≡ seek)
      × (file'.currentcluster ≡ get_or cs (seek / (boot.sectorspercluster * 512)) 0)
      × (file'.sectorincluster ≡ seek / 512 % boot.sectorspercluster)
      × Holds boot s file'.buffer file'.currentcluster file'.sectorincluster
unfolding fileseek
fileseek_lem boot s file seek cs geo cov ch open_file low inside holds healthy =
    let bytes : cluster_bytes boot ≡ boot.sectorspercluster * 512 =
      rw geo.sector_bytes (omega (arith, geo.few_sectors)) in
    let at = follow_lem boot s (seek / (boot.sectorspercluster * 512)) cov ch inside in
    let within : ltb file.fsentry.filesize seek ≡ false = ground arith in
    let cluster : ℕ = get_or cs (seek / (boot.sectorspercluster * 512)) 0 in
    let sector : ℕ = seek / 512 % boot.sectorspercluster in
    let in_sector : seek / boot.bytespersector % boot.sectorspercluster ≡ sector =
      ap (λ (k : ℕ). seek / k % boot.sectorspercluster) geo.sector_bytes in
    let same : Bool = (file.currentcluster == cluster) && (file.sectorincluster == sector) in
    let buffer : Block =
      if same then file.buffer else (fatreadsector boot s cluster sector file.buffer).1 in
    let held : Holds boot s buffer cluster sector = elim (Bool-cases same) [
      | inl here ↦
          let same_cluster : file.currentcluster ≡ cluster = ground (arith, here) in
          let same_sector : file.sectorincluster ≡ sector = ground (arith, here) in
          rw here (λ i h.
            holds i h
            ∙ ap (λ (k : ℕ). s.disk.bytes (sector_lba boot k file.sectorincluster * 512 + i))
                same_cluster
            ∙ ap (λ (k : ℕ). s.disk.bytes (sector_lba boot cluster k * 512 + i)) same_sector)
      | inr away ↦ rw away (fatreadsector-Holds boot s cluster sector file.buffer healthy)
    ] in
    (
      record file {
        buffer = buffer;
        position = seek;
        currentcluster = cluster;
        sectorincluster = sector;
      },
      rw (bytes, in_sector, at, within, open_file) refl,
      refl,
      refl,
      refl,
      held,
    )

-- What `fileseek` leaves of a file, whether it succeeds or not.
pub fileseek-same :
    (boot : BootSector) (file : File) (seek : ℕ) (s : Fat)
    → let at = file_after file (fileseek boot (some file) seek s).1 in
      (at.opened ≡ file.opened)
      × (at.fsentry ≡ file.fsentry)
      × (at.totalclusters ≡ file.totalclusters)
      × (at.firstcluster ≡ file.firstcluster)
unfolding fileseek
fileseek-same boot file seek s = ground arith
