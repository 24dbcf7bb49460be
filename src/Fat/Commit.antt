-- ===== src/Fat/Commit.antt =====
-- Writing the cached table back to every copy on the drive, and loading it again.
use native.Mathlib.Nat.{add_assoc}
use legendary_journey.Base.{
  ℕ, zero, suc, ◌+◌, ◌-◌, ◌*◌, ◌≤◌, ◌<◌, ◌≡◌, ◌∙◌, ◌⊎◌, inl, inr, refl, ap, true, false, ◌&&◌,
  arith, ltb, leb, if◌then◌else◌, Block, add32, le32, le32_ext,
}
use legendary_journey.Ata.{Disk, atawrite}
use legendary_journey.Ata.Transfer.{Healthy, atawrite_ok}
use legendary_journey.Fat.{BootSector, FatCache, Fat, commit_copies, fatcommit}
use legendary_journey.Fat.Covered.{Covered, entries, table}

-- the entry of a cluster in copy `k` of the table on the drive
abbrev pub disk_entry : BootSector → Disk → ℕ → ℕ → ℕ
disk_entry boot d k c = le32 d.bytes ((boot.reservedsectors + k * boot.fatsize32) * 512 + 4 * c)

-- all copies of the table lie on sound sectors
abbrev pub HealthyTable : BootSector → Disk → Type 0
HealthyTable boot d = Healthy d boot.reservedsectors (boot.fatcount * boot.fatsize32)

module _ (boot : BootSector) (cache : FatCache) (full : cache.sectorsbuffered ≡ boot.fatsize32)
    (pos : 0 < boot.fatsize32) (few : boot.fatsize32 ≤ 8) where
  open boot use {fatsize32}

  record Copied (copies lba : ℕ) (d d' : Disk) : Type 0 where
    copied :
        (k j : ℕ)
        → k < copies
        → j < fatsize32 * 512
        → d'.bytes ((lba + k * fatsize32) * 512 + j) ≡ cache.buffer j
    before : (i : ℕ) → i < lba * 512 → d'.bytes i ≡ d.bytes i
    behind : (i : ℕ) → (lba + copies * fatsize32) * 512 ≤ i → d'.bytes i ≡ d.bytes i
    size : d'.useraddressablesectors ≡ d.useraddressablesectors
    faults : d'.faulty ≡ d.faulty

  one_copy :
      (d : Disk) (lba : ℕ)
      → Healthy d lba fatsize32
      → (atawrite d lba cache.sectorsbuffered cache.buffer).1 ≡ record d {
        bytes = λ i.
            if leb (lba * 512) i && ltb i (lba * 512 + fatsize32 * 512)
            then cache.buffer (i - lba * 512)
            else d.bytes i;
      }
  one_copy d lba healthy =
      rw full ((atawrite_ok d lba fatsize32 healthy pos (omega arith) cache.buffer).1)

  later :
      (lba : ℕ) (d d' : Disk) (copies : ℕ)
      → ((i : ℕ)
          → i < (lba + fatsize32) * 512
          → d'.bytes i ≡ (
              if leb (lba * 512) i && ltb i (lba * 512 + fatsize32 * 512)
              then cache.buffer (i - lba * 512)
              else d.bytes i))
      → ((k j : ℕ)
          → k < copies
          → j < fatsize32 * 512
          → d'.bytes ((lba + fatsize32 + k * fatsize32) * 512 + j) ≡ cache.buffer j)
      → (k j : ℕ) → k < suc copies
      → j < fatsize32 * 512
      → d'.bytes ((lba + k * fatsize32) * 512 + j) ≡ cache.buffer j
  later lba d d' copies low high zero j hk hj =
      let at : (lba + 0 * fatsize32) * 512 + j ≡ lba * 512 + j = omega arith in
      rw at (low (lba * 512 + j) (omega arith) ∙ inside)
    where
      inside :
          (if leb (lba * 512) (lba * 512 + j) && ltb (lba * 512 + j) (lba * 512 + fatsize32 * 512)
            then cache.buffer (lba * 512 + j - lba * 512)
            else d.bytes (lba * 512 + j))
          ≡ cache.buffer j
      inside = let back : lba * 512 + j - lba * 512 ≡ j = omega arith in ground (arith, back)
  later lba d d' copies low high (suc k) j hk hj =
      let at : (lba + suc k * fatsize32) * 512 + j ≡ (lba + fatsize32 + k * fatsize32) * 512 + j =
        omega arith in
      rw at (high k j (omega arith) hj)

  commit_copies_lem :
      (copies lba : ℕ) (d : Disk)
      → Healthy d lba (copies * fatsize32)
      → Copied copies lba d (commit_copies boot copies lba cache d)
  unfolding commit_copies
  commit_copies_lem zero lba d healthy = record {
    copied = λ k j hk hj. absurd (omega arith);
    before = λ i h. refl;
    behind = λ i h. refl;
    size = refl;
    faults = refl;
  }
  commit_copies_lem (suc copies) lba d healthy =
      let first : Disk = record d {
        bytes = λ i.
            if leb (lba * 512) i && ltb i (lba * 512 + fatsize32 * 512)
            then cache.buffer (i - lba * 512)
            else d.bytes i;
      } in
      let onward : add32 lba fatsize32 ≡ lba + fatsize32 =
        omega (arith, healthy.on_drive, healthy.addressable) in
      let rest = commit_copies_lem copies (lba + fatsize32) first (record {
        on_drive = omega (arith, healthy.on_drive);
        addressable = healthy.addressable;
        sound = λ i lo hi. healthy.sound i (omega arith) (omega arith);
      }) in
      rw
        (
          one_copy d lba (record {
            on_drive = omega (arith, healthy.on_drive);
            addressable = healthy.addressable;
            sound = λ i lo hi. healthy.sound i lo (omega arith);
          }),
          onward,
        )
        (record {
          copied =
              later lba d (commit_copies boot copies (lba + fatsize32) cache first) copies
                (λ i h. rest.before i h) (λ k j hk hj. rest.copied k j hk hj);
          before = λ i h. rest.before i (omega arith) ∙ ground arith;
          behind = λ i h. rest.behind i (omega arith) ∙ ground arith;
          size = rest.size;
          faults = rest.faults;
        })

commit_dirty :
    (boot : BootSector) (s : Fat)
    → s.cache.dirty ≡ true
    → add32 boot.reservedsectors s.cache.startingsector ≡ boot.reservedsectors
    → fatcommit boot s ≡ record s {
      disk = commit_copies boot boot.fatcount boot.reservedsectors s.cache s.disk;
      cache = record s.cache { dirty = false };
    }
unfolding fatcommit
commit_dirty boot s dirty at = ground arith

-- On a volume of 512-byte sectors whose table fits into the cache and stands there, and whose
-- copies of the table all lie on sound sectors: `fatcommit` of a dirty cache writes every entry to
-- every copy of the table, leaves every byte of the drive outside the copies alone, keeps the
-- cached table, and marks the cache clean.
pub fatcommit_lem :
    (boot : BootSector) (s : Fat)
    → Covered boot s
    → HealthyTable boot s.disk
    → s.cache.dirty ≡ true
    → let s' = fatcommit boot s in
      ((k c : ℕ) → k < boot.fatcount → c < entries boot → disk_entry boot s'.disk k c ≡ table s c)
      × ((i : ℕ)
          → (i < boot.reservedsectors * 512)
            ⊎ ((boot.reservedsectors + boot.fatcount * boot.fatsize32) * 512 ≤ i)
          → s'.disk.bytes i ≡ s.disk.bytes i)
      × (s'.cache ≡ record s.cache { dirty = false })
fatcommit_lem boot s cov healthy dirty =
    let at : add32 boot.reservedsectors s.cache.startingsector ≡ boot.reservedsectors =
      omega (arith, cov.starting, healthy.on_drive, healthy.addressable) in
    let out =
      commit_copies_lem boot s.cache cov.buffered cov.some_sectors cov.few_sectors boot.fatcount
        boot.reservedsectors s.disk healthy in
    let written : Block =
      (commit_copies boot boot.fatcount boot.reservedsectors s.cache s.disk).bytes in
    rw (commit_dirty boot s dirty at) (
      λ k c hk hc.
          let at_entry : ℕ = (boot.reservedsectors + k * boot.fatsize32) * 512 in
          le32_ext written s.cache.buffer (at_entry + 4 * c) (4 * c) (λ i hi.
            ap written (add_assoc at_entry (4 * c) i) ∙ out.copied k (4 * c + i) hk (omega arith)),
      λ i h. elim h [ inl lo ↦ out.before i lo | inr hi ↦ out.behind i hi ],
      refl,
    )
