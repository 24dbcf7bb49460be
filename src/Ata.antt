-- ===== src/Ata.antt =====
-- src/kernel/disk/ata.c: `ataread` and `atawrite` over a drive. The port traffic of one sector is
-- one step: the drive moves 512 bytes and then reports an error (the ERR bit that `atacheckerror`
-- reads) or none. A write that the drive reports as failed leaves its sector as it was.
pub mod Transfer
use legendary_journey.Base.{
  ℕ, zero, suc, ◌+◌, ◌-◌, ◌*◌, ◌%◌, ◌^◌, Bool, true, false, ltb, leb, ◌==◌, ◌&&◌, if◌then◌else◌,
  Block, add32,
}

-- the drive: its size, its bytes in order of their sectors, and the sectors that raise ERR
pub record Disk : Type 0 where
  pub useraddressablesectors : ℕ
  pub bytes : Block
  pub faulty : ℕ → Bool

-- the sectors that pass before the first error, of `n` from `lba` on
unfoldable pub good_sectors : (ℕ → Bool) → ℕ → ℕ → ℕ
good_sectors faulty lba zero = 0
good_sectors faulty lba (suc n) = if faulty lba then 0 else suc (good_sectors faulty (lba + 1) n)

-- `lba & 0x0FFFFFFF`, and the sector count as a `uint8_t`
abbrev pub lba28 : ℕ → ℕ
lba28 lba = lba % 2 ^ 28

abbrev pub count8 : ℕ → ℕ
count8 sectors = sectors % 256

abbrev pub beyond_end : Disk → ℕ → ℕ → Bool
beyond_end d lba sectors = ltb d.useraddressablesectors (add32 (lba28 lba) (count8 sectors))

-- The data of a faulty sector is read before the error is seen.
unfoldable pub ataread : Disk → ℕ → ℕ → Block → Bool × Block
ataread d lba sectors dst =
    let good = good_sectors d.faulty (lba28 lba) (count8 sectors) in
    let done = good == count8 sectors in
    let moved = if done then good else suc good in
    if beyond_end d lba sectors
    then (false, dst)
    else if count8 sectors == 0
    then (true, dst)
    else (done, λ i. if ltb i (moved * 512) then d.bytes (lba28 lba * 512 + i) else dst i)

unfoldable pub atawrite : Disk → ℕ → ℕ → Block → Bool × Disk
atawrite d lba sectors src =
    let good = good_sectors d.faulty (lba28 lba) (count8 sectors) in
    let from = lba28 lba * 512 in
    let bytes : Block =
      λ i. if leb from i && ltb i (from + good * 512) then src (i - from) else d.bytes i in
    if beyond_end d lba sectors
    then (false, d)
    else if count8 sectors == 0
    then (true, d)
    else (good == count8 sectors, record d { bytes = bytes })
