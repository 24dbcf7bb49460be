-- ===== src/BootFat.antt =====
-- src/boot/stage2/fat.c and ata.c: the allocation table in the second boot stage, behind a cache of one of
-- its sectors. The stage reads one sector at a time, so `ataread` is the read of one sector; its port
-- traffic is one step. `none` is a stop of the machine. What the drive puts into its error register is
-- a parameter, and the messages of errors are left out.
pub mod Chain
mod Tests
use legendary_journey.Base.{
  ℕ, zero, suc, ◌+◌, ◌*◌, ◌/◌, ◌%◌, ◌^◌, Bool, true, false, not, Option, none, some, ◌||◌, ltb, leb,
  ◌==◌, if◌then◌else◌, ◌>>=◌, Block, add32, sub32, mul32, le32,
}
use legendary_journey.Ata.{Disk, lba28, beyond_end}
use legendary_journey.Fat.{BootSector, entries_per_sector, feend32l}

-- `_first_fat`, `_cachefirstentry` and `_fatcache`, and the drive
pub record BootTable : Type 0 where
  pub disk : Disk
  pub first_fat : ℕ
  pub cachefirstentry : ℕ
  pub buffer : Block

abbrev error_bit : ℕ → ℕ → Bool
error_bit k word = word / 2 ^ k % 2 == 1

-- whether an error of these bits stops the machine
unfoldable ataerror : ℕ → Bool
ataerror error = error_bit 0 error || error_bit 1 error || error_bit 4 error || error_bit 6 error

abbrev pub outside : BootTable → ℕ → Bool
outside s entry =
    ltb entry s.cachefirstentry || leb (add32 s.cachefirstentry entries_per_sector) entry

module _ (errors : ℕ → ℕ) where
  -- The sector is moved before the error is seen.
  unfoldable pub ataread : ℕ → Disk → Block → Option (Bool × Block)
  unfolding ataerror
  ataread lba d dst =
      let moved : Block = λ i. if ltb i 512 then d.bytes (lba28 lba * 512 + i) else dst i in
      if beyond_end d lba 1
      then some (false, dst)
      else if d.faulty (lba28 lba)
      then (if ataerror (errors (lba28 lba)) then none else some (false, moved))
      else some (true, moved)

  module _ (boot : BootSector) where
    open boot use {sectorspercluster, reservedsectors, fatcount, fatsize32, rootcluster}

    unfoldable pub fatclustertolba : ℕ → ℕ
    fatclustertolba cluster =
        let dataregionstart = add32 reservedsectors (mul32 fatcount fatsize32) in
        add32 (mul32 (sub32 cluster rootcluster) sectorspercluster) dataregionstart

    unfoldable pub fatreadsector : ℕ → ℕ → BootTable → Block → Option (Bool × Block)
    unfolding fatclustertolba ataread
    fatreadsector cluster sector s out = ataread (add32 (fatclustertolba cluster) sector) s.disk out

    -- The result of `ataread` is dropped.
    unfoldable pub fatcache : ℕ → BootTable → Option (Bool × BootTable)
    unfolding ataread
    fatcache offsetsector s = if leb fatsize32 offsetsector then some (false, s) else do
      (done, buffer) ← ataread (add32 s.first_fat offsetsector) s.disk s.buffer
      let first = mul32 offsetsector entries_per_sector
      some (true, record s { cachefirstentry = first; buffer = buffer })

    -- the first statement of `fatclustervalue`
    unfoldable pub bring_in : ℕ → BootTable → Option BootTable
    unfolding fatcache
    bring_in entry s =
        if outside s entry
        then (do (done, s') ← fatcache (entry / entries_per_sector) s; some s')
        else some s

    unfoldable pub fatclustervalue : ℕ → BootTable → Option (ℕ × BootTable)
    unfolding bring_in
    fatclustervalue entryposition s = do
      s' ← bring_in entryposition s
      some (le32 s'.buffer (4 * (entryposition % entries_per_sector)), s')

    -- the loop of `fattotalclusters`, with its count, the cluster and `*lastcluster`
    unfoldable pub total_loop : ℕ → ℕ → ℕ → BootTable → Option (ℕ × ℕ × BootTable)
    unfolding fatclustervalue
    total_loop zero count value s = none
    total_loop (suc fuel) count value s = do
      (next, s') ← fatclustervalue value s
      let rest = total_loop fuel (add32 count 1) next s'
      if ltb next feend32l then rest else some (add32 count 1, value, s')

    -- the number of clusters of a chain, and the last of them
    unfoldable pub fattotalclusters : ℕ → ℕ → BootTable → Option (ℕ × ℕ × BootTable)
    unfolding total_loop
    fattotalclusters fuel cluster s = total_loop fuel 0 cluster s

    -- A volume that is not FAT32 stops the machine.
    unfoldable pub fatinit : ℕ → BootTable → Option BootTable
    unfolding fatcache
    fatinit fatsize16 s =
        if not (fatsize16 == 0)
        then none
        else do (done, s') ← fatcache 0 (record s { first_fat = reservedsectors }); some s'
