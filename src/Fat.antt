-- ===== src/Fat.antt =====
-- src/kernel/disk/fat.c: the allocation table behind a cache of a few of its sectors.
pub mod Chains
pub mod Covered
pub mod Window
pub mod Commit
pub mod Walk
pub mod Alloc
pub mod Dealloc
pub mod Find
mod Tests
use legendary_journey.Base.{
  ℕ, zero, suc, ◌+◌, ◌-◌, ◌*◌, ◌/◌, ◌%◌, ◌^◌, Bool, true, false, Option, none, some, ◌&&◌, ◌||◌,
  ltb, leb, ◌==◌, if◌then◌else◌, min, Block, add32, sub32, mul32, le32, put32,
}
use legendary_journey.Errno.{Errno}
use legendary_journey.Ata.{Disk, ataread, atawrite}

-- the fields of `struct fatbootsector` that the file system reads
pub record BootSector : Type 0 where
  pub bytespersector : ℕ
  pub sectorspercluster : ℕ
  pub reservedsectors : ℕ
  pub fatcount : ℕ
  pub fatsize32 : ℕ
  pub rootcluster : ℕ

-- `_fatcache`; the buffer is the page of bytes that holds the entries
pub record FatCache : Type 0 where
  pub dirty : Bool
  pub firstentry : ℕ
  pub startingsector : ℕ
  pub sectorsbuffered : ℕ
  pub buffer : Block

-- the drive, the globals of fat.c and `errno`
pub record Fat : Type 0 where
  pub disk : Disk
  pub cache : FatCache
  pub search_start : ℕ
  pub errno : Errno

abbrev pub fat_cache_size : ℕ
fat_cache_size = 8

abbrev pub entries_per_sector : ℕ
entries_per_sector = 128

abbrev pub pgsize : ℕ
pgsize = 4096

abbrev pub fefree : ℕ
fefree = 0

abbrev pub feend32l : ℕ
feend32l = 0x0FFFFFF8

-- the number of entries that the buffer holds
abbrev pub window : FatCache → ℕ
window cache = mul32 entries_per_sector cache.sectorsbuffered

abbrev pub outside : FatCache → ℕ → Bool
outside cache entry =
    ltb entry cache.firstentry || leb (add32 cache.firstentry (window cache)) entry

module _ (boot : BootSector) where
  open boot use {
    bytespersector, sectorspercluster, reservedsectors, fatcount, fatsize32, rootcluster,
  }

  unfoldable pub fatclustertolba : ℕ → ℕ
  fatclustertolba cluster =
      let dataregionstart = add32 reservedsectors (mul32 fatcount fatsize32) in
      add32 (mul32 (sub32 cluster rootcluster) sectorspercluster) dataregionstart

  unfoldable pub fatreadsector : Fat → ℕ → ℕ → Block → Bool × Block
  unfolding fatclustertolba
  fatreadsector s cluster sector dst = ataread s.disk (add32 (fatclustertolba cluster) sector) 1 dst

  unfoldable pub fatwritesector : Fat → ℕ → ℕ → Block → Bool × Fat
  unfolding fatclustertolba
  fatwritesector s cluster sector src =
      let (done, disk) = atawrite s.disk (add32 (fatclustertolba cluster) sector) 1 src in
      (done, record s { disk = disk })

  -- the loop of `fatcommit` over the copies of the table; the results of `atawrite` are dropped
  unfoldable pub commit_copies : ℕ → ℕ → FatCache → Disk → Disk
  commit_copies zero lba cache d = d
  commit_copies (suc copies) lba cache d =
      commit_copies copies (add32 lba fatsize32) cache
        (atawrite d lba cache.sectorsbuffered cache.buffer).1

  unfoldable pub fatcommit : Fat → Fat
  unfolding commit_copies
  fatcommit s =
      let lba = add32 reservedsectors s.cache.startingsector in
      if s.cache.dirty
      then record s {
        disk = commit_copies fatcount lba s.cache s.disk;
        cache = record s.cache { dirty = false };
      }
      else s

  -- `fatcache` past its range check
  unfoldable pub load_cache : ℕ → ℕ → Fat → Bool × Fat
  load_cache fat offsetsector s =
      let sectors = min fat_cache_size (sub32 fatsize32 offsetsector) in
      let lba = add32 (add32 reservedsectors (mul32 fat fatsize32)) offsetsector in
      let (done, buffer) = ataread s.disk lba sectors s.cache.buffer in
      let read : FatCache = record s.cache { sectorsbuffered = sectors; buffer = buffer } in
      let loaded : FatCache = record read {
        dirty = false;
        firstentry = mul32 offsetsector entries_per_sector;
        startingsector = offsetsector;
      } in
      (done, record s { cache = if done then loaded else read })

  unfoldable pub fatcache : ℕ → ℕ → Fat → Bool × Fat
  unfolding fatcommit load_cache
  fatcache fat offsetsector s =
      if leb fatcount fat || leb fatsize32 offsetsector
      then (false, s)
      else load_cache fat offsetsector (fatcommit s)

  -- the first statement of `fatclustervalue` and of `fatsetcluster`
  unfoldable pub bring_in : ℕ → Fat → Fat
  unfolding fatcache
  bring_in entry s =
      if outside s.cache entry then (fatcache 0 (entry / entries_per_sector) s).1 else s

  unfoldable pub fatclustervalue : ℕ → Fat → ℕ × Fat
  unfolding bring_in
  fatclustervalue entryposition s =
      let s' = bring_in entryposition s in
      (le32 s'.cache.buffer (4 * (entryposition % window s'.cache)), s')

  unfoldable pub fatsetcluster : ℕ → ℕ → Fat → Fat
  unfolding bring_in
  fatsetcluster cluster value s =
      let s' = bring_in cluster s in
      let set = record s'.cache {
        dirty = true;
        buffer = put32 s'.cache.buffer (4 * (cluster % window s'.cache)) value;
      } in
      record s' {
        cache = set;
        search_start =
            if (value == fefree) && ltb cluster s'.search_start
            then sub32 cluster 1
            else s'.search_start;
      }

  -- `fatinit` over what `kalloc` returns; the `none` of the result is `STOP()`.
  unfoldable pub fatinit : Option Block → Fat → Option Fat
  unfolding fatcache
  fatinit none s = none
  fatinit (some page) s =
      let (done, s') =
        fatcache 0 0 (record s { cache = record s.cache { buffer = page }; search_start = 2 }) in
      if ltb pgsize (mul32 bytespersector fat_cache_size)
      then none
      else if done
      then some s'
      else none
