-- ===== src/Fat/Window.antt =====
-- What the cache holds after it has been loaded, for tables of any size.
use legendary_journey.Base.{
  ℕ, ◌+◌, ◌-◌, ◌*◌, ◌/◌, ◌%◌, ◌≤◌, ◌<◌, ◌^◌, ◌≡◌, ◌↔◌, ◌∙◌, refl, ap, true, false, some, arith, ltb,
  leb, Block, add32, sub32, mul32, le32, le32_ext, min,
}
use legendary_journey.Ata.{Disk, ataread}
use legendary_journey.Ata.Transfer.{Healthy, ataread_ok}
use legendary_journey.Fat.{
  BootSector, Fat, fatcommit, load_cache, fatcache, fatinit, window, outside, bring_in,
  fatclustervalue,
}
use legendary_journey.Fat.Covered.{Covered, entries, table}

-- the first copy of the table on the drive
abbrev pub on_disk : BootSector → Disk → ℕ → ℕ
on_disk boot d c = le32 d.bytes (boot.reservedsectors * 512 + 4 * c)

-- the sectors that a load from `offsetsector` buffers
abbrev pub buffered : BootSector → ℕ → ℕ
buffered boot offsetsector = min 8 (boot.fatsize32 - offsetsector)

loaded_buffer : BootSector → Fat → ℕ → Block
loaded_buffer boot s offsetsector =
    (ataread s.disk (boot.reservedsectors + offsetsector) (buffered boot offsetsector)
      s.cache.buffer).1

loaded : BootSector → Fat → ℕ → Fat
loaded boot s offsetsector = record s {
  cache = record {
    dirty = false;
    firstentry = 128 * offsetsector;
    startingsector = offsetsector;
    sectorsbuffered = buffered boot offsetsector;
    buffer = loaded_buffer boot s offsetsector;
  };
}

module _ (boot : BootSector) (s : Fat) (offsetsector : ℕ) (inside : offsetsector < boot.fatsize32)
    (small : boot.fatsize32 < 2 ^ 24)
    (healthy : Healthy s.disk
      (boot.reservedsectors + offsetsector)
      (buffered boot offsetsector)) where
  load_cache_lem : load_cache boot 0 offsetsector s ≡ (true, loaded boot s offsetsector)
  unfolding load_cache loaded_buffer loaded
  load_cache_lem =
      let n_pos : 0 < buffered boot offsetsector = omega arith in
      let sectors : min 8 (sub32 boot.fatsize32 offsetsector) ≡ buffered boot offsetsector =
        omega arith in
      let lba : add32 (add32 boot.reservedsectors (mul32 0 boot.fatsize32)) offsetsector
          ≡ boot.reservedsectors + offsetsector =
        omega (arith, healthy.on_drive, healthy.addressable) in
      let first : mul32 offsetsector 128 ≡ 128 * offsetsector = omega arith in
      let done =
        (ataread_ok s.disk (boot.reservedsectors + offsetsector) (buffered boot offsetsector)
          healthy n_pos (omega arith) s.cache.buffer 0).0 in
      rw (sectors, lba, first, done) refl

  -- entry `i` of the buffer
  loaded_entry :
      (i : ℕ)
      → i < 128 * buffered boot offsetsector
      → le32 (loaded_buffer boot s offsetsector) (4 * i)
        ≡ on_disk boot s.disk (128 * offsetsector + i)
  unfolding loaded_buffer
  loaded_entry i h =
      le32_ext (loaded_buffer boot s offsetsector) s.disk.bytes (4 * i)
        (boot.reservedsectors * 512 + 4 * (128 * offsetsector + i))
        (λ j hj.
          let at : (boot.reservedsectors + offsetsector) * 512 + (4 * i + j)
              ≡ boot.reservedsectors * 512 + 4 * (128 * offsetsector + i) + j =
            omega arith in
          (ataread_ok s.disk (boot.reservedsectors + offsetsector) (buffered boot offsetsector)
            healthy (omega arith) (omega arith) s.cache.buffer (4 * i + j)).1
          ∙ ground (arith, at))

  fatcache_clean :
      0 < boot.fatcount
      → s.cache.dirty ≡ false
      → fatcache boot 0 offsetsector s ≡ (true, loaded boot s offsetsector)
  unfolding fatcache fatcommit
  fatcache_clean copies clean =
      let same : fatcommit boot s ≡ s = ground arith in
      let present : leb boot.fatcount 0 ≡ false = ground arith in
      let within : leb boot.fatsize32 offsetsector ≡ false = ground arith in
      rw (present, within, same) load_cache_lem

-- `fatinit` of a volume whose table has at most eight sectors: the whole table is in the cache, clean,
-- and each entry is the one on the drive.
pub fatinit_lem :
    (boot : BootSector) (s : Fat) (page : Block)
    → boot.bytespersector ≡ 512
    → 0 < boot.fatcount
    → 0 < boot.fatsize32
    → boot.fatsize32 ≤ 8
    → s.cache.dirty ≡ false
    → Healthy s.disk boot.reservedsectors boot.fatsize32
    → (s' : Fat) × (fatinit boot (some page) s ≡ some s')
      × Covered boot s'
      × ((c : ℕ) → c < entries boot → table s' c ≡ on_disk boot s.disk c)
      × (s'.cache.dirty ≡ false)
      × (s'.disk ≡ s.disk)
unfolding fatinit loaded loaded_buffer
fatinit_lem boot s page bytes copies some_sectors few clean healthy =
    let s₀ : Fat = record s { cache = record s.cache { buffer = page }; search_start = 2 } in
    let all : buffered boot 0 ≡ boot.fatsize32 = omega arith in
    let from : boot.reservedsectors + 0 ≡ boot.reservedsectors = omega arith in
    let healthy₀ : Healthy s₀.disk (boot.reservedsectors + 0) (buffered boot 0) =
      rw (all, from) healthy in
    let fits : ltb 4096 (mul32 512 8) ≡ false = refl in
    let run = fatcache_clean boot s₀ 0 some_sectors (omega arith) healthy₀ copies clean in
    (
      loaded boot s₀ 0,
      rw (run, bytes) refl,
      record {
        sector_size = bytes;
        some_sectors = some_sectors;
        few_sectors = few;
        first = omega arith;
        starting = refl;
        buffered = all;
      },
      λ c h.
          let at : 128 * 0 + c ≡ c = omega arith in
          loaded_entry boot s₀ 0 some_sectors (omega arith) healthy₀ c (omega arith)
          ∙ ap (on_disk boot s.disk) at,
      refl,
      refl,
    )

-- A load for an entry outside the cache puts the entry's sector at the front of the buffer, but
-- `fatclustervalue` looks at the entry's number modulo the size of the buffer. So it returns the entry
-- number `128 * q + c % 1024` of the drive, where `q` is the sector of `c`, and that is `c` exactly if
-- `q` is a multiple of 8: for any other sector a wrong entry is read.
pub fatclustervalue_window :
    (boot : BootSector) (s : Fat) (c : ℕ)
    → 0 < boot.fatcount
    → boot.fatsize32 < 2 ^ 24
    → c / 128 + 8 ≤ boot.fatsize32
    → s.cache.dirty ≡ false
    → outside s.cache c ≡ true
    → Healthy s.disk (boot.reservedsectors + c / 128) 8
    → ((fatclustervalue boot c s).0 ≡ on_disk boot s.disk (128 * (c / 128) + c % 1024))
      × ((128 * (c / 128) + c % 1024 ≡ c) ↔ (c / 128 % 8 ≡ 0))
unfolding fatclustervalue bring_in loaded loaded_buffer
fatclustervalue_window boot s c copies small room clean out healthy =
    let all : buffered boot (c / 128) ≡ 8 = omega arith in
    let healthy' : Healthy s.disk (boot.reservedsectors + c / 128) (buffered boot (c / 128)) =
      rw all healthy in
    let inside : c / 128 < boot.fatsize32 = omega arith in
    let run = fatcache_clean boot s (c / 128) inside small healthy' copies clean in
    let entry = loaded_entry boot s (c / 128) inside small healthy' (c % 1024) (omega arith) in
    let whole : window (loaded boot s (c / 128)).cache ≡ 1024 = omega (arith, all) in
    (rw (out, run, whole) entry, (λ e. omega arith, λ e. omega arith))
