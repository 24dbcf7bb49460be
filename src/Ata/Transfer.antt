-- ===== src/Ata/Transfer.antt =====
-- Transfers that stay on the drive and meet no faulty sector.
use legendary_journey.Base.{
  ℕ, zero, suc, ◌+◌, ◌-◌, ◌*◌, ◌^◌, ◌≤◌, ◌<◌, ◌≡◌, refl, Bool, true, false, arith, ltb, leb, ◌&&◌,
  if◌then◌else◌, Block,
}
use legendary_journey.Ata.{Disk, good_sectors, ataread, atawrite, lba28, count8}

-- the sectors `lba` to `lba + n - 1` exist and raise no error
pub record Healthy (d : Disk) (lba n : ℕ) : Type 0 where
  pub on_drive : lba + n ≤ d.useraddressablesectors
  pub addressable : d.useraddressablesectors < 2 ^ 28
  pub sound : (i : ℕ) → lba ≤ i → i < lba + n → d.faulty i ≡ false

pub good_sectors_all :
    (faulty : ℕ → Bool) (lba n : ℕ)
    → ((i : ℕ) → lba ≤ i → i < lba + n → faulty i ≡ false)
    → good_sectors faulty lba n ≡ n
unfolding good_sectors
good_sectors_all faulty lba zero h = refl
good_sectors_all faulty lba (suc n) h =
    let rest = good_sectors_all faulty (lba + 1) n (λ i lo hi. h i (omega arith) (omega arith)) in
    ground (arith, h lba (omega arith) (omega arith), rest)

pub good_sectors-le : (faulty : ℕ → Bool) (lba n : ℕ) → good_sectors faulty lba n ≤ n
unfolding good_sectors
good_sectors-le faulty lba zero = omega arith
good_sectors-le faulty lba (suc n) = ground (arith, good_sectors-le faulty (lba + 1) n)

module _ (d : Disk) (lba n : ℕ) (healthy : Healthy d lba n) (pos : 0 < n) (few : n < 256) where
  same_lba : lba28 lba ≡ lba
  same_lba = omega (arith, healthy.on_drive, healthy.addressable)

  same_count : count8 n ≡ n
  same_count = omega arith

  -- A read of sound sectors succeeds and delivers their bytes.
  pub ataread_ok :
      (dst : Block) (i : ℕ)
      → ((ataread d lba n dst).0 ≡ true)
        × ((ataread d lba n dst).1 i ≡ (if ltb i (n * 512) then d.bytes (lba * 512 + i) else dst i))
  unfolding ataread
  ataread_ok dst i =
      rw (same_lba, same_count, good_sectors_all d.faulty lba n healthy.sound)
        (ground (arith, healthy.on_drive, healthy.addressable))

  -- A write of sound sectors succeeds, puts the bytes there and changes no other byte of the drive.
  pub atawrite_ok :
      (src : Block)
      → ((atawrite d lba n src).0 ≡ true)
        × ((atawrite d lba n src).1 ≡ record d {
          bytes = λ i.
              if leb (lba * 512) i && ltb i (lba * 512 + n * 512)
              then src (i - lba * 512)
              else d.bytes i;
        })
  unfolding atawrite
  atawrite_ok src =
      rw (same_lba, same_count, good_sectors_all d.faulty lba n healthy.sound)
        (ground (arith, healthy.on_drive, healthy.addressable))

-- What a write never touches: the size of the drive, its faults, and the bytes outside the sectors.
pub atawrite_keeps :
    (d : Disk) (lba n : ℕ) (src : Block)
    → ((atawrite d lba n src).1.useraddressablesectors ≡ d.useraddressablesectors)
      × ((atawrite d lba n src).1.faulty ≡ d.faulty)
unfolding atawrite
atawrite_keeps d lba n src = ground arith
