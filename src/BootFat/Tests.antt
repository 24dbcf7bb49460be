-- ===== src/BootFat/Tests.antt =====
-- Runs of the table of the second boot stage, at a table of two sectors.
use legendary_journey.Base.{
  ℕ, ◌+◌, ◌*◌, ◌≡◌, refl, Bool, false, some, none, [], ◌∷◌, arith, ltb, ◌==◌, if◌then◌else◌, le32,
  put32,
}
use legendary_journey.Ata.{Disk}
use legendary_journey.Fat.{BootSector, feend32l}
use legendary_journey.Fat.Walk.{Chain, last, link}
use legendary_journey.BootFat.{
  BootTable, ataerror, ataread, fatcache, bring_in, fatclustervalue, fattotalclusters,
}
use legendary_journey.BootFat.Chain.{Cached, entry_on, fattotalclusters_counts}

abbrev boot : BootSector
boot = record {
  bytespersector = 512;
  sectorspercluster = 1;
  reservedsectors = 32;
  fatcount = 2;
  fatsize32 = 2;
  rootcluster = 2;
}

-- cluster 2 leads to cluster 130, whose entry stands in the second sector and ends the chain
abbrev drive : (ℕ → Bool) → Disk
drive faulty = record {
  useraddressablesectors = 1000;
  bytes = put32 (put32 (λ _. 0) (32 * 512 + 8) 130) (33 * 512 + 8) feend32l;
  faulty = faulty;
}

abbrev sound : Disk
sound = drive (λ _. false)

abbrev first_cached : Disk → BootTable
first_cached d = record {
  disk = d;
  first_fat = 32;
  cachefirstentry = 0;
  buffer = λ i. d.bytes (32 * 512 + i);
}

chain : Chain (entry_on sound 32) 256 2 (2 ∷ 130 ∷ [])
unfolding le32 put32
chain = link (omega arith) refl (omega arith) (omega arith) (last (omega arith) (omega arith))

second_sector :
    bring_in (λ _. 0) boot 130 (first_cached sound)
    ≡ some (record (first_cached sound) {
      cachefirstentry = 128;
      buffer = λ i. if ltb i 512 then sound.bytes (33 * 512 + i) else sound.bytes (32 * 512 + i);
    })
unfolding bring_in fatcache ataread
second_sector = refl

-- an error that is not recoverable stops the machine
stopped : fatclustervalue (λ _. 16) boot 130 (first_cached (drive (λ s. s == 33))) ≡ none
unfolding fatclustervalue bring_in fatcache ataread ataerror
stopped = refl

fattotalclusters_counts_example :
    (s' : BootTable) × (fattotalclusters (λ _. 0) boot 2 2 (first_cached sound)
      ≡ some ((2, 130, s')))
    × Cached boot sound 32 s'
fattotalclusters_counts_example =
    fattotalclusters_counts (λ _. 0) boot sound 32
      (record {
        healthy = record {
          on_drive = omega arith;
          addressable = omega arith;
          sound = λ i lo hi. refl;
        };
        numbered = omega arith;
      })
      2 2 (2 ∷ 130 ∷ []) (first_cached sound) chain
      (record {
        disk = refl;
        start = refl;
        sector = 0;
        inside = omega arith;
        from = refl;
        held = λ i h. refl;
      })
      (omega arith) (omega arith)
