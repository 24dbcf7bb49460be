-- ===== src/BootFat/Chain.antt =====
-- Entries of the table and chains of them, read through one cached sector.
use legendary_journey.Base.{
  ℕ, zero, suc, ◌+◌, ◌*◌, ◌/◌, ◌%◌, ◌^◌, ◌≤◌, ◌<◌, ◌≡◌, ◌∙◌, refl, ap, Bool, true, false, Option,
  some, List, arith, ltb, leb, if◌then◌else◌, if_true, if_false, Bool-cases, inl, inr, ◌>>=◌, Block,
  add32, mul32, le32, le32_ext, length, last_or, lt→ltb,
}
use legendary_journey.Ata.{Disk, lba28}
use legendary_journey.Ata.Transfer.{Healthy}
use legendary_journey.Fat.{BootSector, feend32l}
use legendary_journey.Fat.Walk.{Chain, last, link, last_of_Chain}
use legendary_journey.BootFat.{
  BootTable, outside, bring_in, ataread, fatcache, fatclustervalue, total_loop, fattotalclusters,
  fatinit,
}

-- the entry of a cluster in the table that starts at the sector `first` of the drive
abbrev pub entry_on : Disk → ℕ → ℕ → ℕ
entry_on d first c = le32 d.bytes (first * 512 + 4 * c)

-- The first copy of the table is on sound sectors, and its entries have numbers of 32 bits.
pub record TableOnDrive (boot : BootSector) (d : Disk) (first : ℕ) : Type 0 where
  pub healthy : Healthy d first boot.fatsize32
  pub numbered : boot.fatsize32 < 2 ^ 25

-- The cache holds the sector of the table that its first entry belongs to.
pub record Cached (boot : BootSector) (d : Disk) (first : ℕ) (s : BootTable) : Type 0 where
  pub disk : s.disk ≡ d
  pub start : s.first_fat ≡ first
  pub sector : ℕ
  pub inside : sector < boot.fatsize32
  pub from : s.cachefirstentry ≡ sector * 128
  pub held : (i : ℕ) → i < 512 → s.buffer i ≡ d.bytes ((first + sector) * 512 + i)

module _ (errors : ℕ → ℕ) (boot : BootSector) (d : Disk) (first : ℕ)
    (ok : TableOnDrive boot d first) where
  -- the state behind the read of a sector of the table
  abbrev loaded : BootTable → ℕ → BootTable
  loaded s k = record s {
    cachefirstentry = k * 128;
    buffer = λ i. if ltb i 512 then d.bytes ((first + k) * 512 + i) else s.buffer i;
  }

  ataread-loaded :
      (lba : ℕ) (dst : Block)
      → first ≤ lba
      → lba < first + boot.fatsize32
      → ataread errors lba d dst
        ≡ some ((true, λ i. if ltb i 512 then d.bytes (lba * 512 + i) else dst i))
  unfolding ataread
  ataread-loaded lba dst lo hi =
      let same : lba28 lba ≡ lba = omega (arith, ok.healthy.on_drive, ok.healthy.addressable) in
      rw same
        (ground (arith, ok.healthy.on_drive, ok.healthy.addressable, ok.healthy.sound lba lo hi))

  -- what `fatcache` does with the result of its read
  abbrev store : BootTable → ℕ → Bool × Block → Option (Bool × BootTable)
  store s k (done, buffer) =
      some ((true, record s { cachefirstentry = mul32 k 128; buffer = buffer }))

  fatcache-loaded :
      (k : ℕ) (s : BootTable)
      → s.disk ≡ d
      → s.first_fat ≡ first
      → k < boot.fatsize32
      → fatcache errors boot k s ≡ some ((true, loaded s k))
  unfolding fatcache
  fatcache-loaded k s on_d at_first small =
      let at : add32 s.first_fat k ≡ first + k =
        omega (arith, at_first, small, ok.healthy.on_drive, ok.healthy.addressable) in
      let number : mul32 k 128 ≡ k * 128 = omega (arith, small, ok.numbered) in
      let within : leb boot.fatsize32 k ≡ false = ground (arith, small) in
      if_false _ _ within
      ∙ ap (λ a. ataread errors a s.disk s.buffer >>= store s k) at
      ∙ ap (λ x. ataread errors (first + k) x s.buffer >>= store s k) on_d
      ∙ ap (λ r. r >>= store s k)
          (ataread-loaded (first + k) s.buffer (omega arith) (omega (arith, small)))
      ∙ ap
          (λ n. some (
            (
              true,
              record s {
                cachefirstentry = n;
                buffer = λ i. if ltb i 512 then d.bytes ((first + k) * 512 + i) else s.buffer i;
              },
            )))
          number

  loaded-Cached :
      (k : ℕ) (s : BootTable)
      → s.disk ≡ d
      → s.first_fat ≡ first
      → k < boot.fatsize32
      → Cached boot d first (loaded s k)
  loaded-Cached k s on_d at_first small = record {
    disk = on_d;
    start = at_first;
    sector = k;
    inside = small;
    from = refl;
    held = λ i h. ground arith;
  }

  -- Every sector of the table can be brought into the cache, and the entry stands in it.
  bring_in_lem :
      (c : ℕ) (s : BootTable)
      → c < 128 * boot.fatsize32
      → Cached boot d first s
      → (s' : BootTable) × (bring_in errors boot c s ≡ some s')
        × (Cached boot d first s'
            × ((i : ℕ) → i < 4 → s'.buffer (4 * (c % 128) + i) ≡ d.bytes (first * 512 + 4 * c + i)))
  unfolding bring_in
  bring_in_lem c s small held = elim (Bool-cases (outside s c)) [
    | inl out ↦
        let run = fatcache-loaded (c / 128) s held.disk held.start (omega arith) in
        (
          loaded s (c / 128),
          if_true _ _ out ∙ ap (λ r. r >>= λ p. some p.1) run,
          (
            loaded-Cached (c / 128) s held.disk held.start (omega arith),
            λ i h.
                if_true {b = ltb (4 * (c % 128) + i) 512} _ _ (ground arith)
                ∙ ap d.bytes (omega arith),
          ),
        )
    | inr within ↦ (
      s,
      if_false _ _ within,
      (
        held,
        λ i h.
            let at : held.sector ≡ c / 128 = ground (arith, held.from, held.inside, ok.numbered) in
            held.held (4 * (c % 128) + i) (omega arith) ∙ ap d.bytes (omega (arith, at)),
      ),
    )
  ]

  -- The read of an entry of the table gives the entry that stands on the drive, whichever sector was in
  -- the cache, and leaves a sector of the table there.
  pub fatclustervalue_reads :
      (c : ℕ) (s : BootTable)
      → c < 128 * boot.fatsize32
      → Cached boot d first s
      → (s' : BootTable) × (fatclustervalue errors boot c s ≡ some ((entry_on d first c, s')))
        × Cached boot d first s'
  unfolding fatclustervalue
  fatclustervalue_reads c s small held =
      let (s', run, (held', at)) = bring_in_lem c s small held in
      let same : le32 s'.buffer (4 * (c % 128)) ≡ entry_on d first c =
        le32_ext s'.buffer d.bytes (4 * (c % 128)) (first * 512 + 4 * c) at in
      (
        s',
        ap (λ (r : Option BootTable). r >>= λ x. some ((le32 x.buffer (4 * (c % 128)), x))) run
            ∙ ap (λ (e : ℕ). some ((e, s'))) same,
        held',
      )

  -- what the loop of `fattotalclusters` does with the entry that it reads
  abbrev go_on : ℕ → ℕ → ℕ → ℕ × BootTable → Option (ℕ × ℕ × BootTable)
  go_on fuel count value (next, s') =
      let rest = total_loop errors boot fuel (add32 count 1) next s' in
      if ltb next feend32l then rest else some ((add32 count 1, value, s'))

  total_loop_counts :
      (fuel count : ℕ) {c : ℕ} {cs : List ℕ} (s : BootTable)
      → Chain (entry_on d first) (128 * boot.fatsize32) c cs
      → Cached boot d first s
      → length cs ≤ fuel
      → count + length cs < 2 ^ 32
      → (s' : BootTable) × (total_loop errors boot fuel count c s
          ≡ some ((count + length cs, last_or cs 0, s')))
        × Cached boot d first s'
  unfolding total_loop
  total_loop_counts zero count s (last h e) held enough fits = absurd (omega arith)
  total_loop_counts zero count s (link h e pos small rest) held enough fits = absurd (omega arith)
  total_loop_counts (suc fuel) count s (last {c} h e) held enough fits =
      let (s', run, held') = fatclustervalue_reads c s h held in
      (s', ap (λ r. r >>= go_on fuel count c) run ∙ ground (arith, e), held')
  total_loop_counts (suc fuel) count s (link {c} {d = n} {cs} h e pos small rest) held enough fits =
      let (s', run, held') = fatclustervalue_reads c s h held in
      let (s'', more, held'') =
        total_loop_counts fuel (add32 count 1) s' rest held' (omega arith) (omega arith) in
      (
        s'',
        ap (λ r. r >>= go_on fuel count c) run
            ∙ ap (λ x. go_on fuel count c (x, s')) e
            ∙ if_true _ _ (lt→ltb n feend32l small)
            ∙ more
            ∙ ground (arith, last_of_Chain rest 0 c),
        held'',
      )

  -- On a drive whose first copy of the table lies on sound sectors, of fewer than 2 ^ 25, for the
  -- first cluster of a chain of that table, and a cache that holds one of its sectors:
  -- `fattotalclusters` returns the number of the chain's clusters and the last of them, in that
  -- many rounds, whichever sector of the table was in the cache, and leaves a sector of the table
  -- there.
  pub fattotalclusters_counts :
      (fuel c : ℕ) (cs : List ℕ) (s : BootTable)
      → Chain (entry_on d first) (128 * boot.fatsize32) c cs
      → Cached boot d first s
      → length cs ≤ fuel
      → length cs < 2 ^ 32
      → (s' : BootTable) × (fattotalclusters errors boot fuel c s
          ≡ some ((length cs, last_or cs 0, s')))
        × Cached boot d first s'
  unfolding fattotalclusters
  fattotalclusters_counts fuel c cs s ch held enough fits =
      let (s', run, held') = total_loop_counts fuel 0 s ch held enough (omega arith) in
      (s', run ∙ ap (λ (n : ℕ). some ((n, last_or cs 0, s'))) (omega arith), held')

  -- `fatinit` on a FAT32 volume brings the first sector of the table into the cache.
  fatinit-Cached :
      (s : BootTable)
      → s.disk ≡ d
      → boot.reservedsectors ≡ first
      → 0 < boot.fatsize32
      → (s' : BootTable) × (fatinit errors boot 0 s ≡ some s') × Cached boot d first s'
  unfolding fatinit
  fatinit-Cached s on_d at_first some_sectors =
      let begun = record s { first_fat = boot.reservedsectors } in
      (
        loaded begun 0,
        ap (λ (r : Option (Bool × BootTable)). r >>= λ p. some p.1)
            (fatcache-loaded 0 begun on_d at_first some_sectors),
        loaded-Cached 0 begun on_d at_first some_sectors,
      )
