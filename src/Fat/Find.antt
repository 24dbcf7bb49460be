-- ===== src/Fat/Find.antt =====
-- The search for a free cluster.
use native.Mathlib.Nat.{mod-eq_of_lt, add-mod_left}
use legendary_journey.Base.{
  ℕ, zero, suc, ◌+◌, ◌-◌, ◌*◌, ◌≤◌, ◌<◌, ◌^◌, ◌%◌, ◌≡◌, ◌≢◌, ◌∙◌, inl, inr, refl, ap, false, arith,
  ◌==◌, Bool-cases, add32, sub32, mul32,
}
use legendary_journey.Errno.{enospc}
use legendary_journey.Fat.{BootSector, Fat, fefree}
use legendary_journey.Fat.Covered.{
  Covered, entries, table, fatclustervalue_covered, fatclustervalue_wraps,
}
use legendary_journey.Fat.Chains.{find_loop, fatfindfreecluster, table_entries}

-- what a search that found `c` from `start` on leaves behind
abbrev pub taken_at : Fat → ℕ → Fat
taken_at s c = record s { search_start = add32 c 1 }

abbrev pub exhausted : BootSector → Fat → Fat
exhausted boot s = record s { search_start = entries boot; errno = enospc }

past :
    (s : Fat) (current free : ℕ)
    → current ≤ free
    → table s free ≡ fefree
    → (table s current == fefree) ≡ false
    → current < free
past s current free lo e miss = ground arith

not_free : (v : ℕ) → v ≢ fefree → (v == fefree) ≡ false
not_free v h = ground arith

module _ (boot : BootSector) (s : Fat) (cov : Covered boot s) where
  table_entries_covered : table_entries boot ≡ entries boot
  table_entries_covered = rw cov.sector_size (omega (arith, cov.few_sectors))

  -- The loop over `left` entries from `current` on, none of them past the table: it stops at the
  -- first free one.
  find_loop_finds :
      (left current free : ℕ)
      → current ≤ free
      → free < current + left
      → free < entries boot
      → table s free ≡ fefree
      → ((x : ℕ) → current ≤ x → x < free → table s x ≢ fefree)
      → find_loop boot left current s ≡ (free, taken_at s free)
  unfolding find_loop
  find_loop_finds zero current free lo hi h e used = absurd (omega arith)
  find_loop_finds (suc left) current free lo hi h e used =
      let next : add32 current 1 ≡ current + 1 = omega (arith, cov.few_sectors) in
      rw (fatclustervalue_covered boot s cov current (omega arith))
        (elim (Bool-cases (table s current == fefree)) [
          | inl hit ↦
              let here : current ≡ free = ground (arith, used current) in ground (arith, here, hit)
          | inr miss ↦
              rw (miss, next)
                (find_loop_finds left (current + 1) free
                  (omega (arith, past s current free lo e miss)) (omega arith) h e
                  (λ x lo' hi'. used x (omega arith) hi'))
        ])

  find_loop_fails :
      (left current : ℕ)
      → current + left ≤ entries boot
      → ((x : ℕ) → current ≤ x → x < current + left → table s x ≢ fefree)
      → find_loop boot left current s ≡ (0, exhausted boot s)
  unfolding find_loop
  find_loop_fails zero current h used = rw table_entries_covered refl
  find_loop_fails (suc left) current h used =
      let next : add32 current 1 ≡ current + 1 = omega (arith, cov.few_sectors) in
      rw (fatclustervalue_covered boot s cov current (omega arith)) (
        rw (not_free (table s current) (used current (omega arith) (omega arith)), next)
          (find_loop_fails left (current + 1) (omega arith)
            (λ x lo hi. used x (omega arith) (omega arith))))

-- On a volume of 512-byte sectors whose table fits into the cache and stands there, where the
-- search starts in the first quarter of the table, and the first free cluster from there on comes
-- before the place where the search gives up, which is three times the start before the end of the
-- table: `fatfindfreecluster` returns that cluster, records the cluster behind it as the next start
-- and changes no entry.
pub fatfindfreecluster_finds :
    (boot : BootSector) (s : Fat) (free : ℕ)
    → Covered boot s
    → 4 * s.search_start ≤ entries boot
    → s.search_start ≤ free
    → free + 3 * s.search_start < entries boot
    → table s free ≡ fefree
    → ((x : ℕ) → s.search_start ≤ x → x < free → table s x ≢ fefree)
    → fatfindfreecluster boot s ≡ (free, record s { search_start = free + 1 })
unfolding fatfindfreecluster
fatfindfreecluster_finds boot s free cov quarter lo hi e used =
    let rounds : sub32 (table_entries boot) (mul32 s.search_start 4)
        ≡ entries boot - 4 * s.search_start =
      omega (arith, table_entries_covered boot s cov, cov.few_sectors) in
    let next : add32 free 1 ≡ free + 1 = omega (arith, cov.few_sectors) in
    rw (rounds) (
      find_loop_finds boot s cov (entries boot - 4 * s.search_start) s.search_start free lo
        (omega arith) (omega arith) e used
      ∙ ap (λ (k : ℕ). (free, record s { search_start = k })) next)

-- Where the search starts in the first quarter of the table and meets no free entry in the part that
-- it looks at, it reports ENOSPC and cluster 0, although every entry behind that part may be free:
-- from start `k` on it looks at `n - 4 * k` entries and never at the last `3 * k` of the table.
pub fatfindfreecluster_gives_up :
    (boot : BootSector) (s : Fat)
    → Covered boot s
    → 4 * s.search_start ≤ entries boot
    → ((x : ℕ) → s.search_start ≤ x → x + 3 * s.search_start < entries boot → table s x ≢ fefree)
    → fatfindfreecluster boot s ≡ (0, record s { search_start = entries boot; errno = enospc })
unfolding fatfindfreecluster
fatfindfreecluster_gives_up boot s cov quarter used =
    let rounds : sub32 (table_entries boot) (mul32 s.search_start 4)
        ≡ entries boot - 4 * s.search_start =
      omega (arith, table_entries_covered boot s cov, cov.few_sectors) in
    rw (rounds) (
      find_loop_fails boot s cov (entries boot - 4 * s.search_start) s.search_start (omega arith)
        (λ x lo hi. used x lo (omega arith)))

module _ (boot : BootSector) (s : Fat) (cov : Covered boot s) where
  wrapped : (x : ℕ) → x < entries boot → (entries boot + x) % entries boot ≡ x
  wrapped x h = add-mod_left (entries boot) x ∙ mod-eq_of_lt h

  find_loop_wraps :
      (left x free : ℕ)
      → x ≤ free
      → free < x + left
      → free < entries boot
      → table s free ≡ fefree
      → ((y : ℕ) → x ≤ y → y < free → table s y ≢ fefree)
      → find_loop boot left (entries boot + x) s
        ≡ (entries boot + free, record s { search_start = entries boot + free + 1 })
  unfolding find_loop
  find_loop_wraps zero x free lo hi h e used = absurd (omega arith)
  find_loop_wraps (suc left) x free lo hi h e used =
      let next : add32 (entries boot + x) 1 ≡ entries boot + (x + 1) =
        omega (arith, cov.few_sectors) in
      rw (fatclustervalue_wraps boot s cov (entries boot + x), wrapped x (omega arith))
        (elim (Bool-cases (table s x == fefree)) [
          | inl hit ↦
              let here : x ≡ free = ground (arith, used x) in
              let after : add32 (entries boot + x) 1 ≡ entries boot + free + 1 =
                omega (arith, here, cov.few_sectors) in
              ground (arith, here, hit, after)
          | inr miss ↦
              rw (miss, next)
                (find_loop_wraps left (x + 1) free (omega (arith, past s x free lo e miss))
                  (omega arith) h e (λ y lo' hi'. used y (omega arith) hi'))
        ])

-- Once a search has reported ENOSPC the next start is the end of the table. From there the search
-- runs past the table, and answers with the number of the first free entry plus the size of the
-- table: a cluster that the volume does not have.
pub fatfindfreecluster_past_end :
    (boot : BootSector) (s : Fat) (free : ℕ)
    → Covered boot s
    → s.search_start ≡ entries boot
    → free < entries boot
    → table s free ≡ fefree
    → ((x : ℕ) → x < free → table s x ≢ fefree)
    → fatfindfreecluster boot s
      ≡ (entries boot + free, record s { search_start = entries boot + free + 1 })
unfolding fatfindfreecluster
fatfindfreecluster_past_end boot s free cov at_end h e used =
    let rounds : sub32 (table_entries boot) (mul32 s.search_start 4) ≡ 2 ^ 32 - 3 * entries boot =
      omega (arith, table_entries_covered boot s cov, cov.few_sectors, cov.some_sectors) in
    let start : s.search_start ≡ entries boot + 0 = omega (arith, at_end) in
    rw rounds (
      ap (λ (k : ℕ). find_loop boot (2 ^ 32 - 3 * entries boot) k s) start
      ∙ find_loop_wraps boot s cov (2 ^ 32 - 3 * entries boot) 0 free (omega arith)
          (omega (arith, cov.few_sectors)) h e (λ y lo hi. used y hi))
