-- ===== src/Fat/Covered.antt =====
-- A table that fits into the cache is read and written at its own entries, and never reloaded.
use native.Mathlib.Nat.{mod-eq_of_lt}
use legendary_journey.Base.{
  ℕ, ◌*◌, ◌%◌, ◌^◌, ◌≤◌, ◌<◌, ◌≡◌, ◌∙◌, refl, ap, true, ◌&&◌, arith, ltb, ◌==◌, if◌then◌else◌,
  sub32, le32, put32, le32-put32_self, le32-put32_ne,
}
use legendary_journey.Fat.{
  BootSector, Fat, window, bring_in, fatclustervalue, fatsetcluster, fefree,
}

-- The whole table, at most eight sectors, is in the cache.
pub record Covered (boot : BootSector) (s : Fat) : Type 0 where
  pub sector_size : boot.bytespersector ≡ 512
  pub some_sectors : 0 < boot.fatsize32
  pub few_sectors : boot.fatsize32 ≤ 8
  pub first : s.cache.firstentry ≡ 0
  pub starting : s.cache.startingsector ≡ 0
  pub buffered : s.cache.sectorsbuffered ≡ boot.fatsize32

-- the entries of the table
abbrev pub entries : BootSector → ℕ
entries boot = 128 * boot.fatsize32

-- the entry of a cluster in the cached table
abbrev pub table : Fat → ℕ → ℕ
table s c = le32 s.cache.buffer (4 * c)

module _ (boot : BootSector) (s : Fat) (cov : Covered boot s) where
  window_covered : window s.cache ≡ entries boot
  window_covered = omega (arith, cov.buffered, cov.few_sectors)

  bring_in_covered : (c : ℕ) → bring_in boot c s ≡ s
  unfolding bring_in
  bring_in_covered c = ground (arith, cov.first, cov.few_sectors, window_covered)

  -- a number past the table reads the entry that it wraps round to
  pub fatclustervalue_wraps : (c : ℕ) → fatclustervalue boot c s ≡ (table s (c % entries boot), s)
  unfolding fatclustervalue
  fatclustervalue_wraps c = rw (bring_in_covered c, window_covered) refl

  -- Reading an entry of the table gives that entry and changes nothing.
  pub fatclustervalue_covered :
      (c : ℕ) → c < entries boot → fatclustervalue boot c s ≡ (table s c, s)
  fatclustervalue_covered c h =
      fatclustervalue_wraps c ∙ ap (λ (k : ℕ). (table s k, s)) (mod-eq_of_lt h)

  pub fatsetcluster_covered :
      (c v : ℕ)
      → c < entries boot
      → fatsetcluster boot c v s ≡ record s {
        cache = record s.cache { dirty = true; buffer = put32 s.cache.buffer (4 * c) v };
        search_start = if (v == fefree) && ltb c s.search_start then sub32 c 1 else s.search_start;
      }
  unfolding fatsetcluster
  fatsetcluster_covered c v h = rw (bring_in_covered c, window_covered, mod-eq_of_lt h) refl

  pub fatsetcluster-Covered : (c v : ℕ) → c < entries boot → Covered boot (fatsetcluster boot c v s)
  fatsetcluster-Covered c v h = rw (fatsetcluster_covered c v h) (record {
    sector_size = cov.sector_size;
    some_sectors = cov.some_sectors;
    few_sectors = cov.few_sectors;
    first = cov.first;
    starting = cov.starting;
    buffered = cov.buffered;
  })

  -- Writing an entry changes that entry of the table and no other.
  pub table-fatsetcluster :
      (c v d : ℕ)
      → c < entries boot
      → v < 2 ^ 32
      → table (fatsetcluster boot c v s) d ≡ (if d == c then v else table s d)
  table-fatsetcluster c v d h hv = rw (fatsetcluster_covered c v h) (
      ground (
        arith,
        le32-put32_self s.cache.buffer (4 * c) v,
        le32-put32_ne s.cache.buffer (4 * c) (4 * d) v,
      ))
