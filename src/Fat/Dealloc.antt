-- ===== src/Fat/Dealloc.antt =====
-- `fatdeallocclusters` cuts a chain behind its first cluster and frees the rest.
use legendary_journey.Base.{
  ℕ, zero, suc, ◌≤◌, ◌<◌, ◌≡◌, ◌∙◌, refl, ap, some, List, ◌∷◌, arith, ◌==◌, if◌then◌else◌, lt→ltb,
  le→ltb, length, has,
}
use legendary_journey.Fat.{BootSector, Fat, fefree, feend32l, fatsetcluster}
use legendary_journey.Fat.Covered.{
  Covered, entries, table, fatclustervalue_covered, fatsetcluster-Covered, table-fatsetcluster,
}
use legendary_journey.Fat.Chains.{dealloc_loop, fatdeallocclusters}
use legendary_journey.Fat.Walk.{Chain, last, link, Chain-frame, Chain-distinct, rest_of}

module _ (boot : BootSector) where
  -- What the loop leaves: the clusters of the list are free, every other entry is as it was.
  record Freed (s : Fat) (cs : List ℕ) (s' : Fat) : Type 0 where
    covered : Covered boot s'
    freed : (x : ℕ) → table s' x ≡ (if has x cs then fefree else table s x)

  dealloc_step :
      (fuel : ℕ) (s : Fat) (c : ℕ)
      → Covered boot s
      → c < entries boot
      → dealloc_loop boot (suc fuel) c s
        ≡ dealloc_loop boot fuel (table s c) (fatsetcluster boot c fefree s)
  unfolding dealloc_loop
  dealloc_step fuel s c cov h =
      rw
        (fatclustervalue_covered boot s cov c h, lt→ltb c feend32l (omega (arith, cov.few_sectors)))
        refl

  dealloc_end :
      (fuel : ℕ) (s : Fat) (c : ℕ) → feend32l ≤ c → dealloc_loop boot (suc fuel) c s ≡ some s
  unfolding dealloc_loop
  dealloc_end fuel s c h = rw (le→ltb c feend32l h) refl

  dealloc_loop_lem :
      (fuel : ℕ) (s : Fat) {c : ℕ} {cs : List ℕ}
      → Covered boot s
      → Chain (table s) (entries boot) c cs
      → length cs < fuel
      → (s' : Fat) × (dealloc_loop boot fuel c s ≡ some s') × Freed s cs s'
  dealloc_loop_lem zero s cov ch enough = absurd (omega arith)
  dealloc_loop_lem (suc zero) s cov (last h e) enough = absurd (omega arith)
  dealloc_loop_lem (suc (suc fuel)) s cov (last {c} h e) enough =
      let s' = fatsetcluster boot c fefree s in
      (
        s',
        dealloc_step (suc fuel) s c cov h ∙ dealloc_end fuel s' (table s c) e,
        record {
          covered = fatsetcluster-Covered boot s cov c fefree h;
          freed = λ x. ground (arith, table-fatsetcluster boot s cov c fefree x h);
        },
      )
  dealloc_loop_lem (suc fuel) s cov (link {c} {d} {cs} h e pos below rest) enough =
      let s₁ = fatsetcluster boot c fefree s in
      let cov₁ = fatsetcluster-Covered boot s cov c fefree h in
      let set = λ (x : ℕ). table-fatsetcluster boot s cov c fefree x h (omega arith) in
      let out = Chain-distinct (link h e pos below rest) in
      let rest₁ = Chain-frame {u = table s₁} rest (λ x m. ground (arith, set x, out)) in
      let (s', run, after) = dealloc_loop_lem fuel s₁ cov₁ rest₁ (omega arith) in
      (
        s',
        dealloc_step fuel s c cov h ∙ ap (λ (k : ℕ). dealloc_loop boot fuel k s₁) e ∙ run,
        record { covered = after.covered; freed = λ x. ground (arith, after.freed x, set x) },
      )

  -- the loop, started behind the first cluster of a chain
  dealloc_rest :
      (fuel : ℕ) (s : Fat) {c : ℕ} {xs : List ℕ}
      → Covered boot s
      → Chain (table s) (entries boot) c xs
      → length (rest_of xs) < fuel
      → (s' : Fat) × (dealloc_loop boot fuel (table s c) s ≡ some s')
        × Freed s (rest_of xs) s'
        × (c < entries boot)
  dealloc_rest zero s cov ch enough = absurd (omega arith)
  dealloc_rest (suc fuel) s cov (last {c} h e) enough =
      (s, dealloc_end fuel s (table s c) e, record { covered = cov; freed = λ x. refl }, h)
  dealloc_rest (suc fuel) s cov (link {c} {d} h e pos below rest) enough =
      let (s', run, after) = dealloc_loop_lem (suc fuel) s cov rest enough in
      (s', ap (λ (k : ℕ). dealloc_loop boot (suc fuel) k s) e ∙ run, after, h)

-- On a volume of 512-byte sectors whose table fits into the cache and stands there, and the first
-- cluster of a chain: `fatdeallocclusters` ends within as many rounds as the chain has clusters,
-- returns that cluster, makes it the end of its chain, frees all others of the chain and changes no
-- other entry.
pub fatdeallocclusters_lem :
    (boot : BootSector) (s : Fat) (fuel c : ℕ) (cs : List ℕ)
    → Covered boot s
    → Chain (table s) (entries boot) c (c ∷ cs)
    → length cs < fuel
    → (s' : Fat) × (fatdeallocclusters boot fuel c s ≡ some (c, s'))
      × Covered boot s'
      × ((x : ℕ)
          → table s' x ≡ (if x == c then feend32l else if has x cs then fefree else table s x))
unfolding fatdeallocclusters
fatdeallocclusters_lem boot s fuel c cs cov ch enough =
    let (s₁, run, after, h) = dealloc_rest boot fuel s cov ch enough in
    (
      fatsetcluster boot c feend32l s₁,
      rw (fatclustervalue_covered boot s cov c h, run, fatdeallocclusters) refl,
      fatsetcluster-Covered boot s₁ after.covered c feend32l h,
      λ x. ground (arith, table-fatsetcluster boot s₁ after.covered c feend32l x h, after.freed x),
    )
