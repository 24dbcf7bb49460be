-- ===== src/Fat/Alloc.antt =====
-- `fatallocclusters` appends free clusters to a chain.
use mathlib.Core.Path.{subst}
use legendary_journey.Base.{
  ℕ, suc, ◌+◌, ◌*◌, ◌≤◌, ◌<◌, ◌≡◌, ◌≢◌, ◌∙◌, inl, inr, refl, sym, true, false, List, [], ◌∷◌, ◌++◌,
  arith, ◌==◌, if◌then◌else◌, Bool-cases, length, has, last_or,
}
use legendary_journey.Errno.{enospc}
use legendary_journey.Fat.{BootSector, Fat, fefree, feend32l, fatsetcluster}
use legendary_journey.Fat.Covered.{
  Covered, entries, table, fatsetcluster_covered, fatsetcluster-Covered, table-fatsetcluster,
}
use legendary_journey.Fat.Chains.{alloc_loop, fatallocclusters}
use legendary_journey.Fat.Walk.{
  Chain, last, link, last_of_Chain, last_on_Chain, Chain-distinct, Chain-used,
}
use legendary_journey.Fat.Find.{fatfindfreecluster_finds, fatfindfreecluster_gives_up}

-- The list holds the free entries of `t` in order, the first of them from `start` on, and each lies
-- in the part of the table that the search looks at.
pub data FreeRun (t : ℕ → ℕ) (n : ℕ) : ℕ → List ℕ → Type 0 where
  enough : {start : ℕ} → FreeRun t n start []
  next :
      {start f : ℕ} {fs : List ℕ}
      → 4 * start ≤ n
      → start ≤ f
      → f + 3 * start < n
      → t f ≡ fefree
      → ((x : ℕ) → start ≤ x → x < f → t x ≢ fefree)
      → FreeRun t n (f + 1) fs
      → FreeRun t n start (f ∷ fs)

module _ {t : ℕ → ℕ} {n : ℕ} where
  run_free :
      {start : ℕ} {fs : List ℕ} (x : ℕ)
      → FreeRun t n start fs
      → has x fs ≡ true
      → (t x ≡ fefree) × (start ≤ x) × (x < n)
  run_free x enough m = absurd (cc)
  run_free x (next quarter lo hi e used rest) m = ground (arith, run_free x rest)

  run_frame :
      {u : ℕ → ℕ} {start : ℕ} {fs : List ℕ}
      → FreeRun t n start fs
      → ((x : ℕ) → start ≤ x → (u x == fefree) ≡ (t x == fefree))
      → FreeRun u n start fs
  run_frame enough same = enough
  run_frame (next {f} quarter lo hi e used rest) same =
      next quarter lo hi (ground (arith, same f)) (λ x lo' hi' z. ground (arith, same x, used x))
        (run_frame rest (λ x lo'. same x (omega arith)))

module _ (boot : BootSector) where
  -- the loop of `fatallocclusters` and the end mark behind it
  abbrev grown : List ℕ → ℕ → Fat → Fat
  grown fs top s =
      let (top', s') = alloc_loop boot (length fs) top s in fatsetcluster boot top' feend32l s'

  record Grown (s : Fat) (top : ℕ) (fs : List ℕ) (s' : Fat) : Type 0 where
    covered : Covered boot s'
    chain : Chain (table s') (entries boot) top (top ∷ fs)
    kept : (x : ℕ) → has x (top ∷ fs) ≡ false → table s' x ≡ table s x

  -- one round: the search finds `f`, and `top` is linked to it
  alloc_step :
      (f : ℕ) (fs : List ℕ) (top : ℕ) (s : Fat)
      → Covered boot s
      → FreeRun (table s) (entries boot) s.search_start (f ∷ fs)
      → alloc_loop boot (suc (length fs)) top s
        ≡ alloc_loop boot
            (length fs)
            f
            (fatsetcluster boot top f (record s { search_start = f + 1 }))
  unfolding alloc_loop
  alloc_step f fs top s cov (next quarter lo hi e used rest) =
      rw (fatfindfreecluster_finds boot s f cov quarter lo hi e used, alloc_loop) refl

  Covered-search : (s : Fat) (k : ℕ) → Covered boot s → Covered boot (record s { search_start = k })
  Covered-search s k cov = record {
    sector_size = cov.sector_size;
    some_sectors = cov.some_sectors;
    few_sectors = cov.few_sectors;
    first = cov.first;
    starting = cov.starting;
    buffered = cov.buffered;
  }

  -- A cluster that the search has passed, or that is in use, is not among those to come.
  not_in_run :
      (s : Fat) (top : ℕ) (fs : List ℕ)
      → (s.search_start ≤ top → table s top ≢ fefree)
      → FreeRun (table s) (entries boot) s.search_start fs
      → has top fs ≡ false
  not_in_run s top fs used run = elim (Bool-cases (has top fs)) [
    | inl m ↦ let (free, lo, hi) = run_free top run m in absurd (used lo free)
    | inr out ↦ out
  ]

  -- the state after one round
  module _ (s : Fat) (top f : ℕ) (cov : Covered boot s) (h : top < entries boot)
      (small : f < entries boot) (pos : 0 < f) where
    abbrev linked : Fat
    linked = fatsetcluster boot top f (record s { search_start = f + 1 })

    linked-table : (x : ℕ) → table linked x ≡ (if x == top then f else table s x)
    linked-table x =
        table-fatsetcluster boot (record s { search_start = f + 1 }) (Covered-search s (f + 1) cov)
          top f x h (omega (arith, cov.few_sectors))

    linked-start : linked.search_start ≡ f + 1
    linked-start =
        rw
          (fatsetcluster_covered boot (record s { search_start = f + 1 })
            (Covered-search s (f + 1) cov) top f h)
          (ground arith)

    linked-Covered : Covered boot linked
    linked-Covered =
        fatsetcluster-Covered boot (record s { search_start = f + 1 })
          (Covered-search s (f + 1) cov) top f h

    linked-run :
        (fs : List ℕ)
        → (f + 1 ≤ top → table s top ≢ fefree)
        → FreeRun (table s) (entries boot) (f + 1) fs
        → FreeRun (table linked) (entries boot) linked.search_start fs
    linked-run fs used run =
        subst (λ (k : ℕ). FreeRun (table linked) (entries boot) k fs) (sym linked-start)
          (run_frame run (λ x lo. ground (arith, linked-table x, used)))

  grow :
      (fs : List ℕ) (top : ℕ) (s : Fat)
      → Covered boot s
      → top < entries boot
      → 0 < s.search_start
      → (s.search_start ≤ top → table s top ≢ fefree)
      → FreeRun (table s) (entries boot) s.search_start fs
      → ((alloc_loop boot (length fs) top s).0 ≡ last_or fs top) × Grown s top fs (grown fs top s)
  unfolding alloc_loop
  grow [] top s cov h pos used run = (
    refl,
    record {
      covered = fatsetcluster-Covered boot s cov top feend32l h;
      chain = last h (ground (arith, table-fatsetcluster boot s cov top feend32l top h));
      kept = λ x out. ground (arith, table-fatsetcluster boot s cov top feend32l x h);
    },
  )
  grow (f ∷ fs) top s cov h pos used (next quarter lo hi e before rest) =
      let out = not_in_run s top (f ∷ fs) used (next quarter lo hi e before rest) in
      let small : f < entries boot = omega arith in
      let f_pos : 0 < f = omega arith in
      let entry = linked-table s top f cov h small f_pos in
      let (end, g) =
        grow fs f (linked s top f cov h small f_pos) (linked-Covered s top f cov h small f_pos)
          small (omega (arith, linked-start s top f cov h small f_pos))
          (λ le. absurd (omega (arith, linked-start s top f cov h small f_pos)))
          (linked-run s top f cov h small f_pos fs (λ le. used (omega arith)) rest) in
      rw (alloc_step f fs top s cov (next quarter lo hi e before rest)) (
        end,
        record {
          covered = g.covered;
          chain =
              link h (g.kept top out ∙ ground (arith, entry top)) f_pos
                (omega (arith, cov.few_sectors)) g.chain;
          kept = λ x other. g.kept x (ground arith) ∙ ground (arith, entry x);
        },
      )

-- Joining a chain to the one that its last cluster now begins.
Chain-extend :
    {t u : ℕ → ℕ} {n : ℕ} {c : ℕ} {cs : List ℕ} (fs : List ℕ)
    → Chain t n c cs
    → Chain u n (last_or cs 0) (last_or cs 0 ∷ fs)
    → ((x : ℕ) → has x cs ≡ true → x ≢ last_or cs 0 → u x ≡ t x)
    → Chain u n c (cs ++ fs)
Chain-extend fs (last h e) more same = more
Chain-extend {u} {n} fs (link {c} {d} {cs} h e pos small rest) more same =
    let end = last_of_Chain rest c 0 in
    let here = Chain-distinct (link h e pos small rest) in
    link h (same c (ground arith) (λ z. ground (arith, here, last_on_Chain rest, z, end)) ∙ e) pos
      small
      (Chain-extend fs rest (subst (λ (k : ℕ). Chain u n k (k ∷ fs)) end more)
        (λ x m ne. same x (ground arith) (λ z. ne (z ∙ end))))

-- the loop, the end mark and the early return put together
alloc_result :
    (boot : BootSector) (top f : ℕ) (fs : List ℕ) (s : Fat)
    → fatallocclusters boot top (length (f ∷ fs)) s
      ≡ ((alloc_loop boot (length (f ∷ fs)) top s).0, grown boot (f ∷ fs) top s)
unfolding fatallocclusters
alloc_result boot top f fs s = ground arith

-- On a volume of 512-byte sectors whose table fits into the cache and stands there, with a search
-- that does not start at cluster 0, for a cluster that ends a chain, and free clusters that the
-- search can see: `fatallocclusters` appends exactly those clusters to the chain in order, ends it
-- behind the last of them, returns that one, and changes no entry outside the old end and the new
-- clusters.
pub fatallocclusters_lem :
    (boot : BootSector) (s : Fat) (c : ℕ) (cs : List ℕ) (f : ℕ) (fs : List ℕ)
    → Covered boot s
    → 0 < s.search_start
    → Chain (table s) (entries boot) c cs
    → FreeRun (table s) (entries boot) s.search_start (f ∷ fs)
    → let (end, s') = fatallocclusters boot (last_or cs 0) (length (f ∷ fs)) s in
      (end ≡ last_or fs f)
      × Covered boot s'
      × Chain (table s') (entries boot) c (cs ++ f ∷ fs)
      × ((x : ℕ) → has x (last_or cs 0 ∷ f ∷ fs) ≡ false → table s' x ≡ table s x)
fatallocclusters_lem boot s c cs f fs cov pos ch run =
    let top = last_or cs 0 in
    let (h, used) = Chain-used ch top (last_on_Chain ch) in
    let (end, g) = grow boot (f ∷ fs) top s cov h pos (λ _. used) run in
    rw (alloc_result boot top f fs s) (
      end,
      g.covered,
      Chain-extend (f ∷ fs) ch g.chain
          (λ x m ne. g.kept x (ground (arith, run_free x run, (Chain-used ch x m).1))),
      g.kept,
    )

-- Where the search for the first new cluster finds nothing in the part of the table that it looks at,
-- `fatallocclusters` goes on all the same: it answers with cluster 0, writes an end mark into entry 0,
-- and marks the old end of the chain, which is still in use, as free.
pub fatallocclusters_full :
    (boot : BootSector) (s : Fat) (top : ℕ)
    → Covered boot s
    → 4 * s.search_start ≤ entries boot
    → ((x : ℕ) → s.search_start ≤ x → x + 3 * s.search_start < entries boot → table s x ≢ fefree)
    → top < entries boot
    → 0 < top
    → let (end, s') = fatallocclusters boot top 1 s in
      (end ≡ 0) × (table s' top ≡ fefree) × (table s' 0 ≡ feend32l)
unfolding fatallocclusters alloc_loop
fatallocclusters_full boot s top cov quarter used h pos =
    let s₁ : Fat = record s { search_start = entries boot; errno = enospc } in
    let cov₁ : Covered boot s₁ = record {
      sector_size = cov.sector_size;
      some_sectors = cov.some_sectors;
      few_sectors = cov.few_sectors;
      first = cov.first;
      starting = cov.starting;
      buffered = cov.buffered;
    } in
    let s₂ = fatsetcluster boot top fefree s₁ in
    let cov₂ = fatsetcluster-Covered boot s₁ cov₁ top fefree h in
    let set = λ (x : ℕ).
      table-fatsetcluster boot s₂ cov₂ 0 feend32l x (omega (arith, cov.some_sectors))
        (omega arith) in
    rw (fatfindfreecluster_gives_up boot s cov quarter used, alloc_loop)
      (
        refl,
        ground (arith, set top, table-fatsetcluster boot s₁ cov₁ top fefree top h),
        ground (arith, set 0),
      )
