-- ===== src/File/Resize.antt =====
-- What `fileresize` does to the chain of a file that shrinks.
use legendary_journey.Base.{
  ℕ, zero, suc, ◌+◌, ◌-◌, ◌/◌, ◌≤◌, ◌<◌, ◌^◌, ◌≡◌, ◌∙◌, refl, ap, true, false, some, List, [], ◌∷◌,
  arith, ltb, ◌==◌, Bool-cases, inl, inr, if◌then◌else◌, last_or, length-drop, sub32, length,
  get_or, take, drop, has,
}
use legendary_journey.Fat.{BootSector, Fat, fefree, feend32l, fatcommit}
use legendary_journey.Fat.Covered.{Covered, entries, table}
use legendary_journey.Fat.Walk.{Chain, last, link, Chain-distinct, Chain-frame, fattraverse_lem}
use legendary_journey.Fat.Chains.{fattraverse, fatdeallocclusters}
use legendary_journey.Fat.Dealloc.{fatdeallocclusters_lem}
use legendary_journey.File.{File, capacity, cluster_bytes, resized, shrink, fileresize}

has-get_or : (xs : List ℕ) (k d : ℕ) → k < length xs → has (get_or xs k d) xs ≡ true
has-get_or [] k d h = absurd (omega arith)
has-get_or (x ∷ xs) zero d h = ground arith
has-get_or (x ∷ xs) (suc k) d h = ground (arith, has-get_or xs k d (omega arith))

has-drop : (y : ℕ) (xs : List ℕ) (k : ℕ) → has y xs ≡ false → has y (drop k xs) ≡ false
has-drop y xs zero h = h
has-drop y [] (suc k) h = refl
has-drop y (x ∷ xs) (suc k) h = has-drop y xs k (ground arith)

-- the entries after the chain is cut behind its cluster number `k`
abbrev Cut : (ℕ → ℕ) → (ℕ → ℕ) → List ℕ → ℕ → Type 0
Cut t u cs k =
    (x : ℕ)
    → u x
      ≡ (if x == get_or cs k 0 then feend32l else if has x (drop (suc k) cs) then fefree else t x)

module _ {t : ℕ → ℕ} {n : ℕ} where
  Chain-drop :
      {c : ℕ} {cs : List ℕ} (k : ℕ)
      → Chain t n c cs
      → k < length cs
      → Chain t n (get_or cs k 0) (get_or cs k 0 ∷ drop (suc k) cs)
  Chain-drop zero (last h e) inside = last h e
  Chain-drop zero (link h e some_mark small rest) inside = link h e some_mark small rest
  Chain-drop (suc k) (last h e) inside = absurd (omega arith)
  Chain-drop (suc k) (link h e some_mark small rest) inside = Chain-drop k rest (omega arith)

  Chain-take :
      {u : ℕ → ℕ} {c : ℕ} {cs : List ℕ} (k : ℕ)
      → Chain t n c cs
      → k < length cs
      → Cut t u cs k
      → Chain u n c (take (suc k) cs)
  Chain-take {u} zero (last {c} h e) inside cut = last h (ground (arith, cut c))
  Chain-take {u} zero (link {c} h e some_mark small rest) inside cut =
      last h (ground (arith, cut c))
  Chain-take (suc k) (last h e) inside cut = absurd (omega arith)
  Chain-take {u} (suc k) (link {c} {d} {cs} h e some_mark small rest) inside cut =
      let out = Chain-distinct (link h e some_mark small rest) in
      let behind = has-drop c cs (suc k) out in
      let at = has-get_or cs k 0 (omega arith) in
      let other : (c == get_or cs k 0) ≡ false = elim (Bool-cases (c == get_or cs k 0)) [
        | inl same ↦
            let here : c ≡ get_or cs k 0 = ground (arith, same) in
            absurd (ground (arith, ap (λ (x : ℕ). has x cs) here, at, out))
        | inr away ↦ away
      ] in
      let kept : u c ≡ d = ground (arith, cut c, behind, other, e) in
      link h kept some_mark small (Chain-take k rest (omega arith) cut)

table-fatcommit : (boot : BootSector) (s : Fat) (c : ℕ) → table (fatcommit boot s) c ≡ table s c
unfolding fatcommit
table-fatcommit boot s c = ground arith

get_or_default : (xs : List ℕ) (k a b : ℕ) → k < length xs → get_or xs k a ≡ get_or xs k b
get_or_default [] k a b h = absurd (omega arith)
get_or_default (x ∷ xs) zero a b h = refl
get_or_default (x ∷ xs) (suc k) a b h = get_or_default xs k a b (omega arith)

shrink_run :
    (boot : BootSector) (s s' : Fat) (file : File) (size fuel kept at end : ℕ)
    → sub32 file.totalclusters (sub32 (capacity boot file) size / cluster_bytes boot) ≡ kept
    → fattraverse boot file.firstcluster kept s ≡ (at, s)
    → fatdeallocclusters boot fuel at s ≡ some (end, s')
    → shrink boot fuel file size s ≡ some (resized boot file size kept end s')
unfolding shrink
shrink_run boot s s' file size fuel kept at end same found cut =
    rw (same, found, cut, shrink) (ap (λ (k : ℕ). some (resized boot file size k end s')) same)

resize_run :
    (boot : BootSector) (s : Fat) (file : File) (size fuel : ℕ)
    → file.opened ≡ true
    → size < capacity boot file
    → fileresize boot fuel (some file) size s ≡ shrink boot fuel file size s
unfolding fileresize
resize_run boot s file size fuel open_file less =
    let no_more : ltb (capacity boot file) size ≡ false = ground arith in
    let fewer : ltb size (capacity boot file) ≡ true = ground arith in
    simp (open_file, no_more, fewer) refl

-- On a volume of 512-byte sectors whose table fits into the cache and stands there, for an open
-- file that counts as many clusters as its chain has, and a size that takes at least one of them:
-- `fileresize` ends, and counts the clusters that the new size leaves, but cuts the chain one
-- cluster later: the chain keeps the clusters counted and one more.
pub fileresize_shrinks :
    (boot : BootSector) (s : Fat) (file : File) (size fuel : ℕ) (cs : List ℕ)
    → Covered boot s
    → Chain (table s) (entries boot) file.firstcluster cs
    → file.opened ≡ true
    → file.totalclusters ≡ length cs
    → size < capacity boot file
    → length cs ≤ fuel
    → length cs < 2 ^ 32
    → let remove = (capacity boot file - size) / cluster_bytes boot in
      0 < remove
      → remove ≤ length cs
      → (file' : File) × (s' : Fat) × (fileresize boot fuel (some file) size s
          ≡ some (true, some file', s'))
        × (file'.totalclusters ≡ length cs - remove)
        × Chain (table s') (entries boot) file.firstcluster (take (length cs - remove + 1) cs)
unfolding resized
fileresize_shrinks boot s file size fuel cs cov ch open_file total less enough bounded some_removed
      within =
    let remove : ℕ = (capacity boot file - size) / cluster_bytes boot in
    let kept : ℕ = length cs - remove in
    let room : sub32 (capacity boot file) size ≡ capacity boot file - size = omega arith in
    let same : sub32 file.totalclusters (sub32 (capacity boot file) size / cluster_bytes boot)
        ≡ kept =
      ap (λ (k : ℕ). sub32 file.totalclusters (k / cluster_bytes boot)) room
      ∙ omega (arith, total) in
    let inside : kept < length cs = omega arith in
    let found =
      fattraverse_lem boot s kept cov ch
      ∙ ap (λ (k : ℕ). (k, s)) (get_or_default cs kept (last_or cs 0) 0 inside) in
    let (s', run, _, cut) =
      fatdeallocclusters_lem boot s fuel (get_or cs kept 0) (drop (suc kept) cs) cov
        (Chain-drop kept ch inside) (omega (arith, length-drop (suc kept) cs)) in
    let one_more : kept + 1 ≡ suc kept = omega arith in
    let entry = record file.fsentry { filesize = size } in
    (
      record file {
        fsentry = entry;
        dirty = true;
        totalclusters = kept;
        lastcluster = get_or cs kept 0;
      },
      fatcommit boot s',
      resize_run boot s file size fuel open_file less
          ∙ shrink_run boot s s' file size fuel kept (get_or cs kept 0) (get_or cs kept 0) same
              found run,
      refl,
      rw one_more (Chain-frame (Chain-take kept ch inside cut) (λ x m. table-fatcommit boot s' x)),
    )
