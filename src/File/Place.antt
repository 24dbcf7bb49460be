-- ===== src/File/Place.antt =====
-- Where a position of a file lies in the list of its sectors.
use native.Mathlib.Nat.{div-add-mod, div-div-eq-div-mul, div-lt_iff_lt-mul, mod-lt}
use legendary_journey.Base.{
  ℕ, zero, suc, ◌+◌, ◌-◌, ◌*◌, ◌/◌, ◌%◌, ◌≤◌, ◌<◌, ◌≡◌, ◌∙◌, refl, sym, ap, List, [], ◌∷◌, ◌++◌,
  arith, length, length-append, drop, get_or,
}
use legendary_journey.Fat.{BootSector}
use legendary_journey.Fat.Walk.{Chain, last, link}
use legendary_journey.File.Stream.{run_of, all_sectors, sectors_from}

pub Chain-drop :
    {t : ℕ → ℕ} {n : ℕ} (k : ℕ) {c : ℕ} {cs : List ℕ}
    → Chain t n c cs
    → k < length cs
    → Chain t n (get_or cs k 0) (drop k cs)
Chain-drop zero (last h e) inside = last h e
Chain-drop zero (link h e some_mark small rest) inside = link h e some_mark small rest
Chain-drop (suc k) (last h e) inside = absurd (omega arith)
Chain-drop (suc k) (link h e some_mark small rest) inside = Chain-drop k rest (omega arith)

module _ (boot : BootSector) where
  open boot use {sectorspercluster}

  drop-run_of :
      (c a j n : ℕ) (xs : List ℕ)
      → j ≤ n
      → drop j (run_of boot c a n ++ xs) ≡ run_of boot c (a + j) (n - j) ++ xs
  drop-run_of c a zero n xs h =
      let start : a ≡ a + 0 = omega arith in
      let all : n ≡ n - 0 = omega arith in
      ap (λ (k : ℕ). run_of boot c k n ++ xs) start
      ∙ ap (λ (k : ℕ). run_of boot c (a + 0) k ++ xs) all
  drop-run_of c a (suc j) zero xs h = absurd (omega arith)
  drop-run_of c a (suc j) (suc n) xs h =
      let on : a + 1 + j ≡ a + suc j = omega arith in
      let left : n - j ≡ suc n - suc j = omega arith in
      drop-run_of c (a + 1) j n xs (omega arith)
      ∙ ap (λ (k : ℕ). run_of boot c k (n - j) ++ xs) on
      ∙ ap (λ (k : ℕ). run_of boot c (a + suc j) k ++ xs) left

  drop-run_of_all : (c a n m : ℕ) (xs : List ℕ) → drop (n + m) (run_of boot c a n ++ xs) ≡ drop m xs
  drop-run_of_all c a zero m xs = ap (λ (k : ℕ). drop k xs) (omega arith)
  drop-run_of_all c a (suc n) m xs =
      let more : suc n + m ≡ suc (n + m) = omega arith in
      ap (λ (k : ℕ). drop k (run_of boot c a (suc n) ++ xs)) more ∙ drop-run_of_all c (a + 1) n m xs

  -- Sector `j` of cluster `k` is where the first `k` clusters and `j` sectors are left out.
  sectors_from-drop :
      (k j : ℕ) (cs : List ℕ)
      → j < sectorspercluster
      → k < length cs
      → sectors_from boot j (drop k cs) ≡ drop (k * sectorspercluster + j) (all_sectors boot cs)
  sectors_from-drop k j [] within inside = absurd (omega arith)
  sectors_from-drop zero j (c ∷ cs) within inside =
      let start : 0 + j ≡ j = omega arith in
      let first : 0 * sectorspercluster + j ≡ j = omega arith in
      ap (λ (i : ℕ). run_of boot c i (sectorspercluster - j) ++ all_sectors boot cs) (sym start)
      ∙ sym (drop-run_of c 0 j sectorspercluster (all_sectors boot cs) (omega arith))
      ∙ ap (λ (i : ℕ). drop i (all_sectors boot (c ∷ cs))) (sym first)
  sectors_from-drop (suc k) j (c ∷ cs) within inside =
      let split : suc k * sectorspercluster + j ≡ sectorspercluster + (k * sectorspercluster + j) =
        grind arith in
      sectors_from-drop k j cs within (omega arith)
      ∙ sym
          (drop-run_of_all c 0 sectorspercluster (k * sectorspercluster + j) (all_sectors boot cs))
      ∙ ap (λ (i : ℕ). drop i (all_sectors boot (c ∷ cs))) (sym split)

  length-run_of : (c a n : ℕ) → length (run_of boot c a n) ≡ n
  length-run_of c a zero = refl
  length-run_of c a (suc n) = ap suc (length-run_of c (a + 1) n)

  length-all_sectors : (cs : List ℕ) → length (all_sectors boot cs) ≡ length cs * sectorspercluster
  length-all_sectors [] = omega arith
  length-all_sectors (c ∷ cs) =
      length-append (run_of boot c 0 sectorspercluster) (all_sectors boot cs)
      ∙ grind (arith, length-run_of c 0 sectorspercluster, length-all_sectors cs)

  module _ (at : ℕ) (cs : List ℕ) (some_sectors : 0 < sectorspercluster)
      (inside : at / 512 < length (all_sectors boot cs)) where
    cluster_of : at / (sectorspercluster * 512) ≡ at / 512 / sectorspercluster
    cluster_of =
        ap (λ (k : ℕ). at / k) (omega arith) ∙ sym (div-div-eq-div-mul at 512 sectorspercluster)

    -- The cluster of a position inside the sectors is one of the list.
    pub cluster-lt : at / (sectorspercluster * 512) < length cs
    cluster-lt = omega (
      arith,
      cluster_of,
      (div-lt_iff_lt-mul {x = at / 512} {y = length cs} some_sectors).1
          (omega (arith, inside, length-all_sectors cs)),
    )

    -- The sectors ahead of a position.
    pub sectors_at :
        sectors_from boot (at / 512 % sectorspercluster) (drop (at / (sectorspercluster * 512)) cs)
        ≡ drop (at / 512) (all_sectors boot cs)
    sectors_at =
        let place : at / (sectorspercluster * 512) * sectorspercluster
              + at / 512 % sectorspercluster
            ≡ at / 512 =
          ap (λ (k : ℕ). k * sectorspercluster + at / 512 % sectorspercluster) cluster_of
          ∙ omega (arith, div-add-mod (at / 512) sectorspercluster) in
        sectors_from-drop (at / (sectorspercluster * 512)) (at / 512 % sectorspercluster) cs
          (mod-lt (at / 512) some_sectors) cluster-lt
        ∙ ap (λ (k : ℕ). drop k (all_sectors boot cs)) place
