-- ===== src/Fat/Walk.antt =====
-- Chains of clusters in the table, and the loops that follow them.
use mathlib.Core.Path.{subst}
use legendary_journey.Base.{
  ℕ, zero, suc, ◌+◌, ◌≤◌, ◌<◌, ◌^◌, ◌≡◌, ◌≢◌, ◌∙◌, inl, inr, refl, sym, ap, true, false, some, List,
  [], ◌∷◌, arith, ◌==◌, Bool-cases, lt→ltb, lt→leb, length, get_or, has, last_or, add32,
}
use legendary_journey.Fat.{BootSector, Fat, fefree, feend32l}
use legendary_journey.Fat.Covered.{Covered, entries, table, fatclustervalue_covered}
use legendary_journey.Fat.Chains.{total_loop, fattotalclusters, fattraverse}

-- In the table `t` of `n` entries the links lead from the cluster through the clusters of the list
-- to an end mark. No link on the way is the free mark.
pub data Chain (t : ℕ → ℕ) (n : ℕ) : ℕ → List ℕ → Type 0 where
  last : {c : ℕ} → c < n → feend32l ≤ t c → Chain t n c (c ∷ [])
  link :
      {c d : ℕ} {cs : List ℕ}
      → c < n
      → t c ≡ d
      → fefree < d
      → d < feend32l
      → Chain t n d cs
      → Chain t n c (c ∷ cs)

-- the clusters after the first
abbrev pub rest_of : List ℕ → List ℕ
rest_of [] = []
rest_of (c ∷ cs) = cs

module _ {t : ℕ → ℕ} {n : ℕ} where
  pub Chain-used :
      {c : ℕ} {cs : List ℕ} → Chain t n c cs → (x : ℕ) → has x cs ≡ true → (x < n) × (t x ≢ fefree)
  Chain-used (last h e) x m = ground arith
  Chain-used (link h e pos small rest) x m = ground (arith, Chain-used rest x)

  -- A chain depends only on the entries of its own clusters.
  pub Chain-frame :
      {u : ℕ → ℕ} {c : ℕ} {cs : List ℕ}
      → Chain t n c cs
      → ((x : ℕ) → has x cs ≡ true → u x ≡ t x)
      → Chain u n c cs
  Chain-frame {u} (last {c} h e) same = last h (ground (arith, same c))
  Chain-frame {u} (link {c} {d} h e pos small rest) same =
      link h (ground (arith, same c)) pos small (Chain-frame rest (λ x m. same x (ground arith)))

  pub last_of_Chain :
      {c : ℕ} {cs : List ℕ} → Chain t n c cs → (a b : ℕ) → last_or cs a ≡ last_or cs b
  last_of_Chain (last h e) a b = refl
  last_of_Chain (link h e pos small rest) a b = refl

  pub last_on_Chain : {c : ℕ} {cs : List ℕ} → Chain t n c cs → has (last_or cs 0) cs ≡ true
  last_on_Chain (last h e) = ground arith
  last_on_Chain (link {c} h e pos small rest) =
      ground (arith, last_on_Chain rest, last_of_Chain rest 0 c)

  -- Two chains from one cluster are the same.
  Chain-length : {c : ℕ} {xs ys : List ℕ} → Chain t n c xs → Chain t n c ys → length xs ≡ length ys
  Chain-length (last h e) (last h' e') = refl
  Chain-length (last h e) (link h' e' pos small rest) = absurd (omega arith)
  Chain-length (link h e pos small rest) (last h' e') = absurd (omega arith)
  Chain-length (link h e pos small rest) (link {cs = zs} h' e' pos' small' rest') =
      ap suc (Chain-length rest (subst (λ (k : ℕ). Chain t n k zs) (sym e' ∙ e) rest'))

  -- the chain from a cluster that stands on a chain
  Chain-from :
      {c : ℕ} {cs : List ℕ} (x : ℕ)
      → Chain t n c cs
      → has x cs ≡ true
      → (ds : List ℕ) × Chain t n x ds × (length ds ≤ length cs)
  Chain-from x (last {c} h e) m =
      let here : x ≡ c = ground arith in (x ∷ [], rw here (last h e), omega arith)
  Chain-from x (link {c} {d} {cs} h e pos small rest) m = elim (Bool-cases (x == c)) [
    | inl here ↦
        let at : x ≡ c = ground arith in (c ∷ cs, rw at (link h e pos small rest), omega arith)
    | inr past ↦ let (ds, ch, short) = Chain-from x rest (ground arith) in (ds, ch, omega arith)
  ]

  -- No cluster stands twice on a chain.
  pub Chain-distinct : {c : ℕ} {xs : List ℕ} → Chain t n c xs → has c (rest_of xs) ≡ false
  Chain-distinct (last h e) = refl
  Chain-distinct (link {c} {d} {cs} h e pos small rest) = elim (Bool-cases (has c cs)) [
    | inl m ↦
        let (ds, ch, short) = Chain-from c rest m in
        absurd (omega (arith, Chain-length (link h e pos small rest) ch))
    | inr out ↦ out
  ]

module _ (boot : BootSector) (s : Fat) (cov : Covered boot s) where
  total_loop_lem :
      (fuel count : ℕ) {c : ℕ} {cs : List ℕ}
      → Chain (table s) (entries boot) c cs
      → length cs ≤ fuel
      → count + length cs < 2 ^ 32
      → total_loop boot fuel c count s ≡ some (count + length cs, last_or cs 0, s)
  unfolding total_loop
  total_loop_lem zero count (last h e) enough fits = absurd (omega arith)
  total_loop_lem zero count (link h e pos small rest) enough fits = absurd (omega arith)
  total_loop_lem (suc fuel) count (last {c} h e) enough fits =
      rw (fatclustervalue_covered boot s cov c h) (ground arith)
  total_loop_lem (suc fuel) count (link {c} {d} {cs} h e pos small rest) enough fits =
      rw (fatclustervalue_covered boot s cov c h, e)
        (rw (lt→ltb d feend32l small) (
          total_loop_lem fuel (add32 count 1) rest (omega arith) (omega arith)
          ∙ ground (arith, last_of_Chain rest 0 c)))

-- On a volume of 512-byte sectors whose table fits into the cache and stands there, for the first
-- cluster of a chain: `fattotalclusters` returns the number of its clusters, stores the last of
-- them, and changes nothing; it ends within that number of rounds.
pub fattotalclusters_lem :
    (boot : BootSector) (s : Fat) (fuel c : ℕ) (cs : List ℕ)
    → Covered boot s
    → Chain (table s) (entries boot) c cs
    → length cs ≤ fuel
    → fuel < 2 ^ 32
    → fattotalclusters boot fuel c s ≡ some (length cs, last_or cs 0, s)
unfolding fattotalclusters
fattotalclusters_lem boot s fuel c cs cov ch enough fits =
    total_loop_lem boot s cov fuel 0 ch enough (omega arith) ∙ ground arith

-- `fattraverse` returns the cluster that many links behind the first, or the last cluster of a
-- shorter chain.
pub fattraverse_lem :
    (boot : BootSector) (s : Fat) (count : ℕ) {c : ℕ} {cs : List ℕ}
    → Covered boot s
    → Chain (table s) (entries boot) c cs
    → fattraverse boot c count s ≡ (get_or cs count (last_or cs 0), s)
unfolding fattraverse
fattraverse_lem boot s zero cov (last h e) = refl
fattraverse_lem boot s zero cov (link h e pos small rest) = refl
fattraverse_lem boot s (suc k) cov (last {c} h e) =
    rw (fatclustervalue_covered boot s cov c h) (ground arith)
fattraverse_lem boot s (suc k) cov (link {c} {d} {cs} h e pos small rest) =
    rw (fatclustervalue_covered boot s cov c h, e)
      (rw (lt→leb d feend32l small)
        (fattraverse_lem boot s k cov rest ∙ ground (arith, last_of_Chain rest 0 c)))
