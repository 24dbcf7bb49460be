-- ===== src/Path/Tests.antt =====
-- Runs of the path functions, and their theorems at concrete paths.
use legendary_journey.Base.{
  ℕ, ◌≡◌, refl, none, some, List, [], ◌∷◌, arith, write, slice, blit, ℤ, pos, Option,
}
use legendary_journey.Errno.{no_error}
use legendary_journey.Std.Strings.{CString}
use legendary_journey.Path.{Paths, path_next}
use legendary_journey.Path.Simplify.{path_simplify}
use legendary_journey.Path.Next.{path_next_lem}

-- a memory with a string at address 100, and a 7 at 208
abbrev with_path : List ℕ → Paths
with_path cs = record { mem = write (blit (λ _. 0) 100 cs) 208 7; errno = no_error }

-- the result of simplifying that string into 8 bytes at address 200, and the 9 bytes there
abbrev simplified_path : List ℕ → Option (ℤ × List ℕ)
simplified_path cs = elim (path_simplify 9 100 200 8 (with_path cs)) [
  | none ↦ none
  | some (n, s) ↦ some ((n, slice s.mem 200 9))
]

-- "/a//b/" becomes "/a/b".
doubled_separators :
    simplified_path (47 ∷ 97 ∷ 47 ∷ 47 ∷ 98 ∷ 47 ∷ [])
    ≡ some (pos 5, 47 ∷ 97 ∷ 47 ∷ 98 ∷ 0 ∷ 0 ∷ 98 ∷ 0 ∷ 7 ∷ [])
unfolding path_simplify blit slice
doubled_separators = refl

-- "/a/../b" becomes "/b".
parent :
    simplified_path (47 ∷ 97 ∷ 47 ∷ 46 ∷ 46 ∷ 47 ∷ 98 ∷ [])
    ≡ some (pos 3, 47 ∷ 98 ∷ 0 ∷ 0 ∷ 47 ∷ 47 ∷ 98 ∷ 0 ∷ 7 ∷ [])
unfolding path_simplify blit slice
parent = refl

-- A path that fills the destination has a null byte written behind it.
overrun :
    simplified_path (97 ∷ 97 ∷ 97 ∷ 97 ∷ 97 ∷ 97 ∷ 97 ∷ [])
    ≡ some (pos 8, 97 ∷ 97 ∷ 97 ∷ 97 ∷ 97 ∷ 97 ∷ 97 ∷ 0 ∷ 0 ∷ [])
unfolding path_simplify blit slice
overrun = refl

-- "ab//c"
abbrev two_components : Paths
two_components = with_path (97 ∷ 98 ∷ 47 ∷ 47 ∷ 99 ∷ [])

path : CString two_components.mem 100 (97 ∷ 98 ∷ 47 ∷ 47 ∷ 99 ∷ [])
unfolding blit
path = (
  refl,
  omega arith,
  omega arith,
  omega arith,
  (
    refl,
    omega arith,
    omega arith,
    omega arith,
    (
      refl,
      omega arith,
      omega arith,
      omega arith,
      (
        refl,
        omega arith,
        omega arith,
        omega arith,
        (refl, omega arith, omega arith, omega arith, refl),
      ),
    ),
  ),
)

path_next_lem_example : path_next 6 two_components.mem 100 ≡ some (104, 1)
path_next_lem_example =
    path_next_lem 6 two_components.mem 100 (97 ∷ 98 ∷ []) (47 ∷ 47 ∷ []) (99 ∷ []) [] path
      ((λ e. absurd (omega (arith, e))), ((λ e. absurd (omega (arith, e))), tt)) (refl, (refl, tt))
      ((λ e. absurd (omega (arith, e))), tt) refl (λ e. absurd (omega (arith, e))) tt (omega arith)
      (omega arith)
