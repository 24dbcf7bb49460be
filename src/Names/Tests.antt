-- ===== src/Names/Tests.antt =====
-- Runs of the 8.3 names, and their theorem at a concrete name.
use legendary_journey.Base.{
  ℕ, ◌-◌, ◌≡◌, refl, none, some, Option, List, [], ◌∷◌, arith, ◌&&◌, ltb, leb, if◌then◌else◌, Block,
  slice, blit,
}
use legendary_journey.Std.Strings.{CString}
use legendary_journey.Names.{fatformatfilename}
use legendary_journey.Names.Format.{name_byte, fatformatfilename_lem}

-- a memory with a string at address 100
abbrev with_name : List ℕ → Block
with_name cs = blit (λ _. 0) 100 cs

-- the name of the first `size` characters of that string
abbrev entry_name : ℕ → List ℕ → Option (List ℕ)
entry_name size cs = elim (fatformatfilename 12 100 size 200 (with_name cs)) [
  | none ↦ none
  | some m ↦ some (slice m 200 11)
]

-- "a.b"
abbrev short_name : List ℕ
short_name = 97 ∷ 46 ∷ 98 ∷ []

name_in_directory :
    entry_name 3 short_name ≡ some (65 ∷ 32 ∷ 32 ∷ 32 ∷ 32 ∷ 32 ∷ 32 ∷ 32 ∷ 66 ∷ 32 ∷ 32 ∷ [])
unfolding fatformatfilename slice blit
name_in_directory = refl

-- The component "a.b" of the path "a.b/c" is named "A_B_C   B_C".
name_in_path :
    entry_name 3 (97 ∷ 46 ∷ 98 ∷ 47 ∷ 99 ∷ [])
    ≡ some (65 ∷ 95 ∷ 66 ∷ 95 ∷ 67 ∷ 32 ∷ 32 ∷ 32 ∷ 66 ∷ 95 ∷ 67 ∷ [])
unfolding fatformatfilename slice blit
name_in_path = refl

name : CString (with_name short_name) 100 short_name
unfolding blit
name = (
  refl,
  omega arith,
  omega arith,
  omega arith,
  (
    refl,
    omega arith,
    omega arith,
    omega arith,
    (refl, omega arith, omega arith, omega arith, refl),
  ),
)

fatformatfilename_lem_example :
    (m' : Block) × (fatformatfilename 3 100 3 200 (with_name short_name) ≡ some m')
    × ((j : ℕ)
        → m' j ≡ (
            if leb 200 j && ltb j 211
            then name_byte (97 ∷ []) (98 ∷ []) (j - 200)
            else with_name short_name j))
fatformatfilename_lem_example =
    fatformatfilename_lem 3 100 200 (with_name short_name) 97 [] (98 ∷ []) name
      ((λ e. absurd (omega (arith, e))), tt) (λ e. absurd (omega (arith, e)))
      (λ e. absurd (omega (arith, e))) (omega arith) (omega arith) (omega arith) (omega arith)
      (omega arith) (omega arith)
