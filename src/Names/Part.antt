-- ===== src/Names/Part.antt =====
-- What `_fatformatfilename` writes of the base or of the extension of a name.
use legendary_journey.Base.{
  ℕ, zero, suc, ◌+◌, ◌-◌, ◌<◌, ◌^◌, ◌≡◌, ◌≢◌, ◌∙◌, refl, ap, true, false, ◌&&◌, some, List, [], ◌∷◌,
  arith, ltb, leb, ◌==◌, Bool-cases, inl, inr, if◌then◌else◌, if_true, if_false, Block, write,
  add32, length, min, get_or,
}
use legendary_journey.Std.Strings.{CString}
use legendary_journey.Path.Copy.{Apart, CString-same}
use legendary_journey.Names.{fatformatchar, signed_char, skip_spaces, format_loop, format_part}

-- the byte of a name for a character
abbrev pub formatted : ℕ → ℕ
formatted c = fatformatchar (signed_char c)

-- memory with the bytes for the first `n` characters at `dest`
abbrev pub formatted_at : Block → ℕ → ℕ → List ℕ → Block
formatted_at m dest n cs j =
    if leb dest j && ltb j (dest + min n (length cs))
    then formatted (get_or cs (j - dest) 0)
    else m j

formatted_step :
    (m : Block) (c d n j : ℕ) (cs : List ℕ)
    → formatted_at (write m d (formatted c)) (d + 1) n cs j ≡ formatted_at m d (suc n) (c ∷ cs) j
formatted_step m c d n j cs = elim (Bool-cases (leb (d + 1) j)) [
  | inl behind ↦
      let index : j - d ≡ suc (j - (d + 1)) = ground (arith, behind) in
      ground (arith, behind, index, ap (λ (k : ℕ). get_or (c ∷ cs) k 0) index)
  | inr before ↦ elim (Bool-cases (j == d)) [
    | inl here ↦
        let index : j - d ≡ 0 = ground (arith, here) in
        ground (arith, before, here, index, ap (λ (k : ℕ). get_or (c ∷ cs) k 0) index)
    | inr other ↦ ground (arith, before, other)
  ]
]

pub format_loop_lem :
    (n : ℕ) (name dest : ℕ) (m : Block) (cs : List ℕ)
    → CString m name cs
    → Apart name (length cs + 1) dest n
    → name < 2 ^ 32
    → dest + n < 2 ^ 32
    → (j : ℕ) → format_loop n name dest m j ≡ formatted_at m dest n cs j
unfolding format_loop
format_loop_lem zero name dest m cs h apart low low' j = ground arith
format_loop_lem (suc n) name dest m [] h apart low low' j =
    let ends : (m name == 0) ≡ true = ground (arith, h) in
    ap (λ (x : Block). x j) (if_true _ _ ends) ∙ ground arith
format_loop_lem (suc n) name dest m (c ∷ cs) (e, some_char, byte, fits, h) apart low low' j =
    let goes_on : (m name == 0) ≡ false = ground (arith, e, some_char) in
    let next : add32 name 1 ≡ name + 1 = omega (arith, fits) in
    let to : add32 dest 1 ≡ dest + 1 = omega (arith, low') in
    let m' : Block = write m dest (formatted (m name)) in
    let kept : CString m' (name + 1) cs =
      CString-same m m' (name + 1) cs h (λ i lo hi. ground (arith, apart, lo, hi)) in
    ap (λ (x : Block). x j) (if_false _ _ goes_on)
    ∙ ap (λ (x : ℕ). format_loop n x (add32 dest 1) m' j) next
    ∙ ap (λ (x : ℕ). format_loop n (name + 1) x m' j) to
    ∙ format_loop_lem n (name + 1) (dest + 1) m' cs kept (omega (arith, apart)) fits
        (omega (arith, low')) j
    ∙ ap (λ (x : ℕ). formatted_at (write m dest (formatted x)) (dest + 1) n cs j) e
    ∙ formatted_step m c dest n j cs

-- a text that does not begin with a space
abbrev pub NoSpace : List ℕ → Type 0
NoSpace [] = Unit
NoSpace (c ∷ cs) = c ≢ 32

skip_none :
    (fuel : ℕ) (m : Block) (name : ℕ) (cs : List ℕ)
    → CString m name cs
    → NoSpace cs
    → 0 < fuel
    → skip_spaces fuel m name ≡ some name
unfolding skip_spaces
skip_none zero m name cs h plain enough = absurd (omega arith)
skip_none (suc fuel) m name [] h plain enough =
    let stop : (m name == 32) ≡ false = ground (arith, h) in if_false _ _ stop
skip_none (suc fuel) m name (c ∷ cs) (e, some_char, byte, fits, h) plain enough =
    let stop : (m name == 32) ≡ false = ground (arith, e, plain) in if_false _ _ stop

pub format_part_lem :
    (fuel n name dest : ℕ) (m : Block) (cs : List ℕ)
    → CString m name cs
    → NoSpace cs
    → Apart name (length cs + 1) dest n
    → name < 2 ^ 32
    → dest + n < 2 ^ 32
    → 0 < fuel
    → (m' : Block) × (format_part fuel name dest n m ≡ some m')
      × ((j : ℕ) → m' j ≡ formatted_at m dest n cs j)
unfolding format_part
format_part_lem fuel n name dest m cs h plain apart low low' enough = (
  format_loop n name dest m,
  rw (skip_none fuel m name cs h plain enough) refl,
  format_loop_lem n name dest m cs h apart low low',
)
