-- ===== src/Names/Format.antt =====
-- The name that `fatformatfilename` makes of a base and an extension.
use legendary_journey.Base.{
  ℕ, zero, suc, ◌+◌, ◌-◌, ◌≤◌, ◌<◌, ◌^◌, ◌≡◌, ◌≢◌, ◌∙◌, ◌⊎◌, refl, sym, ap, Bool, false, ◌&&◌, ◌||◌,
  some, List, [], ◌∷◌, ◌++◌, arith, ltb, leb, ◌==◌, Bool-cases, all_below-at, ==_iff, ltb→lt, inl,
  inr, if◌then◌else◌, if_false, Block, add32, sub32, length, length-append, min, get_or, take,
}
use legendary_journey.Std.{memset, strlen, strnchr, umin}
use legendary_journey.Std.Move.{memset_lem}
use legendary_journey.Std.Search.{found, found_next, index_of, strnchr_lem}
use legendary_journey.Std.Strings.{CString, strlen_lem}
use legendary_journey.Path.Copy.{Apart, CString-same}
use legendary_journey.Path.Next.{CString-behind}
use legendary_journey.Names.{
  fatformatchar, format_part, format_parts, fatformatfilename, holds_bytes, fat_dot, fat_dotdot,
}
use legendary_journey.Names.Part.{formatted, formatted_at, NoSpace, format_part_lem}

-- no character is a dot
abbrev pub NoDot : List ℕ → Type 0
NoDot [] = Unit
NoDot (c ∷ cs) = (c ≢ 46) × NoDot cs

index_of-dot :
    (a : ℕ) (base rest : List ℕ)
    → NoDot base
    → found a (index_of 46 (base ++ (46 ∷ rest))) ≡ a + length base
index_of-dot a [] rest plain = omega arith
index_of-dot a (c ∷ base) rest (other, plain) =
    let away : (c == 46) ≡ false = ground (arith, other) in
    let on : a + 1 + length base ≡ a + suc (length base) = omega arith in
    found_next a 46 c (base ++ (46 ∷ rest)) away ∙ index_of-dot (a + 1) base rest plain ∙ on

take-all : (cs : List ℕ) → take (length cs) cs ≡ cs
take-all [] = refl
take-all (c ∷ cs) = ap (λ (l : List ℕ). c ∷ l) (take-all cs)

-- byte `i` of the entry's name, as the code forms it
abbrev coded_byte : List ℕ → List ℕ → ℕ → ℕ
coded_byte base ext i =
    if ltb i 8
    then (if ltb i (length base) then formatted (get_or base i 0) else 32)
    else if ltb (i - 8) (length ext)
    then formatted (get_or ext (i - 8) 0)
    else 32

get_or-append : (xs ys : List ℕ) (i : ℕ) → i < length xs → get_or (xs ++ ys) i 0 ≡ get_or xs i 0
get_or-append [] ys i h = absurd (omega arith)
get_or-append (x ∷ xs) ys zero h = refl
get_or-append (x ∷ xs) ys (suc i) h = get_or-append xs ys i (omega arith)

-- The three writes of a name together: the padding, the extension and the base.
name_bytes :
    (m m₁ m₂ m₃ : Block) (output : ℕ) (base ext all : List ℕ) (j : ℕ)
    → length base ≤ 8
    → length ext ≤ 3
    → length base ≤ length all
    → ((i : ℕ) → i < length base → get_or all i 0 ≡ get_or base i 0)
    → m₁ j ≡ (if leb output j && ltb j (output + 11) then 32 else m j)
    → m₂ j ≡ formatted_at m₁ (output + 8) 3 ext j
    → m₃ j ≡ formatted_at m₂ output (length base) all j
    → m₃ j ≡ (if leb output j && ltb j (output + 11) then coded_byte base ext (j - output) else m j)
name_bytes m m₁ m₂ m₃ output base ext all j short short' longer same e₁ e₂ e₃ =
    let index : j - (output + 8) ≡ j - output - 8 = omega arith in
    let second : get_or ext (j - (output + 8)) 0 ≡ get_or ext (j - output - 8) 0 =
      ap (λ (k : ℕ). get_or ext k 0) index in
    elim (Bool-cases (leb output j && ltb j (output + length base))) [
      | inl in_base ↦
          let low : j - output < length base = ground (arith, in_base) in
          let char : formatted (get_or all (j - output) 0)
              ≡ formatted (get_or base (j - output) 0) =
            ap formatted (same (j - output) low) in
          ground (arith, in_base, char, e₃, low)
      | inr behind ↦
          let fmt : formatted (get_or ext (j - (output + 8)) 0)
              ≡ formatted (get_or ext (j - output - 8) 0) =
            ap formatted second in
          ground (arith, behind, fmt, e₁, e₂, e₃)
    ]

formatted_out :
    (m : Block) (dest n : ℕ) (cs : List ℕ) (j : ℕ)
    → (j < dest) ⊎ (dest + n ≤ j)
    → formatted_at m dest n cs j ≡ m j
formatted_out m dest n cs j out =
    let outside : (leb dest j && ltb j (dest + min n (length cs))) ≡ false = ground (arith, out) in
    if_false _ _ outside

room_for : (k e : ℕ) → k ≤ 8 → e ≤ 3 → umin 8 (sub32 (k + 1 + e) (1 + e)) ≡ k
unfolding umin
room_for k e short short' = ground arith

format_parts_lem :
    (fuel input size output : ℕ) (m₁ : Block) (dot behind room : ℕ) (m₂ m₃ : Block)
    → strnchr size m₁ input 46 ≡ dot
    → 0 < dot
    → format_part fuel (add32 dot 1) (add32 output 8) 3 m₁ ≡ some m₂
    → strlen fuel m₂ dot ≡ some behind
    → umin 8 (sub32 size behind) ≡ room
    → format_part fuel input output room m₂ ≡ some m₃
    → format_parts fuel input size output m₁ ≡ some m₃
unfolding format_parts
format_parts_lem fuel input size output m₁ dot behind room m₂ m₃ found_dot some_dot ext_part tail
      fits base_part =
    let there : (dot == 0) ≡ false = ground (arith, some_dot) in
    rw (found_dot, there, ext_part) (rw (tail, fits) base_part)

-- whether a name on a volume may hold a character: capital letters, digits, and the marks
-- ! # $ % & ' ( ) - @ ^ _ ` { } ~
abbrev pub allowed : ℕ → Bool
allowed c =
    (leb 65 c && leb c 90)
    || (leb 48 c && leb c 57)
    || (c == 33)
    || (leb 35 c && leb c 41)
    || (c == 45)
    || (c == 64)
    || (leb 94 c && leb c 96)
    || (c == 123)
    || (c == 125)
    || (c == 126)

-- the form that a character has on a volume: a small letter is a capital one, and a character that is not
-- allowed is an underscore
abbrev pub on_volume : ℕ → ℕ
on_volume c = if leb 97 c && leb c 122 then c - 32 else if allowed c then c else 95

-- byte `i` of the entry's name
abbrev pub name_byte : List ℕ → List ℕ → ℕ → ℕ
name_byte base ext i =
    if ltb i 8
    then (if ltb i (length base) then on_volume (get_or base i 0) else 32)
    else if ltb (i - 8) (length ext)
    then on_volume (get_or ext (i - 8) 0)
    else 32

formatted-on_volume : (c : ℕ) → formatted c ≡ on_volume c
unfolding fatformatchar
formatted-on_volume c = elim (Bool-cases (ltb c 128)) [
  | inl ascii ↦
      (==_iff (formatted c) (on_volume c)).0
        (all_below-at (λ k. formatted k == on_volume k) 128 c refl (ltb→lt c 128 ascii))
  | inr other ↦ ground (arith, other)
]

coded-name_byte : (base ext : List ℕ) (i : ℕ) → coded_byte base ext i ≡ name_byte base ext i
coded-name_byte base ext i =
    ground
      (arith, formatted-on_volume (get_or base i 0), formatted-on_volume (get_or ext (i - 8) 0))

-- A string of a base of 1 to 8 characters without a dot, a dot, and an extension of at most 3
-- characters, neither of which begins with a space, and with its null byte right behind the extension, becomes the
-- 11 bytes of its directory entry, which lie apart from it: the base padded to 8 and the extension padded to 3,
-- small letters as capital ones, and each character that a name may not hold as an underscore. No other byte
-- changes. It returns with fuel for two rounds more than the extension has characters.
pub fatformatfilename_lem :
    (fuel input output : ℕ) (m : Block) (b : ℕ) (bs ext : List ℕ)
    → let base = b ∷ bs in
      CString m input (base ++ (46 ∷ ext))
      → NoDot base
      → b ≢ 32
      → NoSpace ext
      → length base ≤ 8
      → length ext ≤ 3
      → Apart input (length base + length ext + 2) output 11
      → input < 2 ^ 32
      → output + 11 < 2 ^ 32
      → length ext + 1 < fuel
      → (m' : Block) × (fatformatfilename fuel input (length base + 1 + length ext) output m
          ≡ some m')
        × ((j : ℕ)
            → m' j ≡ (
                if leb output j && ltb j (output + 11)
                then name_byte base ext (j - output)
                else m j))
unfolding fatformatfilename
fatformatfilename_lem fuel input output m b bs ext h plain first plain' short short' apart low low'
      enough =
    let base = b ∷ bs in
    let all = base ++ (46 ∷ ext) in
    let size : length all ≡ length base + 1 + length ext =
      omega (arith, length-append base (46 ∷ ext)) in
    let m₁ : Block = memset output 32 11 m in
    let set : (j : ℕ) → m₁ j ≡ (if leb output j && ltb j (output + 11) then 32 else m j) =
      memset_lem output 32 11 m low' in
    let h₁ : CString m₁ input all =
      CString-same m m₁ input all h (λ i lo hi. ground (arith, set i, apart, lo, hi, size)) in
    let letter : (m₁ input == 46) ≡ false = ground (arith, h₁.0, plain.0) in
    let not_dot : (holds_bytes m₁ input fat_dot
          || ((length base + 1 + length ext == 1) && (m₁ input == 46)))
        ≡ false =
      ground (arith, letter) in
    let not_dotdot : (holds_bytes m₁ input fat_dotdot
          || ((length base + 1 + length ext == 2) && ((m₁ input == 46) && (m₁ (input + 1) == 46))))
        ≡ false =
      ground (arith, letter) in
    let behind = CString-behind m₁ input base (46 ∷ ext) h₁ low in
    let dot : strnchr (length base + 1 + length ext) m₁ input 46 ≡ input + length base =
      strnchr_lem (length base + 1 + length ext) m₁ input 46 all h₁
      ∙ ap (λ (k : ℕ). found input (index_of 46 (take k all))) (sym size)
      ∙ ap (λ (l : List ℕ). found input (index_of 46 l)) (take-all all)
      ∙ index_of-dot input base ext plain in
    let after_dot : add32 (input + length base) 1 ≡ input + length base + 1 =
      omega (arith, behind.0.3) in
    let ext_at : add32 output 8 ≡ output + 8 = omega (arith, low') in
    let part =
      format_part_lem fuel 3 (input + length base + 1) (output + 8) m₁ ext behind.0.4 plain'
        (omega (arith, apart)) behind.0.3 (omega (arith, low')) (omega (arith, enough)) in
    let m₂ : Block = part.0 in
    let kept : (i : ℕ) → input ≤ i → i ≤ input + length all → m₂ i ≡ m₁ i = λ i lo hi.
      part.2 i ∙ formatted_out m₁ (output + 8) 3 ext i (omega (arith, apart, lo, hi, size)) in
    let h₂ : CString m₂ input all = CString-same m₁ m₂ input all h₁ kept in
    let dot₂ = CString-behind m₂ input base (46 ∷ ext) h₂ low in
    let tail : strlen fuel m₂ (input + length base) ≡ some (1 + length ext) =
      strlen_lem fuel m₂ (input + length base) (46 ∷ ext) dot₂.0 (omega (arith, enough)) dot₂.1
      ∙ ap some (omega arith) in
    let room : umin 8 (sub32 (length base + 1 + length ext) (1 + length ext)) ≡ length base =
      room_for (length base) (length ext) short short' in
    let whole =
      format_part_lem fuel (length base) input output m₂ all h₂ first (omega (arith, apart, size))
        low (omega (arith, low', short)) (omega (arith, enough)) in
    (
      whole.0,
      if_false _ _ not_dot
          ∙ if_false _ _ not_dotdot
          ∙ format_parts_lem fuel input (length base + 1 + length ext) output m₁
              (input + length base) (1 + length ext) (length base) m₂ whole.0 dot (omega arith)
              (ap (λ (x : ℕ). format_part fuel x (add32 output 8) 3 m₁) after_dot
                ∙ ap (λ (x : ℕ). format_part fuel (input + length base + 1) x 3 m₁) ext_at
                ∙ part.1)
              tail room whole.1,
      λ j.
          name_bytes m m₁ m₂ whole.0 output base ext all j short short' (omega (arith, size))
            (λ i hi. get_or-append base (46 ∷ ext) i hi) (set j) (part.2 j) (whole.2 j)
          ∙ ap (λ (n : ℕ). if leb output j && ltb j (output + 11) then n else m j)
              (coded-name_byte base ext (j - output)),
    )
