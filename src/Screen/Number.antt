-- ===== src/Screen/Number.antt =====
-- The characters that `printint` prints for a number.
use legendary_journey.Base.{
  ℕ, zero, suc, ◌+◌, ◌-◌, ◌*◌, ◌/◌, ◌%◌, ◌≤◌, ◌<◌, ◌^◌, ◌≡◌, ◌≢◌, ◌⊎◌, ◌∙◌, refl, sym, ap, Bool,
  true, ◌&&◌, List, [], ◌∷◌, ◌++◌, arith, ltb, leb, ◌==◌, Bool-cases, inl, inr, if◌then◌else◌,
  sub32, min, length, get_or,
}
use native.Mathlib.Nat.{mul-le-mul_right, div-add-mod, div-add-mod', mod-lt, pow-suc}
use legendary_journey.Screen.Print.{digit_char, push_digits, padded, number_text}

-- the value of a digit's character
abbrev pub char_digit : ℕ → ℕ
char_digit c = if ltb c 58 then c - 48 else c - 55

-- the number that a list of digits spells, most significant first, after the number `acc`
abbrev pub spelled : ℕ → ℕ → List ℕ → ℕ
spelled base acc [] = acc
spelled base acc (c ∷ cs) = spelled base (acc * base + char_digit c) cs

-- every character is that of a digit of the base
abbrev pub AllDigits : ℕ → List ℕ → Type 0
AllDigits base [] = Unit
AllDigits base (c ∷ cs) = ((d : ℕ) × (d < base) × (c ≡ digit_char d)) × AllDigits base cs

abbrev pub repeated : ℕ → ℕ → List ℕ
repeated zero c = []
repeated (suc n) c = c ∷ repeated n c

char_digit-digit_char : (d : ℕ) → d < 16 → char_digit (digit_char d) ≡ d
char_digit-digit_char d h = ground arith

-- A division by a base is no more than half.
half_at_most : (x base : ℕ) → 1 < base → 2 * (x / base) ≤ x
half_at_most x base two = omega (arith, mul-le-mul_right (x / base) two, div-add-mod x base)

spelled-digit :
    (x base : ℕ) (buffer : List ℕ)
    → 1 < base
    → base ≤ 16
    → spelled base (x / base) (digit_char (x % base) ∷ buffer) ≡ spelled base x buffer
spelled-digit x base buffer two most =
    let some_base : 0 < base = omega arith in
    let below : x % base < 16 = omega (arith, mod-lt x some_base) in
    ap (λ (d : ℕ). spelled base (x / base * base + d) buffer)
      (char_digit-digit_char (x % base) below)
    ∙ ap (λ (a : ℕ). spelled base a buffer) (div-add-mod' x base)

third_at_most : (x base : ℕ) → 2 < base → 3 * (x / base) ≤ x
third_at_most x base three = omega (arith, mul-le-mul_right (x / base) three, div-add-mod x base)

digit_alone : (x base : ℕ) → x / base ≡ 0 → x % base ≡ x
digit_alone x base last_digit =
    let none_left : x / base * base ≡ 0 = rw last_digit (omega arith) in
    omega (arith, none_left, div-add-mod' x base)

-- With enough rounds, the digits pushed spell the number in front of what is in the buffer.
push_digits-spelled :
    (fuel x base : ℕ) (buffer : List ℕ)
    → 1 < base
    → base ≤ 16
    → x < 2 ^ suc fuel
    → spelled base 0 (push_digits (suc fuel) x base buffer) ≡ spelled base x buffer
unfolding push_digits
push_digits-spelled zero x base buffer two most enough =
    let last_digit : x / base ≡ 0 = omega (arith, half_at_most x base two) in
    let done : (x / base == 0) ≡ true = ground (arith, last_digit) in
    rw done (
      ap (λ (a : ℕ). spelled base a (digit_char (x % base) ∷ buffer)) (sym last_digit)
      ∙ spelled-digit x base buffer two most)
push_digits-spelled (suc fuel) x base buffer two most enough =
    let next =
      push_digits-spelled fuel (x / base) base (digit_char (x % base) ∷ buffer) two most
        (omega (arith, half_at_most x base two, pow-suc 2 (suc fuel))) in
    elim (Bool-cases (x / base == 0)) [
      | inl done ↦
          let last_digit : x / base ≡ 0 = ground (arith, done) in
          rw done (
            ap (λ (a : ℕ). spelled base a (digit_char (x % base) ∷ buffer)) (sym last_digit)
            ∙ spelled-digit x base buffer two most)
      | inr more ↦ rw more (next ∙ spelled-digit x base buffer two most)
    ]

push_digits-AllDigits :
    (fuel x base : ℕ) (buffer : List ℕ)
    → 0 < base
    → AllDigits base buffer
    → AllDigits base (push_digits fuel x base buffer)
unfolding push_digits
push_digits-AllDigits zero x base buffer some_base all = all
push_digits-AllDigits (suc fuel) x base buffer some_base all =
    let more : AllDigits base (digit_char (x % base) ∷ buffer) =
      ((x % base, mod-lt x some_base, refl), all) in
    elim (Bool-cases (x / base == 0)) [
      | inl done ↦ rw done more
      | inr left ↦ rw left (
          push_digits-AllDigits fuel (x / base) base (digit_char (x % base) ∷ buffer) some_base
            more)
    ]

repeated-swap :
    (n c : ℕ) (buffer : List ℕ) → repeated n c ++ (c ∷ buffer) ≡ c ∷ (repeated n c ++ buffer)
repeated-swap zero c buffer = refl
repeated-swap (suc n) c buffer = ap (λ (l : List ℕ). c ∷ l) (repeated-swap n c buffer)

padded-repeated : (n c : ℕ) (buffer : List ℕ) → padded n c buffer ≡ repeated n c ++ buffer
padded-repeated zero c buffer = refl
padded-repeated (suc n) c buffer = padded-repeated n c (c ∷ buffer) ∙ repeated-swap n c buffer

-- at least one digit, and no zero in front of another digit
abbrev pub Shortest : List ℕ → Type 0
Shortest ds = (0 < length ds) × ((length ds ≡ 1) ⊎ (get_or ds 0 0 ≢ 48))

-- The digit pushed last is not a zero, unless the number is 0.
push_digits-first :
    (fuel x base : ℕ) (buffer : List ℕ)
    → 1 < base
    → base ≤ 16
    → 0 < x
    → x < 2 ^ suc fuel
    → get_or (push_digits (suc fuel) x base buffer) 0 0 ≢ 48
unfolding push_digits
push_digits-first zero x base buffer two most some enough =
    let one : x ≡ 1 = omega arith in
    let last_digit : x / base ≡ 0 = omega (arith, half_at_most x base two) in
    let low : x % base ≡ x = digit_alone x base last_digit in ground (arith, last_digit, low)
push_digits-first (suc fuel) x base buffer two most some enough =
    elim (Bool-cases (x / base == 0)) [
      | inl done ↦
          let last_digit : x / base ≡ 0 = ground (arith, done) in
          let some_base : 0 < base = omega arith in
          let low : x % base ≡ x = digit_alone x base last_digit in
          rw done (ground (arith, low, mod-lt x some_base))
      | inr left ↦ rw left (
          push_digits-first fuel (x / base) base (digit_char (x % base) ∷ buffer) two most
            (ground (arith, left)) (omega (arith, half_at_most x base two, pow-suc 2 (suc fuel))))
    ]

below_power : (n y : ℕ) → 0 < y → y < 3 ^ n → 0 < n
below_power zero y some small = omega arith
below_power (suc n) y some small = omega arith

-- A number below a power of three has no more digits than that power's exponent.
length-push_digits :
    (fuel n x base : ℕ) (buffer : List ℕ)
    → 2 < base
    → 0 < n
    → x < 3 ^ n
    → length (push_digits fuel x base buffer) ≤ n + length buffer
unfolding push_digits
length-push_digits zero n x base buffer three some small = omega arith
length-push_digits (suc fuel) (suc n) x base buffer three some small =
    elim (Bool-cases (x / base == 0)) [
      | inl done ↦ rw done (omega arith)
      | inr left ↦
          let next : x / base < 3 ^ n =
            omega (arith, third_at_most x base three, pow-suc 3 n, small) in
          let more : 0 < n = below_power n (x / base) (ground (arith, left)) next in
          let rest =
            length-push_digits fuel n (x / base) base (digit_char (x % base) ∷ buffer) three more
              next in
          rw left (omega (arith, rest))
    ]
length-push_digits (suc fuel) zero x base buffer three some small = absurd (omega arith)

-- a digit is pushed
push_digits-some :
    (fuel x base : ℕ) (buffer : List ℕ) → length buffer ≤ length (push_digits fuel x base buffer)
unfolding push_digits
push_digits-some zero x base buffer = omega arith
push_digits-some (suc fuel) x base buffer =
    ground (arith, push_digits-some fuel (x / base) base (digit_char (x % base) ∷ buffer))

push_digits-zero :
    (fuel base : ℕ) (buffer : List ℕ) → push_digits (suc fuel) 0 base buffer ≡ 48 ∷ buffer
unfolding push_digits
push_digits-zero fuel base buffer = ground arith

push_digits-pos :
    (fuel x base : ℕ) (buffer : List ℕ) → 0 < length (push_digits (suc fuel) x base buffer)
unfolding push_digits
push_digits-pos fuel x base buffer =
    ground (arith, push_digits-some fuel (x / base) base (digit_char (x % base) ∷ buffer))

push_digits-Shortest :
    (x base : ℕ) → 1 < base → base ≤ 16 → x < 2 ^ 32 → Shortest (push_digits 32 x base [])
push_digits-Shortest x base two most small = (
  push_digits-pos 31 x base [],
  elim (Bool-cases (x == 0)) [
    | inl none_left ↦
        let nothing : x ≡ 0 = ground (arith, none_left) in
        inl (
          ap (λ (y : ℕ). length (push_digits 32 y base [])) nothing
          ∙ ap length (push_digits-zero 31 base []))
    | inr some ↦ inr (push_digits-first 31 x base [] two most (ground (arith, some)) small)
  ],
)

length-repeated : (n c : ℕ) (cs : List ℕ) → length (repeated n c ++ cs) ≡ n + length cs
length-repeated zero c cs = omega arith
length-repeated (suc n) c cs = omega (arith, length-repeated n c cs)

-- In any base from 3 to 16, the text of a 32-bit number is padding, a minus sign where the number is
-- printed as a signed one and is negative, and digits of the base that spell its absolute value: at
-- least one, and no zero in front of another one. The padding is what a field of at most 32 characters lacks: zeros
-- in base 16, and spaces otherwise. The whole fits into 32 characters.
pub number_text_lem :
    (x base : ℕ) (sign : Bool) (padding : ℕ)
    → x < 2 ^ 32
    → 2 < base
    → base ≤ 16
    → (ds : List ℕ) × AllDigits base ds
      × Shortest ds
      × (spelled base 0 ds ≡ (if sign && leb (2 ^ 31) x then 2 ^ 32 - x else x))
      × (number_text x base sign padding
          ≡ repeated
              (min padding 32 - length (if sign && leb (2 ^ 31) x then 45 ∷ ds else ds))
              (if base == 16 then 48 else 32)
            ++ (if sign && leb (2 ^ 31) x then 45 ∷ ds else ds))
      × (length (number_text x base sign padding) ≤ 32)
unfolding number_text
number_text_lem x base sign padding small three most =
    let negative : Bool = sign && leb (2 ^ 31) x in
    let x' : ℕ = if negative then sub32 0 x else x in
    let ds = push_digits 32 x' base [] in
    let signed : List ℕ = if negative then 45 ∷ ds else ds in
    let lacking : ℕ = min padding 32 - length signed in
    let pad : ℕ = if base == 16 then 48 else 32 in
    let two : 1 < base = omega arith in
    let within : x' < 2 ^ 32 = ground (arith, small) in
    let text = padded-repeated lacking pad signed in
    let few : length ds ≤ 21 + 0 =
      length-push_digits 32 21 x' base [] three (omega arith) (omega (arith, within)) in
    let longer : length signed ≤ 22 = ground (arith, few) in
    (
      ds,
      push_digits-AllDigits 32 x' base [] (omega arith) tt,
      push_digits-Shortest x' base two most within,
      push_digits-spelled 31 x' base [] two most within ∙ ground (arith, small),
      text,
      omega (arith, ap length text, length-repeated lacking pad signed, longer),
    )
