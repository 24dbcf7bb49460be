-- ===== src/Screen/Print.antt =====
-- src/kernel/graphics/printf.c: numbers and formats.
use legendary_journey.Base.{
  ℕ, zero, suc, ◌+◌, ◌-◌, ◌*◌, ◌/◌, ◌%◌, ◌^◌, Bool, true, false, ◌&&◌, ◌||◌, Option, none, some,
  List, [], ◌∷◌, ltb, leb, ◌==◌, if◌then◌else◌, ◌>>=◌, Block, add32, sub32, min, length,
}
use legendary_journey.Std.{strlen, isdigit}
use legendary_journey.Screen.{Screen, putc, putsn}

abbrev pub printint_buffer_size : ℕ
printint_buffer_size = 32

-- `digits[d]` of "0123456789ABCDEF"
abbrev pub digit_char : ℕ → ℕ
digit_char d = if ltb d 10 then 48 + d else 55 + d

-- the `do` loop: the buffer, with the character pushed last at its head. The list has no end at 32
-- characters, which only a number in base 2 can need more of than `buffer` has.
unfoldable pub push_digits : ℕ → ℕ → ℕ → List ℕ → List ℕ
push_digits zero x base buffer = buffer
push_digits (suc fuel) x base buffer =
    let buffer' = digit_char (x % base) ∷ buffer in
    let rest = push_digits fuel (x / base) base buffer' in if x / base == 0 then buffer' else rest

-- `n` times the same character in front
abbrev pub padded : ℕ → ℕ → List ℕ → List ℕ
padded zero c buffer = buffer
padded (suc n) c buffer = padded n c (c ∷ buffer)

-- the characters that `printint` prints; a padding that is negative or 0 adds none
unfoldable pub number_text : ℕ → ℕ → Bool → ℕ → List ℕ
unfolding push_digits
number_text x base sign padding =
    let negative = sign && leb (2 ^ 31) x in
    let x' = if negative then sub32 0 x else x in
    let number = push_digits printint_buffer_size x' base [] in
    let signed = if negative then 45 ∷ number else number in
    padded (min padding printint_buffer_size - length signed) (if base == 16 then 48 else 32) signed

unfoldable pub printint : ℕ → ℕ → Bool → ℕ → Screen → Screen
unfolding number_text putsn
printint x base sign padding s = putsn (number_text x base sign padding) s

-- `while (*s) putc(*s++)`
unfoldable pub put_string : ℕ → Block → ℕ → Screen → Option Screen
unfolding putc
put_string zero m str s = none
put_string (suc fuel) m str s =
    let rest = put_string fuel m (add32 str 1) (putc (m str) s) in
    if m str == 0 then some s else rest

-- the loop of `printf` that reads a padding: the padding, and the index of the character behind it
unfoldable pub read_padding : ℕ → Block → ℕ → ℕ → ℕ → Option (ℕ × ℕ)
unfolding isdigit
read_padding zero m format i padding = none
read_padding (suc fuel) m format i padding =
    let next = m (add32 format i) in
    let rest = read_padding fuel m format (i + 1) ((padding * 10 + (next - 48)) % 2 ^ 32) in
    if isdigit next then rest else some ((padding, i))

-- `padding` read as a signed number, negative ones as 0
abbrev pub positive : ℕ → ℕ
positive padding = if ltb padding (2 ^ 31) then padding else 0

abbrev pub spaces : ℕ → List ℕ
spaces n = padded n 32 []

-- the case `s`: the padding, and then the string
unfoldable pub print_string : ℕ → Block → ℕ → ℕ → Screen → Option Screen
unfolding strlen put_string putsn
print_string fuel m str padding s = do
  len ← strlen fuel m str
  let before = if positive padding == 0 then s else putsn (spaces (positive (sub32 padding len))) s
  put_string fuel m str before

-- one conversion, with `err` the address of `strerror(errno)`: the screen, and the arguments used
unfoldable pub conversion : ℕ → Block → ℕ → ℕ → Bool → ℕ → Block → Screen → Option (Screen × ℕ)
unfolding printint print_string put_string putsn putc
conversion fuel m err next islong padding args s =
    if next == 37
    then some ((putc 37 s, 0))
    else if next == 100
    then some ((printint (args 0) 10 true (positive padding) s, 1))
    else if next == 117
    then some ((printint (args 0) 10 false (positive padding) s, 1))
    else if (next == 112) || (next == 120)
    then (let s' = printint (args 0) 16 false (positive padding) s in
        if islong then some ((printint (args 1) 16 false 0 s', 2)) else some ((s', 1)))
    else if next == 99
    then some ((putc (args 0 % 256) (putsn (spaces (positive padding - 1)) s), 1))
    else if next == 109
    then (do s' ← put_string fuel m err s; some ((s', 0)))
    else if next == 115
    then (do s' ← print_string fuel m (args 0) padding s; some ((s', 1)))
    else some ((putc next (putc 37 s), 0))

-- the loop of `printf` from index `i` of the format; `none` is a format or a string that is
-- longer than the fuel
unfoldable pub printf_loop : ℕ → Block → ℕ → ℕ → ℕ → Block → Screen → Option Screen
unfolding read_padding conversion putc
printf_loop zero m err format i args s = none
printf_loop (suc fuel) m err format i args s =
    let c = m (add32 format i) in
    let plain = printf_loop fuel m err format (i + 1) args (putc c s) in
    let converted = (do
      (padding, at) ← read_padding (suc fuel) m format (i + 1) 0
      let islong = m (add32 format at) == 108
      let at' = if islong then at + 1 else at
      (s', used) ← conversion (suc fuel) m err (m (add32 format at')) islong padding args s
      printf_loop fuel m err format (at' + 1) (λ k. args (used + k)) s') in
    if c == 0 then some s else if c == 37 then converted else plain

unfoldable pub printf : ℕ → Block → ℕ → ℕ → Block → Screen → Option Screen
unfolding printf_loop
printf fuel m err format args s = printf_loop fuel m err format 0 args s
