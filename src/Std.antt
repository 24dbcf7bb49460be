-- ===== src/Std.antt =====
-- src/kernel/std.c: memory and string functions, over one memory of bytes that pointers are
-- addresses of. A loop that ends only at a null byte takes fuel, and `none` is a string that is
-- longer than the fuel.
pub mod Move
pub mod Strings
pub mod Search
mod Tests
use legendary_journey.Base.{
  ℕ, zero, suc, ◌+◌, ◌-◌, ◌^◌, Bool, true, false, not, ◌&&◌, ◌||◌, Option, none, some, ltb, leb,
  ◌==◌, if◌then◌else◌, Block, write, add32, sub32, ℤ, pos, minus, char_minus,
}

-- `while (--n)` after one round: 0 wraps round before it is tested
abbrev pub rounds : ℕ → ℕ
rounds n = if n == 0 then 2 ^ 32 else n

unfoldable pub memcmp : ℕ → Block → ℕ → ℕ → ℤ
memcmp zero m left right = pos 0
memcmp (suc n) m left right =
    let rest = memcmp n m (add32 left 1) (add32 right 1) in
    if m left == m right then rest else minus (m left) (m right)

-- copying upwards, `n` bytes: the loop of `memcpy` and the first loop of `memmove`
unfoldable pub copy_up : ℕ → ℕ → ℕ → Block → Block
copy_up zero dst src m = m
copy_up (suc n) dst src m = copy_up n (add32 dst 1) (add32 src 1) (write m dst (m src))

-- copying downwards: the second loop of `memmove`
unfoldable pub copy_down : ℕ → ℕ → ℕ → Block → Block
copy_down zero dst src m = m
copy_down (suc n) dst src m =
    let d = sub32 dst 1 in let s = sub32 src 1 in copy_down n d s (write m d (m s))

unfoldable pub memcpy : ℕ → ℕ → ℕ → Block → Block
unfolding copy_up
memcpy dst src n m = copy_up n dst src m

unfoldable pub memset : ℕ → ℕ → ℕ → Block → Block
memset dst c zero m = m
memset dst c (suc n) m = memset (add32 dst 1) c n (write m dst c)

unfoldable pub memmove : ℕ → ℕ → ℕ → Block → Block
unfolding copy_up copy_down
memmove dst src n m =
    if ltb dst src
    then copy_up (rounds n) dst src m
    else copy_down (rounds n) (add32 dst n) (add32 src n) m

-- the address of the character; 0 is NULL
unfoldable pub strchr : ℕ → Block → ℕ → ℕ → Option ℕ
strchr zero m str c = none
strchr (suc fuel) m str c =
    let rest = strchr fuel m (add32 str 1) c in
    if m str == 0 then some 0 else if m str == c then some str else rest

-- the loop of `strlen`, at the count `len`
unfoldable pub strlen_loop : ℕ → Block → ℕ → ℕ → Option ℕ
strlen_loop zero m str len = none
strlen_loop (suc fuel) m str len =
    let rest = strlen_loop fuel m str (add32 len 1) in
    if m (add32 str len) == 0 then some (sub32 (add32 len 1) 1) else rest

unfoldable pub strlen : ℕ → Block → ℕ → Option ℕ
unfolding strlen_loop
strlen fuel m str = strlen_loop fuel m str 0

unfoldable pub strcmp : ℕ → Block → ℕ → ℕ → Option ℤ
strcmp zero m str1 str2 = none
strcmp (suc fuel) m str1 str2 =
    let rest = strcmp fuel m (add32 str1 1) (add32 str2 1) in
    if (m str1 == 0) || (m str2 == 0)
    then some (char_minus (m str2) (m str1))
    else if m str1 == m str2
    then rest
    else some (char_minus (m str2) (m str1))

-- the loop of `strncmp` with `left` decrements of `n` before it is 0
unfoldable pub strncmp_loop : ℕ → Block → ℕ → ℕ → ℤ
strncmp_loop zero m str1 str2 = char_minus (m str1) (m str2)
strncmp_loop (suc left) m str1 str2 =
    let rest = strncmp_loop left m (add32 str1 1) (add32 str2 1) in
    if (not (m str1 == 0) && not (m str2 == 0)) && (m str1 == m str2)
    then rest
    else char_minus (m str1) (m str2)

unfoldable pub strncmp : ℕ → Block → ℕ → ℕ → ℤ
unfolding strncmp_loop
strncmp n m str1 str2 = strncmp_loop (rounds n - 1) m str1 str2

unfoldable pub strncpy : ℕ → ℕ → ℕ → Block → Block
strncpy str1 str2 zero m = m
strncpy str1 str2 (suc n) m =
    let rest = strncpy (add32 str1 1) (add32 str2 1) n (write m str1 (m str2)) in
    if m str2 == 0 then m else rest

unfoldable pub strnchr : ℕ → Block → ℕ → ℕ → ℕ
strnchr zero m str c = 0
strnchr (suc n) m str c =
    let rest = strnchr n m (add32 str 1) c in
    if m str == 0 then 0 else if m str == c then str else rest

unfoldable pub isdigit : ℕ → Bool
isdigit ch = leb 48 ch && leb ch 57

unfoldable pub isxdigit : ℕ → Bool
isxdigit ch = (leb 48 ch && leb ch 57) || (leb 97 ch && leb ch 102) || (leb 65 ch && leb ch 70)

unfoldable pub isalpha : ℕ → Bool
isalpha ch = (leb 65 ch && leb ch 90) || (leb 97 ch && leb ch 122)

unfoldable pub isalnum : ℕ → Bool
unfolding isalpha isdigit
isalnum ch = isalpha ch || isdigit ch

unfoldable pub islower : ℕ → Bool
islower ch = leb 97 ch && leb ch 122

unfoldable pub isupper : ℕ → Bool
isupper ch = leb 65 ch && leb ch 90

unfoldable pub isspace : ℕ → Bool
isspace ch = (ch == 32) || (ch == 12) || (ch == 10) || (ch == 13) || (ch == 9) || (ch == 11)

unfoldable pub isprint : ℕ → Bool
isprint ch = leb 32 ch && leb ch 126

unfoldable pub umin : ℕ → ℕ → ℕ
umin a b = if ltb b a then b else a

unfoldable pub umax : ℕ → ℕ → ℕ
umax a b = if ltb b a then a else b
