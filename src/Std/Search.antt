-- ===== src/Std/Search.antt =====
-- The functions that look for a character, compare memory, and copy part of a string.
use legendary_journey.Base.{
  ℕ, zero, suc, ◌+◌, ◌≤◌, ◌<◌, ◌^◌, ◌≡◌, ◌↔◌, ◌∙◌, ◌⊎◌, refl, true, false, Option, some, none, List,
  [], ◌∷◌, arith, ◌==◌, if◌then◌else◌, min, Block, write, slice, add32, length, take, pos,
}
use legendary_journey.Std.{strchr, strnchr, memcmp, strncpy}
use legendary_journey.Std.Strings.{CString}
use legendary_journey.Std.Move.{moved, moved-write}

-- a place in the rest of a list, in the whole list
abbrev later : Option ℕ → Option ℕ
later none = none
later (some k) = some (suc k)

-- the place of the first occurrence
abbrev pub index_of : ℕ → List ℕ → Option ℕ
index_of c [] = none
index_of c (x ∷ xs) = let rest = index_of c xs in if x == c then some 0 else later rest

-- the address of that place; NULL if there is none
abbrev pub found : ℕ → Option ℕ → ℕ
found a none = 0
found a (some k) = a + k

found-later : (a : ℕ) (o : Option ℕ) → found a (later o) ≡ found (a + 1) o
found-later a none = refl
found-later a (some k) = omega arith

pub found_next :
    (a c x : ℕ) (xs : List ℕ)
    → (x == c) ≡ false
    → found a (index_of c (x ∷ xs)) ≡ found (a + 1) (index_of c xs)
found_next a c x xs h = rw h (found-later a (index_of c xs))

found_here : (a c x : ℕ) (xs : List ℕ) → (x == c) ≡ true → found a (index_of c (x ∷ xs)) ≡ a
found_here a c x xs h = rw h (omega arith)

-- `strchr` ends within one round more than the string has characters, and returns the address of
-- the first occurrence of the character in the string, or NULL.
pub strchr_lem :
    (fuel : ℕ) (m : Block) (a c : ℕ) (cs : List ℕ)
    → CString m a cs
    → length cs < fuel
    → strchr fuel m a c ≡ some (found a (index_of c cs))
unfolding strchr
strchr_lem zero m a c cs h enough = absurd (omega arith)
strchr_lem (suc fuel) m a c [] h enough = ground arith
strchr_lem (suc fuel) m a c (x ∷ xs) (e, some_char, byte, room, rest) enough =
    let p : add32 a 1 ≡ a + 1 = omega arith in
    rw (p, strchr_lem fuel m (a + 1) c xs rest (omega arith))
      (ground (arith, found_here a c x xs, found_next a c x xs))

-- `strnchr` returns the address of the first occurrence of the character among the first `n` of the
-- string, or NULL.
pub strnchr_lem :
    (n : ℕ) (m : Block) (a c : ℕ) (cs : List ℕ)
    → CString m a cs
    → strnchr n m a c ≡ found a (index_of c (take n cs))
unfolding strnchr
strnchr_lem zero m a c cs h = refl
strnchr_lem (suc n) m a c [] h = ground arith
strnchr_lem (suc n) m a c (x ∷ xs) (e, some_char, byte, room, rest) =
    let p : add32 a 1 ≡ a + 1 = omega arith in
    rw (p, strnchr_lem n m (a + 1) c xs rest)
      (ground (arith, found_here a c x (take n xs), found_next a c x (take n xs)))

-- `memcmp` returns 0 exactly if the two blocks hold the same bytes.
pub memcmp_lem :
    (n : ℕ) (m : Block) (a b : ℕ)
    → a + n < 2 ^ 32
    → b + n < 2 ^ 32
    → (memcmp n m a b ≡ pos 0) ↔ (slice m a n ≡ slice m b n)
unfolding memcmp slice
memcmp_lem zero m a b ha hb = (λ _. refl, λ _. refl)
memcmp_lem (suc n) m a b ha hb =
    let p : add32 a 1 ≡ a + 1 = omega arith in
    let q : add32 b 1 ≡ b + 1 = omega arith in
    rw (p, q) (ground (arith, memcmp_lem n m (a + 1) (b + 1) (omega arith) (omega arith)))

CString-frame :
    (m : Block) (a d x : ℕ) (cs : List ℕ)
    → CString m a cs
    → (d < a) ⊎ (a + length cs < d)
    → CString (write m d x) a cs
CString-frame m a d x [] h apart = ground arith
CString-frame m a d x (c ∷ cs) (e, some_char, byte, room, rest) apart =
    (ground arith, some_char, byte, room, CString-frame m (a + 1) d x cs rest (omega arith))

-- `strncpy` to a place apart from the string writes its first `n` characters there, or all of a
-- shorter string, and no null byte behind them.
pub strncpy_lem :
    (n dst a : ℕ) (m : Block) (cs : List ℕ)
    → CString m a cs
    → dst + n < 2 ^ 32
    → (dst + n ≤ a) ⊎ (a + length cs < dst)
    → (i : ℕ) → strncpy dst a n m i ≡ moved dst a (min n (length cs)) m i
unfolding strncpy
strncpy_lem zero dst a m cs h room apart i = ground arith
strncpy_lem (suc n) dst a m [] h room apart i = ground arith
strncpy_lem (suc n) dst a m (c ∷ cs) (e, some_char, byte, fits, rest) room apart i =
    let p : add32 dst 1 ≡ dst + 1 = omega arith in
    let q : add32 a 1 ≡ a + 1 = omega arith in
    let m' = write m dst (m a) in
    let more =
      strncpy_lem n (dst + 1) (a + 1) m' cs
        (CString-frame m (a + 1) dst (m a) cs rest (omega arith)) (omega arith) (omega arith) i in
    let some_left : (m a == 0) ≡ false = ground arith in
    let k = min n (length cs) in
    let one_more : min (suc n) (suc (length cs)) ≡ suc k = omega arith in
    rw (p, q, some_left, one_more) (more ∙ moved-write k dst a m (omega arith) i)
