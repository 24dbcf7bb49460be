-- ===== src/Path/Next.antt =====
-- `path_next` against the components of a path.
use legendary_journey.Base.{
  ℕ, zero, suc, ◌+◌, ◌<◌, ◌^◌, ◌≡◌, ◌∙◌, ap, true, false, not, ◌&&◌, some, ◌≢◌, ◌++◌, List, [], ◌∷◌,
  arith, ◌==◌, if_true, if_false, Block, add32, length,
}
use legendary_journey.Std.Strings.{CString}
use legendary_journey.Path.{to_separator, over_separators, path_next}

-- no character is a separator, or every one is
abbrev pub NoSeparator : List ℕ → Type 0
NoSeparator [] = Unit
NoSeparator (c ∷ cs) = (c ≢ 47) × NoSeparator cs

abbrev pub AllSeparators : List ℕ → Type 0
AllSeparators [] = Unit
AllSeparators (c ∷ cs) = (c ≡ 47) × AllSeparators cs

-- The path ends or has a separator next; it has none next.
abbrev pub AtEnd : List ℕ → Type 0
AtEnd [] = Unit
AtEnd (c ∷ cs) = c ≡ 47

abbrev pub AtComponent : List ℕ → Type 0
AtComponent [] = Unit
AtComponent (c ∷ cs) = c ≢ 47

pub CString-behind :
    (m : Block) (a : ℕ) (xs ys : List ℕ)
    → CString m a (xs ++ ys)
    → a < 2 ^ 32
    → CString m (a + length xs) ys × (a + length xs < 2 ^ 32)
CString-behind m a [] ys h small =
    let here : a + 0 ≡ a = omega arith in (rw here h, omega (arith, small))
CString-behind m a (x ∷ xs) ys (e, some_char, byte, fits, rest) small =
    let on : a + 1 + length xs ≡ a + suc (length xs) = omega arith in
    let r = CString-behind m (a + 1) xs ys rest fits in (rw on at r.0, omega (arith, r.1))

to_separator_lem :
    (fuel : ℕ) (m : Block) (a size : ℕ) (cs rest : List ℕ)
    → CString m a (cs ++ rest)
    → NoSeparator cs
    → AtEnd rest
    → length cs < fuel
    → to_separator fuel m a size ≡ some (a + length cs, size + length cs)
unfolding to_separator
to_separator_lem zero m a size cs rest h plain ends enough = absurd (omega arith)
to_separator_lem (suc fuel) m a size [] [] h plain ends enough =
    let stop : (not (m a == 47) && not (m a == 0)) ≡ false = ground (arith, h) in
    let start : a ≡ a + 0 = omega arith in
    let none_more : size ≡ size + 0 = omega arith in
    if_false _ _ stop
    ∙ ap (λ (x : ℕ). some (x, size)) start
    ∙ ap (λ (x : ℕ). some (a + 0, x)) none_more
to_separator_lem (suc fuel) m a size [] (r ∷ rest) (e, some_char, byte, fits, more) plain ends
      enough =
    let stop : (not (m a == 47) && not (m a == 0)) ≡ false = ground (arith, e, ends) in
    let start : a ≡ a + 0 = omega arith in
    let none_more : size ≡ size + 0 = omega arith in
    if_false _ _ stop
    ∙ ap (λ (x : ℕ). some (x, size)) start
    ∙ ap (λ (x : ℕ). some (a + 0, x)) none_more
to_separator_lem (suc fuel) m a size (c ∷ cs) rest (e, some_char, byte, fits, h) (other, plain) ends
      enough =
    let go : (not (m a == 47) && not (m a == 0)) ≡ true = ground (arith, e, other, some_char) in
    let next : add32 a 1 ≡ a + 1 = omega (arith, fits) in
    let on : a + 1 + length cs ≡ a + suc (length cs) = omega arith in
    let counted : size + 1 + length cs ≡ size + suc (length cs) = omega arith in
    if_true _ _ go
    ∙ ap (λ (x : ℕ). to_separator fuel m x (size + 1)) next
    ∙ to_separator_lem fuel m (a + 1) (size + 1) cs rest h plain ends (omega arith)
    ∙ ap (λ (x : ℕ). some (x, size + 1 + length cs)) on
    ∙ ap (λ (x : ℕ). some (a + suc (length cs), x)) counted

over_separators_lem :
    (fuel : ℕ) (m : Block) (a : ℕ) (cs rest : List ℕ)
    → CString m a (cs ++ rest)
    → AllSeparators cs
    → AtComponent rest
    → length cs < fuel
    → over_separators fuel m a ≡ some (a + length cs)
unfolding over_separators
over_separators_lem zero m a cs rest h seps ends enough = absurd (omega arith)
over_separators_lem (suc fuel) m a [] [] h seps ends enough =
    let stop : (m a == 47) ≡ false = ground (arith, h) in
    let start : a ≡ a + 0 = omega arith in if_false _ _ stop ∙ ap some start
over_separators_lem (suc fuel) m a [] (r ∷ rest) (e, some_char, byte, fits, more) seps ends enough =
    let stop : (m a == 47) ≡ false = ground (arith, e, ends) in
    let start : a ≡ a + 0 = omega arith in if_false _ _ stop ∙ ap some start
over_separators_lem (suc fuel) m a (c ∷ cs) rest (e, some_char, byte, fits, h) (sep, seps) ends
      enough =
    let go : (m a == 47) ≡ true = ground (arith, e, sep) in
    let next : add32 a 1 ≡ a + 1 = omega (arith, fits) in
    let on : a + 1 + length cs ≡ a + suc (length cs) = omega arith in
    if_true _ _ go
    ∙ ap (over_separators fuel m) next
    ∙ over_separators_lem fuel m (a + 1) cs rest h seps ends (omega arith)
    ∙ ap some on

-- From a component, `path_next` goes over it and the separators behind it, however many they are, to the next component, and returns
-- the size of that one: 0 at the end of the path. It ends within one round more than the path has characters.
pub path_next_lem :
    (fuel : ℕ) (m : Block) (a : ℕ) (here seps next rest : List ℕ)
    → CString m a (here ++ (seps ++ (next ++ rest)))
    → NoSeparator here
    → AllSeparators seps
    → NoSeparator next
    → AtEnd (seps ++ (next ++ rest))
    → AtComponent (next ++ rest)
    → AtEnd rest
    → a < 2 ^ 32
    → length here + length seps + length next < fuel
    → path_next fuel m a ≡ some (a + length here + length seps, length next)
unfolding path_next
path_next_lem fuel m a here seps next rest h plain all plain' ends starts ends' small enough =
    let first =
      to_separator_lem fuel m a 0 here (seps ++ (next ++ rest)) h plain ends
        (omega (arith, enough)) in
    let behind = CString-behind m a here (seps ++ (next ++ rest)) h small in
    let second =
      over_separators_lem fuel m (a + length here) seps (next ++ rest) behind.0 all starts
        (omega (arith, enough)) in
    let there = CString-behind m (a + length here) seps (next ++ rest) behind.0 behind.1 in
    let third =
      to_separator_lem fuel m (a + length here + length seps) 0 next rest there.0 plain' ends'
        (omega (arith, enough)) in
    let counted : 0 + length next ≡ length next = omega arith in
    rw (first, second, third) (ap (λ (k : ℕ). some (a + length here + length seps, k)) counted)
