-- ===== src/Shell/Words.antt =====
-- The arguments of a command of plain words.
use mathlib.Core.Path.{subst}
use legendary_journey.Base.{
  ℕ, zero, suc, ◌+◌, ◌≤◌, ◌<◌, ◌^◌, ◌≡◌, ◌≢◌, ◌∙◌, refl, ap, false, not, ◌||◌, ◌&&◌, Option, none,
  some, List, [], ◌∷◌, ◌++◌, append-nil, append_assoc, arith, leb, ◌==◌, if◌then◌else◌, if_false,
  Block, write, add32, length, length-append,
}
use legendary_journey.Std.{strchr}
use legendary_journey.Std.Strings.{CString}
use legendary_journey.Std.Search.{found, index_of, strchr_lem}
use legendary_journey.Path.{Paths}
use legendary_journey.Path.Copy.{CString-same}
use legendary_journey.Path.Next.{CString-behind}
use legendary_journey.Shell.Exec.{quote, space, shell_max_args, split_loop}

-- a character that is neither a space nor a quotation mark
abbrev pub Plain : ℕ → Type 0
Plain c = (c ≢ 32) × (c ≢ 34) × (c ≢ 39)

abbrev pub AllPlain : List ℕ → Type 0
AllPlain [] = Unit
AllPlain (c ∷ cs) = Plain c × AllPlain cs

-- A word has at least one character, and all of them are plain.
abbrev pub Word : List ℕ → Type 0
Word w = (0 < length w) × AllPlain w

abbrev pub Words : List (List ℕ) → Type 0
Words [] = Unit
Words (w ∷ ws) = Word w × Words ws

-- the words behind the first, each with a space before it
abbrev pub behind : List (List ℕ) → List ℕ
behind [] = []
behind (w ∷ ws) = 32 ∷ (w ++ behind ws)

-- the addresses of words that stand one character apart
abbrev pub starts : ℕ → List (List ℕ) → List ℕ
starts a [] = []
starts a (w ∷ ws) = a ∷ starts (a + length w + 1) ws

-- The words stand there as strings of their own.
abbrev pub AreStrings : Block → ℕ → List (List ℕ) → Type 0
AreStrings m a [] = Unit
AreStrings m a (w ∷ ws) = CString m a w × AreStrings m (a + length w + 1) ws

index_of-none : (w : List ℕ) → AllPlain w → index_of 32 w ≡ none
index_of-none [] h = refl
index_of-none (c ∷ cs) (other, h) = let later = index_of-none cs h in ground (arith, later, other)

index_of-space : (w rest : List ℕ) → AllPlain w → index_of 32 (w ++ 32 ∷ rest) ≡ some (length w)
index_of-space [] rest h = refl
index_of-space (c ∷ cs) rest (other, h) =
    let later = index_of-space cs rest h in ground (arith, later, other)

-- a string cut off behind its first part
CString-cut :
    (m m' : Block) (a : ℕ) (cs rest : List ℕ)
    → CString m a (cs ++ rest)
    → ((i : ℕ) → a ≤ i → i < a + length cs → m' i ≡ m i)
    → m' (a + length cs) ≡ 0
    → CString m' a cs
CString-cut m m' a [] rest h same end = let start : a ≡ a + 0 = omega arith in ap m' start ∙ end
CString-cut m m' a (c ∷ cs) rest (e, some_char, byte, fits, h) same end =
    let on : a + 1 + length cs ≡ a + suc (length cs) = omega arith in
    (
      same a (omega arith) (omega arith) ∙ e,
      some_char,
      byte,
      fits,
      CString-cut m m' (a + 1) cs rest h (λ i low high. same i (omega arith) (omega arith))
          (ap m' on ∙ end),
    )

-- the first character of a word in memory
pub first_char :
    (m : Block) (a : ℕ) (w rest : List ℕ)
    → CString m a (w ++ rest)
    → Word w
    → (quote (m a) ≡ false) × ((m a == 0) ≡ false) × ((m a == 32) ≡ false)
first_char m a [] rest h (some_char, plain) = absurd (omega arith)
first_char m a (c ∷ cs) rest (e, positive, byte, fits, h) (some_char, (plain, others)) =
    (ground (arith, e, plain), ground (arith, e, positive), ground (arith, e, plain))

-- one round at a word, with what `strchr` finds
round_lem :
    (rounds fuel a end : ℕ) (argv : List ℕ) (st : Paths)
    → 0 < a
    → (quote (st.mem a) ≡ false)
    → ((st.mem a == 0) ≡ false)
    → length argv < 16
    → strchr fuel st.mem a 32 ≡ some end
    → split_loop (suc rounds) fuel a argv st
      ≡ split_loop rounds fuel
          (if end == 0 then 0 else add32 end 1)
          (argv ++ a ∷ [])
          (if end == 0 then st else record st { mem = write st.mem end 0 })
unfolding split_loop
round_lem rounds fuel a end argv st some_address no_quote some_char few sought =
    let here : ((a == 0) || (st.mem a == 0)) ≡ false = ground (arith, some_address, some_char) in
    let no_failure : ((end == 0) && not (space == space)) ≡ false = ground arith in
    let room : leb shell_max_args (length argv) ≡ false = ground (arith, few) in
    if_false _ _ here ∙ rw (no_quote, sought) (if_false _ _ no_failure ∙ if_false _ _ room)

-- the round behind the last word
last_round :
    (rounds fuel : ℕ) (argv : List ℕ) (st : Paths)
    → split_loop (suc rounds) fuel 0 argv st ≡ some (some argv, st)
unfolding split_loop
last_round rounds fuel argv st = refl

-- what cutting the words from `a` on leaves
pub record Cut (rounds fuel a : ℕ) (argv : List ℕ) (st : Paths) (ws : List (List ℕ)) : Type 0 where
  pub mem : Block
  pub run :
      split_loop rounds fuel a argv st ≡ some (some (argv ++ starts a ws), record st { mem = mem })
  pub strings : AreStrings mem a ws
  pub kept : (i : ℕ) → i < a → mem i ≡ st.mem i

pub split-Words :
    (rounds fuel a : ℕ) (argv : List ℕ) (st : Paths) (w : List ℕ) (ws : List (List ℕ))
    → CString st.mem a (w ++ behind ws)
    → Words (w ∷ ws)
    → 0 < a
    → a < 2 ^ 32
    → length argv + length ws < 16
    → length (w ++ behind ws) < fuel
    → length ws + 1 < rounds
    → Cut rounds fuel a argv st (w ∷ ws)
split-Words zero fuel a argv st w ws h words some_address small few enough rounds_left =
    absurd (omega arith)
split-Words (suc zero) fuel a argv st w ws h words some_address small few enough rounds_left =
    absurd (omega arith)
split-Words (suc (suc rounds)) fuel a argv st w [] h (word, _) some_address small few enough
      rounds_left =
    let (no_quote, some_char, no_space) = first_char st.mem a w [] h word in
    let sought : strchr fuel st.mem a 32 ≡ some 0 =
      strchr_lem fuel st.mem a 32 (w ++ []) h enough
      ∙ ap (λ (l : List ℕ). some (found a (index_of 32 l))) (append-nil w)
      ∙ ap (λ (o : Option ℕ). some (found a o)) (index_of-none w word.1) in
    record {
      mem = st.mem;
      run =
          round_lem (suc rounds) fuel a 0 argv st some_address no_quote some_char (omega arith)
            sought
          ∙ last_round rounds fuel (argv ++ a ∷ []) st;
      strings =
          (let whole = append-nil w in subst (λ (l : List ℕ). CString st.mem a l) whole h, tt);
      kept = λ i lt. refl;
    }
split-Words (suc (suc rounds)) fuel a argv st w (v ∷ vs) h (word, words) some_address small few
      enough rounds_left =
    let (no_quote, some_char, no_space) = first_char st.mem a w (behind (v ∷ vs)) h word in
    let end : ℕ = a + length w in
    let next : ℕ = a + length w + 1 in
    let sought : strchr fuel st.mem a 32 ≡ some end =
      strchr_lem fuel st.mem a 32 (w ++ behind (v ∷ vs)) h enough
      ∙ ap (λ (o : Option ℕ). some (found a o)) (index_of-space w (v ++ behind vs) word.1) in
    let b = CString-behind st.mem a w (behind (v ∷ vs)) h small in
    let not_null : (end == 0) ≡ false = ground (arith, some_address) in
    let on : add32 end 1 ≡ next = omega (arith, b.0.3) in
    let st₁ : Paths = record st { mem = write st.mem end 0 } in
    let rest =
      CString-same st.mem st₁.mem next (v ++ behind vs) b.0.4 (λ i low high. ground (arith, low)) in
    let count = length-append w (behind (v ∷ vs)) in
    let added = length-append argv (a ∷ []) in
    let c =
      split-Words (suc rounds) fuel next (argv ++ a ∷ []) st₁ v vs rest words (omega arith)
        (omega (arith, b.0.3)) (omega (arith, added, few)) (omega (arith, count, enough))
        (omega (arith, rounds_left)) in
    record {
      mem = c.mem;
      run =
          round_lem (suc rounds) fuel a end argv st some_address no_quote some_char (omega arith)
            sought
          ∙ ap
              (λ (k : ℕ).
                split_loop (suc rounds) fuel k (argv ++ a ∷ []) (if end == 0 then st else st₁))
              (if_false _ _ not_null ∙ on)
          ∙ ap (λ (t : Paths). split_loop (suc rounds) fuel next (argv ++ a ∷ []) t)
              (if_false _ _ not_null)
          ∙ c.run
          ∙ ap (λ (l : List ℕ). some (some l, record st { mem = c.mem }))
              (append_assoc argv (a ∷ []) (starts next (v ∷ vs)));
      strings = (
        CString-cut st.mem c.mem a w (behind (v ∷ vs)) h
            (λ i low high. c.kept i (omega arith) ∙ ground (arith, high))
            (c.kept end (omega arith) ∙ ground arith),
        c.strings,
      );
      kept = λ i lt. c.kept i (omega arith) ∙ ground (arith, lt);
    }
