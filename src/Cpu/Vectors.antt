-- ===== src/Cpu/Vectors.antt =====
-- The gates of the interrupt table, and what the loops of the start do to the tables.
use Prim.Native.Nat.{bit_or}
use legendary_journey.Base.{
  ℕ, zero, suc, ◌+◌, ◌*◌, ◌%◌, ◌≤◌, ◌<◌, ◌^◌, ◌≡◌, ◌≢◌, ◌∙◌, refl, sym, ap, Bool, true, false, ◌&&◌,
  ◌||◌, arith, ltb, leb, ◌==◌, Bool-cases, inl, inr, if◌then◌else◌, if_true, if_false,
}
use legendary_journey.Cpu.{
  IdtEntry, exceptionhandler, irqstub, Cpu, replaced, idtset, idtenable, fill_from, isrinstall,
  install_exceptions, install_stubs, stub_flags,
}

-- the address that a gate leads to
abbrev pub gate_address : IdtEntry → ℕ
gate_address e = e.offset_lo + 65536 * e.offset_hi

-- `idtset` makes the gate lead to its handler, in the code segment and of the kind that it is given,
-- and changes no other gate.
pub idtset_lem :
    (index base selector flags : ℕ) (s : Cpu)
    → base < 2 ^ 32
    → let s' = idtset index base selector flags s in
      (gate_address (s'.entries index) ≡ base)
      × ((s'.entries index).selector ≡ selector)
      × ((s'.entries index).flags ≡ flags)
      × ((i : ℕ) → i ≢ index → s'.entries i ≡ s.entries i)
unfolding idtset
idtset_lem index base selector flags s small =
    let here : (index == index) ≡ true = ground arith in
    (
      ap gate_address (if_true _ _ here) ∙ omega (arith, small),
      ap (λ (e : IdtEntry). e.selector) (if_true _ _ here),
      ap (λ (e : IdtEntry). e.flags) (if_true _ _ here),
      λ i other. let beside : (i == index) ≡ false = ground (arith, other) in if_false _ _ beside,
    )

-- What the loops leave in a gate, by a number that is read off it.
module _ (read : IdtEntry → ℕ) (stubs : ℕ → ℕ) where
  pub fill_from_beside :
      (n from : ℕ) (s : Cpu) (i : ℕ)
      → i < from
      → read ((fill_from stubs n from s).entries i) ≡ read (s.entries i)
  unfolding fill_from idtset
  fill_from_beside zero from s i h = refl
  fill_from_beside (suc n) from s i h =
      let beside : (i == from) ≡ false = ground (arith, h) in
      fill_from_beside n (from + 1) (idtset from (stubs from) 8 stub_flags s) i (omega arith)
      ∙ ap read (if_false _ _ beside)

  pub fill_from_lem :
      (n from : ℕ) (s : Cpu) (i value : ℕ)
      → ((s' : Cpu) → read ((idtset i (stubs i) 8 stub_flags s').entries i) ≡ value)
      → from ≤ i
      → i < from + n
      → read ((fill_from stubs n from s).entries i) ≡ value
  unfolding fill_from
  fill_from_lem zero from s i value one low high = absurd (omega arith)
  fill_from_lem (suc n) from s i value one low high = elim (Bool-cases (i == from)) [
    | inl here ↦
        let same : from ≡ i = ground (arith, here) in
        fill_from_beside n (from + 1) (idtset from (stubs from) 8 stub_flags s) i
          (omega (arith, same))
        ∙ ap (λ (k : ℕ). read ((idtset k (stubs k) 8 stub_flags s).entries i)) same
        ∙ one s
    | inr later ↦
        fill_from_lem n (from + 1) (idtset from (stubs from) 8 stub_flags s) i value one
          (ground (arith, low, later)) (omega arith)
  ]

-- index `i` is one of the `n` from `from` on
abbrev pub within : ℕ → ℕ → ℕ → Bool
within from n i = leb from i && ltb i (from + n)

either {ℓ} :
    {A : Type ℓ} (a old : A) (b c : Bool)
    → (if b then a else if c then a else old) ≡ (if b || c then a else old)
either a old true c = refl
either a old false true = refl
either a old false false = refl

-- a range and the index before it
range_step {ℓ} :
    {A : Type ℓ} (a old : A) (from n i : ℕ)
    → (if within (from + 1) n i then a else if i == from then a else old)
      ≡ (if within from (suc n) i then a else old)
range_step a old from n i =
    let whole : (within (from + 1) n i || (i == from)) ≡ within from (suc n) i = ground arith in
    either a old (within (from + 1) n i) (i == from) ∙ ap (λ (b : Bool). if b then a else old) whole

range_empty {ℓ} : {A : Type ℓ} (a old : A) (from i : ℕ) → old ≡ (if within from 0 i then a else old)
range_empty a old from i =
    let none_inside : within from 0 i ≡ false = ground arith in sym (if_false _ _ none_inside)

pub install_exceptions_isrs :
    (n from : ℕ) (s : Cpu) (i : ℕ)
    → from + n ≤ 256
    → (install_exceptions n from s).isrs i
      ≡ (if within from n i then exceptionhandler else s.isrs i)
unfolding install_exceptions isrinstall idtenable
install_exceptions_isrs zero from s i small = range_empty exceptionhandler (s.isrs i) from i
install_exceptions_isrs (suc n) from s i small =
    let index : from % 256 ≡ from = omega (arith, small) in
    install_exceptions_isrs n (from + 1) (idtenable from (isrinstall from exceptionhandler s)) i
      (omega (arith, small))
    ∙ ap
        (λ (k : ℕ).
          if within (from + 1) n i then exceptionhandler else replaced s.isrs k exceptionhandler i)
        index
    ∙ range_step exceptionhandler (s.isrs i) from n i

pub install_stubs_isrs :
    (n from : ℕ) (s : Cpu) (i : ℕ)
    → 32 + from + n ≤ 256
    → (install_stubs n from s).isrs i ≡ (if within (32 + from) n i then irqstub else s.isrs i)
unfolding install_stubs isrinstall
install_stubs_isrs zero from s i small = range_empty irqstub (s.isrs i) (32 + from) i
install_stubs_isrs (suc n) from s i small =
    let index : (32 + from) % 256 ≡ 32 + from = omega (arith, small) in
    let next : 32 + (from + 1) ≡ 32 + from + 1 = omega arith in
    install_stubs_isrs n (from + 1) (isrinstall (32 + from) irqstub s) i (omega (arith, small))
    ∙ ap
        (λ (k : ℕ). if within k n i then irqstub else replaced s.isrs ((32 + from) % 256) irqstub i)
        next
    ∙ ap (λ (k : ℕ). if within (32 + from + 1) n i then irqstub else replaced s.isrs k irqstub i)
        index
    ∙ range_step irqstub (s.isrs i) (32 + from) n i

pub install_stubs_entries : (n from : ℕ) (s : Cpu) → (install_stubs n from s).entries ≡ s.entries
unfolding install_stubs isrinstall
install_stubs_entries zero from s = refl
install_stubs_entries (suc n) from s =
    install_stubs_entries n (from + 1) (isrinstall (32 + from) irqstub s)

-- a gate with the present bit set
abbrev pub enabled : IdtEntry → IdtEntry
enabled e = record e { flags = bit_or e.flags 128 }

pub install_exceptions_entries :
    (n from : ℕ) (s : Cpu) (i : ℕ)
    → (install_exceptions n from s).entries i
      ≡ (if within from n i then enabled (s.entries i) else s.entries i)
unfolding install_exceptions isrinstall idtenable
install_exceptions_entries zero from s i = range_empty (enabled (s.entries i)) (s.entries i) from i
install_exceptions_entries (suc n) from s i = elim (Bool-cases (i == from)) [
  | inl here ↦
      let same : from ≡ i = ground (arith, here) in
      let outside : within (from + 1) n i ≡ false = ground (arith, same) in
      let inside : within from (suc n) i ≡ true = ground (arith, same) in
      install_exceptions_entries n (from + 1) (idtenable from (isrinstall from exceptionhandler s))
        i
      ∙ if_false _ _ outside
      ∙ if_true _ _ here
      ∙ ap (λ (k : ℕ). enabled (s.entries k)) same
      ∙ sym (if_true _ _ inside)
  | inr other ↦
      let old : replaced s.entries from (enabled (s.entries from)) i ≡ s.entries i =
        if_false _ _ other in
      let whole : within (from + 1) n i ≡ within from (suc n) i = ground (arith, other) in
      install_exceptions_entries n (from + 1) (idtenable from (isrinstall from exceptionhandler s))
        i
      ∙ ap (λ (e : IdtEntry). if within (from + 1) n i then enabled e else e) old
      ∙ ap (λ (b : Bool). if b then enabled (s.entries i) else s.entries i) whole
]
