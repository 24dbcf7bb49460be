-- ===== src/Dir/Opened.antt =====
-- What an opened or closed file is.
use legendary_journey.Base.{
  ℕ, zero, suc, ◌≡◌, ◌∙◌, refl, sym, ap, Bool, true, false, not, ◌||◌, Option, none, some, arith,
  ◌==◌, if_true, if_false, Bool-cases, inl, inr, if◌then◌else◌, ◌>>=◌, Block,
}
use legendary_journey.Fat.{BootSector, Fat}
use legendary_journey.Path.{path_sep, path_next}
use legendary_journey.File.{File, fileisdir}
use legendary_journey.File.Seek.{fileseek-same}
use legendary_journey.Dir.Open.{
  Scratch, Opening, returned, entered, onward, fileopen, fcreate, fdirectory, fexists, asks,
  opened_file, open_round, open_loop, open_root, creates,
}

-- a file that is open, and a directory exactly if `FDIRECTORY` is asked for
abbrev pub IsOpened : ℕ → File → Type 0
IsOpened flags file = (file.opened ≡ true) × (fileisdir file ≡ asks flags fdirectory)

pub >>=-eq-some {ℓ κ} :
    {A : Type ℓ} {B : Type κ} (m : Option A) (f : A → Option B) {b : B}
    → (m >>= f) ≡ some b
    → (a : A) × (m ≡ some a) × (f a ≡ some b)
>>=-eq-some none f h = absurd (cc)
>>=-eq-some (some a) f h = (a, refl, h)

pub some-inj {ℓ} : {A : Type ℓ} {x y : A} → some x ≡ some y → x ≡ y
some-inj {x} e = ap (λ o. elim o [ none ↦ x | some z ↦ z ]) e

-- `FTRUNC`, which stands for no flags, asks for none of the others.
asks_some :
    (flags flag : ℕ)
    → asks 1 flag ≡ false
    → asks 0 flag ≡ false
    → asks (if flags == 0 then 1 else flags) flag ≡ asks flags flag
asks_some flags flag one zero' = elim (Bool-cases (flags == 0)) [
  | inl none_given ↦
      let is_zero : flags ≡ 0 = ground (arith, none_given) in
      ap (λ (k : ℕ). asks k flag) (if_true _ _ none_given)
      ∙ one
      ∙ sym (ap (λ (k : ℕ). asks k flag) is_zero ∙ zero')
  | inr given ↦ ap (λ (k : ℕ). asks k flag) (if_false _ _ given)
]

module _ (boot : BootSector) (fuel : ℕ) (m : Block) (scratch : Scratch) (flags : ℕ)
    (finds : asks flags fexists ≡ false) where
  opened_file-IsOpened :
      (file : File) (s : Fat) {to : File} {s' : Fat}
      → opened_file boot fuel m scratch flags file s ≡ (true, to, s')
      → IsOpened flags to
  unfolding opened_file
  opened_file-IsOpened file s e =
      ground
        (arith, finds, fileseek-same boot (record file { opened = true }) file.fsentry.filesize s)

  module _ (keeps : asks flags fcreate ≡ false) where
    -- Without FCREATE a round only returns errors.
    open_round-returned :
        (start size : ℕ) (dir : File) (s : Fat) {ok : Bool} {to : File} {s' : Fat}
        → open_round boot fuel m scratch start size flags dir s ≡ some (returned ok to s')
        → ok ≡ false
    unfolding open_round creates
    open_round-returned start size dir s e = ground (arith, keeps)

    -- A round and what stands behind it.
    behind :
        (next size : ℕ) (file : File) (s : Fat) (rest : File → Fat → Option (Bool × File × Fat))
        (round : Opening) {to : File} {s' : Fat}
        → (if size == 0
            then some (entered file s)
            else open_round boot fuel m scratch next size flags file s)
          ≡ some round
        → onward round rest ≡ some (true, to, s')
        → ((f : File) (t : Fat) → rest f t ≡ some (true, to, s') → IsOpened flags to)
        → IsOpened flags to
    behind next size file s rest (entered f t) ran e opens = opens f t e
    behind next size file s rest (returned ok f t) ran e opens = elim (Bool-cases (size == 0)) [
      | inl done ↦
          let still : some (entered file s) ≡ some (returned ok f t) =
            sym (if_true _ _ done) ∙ ran in
          absurd (cc)
      | inr more ↦
          let failed = open_round-returned next size file s (sym (if_false _ _ more) ∙ ran) in
          absurd (cc)
    ]

    open_loop-IsOpened :
        (rounds start : ℕ) (file : File) (s : Fat) {to : File} {s' : Fat}
        → open_loop boot fuel m scratch rounds start flags file s ≡ some (true, to, s')
        → IsOpened flags to
    unfolding open_loop
    open_loop-IsOpened zero start file s e = absurd (cc)
    open_loop-IsOpened (suc rounds) start file s e =
        let ((next, size), _, rest) = >>=-eq-some (path_next fuel m start) _ e in
        let (round, ran, onwards) =
          >>=-eq-some
            (if size == 0
              then some (entered file s)
              else open_round boot fuel m scratch next size flags file s)
            _ rest in
        behind next size file s _ round ran onwards (λ f t q. elim (Bool-cases (size == 0)) [
          | inl done ↦ opened_file-IsOpened f t (some-inj (sym (if_true _ _ done) ∙ q))
          | inr more ↦ open_loop-IsOpened rounds next f t (sym (if_false _ _ more) ∙ q)
        ])

-- What `fileopen` opens, when it returns true and was asked neither to create a file nor only whether
-- it exists: the file is open, and it is a directory exactly if FDIRECTORY was given.
pub fileopen-IsOpened :
    (boot : BootSector) (fuel : ℕ) (m : Block) (scratch : Scratch) (pathname flags : ℕ)
    (file : File) (s : Fat) {to : File} {s' : Fat}
    → asks flags fcreate ≡ false
    → asks flags fexists ≡ false
    → fileopen boot fuel m scratch pathname flags (some file) s ≡ some (true, to, s')
    → IsOpened flags to
unfolding fileopen
fileopen-IsOpened boot fuel m scratch pathname flags file s keeps finds e =
    let ((root, s₁), _, rest) = >>=-eq-some (open_root boot fuel m scratch file s) _ e in
    let flags' : ℕ = if flags == 0 then 1 else flags in
    elim (Bool-cases ((pathname == 0) || not (m pathname == path_sep))) [
      | inl wrong ↦ let refused = some-inj (sym (if_true _ _ wrong) ∙ rest) in absurd (cc)
      | inr right ↦
          let r =
            open_loop-IsOpened boot fuel m scratch flags'
              (asks_some flags fexists refl refl ∙ finds)
              (asks_some flags fcreate refl refl ∙ keeps) fuel pathname root s₁
              (sym (if_false _ _ right) ∙ rest) in
          (r.0, r.1 ∙ asks_some flags fdirectory refl refl)
    ]
