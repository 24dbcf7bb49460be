-- ===== src/Program/Files.antt =====
-- What the calls do to the files of a program.
use mathlib.Core.Path.{subst}
use legendary_journey.Base.{
  ℕ, zero, suc, ◌+◌, ◌≤◌, ◌<◌, ◌≡◌, ◌≢◌, ◌∙◌, ◌⊎◌, inl, inr, refl, sym, ap, Bool, true, false, not,
  Option, none, some, arith, ◌==◌, Bool-cases, Option-cases, if◌then◌else◌, if_true, if_false,
  Block, mul32, ℤ, pos, negsuc,
}
use legendary_journey.Errno.{emfile}
use legendary_journey.Fat.{BootSector, Fat}
use legendary_journey.File.{File, fail}
use legendary_journey.File.Write.{filewrite, checked}
use legendary_journey.Path.{path_max}
use legendary_journey.Path.Join.{path_load}
use legendary_journey.Dir.{negative}
use legendary_journey.Dir.Open.{fileopen, asks, fcreate, fexists}
use legendary_journey.Dir.Opened.{IsOpened, fileopen-IsOpened, >>=-eq-some, some-inj}
use legendary_journey.Program.{Machine, paths_of}
use legendary_journey.Program.Calls.{
  Process, put_file, with_fat, free_fd, load_path, open_at, open_free, fopen, wrote, fwrite,
}

-- The number that the loop ends with is that of a file that is not open.
free_fd-some :
    (left fd : ℕ) (files : ℕ → File) (best : Option ℕ) {k : ℕ}
    → free_fd left fd files best ≡ some k
    → (best ≡ some k) ⊎ ((fd ≤ k) × (k < fd + left) × ((files k).opened ≡ false))
unfolding free_fd
free_fd-some zero fd files best e = inl e
free_fd-some (suc left) fd files best {k} e =
    elim (free_fd-some left (fd + 1) files (if not (files fd).opened then some fd else best) e) [
      | inl now ↦ elim (Bool-cases (files fd).opened) [
        | inl taken ↦ inl (sym (if_false _ _ (ap not taken)) ∙ now)
        | inr free ↦
            let here : fd ≡ k = some-inj (sym (if_true _ _ (ap not free)) ∙ now) in
            inr (
              omega (arith, here),
              omega (arith, here),
              ap (λ (x : ℕ). (files x).opened) (sym here) ∙ free,
            )
      ]
      | inr later ↦ inr (omega (arith, later.0), omega (arith, later.1), later.2)
    ]

==_refl : (n : ℕ) → (n == n) ≡ true
==_refl n = ground arith

not_best {ℓ} : {P : Type ℓ} {k : ℕ} → (none ≡ some k) ⊎ P → P
not_best (inl none_some) = absurd (cc)
not_best (inr p) = p

free_fd-none :
    (left fd : ℕ) (files : ℕ → File)
    → ((k : ℕ) → fd ≤ k → k < fd + left → (files k).opened ≡ true)
    → free_fd left fd files none ≡ none
unfolding free_fd
free_fd-none zero fd files taken = refl
free_fd-none (suc left) fd files taken =
    ap (free_fd left (fd + 1) files) (if_false _ _ (ap not (taken fd (omega arith) (omega arith))))
    ∙ free_fd-none left (fd + 1) files (λ k low high. taken k (omega arith) (omega arith))

module _ (mc : Machine) where
  -- a path is loaded, and no file is touched
  load_path-files :
      (path : ℕ) (p : Process) {r : ℤ} {p' : Process}
      → load_path mc path p ≡ some (r, p')
      → p'.files ≡ p.files
  unfolding load_path
  load_path-files path p e =
      let (_, _, done) =
        >>=-eq-some (path_load mc.fuel p.dir path p.temp_path path_max (paths_of p.system)) _ e in
      ap (λ ((_, q) : ℤ × Process). q.files) (sym (some-inj done))

  open_at-IsOpened :
      (fd flags : ℕ) (p : Process) {to : ℕ} {p' : Process}
      → asks flags fcreate ≡ false
      → asks flags fexists ≡ false
      → open_at mc fd flags p ≡ some (some to, p')
      → (to ≡ fd) × IsOpened flags (p'.files fd) × ((k : ℕ) → k ≢ fd → p'.files k ≡ p.files k)
  unfolding open_at
  open_at-IsOpened fd flags p {to} {p'} keeps finds e =
      let ((ok, file, fat), ran, done) =
        >>=-eq-some
          (fileopen mc.boot mc.fuel p.system.kernel.mem mc.scratch p.temp_path flags
            (some (p.files fd)) p.system.fat)
          _ e in
      let result = some-inj done in
      let files : p'.files ≡ put_file fd file p.files =
        ap (λ ((_, q) : Option ℕ × Process). q.files) (sym result) in
      let fp : (if ok then some fd else none) ≡ some to =
        ap (λ ((o, _) : Option ℕ × Process). o) result in
      elim (Bool-cases ok) [
        | inl opened ↦
            let here : fd ≡ to = some-inj (sym (if_true _ _ opened) ∙ fp) in
            let own : put_file fd file p.files fd ≡ file = if_true _ _ (==_refl fd) in
            (
              sym here,
              subst (λ (f : File). IsOpened flags f) (sym (ap (λ (g : ℕ → File). g fd) files ∙ own))
                  (fileopen-IsOpened mc.boot mc.fuel p.system.kernel.mem mc.scratch p.temp_path
                    flags (p.files fd) p.system.fat keeps finds
                    (ran ∙ ap (λ (b : Bool). some (b, file, fat)) opened)),
              λ k other.
                  let away : (k == fd) ≡ false = ground (arith, other) in
                  ap (λ (g : ℕ → File). g k) files ∙ if_false _ _ away,
            )
        | inr failed ↦
            let none_some : none ≡ some to = sym (if_false _ _ failed) ∙ fp in absurd (cc)
      ]

  fopen-none :
      (path flags : ℕ) (p : Process)
      → free_fd 4 0 p.files none ≡ none
      → fopen mc path flags p ≡ some (none, with_fat (fail emfile p.system.fat) p)
  unfolding fopen
  fopen-none path flags p full = ap (λ (o : Option ℕ). open_free mc path flags o p) full

  fopen-some :
      (path flags : ℕ) (p : Process) (fd : ℕ)
      → free_fd 4 0 p.files none ≡ some fd
      → fopen mc path flags p ≡ open_free mc path flags (some fd) p
  unfolding fopen
  fopen-some path flags p fd found = ap (λ (o : Option ℕ). open_free mc path flags o p) found

  -- the end of `fopen`
  opened_at :
      (fd flags : ℕ) (r : ℤ) (p : Process) {to : ℕ} {p' : Process}
      → asks flags fcreate ≡ false
      → asks flags fexists ≡ false
      → (if negative r then some (none, p) else open_at mc fd flags p) ≡ some (some to, p')
      → (to ≡ fd) × IsOpened flags (p'.files fd) × ((k : ℕ) → k ≢ fd → p'.files k ≡ p.files k)
  opened_at fd flags (pos n) p keeps finds e = open_at-IsOpened fd flags p keeps finds e
  opened_at fd flags (negsuc n) p {to} keeps finds e =
      let none_some : none ≡ some to = ap (λ ((o, _) : Option ℕ × Process). o) (some-inj e) in
      absurd (cc)

-- `fopen`, when it returns a file and was asked neither to create one nor only whether it exists,
-- takes one of the four files that was not open before, leaves the others as they were, and that
-- file is then open, and a directory exactly if FDIRECTORY was given.
pub fopen_lem :
    (mc : Machine) (path flags : ℕ) (p : Process) (fd : ℕ) (p' : Process)
    → asks flags fcreate ≡ false
    → asks flags fexists ≡ false
    → fopen mc path flags p ≡ some (some fd, p')
    → (fd < 4)
      × ((p.files fd).opened ≡ false)
      × IsOpened flags (p'.files fd)
      × ((k : ℕ) → k ≢ fd → p'.files k ≡ p.files k)
fopen_lem mc path flags p fd p' keeps finds e = elim (Option-cases (free_fd 4 0 p.files none)) [
  | inl full ↦
      let refused = sym (fopen-none mc path flags p full) ∙ e in
      let none_some : none ≡ some fd = ap (λ ((o, _) : Option ℕ × Process). o) (some-inj refused) in
      absurd (cc)
  | inr (free, found) ↦
      let ((r, loaded), load, rest) =
        >>=-eq-some (load_path mc path p) _ (sym (fopen-some mc path flags p free found) ∙ e) in
      let at = opened_at mc free flags r loaded keeps finds rest in
      let same = load_path-files mc path p load in
      let closed = not_best (free_fd-some 4 0 p.files none found) in
      (
        omega (arith, at.0, closed.1),
        ap (λ (k : ℕ). (p.files k).opened) at.0 ∙ closed.2,
        subst (λ (k : ℕ). IsOpened flags (p'.files k)) (sym at.0) at.1,
        λ k other. at.2 k (λ is_free. other (is_free ∙ sym at.0)) ∙ ap (λ (g : ℕ → File). g k) same,
      )
]

-- With all four files open, `fopen` returns NULL with EMFILE, whatever the path and the flags, and changes
-- nothing else.
pub fopen_full :
    (mc : Machine) (path flags : ℕ) (p : Process)
    → ((k : ℕ) → k < 4 → (p.files k).opened ≡ true)
    → fopen mc path flags p ≡ some (none, with_fat (fail emfile p.system.fat) p)
fopen_full mc path flags p taken =
    fopen-none mc path flags p (free_fd-none 4 0 p.files (λ k low high. taken k (omega arith)))

filewrite_nothing :
    (boot : BootSector) (file : File) (src : Block) (s : Fat)
    → file.opened ≡ true
    → filewrite boot (some file) src 0 s ≡ (pos 1, some file, s)
unfolding filewrite checked
filewrite_nothing boot file src s is_open = if_false _ _ (ap not is_open)

-- `fwrite` of items of size 0 from a buffer that is not NULL to an open file divides by 0:
-- `filewrite` returns 1 for 0 bytes.
pub fwrite_divides :
    (mc : Machine) (buffer count fd : ℕ) (p : Process)
    → 0 < buffer
    → (p.files fd).opened ≡ true
    → fwrite mc buffer 0 count (some fd) p ≡ none
unfolding fwrite
fwrite_divides mc buffer count fd p some_address is_open =
    let written : filewrite mc.boot (some (p.files fd)) (λ i. p.system.kernel.mem (buffer + i)) 0
          p.system.fat
        ≡ (pos 1, some (p.files fd), p.system.fat) =
      filewrite_nothing mc.boot (p.files fd) (λ i. p.system.kernel.mem (buffer + i)) p.system.fat
        is_open in
    let used : (buffer == 0) ≡ false = ground (arith, some_address) in
    let bytes : mul32 0 count ≡ 0 = omega arith in
    if_false _ _ used
    ∙ ap
        (λ (n : ℕ). wrote mc 0 (some fd) p (
          filewrite mc.boot (some (p.files fd)) (λ i. p.system.kernel.mem (buffer + i)) n
            p.system.fat))
        bytes
    ∙ ap (wrote mc 0 (some fd) p) written
