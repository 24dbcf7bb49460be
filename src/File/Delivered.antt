-- ===== src/File/Delivered.antt =====
-- The whole of `fileread`: the rounds of its loop and the bytes behind the last whole sector.
use Prim.Native.Nat.{bit_and}
use mathlib.Core.Path.{subst}
use legendary_journey.Base.{
  ℕ, zero, suc, ◌+◌, ◌-◌, min, sub32, ◌*◌, ◌/◌, ◌%◌, ◌≤◌, ◌<◌, ◌^◌, ◌≡◌, ◌∙◌, refl, sym, ap, Bool,
  true, false, not, some, List, arith, ltb, ◌==◌, Bool-cases, inl, inr, if◌then◌else◌, Block, add32,
  length, drop, ℤ, pos,
}
use legendary_journey.Fat.{BootSector, Fat}
use legendary_journey.Fat.Covered.{Covered}
use legendary_journey.File.{File, fileisdir, capacity, copied, read_only}
use legendary_journey.File.Io.{Reading, read_loop, last_part, read_size, read_open, fileread}
use legendary_journey.File.Seek.{Geometry}
use legendary_journey.File.Stream.{Remaining, Sound, ahead}
use legendary_journey.File.Read.{stream, stream-drop, drop-drop, Rounds, rounds_lem, buffer_stream}

pub stream-drops :
    (s : Fat) (lbas : List ℕ) (k x : ℕ) → stream s (drop k lbas) x ≡ stream s lbas (k * 512 + x)
stream-drops s lbas zero x = let start : x ≡ 0 * 512 + x = omega arith in ap (stream s lbas) start
stream-drops s lbas (suc k) x =
    let split : 512 + (k * 512 + x) ≡ suc k * 512 + x = omega arith in
    ap (λ (l : List ℕ). stream s l x) (sym (drop-drop k lbas))
    ∙ stream-drops s (drop 1 lbas) k x
    ∙ stream-drop s lbas (k * 512 + x)
    ∙ ap (stream s lbas) split

-- Copying the whole sectors and then the rest is copying all.
copied_rest :
    (g buf out mid : Block) (o k n i at left from : ℕ)
    → o < 512
    → at ≡ k * 512 - o
    → left ≡ n - at
    → from ≡ (if k == 0 then o else 0)
    → k ≡ (o + n) / 512
    → ((x : ℕ) → x < 512 → buf x ≡ g (k * 512 + x))
    → mid i ≡ copied out 0 g o at i
    → copied mid at buf from left i ≡ copied out 0 g o n i
copied_rest g buf out mid o k n i at left from inside moved gap start rounds same before =
    ground (arith, same (from + (i - at)), before)

-- what a read of `n` bytes leaves
pub record Delivered (boot : BootSector) (s : Fat) (file : File) (cs : List ℕ) (n : ℕ) (out : Block)
    (r : Reading) : Type 0 where
  pub bytes :
      (i : ℕ) → r.out i ≡ copied out 0 (stream s (ahead boot file cs)) (file.position % 512) n i
  pub position : r.file.position ≡ file.position + n
  pub remaining :
      (rest : List ℕ) × Remaining boot s r.file rest
      × (ahead boot r.file rest ≡ drop ((file.position % 512 + n) / 512) (ahead boot file cs))
  pub fsentry : r.file.fsentry ≡ file.fsentry
  pub totalclusters : r.file.totalclusters ≡ file.totalclusters
  pub firstcluster : r.file.firstcluster ≡ file.firstcluster
  pub opened : r.file.opened ≡ file.opened

Rounds-last :
    (boot : BootSector) (s : Fat) (file : File) (cs : List ℕ) (out : Block) (n : ℕ)
    → Geometry boot
    → Covered boot s
    → file.position + n < 2 ^ 32
    → (r : Rounds boot s
        ((file.position % 512 + n) / 512)
        (record {
          out = out;
          done = 0;
          bytesleft = n;
          sectorpos = file.position % 512;
          file = file;
        })
        cs)
    → Delivered boot s file cs n out (last_part boot r.after)
unfolding last_part
Rounds-last boot s file cs out n geo cov small r =
    let k : ℕ = (file.position % 512 + n) / 512 in
    let lbas = ahead boot file cs in
    let refl_add : 0 + (k * 512 - file.position % 512) ≡ k * 512 - file.position % 512 =
      omega arith in
    elim (Bool-cases (r.after.bytesleft == 0)) [
      | inl none_left ↦
          let exact : k * 512 - file.position % 512 ≡ n = ground (arith, none_left, r.bytesleft) in
          rw none_left (record {
            bytes = λ i.
                r.out i
                ∙ ap (λ (m : ℕ). copied out 0 (stream s lbas) (file.position % 512) m i) exact;
            position = r.position ∙ ap (λ (m : ℕ). file.position + m) exact;
            remaining = (r.rest, r.remaining, r.tail);
            fsentry = r.fsentry;
            totalclusters = r.totalclusters;
            firstcluster = r.firstcluster;
            opened = r.opened;
          })
      | inr some_left ↦ rw some_left (record {
        bytes = λ i.
            copied_rest (stream s lbas) r.after.file.buffer out r.after.out (file.position % 512) k
              n i r.after.done r.after.bytesleft r.after.sectorpos (omega arith)
              (omega (arith, r.done)) (omega (arith, r.bytesleft, r.done)) r.sectorpos refl
              (λ x h.
                buffer_stream boot s geo cov r.after.file r.rest x r.remaining h
                ∙ ap (λ (l : List ℕ). stream s l x) r.tail
                ∙ stream-drops s lbas k x)
              (r.out i
                ∙ ap (λ (m : ℕ). copied out 0 (stream s lbas) (file.position % 512) m i)
                    (sym (r.done ∙ refl_add)));
        position = omega (arith, r.position, r.bytesleft, small);
        remaining = (
          r.rest,
          record {
            chain = r.remaining.chain;
            inside = r.remaining.inside;
            holds = r.remaining.holds;
          },
          r.tail,
        );
        fsentry = r.fsentry;
        totalclusters = r.totalclusters;
        firstcluster = r.firstcluster;
        opened = r.opened;
      })
    ]

guards_passed {ℓ} :
    {A : Type ℓ} (a b c : Bool) (x y z w : A)
    → a ≡ false
    → b ≡ false
    → c ≡ false
    → (if a then x else if b then y else if c then z else w) ≡ w
guards_passed a b c x y z w first second third = rw (first, second, third) refl

read_open-run :
    (boot : BootSector) (s : Fat) (file : File) (out : Block) (size : ℕ) (after : Reading)
    → add32 (file.position % 512) (read_size boot file size) / 512
      ≡ (file.position % 512 + read_size boot file size) / 512
    → read_loop boot
        ((file.position % 512 + read_size boot file size) / 512)
        (record {
          out = out;
          done = 0;
          bytesleft = read_size boot file size;
          sectorpos = file.position % 512;
          file = file;
        })
        s
      ≡ (true, after, s)
    → read_open boot file out size s
      ≡ (pos (read_size boot file size), (last_part boot after).out, (last_part boot after).file, s)
unfolding read_open
read_open-run boot s file out size after rounds run = rw (rounds, run) refl

-- What `_fileread` does where the bytes that are asked for end before the last sector ahead.
pub read_open_lem :
    (boot : BootSector) (s : Fat) (file : File) (cs : List ℕ) (out : Block) (size : ℕ)
    → Geometry boot
    → Covered boot s
    → Remaining boot s file cs
    → Sound s (ahead boot file cs)
    → file.position + read_size boot file size < 2 ^ 32
    → (file.position % 512 + read_size boot file size) / 512 < length (ahead boot file cs)
    → (after : Reading) × (read_open boot file out size s
        ≡ (pos (read_size boot file size), after.out, after.file, s))
      × Delivered boot s file cs (read_size boot file size) out after
read_open_lem boot s file cs out size geo cov at sound small inside =
    let n = read_size boot file size in
    let start : Reading = record {
      out = out;
      done = 0;
      bytesleft = n;
      sectorpos = file.position % 512;
      file = file;
    } in
    let r =
      rounds_lem boot s geo cov ((file.position % 512 + n) / 512) start cs
        (record { remaining = at; sound = sound; sector = omega arith; small = small })
        (omega arith) inside in
    let rounds : add32 (file.position % 512) n / 512 ≡ (file.position % 512 + n) / 512 =
      let low : file.position % 512 ≤ file.position = omega arith in
      ap (λ (k : ℕ). k / 512) (omega (arith, low, small)) in
    (
      last_part boot r.after,
      read_open-run boot s file out size r.after rounds r.run,
      Rounds-last boot s file cs out n geo cov small r,
    )

-- `fileread` of a file that passes its checks
pub fileread_delivers :
    (boot : BootSector) (s : Fat) (file : File) (cs : List ℕ) (out : Block) (size : ℕ)
    → Geometry boot
    → Covered boot s
    → Remaining boot s file cs
    → Sound s (ahead boot file cs)
    → file.opened ≡ true
    → bit_and file.fsentry.attributes read_only ≡ 0
    → 0 < size
    → file.position + read_size boot file size < 2 ^ 32
    → (file.position % 512 + read_size boot file size) / 512 < length (ahead boot file cs)
    → (after : Reading) × (fileread boot (some file) out size s
        ≡ (pos (read_size boot file size), after.out, some after.file, s))
      × Delivered boot s file cs (read_size boot file size) out after
unfolding fileread
fileread_delivers boot s file cs out size geo cov at sound is_open readable some_bytes small
      inside =
    let (after, run, d) = read_open_lem boot s file cs out size geo cov at sound small inside in
    let asks : (size == 0) ≡ false = ground arith in
    (
      after,
      guards_passed (not file.opened) (not (bit_and file.fsentry.attributes read_only == 0))
            (size == 0) _ _ _ _ (ap not is_open) (ap (λ (a : ℕ). not (a == 0)) readable) asks
          ∙ ap (λ ((k, o, f, t) : ℤ × Block × File × Fat). (k, o, some f, t)) run,
      d,
    )

-- what a read leaves that returns `n`
abbrev Delivers : BootSector → Fat → File → List ℕ → Block → ℕ → ℕ → Type 0
Delivers boot s file cs out size n =
    (out' : Block) × (file' : File) × (rest : List ℕ) × (fileread boot (some file) out size s
      ≡ (pos n, out', some file', s))
    × ((i : ℕ)
        → out' i
          ≡ (if ltb i n then stream s (ahead boot file cs) (file.position % 512 + i) else out i))
    × (file'.position ≡ file.position + n)
    × Remaining boot s file' rest
    × (ahead boot file' rest ≡ drop ((file.position % 512 + n) / 512) (ahead boot file cs))

fileread_counts :
    (boot : BootSector) (s : Fat) (file : File) (cs : List ℕ) (out : Block) (size : ℕ)
    → Geometry boot
    → Covered boot s
    → Remaining boot s file cs
    → Sound s (ahead boot file cs)
    → file.opened ≡ true
    → bit_and file.fsentry.attributes read_only ≡ 0
    → 0 < size
    → file.position + read_size boot file size < 2 ^ 32
    → (file.position % 512 + read_size boot file size) / 512 < length (ahead boot file cs)
    → Delivers boot s file cs out size (read_size boot file size)
fileread_counts boot s file cs out size geo cov at sound is_open readable some_bytes small inside =
    let (after, run, d) =
      fileread_delivers boot s file cs out size geo cov at sound is_open readable some_bytes small
        inside in
    (
      after.out,
      after.file,
      d.remaining.0,
      run,
      λ i. d.bytes i ∙ ground arith,
      d.position,
      d.remaining.1,
      d.remaining.2,
    )

-- the number of bytes of a file: those of its clusters, and of a file that is no directory no more than
-- its size
abbrev pub file_bytes : BootSector → File → ℕ
file_bytes boot file =
    let clusters = file.totalclusters * boot.sectorspercluster * 512 in
    if fileisdir file then clusters else min clusters file.fsentry.filesize

-- `size` bytes, or those that the file has behind its position where these are fewer
abbrev pub bytes_to_read : BootSector → File → ℕ → ℕ
bytes_to_read boot file size = min size (file_bytes boot file - file.position)

file_bytes-lt :
    (boot : BootSector) (file : File)
    → file.totalclusters * boot.sectorspercluster * 512 < 2 ^ 32
    → file_bytes boot file < 2 ^ 32
file_bytes-lt boot file fits = ground (arith, fits)

read_size-bytes_to_read :
    (boot : BootSector) (file : File) (size : ℕ)
    → boot.bytespersector ≡ 512
    → file.totalclusters * boot.sectorspercluster * 512 < 2 ^ 32
    → file.position ≤ file_bytes boot file
    → read_size boot file size ≡ bytes_to_read boot file size
unfolding read_size
read_size-bytes_to_read boot file size sector fits inside =
    let clusters : capacity boot file ≡ file.totalclusters * boot.sectorspercluster * 512 =
      rw sector (omega (arith, fits)) in
    let most : file_bytes boot file < 2 ^ 32 = file_bytes-lt boot file fits in
    let total : (if fileisdir file
          then capacity boot file
          else min (capacity boot file) file.fsentry.filesize)
        ≡ file_bytes boot file =
      ap (λ (n : ℕ). if fileisdir file then n else min n file.fsentry.filesize) clusters in
    ap (λ (n : ℕ). min size (sub32 n file.position)) total ∙ omega (arith, most, inside)

-- For an open file that is not read-only, on a volume of 512-byte sectors whose table fits into the
-- cache and stands there, with sound sectors ahead, whose clusters have fewer than 2 ^ 32 bytes,
-- with the position inside the file, and where the bytes that are asked for end before the last of
-- those sectors: `fileread` of at least one byte returns the smaller of `size` and of the number of
-- bytes that the file has behind its position, and the caller's block holds so many bytes of the
-- sectors that lie ahead, in order, from the position on. A file has the bytes of its clusters, and
-- one that is no directory has no more than its size. The rest of the block, the table and the
-- drive are as they were. The file stands behind the bytes, at the sector that holds its position.
pub fileread_lem :
    (boot : BootSector) (s : Fat) (file : File) (cs : List ℕ) (out : Block) (size : ℕ)
    → Geometry boot
    → Covered boot s
    → Remaining boot s file cs
    → Sound s (ahead boot file cs)
    → file.opened ≡ true
    → bit_and file.fsentry.attributes read_only ≡ 0
    → 0 < size
    → file.totalclusters * boot.sectorspercluster * 512 < 2 ^ 32
    → file.position ≤ file_bytes boot file
    → (file.position % 512 + bytes_to_read boot file size) / 512 < length (ahead boot file cs)
    → (out' : Block) × (file' : File) × (rest : List ℕ) × (fileread boot (some file) out size s
        ≡ (pos (bytes_to_read boot file size), out', some file', s))
      × ((i : ℕ)
          → out' i ≡ (
              if ltb i (bytes_to_read boot file size)
              then stream s (ahead boot file cs) (file.position % 512 + i)
              else out i))
      × (file'.position ≡ file.position + bytes_to_read boot file size)
      × Remaining boot s file' rest
      × (ahead boot file' rest
          ≡ drop ((file.position % 512 + bytes_to_read boot file size) / 512) (ahead boot file cs))
fileread_lem boot s file cs out size geo cov at sound is_open readable some_bytes fits known
      inside =
    let same = read_size-bytes_to_read boot file size geo.sector_bytes fits known in
    subst (λ (n : ℕ). Delivers boot s file cs out size n) same
      (fileread_counts boot s file cs out size geo cov at sound is_open readable some_bytes
        (omega (arith, same, file_bytes-lt boot file fits, known)) (omega (arith, same, inside)))
