-- ===== src/File/At.antt =====
-- `fileseek` followed by `fileread`: the bytes at a position of a file.
use Prim.Native.Nat.{bit_and}
use mathlib.Core.Path.{subst}
use native.Mathlib.Nat.{mod-lt}
use legendary_journey.Base.{
  ℕ, ◌+◌, ◌-◌, ◌*◌, ◌/◌, ◌%◌, ◌≤◌, ◌<◌, ◌^◌, ◌≡◌, ◌∙◌, sym, ap, Bool, true, some, List, ◌∷◌, Option,
  arith, ltb, Bool-cases, inl, inr, if◌then◌else◌, if_true, if_false, min, Block, sub32, mul32,
  length, length-drop, drop, get_or, has, pos,
}
use legendary_journey.Ata.Transfer.{Healthy}
use legendary_journey.Fat.{BootSector, Fat}
use legendary_journey.Fat.Covered.{Covered, entries, table}
use legendary_journey.Fat.Walk.{Chain}
use legendary_journey.File.{DirEntry, File, fileisdir, read_only, capacity, copied, fileseek}
use legendary_journey.File.Io.{read_size, fileread}
use legendary_journey.File.Write.{file_after}
use legendary_journey.File.Seek.{sector_lba, Holds, Geometry, fileseek_lem, fileseek-same}
use legendary_journey.File.Stream.{
  Remaining, Sound, ahead, all_sectors, sectors_from, ahead_head, has-drop,
}
use legendary_journey.File.Read.{stream}
use legendary_journey.File.Delivered.{fileread_delivers, stream-drops}
use legendary_journey.File.Place.{Chain-drop, cluster-lt, sectors_at}

-- An open file that can be read, with its clusters, its sectors sound, and its buffer in order.
pub record Readable (boot : BootSector) (s : Fat) (file : File) (cs : List ℕ) : Type 0 where
  pub chain : Chain (table s) (entries boot) file.firstcluster cs
  pub sound : Sound s (all_sectors boot cs)
  pub holds : Holds boot s file.buffer file.currentcluster file.sectorincluster
  pub opened : file.opened ≡ true
  pub allowed : bit_and file.fsentry.attributes read_only ≡ 0

-- A read of all the bytes that are asked for.
read_size_all :
    (boot : BootSector) (file : File) (size : ℕ)
    → file.position + size ≤ capacity boot file
    → file.position + size ≤ file.fsentry.filesize
    → read_size boot file size ≡ size
unfolding read_size
read_size_all boot file size room known = elim (Bool-cases (fileisdir file)) [
  | inl dir ↦
      ap (λ (t : ℕ). min size (sub32 t file.position)) (if_true _ _ dir)
      ∙ exact (capacity boot file) room (omega arith)
  | inr plain ↦
      ap (λ (t : ℕ). min size (sub32 t file.position)) (if_false _ _ plain)
      ∙ exact (min (capacity boot file) file.fsentry.filesize) (omega arith) (omega arith)
]
  where
    exact :
        (t : ℕ) → file.position + size ≤ t → t < 2 ^ 32 → min size (sub32 t file.position) ≡ size
    exact t h small = omega arith

module _ (boot : BootSector) (s : Fat) (geo : Geometry boot) (cov : Covered boot s) (file : File)
    (cs : List ℕ) (r : Readable boot s file cs) (seek size : ℕ)
    (room : seek + size ≤ capacity boot file) (known : seek + size ≤ file.fsentry.filesize)
    (inside : (seek + size) / 512 < length (all_sectors boot cs)) where
  seek_inside : seek / 512 < length (all_sectors boot cs)
  seek_inside = omega (arith, inside)

  -- the sector of the position is one of the file's
  first_sound :
      Healthy s.disk
        (sector_lba boot
          (get_or cs (seek / (boot.sectorspercluster * 512)) 0)
          (seek / 512 % boot.sectorspercluster))
        1
  first_sound =
      let k = seek / (boot.sectorspercluster * 512) in
      let j = seek / 512 % boot.sectorspercluster in
      let ch = Chain-drop k r.chain (cluster-lt boot seek cs geo.some_sectors seek_inside) in
      let head =
        sym (ahead_head boot s j ch (mod-lt (seek / 512) geo.some_sectors))
        ∙ sectors_at boot seek cs geo.some_sectors seek_inside in
      let lba = sector_lba boot (get_or cs k 0) j in
      let first : has lba (lba ∷ drop 1 (sectors_from boot j (drop k cs))) ≡ true = ground arith in
      r.sound.sound lba (
        has-drop lba (seek / 512) (all_sectors boot cs)
          (subst (λ (l : List ℕ). has lba l ≡ true) head first))

  -- where `fileseek` puts the file
  record Placed (at : File) : Type 0 where
    run : fileseek boot (some file) seek s ≡ (true, some at, s)
    position : at.position ≡ seek
    opened : at.opened ≡ true
    fsentry : at.fsentry ≡ file.fsentry
    totalclusters : at.totalclusters ≡ file.totalclusters
    firstcluster : at.firstcluster ≡ file.firstcluster
    remaining : Remaining boot s at (drop (seek / (boot.sectorspercluster * 512)) cs)
    sectors :
        ahead boot at (drop (seek / (boot.sectorspercluster * 512)) cs)
        ≡ drop (seek / 512) (all_sectors boot cs)

  placed : (at : File) × Placed at
  placed =
      let k = seek / (boot.sectorspercluster * 512) in
      let in_chain = cluster-lt boot seek cs geo.some_sectors seek_inside in
      let (at, run, position, cluster, sector, holds) =
        fileseek_lem boot s file seek cs geo cov r.chain r.opened (omega (arith, known)) in_chain
          r.holds first_sound in
      let here : file_after file (fileseek boot (some file) seek s).1 ≡ at =
        ap (λ ((_, f, _) : Bool × Option File × Fat). file_after file f) run in
      let same = fileseek-same boot file seek s in
      (
        at,
        record {
          run = run;
          position = position;
          opened = ap (λ (f : File). f.opened) (sym here) ∙ same.0 ∙ r.opened;
          fsentry = ap (λ (f : File). f.fsentry) (sym here) ∙ same.1;
          totalclusters = ap (λ (f : File). f.totalclusters) (sym here) ∙ same.2;
          firstcluster = ap (λ (f : File). f.firstcluster) (sym here) ∙ same.3;
          remaining = record {
            chain =
                subst (λ (c : ℕ). Chain (table s) (entries boot) c (drop k cs)) (sym cluster)
                  (Chain-drop k r.chain in_chain);
            inside = omega (arith, sector, mod-lt (seek / 512) geo.some_sectors);
            holds = holds;
          };
          sectors =
              ap (λ (j : ℕ). sectors_from boot j (drop k cs)) sector
              ∙ sectors_at boot seek cs geo.some_sectors seek_inside;
        },
      )

copied_at :
    (g h out : Block) (o seek n size i : ℕ)
    → n ≡ size
    → ((x : ℕ) → g (o + x) ≡ h (seek + x))
    → copied out 0 g o n i ≡ (if ltb i size then h (seek + i) else out i)
copied_at g h out o seek n size i count same = ground (arith, same i, count)

-- what `fileseek` and then `fileread` leave
pub record ReadAt (boot : BootSector) (s : Fat) (file : File) (cs : List ℕ) (seek size : ℕ)
    (out : Block) : Type 0 where
  pub at : File
  pub after : File
  pub bytes : Block
  pub sought : fileseek boot (some file) seek s ≡ (true, some at, s)
  pub read : fileread boot (some at) out size s ≡ (pos size, bytes, some after, s)
  pub same :
      (i : ℕ) → bytes i ≡ (if ltb i size then stream s (all_sectors boot cs) (seek + i) else out i)
  pub readable : Readable boot s after cs
  pub fsentry : after.fsentry ≡ file.fsentry
  pub totalclusters : after.totalclusters ≡ file.totalclusters

-- For an open file that is not read-only, on a volume whose table fits into the cache and with all
-- sectors of the file sound: where the bytes from `seek` on are in the file and end before its last
-- sector does, `fileseek` and then `fileread` deliver exactly the file's bytes from there on, in order,
-- leave the rest of the caller's block, the table and the drive as they were, and the file can be
-- read in the same way again.
pub read_at_lem :
    (boot : BootSector) (s : Fat) (file : File) (cs : List ℕ) (seek size : ℕ) (out : Block)
    → Geometry boot
    → Covered boot s
    → Readable boot s file cs
    → 0 < size
    → seek + size ≤ capacity boot file
    → seek + size ≤ file.fsentry.filesize
    → (seek + size) / 512 < length (all_sectors boot cs)
    → ReadAt boot s file cs seek size out
read_at_lem boot s file cs seek size out geo cov r some_bytes room known inside =
    let (at, p) = placed boot s geo cov file cs r seek size room known inside in
    let clusters = drop (seek / (boot.sectorspercluster * 512)) cs in
    let same_room : capacity boot at ≡ capacity boot file =
      ap (λ (t : ℕ). mul32 (mul32 t boot.sectorspercluster) boot.bytespersector) p.totalclusters in
    let same_known : at.fsentry.filesize ≡ file.fsentry.filesize =
      ap (λ (e : DirEntry). e.filesize) p.fsentry in
    let all : read_size boot at size ≡ size =
      read_size_all boot at size (omega (arith, p.position, same_room, room))
        (omega (arith, p.position, same_known, known)) in
    let small : capacity boot file < 2 ^ 32 = omega arith in
    let count : length (ahead boot at clusters) ≡ length (all_sectors boot cs) - seek / 512 =
      ap length p.sectors ∙ length-drop (seek / 512) (all_sectors boot cs) in
    let sound : Sound s (ahead boot at clusters) = record {
      sound = λ lba m. r.sound.sound lba (
          has-drop lba (seek / 512) (all_sectors boot cs)
            (subst (λ (l : List ℕ). has lba l ≡ true) p.sectors m));
    } in
    let (after, run, d) =
      fileread_delivers boot s at clusters out size geo cov p.remaining sound p.opened
        (ap (λ (e : DirEntry). bit_and e.attributes read_only) p.fsentry ∙ r.allowed) some_bytes
        (omega (arith, all, p.position, room, small))
        (omega (arith, all, p.position, count, inside)) in
    record {
      at = at;
      after = after.file;
      bytes = after.out;
      sought = p.run;
      read = run ∙ ap (λ (k : ℕ). (pos k, after.out, some after.file, s)) all;
      same = λ i.
          d.bytes i
          ∙ copied_at (stream s (ahead boot at clusters)) (stream s (all_sectors boot cs)) out
              (at.position % 512) seek (read_size boot at size) size i all
              (λ x.
                let place : seek / 512 * 512 + (at.position % 512 + x) ≡ seek + x =
                  omega (arith, p.position) in
                ap (λ (l : List ℕ). stream s l (at.position % 512 + x)) p.sectors
                ∙ stream-drops s (all_sectors boot cs) (seek / 512) (at.position % 512 + x)
                ∙ ap (stream s (all_sectors boot cs)) place);
      readable = record {
        chain =
            subst (λ (c : ℕ). Chain (table s) (entries boot) c cs)
              (sym (d.firstcluster ∙ p.firstcluster)) r.chain;
        sound = r.sound;
        holds = d.remaining.1.holds;
        opened = d.opened ∙ p.opened;
        allowed =
            ap (λ (e : DirEntry). bit_and e.attributes read_only) (d.fsentry ∙ p.fsentry)
            ∙ r.allowed;
      };
      fsentry = d.fsentry ∙ p.fsentry;
      totalclusters = d.totalclusters ∙ p.totalclusters;
    }
