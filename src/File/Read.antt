-- ===== src/File/Read.antt =====
-- What `fileread` delivers: the bytes of the sectors ahead, in order.
use legendary_journey.Base.{
  ℕ, zero, suc, ◌+◌, ◌-◌, ◌*◌, ◌/◌, ◌%◌, ◌≤◌, ◌<◌, ◌^◌, ◌≡◌, ◌∙◌, refl, sym, ap, true, List, [],
  ◌∷◌, arith, ◌==◌, if◌then◌else◌, Block, sub32, length, drop, get_or,
}
use legendary_journey.Fat.{BootSector, Fat}
use legendary_journey.Fat.Covered.{Covered}
use legendary_journey.File.{File, copied}
use legendary_journey.File.Io.{Reading, rest_of_sector, next_sector, read_loop}
use legendary_journey.File.Seek.{Geometry, sector_lba}
use legendary_journey.File.Stream.{
  Remaining, Sound, ahead, loaded, Stepped, next_lem, ahead_head, has_tail,
}

-- byte `i` of a list of sectors
abbrev pub stream : Fat → List ℕ → ℕ → ℕ
stream s lbas i = s.disk.bytes (get_or lbas (i / 512) 0 * 512 + i % 512)

-- the bytes that `n` rounds copy
abbrev moved_by : ℕ → Reading → ℕ
moved_by n r = n * 512 - r.sectorpos

-- Copying up to the end of a sector and then from the stream behind it is copying from the stream.
copied_join :
    (g g' buf out : Block) (o at n : ℕ)
    → o < 512
    → ((x : ℕ) → x < 512 → buf x ≡ g x)
    → ((x : ℕ) → g' x ≡ g (512 + x))
    → (i : ℕ)
    → copied (copied out at buf o (512 - o)) (at + (512 - o)) g' 0 n i
      ≡ copied out at g o (512 - o + n) i
copied_join g g' buf out o at n inside same later i =
    ground (arith, same (o + (i - at)), later (i - (at + (512 - o))))

get_or-drop : (xs : List ℕ) (k d : ℕ) → get_or (drop 1 xs) k d ≡ get_or xs (suc k) d
get_or-drop [] zero d = refl
get_or-drop [] (suc k) d = refl
get_or-drop (x ∷ xs) k d = refl

pub stream-drop :
    (s : Fat) (lbas : List ℕ) (x : ℕ) → stream s (drop 1 lbas) x ≡ stream s lbas (512 + x)
stream-drop s lbas x =
    let sector : (512 + x) / 512 ≡ suc (x / 512) = omega arith in
    let byte : (512 + x) % 512 ≡ x % 512 = omega arith in
    ap (λ (l : ℕ). s.disk.bytes (l * 512 + x % 512))
      (get_or-drop lbas (x / 512) 0 ∙ ap (λ (k : ℕ). get_or lbas k 0) (sym sector))
    ∙ ap (λ (b : ℕ). s.disk.bytes (get_or lbas ((512 + x) / 512) 0 * 512 + b)) (sym byte)

pub drop-drop : (n : ℕ) (xs : List ℕ) → drop n (drop 1 xs) ≡ drop (suc n) xs
drop-drop zero xs = refl
drop-drop (suc n) [] = refl
drop-drop (suc n) (x ∷ xs) = refl

length-drop : (ys xs : List ℕ) → ys ≡ drop 1 xs → 0 < length xs → length ys + 1 ≡ length xs
length-drop ys [] e h = omega arith
length-drop ys (x ∷ xs) e h = rw e (omega arith)

-- The state of the loop is sane, and the file is at its place.
pub record Ready (boot : BootSector) (s : Fat) (r : Reading) (cs : List ℕ) : Type 0 where
  pub remaining : Remaining boot s r.file cs
  pub sound : Sound s (ahead boot r.file cs)
  pub sector : r.sectorpos < 512
  pub small : r.file.position + r.bytesleft < 2 ^ 32

-- what `n` rounds do
pub record Rounds (boot : BootSector) (s : Fat) (n : ℕ) (r : Reading) (cs : List ℕ) : Type 0 where
  pub rest : List ℕ
  pub after : Reading
  pub run : read_loop boot n r s ≡ (true, after, s)
  pub out :
      (i : ℕ)
      → after.out i
        ≡ copied r.out r.done (stream s (ahead boot r.file cs)) r.sectorpos (moved_by n r) i
  pub done : after.done ≡ r.done + moved_by n r
  pub bytesleft : after.bytesleft ≡ r.bytesleft - moved_by n r
  pub sectorpos : after.sectorpos ≡ (if n == 0 then r.sectorpos else 0)
  pub position : after.file.position ≡ r.file.position + moved_by n r
  pub fsentry : after.file.fsentry ≡ r.file.fsentry
  pub totalclusters : after.file.totalclusters ≡ r.file.totalclusters
  pub firstcluster : after.file.firstcluster ≡ r.file.firstcluster
  pub opened : after.file.opened ≡ r.file.opened
  pub tail : ahead boot after.file rest ≡ drop n (ahead boot r.file cs)
  pub remaining : Remaining boot s after.file rest

module _ (boot : BootSector) (s : Fat) (geo : Geometry boot) (cov : Covered boot s) where
  -- the bytes of the buffer are those of the first sector ahead
  pub buffer_stream :
      (file : File) (cs : List ℕ) (i : ℕ)
      → Remaining boot s file cs
      → i < 512
      → file.buffer i ≡ stream s (ahead boot file cs) i
  buffer_stream file cs i at h =
      let first : i / 512 ≡ 0 = omega arith in
      let within : i % 512 ≡ i = omega arith in
      let lbas = ahead boot file cs in
      let head : get_or lbas (i / 512) 0
          ≡ sector_lba boot file.currentcluster file.sectorincluster =
        ap (λ (k : ℕ). get_or lbas k 0) first
        ∙ ap (λ (l : List ℕ). get_or l 0 0)
            (ahead_head boot s file.sectorincluster at.chain at.inside) in
      at.holds i h
      ∙ ap
          (λ (b : ℕ).
            s.disk.bytes (sector_lba boot file.currentcluster file.sectorincluster * 512 + b))
          (sym within)
      ∙ ap (λ (l : ℕ). s.disk.bytes (l * 512 + i % 512)) (sym head)

  loop_step :
      (n : ℕ) (r : Reading) (to : File)
      → next_sector boot (rest_of_sector boot r).file s ≡ (true, to, s)
      → read_loop boot (suc n) r s
        ≡ read_loop boot n (record (rest_of_sector boot r) { file = loaded boot s to }) s
  unfolding read_loop
  loop_step n r to run = rw run refl

  -- the reading after one round
  abbrev next_round : Reading → File → Reading
  next_round r to = record (rest_of_sector boot r) { file = loaded boot s to }

  Ready-next :
      (r : Reading) (cs : List ℕ) (step : Stepped boot s (rest_of_sector boot r).file cs)
      → Ready boot s r cs
      → 512 ≤ r.sectorpos + r.bytesleft
      → Ready boot s (next_round r step.to) step.rest
  unfolding rest_of_sector
  Ready-next r cs step ok room = record {
    remaining = step.remaining;
    sound = record {
      sound = λ lba m. ok.sound.sound lba (has_tail lba (ahead boot r.file cs) (rw step.tail at m));
    };
    sector = omega arith;
    small = omega (arith, step.position, ok.small, ok.sector);
  }

  Rounds-next :
      (n : ℕ) (r : Reading) (cs : List ℕ) (step : Stepped boot s (rest_of_sector boot r).file cs)
      → Ready boot s r cs
      → suc n * 512 ≤ r.sectorpos + r.bytesleft
      → Rounds boot s n (next_round r step.to) step.rest
      → Rounds boot s (suc n) r cs
  unfolding rest_of_sector
  Rounds-next n r cs step ok room rest =
      let lbas = ahead boot r.file cs in
      let later : ℕ → ℕ = stream s (ahead boot (loaded boot s step.to) step.rest) in
      let whole : moved_by n (next_round r step.to) ≡ n * 512 = omega arith in
      let gap : sub32 512 r.sectorpos ≡ 512 - r.sectorpos = omega (arith, ok.sector) in
      let all : moved_by (suc n) r ≡ 512 - r.sectorpos + n * 512 = omega (arith, ok.sector) in
      record {
        rest = rest.rest;
        after = rest.after;
        run = loop_step n r step.to step.run ∙ rest.run;
        out = λ i.
            rest.out i
            ∙ ap
                (λ (k : ℕ).
                  copied (copied r.out r.done r.file.buffer r.sectorpos k) (r.done + k) later 0
                    (moved_by n (next_round r step.to)) i)
                gap
            ∙ ap
                (λ (m : ℕ).
                  copied (copied r.out r.done r.file.buffer r.sectorpos (512 - r.sectorpos))
                    (r.done + (512 - r.sectorpos)) later 0 m i)
                whole
            ∙ copied_join (stream s lbas) later r.file.buffer r.out r.sectorpos r.done (n * 512)
                ok.sector (λ x h. buffer_stream r.file cs x ok.remaining h)
                (λ x. ap (λ (l : List ℕ). stream s l x) step.tail ∙ stream-drop s lbas x) i
            ∙ ap (λ (m : ℕ). copied r.out r.done (stream s lbas) r.sectorpos m i) (sym all);
        done = omega (arith, rest.done, ok.sector);
        bytesleft = omega (arith, rest.bytesleft, ok.sector, ok.small);
        sectorpos = ground (arith, rest.sectorpos);
        position = omega (arith, rest.position, step.position, ok.sector, ok.small);
        fsentry = rest.fsentry ∙ step.fsentry;
        totalclusters = rest.totalclusters ∙ step.totalclusters;
        firstcluster = rest.firstcluster ∙ step.firstcluster;
        opened = rest.opened ∙ step.opened;
        tail = rest.tail ∙ ap (drop n) step.tail ∙ drop-drop n lbas;
        remaining = rest.remaining;
      }

  pub rounds_lem :
      (n : ℕ) (r : Reading) (cs : List ℕ)
      → Ready boot s r cs
      → n * 512 ≤ r.sectorpos + r.bytesleft
      → n < length (ahead boot r.file cs)
      → Rounds boot s n r cs
  unfolding read_loop rest_of_sector
  rounds_lem zero r cs ok room more = record {
    rest = cs;
    after = r;
    run = refl;
    out = λ i. ground arith;
    done = omega arith;
    bytesleft = omega arith;
    sectorpos = refl;
    position = omega arith;
    fsentry = refl;
    totalclusters = refl;
    firstcluster = refl;
    opened = refl;
    tail = refl;
    remaining = ok.remaining;
  }
  rounds_lem (suc n) r cs ok room more =
      let at₁ : Remaining boot s (rest_of_sector boot r).file cs = record {
        chain = ok.remaining.chain;
        inside = ok.remaining.inside;
        holds = ok.remaining.holds;
      } in
      let step =
        next_lem boot s (rest_of_sector boot r).file cs geo cov at₁ ok.sound (omega arith) in
      let shorter : length (ahead boot step.to step.rest) + 1 ≡ length (ahead boot r.file cs) =
        length-drop (ahead boot step.to step.rest) (ahead boot r.file cs) step.tail (omega arith) in
      Rounds-next n r cs step ok room (
        rounds_lem n (next_round r step.to) step.rest (Ready-next r cs step ok (omega arith))
          (omega (arith, ok.sector, ok.small)) (omega (arith, shorter)))
