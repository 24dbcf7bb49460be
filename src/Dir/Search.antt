-- ===== src/Dir/Search.antt =====
-- What `dirfindentry` finds in the sectors of a directory.
use mathlib.Core.Path.{subst, fun_ext}
use legendary_journey.Base.{
  ℕ, zero, suc, ◌+◌, ◌-◌, ◌*◌, ◌/◌, ◌%◌, ◌≤◌, ◌<◌, ◌^◌, ◌≡◌, ◌≢◌, ◌∙◌, ◌⊎◌, refl, sym, ap, Bool,
  true, false, not, ◌&&◌, List, [], ◌∷◌, arith, ◌==◌, if◌then◌else◌, if_true, if_false, Block,
  sub32, mul32, length, length-drop, drop, min, pos, negsuc,
}
use legendary_journey.Errno.{enoent}
use legendary_journey.Fat.{BootSector, Fat}
use legendary_journey.Fat.Covered.{Covered}
use legendary_journey.Names.{holds_bytes}
use legendary_journey.File.{DirEntry, File, entryisdir, fileisdir, fail, capacity, copied}
use legendary_journey.File.Io.{read_size, read_open}
use legendary_journey.File.Seek.{Geometry}
use legendary_journey.File.Stream.{Remaining, Sound, ahead, has-drop}
use legendary_journey.File.Read.{stream}
use legendary_journey.File.Delivered.{read_open_lem, stream-drops}
use legendary_journey.Dir.{Found, entry_round, entry_loop, possible_entries, at_start, dirfindentry}

pub holds_bytes_ext :
    (f g : Block) (a b : ℕ) (cs : List ℕ)
    → ((i : ℕ) → i < length cs → f (a + i) ≡ g (b + i))
    → holds_bytes f a cs ≡ holds_bytes g b cs
holds_bytes_ext f g a b [] same = refl
holds_bytes_ext f g a b (c ∷ cs) same =
    let here : f a ≡ g b =
      let left : a ≡ a + 0 = omega arith in
      let right : b + 0 ≡ b = omega arith in ap f left ∙ same 0 (omega arith) ∙ ap g right in
    let rest = holds_bytes_ext f g (a + 1) (b + 1) cs (λ i h.
      let left : a + 1 + i ≡ a + suc i = omega arith in
      let right : b + suc i ≡ b + 1 + i = omega arith in
      ap f left ∙ same (suc i) (omega arith) ∙ ap g right) in
    ap (λ (x : ℕ). (x == c) && holds_bytes f (a + 1) cs) here
    ∙ ap (λ (x : Bool). (g b == c) && x) rest

module _ (boot : BootSector) (s : Fat) where
  -- the bytes of entry `k` from the position of the directory on
  abbrev pub entry_at : File → List ℕ → ℕ → Block
  entry_at dir cs k i = stream s (ahead boot dir cs) (dir.position % 512 + 32 * k + i)

  -- A directory with `n` entries from its position on, all in sound sectors and before the end of
  -- its last sector.
  pub record Listing (dir : File) (cs : List ℕ) (n : ℕ) : Type 0 where
    pub remaining : Remaining boot s dir cs
    pub sound : Sound s (ahead boot dir cs)
    pub isdir : fileisdir dir ≡ true
    pub room : dir.position + 32 * n ≤ capacity boot dir
    pub inside : (dir.position % 512 + 32 * n) / 512 < length (ahead boot dir cs)

module _ (boot : BootSector) (s : Fat) (geo : Geometry boot) (cov : Covered boot s) where
  capacity-small : (dir : File) → capacity boot dir < 2 ^ 32
  capacity-small dir = omega arith

  -- what the read of one entry leaves
  record Step (dir : File) (cs : List ℕ) (out : Block) (n : ℕ) : Type 0 where
    entry : Block
    to : File
    rest : List ℕ
    run : read_open boot dir out 32 s ≡ (pos 32, entry, to, s)
    bytes : (i : ℕ) → i < 32 → entry i ≡ entry_at boot s dir cs 0 i
    position : to.position ≡ dir.position + 32
    fsentry : to.fsentry ≡ dir.fsentry
    firstcluster : to.firstcluster ≡ dir.firstcluster
    remaining : Remaining boot s to rest
    listing : Listing boot s to rest n
    later : (k : ℕ) → entry_at boot s to rest k ≡ entry_at boot s dir cs (suc k)

  read_size_entry :
      (dir : File)
      → fileisdir dir ≡ true
      → dir.position + 32 ≤ capacity boot dir
      → read_size boot dir 32 ≡ 32
  unfolding read_size
  read_size_entry dir isdir room =
      let small = capacity-small dir in
      let fits : (capacity boot dir + 2 ^ 32 - dir.position) % 2 ^ 32
          ≡ capacity boot dir - dir.position =
        omega arith in
      ap (λ (t : ℕ). min 32 (sub32 t dir.position)) (if_true _ _ isdir)
      ∙ ap (min 32) fits
      ∙ omega arith

  entries_behind :
      (dir to : File) (cs rest : List ℕ)
      → to.position ≡ dir.position + 32
      → ahead boot to rest ≡ drop ((dir.position % 512 + 32) / 512) (ahead boot dir cs)
      → (k i : ℕ) → entry_at boot s to rest k i ≡ entry_at boot s dir cs (suc k) i
  entries_behind dir to cs rest on tail k i =
      let q = (dir.position % 512 + 32) / 512 in
      let at : q * 512 + (to.position % 512 + 32 * k + i) ≡ dir.position % 512 + 32 * suc k + i =
        omega (arith, on) in
      ap (λ (l : List ℕ). stream s l (to.position % 512 + 32 * k + i)) tail
      ∙ stream-drops s (ahead boot dir cs) q (to.position % 512 + 32 * k + i)
      ∙ ap (stream s (ahead boot dir cs)) at

  Listing-behind :
      (dir to : File) (cs rest : List ℕ) (n : ℕ)
      → Listing boot s dir cs (suc n)
      → to.position ≡ dir.position + 32
      → to.fsentry ≡ dir.fsentry
      → to.totalclusters ≡ dir.totalclusters
      → Remaining boot s to rest
      → ahead boot to rest ≡ drop ((dir.position % 512 + 32) / 512) (ahead boot dir cs)
      → Listing boot s to rest n
  Listing-behind dir to cs rest n l on same total at tail =
      let q = (dir.position % 512 + 32) / 512 in
      let room : capacity boot to ≡ capacity boot dir =
        ap (λ (t : ℕ). mul32 (mul32 t boot.sectorspercluster) boot.bytespersector) total in
      record {
        remaining = at;
        sound = record {
          sound = λ lba m. l.sound.sound lba (has-drop lba q (ahead boot dir cs) (rw tail at m));
        };
        isdir = ap (λ (e : DirEntry). entryisdir e) same ∙ l.isdir;
        room = omega (arith, room, on, l.room);
        inside = omega (arith, on, l.inside, ap length tail, length-drop q (ahead boot dir cs));
      }

  step :
      (dir : File) (cs : List ℕ) (out : Block) (n : ℕ)
      → Listing boot s dir cs (suc n)
      → Step dir cs out n
  step dir cs out n l =
      let size = read_size_entry dir l.isdir (omega (arith, l.room)) in
      let small = capacity-small dir in
      let (after, run, d) =
        read_open_lem boot s dir cs out 32 geo cov l.remaining l.sound
          (omega (arith, size, l.room, small)) (omega (arith, size, l.inside)) in
      let on : after.file.position ≡ dir.position + 32 = omega (arith, d.position, size) in
      let tail : ahead boot after.file d.remaining.0
          ≡ drop ((dir.position % 512 + 32) / 512) (ahead boot dir cs) =
        d.remaining.2
        ∙ ap (λ (k : ℕ). drop ((dir.position % 512 + k) / 512) (ahead boot dir cs)) size in
      record {
        entry = after.out;
        to = after.file;
        rest = d.remaining.0;
        run = run ∙ ap (λ (k : ℕ). (pos k, after.out, after.file, s)) size;
        bytes = λ i h.
            d.bytes i
            ∙ ap (λ (k : ℕ). copied out 0 (stream s (ahead boot dir cs)) (dir.position % 512) k i)
                size
            ∙ ground (arith, h);
        position = on;
        fsentry = d.fsentry;
        firstcluster = d.firstcluster;
        remaining = d.remaining.1;
        listing =
            Listing-behind dir after.file cs d.remaining.0 n l on d.fsentry d.totalclusters
              d.remaining.1 tail;
        later = λ k. fun_ext (entries_behind dir after.file cs d.remaining.0 on tail k);
      }

  -- The search goes past an entry of another name.
  abbrev Passed : File → List ℕ → List ℕ → ℕ → Type 0
  Passed dir cs name j =
      (holds_bytes (entry_at boot s dir cs j) 0 name ≡ false) × (entry_at boot s dir cs j 0 ≢ 0)

  -- The search ends at an entry of the name, or at one that begins with 0.
  abbrev Stops : File → List ℕ → List ℕ → ℕ → Type 0
  Stops dir cs name k =
      (holds_bytes (entry_at boot s dir cs k) 0 name ≡ true) ⊎ (entry_at boot s dir cs k 0 ≡ 0)

  -- what a search that ends at entry `k` returns, counted from `index`
  abbrev verdict : File → List ℕ → List ℕ → ℕ → ℕ → Block → File → Found
  verdict dir cs name index k entry to =
      if holds_bytes (entry_at boot s dir cs k) 0 name
      then (pos (index + k), entry, to, s)
      else (negsuc 0, entry, to, fail enoent s)

  record Searched (dir : File) (cs name : List ℕ) (index k : ℕ) (found : Found) : Type 0 where
    entry : Block
    to : File
    rest : List ℕ
    result : found ≡ verdict dir cs name index k entry to
    bytes : (i : ℕ) → i < 32 → entry i ≡ entry_at boot s dir cs k i
    position : to.position ≡ dir.position + 32 * (k + 1)
    fsentry : to.fsentry ≡ dir.fsentry
    firstcluster : to.firstcluster ≡ dir.firstcluster
    remaining : Remaining boot s to rest

  -- one round, whatever the rounds behind it give
  round_lem :
      (dir : File) (cs name : List ℕ) (index : ℕ) (entry : Block) (to : File) (behind : Found)
      → length name ≤ 32
      → ((i : ℕ) → i < 32 → entry i ≡ entry_at boot s dir cs 0 i)
      → entry_round name index (pos 32, entry, to, s) behind ≡ (
          if holds_bytes (entry_at boot s dir cs 0) 0 name
          then (pos index, entry, to, s)
          else if entry_at boot s dir cs 0 0 == 0
          then (negsuc 0, entry, to, fail enoent s)
          else behind)
  unfolding entry_round
  round_lem dir cs name index entry to behind short bytes =
      let same = holds_bytes_ext entry (entry_at boot s dir cs 0) 0 0 name (λ i h.
        let start : 0 + i ≡ i = omega arith in
        ap entry start ∙ bytes i (omega arith) ∙ ap (entry_at boot s dir cs 0) (sym start)) in
      let first = bytes 0 (omega arith) in
      ap
        (λ (b : Bool).
          if b
          then (pos index, entry, to, s)
          else if entry 0 == 0
          then (negsuc 0, entry, to, fail enoent s)
          else behind)
        same
      ∙ ap
          (λ (x : ℕ).
            if holds_bytes (entry_at boot s dir cs 0) 0 name
            then (pos index, entry, to, s)
            else if x == 0
            then (negsuc 0, entry, to, fail enoent s)
            else behind)
          first

  -- a loop that begins with such a round
  loop_round :
      (dir : File) (cs name : List ℕ) (left index : ℕ) (out : Block) (n : ℕ) (t : Step dir cs out n)
      → length name ≤ 32
      → (behind : Found) × (entry_loop boot left name index out dir s ≡ (
          if holds_bytes (entry_at boot s dir cs 0) 0 name
          then (pos index, t.entry, t.to, s)
          else if entry_at boot s dir cs 0 0 == 0
          then (negsuc 0, t.entry, t.to, fail enoent s)
          else behind))
        × ((more : ℕ)
            → left ≡ suc more
            → behind ≡ entry_loop boot more name (index + 1) t.entry t.to s)
  unfolding entry_loop
  loop_round dir cs name zero index out n t short = (
    (negsuc 0, t.entry, t.to, fail enoent s),
    rw t.run (
        round_lem dir cs name index t.entry t.to (negsuc 0, t.entry, t.to, fail enoent s) short
          t.bytes),
    λ more e. absurd (omega arith),
  )
  loop_round dir cs name (suc left) index out n t short = (
    entry_loop boot left name (index + 1) t.entry t.to s,
    rw t.run (
        round_lem dir cs name index t.entry t.to
          (entry_loop boot left name (index + 1) t.entry t.to s) short t.bytes),
    λ more e.
        let same : left ≡ more = omega arith in
        ap (λ (k : ℕ). entry_loop boot k name (index + 1) t.entry t.to s) same,
  )

  -- an entry that ends the search is of the name or empty
  settled {ℓ} :
      {A : Type ℓ} (b : Bool) (x : ℕ) (here empty behind : A)
      → (b ≡ true) ⊎ (x ≡ 0)
      → (if b then here else if x == 0 then empty else behind) ≡ (if b then here else empty)
  settled b x here empty behind h = ground (arith, h)

  entry_loop_lem :
      (k left index : ℕ) (dir : File) (cs name : List ℕ) (out : Block)
      → Listing boot s dir cs (suc k)
      → length name ≤ 32
      → k ≤ left
      → ((j : ℕ) → j < k → Passed dir cs name j)
      → Stops dir cs name k
      → Searched dir cs name index k (entry_loop boot left name index out dir s)
  entry_loop_lem zero left index dir cs name out l short room passed stops =
      let t = step dir cs out 0 l in
      let (behind, run, _) = loop_round dir cs name left index out 0 t short in
      record {
        entry = t.entry;
        to = t.to;
        rest = t.rest;
        result =
            run
            ∙ settled _ _ _ _ _ stops
            ∙ ap
                (λ (n : ℕ).
                  if holds_bytes (entry_at boot s dir cs 0) 0 name
                  then (pos n, t.entry, t.to, s)
                  else (negsuc 0, t.entry, t.to, fail enoent s))
                (omega arith);
        bytes = t.bytes;
        position = omega (arith, t.position);
        fsentry = t.fsentry;
        firstcluster = t.firstcluster;
        remaining = t.remaining;
      }
  entry_loop_lem (suc k) zero index dir cs name out l short room passed stops = absurd (omega arith)
  entry_loop_lem (suc k) (suc left) index dir cs name out l short room passed stops =
      let t = step dir cs out (suc k) l in
      let (behind, run, next) = loop_round dir cs name (suc left) index out (suc k) t short in
      let before = passed 0 (omega arith) in
      let passed' : (j : ℕ) → j < k → Passed t.to t.rest name j = λ j h.
        subst (λ (b : Block). (holds_bytes b 0 name ≡ false) × (b 0 ≢ 0)) (sym (t.later j))
          (passed (suc j) (omega arith)) in
      let stops' : Stops t.to t.rest name k =
        subst (λ (b : Block). (holds_bytes b 0 name ≡ true) ⊎ (b 0 ≡ 0)) (sym (t.later k)) stops in
      let r =
        entry_loop_lem k left (index + 1) t.to t.rest name t.entry t.listing short (omega arith)
          passed' stops' in
      let used : (entry_at boot s dir cs 0 0 == 0) ≡ false = ground (arith, before.1) in
      let counted : index + 1 + k ≡ index + suc k = omega arith in
      record {
        entry = r.entry;
        to = r.to;
        rest = r.rest;
        result =
            run
            ∙ if_false _ _ before.0
            ∙ if_false _ _ used
            ∙ next left refl
            ∙ r.result
            ∙ ap
                (λ (b : Block).
                  if holds_bytes b 0 name
                  then (pos (index + 1 + k), r.entry, r.to, s)
                  else (negsuc 0, r.entry, r.to, fail enoent s))
                (t.later k)
            ∙ ap
                (λ (n : ℕ).
                  if holds_bytes (entry_at boot s dir cs (suc k)) 0 name
                  then (pos n, r.entry, r.to, s)
                  else (negsuc 0, r.entry, r.to, fail enoent s))
                counted;
        bytes = λ i h. r.bytes i h ∙ ap (λ (b : Block). b i) (t.later k);
        position = omega (arith, t.position, r.position);
        fsentry = r.fsentry ∙ t.fsentry;
        firstcluster = r.firstcluster ∙ t.firstcluster;
        remaining = r.remaining;
      }

-- In an open directory at its start, with sound sectors, on a volume whose table fits into the
-- cache: where the first `k` entries have other names and are in use, and entry `k`, which ends
-- before the end of the directory's last sector, has the name or begins with 0, `dirfindentry`
-- returns `k` with the bytes of that entry in the first case, and -1 with ENOENT in the second. It
-- leaves the directory behind that entry, and neither the table nor the drive is changed.
pub dirfindentry_lem :
    (boot : BootSector) (s : Fat) (dir : File) (cs name : List ℕ) (out : Block) (k : ℕ)
    → Geometry boot
    → Covered boot s
    → Listing boot s dir cs (suc k)
    → dir.position ≡ 0
    → length name ≤ 32
    → ((j : ℕ)
        → j < k
        → (holds_bytes (entry_at boot s dir cs j) 0 name ≡ false)
          × (entry_at boot s dir cs j 0 ≢ 0))
    → (holds_bytes (entry_at boot s dir cs k) 0 name ≡ true) ⊎ (entry_at boot s dir cs k 0 ≡ 0)
    → (entry : Block) × (to : File) × (rest : List ℕ) × (dirfindentry boot dir name out s ≡ (
        if holds_bytes (entry_at boot s dir cs k) 0 name
        then (pos k, entry, to, s)
        else (negsuc 0, entry, to, fail enoent s)))
      × ((i : ℕ) → i < 32 → entry i ≡ entry_at boot s dir cs k i)
      × (to.position ≡ 32 * (k + 1))
      × (to.firstcluster ≡ dir.firstcluster)
      × Remaining boot s to rest
unfolding dirfindentry at_start
dirfindentry_lem boot s dir cs name out k geo cov l start short passed stops =
    let enough : k ≤ possible_entries boot dir = omega (arith, l.room) in
    let r =
      entry_loop_lem boot s geo cov k (possible_entries boot dir) 0 dir cs name out l short enough
        passed stops in
    let fresh : (dir.position == 0) ≡ true = ground (arith, start) in
    let counted : 0 + k ≡ k = omega arith in
    (
      r.entry,
      r.to,
      r.rest,
      if_false _ _ (ap not l.isdir)
          ∙ ap (λ ((d, t) : File × Fat). entry_loop boot (possible_entries boot dir) name 0 out d t)
              (if_true _ _ fresh)
          ∙ r.result
          ∙ ap
              (λ (n : ℕ).
                if holds_bytes (entry_at boot s dir cs k) 0 name
                then (pos n, r.entry, r.to, s)
                else (negsuc 0, r.entry, r.to, fail enoent s))
              counted,
      r.bytes,
      omega (arith, r.position, start),
      r.firstcluster,
      r.remaining,
    )
