-- ===== src/Path/Simplify.antt =====
-- src/kernel/disk/path.c: `path_simplify`.
use legendary_journey.Base.{
  ℕ, zero, suc, ◌+◌, ◌-◌, Bool, true, false, not, ◌&&◌, ◌||◌, Option, none, some, ltb, leb, ◌==◌,
  if◌then◌else◌, Block, write, ℤ, pos, negsuc, ◌>>=◌,
}
use legendary_journey.Errno.{Errno, enametoolong}
use legendary_journey.Std.{strlen, memmove}
use legendary_journey.Path.{Paths, path_max, path_sep}

-- the variables of `path_simplify`: the memory, the two pointers that move down, the count of `..` and
-- the flag of a separator to drop
pub record Simplifying : Type 0 where
  pub mem : Block
  pub d : ℕ
  pub s : ℕ
  pub dot_dot_count : ℕ
  pub should_drop_sep : Bool

-- `s >= path`, where `s` may be one less than `path`
abbrev pub at_least : ℕ → ℕ → Bool
at_least a b = leb b a

-- `path++` over doubled leading separators
unfoldable pub skip_leading : ℕ → Block → ℕ → ℕ → ℕ
skip_leading zero m s path = path
skip_leading (suc n) m s path =
    let rest = skip_leading n m s (path + 1) in
    if at_least s (path + 1) && ((m path == path_sep) && (m (path + 1) == path_sep))
    then rest
    else path

-- `s--` over characters that are separators, or over those that are not
unfoldable pub down_while : Bool → ℕ → Block → ℕ → ℕ → ℕ
down_while sep zero m path s = s
down_while sep (suc n) m path s =
    let rest = down_while sep n m path (s - 1) in
    let here = if sep then m s == path_sep else not (m s == path_sep) in
    if at_least s path && here then rest else s

-- the loop that copies the last `n` characters of a component onto the destination
unfoldable pub copy_component : ℕ → ℕ → ℕ → Block → ℕ → Block × ℕ
copy_component dest start zero m d = (m, d)
copy_component dest start (suc n) m d =
    let rest = copy_component dest start n (write m d (m (start + n))) (d - 1) in
    if at_least d dest then rest else (m, d)

-- the part of a round that is about a separator
unfoldable pub take_separator : ℕ → Simplifying → Simplifying
unfolding down_while
take_separator path v =
    let kept = record v { mem = write v.mem v.d path_sep; d = v.d - 1 } in
    let dropped = record v { should_drop_sep = false } in
    let v' = if not v.should_drop_sep || (v.s == path) then kept else dropped in
    let v'' = record v' { s = down_while true (v'.s + 1 - path) v'.mem path v'.s } in
    if v.mem v.s == path_sep then v'' else v

-- the part of a round that is about a component
unfoldable pub take_component : ℕ → ℕ → Simplifying → Simplifying
unfolding down_while copy_component
take_component path dest v =
    let s' = down_while false (v.s + 1 - path) v.mem path v.s in
    let start = s' + 1 in
    let size = v.s + 1 - start in
    let (m', d') = copy_component dest start size v.mem v.d in
    if (size == 1) && (v.mem start == 46)
    then record v { s = s'; should_drop_sep = true }
    else if (size == 2) && ((v.mem start == 46) && (v.mem (start + 1) == 46))
    then record v { s = s'; dot_dot_count = v.dot_dot_count + 1; should_drop_sep = true }
    else if ltb 0 v.dot_dot_count
    then record v { s = s'; dot_dot_count = v.dot_dot_count - 1; should_drop_sep = true }
    else record v { s = s'; mem = m'; d = d' }

-- The main loop; a round takes at least one character, so there are no more rounds than characters.
unfoldable pub simplify_loop : ℕ → ℕ → ℕ → Simplifying → Simplifying
unfolding take_separator take_component
simplify_loop zero path dest v = v
simplify_loop (suc n) path dest v =
    let rest = simplify_loop n path dest (take_component path dest (take_separator path v)) in
    if at_least v.s path && at_least v.d dest then rest else v

-- the loop that writes the `..` at the front; `none` is that there is no room
unfoldable pub write_dots : ℕ → ℕ → ℕ → Block → ℕ → Option (Block × ℕ)
write_dots dest dest_size zero m d = some ((m, d))
write_dots dest dest_size (suc n) m d =
    let at_end = at_least (d + 2) (dest + dest_size) in
    let sep = not at_end && not (m (d + 1) == path_sep) in
    let m₁ = if sep then write m d path_sep else m in
    let d₁ = if sep then d - 1 else d in
    let rest = write_dots dest dest_size n (write (write m₁ d₁ 46) (d₁ - 1) 46) (d₁ - 2) in
    if ltb d (dest + 3) then none else rest

-- the end of `path_simplify`: the path is moved to the start of `dest`
unfoldable pub shift_down : ℕ → ℕ → Block → ℕ → Errno → ℤ × Paths
unfolding memmove
shift_down dest dest_size m d errno =
    let shift = d + 1 - dest in
    let m' = memmove dest (dest + shift) (dest_size - shift) m in
    let used = dest + dest_size - d - 1 in
    (
      pos (if used == 0 then 1 else used),
      record { mem = write m' (dest + (dest_size - shift)) 0; errno = errno },
    )

-- `path_simplify` behind its `strlen`
unfoldable pub simplified : ℕ → ℕ → ℕ → ℕ → Block → Errno → ℤ × Paths
unfolding skip_leading simplify_loop write_dots shift_down
simplified path_size path dest dest_size m errno =
    let last = path + path_size - 1 in
    let s = if ltb 1 path_size && (m last == path_sep) then last - 1 else last in
    let path' = skip_leading path_size m s path in
    let v = simplify_loop path_size path' dest (record {
      mem = m;
      d = dest + dest_size - 2;
      s = s;
      dot_dot_count = 0;
      should_drop_sep = false;
    }) in
    let preserve_leading_sep =
      ltb 0 path_size && ((v.mem path' == path_sep) && not (v.mem (v.d + 2) == path_sep)) in
    let d =
      if v.should_drop_sep && ((v.dot_dot_count == 0) && not preserve_leading_sep)
      then v.d + 1
      else v.d in
    if leb path_max (path_size + 1)
    then (negsuc 0, record { mem = m; errno = enametoolong })
    else elim (write_dots dest dest_size v.dot_dot_count v.mem d) [
      | none ↦ (negsuc 0, record { mem = v.mem; errno = enametoolong })
      | some (m', d') ↦ shift_down dest dest_size m' d' errno
    ]

-- Addresses are far from the ends of the address space, so that sums and differences of pointers do
-- not wrap round.
unfoldable pub path_simplify : ℕ → ℕ → ℕ → ℕ → Paths → Option (ℤ × Paths)
unfolding strlen simplified
path_simplify fuel path dest dest_size st =
    let m = write st.mem (dest + dest_size - 1) 0 in
    let result = (do
      path_size ← strlen fuel m path
      some (simplified path_size path dest dest_size m st.errno)) in
    if dest_size == 0 then some ((pos 0, st)) else result
