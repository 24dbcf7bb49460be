-- ===== src/Path.antt =====
-- src/kernel/disk/path.c: copying of paths and steps through them, in one memory of bytes that
-- pointers are addresses of. A loop that ends only at the end of a string takes fuel, and `none` is a string
-- that is longer than the fuel.
use legendary_journey.Base.{
  ℕ, zero, suc, ◌+◌, ◌-◌, ◌^◌, Bool, true, false, not, ◌&&◌, ◌||◌, Option, none, some, ltb, leb,
  ◌==◌, if◌then◌else◌, Block, write, add32, sub32, ℤ, pos, negsuc, ◌>>=◌,
}
use legendary_journey.Errno.{Errno, einval, enametoolong}
use legendary_journey.Std.{strlen, memmove}
pub mod Next
pub mod Simplify
pub mod Join
pub mod Copy
mod Tests

abbrev pub path_max : ℕ
path_max = 256

abbrev pub path_sep : ℕ
path_sep = 47

-- the memory and `errno`
pub record Paths : Type 0 where
  pub mem : Block
  pub errno : Errno

-- The loop of `path_copy`, with at most `n` characters left: the index where it ends.
unfoldable pub copy_loop : ℕ → ℕ → ℕ → ℕ → Block → ℕ × Block
copy_loop zero source dest i m = (i, m)
copy_loop (suc n) source dest i m =
    let c = m (add32 source i) in
    let rest = copy_loop n source dest (i + 1) (write m (add32 dest i) c) in
    if c == 0 then (i, m) else rest

unfoldable pub path_copy : ℕ → ℕ → ℕ → Paths → ℤ × Paths
unfolding copy_loop
path_copy source dest dest_size s =
    let (i, m) = copy_loop (dest_size - 1) source dest 0 s.mem in
    let m' = write m (add32 dest i) 0 in
    if (source == 0) || (dest == 0)
    then (negsuc 0, record s { errno = einval })
    else if dest_size == 0
    then (pos 0, s)
    else if ltb path_max i
    then (negsuc 0, record s { mem = m'; errno = enametoolong })
    else (pos (i + 1), record s { mem = m' })

-- `while (*cursor != PATH_SEP && *cursor)`: the address where it ends, and the rounds
unfoldable pub to_separator : ℕ → Block → ℕ → ℕ → Option (ℕ × ℕ)
to_separator zero m cursor size = none
to_separator (suc fuel) m cursor size =
    let rest = to_separator fuel m (add32 cursor 1) (size + 1) in
    if not (m cursor == path_sep) && not (m cursor == 0) then rest else some ((cursor, size))

-- `while (*cursor == PATH_SEP)`
unfoldable pub over_separators : ℕ → Block → ℕ → Option ℕ
over_separators zero m cursor = none
over_separators (suc fuel) m cursor =
    let rest = over_separators fuel m (add32 cursor 1) in
    if m cursor == path_sep then rest else some cursor

-- the new `*start`, and the size of the component there
unfoldable pub path_next : ℕ → Block → ℕ → Option (ℕ × ℕ)
unfolding to_separator over_separators
path_next fuel m start = do
  (sep, skipped) ← to_separator fuel m start 0
  next ← over_separators fuel m sep
  (behind, size) ← to_separator fuel m next 0
  some ((next, size))
