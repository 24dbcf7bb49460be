-- ===== src/Path/Join.antt =====
-- src/kernel/disk/path.c: `path_concat` and `path_load`.
use legendary_journey.Base.{
  ℕ, ◌+◌, ◌-◌, ◌||◌, Option, some, ◌==◌, if◌then◌else◌, write, ℤ, pos, negsuc, ◌>>=◌,
}
use legendary_journey.Errno.{einval}
use legendary_journey.Path.{Paths, path_sep, path_copy}
use legendary_journey.Path.Simplify.{path_simplify}

unfoldable pub path_concat : ℕ → ℕ → ℕ → ℕ → ℕ → Paths → Option (ℤ × Paths)
unfolding path_copy path_simplify
path_concat fuel a b dest dest_size st =
    let bad = record st { errno = einval } in
    let (result_a, st₁) = path_copy a dest dest_size st in
    if ((a == 0) || (b == 0)) || (dest == 0)
    then some ((negsuc 0, bad))
    else if dest_size == 0
    then some ((pos 0, st))
    else elim result_a [
      | negsuc e ↦ some ((negsuc 0, st₁))
      | pos chars_a ↦
          let st₂ = record st₁ { mem = write st₁.mem (dest + chars_a - 1) path_sep } in
          let (result_b, st₃) = path_copy b (dest + chars_a) (dest_size - chars_a) st₂ in
          let joined : Option (ℤ × Paths) = elim result_b [
            | negsuc e ↦ some ((negsuc 0, st₃))
            | pos chars_b ↦ (do
              let st₄ = record st₃ { mem = write st₃.mem (dest + chars_a + chars_b - 1) 0 }
              (result, st₅) ← path_simplify fuel dest dest dest_size st₄
              elim result [
                | negsuc e ↦ some ((negsuc 0, st₅))
                | pos n ↦ some ((pos (chars_a + chars_b), st₅))
              ])
          ] in
          if chars_a == dest_size then some ((pos chars_a, st₁)) else joined
    ]

unfoldable pub path_load : ℕ → ℕ → ℕ → ℕ → ℕ → Paths → Option (ℤ × Paths)
unfolding path_copy path_simplify path_concat
path_load fuel parent child dest dest_size st =
    let (result, st₁) = path_copy child dest dest_size st in
    if ((parent == 0) || (child == 0)) || (dest == 0)
    then some ((negsuc 0, record st { errno = einval }))
    else if st.mem child == path_sep
    then elim result [
      | negsuc e ↦ some ((negsuc 0, st₁))
      | pos n ↦ path_simplify fuel dest dest dest_size st₁
    ]
    else path_concat fuel parent child dest dest_size st
