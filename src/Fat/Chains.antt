-- ===== src/Fat/Chains.antt =====
-- src/kernel/disk/fat.c: the loops over the chains of clusters. A loop that runs until it meets the
-- end of a chain takes fuel; `none` is a chain longer than the fuel.
use legendary_journey.Base.{
  ℕ, zero, suc, ◌/◌, Option, none, some, ltb, leb, ◌==◌, if◌then◌else◌, add32, sub32, mul32,
}
use legendary_journey.Errno.{enospc}
use legendary_journey.Fat.{BootSector, Fat, fefree, feend32l, fatclustervalue, fatsetcluster}

module _ (boot : BootSector) where
  open boot use {bytespersector, fatsize32}

  unfoldable pub total_loop : ℕ → ℕ → ℕ → Fat → Option (ℕ × ℕ × Fat)
  total_loop zero value count s = none
  total_loop (suc fuel) value count s =
      let (next, s') = fatclustervalue boot value s in
      let rest = total_loop fuel next (add32 count 1) s' in
      if ltb next feend32l then rest else some (add32 count 1, value, s')

  -- the number of clusters, and `*lastcluster`
  unfoldable pub fattotalclusters : ℕ → ℕ → Fat → Option (ℕ × ℕ × Fat)
  unfolding total_loop
  fattotalclusters fuel cluster s = total_loop fuel cluster 0 s

  -- the number of entries of the table, as `fatfindfreecluster` computes it
  abbrev pub table_entries : ℕ
  table_entries = mul32 fatsize32 bytespersector / 4

  -- `while (possible_entries_left--)`, on the rounds left
  unfoldable pub find_loop : ℕ → ℕ → Fat → ℕ × Fat
  find_loop zero current s = (0, record s { search_start = table_entries; errno = enospc })
  find_loop (suc left) current s =
      let (value, s') = fatclustervalue boot current s in
      let rest = find_loop left (add32 current 1) s' in
      if value == fefree then (current, record s' { search_start = add32 current 1 }) else rest

  unfoldable pub fatfindfreecluster : Fat → ℕ × Fat
  unfolding find_loop
  fatfindfreecluster s = find_loop (sub32 table_entries (mul32 s.search_start 4)) s.search_start s

  unfoldable pub fattraverse : ℕ → ℕ → Fat → ℕ × Fat
  fattraverse start zero s = (start, s)
  fattraverse start (suc count) s =
      let (value, s') = fatclustervalue boot start s in
      let rest = fattraverse value count s' in if leb feend32l value then (start, s') else rest

  unfoldable pub alloc_loop : ℕ → ℕ → Fat → ℕ × Fat
  unfolding fatfindfreecluster
  alloc_loop zero top s = (top, s)
  alloc_loop (suc clustersleft) top s =
      let (freecluster, s') = fatfindfreecluster s in
      alloc_loop clustersleft freecluster (fatsetcluster boot top freecluster s')

  unfoldable pub fatallocclusters : ℕ → ℕ → Fat → ℕ × Fat
  unfolding alloc_loop
  fatallocclusters start count s =
      let (top, s') = alloc_loop count start s in
      if count == 0 then (start, s) else (top, fatsetcluster boot top feend32l s')

  unfoldable pub dealloc_loop : ℕ → ℕ → Fat → Option Fat
  dealloc_loop zero nextcluster s = none
  dealloc_loop (suc fuel) nextcluster s =
      let (value, s') = fatclustervalue boot nextcluster s in
      let rest = dealloc_loop fuel value (fatsetcluster boot nextcluster fefree s') in
      if ltb nextcluster feend32l then rest else some s

  unfoldable pub fatdeallocclusters : ℕ → ℕ → Fat → Option (ℕ × Fat)
  unfolding dealloc_loop
  fatdeallocclusters fuel start s =
      let (nextcluster, s') = fatclustervalue boot start s in
      elim (dealloc_loop fuel nextcluster s') [
        | none ↦ none
        | some s'' ↦ some (start, fatsetcluster boot start feend32l s'')
      ]
