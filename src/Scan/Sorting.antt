-- ===== src/Scan/Sorting.antt =====
-- `merge` and `mergeSort` of SystemList.cpp, over the array as a list that is written in place.
-- The end of a segment is exclusive here: it is the source's `r + 1`, since `r` is -1 when there is
-- nothing to sort.
pub mod Merge
pub mod Sorted
use pi_scan.Base.{
  ℕ, zero, suc, ◌+◌, ◌-◌, ◌/◌, leb_ℤ, true, false, List, [], ◌∷◌, set, take, drop, ltb,
  if◌then◌else◌,
}
use pi_scan.Scan.Entry.{Entry}

-- The last two loops: the rest of a temporary array goes to `arr[k]`, `arr[k + 1]` and so on.
unfoldable pub copy_rest : List Entry → ℕ → List Entry → List Entry
copy_rest [] k arr = arr
copy_rest (x ∷ xs) k arr = copy_rest xs (k + 1) (set arr k x)

-- The first loop. The lists are `L` from `i` on and `R` from `j` on.
unfoldable pub merge_loop : List Entry → List Entry → ℕ → List Entry → List Entry
unfolding copy_rest
merge_loop [] rs k arr = copy_rest rs k arr
merge_loop (x ∷ ls) [] k arr = copy_rest (x ∷ ls) k arr
merge_loop (x ∷ ls) (y ∷ rs) k arr = elim (leb_ℤ x.frequency y.frequency) [
  | true ↦ merge_loop ls (y ∷ rs) (k + 1) (set arr k x)
  | false ↦ merge_loop (x ∷ ls) rs (k + 1) (set arr k y)
]

-- `merge(arr, l, m - 1, e - 1)`: `L` is `arr[l .. m - 1]` and `R` is `arr[m .. e - 1]`.
unfoldable pub merge : List Entry → ℕ → ℕ → ℕ → List Entry
unfolding merge_loop
merge arr l m e = merge_loop (take (m - l) (drop l arr)) (take (e - m) (drop m arr)) l arr

-- `mergeSort(arr, l, e - 1)`. The depth of the calls is at most the length of the segment.
unfoldable pub merge_sort : ℕ → List Entry → ℕ → ℕ → List Entry
unfolding merge
merge_sort zero arr l e = arr
merge_sort (suc fuel) arr l e =
    let m = l + (e - 1 - l) / 2 + 1 in
    let sorted = merge (merge_sort fuel (merge_sort fuel arr l m) m e) l m e in
    if ltb (l + 1) e then sorted else arr
