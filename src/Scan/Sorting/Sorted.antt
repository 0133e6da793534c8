-- ===== src/Scan/Sorting/Sorted.antt =====
-- `mergeSort` puts the entries in order of frequency and keeps every one of them.
use mathlib.Core.List.{append-nil, append_assoc}
use mathlib.Core.List.Perm
use pi_scan.Base.{
  ℕ, zero, suc, ◌+◌, ◌-◌, ◌/◌, ◌≤◌, ◌≡◌, refl, ltb, List, [], ◌∷◌, ◌++◌, arith, length, true, inl,
  inr, take, drop, length-append, length-take, length-drop, take-append-drop, Perm, Bool-cases,
}
use pi_scan.Scan.Entry.{Entry}
use pi_scan.Scan.Sorting.{merge, merge_sort}
use pi_scan.Scan.Sorting.Merge.{
  Ascending, merged, merge-segments, merged-Ascending, merged-perm, length-merged,
}

-- What a call on the segment `seg` of an array leaves behind.
abbrev Sorts : ℕ → ℕ → ℕ → List Entry → List Entry → List Entry → Type 0
Sorts fuel l e pre seg post =
    (out : List Entry) × (merge_sort fuel (pre ++ (seg ++ post)) l e ≡ pre ++ (out ++ post))
    × Ascending out
    × Perm out seg
    × (length out ≡ length seg)

short-Ascending : (seg : List Entry) → length seg ≤ 1 → Ascending seg
short-Ascending [] h = tt
short-Ascending (x ∷ []) h = (tt, tt)
short-Ascending (x ∷ y ∷ seg) h = absurd (omega arith)

-- The step: both halves are sorted, and then merged.
halves-Sorts :
    (fuel l m e : ℕ) (pre ls rs post : List Entry)
    → m ≡ l + (e - 1 - l) / 2 + 1
    → ltb (l + 1) e ≡ true
    → l ≡ length pre
    → m ≡ l + length ls
    → e ≡ m + length rs
    → Sorts fuel l m pre ls (rs ++ post)
    → ((ls' : List Entry) → length ls' ≡ length ls → Sorts fuel m e (pre ++ ls') rs post)
    → Sorts (suc fuel) l e pre (ls ++ rs) post
halves-Sorts fuel l m e pre ls rs post hm long hl hls hrs (ls', e1, a1, p1, n1) right =
    let (rs', e2, a2, p2, n2) = right ls' n1 in
    (
      merged ls' rs',
      chain rs' e2 n2,
      merged-Ascending ls' rs' a1 a2,
      Perm.trans (merged-perm ls' rs') (Perm.append p1 p2),
      omega (arith, length-merged ls' rs', length-append ls rs),
    )
  where
    step :
        merge_sort (suc fuel) (pre ++ ((ls ++ rs) ++ post)) l e
        ≡ merge (merge_sort fuel (merge_sort fuel (pre ++ ((ls ++ rs) ++ post)) l m) m e) l m e
    step = unfold merge_sort in rw (hm, long)

    chain :
        (rs' : List Entry)
        → merge_sort fuel ((pre ++ ls') ++ (rs ++ post)) m e ≡ (pre ++ ls') ++ (rs' ++ post)
        → length rs' ≡ length rs
        → merge_sort (suc fuel) (pre ++ ((ls ++ rs) ++ post)) l e ≡ pre ++ (merged ls' rs' ++ post)
    chain rs' e2 n2 =
        rw
          (
            step,
            append_assoc ls rs post,
            e1,
            ← append_assoc pre ls' (rs ++ post),
            e2,
            append_assoc pre ls' (rs' ++ post),
          )
          (merge-segments pre ls' rs' post l m e hl (omega arith) (omega arith))

pub merge_sort-Sorts :
    (fuel l e : ℕ) (pre seg post : List Entry)
    → l ≡ length pre
    → e ≡ l + length seg
    → length seg ≤ fuel
    → Sorts fuel l e pre seg post
merge_sort-Sorts zero l e pre seg post hl he hf =
    (seg, unfold merge_sort in refl, short-Ascending seg (omega arith), Perm.refl seg, refl)
merge_sort-Sorts (suc fuel) l e pre seg post hl he hf = elim (Bool-cases (ltb (l + 1) e)) [
  | inr short ↦
      (seg, unfold merge_sort in rw short, short-Ascending seg (ground arith), Perm.refl seg, refl)
  | inl long ↦
      let m : ℕ = l + (e - 1 - l) / 2 + 1 in
      let n : ℕ = m - l in
      let fits : n ≤ length seg = ground arith in
      let left = length-take n seg fits in
      let rest = length-drop n seg fits in
      rw (take-append-drop n seg) at (
        halves-Sorts fuel l m e pre (take n seg) (drop n seg) post refl long hl (omega arith)
          (omega arith)
          (merge_sort-Sorts fuel l m pre (take n seg) (drop n seg ++ post) hl (omega arith)
            (ground arith))
          (λ ls' same.
            merge_sort-Sorts fuel m e (pre ++ ls') (drop n seg) post
              (omega (arith, length-append pre ls')) (omega arith) (ground arith)))
]

pub merge_sort_whole :
    (fuel : ℕ) (entries : List Entry)
    → length entries ≤ fuel
    → let out = merge_sort fuel entries 0 (length entries) in
      Ascending out × Perm out entries × (length out ≡ length entries)
merge_sort_whole fuel entries h =
    let (out, e, ordered, same, long) =
      merge_sort-Sorts fuel 0 (length entries) [] entries [] refl (omega arith) h in
    let e' : merge_sort fuel entries 0 (length entries) ≡ out =
      rw (append-nil entries, append-nil out) at e in
    rw e' (ordered, same, long)

-- With fuel for the whole array, the call that `sortBins` makes sorts it: the frequencies do not
-- fall along the result, and the result holds the same entries, each as often.
pub merge_sort-sorts :
    (fuel : ℕ) (entries : List Entry)
    → length entries ≤ fuel
    → Ascending (merge_sort fuel entries 0 (length entries))
      × Perm (merge_sort fuel entries 0 (length entries)) entries
merge_sort-sorts fuel entries h =
    let (ordered, same, _) = merge_sort_whole fuel entries h in (ordered, same)
