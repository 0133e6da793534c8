-- ===== src/Scan/Sorting/Merge.antt =====
-- `merge` writes the ordered merge of its two halves over them, and nothing else.
use mathlib.Core.List.{append-nil, append_assoc, perm_middle}
use mathlib.Core.List.Perm
use pi_scan.Base.{
  ℕ, zero, suc, ◌+◌, ◌-◌, ◌≡◌, refl, ap, ◌≤ℤ◌, leb_ℤ, true, false, inl, inr, List, [], ◌∷◌, ◌++◌,
  arith, length, set, drop, length-append, take_append, drop_append, All, Bool-cases, Perm,
}
use pi_scan.Scan.Entry.{Entry}
use pi_scan.Scan.Sorting.{copy_rest, merge_loop, merge}

-- The frequencies do not fall along the list.
abbrev pub Ascending : List Entry → Type 0
Ascending [] = Unit
Ascending (x ∷ xs) = All (λ y. x.frequency ≤ℤ y.frequency) xs × Ascending xs

-- The merge of two lists, as a list.
pub merged : List Entry → List Entry → List Entry
merged [] rs = rs
merged (x ∷ ls) [] = x ∷ ls
merged (x ∷ ls) (y ∷ rs) = elim (leb_ℤ x.frequency y.frequency) [
  | true ↦ x ∷ merged ls (y ∷ rs)
  | false ↦ y ∷ merged (x ∷ ls) rs
]

-- One step of either merge, by the entry that is taken.
module _ (x y : Entry) (ls rs : List Entry) where
  merged-left :
      leb_ℤ x.frequency y.frequency ≡ true → merged (x ∷ ls) (y ∷ rs) ≡ x ∷ merged ls (y ∷ rs)
  unfolding merged
  merged-left h = rw (h, merged)

  merged-right :
      leb_ℤ x.frequency y.frequency ≡ false → merged (x ∷ ls) (y ∷ rs) ≡ y ∷ merged (x ∷ ls) rs
  unfolding merged
  merged-right h = rw (h, merged)

  merge_loop-left :
      (k : ℕ) (arr : List Entry)
      → leb_ℤ x.frequency y.frequency ≡ true
      → merge_loop (x ∷ ls) (y ∷ rs) k arr ≡ merge_loop ls (y ∷ rs) (k + 1) (set arr k x)
  unfolding merge_loop
  merge_loop-left k arr h = rw (h, merge_loop)

  merge_loop-right :
      (k : ℕ) (arr : List Entry)
      → leb_ℤ x.frequency y.frequency ≡ false
      → merge_loop (x ∷ ls) (y ∷ rs) k arr ≡ merge_loop (x ∷ ls) rs (k + 1) (set arr k y)
  unfolding merge_loop
  merge_loop-right k arr h = rw (h, merge_loop)

set_middle :
    (pre : List Entry) (x y : Entry) (post : List Entry) (k : ℕ)
    → k ≡ length pre
    → set (pre ++ y ∷ post) k x ≡ (pre ++ x ∷ []) ++ post
set_middle [] x y post zero h = refl
set_middle [] x y post (suc k) h = absurd (omega arith)
set_middle (p ∷ pre) x y post zero h = absurd (omega arith)
set_middle (p ∷ pre) x y post (suc k) h = ap (◌∷◌ p) (set_middle pre x y post k (omega arith))

length-snoc :
    (pre : List Entry) (x : Entry) (k : ℕ) → k ≡ length pre → k + 1 ≡ length (pre ++ x ∷ [])
length-snoc pre x k h = omega (arith, length-append pre (x ∷ []))

copy_rest-over :
    (xs pre mid post : List Entry) (k : ℕ)
    → k ≡ length pre
    → length mid ≡ length xs
    → copy_rest xs k (pre ++ (mid ++ post)) ≡ pre ++ (xs ++ post)
unfolding copy_rest
copy_rest-over [] pre [] post k h e = refl
copy_rest-over [] pre (m ∷ mid) post k h e = absurd (omega arith)
copy_rest-over (x ∷ xs) pre [] post k h e = absurd (omega arith)
copy_rest-over (x ∷ xs) pre (m ∷ mid) post k h e = rw (set_middle pre x m (mid ++ post) k h) (
    rw (copy_rest-over xs (pre ++ x ∷ []) mid post (k + 1) (length-snoc pre x k h) (omega arith))
      (append_assoc pre (x ∷ []) (xs ++ post)))

merge_loop-over :
    (ls rs pre mid post : List Entry) (k : ℕ)
    → k ≡ length pre
    → length mid ≡ length ls + length rs
    → merge_loop ls rs k (pre ++ (mid ++ post)) ≡ pre ++ (merged ls rs ++ post)
merge_loop-over [] rs pre mid post k h e =
    unfold merge_loop merged in copy_rest-over rs pre mid post k h (omega arith)
merge_loop-over (x ∷ ls) [] pre mid post k h e =
    unfold merge_loop merged in copy_rest-over (x ∷ ls) pre mid post k h (omega arith)
merge_loop-over (x ∷ ls) (y ∷ rs) pre [] post k h e = absurd (omega arith)
merge_loop-over (x ∷ ls) (y ∷ rs) pre (m ∷ mid) post k h e =
    elim (Bool-cases (leb_ℤ x.frequency y.frequency)) [
      | inl le ↦
          rw
            (
              merge_loop-left x y ls rs k _ le,
              merged-left x y ls rs le,
              set_middle pre x m (mid ++ post) k h,
              merge_loop-over ls (y ∷ rs) (pre ++ x ∷ []) mid post (k + 1) (length-snoc pre x k h)
                  (omega arith),
            )
            (append_assoc pre (x ∷ []) (merged ls (y ∷ rs) ++ post))
      | inr gt ↦
          rw
            (
              merge_loop-right x y ls rs k _ gt,
              merged-right x y ls rs gt,
              set_middle pre y m (mid ++ post) k h,
              merge_loop-over (x ∷ ls) rs (pre ++ y ∷ []) mid post (k + 1) (length-snoc pre y k h)
                  (omega arith),
            )
            (append_assoc pre (y ∷ []) (merged (x ∷ ls) rs ++ post))
    ]

-- The call on two neighbouring segments.
pub merge-segments :
    (pre ls rs post : List Entry) (l m e : ℕ)
    → l ≡ length pre
    → m ≡ l + length ls
    → e ≡ m + length rs
    → merge (pre ++ (ls ++ (rs ++ post))) l m e ≡ pre ++ (merged ls rs ++ post)
unfolding merge
merge-segments pre ls rs post l m e hl hm he =
    rw
      (
        drop_append pre (ls ++ (rs ++ post)) l hl,
        take_append ls (rs ++ post) (m - l) (omega arith),
        right,
        take_append rs post (e - m) (omega arith),
        joined,
      )
      (merge_loop-over ls rs pre (ls ++ rs) post l hl (length-append ls rs))
  where
    right : drop m (pre ++ (ls ++ (rs ++ post))) ≡ rs ++ post
    right =
        rw (← append_assoc pre ls (rs ++ post))
          (drop_append (pre ++ ls) (rs ++ post) m (omega (arith, length-append pre ls)))

    joined : ls ++ (rs ++ post) ≡ (ls ++ rs) ++ post
    joined = rw (append_assoc ls rs post)

All-merged {ℓ} :
    (P : Entry → Type ℓ) (ls rs : List Entry) → All P ls → All P rs → All P (merged ls rs)
unfolding merged
All-merged P [] rs hl hr = hr
All-merged P (x ∷ ls) [] hl hr = hl
All-merged P (x ∷ ls) (y ∷ rs) hl hr = elim (Bool-cases (leb_ℤ x.frequency y.frequency)) [
  | inl le ↦ rw (merged-left x y ls rs le) (hl.0, All-merged P ls (y ∷ rs) hl.1 hr)
  | inr gt ↦ rw (merged-right x y ls rs gt) (hr.0, All-merged P (x ∷ ls) rs hl hr.1)
]

All-above :
    (x y : Entry) (zs : List Entry)
    → x.frequency ≤ℤ y.frequency
    → All (λ z. y.frequency ≤ℤ z.frequency) zs
    → All (λ z. x.frequency ≤ℤ z.frequency) zs
All-above x y [] h a = tt
All-above x y (z ∷ zs) h a = (omega arith, All-above x y zs h a.1)

pub merged-Ascending : (ls rs : List Entry) → Ascending ls → Ascending rs → Ascending (merged ls rs)
unfolding merged
merged-Ascending [] rs hl hr = hr
merged-Ascending (x ∷ ls) [] hl hr = hl
merged-Ascending (x ∷ ls) (y ∷ rs) hl hr = elim (Bool-cases (leb_ℤ x.frequency y.frequency)) [
  | inl le ↦
      let below : x.frequency ≤ℤ y.frequency = ground arith in
      rw (merged-left x y ls rs le) (
        All-merged _ ls (y ∷ rs) hl.0 (below, All-above x y rs below hr.0),
        merged-Ascending ls (y ∷ rs) hl.1 hr,
      )
  | inr gt ↦
      let below : y.frequency ≤ℤ x.frequency = ground arith in
      rw (merged-right x y ls rs gt) (
        All-merged _ (x ∷ ls) rs (below, All-above y x ls below hl.0) hr.0,
        merged-Ascending (x ∷ ls) rs hl hr.1,
      )
]

pub length-merged : (ls rs : List Entry) → length (merged ls rs) ≡ length ls + length rs
unfolding merged
length-merged [] rs = omega arith
length-merged (x ∷ ls) [] = omega arith
length-merged (x ∷ ls) (y ∷ rs) =
    ground (arith, length-merged ls (y ∷ rs), length-merged (x ∷ ls) rs)

pub merged-perm : (ls rs : List Entry) → Perm (merged ls rs) (ls ++ rs)
unfolding merged
merged-perm [] rs = Perm.refl rs
merged-perm (x ∷ ls) [] = rw (append-nil ls) (Perm.refl (x ∷ ls))
merged-perm (x ∷ ls) (y ∷ rs) = elim (Bool-cases (leb_ℤ x.frequency y.frequency)) [
  | inl le ↦ rw (merged-left x y ls rs le) (Perm.cons x (merged-perm ls (y ∷ rs)))
  | inr gt ↦
      rw (merged-right x y ls rs gt)
        (Perm.trans (Perm.cons y (merged-perm (x ∷ ls) rs)) (Perm.symm (perm_middle (x ∷ ls) rs)))
]
