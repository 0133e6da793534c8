-- ===== src/Scan/Rotation/Start.antt =====
-- The walk over a list that `sortBins` has just filled.
use native.Mathlib.Bridge.{le_prop}
use mathlib.Core.List.Perm
use pi_scan.Base.{◌<◌, ◌≡◌, refl, ℤ, List, [], ◌∷◌, ok, arith, length, All, All-prefix, Perm}
use pi_scan.Scan.System.{System}
use pi_scan.Scan.Entry.{Entry}
use pi_scan.Scan.Bins.{EntryBin, SystemList, all_entries, sort_bins}
use pi_scan.Scan.Bins.Filling.{flat, IsBin, InRange}
use pi_scan.Scan.Bins.Sorted.{sort_bins-sorts, All-Perm}
use pi_scan.Scan.Rotation.Steps.{IsUsable, IsWalking}

bins-IsUsable :
    (bandwidth : ℤ) (systems : List System) (bins : List EntryBin)
    → All (IsBin bandwidth systems) bins
    → All (InRange systems) (flat bins)
    → All (IsUsable bandwidth systems) bins
bins-IsUsable bandwidth systems [] good range = tt
bins-IsUsable bandwidth systems (b ∷ bins) good range =
    let (front, back) = All-prefix (InRange systems) b.entries (flat bins) range in
    (record { filled = good.0; range = front }, bins-IsUsable bandwidth systems bins good.1 back)

-- A list is not empty if one with the same elements is not.
Perm-some : (xs ys : List Entry) → Perm xs ys → 0 < length ys → 0 < length xs
Perm-some [] (y ∷ ys) p h =
    let none_left = All-Perm (λ e. 0 < 0) (λ e. le_prop) [] (y ∷ ys) p tt in
    absurd (omega (arith, none_left.0))
Perm-some [] [] p h = absurd (omega arith)
Perm-some (x ∷ xs) ys p h = omega arith

starts :
    (bandwidth : ℤ) (l : SystemList) (bins : List EntryBin)
    → l.bin_num ≡ 0
    → l.entry_num ≡ 0
    → 0 < length (flat bins)
    → All (IsUsable bandwidth l.systems) bins
    → IsWalking bandwidth (record l { bins = bins })
starts bandwidth l [] first start some_entry usable = absurd (omega arith)
starts bandwidth l (b ∷ bins) first start some_entry usable = record {
  bin = b;
  here = ground arith;
  inside = omega (arith, usable.0.filled.occupied);
  usable = usable;
}

-- The systems of a fresh list, loaded with at least one entry, whose entries name their systems:
-- `sortBins` returns, and the walk over its bins stands at the first entry of the first one.
pub sort_bins-IsWalking :
    (bandwidth : ℤ) (l : SystemList)
    → l.bins ≡ []
    → l.bin_num ≡ 0
    → l.entry_num ≡ 0
    → All (InRange l.systems) (all_entries l.systems)
    → 0 < length (all_entries l.systems)
    → (l' : SystemList) × (sort_bins bandwidth l ≡ ok l')
      × IsWalking bandwidth l'
      × (l'.systems ≡ l.systems)
      × (l'.bin_num ≡ 0)
      × (l'.entry_num ≡ 0)
sort_bins-IsWalking bandwidth l fresh first start range some_entry =
    let (bins, ran, same, ordered, good) = sort_bins-sorts bandwidth l fresh range some_entry in
    let range' : All (InRange l.systems) (flat bins) =
      All-Perm (InRange l.systems) (λ e. le_prop) (all_entries l.systems) (flat bins)
        (Perm.symm same) range in
    let some_left : 0 < length (flat bins) =
      Perm-some (flat bins) (all_entries l.systems) same some_entry in
    (
      record l { bins = bins },
      ran,
      starts bandwidth l bins first start some_left
          (bins-IsUsable bandwidth l.systems bins good range'),
      refl,
      first,
      start,
    )
