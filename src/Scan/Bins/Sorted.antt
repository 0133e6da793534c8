-- ===== src/Scan/Bins/Sorted.antt =====
-- What `sortBins` makes of the systems that were loaded.
use mathlib.Core.List.{Permᴰ}
use mathlib.Core.List.Perm
use mathlib.Core.Logic.{∥∥₁_elim}
use mathlib.Core.HLevel.{×_prop, Unit-prop}
use mathlib.Core.Path.{subst}
use native.Mathlib.Bridge.{le_prop}
use pi_scan.Base.{
  ◌<◌, ◌≡◌, refl, sym, ℤ, ◌+ℤ◌, half, List, [], ◌∷◌, ok, undefined, arith, length, Bool-cases, ◌==◌,
  inl, inr, All, Perm,
}
use pi_scan.Scan.Entry.{Entry}
use pi_scan.Scan.System.{System}
use pi_scan.Scan.Sorting.{merge_sort}
use pi_scan.Scan.Sorting.Merge.{Ascending}
use pi_scan.Scan.Sorting.Sorted.{merge_sort_whole}
use pi_scan.Scan.Bins.{
  EntryBin, SystemList, empty_bin, last, get_center_freq, all_entries, fill_bins, print_bins,
  sort_bins,
}
use pi_scan.Scan.Bins.Filling.{flat, IsBin, InRange, fill_bins-Fills, count_blocked}

module _ {ℓ κ} {A : Type ℓ} (P : A → Type κ) (prop : (a : A) → IsProp (P a)) where
  All-prop : (xs : List A) → IsProp (All P xs)
  All-prop [] = Unit-prop
  All-prop (x ∷ xs) = ×_prop (prop x) (All-prop xs)

  All-Permᴰ : {xs ys : List A} → Permᴰ xs ys → All P xs → All P ys
  All-Permᴰ Permᴰ.nil h = h
  All-Permᴰ (Permᴰ.cons e p) h = (subst P e h.0, All-Permᴰ p h.1)
  All-Permᴰ (Permᴰ.swap e f) h = (subst P f h.1.0, (subst P e h.0, h.1.1))
  All-Permᴰ (Permᴰ.trans p q) h = All-Permᴰ q (All-Permᴰ p h)

  pub All-Perm : (xs ys : List A) → Perm xs ys → All P xs → All P ys
  All-Perm xs ys p h = ∥∥₁_elim p (All-prop ys) (λ d. All-Permᴰ d h)

pub center-ok :
    (b : EntryBin) (es : List Entry)
    → b.entries ≡ es
    → 0 < length es
    → (f : ℤ) × (get_center_freq b ≡ ok f)
unfolding get_center_freq
center-ok b [] e h = elim h [ ]
center-ok b (x ∷ []) e h = (x.frequency, rw e)
center-ok b (x ∷ y ∷ ys) e h = (half ((last y ys).frequency +ℤ x.frequency), rw e)

print_bins-ok :
    (bandwidth : ℤ) (systems : List System) (bs : List EntryBin)
    → All (IsBin bandwidth systems) bs
    → print_bins bs ≡ ok tt
unfolding print_bins
print_bins-ok bandwidth systems [] h = refl
print_bins-ok bandwidth systems (b ∷ bs) h =
    let (f, e) = center-ok b b.entries refl h.0.occupied in
    rw e (print_bins-ok bandwidth systems bs h.1)

systems-occupied : (systems : List System) → 0 < length (all_entries systems) → 0 < length systems
systems-occupied [] h = unfold all_entries in h
systems-occupied (s ∷ ss) h = omega arith

-- With the entries filled into bins, and a centre for each bin, the call returns them.
sort_bins-ok :
    (bandwidth : ℤ) (l : SystemList) (arr : List Entry) (bins : List EntryBin)
    → 0 < length l.systems
    → arr
      ≡ merge_sort
          (length (all_entries l.systems))
          (all_entries l.systems)
          0
          (length (all_entries l.systems))
    → fill_bins bandwidth l.systems l.bins empty_bin arr ≡ ok bins
    → print_bins bins ≡ ok tt
    → sort_bins bandwidth l ≡ ok (record l { bins = bins })
sort_bins-ok bandwidth l arr bins some_system is_arr filled printed =
    elim (Bool-cases (length l.systems == 0)) [
      | inl empty ↦ absurd (ground arith)
      | inr occupied ↦ unfold sort_bins in rw (occupied, ← is_arr) (rw (filled, printed))
    ]

-- What `sortBins` comes to over a fresh list: the sorted array, and the bins that it fills.
pub record SortsInto (bandwidth : ℤ) (l : SystemList) (arr : List Entry) (bins : List EntryBin)
    : Type 0 where
  pub ordered : Ascending arr
  pub same : Perm arr (all_entries l.systems)
  pub range : All (InRange l.systems) arr
  pub occupied : 0 < length arr
  pub filled : fill_bins bandwidth l.systems [] empty_bin arr ≡ ok bins
  pub ran : sort_bins bandwidth l ≡ ok (record l { bins = bins })
  pub kept : flat bins ≡ arr
  pub good : All (IsBin bandwidth l.systems) bins

pub sort_bins-SortsInto :
    (bandwidth : ℤ) (l : SystemList)
    → l.bins ≡ []
    → All (InRange l.systems) (all_entries l.systems)
    → 0 < length (all_entries l.systems)
    → (arr : List Entry) × (bins : List EntryBin) × SortsInto bandwidth l arr bins
sort_bins-SortsInto bandwidth l fresh range some_entry =
    let entries : List Entry = all_entries l.systems in
    let arr : List Entry = merge_sort (length entries) entries 0 (length entries) in
    let (ordered, same, long) = merge_sort_whole (length entries) entries (omega arith) in
    let range' = All-Perm _ (λ e. le_prop) entries arr (Perm.symm same) range in
    let (bins, ran, kept, good) =
      fill_bins-Fills bandwidth l.systems [] empty_bin arr range' ordered tt
        (record { fits = tt; counted = unfold count_blocked in refl }) (omega arith) in
    (
      arr,
      bins,
      record {
        ordered = ordered;
        same = same;
        range = range';
        occupied = omega arith;
        filled = ran;
        ran =
            sort_bins-ok bandwidth l arr bins (systems-occupied l.systems some_entry) refl
              (subst (λ c. fill_bins bandwidth l.systems c empty_bin arr ≡ ok bins) (sym fresh) ran)
              (print_bins-ok bandwidth l.systems bins good);
        kept = kept;
        good = good;
      },
    )

-- The systems of a fresh list, loaded with at least one entry, whose entries name their systems:
-- `sortBins` returns; its bins hold the entries of all systems, each as often, in order of
-- frequency; and each bin is occupied, spans less than the bandwidth, and counts its locked entries.
pub sort_bins-sorts :
    (bandwidth : ℤ) (l : SystemList)
    → l.bins ≡ []
    → All (InRange l.systems) (all_entries l.systems)
    → 0 < length (all_entries l.systems)
    → (bins : List EntryBin) × (sort_bins bandwidth l ≡ ok (record l { bins = bins }))
      × Perm (flat bins) (all_entries l.systems)
      × Ascending (flat bins)
      × All (IsBin bandwidth l.systems) bins
sort_bins-sorts bandwidth l fresh range some_entry =
    let (arr, bins, s) = sort_bins-SortsInto bandwidth l fresh range some_entry in
    (bins, s.ran, rw (s.kept) s.same, rw (s.kept) s.ordered, s.good)

-- Over a fresh list of systems that hold no entry at all, `sortBins` comes to undefined behaviour:
-- it asks for the centre of its one empty bin.
pub sort_bins_undefined :
    (bandwidth : ℤ) (l : SystemList)
    → 0 < length l.systems
    → l.bins ≡ []
    → all_entries l.systems ≡ []
    → sort_bins bandwidth l ≡ undefined
sort_bins_undefined bandwidth l some_system fresh no_entry =
    elim (Bool-cases (length l.systems == 0)) [
      | inl empty ↦ absurd (ground arith)
      | inr occupied ↦
          unfold sort_bins fill_bins print_bins get_center_freq merge_sort in
          rw (occupied, fresh, no_entry) refl
    ]
