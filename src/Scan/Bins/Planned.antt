-- ===== src/Scan/Bins/Planned.antt =====
-- `sortBins` makes the bins that the plan of the channels asks for.
use mathlib.Core.List.{append-nil, append_assoc}
use mathlib.Core.Quot
use pi_scan.Base.{
  ◌<◌, ◌≡◌, refl, sym, ap, ◌∙◌, ℤ, ◌+ℤ◌, leb_ℤ, true, false, List, [], ◌∷◌, ◌++◌, map, ok, length,
  All, Bool-cases, inl, inr, ok-injective,
}
use pi_scan.Scan.Entry.{Entry}
use pi_scan.Scan.System.{System}
use pi_scan.Scan.Bins.{
  EntryBin, SystemList, empty_bin, push_entry, starts_bin, fill_bins, all_entries, sort_bins,
}
use pi_scan.Scan.Bins.Filling.{InRange, blocked-ok, fill_bins-start, fill_bins-keep}
use pi_scan.Scan.Bins.Sorted.{sort_bins-SortsInto}
use pi_scan.Scan.Bins.Plan.{Channels, cut, cuts, plan, in_order-Ascending, in_order-Perm}

abbrev frequencies : List Entry → List ℤ
frequencies es = map (λ e. e.frequency) es

abbrev pub bin_frequencies : List EntryBin → List (List ℤ)
bin_frequencies bins = map (λ b. frequencies b.entries) bins

frequencies-append :
    (xs ys : List Entry) → frequencies (xs ++ ys) ≡ frequencies xs ++ frequencies ys
frequencies-append [] ys = refl
frequencies-append (x ∷ xs) ys = rw (frequencies-append xs ys) refl

bin_frequencies-append :
    (bs cs : List EntryBin) → bin_frequencies (bs ++ cs) ≡ bin_frequencies bs ++ bin_frequencies cs
bin_frequencies-append [] cs = refl
bin_frequencies-append (b ∷ bs) cs = rw (bin_frequencies-append bs cs) refl

-- The bins that the loop makes of a last bin that starts with `x`, and the entries still to come.
fill_bins-cut :
    (bandwidth : ℤ) (systems : List System) (es : List Entry) (bins : List EntryBin)
    (bin : EntryBin) (x : Entry) (xs : List Entry) (out : List EntryBin)
    → All (InRange systems) es
    → bin.entries ≡ x ∷ xs
    → fill_bins bandwidth systems bins bin es ≡ ok out
    → bin_frequencies out
      ≡ bin_frequencies bins
        ++ (frequencies bin.entries ++ (cut bandwidth x.frequency (frequencies es)).0)
          ∷ (cut bandwidth x.frequency (frequencies es)).1
unfolding cut
fill_bins-cut bandwidth systems [] bins bin x xs out range first ran =
    let same : bins ++ bin ∷ [] ≡ out = ok-injective (unfold fill_bins in ran) in
    rw (← same, bin_frequencies-append bins (bin ∷ []), append-nil (frequencies bin.entries)) refl
fill_bins-cut bandwidth systems (e ∷ es) bins bin x xs out range first ran =
    let (locked, known) = blocked-ok systems e range.0 in
    elim (Bool-cases (leb_ℤ (x.frequency +ℤ bandwidth) e.frequency)) [
      | inl far ↦
          let starts : starts_bin bandwidth bin.entries e ≡ true = rw (first) far in
          let go = fill_bins-start bandwidth systems bins bin e es locked known starts in
          let rest =
            fill_bins-cut bandwidth systems es (bins ++ bin ∷ []) (push_entry empty_bin e locked) e
              [] out range.1 refl (sym go ∙ ran) in
          rw
            (
              far,
              rest,
              bin_frequencies-append bins (bin ∷ []),
              append-nil (frequencies bin.entries),
              append_assoc (bin_frequencies bins),
            )
            refl
      | inr near ↦
          let keeps : starts_bin bandwidth bin.entries e ≡ false = rw (first) near in
          let go = fill_bins-keep bandwidth systems bins bin e es locked known keeps in
          let rest =
            fill_bins-cut bandwidth systems es bins (push_entry bin e locked) x (xs ++ e ∷ []) out
              range.1 (ap (λ z. z ++ e ∷ []) first) (sym go ∙ ran) in
          rw
            (
              near,
              rest,
              frequencies-append bin.entries (e ∷ []),
              append_assoc (frequencies bin.entries),
            )
            refl
    ]

fill_bins-cuts :
    (bandwidth : ℤ) (systems : List System) (arr : List Entry) (out : List EntryBin)
    → All (InRange systems) arr
    → 0 < length arr
    → fill_bins bandwidth systems [] empty_bin arr ≡ ok out
    → bin_frequencies out ≡ cuts bandwidth (frequencies arr)
unfolding cuts
fill_bins-cuts bandwidth systems [] out range some_left ran = elim some_left [ ]
fill_bins-cuts bandwidth systems (e ∷ es) out range some_left ran =
    let (locked, known) = blocked-ok systems e range.0 in
    let go = fill_bins-keep bandwidth systems [] empty_bin e es locked known refl in
    fill_bins-cut bandwidth systems es [] (push_entry empty_bin e locked) e [] out range.1 refl
      (sym go ∙ ran)

-- The systems of a fresh list, loaded with at least one entry, whose entries name their systems,
-- hold the channels `c`, in whatever order: `sortBins` returns, and the frequencies of its bins are
-- those of the plan for `c`.
pub sort_bins-plan :
    (bandwidth : ℤ) (l : SystemList) (c : Channels)
    → l.bins ≡ []
    → All (InRange l.systems) (all_entries l.systems)
    → 0 < length (all_entries l.systems)
    → Quot.mk (all_entries l.systems) ≡ c
    → (l' : SystemList) × (sort_bins bandwidth l ≡ ok l')
      × (bin_frequencies l'.bins ≡ plan bandwidth c)
unfolding plan
sort_bins-plan bandwidth l c fresh range some_entry held =
    let (arr, bins, s) = sort_bins-SortsInto bandwidth l fresh range some_entry in
    let cut_ = fill_bins-cuts bandwidth l.systems arr bins s.range s.occupied s.filled in
    let sorted_ = sym (in_order-Ascending arr s.ordered) ∙ in_order-Perm arr _ s.same in
    (record l { bins = bins }, s.ran, cut_ ∙ ap (cuts bandwidth) sorted_ ∙ ap (plan bandwidth) held)
