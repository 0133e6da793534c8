-- ===== src/Tests/ScanList.antt =====
-- Tests of the scan list: Scan/Sorting, Scan/Bins and Scan/Rotation.
use mathlib.Core.Quot
use mathlib.Core.List.{Permᴰ}
use pi_scan.Scan.Bins.Plan.{plan}
use pi_scan.Scan.Bins.Planned.{bin_frequencies, sort_bins-plan}
use pi_scan.Base.{
  false, half, ◌≡◌, refl, ◌≤◌, pos, ◌*◌, ◌+◌, abs, pos_part, ◌-ℤ◌, true, List, [], ◌∷◌, ok, arith,
  All, Perm, ℕ, ◌++◌, ◌+ℤ◌,
}
use pi_scan.Scan.Entry.{Entry, is_locked_out}
use pi_scan.Scan.System.{System}
use pi_scan.Scan.Bins.{EntryBin, SystemList, sort_bins, all_entries, get_center_freq, blocked}
use pi_scan.Scan.Sorting.{merge_sort}
use pi_scan.Scan.Sorting.Merge.{Ascending}
use pi_scan.Scan.Sorting.Sorted.{merge_sort-sorts}
use pi_scan.Scan.Bins.Filling.{flat, IsBin, count_blocked}
use pi_scan.Scan.Bins.Sorted.{sort_bins-sorts}
use pi_scan.Scan.Bins.Cover.{span, get_center_freq-near}
use pi_scan.Scan.Rotation.{get_next_entry}
use pi_scan.Scan.Rotation.Steps.{IsWalking, IsOffered}
use pi_scan.Scan.Rotation.Finding.{get_next_entry-returns}
use pi_scan.Scan.Rotation.Calls.{next_entries, next_entries_comes_by}
use pi_scan.Scan.Rotation.Start.{sort_bins-IsWalking}
use pi_scan.Tests.{
  tower_bin, weather, tower, repeater, two_systems, unsorted, sorted_list, high_bin,
}

merge_sort-sorts_example :
    Ascending (merge_sort 3 (weather ∷ tower ∷ repeater ∷ []) 0 3)
    × Perm (merge_sort 3 (weather ∷ tower ∷ repeater ∷ []) 0 3) (weather ∷ tower ∷ repeater ∷ [])
merge_sort-sorts_example = merge_sort-sorts 3 (weather ∷ tower ∷ repeater ∷ []) (omega arith)

sort_bins-sorts_example :
    (bins : List EntryBin) × (sort_bins (pos 2_048_000) unsorted
      ≡ ok (record unsorted { bins = bins }))
    × Perm (flat bins) (all_entries two_systems)
    × Ascending (flat bins)
    × All (IsBin (pos 2_048_000) two_systems) bins
sort_bins-sorts_example =
    sort_bins-sorts (pos 2_048_000) unsorted refl
      (unfold all_entries in (omega arith, (omega arith, (omega arith, tt))))
      (unfold all_entries in omega arith)

-- The channels of the database, in another order than its file's.
sort_bins-plan_example :
    (l : SystemList) × (sort_bins (pos 2_048_000) unsorted ≡ ok l)
    × (bin_frequencies l.bins ≡ plan (pos 2_048_000) (Quot.mk (tower ∷ weather ∷ repeater ∷ [])))
sort_bins-plan_example =
    sort_bins-plan (pos 2_048_000) unsorted (Quot.mk (tower ∷ weather ∷ repeater ∷ [])) refl
      (unfold all_entries in (omega arith, (omega arith, (omega arith, tt))))
      (unfold all_entries in omega arith)
      (unfold all_entries in Quot.sound ∣ Permᴰ.swap refl refl ∣₁)

-- The bins that the run comes to.
sort_bins_run : sort_bins (pos 2_048_000) unsorted ≡ ok sorted_list
unfolding sort_bins merge_sort is_locked_out ◌+ℤ◌
sort_bins_run = refl

abbrev no_entries : SystemList
no_entries = record {
  systems = record { tag = ""; lockout = false; sys_index = 0; entries = []; num_entries = 0 } ∷ [];
  bins = [];
  bin_num = 0;
  entry_num = 0;
  retune = true;
}

high_bin-IsBin : IsBin (pos 2_048_000) two_systems high_bin
unfolding ◌+ℤ◌
high_bin-IsBin = record {
  filled = record {
    fits = ((omega arith, omega arith), tt);
    counted = unfold count_blocked blocked is_locked_out in refl;
  };
  occupied = omega arith;
}

get_center_freq-near_example :
    All (λ e. 2 * abs (e.frequency -ℤ pos 162_475_000) ≤ span high_bin.entries + 1) high_bin.entries
    × (span high_bin.entries + 1 ≤ pos_part (pos 2_048_000))
unfolding half ◌+ℤ◌
get_center_freq-near_example =
    get_center_freq-near (pos 2_048_000) (pos 162_475_000) two_systems high_bin (omega arith)
      high_bin-IsBin ((omega arith, tt), (tt, tt)) (unfold get_center_freq in refl)

abbrev county : System
county = record {
  tag = "county";
  lockout = false;
  sys_index = 0;
  entries = weather ∷ tower ∷ [];
  num_entries = 2;
}

tower_bin-IsBin : IsBin (pos 2_048_000) two_systems tower_bin
tower_bin-IsBin = record {
  filled = record { fits = tt; counted = unfold count_blocked blocked is_locked_out in refl };
  occupied = omega arith;
}

pub sorted_list-IsWalking : IsWalking (pos 2_048_000) sorted_list
sorted_list-IsWalking = record {
  bin = tower_bin;
  here = refl;
  inside = omega arith;
  usable = (
    record { filled = tower_bin-IsBin; range = (omega arith, tt) },
    (record { filled = high_bin-IsBin; range = (omega arith, (omega arith, tt)) }, tt),
  );
}

get_next_entry-returns_example :
    (e : Entry) × (l : SystemList) × (get_next_entry 7 sorted_list ≡ ok (e, l))
    × (blocked two_systems e ≡ ok false)
    × IsOffered sorted_list e
    × IsWalking (pos 2_048_000) l
    × (l.bins ≡ sorted_list.bins)
    × (l.systems ≡ two_systems)
get_next_entry-returns_example =
    get_next_entry-returns (pos 2_048_000) 7 sorted_list 1 0 high_bin weather sorted_list-IsWalking
      refl refl (unfold blocked is_locked_out in refl) (omega arith)

next_entries_comes_by_example :
    (n : ℕ) × (before : List Entry) × (l : SystemList) × (next_entries 7 n sorted_list
      ≡ ok (before ++ weather ∷ [], l))
next_entries_comes_by_example =
    next_entries_comes_by (pos 2_048_000) 7 sorted_list 1 0 high_bin weather sorted_list-IsWalking
      refl refl (unfold blocked is_locked_out in refl) (omega arith)

sort_bins-IsWalking_example :
    (l : SystemList) × (sort_bins (pos 2_048_000) unsorted ≡ ok l)
    × IsWalking (pos 2_048_000) l
    × (l.systems ≡ two_systems)
    × (l.bin_num ≡ 0)
    × (l.entry_num ≡ 0)
sort_bins-IsWalking_example =
    sort_bins-IsWalking (pos 2_048_000) unsorted refl refl refl
      (unfold all_entries in (omega arith, (omega arith, (omega arith, tt))))
      (unfold all_entries in omega arith)
