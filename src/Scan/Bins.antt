-- ===== src/Scan/Bins.antt =====
-- `SystemList` and `sortBins` of SystemList.h and SystemList.cpp: the entries of every system, in
-- order of frequency, cut into bins that one setting of the tuner covers. `long` has 64 bits, and
-- the sum of two frequencies is taken to fit it.
pub mod Filling
pub mod Sorted
pub mod Cover
pub mod Plan
pub mod Planned
use pi_scan.Base.{
  ℕ, ◌+◌, ℤ, ◌+ℤ◌, half, leb_ℤ, Bool, true, false, List, [], ◌∷◌, ◌++◌, Option, none, some, ok,
  undefined, Outcome, ◌>>=◌, if◌then◌else◌, ◌==◌, length, get_elem?, take,
}
use pi_scan.Scan.Entry.{Entry, is_locked_out}
use pi_scan.Scan.System.{System}
use pi_scan.Scan.Sorting.{merge_sort}

pub record EntryBin : Type 0 where
  pub entries : List Entry
  pub locked_entries : ℕ

pub record SystemList : Type 0 where
  pub systems : List System
  pub bins : List EntryBin
  pub bin_num : ℕ
  pub entry_num : ℕ
  pub retune : Bool

unfoldable pub new_system_list : SystemList
new_system_list = record { systems = []; bins = []; bin_num = 0; entry_num = 0; retune = true }

unfoldable pub entries_locked_out : EntryBin → Bool
entries_locked_out b = b.locked_entries == length b.entries

abbrev pub last : Entry → List Entry → Entry
last x [] = x
last x (y ∷ ys) = last y ys

-- `EntryBin::getCenterFreq`; `front` of an empty bin is undefined.
abbrev center_of : List Entry → Outcome ℤ
center_of [] = undefined
center_of (x ∷ []) = ok x.frequency
center_of (x ∷ y ∷ ys) = ok (half ((last y ys).frequency +ℤ x.frequency))

unfoldable pub get_center_freq : EntryBin → Outcome ℤ
get_center_freq b = center_of b.entries

abbrev pub system_lockout : Option System → Outcome Bool
system_lockout none = undefined
system_lockout (some s) = ok s.lockout

-- `entry->isLockedOut() || _systems[entry->getSysIndex()]->lockedOut()`.
unfoldable pub blocked : List System → Entry → Outcome Bool
blocked systems e =
    if is_locked_out e then ok true else system_lockout (get_elem? systems e.sys_index)

-- The loops that fill the array. A system's `size` is its `numEntries`, which `addEntry` keeps at
-- the length of its vector.
unfoldable pub all_entries : List System → List Entry
all_entries [] = []
all_entries (s ∷ ss) = take s.num_entries s.entries ++ all_entries ss

-- Does the entry start a new bin behind this one?
abbrev starts_bin : ℤ → List Entry → Entry → Bool
starts_bin bandwidth [] e = false
starts_bin bandwidth (front ∷ _) e = leb_ℤ (front.frequency +ℤ bandwidth) e.frequency

abbrev pub empty_bin : EntryBin
empty_bin = record { entries = []; locked_entries = 0 }

abbrev pub push_entry : EntryBin → Entry → Bool → EntryBin
push_entry b e locked = record {
  entries = b.entries ++ e ∷ [];
  locked_entries = if locked then b.locked_entries + 1 else b.locked_entries;
}

-- The loop over the sorted entries: `bins` are all bins but the last one, `bin`.
unfoldable pub fill_bins :
    ℤ → List System → List EntryBin → EntryBin → List Entry → Outcome (List EntryBin)
unfolding blocked
fill_bins bandwidth systems bins bin [] = ok (bins ++ bin ∷ [])
fill_bins bandwidth systems bins bin (e ∷ es) = elim (blocked systems e) [
  | ok locked ↦ elim (starts_bin bandwidth bin.entries e) [
    | true ↦ fill_bins bandwidth systems (bins ++ bin ∷ []) (push_entry empty_bin e locked) es
    | false ↦ fill_bins bandwidth systems bins (push_entry bin e locked) es
  ]
  | _ ↦ undefined
]

-- The loop that prints the bins; all that matters of it is that it asks each bin for its centre.
print_bins : List EntryBin → Outcome (Unit {0})
unfolding get_center_freq
print_bins [] = ok tt
print_bins (b ∷ bs) = get_center_freq b >>= λ _. print_bins bs

unfoldable pub sort_bins : ℤ → SystemList → Outcome SystemList
unfolding fill_bins print_bins all_entries
sort_bins bandwidth l = if length l.systems == 0 then ok l else (do
  let entries = all_entries l.systems
  bins ←
      fill_bins bandwidth l.systems l.bins empty_bin
        (merge_sort (length entries) entries 0 (length entries))
  _ ← print_bins bins
  ok (record l { bins = bins }))
