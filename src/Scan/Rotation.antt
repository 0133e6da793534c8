-- ===== src/Scan/Rotation.antt =====
-- `getNextEntry` and `getEntryByIndex` of SystemList.cpp: the walk over the bins. The loops have no
-- bound in the source ("this will run infinitely if everything is locked out"), so they take fuel.
-- An index out of range, which `at` reports by an exception that nothing catches, is `undefined`.
pub mod Indexed
pub mod Skipping
pub mod Steps
pub mod Start
pub mod Walk
pub mod Finding
pub mod Ahead
pub mod Reaching
pub mod Fairness
pub mod Calls
use pi_scan.Base.{
  ℕ, zero, suc, ◌+◌, ◌%◌, ℤ, pos, true, false, List, ◌∷◌, Option, none, some, ok, undefined,
  out_of_fuel, Outcome, ◌>>=◌, if◌then◌else◌, ◌==◌, ltb, length, get_elem?, ◌&&◌,
}
use pi_scan.Scan.Entry.{Entry, dummy_channel}
use pi_scan.Scan.System.{System}
use pi_scan.Scan.Bins.{EntryBin, SystemList, entries_locked_out, get_center_freq, blocked}

abbrev pub or_undefined {ℓ} : {A : Type ℓ} → Option A → Outcome A
or_undefined none = undefined
or_undefined (some a) = ok a

-- `for(;_bins[_binNum]->entriesLockedOut();_binNum = (_binNum + 1) % _bins.size());`
unfoldable pub skip_locked : ℕ → List EntryBin → ℕ → Outcome ℕ
unfolding entries_locked_out
skip_locked zero bins n = out_of_fuel
skip_locked (suc fuel) bins n = elim (get_elem? bins n) [
  | none ↦ undefined
  | some b ↦
      let rest = skip_locked fuel bins ((n + 1) % length bins) in
      if entries_locked_out b then rest else ok n
]

-- The first branch of the loop's body: a dummy channel that retunes to the next bin.
unfoldable pub retune_entry : SystemList → Outcome (Entry × SystemList)
unfolding skip_locked get_center_freq dummy_channel
retune_entry l = do
  n ← skip_locked (length l.bins) l.bins l.bin_num
  b ← or_undefined (get_elem? l.bins n)
  freq ← get_center_freq b
  ok (dummy_channel freq, record l { bin_num = n; retune = false })

-- The moves behind an entry: to the next one of the bin, or to the next bin.
abbrev pub advance : SystemList → ℕ → SystemList
advance l size =
    let next = (l.entry_num + 1) % size in
    if next == 0
    then record l { entry_num = next; bin_num = (l.bin_num + 1) % length l.bins; retune = true }
    else record l { entry_num = next }

unfoldable pub bin_entry : SystemList → Outcome (Entry × SystemList)
bin_entry l = do
  b ← or_undefined (get_elem? l.bins l.bin_num)
  e ← or_undefined (get_elem? b.entries l.entry_num)
  ok (e, advance l (length b.entries))

-- One round of the loop.
unfoldable pub visit : SystemList → Outcome (Entry × SystemList)
unfolding retune_entry bin_entry
visit l = if (l.entry_num == 0) && l.retune then retune_entry l else bin_entry l

unfoldable pub get_next_entry : ℕ → SystemList → Outcome (Entry × SystemList)
unfolding visit blocked
get_next_entry zero l = out_of_fuel
get_next_entry (suc fuel) l = do
  (e, l') ← visit l
  skip ← blocked l'.systems e
  let rest = get_next_entry fuel l'
  if skip then rest else ok (e, l')

-- The index that `getEntryByIndex` takes, where it passes the guards.
abbrev in_range : List System → ℕ → ℕ → Option ℕ
in_range systems i j = elim (get_elem? systems i) [
  | none ↦ none
  | some s ↦ if ltb j s.num_entries then some j else none
]

abbrev pub valid_index : List System → List ℤ → Option (ℕ × ℕ)
valid_index systems (pos i ∷ pos j ∷ _) = elim (in_range systems i j) [
  | none ↦ none
  | some k ↦ some (i, k)
]
valid_index systems _ = none

unfoldable pub get_entry_by_index : ℕ → SystemList → List ℤ → Outcome (Entry × SystemList)
unfolding get_next_entry
get_entry_by_index fuel l index = elim (valid_index l.systems index) [
  | none ↦ get_next_entry fuel l
  | some (i, j) ↦ do
    s ← or_undefined (get_elem? l.systems i)
    e ← or_undefined (get_elem? s.entries j)
    ok (e, l)
]
