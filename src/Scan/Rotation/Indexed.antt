-- ===== src/Scan/Rotation/Indexed.antt =====
-- `getEntryByIndex`.
use pi_scan.Base.{ℕ, ◌≡◌, ◌<◌, ℤ, pos, List, ◌∷◌, some, ok, arith, get_elem?}
use pi_scan.Scan.Entry.{Entry}
use pi_scan.Scan.System.{System}
use pi_scan.Scan.Bins.{SystemList}
use pi_scan.Scan.Rotation.{get_entry_by_index}

-- An index of a system in the list and of an entry below the system's size returns that entry, and
-- does not move the walk.
pub get_entry_by_index-some :
    (fuel : ℕ) (l : SystemList) (i j : ℕ) (rest : List ℤ) (system : System) (e : Entry)
    → get_elem? l.systems i ≡ some system
    → j < system.num_entries
    → get_elem? system.entries j ≡ some e
    → get_entry_by_index fuel l (pos i ∷ pos j ∷ rest) ≡ ok (e, l)
unfolding get_entry_by_index
get_entry_by_index-some fuel l i j rest system e found below entry_ = ground arith
