-- ===== src/Scan/Rotation/Steps.antt =====
-- What one round of `getNextEntry` comes to, and the invariant of the walk.
use mathlib.Core.Path.{subst}
use native.Mathlib.Nat.{mod-eq_of_lt, mod-lt}
use pi_scan.Base.{
  ℕ, suc, ◌+◌, ◌%◌, ◌<◌, ◌≤◌, ◌≡◌, refl, ◌∙◌, ap, sym, ℤ, List, some, arith, true, false, ◌⊎◌, ok,
  get_elem?, get_elem?-some, length, All, All-get_elem?,
}
use pi_scan.Scan.Entry.{Entry, is_dummy}
use pi_scan.Scan.System.{System}
use pi_scan.Scan.Bins.{EntryBin, SystemList, blocked}
use pi_scan.Scan.Bins.Filling.{IsBin, InRange}
use pi_scan.Scan.Rotation.{advance, visit, get_next_entry}
use pi_scan.Scan.Rotation.Skipping.{get_elem?-lt, next-wraps}

-- A bin as `sortBins` leaves it, whose entries name systems of the list.
pub record IsUsable (bandwidth : ℤ) (systems : List System) (b : EntryBin) : Type 0 where
  pub filled : IsBin bandwidth systems b
  pub range : All (InRange systems) b.entries

-- The walk stands at an entry of a bin.
pub record IsWalking (bandwidth : ℤ) (l : SystemList) : Type 0 where
  pub bin : EntryBin
  pub here : get_elem? l.bins l.bin_num ≡ some bin
  pub inside : l.entry_num < length bin.entries
  pub usable : All (IsUsable bandwidth l.systems) l.bins

-- The entry is one that the walk may return: it is made to tune to a bin, or it stands in one.
abbrev pub IsOffered : SystemList → Entry → Type 0
IsOffered l e =
    (is_dummy e ≡ true)
    ⊎ ((i k : ℕ) × (b : EntryBin) × (get_elem? l.bins i ≡ some b)
        × (get_elem? b.entries k ≡ some e))

-- Within `bound` rounds the loop returns an entry that is not locked out.
pub record Finds (bandwidth : ℤ) (bound : ℕ) (l : SystemList) : Type 0 where
  pub rounds : ℕ
  pub soon : rounds ≤ bound
  pub entry : Entry
  pub after : SystemList
  pub found : (fuel : ℕ) → get_next_entry (rounds + fuel) l ≡ ok (entry, after)
  pub open_ : blocked l.systems entry ≡ ok false
  pub offered : IsOffered l entry
  pub walking : IsWalking bandwidth after
  pub bins_kept : after.bins ≡ l.bins
  pub systems_kept : after.systems ≡ l.systems

pub round_found :
    (fuel : ℕ) (l l' : SystemList) (e : Entry)
    → visit l ≡ ok (e, l')
    → blocked l'.systems e ≡ ok false
    → get_next_entry (suc fuel) l ≡ ok (e, l')
round_found fuel l l' e ran open_ = unfold get_next_entry in rw ran (rw open_ refl)

pub round_skips :
    (fuel : ℕ) (l l' : SystemList) (e : Entry)
    → visit l ≡ ok (e, l')
    → blocked l'.systems e ≡ ok true
    → get_next_entry (suc fuel) l ≡ get_next_entry fuel l'
round_skips fuel l l' e ran locked = unfold get_next_entry in rw ran (rw locked refl)

abbrev pub next_bin : SystemList → SystemList
next_bin l = record l { entry_num = 0; bin_num = (l.bin_num + 1) % length l.bins; retune = true }

pub advance-within :
    (l : SystemList) (size : ℕ)
    → l.entry_num + 1 < size
    → advance l size ≡ record l { entry_num = l.entry_num + 1 }
advance-within l size h = ground (arith, mod-eq_of_lt h)

pub advance-last :
    (l : SystemList) (size : ℕ) → l.entry_num + 1 ≡ size → advance l size ≡ next_bin l
advance-last l size h = ground (arith, next-wraps l.entry_num size h)

next-below : (m n : ℕ) → m < n → (m + 1) % n < n
next-below m n h = omega (arith, mod-lt (m + 1) {m = n} (omega arith))

pub next_bin-IsWalking :
    (bandwidth : ℤ) (l : SystemList) → IsWalking bandwidth l → IsWalking bandwidth (next_bin l)
next_bin-IsWalking bandwidth l w =
    let (b, here) =
      get_elem?-some l.bins ((l.bin_num + 1) % length l.bins)
        (next-below l.bin_num (length l.bins) (get_elem?-lt l.bins l.bin_num w.here)) in
    let usable = All-get_elem? (IsUsable bandwidth l.systems) l.bins _ w.usable here in
    record { bin = b; here = here; inside = usable.filled.occupied; usable = w.usable }

pub same_fuel : (l : SystemList) (m n : ℕ) → m ≡ n → get_next_entry m l ≡ get_next_entry n l
same_fuel l m n e = ap (λ x. get_next_entry x l) e

pub found_here :
    (bandwidth : ℤ) (left : ℕ) (l l' : SystemList) (b : EntryBin) (e : Entry)
    → visit l ≡ ok (e, l')
    → blocked l.systems e ≡ ok false
    → IsOffered l e
    → IsWalking bandwidth l'
    → l'.bins ≡ l.bins
    → l'.systems ≡ l.systems
    → Finds bandwidth (suc left) l
found_here bandwidth left l l' b e ran open_ offered walking same_bins same = record {
  rounds = 1;
  soon = omega arith;
  entry = e;
  after = l';
  found = λ fuel.
      same_fuel l (1 + fuel) (suc fuel) (omega arith)
      ∙ round_found fuel l l' e ran (ap (λ x. blocked x e) same ∙ open_);
  open_ = open_;
  offered = offered;
  walking = walking;
  bins_kept = same_bins;
  systems_kept = same;
}

pub later :
    (bandwidth : ℤ) (bound : ℕ) (l l' : SystemList)
    → ((fuel : ℕ) → get_next_entry (suc fuel) l ≡ get_next_entry fuel l')
    → l'.bins ≡ l.bins
    → l'.systems ≡ l.systems
    → Finds bandwidth bound l'
    → Finds bandwidth (suc bound) l
later bandwidth bound l l' goes same_bins same f = record {
  rounds = suc f.rounds;
  soon = omega (arith, f.soon);
  entry = f.entry;
  after = f.after;
  found = λ fuel.
      same_fuel l (suc f.rounds + fuel) (suc (f.rounds + fuel)) (omega arith)
      ∙ (goes (f.rounds + fuel) ∙ f.found fuel);
  open_ = ap (λ x. blocked x f.entry) (sym same) ∙ f.open_;
  offered =
      subst
        (λ bins.
          (is_dummy f.entry ≡ true)
          ⊎ ((i k : ℕ) × (b : EntryBin) × (get_elem? bins i ≡ some b)
              × (get_elem? b.entries k ≡ some f.entry)))
        same_bins f.offered;
  walking = f.walking;
  bins_kept = f.bins_kept ∙ same_bins;
  systems_kept = f.systems_kept ∙ same;
}
