-- ===== src/Scan/Rotation/Walk.antt =====
-- The walk of `getNextEntry` over the bins that `sortBins` filled.
use mathlib.Core.Path.{subst}
use pi_scan.Base.{
  ℕ, zero, suc, ◌+◌, ◌<◌, ◌≤◌, ◌≡◌, refl, ◌∙◌, ap, sym, ℤ, List, [], ◌∷◌, some, arith, true, false,
  Bool, ◌&&◌, ◌==◌, ◌⊎◌, inl, inr, ok, get_elem?, get_elem?-some, length, All, All-get_elem?, drop,
}
use pi_scan.Scan.Entry.{Entry}
use pi_scan.Scan.Bins.{EntryBin, SystemList, blocked}
use pi_scan.Scan.Bins.Filling.{InRange, blocked-ok}
use pi_scan.Scan.Bins.Cover.{IsBlocked}
use pi_scan.Scan.Rotation.{advance, bin_entry, visit, get_next_entry}
use pi_scan.Scan.Rotation.Steps.{
  IsUsable, IsWalking, Finds, round_skips, next_bin, advance-within, advance-last,
  next_bin-IsWalking, same_fuel, found_here, later,
}

drop-get_elem? {ℓ} :
    {A : Type ℓ} (xs : List A) (j : ℕ) {x : A}
    → get_elem? xs j ≡ some x
    → drop j xs ≡ x ∷ drop (suc j) xs
drop-get_elem? [] j h = absurd (cc)
drop-get_elem? (x ∷ xs) zero h = cc
drop-get_elem? (x ∷ xs) (suc j) h = drop-get_elem? xs j h

drop-over {ℓ} : {A : Type ℓ} (xs : List A) (j : ℕ) → length xs ≤ j → drop j xs ≡ []
drop-over [] zero h = refl
drop-over [] (suc j) h = refl
drop-over (x ∷ xs) zero h = absurd (omega arith)
drop-over (x ∷ xs) (suc j) h = drop-over xs j (omega arith)

pub visit-bin :
    (l : SystemList) (b : EntryBin) (e : Entry)
    → ((l.entry_num == 0) && l.retune) ≡ false
    → get_elem? l.bins l.bin_num ≡ some b
    → get_elem? b.entries l.entry_num ≡ some e
    → visit l ≡ ok (e, advance l (length b.entries))
unfolding visit bin_entry
visit-bin l b e plain here at_ = rw plain (rw here (rw at_ refl))

-- The walk through the rest of bin `b`, which ends at an entry or goes on to the next bin.
abbrev pub Walks : ℤ → ℕ → SystemList → EntryBin → Type 0
Walks bandwidth left l b =
    Finds bandwidth left l
    ⊎ (All (IsBlocked l.systems) (drop l.entry_num b.entries)
        × ((fuel : ℕ) → get_next_entry (left + fuel) l ≡ get_next_entry fuel (next_bin l)))

-- The entry at hand, and whether it is locked out.
pub entry_here :
    (bandwidth : ℤ) (l : SystemList) (w : IsWalking bandwidth l)
    → ((l.entry_num == 0) && l.retune) ≡ false
    → (e : Entry) × (locked : Bool) × (get_elem? w.bin.entries l.entry_num ≡ some e)
      × (visit l ≡ ok (e, advance l (length w.bin.entries)))
      × (blocked l.systems e ≡ ok locked)
entry_here bandwidth l w plain =
    let (e, at_) = get_elem?-some w.bin.entries l.entry_num w.inside in
    let usable = All-get_elem? (IsUsable bandwidth l.systems) l.bins _ w.usable w.here in
    let (locked, known) =
      blocked-ok l.systems e (All-get_elem? (InRange l.systems) w.bin.entries _ usable.range at_) in
    (e, locked, at_, visit-bin l w.bin e plain w.here at_, known)

last_entry :
    (bandwidth : ℤ) (l : SystemList) (w : IsWalking bandwidth l) (e : Entry) (locked : Bool)
    → l.entry_num + 1 ≡ length w.bin.entries
    → get_elem? w.bin.entries l.entry_num ≡ some e
    → visit l ≡ ok (e, advance l (length w.bin.entries))
    → blocked l.systems e ≡ ok locked
    → Walks bandwidth 1 l w.bin
last_entry bandwidth l w e false to_end at_ ran known = inl (
    found_here bandwidth 0 l (next_bin l) w.bin e
      (ran ∙ ap (λ x. ok (e, x)) (advance-last l (length w.bin.entries) to_end)) known
      (inr (l.bin_num, l.entry_num, w.bin, w.here, at_)) (next_bin-IsWalking bandwidth l w) refl
      refl)
last_entry bandwidth l w e true to_end at_ ran known = inr (
  subst (All (IsBlocked l.systems))
      (sym (
        drop-get_elem? w.bin.entries l.entry_num at_
        ∙ ap (◌∷◌ e) (drop-over w.bin.entries (suc l.entry_num) (omega arith))))
      (known, tt),
  λ fuel.
      same_fuel l (1 + fuel) (suc fuel) (omega arith)
      ∙ round_skips fuel l (next_bin l) e
          (ran ∙ ap (λ x. ok (e, x)) (advance-last l (length w.bin.entries) to_end)) known,
)

abbrev pub next_entry : SystemList → SystemList
next_entry l = record l { entry_num = l.entry_num + 1 }

inner_entry :
    (bandwidth : ℤ) (left : ℕ) (l : SystemList) (w : IsWalking bandwidth l) (e : Entry)
    (locked : Bool)
    → l.entry_num + 1 < length w.bin.entries
    → get_elem? w.bin.entries l.entry_num ≡ some e
    → visit l ≡ ok (e, advance l (length w.bin.entries))
    → blocked l.systems e ≡ ok locked
    → IsWalking bandwidth (next_entry l)
    → Walks bandwidth left (next_entry l) w.bin
    → Walks bandwidth (suc left) l w.bin
inner_entry bandwidth left l w e false more at_ ran known w' rest = inl (
    found_here bandwidth left l (next_entry l) w.bin e
      (ran ∙ ap (λ x. ok (e, x)) (advance-within l (length w.bin.entries) more)) known
      (inr (l.bin_num, l.entry_num, w.bin, w.here, at_)) w' refl refl)
inner_entry bandwidth left l w e true more at_ ran known w' (inl f) = inl (
    later bandwidth left l (next_entry l)
      (λ fuel.
        round_skips fuel l (next_entry l) e
          (ran ∙ ap (λ x. ok (e, x)) (advance-within l (length w.bin.entries) more)) known)
      refl refl f)
inner_entry bandwidth left l w e true more at_ ran known w' (inr (locked, on)) =
    let same : l.entry_num + 1 ≡ suc l.entry_num = omega arith in
    inr (
      subst (All (IsBlocked l.systems)) (sym (drop-get_elem? w.bin.entries l.entry_num at_))
          (known, subst (λ n. All (IsBlocked l.systems) (drop n w.bin.entries)) same locked),
      λ fuel.
          same_fuel l (suc left + fuel) (suc (left + fuel)) (omega arith)
          ∙ (round_skips (left + fuel) l (next_entry l) e
                (ran ∙ ap (λ x. ok (e, x)) (advance-within l (length w.bin.entries) more)) known
              ∙ on fuel),
    )

pub walk_bin :
    (bandwidth : ℤ) (left : ℕ) (l : SystemList) (w : IsWalking bandwidth l)
    → l.entry_num + suc left ≡ length w.bin.entries
    → ((l.entry_num == 0) && l.retune) ≡ false
    → Walks bandwidth (suc left) l w.bin
walk_bin bandwidth zero l w to_end plain =
    let (e, locked, at_, ran, known) = entry_here bandwidth l w plain in
    last_entry bandwidth l w e locked (omega arith) at_ ran known
walk_bin bandwidth (suc left) l w to_end plain =
    let (e, locked, at_, ran, known) = entry_here bandwidth l w plain in
    let w' : IsWalking bandwidth (next_entry l) = record {
      bin = w.bin;
      here = w.here;
      inside = omega arith;
      usable = w.usable;
    } in
    inner_entry bandwidth (suc left) l w e locked (omega arith) at_ ran known w'
      (walk_bin bandwidth left (next_entry l) w' (omega arith) (ground arith))
