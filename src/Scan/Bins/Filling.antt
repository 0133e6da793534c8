-- ===== src/Scan/Bins/Filling.antt =====
-- The loop of `sortBins` that cuts the sorted entries into bins.
use mathlib.Core.List.{append-nil, append_assoc}
use pi_scan.Base.{
  ℕ, ◌+◌, ◌<◌, ◌≡◌, refl, ◌∙◌, ap, ℤ, ◌+ℤ◌, ◌≤ℤ◌, ◌<ℤ◌, Bool, true, false, inl, inr, List, [], ◌∷◌,
  ◌++◌, ok, arith, length, length-append, get_elem?-some, All, All-append, Bool-cases,
  if◌then◌else◌,
}
use pi_scan.Scan.Entry.{Entry, is_locked_out}
use pi_scan.Scan.System.{System}
use pi_scan.Scan.Sorting.Merge.{Ascending}
use pi_scan.Scan.Bins.{EntryBin, empty_bin, push_entry, blocked, starts_bin, fill_bins}

-- The entries of some bins, in order.
abbrev pub flat : List EntryBin → List Entry
flat [] = []
flat (b ∷ bs) = b.entries ++ flat bs

-- Every entry lies less than `bandwidth` above the first one.
abbrev pub Fits : ℤ → List Entry → Type 0
Fits bandwidth [] = Unit
Fits bandwidth (front ∷ es) =
    All (λ e. (front.frequency ≤ℤ e.frequency) × (e.frequency <ℤ (front.frequency +ℤ bandwidth))) es

-- How many entries are locked out, themselves or by their system.
unfoldable pub count_blocked : List System → List Entry → ℕ
count_blocked systems [] = 0
count_blocked systems (e ∷ es) =
    let rest = count_blocked systems es in
    elim (blocked systems e) [ ok locked ↦ if locked then rest + 1 else rest | _ ↦ rest ]

pub record IsFilling (bandwidth : ℤ) (systems : List System) (b : EntryBin) : Type 0 where
  pub fits : Fits bandwidth b.entries
  pub counted : b.locked_entries ≡ count_blocked systems b.entries

pub record IsBin (bandwidth : ℤ) (systems : List System) (b : EntryBin) : Type 0 where
  pub filled : IsFilling bandwidth systems b
  pub occupied : 0 < length b.entries

abbrev pub InRange : List System → Entry → Type 0
InRange systems e = e.sys_index < length systems

pub blocked-ok :
    (systems : List System) (e : Entry)
    → InRange systems e
    → (locked : Bool) × (blocked systems e ≡ ok locked)
unfolding blocked
blocked-ok systems e h =
    let (s, found) = get_elem?-some systems e.sys_index h in
    (if is_locked_out e then true else s.lockout, ground (arith, found))

count_blocked-append :
    (systems : List System) (es fs : List Entry)
    → count_blocked systems (es ++ fs) ≡ count_blocked systems es + count_blocked systems fs
unfolding count_blocked
count_blocked-append systems [] fs = omega arith
count_blocked-append systems (e ∷ es) fs = ground (arith, count_blocked-append systems es fs)

flat-append : (bs cs : List EntryBin) → flat (bs ++ cs) ≡ flat bs ++ flat cs
flat-append [] cs = refl
flat-append (b ∷ bs) cs = rw (flat-append bs cs) (rw (append_assoc b.entries (flat bs) (flat cs)))

pub Ascending-suffix : (xs ys : List Entry) → Ascending (xs ++ ys) → Ascending ys
Ascending-suffix [] ys h = h
Ascending-suffix (x ∷ xs) ys h = Ascending-suffix xs ys h.1

All-suffix {ℓ} :
    (P : Entry → Type ℓ) (xs : List Entry) (y : Entry) (ys : List Entry)
    → All P (xs ++ y ∷ ys)
    → P y
All-suffix P [] y ys h = h.0
All-suffix P (x ∷ xs) y ys h = All-suffix P xs y ys h.1

-- An entry that starts no new bin fits behind the ones before it.
Fits-push :
    (bandwidth : ℤ) (xs : List Entry) (e : Entry) (es : List Entry)
    → Ascending (xs ++ e ∷ es)
    → starts_bin bandwidth xs e ≡ false
    → Fits bandwidth xs
    → Fits bandwidth (xs ++ e ∷ [])
Fits-push bandwidth [] e es sorted close h = tt
Fits-push bandwidth (x ∷ xs) e es sorted close h = All-append _ xs (e ∷ []) h (
    let above : x.frequency ≤ℤ e.frequency = All-suffix _ xs e es sorted.0 in
    ((above, ground arith), tt))

push-IsFilling :
    (bandwidth : ℤ) (systems : List System) (b : EntryBin) (e : Entry) (locked : Bool)
    → blocked systems e ≡ ok locked
    → Fits bandwidth (b.entries ++ e ∷ [])
    → b.locked_entries ≡ count_blocked systems b.entries
    → IsFilling bandwidth systems (push_entry b e locked)
push-IsFilling bandwidth systems b e locked h f c = record {
  fits = f;
  counted = unfold count_blocked in ground (arith, count_blocked-append systems b.entries (e ∷ []));
}

push-occupied :
    (b : EntryBin) (e : Entry) (locked : Bool) → 0 < length (push_entry b e locked).entries
push-occupied b e locked = omega (arith, length-append b.entries (e ∷ []))

-- What the loop makes of bins `bins`, a last bin `bin` and the entries still to come.
abbrev Fills : ℤ → List System → List EntryBin → EntryBin → List Entry → Type 0
Fills bandwidth systems bins bin es =
    (out : List EntryBin) × (fill_bins bandwidth systems bins bin es ≡ ok out)
    × (flat out ≡ flat bins ++ (bin.entries ++ es))
    × All (IsBin bandwidth systems) out

starts_bin-occupied :
    (bandwidth : ℤ) (xs : List Entry) (e : Entry) → starts_bin bandwidth xs e ≡ true → 0 < length xs
starts_bin-occupied bandwidth [] e h = cc
starts_bin-occupied bandwidth (x ∷ xs) e h = omega arith

-- One round of the loop, by the two tests that it makes.
module _ (bandwidth : ℤ) (systems : List System) (bins : List EntryBin) (bin : EntryBin) (e : Entry)
    (es : List Entry) (locked : Bool) (known : blocked systems e ≡ ok locked) where
  pub fill_bins-start :
      starts_bin bandwidth bin.entries e ≡ true
      → fill_bins bandwidth systems bins bin (e ∷ es)
        ≡ fill_bins bandwidth systems (bins ++ bin ∷ []) (push_entry empty_bin e locked) es
  unfolding fill_bins
  fill_bins-start starts = rw (known, fill_bins) (rw (starts, fill_bins))

  pub fill_bins-keep :
      starts_bin bandwidth bin.entries e ≡ false
      → fill_bins bandwidth systems bins bin (e ∷ es)
        ≡ fill_bins bandwidth systems bins (push_entry bin e locked) es
  unfolding fill_bins
  fill_bins-keep keeps = rw (known, fill_bins) (rw (keeps, fill_bins))

flat-snoc :
    (bins : List EntryBin) (bin : EntryBin) (es : List Entry)
    → flat (bins ++ bin ∷ []) ++ es ≡ flat bins ++ (bin.entries ++ es)
flat-snoc bins bin es =
    rw
      (flat-append bins (bin ∷ []), append-nil bin.entries, append_assoc (flat bins) bin.entries es)

pub fill_bins-Fills :
    (bandwidth : ℤ) (systems : List System) (bins : List EntryBin) (bin : EntryBin)
    (es : List Entry)
    → All (InRange systems) es
    → Ascending (bin.entries ++ es)
    → All (IsBin bandwidth systems) bins
    → IsFilling bandwidth systems bin
    → 0 < length bin.entries + length es
    → Fills bandwidth systems bins bin es
fill_bins-Fills bandwidth systems bins bin [] range sorted good filling some_left = (
  bins ++ bin ∷ [],
  unfold fill_bins in refl,
  rw (append-nil bin.entries, flat-append bins (bin ∷ []), append-nil bin.entries),
  All-append _ bins (bin ∷ []) good (record { filled = filling; occupied = omega arith }, tt),
)
fill_bins-Fills bandwidth systems bins bin (e ∷ es) range sorted good filling some_left =
    let (locked, known) = blocked-ok systems e range.0 in
    elim (Bool-cases (starts_bin bandwidth bin.entries e)) [
      | inl starts ↦
          let (out, ran, kept, all_good) =
            fill_bins-Fills bandwidth systems (bins ++ bin ∷ []) (push_entry empty_bin e locked) es
              range.1 (Ascending-suffix bin.entries (e ∷ es) sorted)
              (All-append _ bins (bin ∷ []) good (
                record {
                  filled = filling;
                  occupied = starts_bin-occupied bandwidth bin.entries e starts;
                },
                tt,
              ))
              (push-IsFilling bandwidth systems empty_bin e locked known tt
                (unfold count_blocked in refl))
              (omega arith) in
          (
            out,
            fill_bins-start bandwidth systems bins bin e es locked known starts ∙ ran,
            kept ∙ flat-snoc bins bin (e ∷ es),
            all_good,
          )
      | inr close ↦
          let (out, ran, kept, all_good) =
            fill_bins-Fills bandwidth systems bins (push_entry bin e locked) es range.1
              (rw (append_assoc bin.entries (e ∷ []) es) sorted) good
              (push-IsFilling bandwidth systems bin e locked known
                (Fits-push bandwidth bin.entries e es sorted close filling.fits) filling.counted)
              (omega (arith, push-occupied bin e locked)) in
          (
            out,
            fill_bins-keep bandwidth systems bins bin e es locked known close ∙ ran,
            kept ∙ ap (λ l. flat bins ++ l) (append_assoc bin.entries (e ∷ []) es),
            all_good,
          )
    ]
