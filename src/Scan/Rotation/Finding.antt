-- ===== src/Scan/Rotation/Finding.antt =====
-- `getNextEntry` returns: the loop ends at an entry that is not locked out.
use mathlib.Core.Path.{subst}
use pi_scan.Base.{
  ℕ, zero, suc, ◌+◌, ◌*◌, ◌<◌, ◌≤◌, ◌≡◌, refl, ◌∙◌, ap, ℤ, List, [], ◌∷◌, some, arith, true, false,
  Bool, Bool-cases, ◌&&◌, ◌==◌, ◌-◌, inl, inr, ok, get_elem?, get_elem?-some, length, length-append,
  All, All-get_elem?, drop,
}
use pi_scan.Scan.Entry.{Entry, dummy_channel, is_dummy}
use pi_scan.Scan.Bins.{EntryBin, SystemList, entries_locked_out, blocked}
use pi_scan.Scan.Bins.Filling.{InRange, blocked-ok, flat}
use pi_scan.Scan.Bins.Sorted.{center-ok}
use pi_scan.Scan.Bins.Cover.{IsBlocked, entries_locked_out_iff}
use pi_scan.Scan.Rotation.{visit, retune_entry, get_next_entry, skip_locked}
use pi_scan.Scan.Rotation.Skipping.{skip_locked-Skips, get_elem?-lt}
use pi_scan.Scan.Rotation.Steps.{
  IsUsable, IsWalking, IsOffered, Finds, round_skips, next_bin, next_bin-IsWalking, found_here,
  later,
}
use pi_scan.Scan.Rotation.Walk.{walk_bin}

-- The first branch of the loop's body: the walk moves to an open bin and offers a dummy channel.
record Retunes (l : SystemList) : Type 0 where
  index : ℕ
  open_bin : EntryBin
  freq : ℤ
  ran : visit l ≡ ok (dummy_channel freq, record l { bin_num = index; retune = false })
  found : get_elem? l.bins index ≡ some open_bin
  open_ : entries_locked_out open_bin ≡ false

-- The visit that is due to retune, given where the loop over the locked bins ends.
pub retune_entry-visit :
    (bandwidth : ℤ) (l : SystemList) (index : ℕ) (b : EntryBin)
    → IsWalking bandwidth l
    → ((l.entry_num == 0) && l.retune) ≡ true
    → skip_locked (length l.bins) l.bins l.bin_num ≡ ok index
    → get_elem? l.bins index ≡ some b
    → (freq : ℤ) × (visit l ≡ ok (dummy_channel freq, record l { bin_num = index; retune = false }))
retune_entry-visit bandwidth l index b w due ends found =
    let usable = All-get_elem? (IsUsable bandwidth l.systems) l.bins _ w.usable found in
    let (freq, center) = center-ok b b.entries refl usable.filled.occupied in
    (freq, unfold visit in rw due (unfold retune_entry in rw ends (rw found (rw center refl))))

retune_entry-Retunes :
    (bandwidth : ℤ) (l : SystemList) (t : ℕ) (b : EntryBin)
    → IsWalking bandwidth l
    → ((l.entry_num == 0) && l.retune) ≡ true
    → get_elem? l.bins t ≡ some b
    → entries_locked_out b ≡ false
    → Retunes l
retune_entry-Retunes bandwidth l t b w due found open_ =
    let s =
      skip_locked-Skips l.bins l.bin_num t b (get_elem?-lt l.bins l.bin_num w.here) found open_ in
    let (freq, ran) = retune_entry-visit bandwidth l s.index s.bin w due s.ends s.found in
    record {
      index = s.index;
      open_bin = s.bin;
      freq = freq;
      ran = ran;
      found = s.found;
      open_ = s.open_;
    }

weaken :
    (bandwidth : ℤ) (m n : ℕ) (l : SystemList) → m ≤ n → Finds bandwidth m l → Finds bandwidth n l
weaken bandwidth m n l le f = record {
  rounds = f.rounds;
  soon = omega (arith, f.soon);
  entry = f.entry;
  after = f.after;
  found = f.found;
  open_ = f.open_;
  offered = f.offered;
  walking = f.walking;
  bins_kept = f.bins_kept;
  systems_kept = f.systems_kept;
}

later_by :
    (bandwidth : ℤ) (k bound : ℕ) (l : SystemList)
    → ((fuel : ℕ) → get_next_entry (k + fuel) l ≡ get_next_entry fuel (next_bin l))
    → Finds bandwidth bound (next_bin l)
    → Finds bandwidth (k + bound) l
later_by bandwidth k bound l goes f = record {
  rounds = k + f.rounds;
  soon = omega (arith, f.soon);
  entry = f.entry;
  after = f.after;
  found =
      λ fuel. ap (λ n. get_next_entry n l) (omega arith) ∙ (goes (f.rounds + fuel) ∙ f.found fuel);
  open_ = f.open_;
  offered = f.offered;
  walking = f.walking;
  bins_kept = f.bins_kept;
  systems_kept = f.systems_kept;
}

-- An open bin offers one of its entries.
walk_open :
    (bandwidth : ℤ) (left : ℕ) (l : SystemList) (w : IsWalking bandwidth l)
    → l.entry_num ≡ 0
    → l.retune ≡ false
    → entries_locked_out w.bin ≡ false
    → length w.bin.entries ≡ suc left
    → Finds bandwidth (suc left) l
walk_open bandwidth left l w start tuned open_ size =
    elim (walk_bin bandwidth left l w (omega arith) (ground arith)) [
      | inl f ↦ f
      | inr (locked, on) ↦
          let usable = All-get_elem? (IsUsable bandwidth l.systems) l.bins _ w.usable w.here in
          let all_locked : entries_locked_out w.bin ≡ true =
            (entries_locked_out_iff bandwidth l.systems w.bin usable.filled).1
              (subst (λ n. All (IsBlocked l.systems) (drop n w.bin.entries)) start locked) in
          absurd (cc)
    ]

length-flat :
    (bins : List EntryBin) (i : ℕ) (b : EntryBin)
    → get_elem? bins i ≡ some b
    → length b.entries ≤ length (flat bins)
length-flat [] i b h = absurd (cc)
length-flat (c ∷ bins) zero b h = ground (arith, length-append c.entries (flat bins))
length-flat (c ∷ bins) (suc i) b h =
    omega (arith, length-append c.entries (flat bins), length-flat bins i b h)

pub systems-occupied :
    (bandwidth : ℤ) (l : SystemList) → IsWalking bandwidth l → 0 < length l.systems
systems-occupied bandwidth l w =
    let (e, at_) = get_elem?-some w.bin.entries l.entry_num w.inside in
    let usable = All-get_elem? (IsUsable bandwidth l.systems) l.bins _ w.usable w.here in
    let range = All-get_elem? (InRange l.systems) w.bin.entries _ usable.range at_ in omega arith

-- A walk that is due to retune offers the dummy channel, or an entry of the bin that it moves to.
walk_retuned :
    (bandwidth : ℤ) (l : SystemList) (t : ℕ) (b : EntryBin)
    → IsWalking bandwidth l
    → ((l.entry_num == 0) && l.retune) ≡ true
    → get_elem? l.bins t ≡ some b
    → entries_locked_out b ≡ false
    → Finds bandwidth (suc (length (flat l.bins))) l
walk_retuned bandwidth l t b w due found open_ =
    let r = retune_entry-Retunes bandwidth l t b w due found open_ in
    let usable = All-get_elem? (IsUsable bandwidth l.systems) l.bins _ w.usable r.found in
    let start : l.entry_num ≡ 0 = ground arith in
    let (locked, known) =
      blocked-ok l.systems (dummy_channel r.freq)
        (unfold dummy_channel in systems-occupied bandwidth l w) in
    offer r locked known
      record {
        bin = r.open_bin;
        here = r.found;
        inside = omega (arith, usable.filled.occupied);
        usable = w.usable;
      }
      start
  where
    from_open :
        (r : Retunes l) (w' : IsWalking bandwidth (record l { bin_num = r.index; retune = false }))
        → l.entry_num ≡ 0
        → Finds bandwidth (length (flat l.bins)) (record l { bin_num = r.index; retune = false })
    from_open r w' start =
        let still_open : entries_locked_out w'.bin ≡ false = cc in
        let size : length w'.bin.entries ≡ suc (length w'.bin.entries - 1) =
          omega (arith, w'.inside) in
        weaken bandwidth (suc (length w'.bin.entries - 1)) (length (flat l.bins)) _
          (omega (arith, length-flat l.bins r.index w'.bin w'.here, size))
          (walk_open bandwidth (length w'.bin.entries - 1) _ w' start refl still_open size)

    offer :
        (r : Retunes l) (locked : Bool)
        → blocked l.systems (dummy_channel r.freq) ≡ ok locked
        → IsWalking bandwidth (record l { bin_num = r.index; retune = false })
        → l.entry_num ≡ 0
        → Finds bandwidth (suc (length (flat l.bins))) l
    offer r false known w' start =
        found_here bandwidth (length (flat l.bins)) l _ r.open_bin (dummy_channel r.freq) r.ran
          known (inl (unfold is_dummy dummy_channel in refl)) w' refl refl
    offer r true known w' start =
        later bandwidth (length (flat l.bins)) l _
          (λ fuel. round_skips fuel l _ (dummy_channel r.freq) r.ran known) refl refl
          (from_open r w' start)

-- The walk goes through the rest of its bin, and on from the next one if nothing is found.
walk_on :
    (bandwidth : ℤ) (l : SystemList) (t : ℕ) (b : EntryBin)
    → IsWalking bandwidth l
    → get_elem? l.bins t ≡ some b
    → entries_locked_out b ≡ false
    → Finds bandwidth (2 * length (flat l.bins) + 1) l
walk_on bandwidth l t b w found open_ = elim (Bool-cases ((l.entry_num == 0) && l.retune)) [
  | inl due ↦
      weaken bandwidth (suc (length (flat l.bins))) _ l (omega arith)
        (walk_retuned bandwidth l t b w due found open_)
  | inr plain ↦
      let left = length w.bin.entries - 1 - l.entry_num in
      let small : suc left ≤ length (flat l.bins) =
        omega (arith, length-flat l.bins l.bin_num w.bin w.here, w.inside) in
      elim (walk_bin bandwidth left l w (omega (arith, w.inside)) plain) [
        | inl f ↦ weaken bandwidth (suc left) _ l (omega (arith, small)) f
        | inr (locked, on) ↦
            weaken bandwidth (suc left + suc (length (flat l.bins))) _ l (omega (arith, small)) (
              later_by bandwidth (suc left) (suc (length (flat l.bins))) l on (
                walk_retuned bandwidth (next_bin l) t b (next_bin-IsWalking bandwidth l w) refl
                  found open_))
      ]
]

-- Over bins that `sortBins` filled, where the walk stands at an entry and a bin holds an entry
-- that is not locked out: with fuel for twice the number of entries, and one round more, the loop
-- returns. What it returns is not locked out, neither by itself nor by its system, and is a dummy
-- channel or an entry of a bin; and the walk stands at an entry of a bin again, over the same
-- systems and bins.
pub get_next_entry-returns :
    (bandwidth : ℤ) (fuel : ℕ) (l : SystemList) (t k : ℕ) (b : EntryBin) (e : Entry)
    → IsWalking bandwidth l
    → get_elem? l.bins t ≡ some b
    → get_elem? b.entries k ≡ some e
    → blocked l.systems e ≡ ok false
    → 2 * length (flat l.bins) + 1 ≤ fuel
    → (e' : Entry) × (l' : SystemList) × (get_next_entry fuel l ≡ ok (e', l'))
      × (blocked l.systems e' ≡ ok false)
      × IsOffered l e'
      × IsWalking bandwidth l'
      × (l'.bins ≡ l.bins)
      × (l'.systems ≡ l.systems)
get_next_entry-returns bandwidth fuel l t k b e w found at_ free enough =
    elim (Bool-cases (entries_locked_out b)) [
      | inl locked ↦
          let usable = All-get_elem? (IsUsable bandwidth l.systems) l.bins _ w.usable found in
          let all_locked = (entries_locked_out_iff bandwidth l.systems b usable.filled).0 locked in
          let here = All-get_elem? (IsBlocked l.systems) b.entries k all_locked at_ in absurd (cc)
      | inr open_ ↦
          let f = walk_on bandwidth l t b w found open_ in
          (
            f.entry,
            f.after,
            ap (λ n. get_next_entry n l) (omega (arith, f.soon)) ∙ f.found (fuel - f.rounds),
            f.open_,
            f.offered,
            f.walking,
            f.bins_kept,
            f.systems_kept,
          )
    ]
