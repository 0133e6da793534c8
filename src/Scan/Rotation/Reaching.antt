-- ===== src/Scan/Rotation/Reaching.antt =====
-- How the calls of `getNextEntry` come to an entry: past others, and within a bin.
use pi_scan.Base.{
  ℕ, zero, suc, ◌+◌, ◌<◌, ◌≡◌, ◌∙◌, ap, ℤ, some, arith, true, false, Bool, ◌&&◌, ◌==◌, ok,
  get_elem?, length,
}
use pi_scan.Scan.Entry.{Entry}
use pi_scan.Scan.Bins.{SystemList, blocked}
use pi_scan.Scan.Rotation.{advance, visit, get_next_entry}
use pi_scan.Scan.Rotation.Skipping.{get_elem?-lt}
use pi_scan.Scan.Rotation.Steps.{
  IsWalking, round_found, round_skips, next_bin, same_fuel, advance-within, advance-last,
}
use pi_scan.Scan.Rotation.Walk.{visit-bin, entry_here, next_entry}

-- The next calls of `getNextEntry` return an entry, each with any fuel from some number of rounds on.
pub data Reaches (e : Entry) : SystemList → Type 0 where
  now :
      {l : SystemList} (rounds : ℕ) (l' : SystemList)
      → ((fuel : ℕ) → get_next_entry (rounds + fuel) l ≡ ok (e, l'))
      → Reaches e l
  then_ :
      {l : SystemList} (rounds : ℕ) (x : Entry) (l' : SystemList)
      → ((fuel : ℕ) → get_next_entry (rounds + fuel) l ≡ ok (x, l'))
      → Reaches e l'
      → Reaches e l

-- A round that goes past an entry that is locked out belongs to the call of the rounds behind it.
skips :
    (e x : Entry) (l l' : SystemList)
    → visit l ≡ ok (x, l')
    → blocked l'.systems x ≡ ok true
    → Reaches e l'
    → Reaches e l
skips e x l l' ran locked (now rounds l'' goes) = now (suc rounds) l'' (λ fuel.
    same_fuel l (suc rounds + fuel) (suc (rounds + fuel)) (omega arith)
    ∙ round_skips (rounds + fuel) l l' x ran locked
    ∙ goes fuel)
skips e x l l' ran locked (then_ rounds y l'' goes rest) =
    then_ (suc rounds) y l''
      (λ fuel.
        same_fuel l (suc rounds + fuel) (suc (rounds + fuel)) (omega arith)
        ∙ round_skips (rounds + fuel) l l' x ran locked
        ∙ goes fuel)
      rest

one_round :
    (x : Entry) (l l' : SystemList)
    → visit l ≡ ok (x, l')
    → blocked l'.systems x ≡ ok false
    → (fuel : ℕ) → get_next_entry (1 + fuel) l ≡ ok (x, l')
one_round x l l' ran free fuel =
    same_fuel l (1 + fuel) (suc fuel) (omega arith) ∙ round_found fuel l l' x ran free

pub passes :
    (e x : Entry) (l l' : SystemList) (locked : Bool)
    → visit l ≡ ok (x, l')
    → blocked l'.systems x ≡ ok locked
    → Reaches e l'
    → Reaches e l
passes e x l l' true ran known rest = skips e x l l' ran known rest
passes e x l l' false ran known rest = then_ 1 x l' (one_round x l l' ran known) rest

advance-systems : (l : SystemList) (size : ℕ) → (advance l size).systems ≡ l.systems
advance-systems l size = ground arith

module _ (bandwidth : ℤ) (e : Entry) where
  -- From an entry of its bin the walk comes to the end of it, and to the next bin.
  pub walk_out :
      (left : ℕ) (l : SystemList) (w : IsWalking bandwidth l)
      → l.entry_num + suc left ≡ length w.bin.entries
      → ((l.entry_num == 0) && l.retune) ≡ false
      → Reaches e (next_bin l)
      → Reaches e l
  walk_out zero l w to_end plain rest =
      let (x, locked, at_, ran, known) = entry_here bandwidth l w plain in
      passes e x l (next_bin l) locked
        (ran ∙ ap (λ t. ok (x, t)) (advance-last l (length w.bin.entries) (omega arith))) known rest
  walk_out (suc left) l w to_end plain rest =
      let (x, locked, at_, ran, known) = entry_here bandwidth l w plain in
      let w' : IsWalking bandwidth (next_entry l) = record {
        bin = w.bin;
        here = w.here;
        inside = omega arith;
        usable = w.usable;
      } in
      passes e x l (next_entry l) locked
        (ran ∙ ap (λ t. ok (x, t)) (advance-within l (length w.bin.entries) (omega arith))) known
        (walk_out left (next_entry l) w' (omega arith) (ground arith) rest)

  -- The walk within the bin of the entry.
  pub walk_to :
      (gap k : ℕ) (l : SystemList) (w : IsWalking bandwidth l)
      → l.entry_num + gap ≡ k
      → get_elem? w.bin.entries k ≡ some e
      → ((l.entry_num == 0) && l.retune) ≡ false
      → blocked l.systems e ≡ ok false
      → Reaches e l
  walk_to zero k l w here at_ plain free =
      let same : l.entry_num ≡ k = omega arith in
      let ran = visit-bin l w.bin e plain w.here (ap (get_elem? w.bin.entries) same ∙ at_) in
      let l' = advance l (length w.bin.entries) in
      now 1 l' (
        one_round e l l' ran
          (ap (λ s. blocked s e) (advance-systems l (length w.bin.entries)) ∙ free))
  walk_to (suc gap) k l w here at_ plain free =
      let (x, locked, at_x, ran, known) = entry_here bandwidth l w plain in
      let more : l.entry_num + 1 < length w.bin.entries =
        omega (arith, here, get_elem?-lt w.bin.entries k at_) in
      let w' : IsWalking bandwidth (next_entry l) = record {
        bin = w.bin;
        here = w.here;
        inside = more;
        usable = w.usable;
      } in
      passes e x l (next_entry l) locked
        (ran ∙ ap (λ t. ok (x, t)) (advance-within l (length w.bin.entries) more)) known
        (walk_to gap k (next_entry l) w' (omega arith) at_ (ground arith) free)
