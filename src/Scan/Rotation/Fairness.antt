-- ===== src/Scan/Rotation/Fairness.antt =====
-- The walk comes by every entry that is not locked out.
use pi_scan.Base.{
  ℕ, zero, suc, ◌+◌, ◌-◌, ◌%◌, ◌<◌, ◌≤◌, ◌≡◌, refl, sym, ◌∙◌, ap, ℤ, some, arith, true, false,
  Bool-cases, ◌&&◌, ◌==◌, inl, inr, ok, get_elem?, length, All-get_elem?,
}
use pi_scan.Scan.Entry.{Entry, dummy_channel}
use pi_scan.Scan.Bins.{EntryBin, SystemList, entries_locked_out, blocked}
use pi_scan.Scan.Bins.Filling.{blocked-ok}
use pi_scan.Scan.Bins.Cover.{IsBlocked, entries_locked_out_iff}
use pi_scan.Scan.Rotation.{skip_locked}
use pi_scan.Scan.Rotation.Skipping.{get_elem?-lt}
use pi_scan.Scan.Rotation.Steps.{IsUsable, IsWalking, next_bin, next_bin-IsWalking}
use pi_scan.Scan.Rotation.Reaching.{Reaches, passes, walk_out, walk_to}
use pi_scan.Scan.Rotation.Finding.{retune_entry-visit, systems-occupied}
use pi_scan.Scan.Rotation.Ahead.{ahead, ahead_reaches, skip_locked-near, next-lt}

module _ (bandwidth : ℤ) (e : Entry) where
  -- Where the entry stands: the `k`th one of bin `i`.
  pub record Stands (i k : ℕ) (l : SystemList) : Type 0 where
    pub bin : EntryBin
    pub found : get_elem? l.bins i ≡ some bin
    pub at : get_elem? bin.entries k ≡ some e
    pub free : blocked l.systems e ≡ ok false

  bin_opens :
      (i k : ℕ) (l : SystemList)
      → IsWalking bandwidth l
      → (s : Stands i k l) → entries_locked_out s.bin ≡ false
  bin_opens i k l w s =
      let usable = All-get_elem? (IsUsable bandwidth l.systems) l.bins _ w.usable s.found in
      elim (Bool-cases (entries_locked_out s.bin)) [
        | inl locked ↦
            let all_locked =
              (entries_locked_out_iff bandwidth l.systems s.bin usable.filled).0 locked in
            let blocked_ = All-get_elem? (IsBlocked l.systems) s.bin.entries k all_locked s.at in
            let free = s.free in absurd (cc)
        | inr open_ ↦ open_
      ]

  abbrev moved : SystemList → ℕ → SystemList
  moved l index = record l { bin_num = index; retune = false }

  stays_next : (i k : ℕ) (l : SystemList) → Stands i k l → Stands i k (next_bin l)
  stays_next i k l s = record { bin = s.bin; found = s.found; at = s.at; free = s.free }

  stays :
      (i k : ℕ) (l : SystemList) (index : ℕ) → Stands i k l → Stands i k (next_bin (moved l index))
  stays i k l index s = record { bin = s.bin; found = s.found; at = s.at; free = s.free }

  -- From the first entry of a bin, `d` bins before the entry's.
  walk_from :
      (i k index d : ℕ) (l : SystemList) (w : IsWalking bandwidth (moved l index))
      → Stands i k l
      → l.entry_num ≡ 0
      → ahead (length l.bins) d index ≡ i
      → ((d' : ℕ) → d ≡ suc d' → Reaches e (next_bin (moved l index)))
      → Reaches e (moved l index)
  walk_from i k index zero l w s first here rest =
      let same : w.bin ≡ s.bin = cc (w.here, s.found) in
      walk_to bandwidth e k k (moved l index) w (omega arith)
        (ap (λ b. get_elem? b.entries k) same ∙ s.at) (ground arith) s.free
  walk_from i k index (suc d) l w s first here rest =
      walk_out bandwidth e (length w.bin.entries - 1) (moved l index) w (omega (arith, w.inside))
        (ground arith) (rest d refl)

  -- The retuning, and the walk from the bin that it moves to.
  retunes :
      (i k index d : ℕ) (l : SystemList)
      → IsWalking bandwidth l
      → Stands i k l
      → ((l.entry_num == 0) && l.retune) ≡ true
      → (c : EntryBin) → skip_locked (length l.bins) l.bins l.bin_num ≡ ok index
      → get_elem? l.bins index ≡ some c
      → ahead (length l.bins) d index ≡ i
      → ((d' : ℕ)
          → d ≡ suc d'
          → IsWalking bandwidth (moved l index)
          → Reaches e (next_bin (moved l index)))
      → Reaches e l
  retunes i k index d l w s due c ends there still rest =
      let usable = All-get_elem? (IsUsable bandwidth l.systems) l.bins _ w.usable there in
      let first : l.entry_num ≡ 0 = ground arith in
      let w' : IsWalking bandwidth (moved l index) = record {
        bin = c;
        here = there;
        inside = omega (arith, usable.filled.occupied);
        usable = w.usable;
      } in
      let (freq, ran) = retune_entry-visit bandwidth l index c w due ends there in
      let (locked, known) =
        blocked-ok l.systems (dummy_channel freq)
          (unfold dummy_channel in systems-occupied bandwidth l w) in
      passes e (dummy_channel freq) l (moved l index) locked ran known
        (walk_from i k index d l w' s first still (λ d' more. rest d' more w'))

  -- From a walk that is due to retune, the entry's bin standing `d` bins ahead.
  walk_due :
      (near i k d : ℕ) (l : SystemList)
      → IsWalking bandwidth l
      → Stands i k l
      → ((l.entry_num == 0) && l.retune) ≡ true
      → d ≤ near
      → d < length l.bins
      → ahead (length l.bins) d l.bin_num ≡ i
      → Reaches e l
  walk_due zero i k d l w s due le lt here =
      let (index, d', c, ends, there, no_further, still) =
        skip_locked-near (length l.bins) l.bins l.bin_num d i s.bin
          (get_elem?-lt l.bins l.bin_num w.here) lt here s.found (bin_opens i k l w s) in
      retunes i k index d' l w s due c ends there still (λ d'' more w'. absurd (omega arith))
  walk_due (suc near) i k d l w s due le lt here =
      let (index, d', c, ends, there, no_further, still) =
        skip_locked-near (length l.bins) l.bins l.bin_num d i s.bin
          (get_elem?-lt l.bins l.bin_num w.here) lt here s.found (bin_opens i k l w s) in
      retunes i k index d' l w s due c ends there still (λ d'' more w'.
        walk_due near i k d'' (next_bin (moved l index))
          (next_bin-IsWalking bandwidth (moved l index) w') (stays i k l index s) refl (omega arith)
          (omega arith) (ap (λ z. ahead (length l.bins) z index) (sym more) ∙ still))

  -- A walk over bins that hold an entry that is not locked out returns it, after some number of calls.
  pub walk_comes_by :
      (l : SystemList) (i k : ℕ) → IsWalking bandwidth l → Stands i k l → Reaches e l
  walk_comes_by l i k w s =
      let n = length l.bins in
      let inside = get_elem?-lt l.bins l.bin_num w.here in
      let below = get_elem?-lt l.bins i s.found in
      elim (Bool-cases ((l.entry_num == 0) && l.retune)) [
        | inl due ↦
            let (d, lt, here) = ahead_reaches n l.bin_num i inside below in
            walk_due d i k d l w s due (omega arith) lt here
        | inr plain ↦
            let (d, lt, here) =
              ahead_reaches n ((l.bin_num + 1) % n) i (next-lt l.bin_num n inside) below in
            walk_out bandwidth e (length w.bin.entries - l.entry_num - 1) l w
              (omega (arith, w.inside)) plain
              (walk_due d i k d (next_bin l) (next_bin-IsWalking bandwidth l w) (stays_next i k l s)
                refl (omega arith) lt here)
      ]

pub Stands-kept :
    (bandwidth : ℤ) (e : Entry) (i k : ℕ) (l l' : SystemList)
    → l'.bins ≡ l.bins
    → l'.systems ≡ l.systems
    → Stands bandwidth e i k l
    → Stands bandwidth e i k l'
Stands-kept bandwidth e i k l l' same_bins same s = record {
  bin = s.bin;
  found = ap (λ bins. get_elem? bins i) same_bins ∙ s.found;
  at = s.at;
  free = ap (λ systems. blocked systems e) same ∙ s.free;
}
