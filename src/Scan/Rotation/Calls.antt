-- ===== src/Scan/Rotation/Calls.antt =====
-- The calls of `getNextEntry` with enough fuel: more fuel changes nothing, and the calls come by every
-- entry that is not locked out.
use mathlib.Core.Path.{subst}
use pi_scan.Base.{
  ℕ, zero, suc, ◌+◌, ◌*◌, ◌≤◌, ◌≡◌, refl, sym, ◌∙◌, ap, ℤ, List, [], ◌∷◌, ◌++◌, some, arith, true,
  false, Bool, ok, undefined, out_of_fuel, Outcome, ok-injective, ◌>>=◌, if◌then◌else◌, get_elem?,
  length,
}
use pi_scan.Scan.Entry.{Entry}
use pi_scan.Scan.Bins.{EntryBin, SystemList, blocked}
use pi_scan.Scan.Bins.Filling.{flat}
use pi_scan.Scan.Rotation.{visit, get_next_entry}
use pi_scan.Scan.Rotation.Steps.{IsWalking, same_fuel}
use pi_scan.Scan.Rotation.Reaching.{Reaches, now, then_}
use pi_scan.Scan.Rotation.Finding.{get_next_entry-returns}
use pi_scan.Scan.Rotation.Fairness.{Stands, Stands-kept, walk_comes_by}

abbrev Calls : Type 0
Calls = SystemList → Outcome (Entry × SystemList)

-- What a round of the loop goes on with, given whether its entry is locked out.
abbrev go_on : Calls → Entry × SystemList → Outcome Bool → Outcome (Entry × SystemList)
go_on rest r locked = do skip ← locked; let more = rest r.1; if skip then more else ok r

go_on-more :
    (f g : Calls) (r out : Entry × SystemList) (locked : Outcome Bool)
    → ((l : SystemList) → f l ≡ ok out → g l ≡ ok out)
    → go_on f r locked ≡ ok out
    → go_on g r locked ≡ ok out
go_on-more f g r out (ok true) h e = h r.1 e
go_on-more f g r out (ok false) h e = e
go_on-more f g r out undefined h e = e
go_on-more f g r out out_of_fuel h e = e

visited-more :
    (f g : Calls) (o : Outcome (Entry × SystemList)) (out : Entry × SystemList)
    → ((l : SystemList) → f l ≡ ok out → g l ≡ ok out)
    → o >>= (λ r. go_on f r (blocked r.1.systems r.0)) ≡ ok out
    → o >>= (λ r. go_on g r (blocked r.1.systems r.0)) ≡ ok out
visited-more f g (ok r) out h e = go_on-more f g r out (blocked r.1.systems r.0) h e
visited-more f g undefined out h e = e
visited-more f g out_of_fuel out h e = e

-- A call that returns does so with more fuel too.
get_next_entry-more :
    (fuel k : ℕ) (l : SystemList) (out : Entry × SystemList)
    → get_next_entry fuel l ≡ ok out
    → get_next_entry (fuel + k) l ≡ ok out
unfolding get_next_entry
get_next_entry-more zero k l out e = absurd (cc)
get_next_entry-more (suc fuel) k l out e =
    same_fuel l (suc fuel + k) (suc (fuel + k)) (omega arith)
    ∙ visited-more (get_next_entry fuel) (get_next_entry (fuel + k)) (visit l) out
        (λ l' e'. get_next_entry-more fuel k l' out e') e

-- What a call with enough fuel comes to.
pub record Called (bandwidth : ℤ) (fuel : ℕ) (l : SystemList) (x : Entry) (l' : SystemList)
    : Type 0 where
  pub ran : get_next_entry fuel l ≡ ok (x, l')
  pub walking : IsWalking bandwidth l'
  pub same_bins : l'.bins ≡ l.bins
  pub same_systems : l'.systems ≡ l.systems

-- A call that returns with some fuel returns the same with enough.
pub get_next_entry-Called :
    (bandwidth : ℤ) (fuel rounds : ℕ) (l : SystemList) (i k : ℕ) (e x : Entry) (l' : SystemList)
    → IsWalking bandwidth l
    → Stands bandwidth e i k l
    → 2 * length (flat l.bins) + 1 ≤ fuel
    → get_next_entry (rounds + fuel) l ≡ ok (x, l')
    → Called bandwidth fuel l x l'
get_next_entry-Called bandwidth fuel rounds l i k e x l' w s enough goes =
    let (y, u, ran, open_, offered, walking, same_bins, same_systems) =
      get_next_entry-returns bandwidth fuel l i k s.bin e w s.found s.at s.free enough in
    let more = get_next_entry-more fuel rounds l (y, u) ran in
    let same : (y, u) ≡ (x, l') =
      ok-injective (sym more ∙ same_fuel l (fuel + rounds) (rounds + fuel) (omega arith) ∙ goes) in
    let after : u ≡ l' = ap (λ r. r.1) same in
    record {
      ran = ran ∙ ap ok same;
      walking = subst (IsWalking bandwidth) after walking;
      same_bins = ap (λ t. t.bins) (sym after) ∙ same_bins;
      same_systems = ap (λ t. t.systems) (sym after) ∙ same_systems;
    }

-- The entries that the next `n` calls return.
unfoldable pub next_entries : ℕ → ℕ → SystemList → Outcome (List Entry × SystemList)
next_entries fuel zero l = ok ([], l)
next_entries fuel (suc n) l = do
  (x, l') ← get_next_entry fuel l
  (more, t) ← next_entries fuel n l'
  ok (x ∷ more, t)

next_entries-Reaches :
    (bandwidth : ℤ) (fuel i k : ℕ) (e : Entry) (l : SystemList)
    → IsWalking bandwidth l
    → Stands bandwidth e i k l
    → 2 * length (flat l.bins) + 1 ≤ fuel
    → Reaches e l
    → (n : ℕ) × (before : List Entry) × (l' : SystemList) × (next_entries fuel n l
        ≡ ok (before ++ e ∷ [], l'))
unfolding next_entries
next_entries-Reaches bandwidth fuel i k e l w s enough (now rounds l' goes) =
    let c = get_next_entry-Called bandwidth fuel rounds l i k e e l' w s enough (goes fuel) in
    (1, [], l', rw (c.ran) refl)
next_entries-Reaches bandwidth fuel i k e l w s enough (then_ rounds x l' goes rest) =
    let c = get_next_entry-Called bandwidth fuel rounds l i k e x l' w s enough (goes fuel) in
    let (n, before, t, ran) =
      next_entries-Reaches bandwidth fuel i k e l' c.walking
        (Stands-kept bandwidth e i k l l' c.same_bins c.same_systems s)
        (subst (λ bins. 2 * length (flat bins) + 1 ≤ fuel) (sym c.same_bins) enough) rest in
    (suc n, x ∷ before, t, rw (c.ran, ran) refl)

-- The walk stands in bins as `sortBins` leaves them, an entry of one of them is not locked out, and
-- the fuel of a call is for twice the number of entries, and one round more: some number of calls of
-- `getNextEntry` return, and the last one returns that entry.
pub next_entries_comes_by :
    (bandwidth : ℤ) (fuel : ℕ) (l : SystemList) (i k : ℕ) (b : EntryBin) (e : Entry)
    → IsWalking bandwidth l
    → get_elem? l.bins i ≡ some b
    → get_elem? b.entries k ≡ some e
    → blocked l.systems e ≡ ok false
    → 2 * length (flat l.bins) + 1 ≤ fuel
    → (n : ℕ) × (before : List Entry) × (l' : SystemList) × (next_entries fuel n l
        ≡ ok (before ++ e ∷ [], l'))
next_entries_comes_by bandwidth fuel l i k b e w found at_ free enough =
    let s : Stands bandwidth e i k l = record { bin = b; found = found; at = at_; free = free } in
    next_entries-Reaches bandwidth fuel i k e l w s enough (walk_comes_by bandwidth e l i k w s)
