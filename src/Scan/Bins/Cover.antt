-- ===== src/Scan/Bins/Cover.antt =====
-- The centre that a bin is tuned to, and the test of a bin that is locked out.
use mathlib.Core.Path.{subst}
use pi_scan.Base.{
  ℕ, pos, ◌+◌, ◌<◌, ◌*◌, ◌≤◌, ◌≡◌, refl, ℤ, ◌+ℤ◌, ◌-ℤ◌, ◌≤ℤ◌, ◌<ℤ◌, half, abs, pos_part, half_parts,
  +ℤ_parts, -ℤ_parts, parts_apart, List, [], ◌∷◌, ok, arith, length, All, true,
}
use pi_scan.Scan.Entry.{Entry}
use pi_scan.Scan.System.{System}
use pi_scan.Scan.Sorting.Merge.{Ascending}
use pi_scan.Scan.Bins.{EntryBin, last, get_center_freq, entries_locked_out, blocked}
use pi_scan.Scan.Bins.Filling.{Fits, IsBin, count_blocked}

-- How far the last frequency of a bin lies above the first.
abbrev pub span : List Entry → ℕ
span [] = 0
span (x ∷ xs) = pos_part ((last x xs).frequency -ℤ x.frequency)

-- A frequency between two others is within half of their distance, rounded up, of their middle.
near_middle : (a e b : ℤ) → a ≤ℤ e → e ≤ℤ b → 2 * abs (e -ℤ half (b +ℤ a)) ≤ pos_part (b -ℤ a) + 1
unfolding abs
near_middle a e b above below = omega (
  arith,
  half_parts (b +ℤ a),
  +ℤ_parts b a,
  -ℤ_parts b a,
  -ℤ_parts e (half (b +ℤ a)),
  parts_apart a,
  parts_apart b,
  parts_apart e,
  parts_apart (b +ℤ a),
  parts_apart (b -ℤ a),
  parts_apart (e -ℤ half (b +ℤ a)),
)

-- Two frequencies that lie less than a bandwidth apart.
apart-lt :
    (a b bandwidth : ℤ)
    → a ≤ℤ b
    → b <ℤ (a +ℤ bandwidth)
    → pos_part (b -ℤ a) + 1 ≤ pos_part bandwidth
apart-lt a b bandwidth order narrow = omega (
  arith,
  +ℤ_parts a bandwidth,
  -ℤ_parts b a,
  parts_apart a,
  parts_apart b,
  parts_apart bandwidth,
  parts_apart (b -ℤ a),
)

near_self : (a : ℤ) → 2 * abs (a -ℤ a) ≤ pos_part (a -ℤ a) + 1
unfolding abs
near_self a = omega (arith, -ℤ_parts a a, parts_apart (a -ℤ a))

last-above :
    (x : Entry) (xs : List Entry) → Ascending (x ∷ xs) → x.frequency ≤ℤ (last x xs).frequency
last-above x [] h = omega arith
last-above x (y ∷ ys) h = omega (arith, last-above y ys h.1, h.0.0)

All-below_last :
    (x : Entry) (xs : List Entry)
    → Ascending (x ∷ xs)
    → All (λ e. e.frequency ≤ℤ (last x xs).frequency) xs
All-below_last x [] h = tt
All-below_last x (y ∷ ys) h = (last-above y ys h.1, All-below_last y ys h.1)

last-Fits :
    (bandwidth : ℤ) (x y : Entry) (ys : List Entry)
    → Fits bandwidth (x ∷ y ∷ ys)
    → (last y ys).frequency <ℤ (x.frequency +ℤ bandwidth)
last-Fits bandwidth x y [] h = h.0.1
last-Fits bandwidth x y (z ∷ zs) h = last-Fits bandwidth x z zs h.1

-- All of a list is near the middle of two bounds.
All-near :
    (a b : ℤ) (es : List Entry)
    → All (λ e. a ≤ℤ e.frequency) es
    → All (λ e. e.frequency ≤ℤ b) es
    → All (λ e. 2 * abs (e.frequency -ℤ half (b +ℤ a)) ≤ pos_part (b -ℤ a) + 1) es
All-near a b [] above below = tt
All-near a b (e ∷ es) above below =
    (near_middle a e.frequency b above.0 below.0, All-near a b es above.1 below.1)

center_within :
    (f : ℤ) (b : EntryBin) (es : List Entry)
    → b.entries ≡ es
    → Ascending es
    → get_center_freq b ≡ ok f
    → All (λ e. 2 * abs (e.frequency -ℤ f) ≤ span es + 1) es
unfolding get_center_freq
center_within f b [] same sorted center = tt
center_within f b (x ∷ []) same sorted center =
    subst (λ c. All (λ e. 2 * abs (e.frequency -ℤ c) ≤ span (x ∷ []) + 1) (x ∷ [])) {y = f}
      (ground arith) (near_self x.frequency, tt)
center_within f b (x ∷ y ∷ ys) same sorted center =
    subst (λ c. All (λ e. 2 * abs (e.frequency -ℤ c) ≤ span (x ∷ y ∷ ys) + 1) (x ∷ y ∷ ys))
      {x = half ((last y ys).frequency +ℤ x.frequency)} {y = f} (ground arith)
      (All-near x.frequency (last y ys).frequency (x ∷ y ∷ ys) (omega arith, sorted.0)
        (last-above x (y ∷ ys) sorted, All-below_last x (y ∷ ys) sorted))

span-lt :
    (bandwidth : ℤ) (es : List Entry)
    → 0 < length es
    → pos 0 <ℤ bandwidth
    → Ascending es
    → Fits bandwidth es
    → span es + 1 ≤ pos_part bandwidth
span-lt bandwidth [] some_entry wide sorted fits = elim some_entry [ ]
span-lt bandwidth (x ∷ []) some_entry wide sorted fits = omega (
  arith,
  -ℤ_parts x.frequency x.frequency,
  parts_apart bandwidth,
  parts_apart (x.frequency -ℤ x.frequency),
)
span-lt bandwidth (x ∷ y ∷ ys) some_entry wide sorted fits =
    apart-lt x.frequency (last y ys).frequency bandwidth (last-above x (y ∷ ys) sorted)
      (last-Fits bandwidth x y ys fits)

-- In a bin that `sortBins` filled with a bandwidth above zero every entry lies within half of the
-- bin's span, rounded up, of the centre that the bin is tuned to, and the span lies below the
-- bandwidth. So no entry is further than half of the bandwidth from the centre, and one is exactly
-- that far only in a bin whose span is the bandwidth less one.
pub get_center_freq-near :
    (bandwidth f : ℤ) (systems : List System) (b : EntryBin)
    → pos 0 <ℤ bandwidth
    → IsBin bandwidth systems b
    → Ascending b.entries
    → get_center_freq b ≡ ok f
    → All (λ e. 2 * abs (e.frequency -ℤ f) ≤ span b.entries + 1) b.entries
      × (span b.entries + 1 ≤ pos_part bandwidth)
get_center_freq-near bandwidth f systems b wide good sorted center = (
  center_within f b b.entries refl sorted center,
  span-lt bandwidth b.entries good.occupied wide sorted good.filled.fits,
)

count_blocked-le : (systems : List System) (es : List Entry) → count_blocked systems es ≤ length es
unfolding count_blocked
count_blocked-le systems [] = omega arith
count_blocked-le systems (e ∷ es) = ground (arith, count_blocked-le systems es)

abbrev pub IsBlocked : List System → Entry → Type 0
IsBlocked systems e = blocked systems e ≡ ok true

count_blocked-All :
    (systems : List System) (es : List Entry)
    → count_blocked systems es ≡ length es
    → All (IsBlocked systems) es
unfolding count_blocked
count_blocked-All systems [] h = tt
count_blocked-All systems (e ∷ es) h = (
  ground (arith, count_blocked-le systems es),
  count_blocked-All systems es (ground (arith, count_blocked-le systems es)),
)

All-count_blocked :
    (systems : List System) (es : List Entry)
    → All (IsBlocked systems) es
    → count_blocked systems es ≡ length es
unfolding count_blocked
All-count_blocked systems [] h = refl
All-count_blocked systems (e ∷ es) h = ground (arith, h.0, All-count_blocked systems es h.1)

-- A filled bin is passed over exactly when each of its entries is locked out, by itself or by its
-- system.
pub entries_locked_out_iff :
    (bandwidth : ℤ) (systems : List System) (b : EntryBin)
    → IsBin bandwidth systems b
    → (entries_locked_out b ≡ true → All (IsBlocked systems) b.entries)
      × (All (IsBlocked systems) b.entries → entries_locked_out b ≡ true)
unfolding entries_locked_out
entries_locked_out_iff bandwidth systems b good = (
  λ h. count_blocked-All systems b.entries (ground (arith, good.filled.counted)),
  λ h. ground (arith, good.filled.counted, All-count_blocked systems b.entries h),
)
