-- ===== src/Scan/Rotation/Ahead.antt =====
-- How far ahead a bin stands in the round over the bins, and that the loop over the locked bins does
-- not pass an open one.
use native.Mathlib.Nat.{mod-lt}
use pi_scan.Base.{
  ℕ, zero, suc, ◌+◌, ◌-◌, ◌%◌, ◌<◌, ◌≤◌, ◌≡◌, ◌∙◌, ap, List, some, arith, false, Bool-cases, inl,
  inr, ok, leb, get_elem?, get_elem?-some, length,
}
use pi_scan.Scan.Bins.{EntryBin, entries_locked_out}
use pi_scan.Scan.Rotation.{skip_locked}
use pi_scan.Scan.Rotation.Skipping.{next-inside, next-wraps}

-- The number of the bin `d` steps behind `m`, of `n`.
abbrev pub ahead : ℕ → ℕ → ℕ → ℕ
ahead n zero m = m
ahead n (suc d) m = ahead n d ((m + 1) % n)

pub next-lt : (m n : ℕ) → m < n → (m + 1) % n < n
next-lt m n h = omega (arith, mod-lt (m + 1) {m = n} (omega arith))

ahead_inside : (n d m : ℕ) → m + d < n → ahead n d m ≡ m + d
ahead_inside n zero m h = omega arith
ahead_inside n (suc d) m h =
    ap (ahead n d) (next-inside m n (omega arith))
    ∙ ahead_inside n d (m + 1) (omega arith)
    ∙ omega arith

-- Behind the last bin comes the first.
ahead_round : (n gap d m : ℕ) → m + suc gap ≡ n → ahead n (suc (gap + d)) m ≡ ahead n d 0
ahead_round n zero d m h =
    let same : 0 + d ≡ d = omega arith in
    ap (λ k. ahead n k ((m + 1) % n)) same ∙ ap (ahead n d) (next-wraps m n (omega arith))
ahead_round n (suc gap) d m h =
    let same : suc gap + d ≡ suc (gap + d) = omega arith in
    ap (λ k. ahead n k ((m + 1) % n)) same
    ∙ ap (ahead n (suc (gap + d))) (next-inside m n (omega arith))
    ∙ ahead_round n gap d (m + 1) (omega arith)

pub ahead_reaches : (n m i : ℕ) → m < n → i < n → (d : ℕ) × (d < n) × (ahead n d m ≡ i)
ahead_reaches n m i hm hi = elim (Bool-cases (leb m i)) [
  | inl le ↦ (i - m, omega arith, ahead_inside n (i - m) m (ground arith) ∙ ground arith)
  | inr gt ↦ (
    suc (n - m - 1 + i),
    ground arith,
    ahead_round n (n - m - 1) i m (omega arith) ∙ ahead_inside n i 0 (omega arith) ∙ omega arith,
  )
]

-- The loop ends at an open bin that stands no further ahead than any other open bin.
pub skip_locked-near :
    (fuel : ℕ) (bins : List EntryBin) (m d i : ℕ) (b : EntryBin)
    → m < length bins
    → d < fuel
    → ahead (length bins) d m ≡ i
    → get_elem? bins i ≡ some b
    → entries_locked_out b ≡ false
    → (index : ℕ) × (d' : ℕ) × (c : EntryBin) × (skip_locked fuel bins m ≡ ok index)
      × (get_elem? bins index ≡ some c)
      × (d' ≤ d)
      × (ahead (length bins) d' index ≡ i)
skip_locked-near zero bins m d i b inside more at_ found open_ = absurd (omega arith)
skip_locked-near (suc fuel) bins m zero i b inside more at_ found open_ =
    let here : get_elem? bins m ≡ some b = ap (get_elem? bins) at_ ∙ found in
    (m, zero, b, unfold skip_locked in ground arith, here, omega arith, at_)
skip_locked-near (suc fuel) bins m (suc d) i b inside more at_ found open_ =
    let (c, here) = get_elem?-some bins m inside in
    elim (Bool-cases (entries_locked_out c)) [
      | inl locked ↦
          let (index, d', c', ends, there, near, still) =
            skip_locked-near fuel bins ((m + 1) % length bins) d i b
              (next-lt m (length bins) inside) (omega arith) at_ found open_ in
          let turns : skip_locked (suc fuel) bins m
              ≡ skip_locked fuel bins ((m + 1) % length bins) =
            unfold skip_locked in ground arith in
          (index, d', c', turns ∙ ends, there, omega arith, still)
      | inr unlocked ↦ (m, suc d, c, unfold skip_locked in ground arith, here, omega arith, at_)
    ]
