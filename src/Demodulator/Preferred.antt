-- ===== src/Demodulator/Preferred.antt =====
-- The rate of an output device is the one that is desired most.
use pi_scan.Base.{
  ℕ, zero, suc, ◌+◌, ◌<◌, ◌≤◌, ◌≡◌, refl, ◌∙◌, ap, sym, List, [], ◌∷◌, some, ok, arith, get_elem?,
  Bool-cases, inl, inr, ◌⊎◌, ltb, ◌==◌, ◌&&◌,
}
use pi_scan.Scan.Rotation.Skipping.{get_elem?-lt}
use pi_scan.Demodulator.{
  num_rates, desired_rates, Desired, rank_if, rank_rate, rank_rates, output_rate,
}

rank_rate-le :
    (i : ℕ) (ds : List ℕ) (srate : ℕ) (best : Desired)
    → (rank_rate i ds srate best).rank ≤ best.rank
unfolding rank_rate
rank_rate-le i [] srate best = omega arith
rank_rate-le i (d ∷ ds) srate best =
    ground (arith, rank_rate-le (i + 1) ds srate (rank_if d i srate best))

-- Behind the inner loop the rank is at most that of the rate, where it is desired.
rank_rate-at :
    (i k : ℕ) (ds : List ℕ) (srate : ℕ) (best : Desired)
    → get_elem? ds k ≡ some srate
    → (rank_rate i ds srate best).rank ≤ i + k
unfolding rank_rate
rank_rate-at i k [] srate best h = absurd (cc)
rank_rate-at i zero (d ∷ ds) srate best h =
    ground (arith, rank_rate-le (i + 1) ds srate (rank_if d i srate best))
rank_rate-at i (suc k) (d ∷ ds) srate best h =
    omega (arith, rank_rate-at (i + 1) k ds srate (rank_if d i srate best) h)

rank_rates-le : (srates : List ℕ) (best : Desired) → (rank_rates srates best).rank ≤ best.rank
unfolding rank_rates
rank_rates-le [] best = omega arith
rank_rates-le (srate ∷ srates) best = omega (
  arith,
  rank_rates-le srates (rank_rate 0 desired_rates srate best),
  rank_rate-le 0 desired_rates srate best,
)

rank_rates-at :
    (srates : List ℕ) (best : Desired) (j k r : ℕ)
    → get_elem? srates j ≡ some r
    → get_elem? desired_rates k ≡ some r
    → (rank_rates srates best).rank ≤ k
unfolding rank_rates
rank_rates-at [] best j k r at_ wanted = absurd (cc)
rank_rates-at (srate ∷ srates) best zero k r at_ wanted =
    let same : get_elem? desired_rates k ≡ some srate = cc in
    omega (
      arith,
      rank_rates-le srates (rank_rate 0 desired_rates srate best),
      rank_rate-at 0 k desired_rates srate best same,
    )
rank_rates-at (srate ∷ srates) best (suc j) k r at_ wanted =
    rank_rates-at srates (rank_rate 0 desired_rates srate best) j k r at_ wanted

-- The inner loop keeps its choice, or takes the rate at a rank where it is desired.
rank_rate-from :
    (i : ℕ) (ds : List ℕ) (srate : ℕ) (best : Desired)
    → (rank_rate i ds srate best ≡ best)
      ⊎ ((k : ℕ) × (get_elem? ds k ≡ some srate)
          × ((rank_rate i ds srate best).rank ≡ i + k)
          × ((rank_rate i ds srate best).rate ≡ srate))
unfolding rank_rate
rank_rate-from i [] srate best = inl refl
rank_rate-from i (d ∷ ds) srate best =
    elim (rank_rate-from (i + 1) ds srate (rank_if d i srate best)) [
      | inr (k, at_, rank, rate) ↦ inr (suc k, at_, omega (arith, rank), rate)
      | inl kept ↦ elim (Bool-cases ((d == srate) && ltb i best.rank)) [
        | inl taken ↦ inr (0, ground arith, ground arith, ground arith)
        | inr passed ↦ inl (kept ∙ rw passed refl)
      ]
    ]

-- The outer loop keeps its choice, or takes a rate of the device that is desired.
rank_rates-from :
    (srates : List ℕ) (best : Desired)
    → (rank_rates srates best ≡ best)
      ⊎ ((j : ℕ) × (get_elem? srates j ≡ some (rank_rates srates best).rate)
          × (get_elem? desired_rates (rank_rates srates best).rank
              ≡ some (rank_rates srates best).rate))
unfolding rank_rates
rank_rates-from [] best = inl refl
rank_rates-from (srate ∷ srates) best =
    elim (rank_rates-from srates (rank_rate 0 desired_rates srate best)) [
      | inr (j, at_, wanted) ↦ inr (suc j, at_, wanted)
      | inl kept ↦ elim (rank_rate-from 0 desired_rates srate best) [
        | inl same ↦ inl (kept ∙ same)
        | inr (k, at_, rank, rate) ↦
            let rank' : (rank_rates srates (rank_rate 0 desired_rates srate best)).rank ≡ k =
              omega (arith, ap (λ x. x.rank) kept, rank) in
            let rate' : (rank_rates srates (rank_rate 0 desired_rates srate best)).rate ≡ srate =
              ap (λ x. x.rate) kept ∙ rate in
            inr (
              0,
              ap some (sym rate'),
              ap (get_elem? desired_rates) rank' ∙ (at_ ∙ ap some (sym rate')),
            )
      ]
    ]

-- Where a device has a desired rate, the rate that is chosen for it is one that it has, and none that
-- it has is desired more.
pub output_rate-preferred :
    (srates : List ℕ) (j k r : ℕ)
    → get_elem? srates j ≡ some r
    → get_elem? desired_rates k ≡ some r
    → (x : ℕ) × (i : ℕ) × (rank : ℕ) × (output_rate srates ≡ ok x)
      × (get_elem? srates i ≡ some x)
      × (get_elem? desired_rates rank ≡ some x)
      × ((j' k' r' : ℕ)
          → get_elem? srates j' ≡ some r'
          → get_elem? desired_rates k' ≡ some r'
          → rank ≤ k')
unfolding output_rate
output_rate-preferred srates j k r at_ wanted =
    let none_yet : Desired = record { rank = num_rates + 1; rate = 0 } in
    let best : Desired = rank_rates srates none_yet in
    let small : best.rank ≤ k = rank_rates-at srates none_yet j k r at_ wanted in
    let inside : k < 4 = get_elem?-lt desired_rates k wanted in
    elim (rank_rates-from srates none_yet) [
      | inl kept ↦ absurd (omega (arith, ap (λ x. x.rank) kept, small, inside))
      | inr (i, here, among) ↦ (
        best.rate,
        i,
        best.rank,
        ground (arith, small, inside),
        here,
        among,
        λ j' k' r' there also. rank_rates-at srates none_yet j' k' r' there also,
      )
    ]
