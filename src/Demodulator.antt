-- ===== src/Demodulator.antt =====
-- `Demodulator::start` of sigproc/Demodulator.cpp, as far as it chooses the sample rate of an output
-- device; the operations of the running demodulator stand in Demodulator/Control.
pub mod Preferred
pub mod Cubic
pub mod Control
pub mod Focus
pub mod Span
pub mod Switch
use pi_scan.Base.{
  ℕ, zero, suc, ◌+◌, ◌==◌, ltb, Bool, true, false, List, [], ◌∷◌, Option, none, some, ok, undefined,
  Outcome, ◌&&◌, if◌then◌else◌,
}

-- `NUM_RATES_DEFAULT` and `desired_rates`.
abbrev pub num_rates : ℕ
num_rates = 4

abbrev pub desired_rates : List ℕ
desired_rates = 48_000 ∷ 44_100 ∷ 96_000 ∷ 192_000 ∷ []

-- `desired_rank` and `desired_rate`.
pub record Desired : Type 0 where
  pub rank : ℕ
  pub rate : ℕ

abbrev pub rank_if : ℕ → ℕ → ℕ → Desired → Desired
rank_if d i srate best =
    if (d == srate) && ltb i best.rank then record { rank = i; rate = srate } else best

-- The inner loop, from index `i` of the desired rates on.
unfoldable pub rank_rate : ℕ → List ℕ → ℕ → Desired → Desired
rank_rate i [] srate best = best
rank_rate i (d ∷ ds) srate best = rank_rate (i + 1) ds srate (rank_if d i srate best)

-- The loop over the rates of the device.
unfoldable pub rank_rates : List ℕ → Desired → Desired
unfolding rank_rate
rank_rates [] best = best
rank_rates (srate ∷ srates) best = rank_rates srates (rank_rate 0 desired_rates srate best)

-- `back` of an empty vector is undefined.
abbrev pub back : List ℕ → Outcome ℕ
back [] = undefined
back (x ∷ []) = ok x
back (x ∷ y ∷ ys) = back (y ∷ ys)

unfoldable pub output_rate : List ℕ → Outcome ℕ
unfolding rank_rates
output_rate srates =
    let best = rank_rates srates (record { rank = num_rates + 1; rate = 0 }) in
    if ltb num_rates best.rank then back srates else ok best.rate
