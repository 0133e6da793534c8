-- ===== src/Tuner/Rates.antt =====
-- The sample rate that is chosen.
use mathlib.Core.Path.{subst}
use pi_scan.Base.{
  ℕ, suc, ◌<◌, ◌≤◌, ◌≡◌, refl, sym, ap, ℤ, ◌-ℤ◌, abs, ltb, List, [], ◌∷◌, some, arith, length,
  get_elem?, All, Bool-cases, inl, inr, ◌⊎◌, negsuc,
}
use pi_scan.Tuner.{nearest_loop, nearest_sample_rate, long_max}

abbrev pub diff : ℤ → ℤ → ℕ
diff desired rate = abs (desired -ℤ rate)

-- The loop keeps its result, which no rate beats, or comes to the rate that beats all others.
abbrev Nearest : ℤ → List ℤ → ℕ → ℤ → ℤ → Type 0
Nearest desired rates min_diff result out =
    ((out ≡ result) × All (λ rate. min_diff ≤ diff desired rate) rates)
    ⊎ ((i : ℕ) × (get_elem? rates i ≡ some out)
        × (diff desired out < min_diff)
        × All (λ rate. diff desired out ≤ diff desired rate) rates)

All-weaken :
    (desired : ℤ) (rates : List ℤ) (m n : ℕ)
    → m ≤ n
    → All (λ rate. n ≤ diff desired rate) rates
    → All (λ rate. m ≤ diff desired rate) rates
All-weaken desired [] m n le h = tt
All-weaken desired (x ∷ rates) m n le h = (omega (arith, h.0), All-weaken desired rates m n le h.1)

takes :
    (desired x out : ℤ) (rates : List ℤ) (min_diff : ℕ) (result : ℤ)
    → diff desired x < min_diff
    → Nearest desired rates (diff desired x) x out
    → Nearest desired (x ∷ rates) min_diff result out
takes desired x out rates min_diff result less (inl (same, others)) =
    let eq : diff desired out ≡ diff desired x = ap (diff desired) same in
    inr (
      0,
      ap some (sym same),
      omega (arith, eq),
      (
        omega (arith, eq),
        All-weaken desired rates (diff desired out) (diff desired x) (omega (arith, eq)) others,
      ),
    )
takes desired x out rates min_diff result less (inr (i, at_, closer, others)) =
    inr (suc i, at_, omega arith, (omega arith, others))

keeps :
    (desired x out : ℤ) (rates : List ℤ) (min_diff : ℕ) (result : ℤ)
    → min_diff ≤ diff desired x
    → Nearest desired rates min_diff result out
    → Nearest desired (x ∷ rates) min_diff result out
keeps desired x out rates min_diff result more (inl (same, others)) = inl (same, (more, others))
keeps desired x out rates min_diff result more (inr (i, at_, closer, others)) =
    inr (suc i, at_, closer, (omega arith, others))

nearest_loop-Nearest :
    (desired : ℤ) (rates : List ℤ) (min_diff : ℕ) (result : ℤ)
    → Nearest desired rates min_diff result (nearest_loop desired rates min_diff result)
unfolding nearest_loop
nearest_loop-Nearest desired [] min_diff result = inl (refl, tt)
nearest_loop-Nearest desired (x ∷ rates) min_diff result =
    elim (Bool-cases (ltb (diff desired x) min_diff)) [
      | inl less ↦
          subst (Nearest desired (x ∷ rates) min_diff result)
            {x = nearest_loop desired rates (diff desired x) x}
            {y = nearest_loop desired (x ∷ rates) min_diff result} (rw less refl)
            (takes desired x _ rates min_diff result (ground arith)
              (nearest_loop-Nearest desired rates (diff desired x) x))
      | inr more ↦
          subst (Nearest desired (x ∷ rates) min_diff result)
            {x = nearest_loop desired rates min_diff result}
            {y = nearest_loop desired (x ∷ rates) min_diff result} (rw more refl)
            (keeps desired x _ rates min_diff result (ground arith)
              (nearest_loop-Nearest desired rates min_diff result))
    ]

-- Of the rates that a tuner supports, all of them within the range of a `long` of the desired one,
-- `nearestSampleRate` returns one that no other is closer than.
pub nearest_sample_rate-nearest :
    (desired : ℤ) (rates : List ℤ)
    → 0 < length rates
    → All (λ rate. diff desired rate < long_max) rates
    → (i : ℕ) × (get_elem? rates i ≡ some (nearest_sample_rate desired rates))
      × All (λ rate. diff desired (nearest_sample_rate desired rates) ≤ diff desired rate) rates
unfolding nearest_sample_rate
nearest_sample_rate-nearest desired [] some_rate small = absurd (omega arith)
nearest_sample_rate-nearest desired (x ∷ rates) some_rate small =
    elim (nearest_loop-Nearest desired (x ∷ rates) long_max (negsuc 0)) [
      | inl (same, others) ↦ absurd (omega (arith, small.0, others.0))
      | inr (i, at_, closer, others) ↦ (i, at_, others)
    ]
