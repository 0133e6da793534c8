-- ===== src/Tests/Tuning.antt =====
-- Tests of the choice of a tuner and of an output rate: Tuner and Demodulator.
use mathlib.Core.Bool.{false≢true}
use pi_scan.Base.{
  ℕ, ◌≡◌, refl, ℤ, pos, String, List, [], ◌∷◌, Option, none, some, arith, All, true, abs, ◌<◌,
  length,
}
use pi_scan.Tuner.{Device, TunerConfig, TunerManager}
use pi_scan.Tuner.Started.{IsBegin, IsModest, Starts, start_tuner-Starts}
use pi_scan.Tuner.Kept.{is_tuner}

abbrev rates : List ℤ
rates = pos 1_024_000 ∷ pos 2_400_000 ∷ []

abbrev stick : Device
stick = record { name = "stick"; driver = "rtlsdr"; available = true; sample_rates = rates }

abbrev saved : String → ℕ → TunerConfig
saved descriptor rank = record {
  rank = pos rank;
  descriptor = descriptor;
  driver = "rtlsdr";
  ppm_correction = pos 0;
  sample_rate = pos 2_048_000;
}

abbrev plugged : TunerManager
plugged = record {
  devs = ("stick", stick) ∷ [];
  selected_config = saved "null" 0;
  selected_device = none;
}

abbrev first_device : List (String × Device) → Option (String × Device)
first_device [] = none
first_device (d ∷ devs) = some d

abbrev speaker : Device
speaker = record { name = "speaker"; driver = "audio"; available = true; sample_rates = [] }

first_device-IsBegin : IsBegin first_device
first_device-IsBegin [] some_device = absurd (omega arith)
first_device-IsBegin (p ∷ devs) some_device = (0, p, refl, refl)

small_rates :
    All
      (λ x. is_tuner x ≡ true → (0 < length x.sample_rates) × All IsModest x.sample_rates)
      (speaker ∷ stick ∷ [])
unfolding abs
small_rates =
    (λ e. absurd (false≢true e), (λ _. (omega arith, (omega arith, (omega arith, tt))), tt))

small_saved : IsModest (pos 2_048_000)
unfolding abs
small_saved = omega arith

start_tuner-Starts_example :
    Starts first_device (speaker ∷ stick ∷ []) (record plugged { devs = [] }) (saved "lost" 0 ∷ [])
start_tuner-Starts_example =
    start_tuner-Starts first_device (speaker ∷ stick ∷ []) (record plugged { devs = [] })
      (saved "lost" 0 ∷ []) 1 stick first_device-IsBegin refl refl refl small_rates small_saved
      (small_saved, tt)

abbrev card : List ℕ
card = 8_000 ∷ 44_100 ∷ 48_000 ∷ []
