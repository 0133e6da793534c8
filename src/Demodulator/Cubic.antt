-- ===== src/Demodulator/Cubic.antt =====
-- CubicSDR, a library whose copy under src/cubic the demodulator calls: the calls, and what they are
-- answered, as functions of the calls made so far (latest first), with what the demodulator's code
-- relies on.
use pi_scan.Base.{
  ℕ, ◌≡◌, String, ℤ, half, ltb_ℤ, Bool, true, false, List, ◌∷◌, Option, none, some, if◌then◌else◌,
}
use pi_scan.Scan.Entry.{Modulation, nfm, wide_fm, am_mode}

abbrev pub same_modulation : Modulation → Modulation → Bool
same_modulation nfm nfm = true
same_modulation wide_fm wide_fm = true
same_modulation am_mode am_mode = true
same_modulation _ _ = false

pub data CubicCall (F : Type 0) : Type 0 where
  -- `newThread` with the type, the bandwidth and the output device that are set on it.
  new_modem : Modulation → String → ℕ → ℕ → CubicCall F
  run_modem : Modulation → CubicCall F
  modem_frequency : Modulation → ℤ → CubicCall F
  modem_muted modem_active : Modulation → Bool → CubicCall F
  -- `setActiveDemodulator(demod, false)`.
  make_active : Modulation → CubicCall F
  -- `CubicSDR::setFrequency`, `setAGCMode` and `setGain("TUNER", gain)`.
  tune : ℤ → CubicCall F
  agc_mode : Bool → CubicCall F
  tuner_gain : F → CubicCall F
  on_exit : CubicCall F

module _ {F : Type 0} where
  abbrev pub tunes : CubicCall F → Bool
  tunes (tune f) = true
  tunes _ = false

  abbrev pub makes_active : CubicCall F → Bool
  makes_active (make_active m) = true
  makes_active _ = false

-- The tuner does not go below half its sample rate.
abbrev pub clamp : ℤ → ℤ → ℤ
clamp rate f = if ltb_ℤ f (half rate) then half rate else f

abbrev pub first_of : Option Modulation → Modulation → Modulation
first_of none m = m
first_of (some k) m = k

-- `Float` is the machine's `float`; the comparisons and the arithmetic on it carry no laws.
pub record Cubic : Type 1 where
  pub Float : Type 0
  pub of_int : ℤ → Float
  pub to_int : Float → ℤ
  pub is_below_zero : Float → Bool
  pub at_least : Float → Float → Bool
  pub plus : Float → Float → Float
  pub minus : Float → Float → Float
  pub times : Float → Float → Float
  pub over : Float → Float → Float
  pub magnitude : Float → Float
  pub frequency : List (CubicCall Float) → ℤ
  pub sample_rate : List (CubicCall Float) → ℤ
  pub gain_of : List (CubicCall Float) → Float
  pub level : Modulation → List (CubicCall Float) → Float
  pub floor : Modulation → List (CubicCall Float) → Float
  pub active : Modulation → List (CubicCall Float) → Bool
  pub current_modem : List (CubicCall Float) → Option Modulation
  pub context_modem : List (CubicCall Float) → Option Modulation
  pub sample_rate-call :
      (c : CubicCall Float) (l : List (CubicCall Float)) → sample_rate (c ∷ l) ≡ sample_rate l
  pub frequency-tune :
      (f : ℤ) (l : List (CubicCall Float)) → frequency (tune f ∷ l) ≡ clamp (sample_rate l) f
  pub frequency-other :
      (c : CubicCall Float) (l : List (CubicCall Float))
      → tunes c ≡ false
      → frequency (c ∷ l) ≡ frequency l
  -- Making one modem active does not make another one inactive, nor take the focus.
  pub active-activate :
      (m k : Modulation) (l : List (CubicCall Float))
      → same_modulation m k ≡ false
      → active m (modem_active k true ∷ l) ≡ active m l
  pub context-activate :
      (k : Modulation) (l : List (CubicCall Float))
      → context_modem (modem_active k true ∷ l) ≡ context_modem l
  -- The modem that had the focus becomes the current one, and the given one has the focus; only
  -- without a focus the given one becomes current. A modem that is not active is not current.
  pub current-make :
      (m : Modulation) (l : List (CubicCall Float))
      → current_modem (make_active m ∷ l) ≡ (
          if active (first_of (context_modem l) m) l
          then some (first_of (context_modem l) m)
          else none)
  pub current-other :
      (c : CubicCall Float) (l : List (CubicCall Float))
      → makes_active c ≡ false
      → current_modem (c ∷ l) ≡ current_modem l
