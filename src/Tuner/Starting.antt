-- ===== src/Tuner/Starting.antt =====
-- startSelectedTuner and stopSelectedTuner of sigproc/TunerManager.cpp, and how Demodulator::start of
-- sigproc/Demodulator.cpp comes to a tuner that runs. What CubicSDR is called is logged, latest first.
use pi_scan.Base.{
  ℤ, String, Bool, true, false, List, [], ◌∷◌, Option, ok, undefined, Outcome, ◌>>=◌,
}
use pi_scan.Scan.Rotation.{or_undefined}
use pi_scan.Tuner.{Device, TunerConfig, TunerManager, enumerate_devices, auto_select_tuner}

pub data TunerCall : Type 0 where
  set_device : Device → TunerCall
  set_ppm set_sample_rate : ℤ → TunerCall
  stop_device : TunerCall

-- The device is read without a test.
unfoldable pub start_selected_tuner : TunerManager → Outcome (Bool × List TunerCall)
start_selected_tuner m = do
  d ← or_undefined m.selected_device
  ok (
    true,
    set_sample_rate m.selected_config.sample_rate
        ∷ set_ppm m.selected_config.ppm_correction
        ∷ set_device d
        ∷ [],
  )

unfoldable pub stop_selected_tuner : List TunerCall → Bool × List TunerCall
stop_selected_tuner log = (true, stop_device ∷ log)

-- `CHECK_F`, which aborts the program where it fails.
abbrev pub check_f : Bool → Outcome Bool
check_f true = ok true
check_f false = undefined

module _ (begin : List (String × Device) → Option (String × Device)) where
  -- The three checks, with the devices that CubicSDR reports and the saved tuners.
  unfoldable pub start_tuner :
      List Device
      → TunerManager
      → List TunerConfig
      → Outcome (TunerManager × List TunerConfig × List TunerCall)
  unfolding enumerate_devices start_selected_tuner
  start_tuner devices m tuners = do
    let enumerated = enumerate_devices devices m
    devices_checked ← check_f enumerated.0
    (selected, m', tuners') ← auto_select_tuner begin enumerated.1 tuners
    selection_checked ← check_f selected
    (started, log) ← start_selected_tuner m'
    start_checked ← check_f started
    ok (m', tuners', log)
