-- ===== src/Tuner.antt =====
-- sigproc/TunerManager.h and .cpp, with TunerConfig and TunerList of common/Configuration.h: the
-- choice of a tuner and of its sample rate. The devices are what CubicSDR reports.
pub mod Rates
pub mod Choice
pub mod Starting
pub mod Kept
pub mod Started
use text.Mathlib.Text.{◌==◌ as str_eq}
use pi_scan.Base.{
  ℕ, String, ℤ, pos, negsuc, ◌-ℤ◌, abs, ltb_ℤ, ltb, ◌==◌, Bool, true, false, List, [], ◌∷◌, Option,
  none, some, ok, Outcome, ◌>>=◌, if◌then◌else◌, length, not, ◌||◌,
}
use pi_scan.Scan.Rotation.{or_undefined}

pub record Device : Type 0 where
  pub name : String
  pub driver : String
  pub available : Bool
  pub sample_rates : List ℤ

pub record TunerConfig : Type 0 where
  pub rank : ℤ
  pub descriptor : String
  pub driver : String
  pub ppm_correction : ℤ
  pub sample_rate : ℤ

pub record TunerManager : Type 0 where
  pub devs : List (String × Device)
  pub selected_config : TunerConfig
  pub selected_device : Option Device

-- `LONG_MAX` of a 64-bit `long`.
abbrev pub long_max : ℕ
long_max = 0x7fff_ffff_ffff_ffff

-- The loop of `nearestSampleRate`; the differences are taken to fit a `long`.
unfoldable pub nearest_loop : ℤ → List ℤ → ℕ → ℤ → ℤ
nearest_loop desired [] min_diff result = result
nearest_loop desired (rate ∷ rates) min_diff result =
    let diff = abs (desired -ℤ rate) in
    let closer = nearest_loop desired rates diff rate in
    let same = nearest_loop desired rates min_diff result in
    if ltb diff min_diff then closer else same

unfoldable pub nearest_sample_rate : ℤ → List ℤ → ℤ
unfolding nearest_loop
nearest_sample_rate desired rates = nearest_loop desired rates long_max (negsuc 0)

-- `_devs[name] = device`.
abbrev pub put_device : String → Device → List (String × Device) → List (String × Device)
put_device name d [] = (name, d) ∷ []
put_device name d ((n, e) ∷ devs) =
    let rest = put_device name d devs in if str_eq n name then (n, d) ∷ devs else (n, e) ∷ rest

abbrev pub keep_devices : List Device → List (String × Device) → List (String × Device)
keep_devices [] devs = devs
keep_devices (d ∷ ds) devs =
    let kept = keep_devices ds (put_device d.name d devs) in
    let passed = keep_devices ds devs in
    if str_eq d.driver "audio" || str_eq d.name "" then passed else kept

unfoldable pub enumerate_devices : List Device → TunerManager → Bool × TunerManager
enumerate_devices devices m =
    if length devices == 0
    then (false, m)
    else (true, record m { devs = keep_devices devices m.devs })

abbrev pub find_device : String → List (String × Device) → Option Device
find_device name [] = none
find_device name ((n, d) ∷ devs) =
    let rest = find_device name devs in if str_eq n name then some d else rest

-- The first saved tuner whose device is there and available.
unfoldable pub find_known :
    List (String × Device) → List TunerConfig → Option (TunerConfig × Device)
find_known devs [] = none
find_known devs (t ∷ tuners) =
    let rest = find_known devs tuners in
    elim (find_device t.descriptor devs) [
      | none ↦ rest
      | some d ↦ if d.available then some (t, d) else rest
    ]

-- `std::set::insert`, in the order of the ranks: a configuration of a rank that is there is dropped.
unfoldable pub insert_config : TunerConfig → List TunerConfig → List TunerConfig
insert_config c [] = c ∷ []
insert_config c (t ∷ tuners) =
    let rest = insert_config c tuners in
    if ltb_ℤ c.rank t.rank
    then c ∷ t ∷ tuners
    else if ltb_ℤ t.rank c.rank
    then t ∷ rest
    else t ∷ tuners

-- `begin` of the unordered map, which a library orders, is a parameter.
module _ (begin : List (String × Device) → Option (String × Device)) where
  unfoldable pub select_first : TunerManager → Outcome TunerManager
  select_first m = do
    (name, d) ← or_undefined (begin m.devs)
    ok (record m {
      selected_config = record (m.selected_config) { driver = d.driver; descriptor = d.name };
      selected_device = some d;
    })

  -- The fallback: the first device, whose configuration is added to the saved ones.
  abbrev pub select_new :
      TunerManager → List TunerConfig → Outcome (TunerManager × List TunerConfig)
  select_new m tuners = do
    m' ← select_first m
    let c = record (m'.selected_config) { rank = pos (length tuners) }
    ok (record m' { selected_config = c }, insert_config c tuners)

  abbrev pub select : TunerManager → List TunerConfig → Outcome (TunerManager × List TunerConfig)
  select m tuners = elim (find_known m.devs tuners) [
    | none ↦ select_new m tuners
    | some (t, d) ↦ ok (record m { selected_config = t; selected_device = some d }, tuners)
  ]

  -- `autoSelectTuner`, with the saved tuners. Without any of them nothing is known either.
  unfoldable pub auto_select_tuner :
      TunerManager → List TunerConfig → Outcome (Bool × TunerManager × List TunerConfig)
  unfolding select_first find_known insert_config nearest_sample_rate
  auto_select_tuner m tuners =
      let chosen = (do
        (m', tuners') ← select m tuners
        d ← or_undefined m'.selected_device
        let c = m'.selected_config
        ok (
          true,
          record m' {
            selected_config = record c {
              sample_rate = nearest_sample_rate c.sample_rate d.sample_rates;
            };
          },
          tuners',
        )) in
      if length m.devs == 0 then ok (false, m, tuners) else chosen
