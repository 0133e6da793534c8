-- ===== src/Tuner/Started.antt =====
-- The tuner that Demodulator::start comes to, from the devices of CubicSDR to the calls that start it.
use pi_scan.Base.{
  ℕ, ◌<◌, ◌≡◌, refl, ap, ◌∙◌, pos, ℤ, String, List, [], ◌∷◌, Option, none, some, ok, arith, length,
  get_elem?, All, All-get_elem?, All-all_elems, true, abs, ◌-ℤ◌,
}
use pi_scan.Tuner.{
  Device, TunerConfig, TunerManager, find_known, enumerate_devices, keep_devices, auto_select_tuner,
  nearest_sample_rate, insert_config, long_max,
}
use pi_scan.Tuner.Rates.{diff, nearest_sample_rate-nearest}
use pi_scan.Tuner.Starting.{set_device, set_ppm, set_sample_rate, start_selected_tuner, start_tuner}
use pi_scan.Tuner.Kept.{
  is_tuner, Reported, KnownIs, keep_devices-All, keep_devices-some, find_known-KnownIs,
}

-- A rate that is less than half of what a `long` holds, so that the difference of two of them fits.
abbrev pub IsModest : ℤ → Type 0
IsModest rate = abs rate < 0x4000_0000_0000_0000

-- `begin` of a map with elements is one of them.
abbrev pub IsBegin : (List (String × Device) → Option (String × Device)) → Type 0
IsBegin begin =
    (devs : List (String × Device))
    → 0 < length devs
    → (k : ℕ) × (p : String × Device) × (begin devs ≡ some p) × (get_elem? devs k ≡ some p)

diff_small : (desired rate : ℤ) → IsModest desired → IsModest rate → diff desired rate < long_max
unfolding abs ◌-ℤ◌
diff_small desired rate h k = ground arith

enumerated :
    (devices : List Device) (m : TunerManager) (k : ℕ) (d : Device)
    → get_elem? devices k ≡ some d
    → enumerate_devices devices m ≡ (true, record m { devs = keep_devices devices m.devs })
unfolding enumerate_devices
enumerated [] m k d at_ = cc
enumerated (x ∷ devices) m k d at_ = ground arith

module _ (begin : List (String × Device) → Option (String × Device)) where
  -- A device with the property is selected, at the rate nearest to a modest one.
  abbrev Selects : (Device → Type 0) → TunerManager → List TunerConfig → Type 0
  Selects Q m tuners =
      (m' : TunerManager) × (tuners' : List TunerConfig) × (d : Device) × (desired : ℤ)
      × (auto_select_tuner begin m tuners ≡ ok (true, m', tuners'))
      × (m'.selected_device ≡ some d)
      × (m'.selected_config.sample_rate ≡ nearest_sample_rate desired d.sample_rates)
      × IsModest desired
      × Q d

  select-Selects :
      (Q : Device → Type 0) (m : TunerManager) (tuners : List TunerConfig)
      (known : Option (TunerConfig × Device))
      → find_known m.devs tuners ≡ known
      → KnownIs Q (λ t. IsModest t.sample_rate) known
      → IsBegin begin
      → 0 < length m.devs
      → IsModest m.selected_config.sample_rate
      → All (λ p. Q p.1) m.devs
      → Selects Q m tuners
  unfolding auto_select_tuner
  select-Selects Q m tuners none is found begins some_device modest all_ =
      let (k, (name, d), first, at_) = begins m.devs some_device in
      let c : TunerConfig = record (m.selected_config) {
        rank = pos (length tuners);
        driver = d.driver;
        descriptor = d.name;
      } in
      (
        record m {
          selected_config = record c {
            sample_rate = nearest_sample_rate c.sample_rate d.sample_rates;
          };
          selected_device = some d;
        },
        insert_config c tuners,
        d,
        c.sample_rate,
        ground (arith, first),
        refl,
        refl,
        modest,
        All-get_elem? (λ p. Q p.1) m.devs k all_ at_,
      )
  select-Selects Q m tuners (some (t, d)) is found begins some_device modest all_ = (
    record m {
      selected_config = record t { sample_rate = nearest_sample_rate t.sample_rate d.sample_rates };
      selected_device = some d;
    },
    tuners,
    d,
    t.sample_rate,
    ground arith,
    refl,
    refl,
    found.0,
    found.1,
  )

  -- What `start_tuner` comes to: a device that CubicSDR reports and that is a tuner is set, then its
  -- correction, then a rate that it supports.
  abbrev pub Starts : List Device → TunerManager → List TunerConfig → Type 0
  Starts devices m tuners =
      (m' : TunerManager) × (tuners' : List TunerConfig) × (d : Device) × (rate ppm : ℤ) × (i : ℕ)
      × (start_tuner begin devices m tuners
          ≡ ok (m', tuners', set_sample_rate rate ∷ set_ppm ppm ∷ set_device d ∷ []))
      × Reported devices d
      × (get_elem? d.sample_rates i ≡ some rate)

  start_tuner_runs :
      (devices : List Device) (m m1 m' : TunerManager) (tuners tuners' : List TunerConfig)
      (x : Device)
      → enumerate_devices devices m ≡ (true, m1)
      → auto_select_tuner begin m1 tuners ≡ ok (true, m', tuners')
      → m'.selected_device ≡ some x
      → start_tuner begin devices m tuners
        ≡ ok (
          m',
          tuners',
          set_sample_rate m'.selected_config.sample_rate
              ∷ set_ppm m'.selected_config.ppm_correction
              ∷ set_device x
              ∷ [],
        )
  unfolding start_tuner start_selected_tuner
  start_tuner_runs devices m m1 m' tuners tuners' x enumerated selected device =
      rw (enumerated, selected, device) refl

  -- Where CubicSDR reports a tuner with a name, the map of devices is empty before and `begin` of a map
  -- with elements is one of them, every tuner that is reported supports a rate, and the rates of the
  -- tuners, of the saved configurations and of the one selected before are below 2^62: the start of
  -- the tuner returns, with one of the reported tuners set, then a correction and a rate of that tuner.
  pub start_tuner-Starts :
      (devices : List Device) (m : TunerManager) (tuners : List TunerConfig) (k : ℕ) (d : Device)
      → IsBegin begin
      → get_elem? devices k ≡ some d
      → is_tuner d ≡ true
      → m.devs ≡ []
      → All
          (λ x. is_tuner x ≡ true → (0 < length x.sample_rates) × All IsModest x.sample_rates)
          devices
      → IsModest m.selected_config.sample_rate
      → All (λ t. IsModest t.sample_rate) tuners
      → Starts devices m tuners
  start_tuner-Starts devices m tuners k d begins at_ tuner fresh rates modest saved =
      let devs = keep_devices devices m.devs in
      let Q : Device → Type 0 =
        λ x. Reported devices x × (0 < length x.sample_rates) × All IsModest x.sample_rates in
      let every : All (λ x. is_tuner x ≡ true → Q x) devices =
        All-all_elems (λ x. is_tuner x ≡ true → Q x) devices
          (λ j x there is.
            let (supports, modest) =
              All-get_elem?
                (λ y. is_tuner y ≡ true → (0 < length y.sample_rates) × All IsModest y.sample_rates)
                devices j rates there is in
            ((j, there, is), supports, modest)) in
      let none_yet : All (λ p. Q p.1) m.devs = rw fresh tt in
      let kept : All (λ p. Q p.1) devs = keep_devices-All Q devices m.devs every none_yet in
      let (m', tuners', x, desired, selects, device, rate, small, (reported, supports, all_small)) =
        select-Selects Q (record m { devs = devs }) tuners (find_known devs tuners) refl
          (find_known-KnownIs Q (λ t. IsModest t.sample_rate) devs tuners saved kept) begins
          (keep_devices-some devices m.devs k d at_ tuner) modest kept in
      let (i, there, nearest) = nearest_sample_rate-nearest desired x.sample_rates supports (
        All-all_elems (λ r. diff desired r < long_max) x.sample_rates
          (λ j r there.
            diff_small desired r small
              (All-get_elem? IsModest x.sample_rates j all_small there))) in
      (
        m',
        tuners',
        x,
        nearest_sample_rate desired x.sample_rates,
        m'.selected_config.ppm_correction,
        i,
        start_tuner_runs devices m (record m { devs = devs }) m' tuners tuners' x
              (enumerated devices m k d at_) selects device
            ∙ ap
                (λ r. ok (
                  m',
                  tuners',
                  set_sample_rate r ∷ set_ppm m'.selected_config.ppm_correction ∷ set_device x ∷ [],
                ))
                rate,
        reported,
        there,
      )
