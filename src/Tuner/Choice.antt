-- ===== src/Tuner/Choice.antt =====
-- The tuner that is chosen, and what is saved of it.
use pi_scan.Base.{
  ℕ, zero, suc, ◌<◌, ◌≡◌, refl, pos, ◌<ℤ◌, String, List, [], ◌∷◌, Option, none, some, ok, arith,
  length, get_elem?, take, All, All-get_elem?, Bool, true, false,
}
use pi_scan.Tuner.{
  Device, TunerConfig, TunerManager, find_device, find_known, insert_config, nearest_sample_rate,
  auto_select_tuner,
}

abbrev pub usable_device : Option Device → Bool
usable_device none = false
usable_device (some d) = d.available

-- Is the device of a saved tuner there and available?
abbrev pub usable : List (String × Device) → TunerConfig → Bool
usable devs t = usable_device (find_device t.descriptor devs)

find_known-first :
    (devs : List (String × Device)) (tuners : List TunerConfig) (k : ℕ) (t : TunerConfig)
    (d : Device)
    → get_elem? tuners k ≡ some t
    → find_device t.descriptor devs ≡ some d
    → d.available ≡ true
    → All (λ u. usable devs u ≡ false) (take k tuners)
    → find_known devs tuners ≡ some (t, d)
unfolding find_known
find_known-first devs [] k t d at_ there here before = cc
find_known-first devs (u ∷ tuners) zero t d at_ there here before = ground arith
find_known-first devs (u ∷ tuners) (suc k) t d at_ there here before =
    ground (arith, before.0, find_known-first devs tuners k t d at_ there here before.1)

-- The first of the saved tuners whose device is there and available is the one that is chosen, with
-- the sample rate that `nearestSampleRate` picks for it; the saved tuners stay as they are.
pub auto_select_known :
    (begin : List (String × Device) → Option (String × Device)) (m : TunerManager)
    (tuners : List TunerConfig) (k : ℕ) (t : TunerConfig) (d : Device)
    → 0 < length m.devs
    → get_elem? tuners k ≡ some t
    → find_device t.descriptor m.devs ≡ some d
    → d.available ≡ true
    → All (λ u. usable m.devs u ≡ false) (take k tuners)
    → auto_select_tuner begin m tuners
      ≡ ok (
        true,
        record m {
          selected_config = record t {
            sample_rate = nearest_sample_rate t.sample_rate d.sample_rates;
          };
          selected_device = some d;
        },
        tuners,
      )
unfolding auto_select_tuner
auto_select_known begin m tuners k t d some_device at_ there here before =
    ground (arith, find_known-first m.devs tuners k t d at_ there here before)

-- The ranks rise along the list, as a set keeps them.
abbrev pub Ranked : List TunerConfig → Type 0
Ranked [] = Unit
Ranked (t ∷ tuners) = All (λ u. t.rank <ℤ u.rank) tuners × Ranked tuners

insert_config-same :
    (c : TunerConfig) (tuners : List TunerConfig) (k : ℕ) (t : TunerConfig)
    → Ranked tuners
    → get_elem? tuners k ≡ some t
    → t.rank ≡ c.rank
    → insert_config c tuners ≡ tuners
unfolding insert_config
insert_config-same c [] k t ranked at_ same = absurd (cc)
insert_config-same c (u ∷ tuners) zero t ranked at_ same = ground arith
insert_config-same c (u ∷ tuners) (suc k) t ranked at_ same =
    let below : u.rank <ℤ t.rank = All-get_elem? (λ v. u.rank <ℤ v.rank) tuners k ranked.0 at_ in
    ground (arith, below, insert_config-same c tuners k t ranked.1 at_ same)

-- Where devices are there, no saved tuner can be used and the number of the saved tuners, which
-- stand in order of rank, is the rank of one of them: the first device is chosen, but its
-- configuration is not added to the saved ones.
pub auto_select_unsaved :
    (begin : List (String × Device) → Option (String × Device)) (m : TunerManager)
    (tuners : List TunerConfig) (k : ℕ) (t : TunerConfig) (name : String) (d : Device)
    → 0 < length m.devs
    → find_known m.devs tuners ≡ none
    → begin m.devs ≡ some (name, d)
    → Ranked tuners
    → get_elem? tuners k ≡ some t
    → t.rank ≡ pos (length tuners)
    → (m' : TunerManager) × (auto_select_tuner begin m tuners ≡ ok (true, m', tuners))
      × (m'.selected_device ≡ some d)
      × (m'.selected_config.descriptor ≡ d.name)
unfolding auto_select_tuner
auto_select_unsaved begin m tuners k t name d some_device unknown first ranked at_ clash =
    let c : TunerConfig = record (m.selected_config) {
      rank = pos (length tuners);
      driver = d.driver;
      descriptor = d.name;
    } in
    (
      record m {
        selected_config = record c {
          sample_rate = nearest_sample_rate c.sample_rate d.sample_rates;
        };
        selected_device = some d;
      },
      ground (arith, insert_config-same c tuners k t ranked at_ clash),
      refl,
      refl,
    )
