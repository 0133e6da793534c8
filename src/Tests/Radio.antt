-- ===== src/Tests/Radio.antt =====
-- A CubicSDR that answers as Demodulator/Cubic asks, and the tests of the demodulator over it.
use pi_scan.Base.{
  ℕ, ◌≡◌, refl, ℤ, pos, negsuc, half, abs, ◌-ℤ◌, ◌+ℤ◌, ◌<ℤ◌, ◌≤ℤ◌, ltb_ℤ, leb_ℤ, Bool, true, false,
  List, [], ◌∷◌, Option, none, some, ok, if◌then◌else◌, arith,
}
use pi_scan.Scan.Entry.{Modulation, nfm, wide_fm, am_mode}
use pi_scan.Demodulator.Cubic.{
  Cubic, CubicCall, same_modulation, new_modem, run_modem, modem_frequency, modem_muted,
  modem_active, make_active, tune, agc_mode, tuner_gain, on_exit, tunes, makes_active, clamp,
  first_of,
}
use pi_scan.Demodulator.Control.{Demodulator, start_modems, set_frequency, set_modem}
use pi_scan.Demodulator.Focus.{IsRunning}
use pi_scan.Demodulator.Span.{Covers, set_frequency-Covers}
use pi_scan.Demodulator.Switch.{last_frequency, set_modem_lags}

abbrev pub Calls : Type 0
Calls = List (CubicCall ℤ)

abbrev pub rate_of : Calls → ℤ
rate_of log = pos 2_048_000

abbrev pub frequency_of : Calls → ℤ
frequency_of [] = pos 100_000_000
frequency_of (tune f ∷ log) = clamp (pos 2_048_000) f
frequency_of (_ ∷ log) = frequency_of log

abbrev pub active_in : Modulation → Calls → Bool
active_in m [] = false
active_in m (new_modem k type width device ∷ log) =
    let rest = active_in m log in if same_modulation m k then false else rest
active_in m (run_modem k ∷ log) =
    let rest = active_in m log in if same_modulation m k then true else rest
active_in m (modem_active k on ∷ log) =
    let rest = active_in m log in if same_modulation m k then on else rest
active_in m (_ ∷ log) = active_in m log

abbrev pub context_in : Calls → Option Modulation
context_in [] = none
context_in (make_active m ∷ log) = some m
context_in (_ ∷ log) = context_in log

abbrev pub current_in : Calls → Option Modulation
current_in [] = none
current_in (make_active m ∷ log) =
    let k = first_of (context_in log) m in if active_in k log then some k else none
current_in (_ ∷ log) = current_in log

pub frequency_other :
    (c : CubicCall ℤ) (l : Calls) → tunes c ≡ false → frequency_of (c ∷ l) ≡ frequency_of l
frequency_other (tune f) l h = cc
frequency_other (new_modem k type width device) l h = refl
frequency_other (run_modem k) l h = refl
frequency_other (modem_frequency k f) l h = refl
frequency_other (modem_muted k on) l h = refl
frequency_other (modem_active k on) l h = refl
frequency_other (make_active k) l h = refl
frequency_other (agc_mode on) l h = refl
frequency_other (tuner_gain g) l h = refl
frequency_other on_exit l h = refl

pub same_self : (m : Modulation) → same_modulation m m ≡ true
same_self nfm = refl
same_self wide_fm = refl
same_self am_mode = refl

pub active_activate :
    (m k : Modulation) (l : Calls)
    → same_modulation m k ≡ false
    → active_in m (modem_active k true ∷ l) ≡ active_in m l
active_activate m k l h = rw h refl

pub current_other :
    (c : CubicCall ℤ) (l : Calls) → makes_active c ≡ false → current_in (c ∷ l) ≡ current_in l
current_other (tune f) l h = refl
current_other (new_modem k type width device) l h = refl
current_other (run_modem k) l h = refl
current_other (modem_frequency k f) l h = refl
current_other (modem_muted k on) l h = refl
current_other (modem_active k on) l h = refl
current_other (make_active k) l h = cc
current_other (agc_mode on) l h = refl
current_other (tuner_gain g) l h = refl
current_other on_exit l h = refl

abbrev pub radio : Cubic
radio = record {
  Float = ℤ;
  of_int = λ n. n;
  to_int = λ x. x;
  is_below_zero = λ x. ltb_ℤ x (pos 0);
  at_least = λ x y. leb_ℤ y x;
  plus = ◌+ℤ◌;
  minus = ◌-ℤ◌;
  times = λ x y. x;
  over = λ x y. x;
  magnitude = λ x. pos (abs x);
  frequency = frequency_of;
  sample_rate = rate_of;
  gain_of = λ log. pos 20;
  level = λ m log. negsuc 49;
  floor = λ m log. negsuc 99;
  active = active_in;
  current_modem = current_in;
  context_modem = context_in;
  sample_rate-call = λ c l. refl;
  frequency-tune = λ f l. refl;
  frequency-other = frequency_other;
  active-activate = active_activate;
  context-activate = λ k l. refl;
  current-make = λ m l. refl;
  current-other = current_other;
}

abbrev pub unstarted : Demodulator ℤ
unstarted = record {
  current = nfm;
  squelch_level = pos 0;
  current_freq = pos 0;
  gain = pos 0;
  modems = [];
  refresher = false;
  device_rates = [];
  log = [];
  updates = [];
}

abbrev devices : List (ℕ × List ℕ)
devices = (3, 44_100 ∷ 48_000 ∷ []) ∷ []

abbrev pub listening : Demodulator ℤ
listening = start_modems radio 3 unstarted

listening-IsRunning : IsRunning radio listening
listening-IsRunning = record { focus = refl; on = refl; tuned_modem = (nfm, refl) }

wide : pos 0 <ℤ half (pos 2_048_000)
unfolding half
wide = omega arith

high : half (pos 2_048_000) ≤ℤ pos 162_400_000
unfolding half
high = omega arith

set_frequency-Covers_example :
    (d' : Demodulator ℤ) × (set_frequency radio (pos 162_400_000) listening ≡ ok (true, d'))
    × (d'.current_freq ≡ pos 162_400_000)
    × Covers radio d' (pos 162_400_000)
set_frequency-Covers_example =
    set_frequency-Covers radio (pos 162_400_000) listening listening-IsRunning wide high

set_modem_lags_example :
    (d1 d2 : Demodulator ℤ) × (set_modem radio am_mode listening ≡ ok (true, d1))
    × (set_frequency radio (pos 118_300_000) d1 ≡ ok (true, d2))
    × (d2.current ≡ am_mode)
    × (last_frequency nfm d2.log ≡ some (pos 118_300_000))
    × (last_frequency am_mode d2.log ≡ last_frequency am_mode listening.log)
set_modem_lags_example =
    set_modem_lags radio am_mode (pos 118_300_000) listening listening-IsRunning refl refl refl
