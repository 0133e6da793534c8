-- ===== src/Demodulator/Control.antt =====
-- Demodulator.h and Demodulator.cpp: the members of the demodulator and its operations. The sleeps
-- between the calls of CubicSDR are left out.
use pi_scan.Base.{
  ℕ, ◌==◌, ℤ, pos, negsuc, abs, half, ◌-ℤ◌, leb_ℤ, ltb_ℤ, Bool, true, false, ◌&&◌, not, List, [],
  ◌∷◌, Option, ok, undefined, out_of_fuel, Outcome, ◌>>=◌, if◌then◌else◌,
}
use pi_scan.Scan.Entry.{Modulation, nfm, am_mode}
use pi_scan.Scan.Rotation.{or_undefined}
use pi_scan.Demodulator.{output_rate}
use pi_scan.Demodulator.Cubic.{
  Cubic, CubicCall, same_modulation, new_modem, run_modem, modem_frequency, modem_muted,
  modem_active, make_active, tune, agc_mode, tuner_gain, on_exit,
}

-- What a client is told, and the answer to a request of one.
pub data Update (F : Type 0) : Type 0 where
  demod_context demod_context_reply : F → ℤ → Update F
  signal_level_update : ℤ → Update F

-- The log and the updates are latest first. `modems` are the keys of `_demods`.
pub record Demodulator (F : Type 0) : Type 0 where
  pub current : Modulation
  pub squelch_level : F
  pub current_freq : ℤ
  pub gain : F
  pub modems : List Modulation
  pub refresher : Bool
  pub device_rates : List (ℕ × ℕ)
  pub log : List (CubicCall F)
  pub updates : List (Update F)

-- A `ClientRequest` as `_handleRequest` reads it; the `int` may be missing.
pub data DemodRequest : Type 0 where
  set_squelch_request set_gain_request : Option ℤ → DemodRequest
  other_configuration context_request other_request : DemodRequest

-- `AUTO_GAIN` and `INIT_FREQUENCY`.
abbrev pub auto_gain_value : ℤ
auto_gain_value = negsuc 9

abbrev pub init_frequency : ℤ
init_frequency = pos 100_000_000

abbrev pub mem : Modulation → List Modulation → Bool
mem m [] = false
mem m (k ∷ ks) = let rest = mem m ks in if same_modulation m k then true else rest

-- `SQUELCH_SNR` and `SQUELCH_PCT`; any other number of `squelchType` compares the level.
abbrev pub squelch_snr : ℕ
squelch_snr = 1

abbrev pub squelch_pct : ℕ
squelch_pct = 2

abbrev pub is_number : ℕ → ℤ → Bool
is_number n (pos k) = k == n
is_number n (negsuc k) = false

abbrev pub is_auto : ℤ → Bool
is_auto (pos k) = false
is_auto (negsuc k) = k == 9

-- The rate of each output device, by its number.
unfoldable pub output_rates : List (ℕ × List ℕ) → Outcome (List (ℕ × ℕ))
unfolding output_rate
output_rates [] = ok []
output_rates ((n, srates) ∷ devs) = do
  rate ← output_rate srates
  rates ← output_rates devs
  ok ((n, rate) ∷ rates)

module _ (C : Cubic) where
  open C use {Float, of_int, to_int, is_below_zero, at_least, plus, minus, times, over, magnitude}

  abbrev pub call : CubicCall Float → Demodulator Float → Demodulator Float
  call c d = record d { log = c ∷ d.log }

  abbrev pub context_update : Demodulator Float → Demodulator Float
  context_update d = record d {
    updates = demod_context d.gain (to_int d.squelch_level) ∷ d.updates;
  }

  -- `_demodMgr.getCurrentModem()` and `getActiveContextModem()`, which may be null.
  abbrev pub the_modem : Demodulator Float → Outcome Modulation
  the_modem d = or_undefined (C.current_modem d.log)

  abbrev pub focused_modem : Demodulator Float → Outcome Modulation
  focused_modem d = or_undefined (C.context_modem d.log)

  abbrev pub start_modems : ℕ → Demodulator Float → Demodulator Float
  start_modems device d = record d {
    modems = am_mode ∷ nfm ∷ [];
    log =
        make_active nfm
        ∷ run_modem am_mode
        ∷ modem_frequency am_mode init_frequency
        ∷ modem_muted am_mode true
        ∷ new_modem am_mode "AM" 12_500 device
        ∷ modem_frequency nfm init_frequency
        ∷ run_modem nfm
        ∷ modem_muted nfm true
        ∷ new_modem nfm "NBFM" 12_500 device
        ∷ d.log;
  }

  -- `start`, given the saved squelch and gain, whether the device starts, and the output devices in
  -- the order of their numbers. A failed check aborts. The timer is created, but not started.
  unfoldable pub start :
      Float → Float → Bool → List (ℕ × List ℕ) → Demodulator Float → Outcome (Demodulator Float)
  unfolding output_rates
  start squelch gain started [] d = undefined
  start squelch gain started ((n, srates) ∷ devs) d =
      if started
      then (do
        rates ← output_rates ((n, srates) ∷ devs)
        ok (
            start_modems n (record d {
              squelch_level = squelch;
              gain = gain;
              device_rates = rates;
              refresher = false;
            })))
      else undefined

  -- `stop`, with the gain and the squelch that are saved.
  unfoldable pub stop : Demodulator Float → (Float × Float) × Demodulator Float
  stop d = ((d.gain, d.squelch_level), call on_exit (record d { refresher = false }))

  -- Whether the tuner does not cover the frequency.
  abbrev pub out_of_span : ℤ → List (CubicCall Float) → Bool
  out_of_span freq log = leb_ℤ (half (C.sample_rate log)) (pos (abs (C.frequency log -ℤ freq)))

  abbrev pub retune : ℤ → Demodulator Float → Demodulator Float
  retune freq d = if out_of_span freq d.log then call (tune freq) d else d

  unfoldable pub set_frequency : ℤ → Demodulator Float → Outcome (Bool × Demodulator Float)
  set_frequency freq d = do
    m ← the_modem d
    let d1 = call (modem_frequency m freq) d
    let d2 = retune freq d1
    m' ← the_modem d2
    ok (true, record (call (modem_frequency m' freq) d2) { current_freq = freq })

  unfoldable pub set_tuner_frequency : ℤ → Demodulator Float → Outcome (Bool × Demodulator Float)
  set_tuner_frequency freq d = do
    m ← the_modem (call (tune freq) d)
    ok (true, call (modem_frequency m freq) (call (tune freq) d))

  -- A modulation without a modem is a null pointer in the map.
  unfoldable pub set_modem : Modulation → Demodulator Float → Outcome (Bool × Demodulator Float)
  set_modem mode d =
      if same_modulation d.current mode
      then ok (true, d)
      else if mem mode d.modems && mem d.current d.modems
      then ok (
        true,
        record d {
          current = mode;
          log = modem_active d.current false ∷ make_active mode ∷ modem_active mode true ∷ d.log;
        },
      )
      else undefined

  unfoldable pub set_squelch : Float → Demodulator Float → Demodulator Float
  set_squelch level d = context_update (record d { squelch_level = level })

  unfoldable pub set_tuner_gain : Float → Demodulator Float → Demodulator Float
  set_tuner_gain gain d =
      if is_below_zero gain
      then context_update (record (call (agc_mode true) d) { gain = of_int auto_gain_value })
      else (let d' = call (tuner_gain gain) (call (agc_mode false) d) in
          context_update (record d' { gain = C.gain_of d'.log }))

  unfoldable pub squelch_break_demod : Bool → Demodulator Float → Outcome (Demodulator Float)
  squelch_break_demod mute d = do
    m ← the_modem d
    ok (call (modem_muted m (not mute)) (record d { refresher = mute }))

  unfoldable pub get_signal_level : Demodulator Float → Outcome Float
  get_signal_level d = do m ← focused_modem d; ok (C.level m d.log)

  unfoldable pub get_snr : Demodulator Float → Outcome Float
  get_snr d = do
    m ← focused_modem d
    ok (
        over (plus (of_int (pos 100)) (C.level m d.log))
          (plus (of_int (pos 100)) (C.floor m d.log)))

  -- In percent, at most 100.
  unfoldable pub get_signal_strength : Demodulator Float → Outcome ℤ
  get_signal_strength d = do
    m ← focused_modem d
    let signal = C.level m d.log
    let floor = C.floor m d.log
    let range = minus (of_int (pos 0)) floor
    let level = to_int (over (times (of_int (pos 100)) (minus signal floor)) range)
    ok (if ltb_ℤ (pos 100) level then pos 100 else level)

  -- The function of the timer.
  unfoldable pub refresh_level : Demodulator Float → Outcome (Demodulator Float)
  unfolding get_signal_strength
  refresh_level d = do
    level ← get_signal_strength d
    ok (record d { updates = signal_level_update level ∷ d.updates })

  unfoldable pub squelch_threshold_met : ℤ → Demodulator Float → Outcome Bool
  unfolding get_signal_strength get_signal_level
  squelch_threshold_met squelch_type d =
      if is_number squelch_pct squelch_type
      then (do strength ← get_signal_strength d; ok (at_least (of_int strength) d.squelch_level))
      else if is_number squelch_snr squelch_type
      then (do
        m ← focused_modem d
        ok (at_least (magnitude (minus (C.level m d.log) (C.floor m d.log))) d.squelch_level))
      else (do level ← get_signal_level d; ok (at_least level d.squelch_level))

  abbrev pub apply_gain : ℤ → Demodulator Float → Demodulator Float
  apply_gain n d =
      if is_auto n
      then record (call (agc_mode true) d) { gain = of_int n }
      else record (call (tuner_gain (of_int n)) (call (agc_mode false) d)) { gain = of_int n }

  -- A request without its number is read through a null pointer.
  unfoldable pub handle_request : DemodRequest → Demodulator Float → Outcome (Demodulator Float)
  handle_request (set_squelch_request data_) d = do
    n ← or_undefined data_
    ok (context_update (record d { squelch_level = of_int n }))
  handle_request (set_gain_request data_) d = do
    n ← or_undefined data_
    ok (context_update (apply_gain n d))
  handle_request other_configuration d = ok (context_update d)
  handle_request context_request d =
      ok (record d { updates = demod_context_reply d.gain (to_int d.squelch_level) ∷ d.updates })
  handle_request other_request d = ok d

  -- `_handleMessage` of an `OPEN_AUDIO` message, with its data as a Boolean.
  unfoldable pub handle_message : Bool → Demodulator Float → Outcome (Demodulator Float)
  handle_message muted d = do m ← the_modem d; ok (call (modem_muted m muted) d)

  -- A call of the demodulator from another part of the program.
  pub data DemodAction : Type 0 where
    sets_frequency sets_tuner_frequency : ℤ → DemodAction
    sets_modem : Modulation → DemodAction
    sets_squelch sets_gain : Float → DemodAction
    breaks_squelch mutes : Bool → DemodAction
    refreshes : DemodAction
    requests : DemodRequest → DemodAction

  abbrev pub after : Outcome (Bool × Demodulator Float) → Outcome (Demodulator Float)
  after (ok (b, d)) = ok d
  after undefined = undefined
  after out_of_fuel = out_of_fuel

  unfoldable pub demod_step : DemodAction → Demodulator Float → Outcome (Demodulator Float)
  unfolding set_frequency set_tuner_frequency set_modem set_squelch set_tuner_gain
      squelch_break_demod handle_message refresh_level handle_request
  demod_step (sets_frequency freq) d = after (set_frequency freq d)
  demod_step (sets_tuner_frequency freq) d = after (set_tuner_frequency freq d)
  demod_step (sets_modem mode) d = after (set_modem mode d)
  demod_step (sets_squelch level) d = ok (set_squelch level d)
  demod_step (sets_gain gain) d = ok (set_tuner_gain gain d)
  demod_step (breaks_squelch mute) d = squelch_break_demod mute d
  demod_step (mutes muted) d = handle_message muted d
  demod_step refreshes d = refresh_level d
  demod_step (requests rq) d = handle_request rq d

  unfoldable pub run_demod : List DemodAction → Demodulator Float → Outcome (Demodulator Float)
  unfolding demod_step
  run_demod [] d = ok d
  run_demod (a ∷ actions) d = do d' ← demod_step a d; run_demod actions d'
