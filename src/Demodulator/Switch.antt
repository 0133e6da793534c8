-- ===== src/Demodulator/Switch.antt =====
-- setModem and setFrequency of Demodulator.cpp: which modem is tuned behind a switch.
use pi_scan.Base.{
  ◌≡◌, refl, ◌∙◌, ℤ, true, false, List, [], ◌∷◌, Option, none, some, ok, if-elim, if◌then◌else◌,
}
use pi_scan.Scan.Entry.{Modulation}
use pi_scan.Demodulator.Cubic.{
  Cubic, CubicCall, same_modulation, modem_frequency, modem_active, make_active, tune,
}
use pi_scan.Demodulator.Control.{
  Demodulator, mem, call, retune, out_of_span, set_frequency, set_modem,
}
use pi_scan.Demodulator.Focus.{
  IsRunning, current_left, set_frequency_by, same_modulation_refl, same_modulation_swap,
}

module _ {F : Type 0} where
  -- The last frequency that was set on a modem.
  abbrev pub last_frequency : Modulation → List (CubicCall F) → Option ℤ
  last_frequency m [] = none
  last_frequency m (modem_frequency k f ∷ log) =
      let rest = last_frequency m log in if same_modulation m k then some f else rest
  last_frequency m (_ ∷ log) = last_frequency m log

module _ (C : Cubic) where
  retune-mode : (freq : ℤ) (d : Demodulator C.Float) → (retune C freq d).current ≡ d.current
  retune-mode freq d =
      if-elim (λ (x : Demodulator C.Float). x.current ≡ d.current) (out_of_span C freq d.log)
        (call C (tune freq) d) d (λ far. refl) (λ near. refl)

  last_frequency-retune :
      (m : Modulation) (freq : ℤ) (d : Demodulator C.Float)
      → last_frequency m (retune C freq d).log ≡ last_frequency m d.log
  last_frequency-retune m freq d =
      if-elim (λ (x : Demodulator C.Float). last_frequency m x.log ≡ last_frequency m d.log)
        (out_of_span C freq d.log) (call C (tune freq) d) d (λ far. refl) (λ near. refl)

  -- A switch of the modem on a running demodulator leaves the modem that was left current in CubicSDR:
  -- setFrequency then sets the frequency of that one, and the modem that is now heard keeps the
  -- frequency that it had.
  pub set_modem_lags :
      (mode : Modulation) (freq : ℤ) (d : Demodulator C.Float)
      → IsRunning C d
      → same_modulation d.current mode ≡ false
      → mem mode d.modems ≡ true
      → mem d.current d.modems ≡ true
      → (d1 d2 : Demodulator C.Float) × (set_modem C mode d ≡ ok (true, d1))
        × (set_frequency C freq d1 ≡ ok (true, d2))
        × (d2.current ≡ mode)
        × (last_frequency d.current d2.log ≡ some freq)
        × (last_frequency mode d2.log ≡ last_frequency mode d.log)
  unfolding set_modem
  set_modem_lags mode freq d h other there here =
      let d1 : Demodulator C.Float = record d {
        current = mode;
        log = modem_active d.current false ∷ make_active mode ∷ modem_active mode true ∷ d.log;
      } in
      let left : C.current_modem d1.log ≡ some d.current =
        C.current-other (modem_active d.current false) _ refl ∙ current_left C mode d other h in
      let d2 : Demodulator C.Float = call C (modem_frequency d.current freq) d1 in
      let apart : same_modulation mode d.current ≡ false =
        same_modulation_swap d.current mode other in
      (
        d1,
        record (call C (modem_frequency d.current freq) (retune C freq d2)) { current_freq = freq },
        rw (other, there, here) refl,
        set_frequency_by C freq d1 d.current left,
        retune-mode freq d2,
        rw (same_modulation_refl d.current) refl,
        rw (apart) (last_frequency-retune mode freq d2 ∙ rw (apart) refl),
      )
