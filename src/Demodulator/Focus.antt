-- ===== src/Demodulator/Focus.antt =====
-- A demodulator whose modem has the focus of CubicSDR: which modem setModem leaves current, and what
-- setFrequency does.
use pi_scan.Base.{◌≡◌, refl, ap, ◌∙◌, ℤ, true, false, ◌∷◌, some, ok, if-elim, Bool-cases, inl, inr}
use pi_scan.Scan.Entry.{Modulation, nfm, am_mode, wide_fm}
use pi_scan.Scan.Rotation.{or_undefined}
use pi_scan.Demodulator.Cubic.{
  Cubic, same_modulation, modem_frequency, modem_active, make_active, tune,
}
use pi_scan.Demodulator.Control.{Demodulator, retune, the_modem, call, set_frequency, out_of_span}

pub same_modulation_refl : (m : Modulation) → same_modulation m m ≡ true
same_modulation_refl nfm = refl
same_modulation_refl wide_fm = refl
same_modulation_refl am_mode = refl

pub same_modulation-eq : (m k : Modulation) → same_modulation m k ≡ true → m ≡ k
same_modulation-eq nfm nfm h = refl
same_modulation-eq wide_fm wide_fm h = refl
same_modulation-eq am_mode am_mode h = refl
same_modulation-eq nfm wide_fm h = cc
same_modulation-eq nfm am_mode h = cc
same_modulation-eq wide_fm nfm h = cc
same_modulation-eq wide_fm am_mode h = cc
same_modulation-eq am_mode nfm h = cc
same_modulation-eq am_mode wide_fm h = cc

pub same_modulation_swap :
    (m k : Modulation) → same_modulation m k ≡ false → same_modulation k m ≡ false
same_modulation_swap m k h = elim (Bool-cases (same_modulation k m)) [
  | inl same ↦ absurd (cc (same_modulation-eq k m same, same_modulation_refl m, h))
  | inr other ↦ other
]

module _ (C : Cubic) where
  -- The modem of the demodulator has the focus of CubicSDR and is active, and some modem is current.
  pub record IsRunning (d : Demodulator C.Float) : Type 0 where
    pub focus : C.context_modem d.log ≡ some d.current
    pub on : C.active d.current d.log ≡ true
    pub tuned_modem : (m : Modulation) × (C.current_modem d.log ≡ some m)

  -- Behind the switch the modem that had the focus is the current one.
  pub current_left :
      (mode : Modulation) (d : Demodulator C.Float)
      → same_modulation d.current mode ≡ false
      → IsRunning d
      → C.current_modem (make_active mode ∷ modem_active mode true ∷ d.log) ≡ some d.current
  current_left mode d other h =
      let log = modem_active mode true ∷ d.log in
      let focus : C.context_modem log ≡ some d.current = C.context-activate mode d.log ∙ h.focus in
      let on : C.active d.current log ≡ true =
        C.active-activate d.current mode d.log other ∙ h.on in
      C.current-make mode log ∙ rw (focus, on) refl

  retune-current :
      (freq : ℤ) (d : Demodulator C.Float)
      → C.current_modem (retune C freq d).log ≡ C.current_modem d.log
  retune-current freq d =
      if-elim (λ (x : Demodulator C.Float). C.current_modem x.log ≡ C.current_modem d.log)
        (out_of_span C freq d.log) (call C (tune freq) d) d
        (λ far. C.current-other (tune freq) d.log refl) (λ near. refl)

  -- setFrequency on a demodulator with a current modem.
  pub set_frequency_by :
      (freq : ℤ) (d : Demodulator C.Float) (m : Modulation)
      → C.current_modem d.log ≡ some m
      → set_frequency C freq d
        ≡ ok (
          true,
          record (call C
              (modem_frequency m freq)
              (retune C freq (call C (modem_frequency m freq) d))) { current_freq = freq },
        )
  unfolding set_frequency
  set_frequency_by freq d m h =
      let d1 : Demodulator C.Float = call C (modem_frequency m freq) d in
      let first : the_modem C d ≡ ok m = ap or_undefined h in
      let second : the_modem C (retune C freq d1) ≡ ok m =
        ap or_undefined
          (retune-current freq d1 ∙ (C.current-other (modem_frequency m freq) d.log refl ∙ h)) in
      rw (first, second) refl
