-- ===== src/Demodulator/Span.antt =====
-- setFrequency of Demodulator.cpp: the tuner covers the frequency.
use pi_scan.Base.{
  ◌≡◌, refl, ◌∙◌, ℤ, pos, half, abs, ◌-ℤ◌, ◌<ℤ◌, ◌≤ℤ◌, true, ◌∷◌, ok, arith, Bool-cases, inl, inr,
}
use pi_scan.Scan.Entry.{Modulation}
use pi_scan.Demodulator.Cubic.{Cubic, modem_frequency, tune, clamp}
use pi_scan.Demodulator.Control.{Demodulator, call, retune, out_of_span, set_frequency}
use pi_scan.Demodulator.Focus.{IsRunning, set_frequency_by}

abs_self : (a : ℤ) → abs (a -ℤ a) ≡ 0
unfolding abs ◌-ℤ◌
abs_self a = ground arith

in_reach : (rate f : ℤ) → half rate ≤ℤ f → clamp rate f ≡ f
in_reach rate f h = ground (arith, h)

module _ (C : Cubic) where
  -- The tuner is near enough to a frequency to cover it.
  abbrev pub Covers : Demodulator C.Float → ℤ → Type 0
  Covers d freq = pos (abs (C.frequency d.log -ℤ freq)) <ℤ half (C.sample_rate d.log)

  retune-Covers :
      (freq : ℤ) (d : Demodulator C.Float)
      → pos 0 <ℤ half (C.sample_rate d.log)
      → half (C.sample_rate d.log) ≤ℤ freq
      → Covers (retune C freq d) freq
  retune-Covers freq d wide high = elim (Bool-cases (out_of_span C freq d.log)) [
    | inr near ↦ rw (near) (ground (arith, near))
    | inl far ↦
        let same : C.frequency (tune freq ∷ d.log) ≡ freq =
          C.frequency-tune freq d.log ∙ in_reach (C.sample_rate d.log) freq high in
        rw (far, same, abs_self freq, C.sample_rate-call (tune freq) d.log) wide
  ]

  -- A call of a modem's frequency leaves the tuner alone.
  modem_frequency-Covers :
      (m : Modulation) (f freq : ℤ) (d : Demodulator C.Float)
      → Covers d freq
      → Covers (call C (modem_frequency m f) d) freq
  modem_frequency-Covers m f freq d h =
      rw
        (
          C.frequency-other (modem_frequency m f) d.log refl,
          C.sample_rate-call (modem_frequency m f) d.log,
        )
        h

  -- On a running demodulator setFrequency succeeds for every frequency that is at least half the
  -- sample rate, which is not zero: behind it the tuner, moved or not, is less than half the sample
  -- rate away from the frequency, and the demodulator remembers it.
  pub set_frequency-Covers :
      (freq : ℤ) (d : Demodulator C.Float)
      → IsRunning C d
      → pos 0 <ℤ half (C.sample_rate d.log)
      → half (C.sample_rate d.log) ≤ℤ freq
      → (d' : Demodulator C.Float) × (set_frequency C freq d ≡ ok (true, d'))
        × (d'.current_freq ≡ freq)
        × Covers d' freq
  set_frequency-Covers freq d h wide high =
      let m : Modulation = h.tuned_modem.0 in
      let d1 : Demodulator C.Float = call C (modem_frequency m freq) d in
      let d2 : Demodulator C.Float = retune C freq d1 in
      let rate : C.sample_rate d1.log ≡ C.sample_rate d.log =
        C.sample_rate-call (modem_frequency m freq) d.log in
      let covered : Covers d2 freq = retune-Covers freq d1 (rw (rate) wide) (rw (rate) high) in
      (
        record (call C (modem_frequency m freq) d2) { current_freq = freq },
        set_frequency_by C freq d m h.tuned_modem.1,
        refl,
        modem_frequency-Covers m freq freq d2 covered,
      )
