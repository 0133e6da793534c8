-- ===== src/Tuner/Kept.antt =====
-- The device that is started is one that enumerateDevices has kept.
use pi_scan.Base.{
  ℕ, zero, suc, ◌<◌, ◌≡◌, sym, ap, ◌∙◌, String, List, [], ◌∷◌, Option, none, some, arith, length,
  get_elem?, All, Bool, true, not, ◌||◌, if◌then◌else◌, if-elim,
}
use mathlib.Core.Bool.{false≢true}
use text.Mathlib.Text.{◌==◌ as str_eq}
use pi_scan.Tuner.{Device, TunerConfig, put_device, keep_devices, find_device, find_known}

-- What enumerateDevices keeps: no sound cards, and nothing without a name.
abbrev pub is_tuner : Device → Bool
is_tuner d = not (str_eq d.driver "audio" || str_eq d.name "")

module _ {ℓ} (Q : Device → Type ℓ) where
  put_device-All :
      (name : String) (d : Device) (devs : List (String × Device))
      → Q d
      → All (λ p. Q p.1) devs
      → All (λ p. Q p.1) (put_device name d devs)
  put_device-All name d [] q h = (q, tt)
  put_device-All name d ((n, e) ∷ devs) q h =
      if-elim (All (λ p. Q p.1)) (str_eq n name) ((n, d) ∷ devs) ((n, e) ∷ put_device name d devs)
        (λ _. (q, h.1)) (λ _. (h.0, put_device-All name d devs q h.1))

  pub keep_devices-All :
      (ds : List Device) (devs : List (String × Device))
      → All (λ d. is_tuner d ≡ true → Q d) ds
      → All (λ p. Q p.1) devs
      → All (λ p. Q p.1) (keep_devices ds devs)
  keep_devices-All [] devs q h = h
  keep_devices-All (d ∷ ds) devs q h =
      if-elim (All (λ p. Q p.1)) (str_eq d.driver "audio" || str_eq d.name "")
        (keep_devices ds devs) (keep_devices ds (put_device d.name d devs))
        (λ _. keep_devices-All ds devs q.1 h)
        (λ e.
          keep_devices-All ds (put_device d.name d devs) q.1
            (put_device-All d.name d devs (q.0 (ap not e)) h))

  -- What holds of a device, if one was found, for a saved tuner or not.
  abbrev FoundIs : Option Device → Type ℓ
  FoundIs none = Unit
  FoundIs (some d) = Q d

  abbrev pub KnownIs {κ} : (TunerConfig → Type κ) → Option (TunerConfig × Device) → Type (ℓ ⊔ κ)
  KnownIs P none = Unit
  KnownIs P (some (t, d)) = P t × Q d

  find_device-FoundIs :
      (name : String) (devs : List (String × Device))
      → All (λ p. Q p.1) devs
      → FoundIs (find_device name devs)
  find_device-FoundIs name [] h = tt
  find_device-FoundIs name ((n, x) ∷ devs) h =
      if-elim FoundIs (str_eq n name) (some x) (find_device name devs) (λ _. h.0)
        (λ _. find_device-FoundIs name devs h.1)

  module _ {κ} (P : TunerConfig → Type κ) where
    available_or :
        (t : TunerConfig) (o : Option Device) (rest : Option (TunerConfig × Device))
        → P t
        → FoundIs o
        → KnownIs P rest
        → KnownIs P (elim o [ none ↦ rest | some d ↦ if d.available then some (t, d) else rest ])
    available_or t none rest p q h = h
    available_or t (some d) rest p q h =
        if-elim (KnownIs P) d.available (some (t, d)) rest (λ _. (p, q)) (λ _. h)

    pub find_known-KnownIs :
        (devs : List (String × Device)) (tuners : List TunerConfig)
        → All P tuners
        → All (λ p. Q p.1) devs
        → KnownIs P (find_known devs tuners)
    unfolding find_known
    find_known-KnownIs devs [] p h = tt
    find_known-KnownIs devs (u ∷ tuners) p h =
        available_or u (find_device u.descriptor devs) (find_known devs tuners) p.0
          (find_device-FoundIs u.descriptor devs h) (find_known-KnownIs devs tuners p.1 h)

put_device-some :
    (name : String) (d : Device) (devs : List (String × Device))
    → 0 < length (put_device name d devs)
put_device-some name d [] = omega arith
put_device-some name d ((n, e) ∷ devs) =
    if-elim (λ l. 0 < length l) (str_eq n name) ((n, d) ∷ devs) ((n, e) ∷ put_device name d devs)
      (λ _. omega arith) (λ _. omega arith)

keep_devices-more :
    (ds : List Device) (devs : List (String × Device))
    → 0 < length devs
    → 0 < length (keep_devices ds devs)
keep_devices-more [] devs h = h
keep_devices-more (d ∷ ds) devs h =
    if-elim (λ l. 0 < length l) (str_eq d.driver "audio" || str_eq d.name "") (keep_devices ds devs)
      (keep_devices ds (put_device d.name d devs)) (λ _. keep_devices-more ds devs h)
      (λ _. keep_devices-more ds (put_device d.name d devs) (put_device-some d.name d devs))

-- A tuner among the devices is not lost.
pub keep_devices-some :
    (ds : List Device) (devs : List (String × Device)) (k : ℕ) (d : Device)
    → get_elem? ds k ≡ some d
    → is_tuner d ≡ true
    → 0 < length (keep_devices ds devs)
keep_devices-some [] devs k d at_ tuner = cc
keep_devices-some (x ∷ ds) devs zero d at_ tuner =
    let same : x ≡ d = cc in
    if-elim (λ l. 0 < length l) (str_eq x.driver "audio" || str_eq x.name "") (keep_devices ds devs)
      (keep_devices ds (put_device x.name x devs))
      (λ skipped. absurd (false≢true (sym (ap not skipped) ∙ ap is_tuner same ∙ tuner)))
      (λ _. keep_devices-more ds (put_device x.name x devs) (put_device-some x.name x devs))
keep_devices-some (x ∷ ds) devs (suc k) d at_ tuner =
    if-elim (λ l. 0 < length l) (str_eq x.driver "audio" || str_eq x.name "") (keep_devices ds devs)
      (keep_devices ds (put_device x.name x devs)) (λ _. keep_devices-some ds devs k d at_ tuner)
      (λ _. keep_devices-some ds (put_device x.name x devs) k d at_ tuner)

-- One of the devices that CubicSDR reports, which is a tuner.
abbrev pub Reported : List Device → Device → Type 0
Reported ds d = (k : ℕ) × (get_elem? ds k ≡ some d) × (is_tuner d ≡ true)
