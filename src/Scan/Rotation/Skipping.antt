-- ===== src/Scan/Rotation/Skipping.antt =====
-- The loop of `getNextEntry` that passes over the bins that are locked out.
use native.Mathlib.Nat.{mod-eq_of_lt, mod_self}
use pi_scan.Base.{
  ℕ, zero, suc, ◌+◌, ◌%◌, ◌<◌, ◌≤◌, ◌≡◌, ◌≢◌, ◌∙◌, ap, List, [], ◌∷◌, some, arith, true, false,
  Bool-cases, ◌⊎◌, ◌==◌, leb, inl, inr, ok, Outcome, get_elem?, get_elem?-some, length,
}
use pi_scan.Scan.Bins.{EntryBin, entries_locked_out}
use pi_scan.Scan.Rotation.{skip_locked}

pub next-inside : (m n : ℕ) → m + 1 < n → (m + 1) % n ≡ m + 1
next-inside m n h = mod-eq_of_lt h

pub next-wraps : (m n : ℕ) → m + 1 ≡ n → (m + 1) % n ≡ 0
next-wraps m n h = ap (λ x. x % n) h ∙ mod_self n

pub get_elem?-lt {ℓ} :
    {A : Type ℓ} (xs : List A) (i : ℕ) {x : A} → get_elem? xs i ≡ some x → i < length xs
get_elem?-lt [] i h = absurd (cc)
get_elem?-lt (x ∷ xs) zero h = omega arith
get_elem?-lt (x ∷ xs) (suc i) h = omega (arith, get_elem?-lt xs i h)

-- The loop ends at a bin that is not locked out.
pub record Skips (bins : List EntryBin) (r : Outcome ℕ) : Type 0 where
  pub index : ℕ
  pub bin : EntryBin
  pub ends : r ≡ ok index
  pub found : get_elem? bins index ≡ some bin
  pub open_ : entries_locked_out bin ≡ false

-- One turn of the loop.
turn :
    (fuel : ℕ) (bins : List EntryBin) (m : ℕ)
    → m < length bins
    → (Skips bins (skip_locked (suc fuel) bins m))
      ⊎ ((b : EntryBin) × (get_elem? bins m ≡ some b)
          × (entries_locked_out b ≡ true)
          × (skip_locked (suc fuel) bins m ≡ skip_locked fuel bins ((m + 1) % length bins)))
turn fuel bins m h =
    let (b, found) = get_elem?-some bins m h in
    elim (Bool-cases (entries_locked_out b)) [
      | inl locked ↦ inr (b, found, locked, unfold skip_locked in ground arith)
      | inr unlocked ↦ inl record {
        index = m;
        bin = b;
        ends = unfold skip_locked in ground arith;
        found = found;
        open_ = unlocked;
      }
    ]

carry : (bins : List EntryBin) {r s : Outcome ℕ} → r ≡ s → Skips bins s → Skips bins r
carry bins e h = record {
  index = h.index;
  bin = h.bin;
  ends = e ∙ h.ends;
  found = h.found;
  open_ = h.open_;
}

-- The open bin stands at or behind the current one.
go_up :
    (fuel : ℕ) (bins : List EntryBin) (m t : ℕ) (b : EntryBin)
    → get_elem? bins t ≡ some b
    → entries_locked_out b ≡ false
    → m ≤ t
    → t < m + fuel
    → Skips bins (skip_locked fuel bins m)
go_up zero bins m t b found open_ le lt = absurd (omega arith)
go_up (suc fuel) bins m t b found open_ le lt =
    let inside : t < length bins = get_elem?-lt bins t found in
    elim (turn fuel bins m (omega arith)) [
      | inl done ↦ done
      | inr (c, at, locked, goes) ↦
          let apart : m ≢ t = λ same. cc in
          carry bins
            (goes ∙ ap (skip_locked fuel bins) (next-inside m (length bins) (omega (arith, apart))))
            (go_up fuel bins (m + 1) t b found open_ (omega (arith, apart)) (omega arith))
    ]

-- The open bin stands before the current one, so that the loop comes round.
come_round :
    (fuel : ℕ) (bins : List EntryBin) (m t : ℕ) (b : EntryBin)
    → get_elem? bins t ≡ some b
    → entries_locked_out b ≡ false
    → m < length bins
    → length bins + t < m + fuel
    → Skips bins (skip_locked fuel bins m)
come_round zero bins m t b found open_ inside enough = absurd (omega arith)
come_round (suc fuel) bins m t b found open_ inside enough = elim (turn fuel bins m inside) [
  | inl done ↦ done
  | inr (c, at, locked, goes) ↦ elim (Bool-cases (m + 1 == length bins)) [
    | inl last_ ↦
        carry bins (goes ∙ ap (skip_locked fuel bins) (next-wraps m (length bins) (ground arith)))
          (go_up fuel bins 0 t b found open_ (omega arith) (ground arith))
    | inr more ↦
        carry bins (goes ∙ ap (skip_locked fuel bins) (next-inside m (length bins) (ground arith)))
          (come_round fuel bins (m + 1) t b found open_ (ground arith) (omega arith))
  ]
]

-- As many turns as there are bins are enough, where one of them is open.
pub skip_locked-Skips :
    (bins : List EntryBin) (m t : ℕ) (b : EntryBin)
    → m < length bins
    → get_elem? bins t ≡ some b
    → entries_locked_out b ≡ false
    → Skips bins (skip_locked (length bins) bins m)
skip_locked-Skips bins m t b inside found open_ =
    let below : t < length bins = get_elem?-lt bins t found in
    elim (Bool-cases (leb m t)) [
      | inl ahead ↦ go_up (length bins) bins m t b found open_ (ground arith) (omega arith)
      | inr behind ↦ come_round (length bins) bins m t b found open_ inside (ground arith)
    ]
