-- ===== src/Config/StateFile.antt =====
-- The saved state read back from its file.
use pi_scan.Base.{
  ◌≡◌, refl, sym, ◌∙◌, ap, ℤ, pos, negsuc, ◌≤ℤ◌, leb_ℤ, ◌&&◌, true, List, [], ◌∷◌, ◌++◌, map, some,
  arith, All,
}
use mathlib.Core.List.{append_assoc, append-nil}
use pi_scan.Numbers.{stoi}
use pi_scan.Numbers.RoundTrip.{stoi-to_string}
use pi_scan.Scan.Tree.{FitsInt}
use pi_scan.Config.Tree.{Keys, PathTree, apart, get_int, read_with}
use pi_scan.Config.Puts.{Puts, lookup, clear, get-puts, read_int, read_text}
use pi_scan.Config.Saving.{
  state_path, ConfigState, load_index, load_hold_index, load_scanner_state, save_scanner_state,
  load_demod_state, save_demod_state, load_state, save_state,
}
use pi_scan.Config.{auto_gain, scan_number, scan_state_of}
use pi_scan.Scanner.{ScanState, scan_state, hold_state, manual_state, other_number, SavedState}

fits-leb : (n : ℤ) → FitsInt n → leb_ℤ (negsuc 0x7fff_ffff) n && leb_ℤ n (pos 0x7fff_ffff) ≡ true
fits-leb n f = ground (arith, f.above, f.below)

-- A number that stands for none of the three states.
abbrev pub IsNumbered : ScanState → Type 0
IsNumbered (other_number n) = FitsInt n × (scan_state_of n ≡ other_number n)
IsNumbered _ = Unit

scan_number-FitsInt : (s : ScanState) → IsNumbered s → FitsInt (scan_number s)
scan_number-FitsInt scan_state h = record { above = omega arith; below = omega arith }
scan_number-FitsInt hold_state h = record { above = omega arith; below = omega arith }
scan_number-FitsInt manual_state h = record { above = omega arith; below = omega arith }
scan_number-FitsInt (other_number n) h = h.0

scan_state_of-number : (s : ScanState) → IsNumbered s → scan_state_of (scan_number s) ≡ s
scan_state_of-number scan_state h = refl
scan_state_of-number hold_state h = refl
scan_state_of-number manual_state h = refl
scan_state_of-number (other_number n) h = h.1

module _ (P : PathTree) where
  open P use {Tree, empty, get, put, put_child, print_int, print_float, of_int}

  load-index :
      (is done : List ℤ)
      → All FitsInt is
      → load_index P (map (λ i. put [] (print_int i) empty) is) done ≡ done ++ is
  unfolding load_index
  load-index [] done h = sym (append-nil done)
  load-index (i ∷ is) done h =
      let text : stoi (P.data_of (put [] (print_int i) empty)) ≡ some i =
        ap stoi (P.data-put (print_int i) empty ∙ P.print_int-to_string i)
        ∙ stoi-to_string i (fits-leb i h.0) in
      rw (text, load_index) (load-index is (done ++ i ∷ []) h.1 ∙ append_assoc done (i ∷ []) is)

  abbrev pub IsWhole : P.Float → Type 0
  IsWhole x = (n : ℤ) × (x ≡ of_int n) × (negsuc 0xff_ffff ≤ℤ n) × (n ≤ℤ pos 0x100_0000)

  -- What the file can hold of the state.
  pub record IsSaved (s : ConfigState P) : Type 0 where
    pub numbered : IsNumbered s.scanner_state.scan_state_saved
    pub frequency_fits : FitsInt s.scanner_state.manual_freq
    pub index_fits : All FitsInt s.scanner_state.hold_index_saved
    pub whole_gain : IsWhole s.demod_state.gain
    pub whole_squelch : IsWhole s.demod_state.squelch

  -- The calls of `put` that a save makes, latest first.
  abbrev saved_puts : ConfigState P → Puts
  saved_puts s =
      (state_path "scanner" "hold_key", s.scanner_state.hold_key)
      ∷ (state_path "scanner" "manual_mode", s.scanner_state.manual_modulation)
      ∷ (state_path "scanner" "manual_freq", print_int s.scanner_state.manual_freq)
      ∷ (state_path "scanner" "state", print_int (scan_number s.scanner_state.scan_state_saved))
      ∷ (state_path "demod" "squelch", print_float s.demod_state.squelch)
      ∷ (state_path "demod" "gain", print_float s.demod_state.gain)
      ∷ []

  get-save_state :
      (s : ConfigState P) (t : Tree) (p : Keys)
      → apart (state_path "scanner" "hold_index") p ≡ true
      → clear p (saved_puts s) ≡ true
      → get p (save_state P s t) ≡ lookup p (saved_puts s) (get p t)
  unfolding save_state save_scanner_state save_demod_state
  get-save_state s t p far ready =
      P.get-put_child_apart p (state_path "scanner" "hold_index") _ _ far
      ∙ get-puts P p (saved_puts s) t ready

  get_child-save_state :
      (s : ConfigState P) (t : Tree)
      → P.get_child (state_path "scanner" "hold_index") (save_state P s t)
        ≡ some (map (λ i. put [] (print_int i) empty) s.scanner_state.hold_index_saved)
  unfolding save_state save_scanner_state
  get_child-save_state s t = P.get_child-put_child_self _ _ _

  read_whole :
      (p : Keys) (d : ℤ) (x : P.Float) (t : Tree)
      → IsWhole x
      → get p t ≡ some (print_float x)
      → of_int (get_int P p d t) ≡ x
  read_whole p d x t (n, e, lo, hi) h =
      rw (h, read_with, ap (λ y. P.parse_int (print_float y)) e ∙ P.parse-print_float n lo hi)
        (sym e)

  load_demod_state-save :
      (s : ConfigState P) (t : Tree)
      → IsSaved s
      → load_demod_state P (save_state P s t) ≡ s.demod_state
  unfolding load_demod_state
  load_demod_state-save s t h = cc (
    read_whole (state_path "demod" "gain") auto_gain s.demod_state.gain (save_state P s t)
        h.whole_gain (get-save_state s t (state_path "demod" "gain") refl refl),
    read_whole (state_path "demod" "squelch") (pos 0) s.demod_state.squelch (save_state P s t)
        h.whole_squelch (get-save_state s t (state_path "demod" "squelch") refl refl),
  )

  load_scanner_state-save :
      (s : ConfigState P) (t : Tree) (s₀ : SavedState)
      → IsSaved s
      → s₀.hold_index_saved ≡ []
      → load_scanner_state P (save_state P s t) s₀ ≡ s.scanner_state
  unfolding load_scanner_state
  load_scanner_state-save s t s₀ h fresh = cc (
    ap scan_state_of (
          read_int P (state_path "scanner" "state") (pos 0) _ (save_state P s t)
            (get-save_state s t (state_path "scanner" "state") refl refl)
            (scan_number-FitsInt _ h.numbered))
        ∙ scan_state_of-number _ h.numbered,
    read_int P (state_path "scanner" "manual_freq") (pos 100_000_000) _ (save_state P s t)
        (get-save_state s t (state_path "scanner" "manual_freq") refl refl) h.frequency_fits,
    read_text P (state_path "scanner" "manual_mode") "" _ (save_state P s t)
        (get-save_state s t (state_path "scanner" "manual_mode") refl refl),
    ap (λ c. load_hold_index P c s₀.hold_index_saved) (get_child-save_state s t)
        ∙ (ap (load_index P _) fresh ∙ load-index s.scanner_state.hold_index_saved [] h.index_fits),
    read_text P (state_path "scanner" "hold_key") "" _ (save_state P s t)
        (get-save_state s t (state_path "scanner" "hold_key") refl refl),
  )

  -- What `saveAll` writes `loadAll` reads back into a state whose saved index is empty, where the
  -- frequency and the numbers fit an `int` and the gain and the squelch are whole numbers of at most
  -- 2^24.
  pub load_state-save :
      (s : ConfigState P) (t : Tree) (s₀ : ConfigState P)
      → IsSaved s
      → s₀.scanner_state.hold_index_saved ≡ []
      → load_state P (save_state P s t) s₀ ≡ s
  unfolding load_state
  load_state-save s t s₀ h fresh =
      cc (load_demod_state-save s t h, load_scanner_state-save s t s₀.scanner_state h fresh)

  -- A manual frequency that does not fit an `int` is read back as 100 MHz, whatever else is saved.
  pub load_state-wide :
      (s : ConfigState P) (t : Tree) (s₀ : ConfigState P)
      → ¬ FitsInt s.scanner_state.manual_freq
      → (load_state P (save_state P s t) s₀).scanner_state.manual_freq ≡ pos 100_000_000
  unfolding load_state load_scanner_state
  load_state-wide s t s₀ wide =
      rw
        (
          get-save_state s t (state_path "scanner" "manual_freq") refl refl,
          read_with,
          P.parse-print_int_wide s.scanner_state.manual_freq wide,
        )
        refl
