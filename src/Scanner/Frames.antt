-- ===== src/Scanner/Frames.antt =====
-- What the helpers of the state functions leave alone.
use pi_scan.Base.{
  ℤ, Option, Post, bind-Post, bind_any-Post, if-Post, not, length, get_elem?, ◌≡◌, refl, Bool, true,
  false, ◌&&◌, ◌||◌, List, [], ◌∷◌, some, ok, undefined, out_of_fuel, Outcome, ◌==◌, arith, ℕ, zero,
  suc,
}
use pi_scan.Scan.Entry.{Entry, is_dummy}
use pi_scan.Scan.Bins.{SystemList}
use pi_scan.Scan.Rotation.{or_undefined, get_next_entry, get_entry_by_index}
use pi_scan.Scanner.{
  ScannerContext, Effect, squelch_break, Scanner, Env, the_entry, entry_tags, entry_context,
  is_scanning, clear_fields, broadcast_context_update,
}
use pi_scan.Scanner.States.{broadcast_if, scan_entry, index_hold, leave_dummies, check_signal}

-- Is the audio open, by the latest of the calls?
abbrev pub audio_open : List Effect → Bool
audio_open [] = false
audio_open (squelch_break b ∷ es) = b
audio_open (_ ∷ es) = audio_open es

-- The parts of the scanner that the search for an entry and a broadcast leave as they were.
pub record Frame (s t : Scanner) : Type 0 where
  pub machine_kept : t.machine ≡ s.machine
  pub state_kept : t.context.state ≡ s.context.state
  pub audio_kept : audio_open t.effects ≡ audio_open s.effects
  pub manual_kept : t.manual_mode ≡ s.manual_mode
  pub hold_kept : t.external_hold ≡ s.external_hold
  pub hits_kept : t.squelch_hits ≡ s.squelch_hits
  pub saved_kept : t.saved ≡ s.saved

pub Frame-refl : (s : Scanner) → Frame s s
Frame-refl s = ground arith

-- What the search for an entry may change.
search-Frame :
    (s : Scanner) (l : SystemList) (e : Option Entry) (index : List ℤ) (es : List Effect)
    → audio_open es ≡ audio_open s.effects
    → Frame s (record s { systems = l; current_entry = e; hold_index = index; effects = es })
search-Frame s l e index es h = record {
  machine_kept = refl;
  state_kept = refl;
  audio_kept = h;
  manual_kept = refl;
  hold_kept = refl;
  hits_kept = refl;
  saved_kept = refl;
}

pub Frame-trans : {s t u : Scanner} → Frame s t → Frame t u → Frame s u
Frame-trans f g = ground arith

weaken-Frame :
    (s t : Scanner) (n : Outcome Scanner) → Frame s t → Post (Frame t) n → Post (Frame s) n
weaken-Frame s t (ok u) g p = Frame-trans g p
weaken-Frame s t undefined g p = tt
weaken-Frame s t out_of_fuel g p = tt

abbrev SameState : ScannerContext → ScannerContext → Type 0
SameState c d = d.state ≡ c.state

entry_tags-state :
    (s : Scanner) (e : Entry) (c : ScannerContext) → Post (SameState c) (entry_tags s e c)
entry_tags-state s e c =
    if-Post _ s.manual_mode _ _ (λ _. refl)
      (λ _. bind_any-Post _ (or_undefined (get_elem? s.systems.systems e.sys_index)) _ (λ _. refl))

entry_context-state : (s : Scanner) (c : ScannerContext) → Post (SameState c) (entry_context s c)
unfolding entry_context
entry_context-state s c =
    bind_any-Post _ (the_entry s) _
      (λ e. bind-Post (SameState c) _ (entry_tags s e c) _ (entry_tags-state s e c) (λ d h. h))

pub broadcast-Frame : (s : Scanner) → Post (Frame s) (broadcast_context_update s)
unfolding broadcast_context_update clear_fields
broadcast-Frame s =
    bind-Post (SameState s.context) _ _ _
      (if-Post _ (is_scanning s.context.state) _ _ (λ _. refl)
        (λ _. entry_context-state s s.context))
      (λ c h. record {
        machine_kept = refl;
        state_kept = h;
        audio_kept = refl;
        manual_kept = refl;
        hold_kept = refl;
        hits_kept = refl;
        saved_kept = refl;
      })

pub broadcast_if-Frame : (b : Bool) (s : Scanner) → Post (Frame s) (broadcast_if b s)
broadcast_if-Frame true s = broadcast-Frame s
broadcast_if-Frame false s = Frame-refl s

pub scan_entry-Frame :
    (env : Env) (moved : Bool) (s : Scanner) → Post (Frame s) (scan_entry env moved s)
scan_entry-Frame env moved s =
    if-Post _ ((s.squelch_hits == 0) || moved) _ _
      (λ _.
        bind_any-Post _ (get_next_entry env.fuel s.systems) _
          (λ r. search-Frame s r.1 (some r.0) s.hold_index s.effects refl))
      (λ _. Frame-refl s)

pub index_hold-Frame : (env : Env) (s : Scanner) → Post (λ r. Frame s r.0) (index_hold env s)
index_hold-Frame env s =
    if-Post _ (s.external_hold && not (length s.hold_index == 0)) _ _
      (λ _.
        bind_any-Post _ (get_entry_by_index env.fuel s.systems s.hold_index) _
          (λ r. search-Frame s r.1 (some r.0) [] s.effects refl))
      (λ _. Frame-refl s)

pub leave_dummies-Frame :
    (fuel : ℕ) (env : Env) (s : Scanner) → Post (Frame s) (leave_dummies fuel env s)
unfolding leave_dummies
leave_dummies-Frame zero env s = tt
leave_dummies-Frame (suc fuel) env s = bind_any-Post _ (the_entry s) _ (λ e.
    if-Post _ (is_dummy e) _ _
      (λ _. bind_any-Post _ (get_next_entry env.fuel s.systems) _ (λ r.
        weaken-Frame s _ _
          (search-Frame s r.1 (some r.0) s.hold_index (check_signal e s).effects refl)
          (leave_dummies-Frame fuel env
            (record (check_signal e s) { systems = r.1; current_entry = some r.0 }))))
      (λ _. Frame-refl s))
