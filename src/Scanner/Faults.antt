-- ===== src/Scanner/Faults.antt =====
-- Histories in which the scanner does not do what its source means it to.
use mathlib.Core.Path.{subst}
use pi_scan.Base.{
  ◌||◌, ◌≡◌, refl, sym, ap, true, false, List, [], ◌∷◌, none, some, ok, undefined, ◌<◌, ◌&&◌, ◌==◌,
  not, length, ℕ, zero, suc, get_elem?, Post, Post-ok, bind-Post, bind_any-Post, if-Post,
  if◌then◌else◌, arith, ℤ, pos,
}
use pi_scan.Machine.{external_event, take_event}
use pi_scan.Scan.System.{System}
use pi_scan.Scan.Rotation.{get_entry_by_index}
use pi_scan.Scan.Entry.{is_dummy, Entry, has_signal, is_locked_out}
use pi_scan.Scan.Rotation.Indexed.{get_entry_by_index-some}
use pi_scan.Scanner.{
  scan, receive, hold, Scanner, Env, go, the_entry, changed, set_context_state, receiving, holding,
  entry_context, entry_tags, is_scanning, ScannerContext, enable_audio_out,
  broadcast_context_update,
}
use pi_scan.Scanner.States.{
  leave_dummies, hold_check, index_hold, st_scan, st_hold, st_receive, st_manual, check_signal,
  broadcast_if,
}
use pi_scan.Scanner.Engine.{
  round, starts_scan, holds_scan, state_engine, step, run_actions, start_scan, start_scan_map,
  hold_scan_map, hold_scan,
}
use pi_scan.Scanner.Rounds.{step-Post, state_engine-Post}

-- With no system in the database, a start of the scan, in a state of a running scanner that lets
-- it start, ends in undefined behaviour two rounds later: the scan state hands a bare number to
-- the manual state, which reads it as manual entry data.
pub start_scan_empty :
    (env env' : Env) (s : Scanner)
    → s.machine.run ≡ true
    → start_scan_map s.machine.current_state ≡ some scan
    → s.systems.systems ≡ []
    → run_actions (starts_scan ∷ round env ∷ round env' ∷ []) s ≡ undefined
unfolding run_actions step start_scan state_engine st_scan st_manual
start_scan_empty env env' s running state empty = ground arith

abbrev AtManual : Entry → Scanner → Type 0
AtManual e t = (t.current_entry ≡ some e) × (t.manual_mode ≡ true)

leave_dummies-real :
    (fuel : ℕ) (env : Env) (s : Scanner) (e : Entry)
    → is_dummy e ≡ false
    → AtManual e s
    → Post (AtManual e) (leave_dummies fuel env s)
unfolding leave_dummies
leave_dummies-real zero env s e real at_e = tt
leave_dummies-real (suc fuel) env s e real at_e =
    rw (at_e.0, leave_dummies) (rw (real, leave_dummies) (refl, at_e.1))

-- What the round comes to.
abbrev StillManual : Entry → Scanner → Type 0
StillManual e t =
    (t.current_entry ≡ some e) × (t.manual_mode ≡ true) × (t.context.system_tag ≡ "Manual")

-- A broadcast in manual mode, outside a scan, shows a manual entry.
broadcast-manual :
    (s : Scanner) (e : Entry)
    → AtManual e s
    → s.context.state ≡ holding
    → Post (StillManual e) (broadcast_context_update s)
unfolding broadcast_context_update entry_context
broadcast-manual s e at_e shown =
    bind-Post Tagged _ _ _
      (if-Post Tagged (is_scanning s.context.state) _ _ (λ h. absurd (ground arith))
        (λ _. bind_any-Post Tagged (the_entry s) _ (λ e'.
          bind-Post Tagged Tagged (entry_tags s e' s.context) _
            (if-Post Tagged s.manual_mode _ _ (λ _. refl) (λ off. absurd (ground arith)))
            (λ c h. h))))
      (λ c h. (at_e.0, at_e.1, h))
  where
    Tagged : ScannerContext → Type 0
    Tagged c = c.system_tag ≡ "Manual"

index_hold-manual :
    (env : Env) (s : Scanner) (i j : ℕ) (system : System) (e : Entry)
    → s.external_hold ≡ true
    → s.manual_mode ≡ true
    → s.hold_index ≡ pos i ∷ pos j ∷ []
    → get_elem? s.systems.systems i ≡ some system
    → j < system.num_entries
    → get_elem? system.entries j ≡ some e
    → Post (λ r. AtManual e r.0 × (r.1 ≡ true)) (index_hold env s)
index_hold-manual env s i j system e held manual_ index found_ below entry_ =
    if-Post _ (s.external_hold && not (length s.hold_index == 0)) _ _
      (λ _.
        bind-Post (λ r. r.0 ≡ e) _ (get_entry_by_index env.fuel s.systems s.hold_index) _
          (rw
            (index, get_entry_by_index-some env.fuel s.systems i j [] system e found_ below entry_)
            refl)
          (λ r h. ((ap some h, manual_), refl)))
      (λ no_. absurd (ground arith))

hold_check-manual :
    (env : Env) (e' e : Entry) (s : Scanner) → StillManual e s → StillManual e (hold_check env e' s)
unfolding go
hold_check-manual env e' e s h = ground arith

st_hold-manual :
    (env : Env) (s : Scanner) (i j : ℕ) (system : System) (e : Entry)
    → s.external_hold ≡ true
    → s.manual_mode ≡ true
    → s.hold_index ≡ pos i ∷ pos j ∷ []
    → get_elem? s.systems.systems i ≡ some system
    → j < system.num_entries
    → get_elem? system.entries j ≡ some e
    → is_dummy e ≡ false
    → Post (StillManual e) (st_hold env s)
unfolding st_hold
st_hold-manual env s i j system e held manual_ index found_ below entry_ real =
    bind-Post (λ r. AtManual e r.0 × (r.1 ≡ true)) (StillManual e) _ _
      (index_hold-manual env s i j system e held manual_ index found_ below entry_)
      (λ r h.
        bind-Post (AtManual e) (StillManual e) _ _ (leave_dummies-real env.fuel env r.0 e real h.0)
          (λ t k.
            bind-Post (StillManual e) (StillManual e) _ _
              (if-Post (StillManual e) (changed s || r.1) _ _ (λ _. broadcast-manual _ e k refl)
                (λ no_. absurd (ground (arith, h.1))))
              (λ u m.
                bind_any-Post (StillManual e) (the_entry u) _
                  (λ e'. hold_check-manual env e' e u m))))

-- While the scanner holds, the call only leaves its request.
hold_scan-holding :
    (s : Scanner) (index : List ℤ)
    → s.machine.current_state ≡ hold
    → hold_scan index s ≡ record s { external_hold = true; hold_index = index }
unfolding hold_scan
hold_scan-holding s index holds =
    ap
      (λ x. record s {
        machine = external_event (hold_scan_map x) none s.machine;
        external_hold = true;
        hold_index = index;
      })
      holds

-- A hold by the index of an entry that is no dummy, which comes while a running scanner holds a
-- manual entry with an event pending: where the next round returns, it has moved to the indexed
-- entry and left the scanner in manual mode, with the tag of a manual entry shown.
pub hold_scan_manual :
    (env : Env) (s t : Scanner) (i j : ℕ) (system : System) (e : Entry)
    → s.machine.run ≡ true
    → s.machine.current_state ≡ hold
    → s.machine.event_generated ≡ true
    → s.manual_mode ≡ true
    → get_elem? s.systems.systems i ≡ some system
    → j < system.num_entries
    → get_elem? system.entries j ≡ some e
    → is_dummy e ≡ false
    → run_actions (holds_scan (pos i ∷ pos j ∷ []) ∷ round env ∷ []) s ≡ ok t
    → (t.current_entry ≡ some e) × (t.manual_mode ≡ true) × (t.context.system_tag ≡ "Manual")
unfolding run_actions step
hold_scan_manual env s t i j system e running holds pending manual_ found_ below entry_ real ran =
    Post-ok (StillManual e) asked ran
  where
    index : List ℤ
    index = pos i ∷ pos j ∷ []

    u : Scanner
    u = record s { external_hold = true; hold_index = index }

    held : Post (StillManual e) (run_actions (round env ∷ []) u)
    held =
        bind-Post (StillManual e) (StillManual e) (step (round env) u) _
          (step-Post (StillManual e) env u running (
            state_engine-Post (StillManual e) env hold u pending holds (
              st_hold-manual env (record u { machine = take_event u.machine }) i j system e refl
                manual_ refl found_ below entry_ real)))
          (λ v k. k)

    asked : Post (StillManual e) (run_actions (round env ∷ []) (hold_scan index s))
    asked =
        subst (λ v. Post (StillManual e) (run_actions (round env ∷ []) v))
          (sym (hold_scan-holding s index holds)) held

receive_end :
    (env : Env) (e e' : Entry) (u : Scanner)
    → e' ≡ e
    → (if has_signal env.demod e'
        then go receive none u
        else record (go hold none u) { timeout_start = env.now }).machine.current_state
      ≡ (if has_signal env.demod e then receive else hold)
unfolding go
receive_end env e e' u same = ground arith

-- Where the receive state returns for a current entry, the state behind it depends on the signal
-- alone, also where the entry is locked out: the event that would resume the scan is overwritten
-- by the one of the rest of the function.
pub st_receive_next :
    (env : Env) (s t : Scanner) (e : Entry)
    → s.current_entry ≡ some e
    → st_receive env s ≡ ok t
    → t.machine.current_state ≡ (if has_signal env.demod e then receive else hold)
unfolding st_receive
st_receive_next env s t e known ran = Post-ok Result facts ran
  where
    Result : Scanner → Type 0
    Result u = u.machine.current_state ≡ (if has_signal env.demod e then receive else hold)

    facts : Post Result (st_receive env s)
    facts =
        bind-Post (λ e'. e' ≡ e) Result (the_entry s) _ (rw known refl)
          (λ e' same.
            let s1 : Scanner = if is_locked_out e' then go scan none s else s in
            bind_any-Post Result
              (broadcast_if (changed s1) (set_context_state receiving (enable_audio_out true s1))) _
              (λ u. receive_end env e e' (check_signal e' u) same))
