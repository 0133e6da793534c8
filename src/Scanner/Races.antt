-- ===== src/Scanner/Races.antt =====
-- A hold request that a round of the scan state overtakes.
use pi_scan.Base.{
  ℤ, ◌<◌, ◌≡◌, refl, ◌∙◌, true, false, List, ok, arith, length, ◌==◌, Post, Post-ok, bind-Post,
  bind_any-Post, if-Post, if◌then◌else◌,
}
use pi_scan.Scan.Entry.{Entry}
use pi_scan.Scanner.{
  Scanner, Env, scan, hold, scanning, changed, the_entry, go, set_context_state, enable_audio_out,
}
use pi_scan.Scanner.States.{st_scan, scan_check, index_hold}
use pi_scan.Scanner.Engine.{round, step, hold_store, hold_event}
use pi_scan.Scanner.Frames.{Frame, Frame-trans, broadcast_if-Frame, scan_entry-Frame}
use pi_scan.Scanner.Rounds.{state_engine-Post}

abbrev NotHeld : Scanner → Type 0
NotHeld s = s.external_hold ≡ false

scan_check-hold :
    (env : Env) (e : Entry) (s : Scanner) → (scan_check env e s).external_hold ≡ s.external_hold
unfolding go
scan_check-hold env e s = ground arith

st_scan-NotHeld :
    (env : Env) (s : Scanner) → 0 < length s.systems.systems → Post NotHeld (st_scan env s)
unfolding st_scan
st_scan-NotHeld env s database =
    if-Post NotHeld (length s.systems.systems == 0) _ _ (λ empty. absurd (ground arith))
      (λ _. bind-Post (Frame shown) NotHeld _ _ (broadcast_if-Frame (changed s) shown) (λ t f.
        bind-Post (Frame t) NotHeld _ _ (scan_entry-Frame env (changed s) t) (λ u g.
          bind_any-Post NotHeld (the_entry u) _
            (λ e. scan_check-hold env e u ∙ (Frame-trans f g).hold_kept))))
  where
    shown : Scanner
    shown = set_context_state scanning (
        enable_audio_out false (record s {
          squelch_hits = if changed s then 0 else s.squelch_hits;
          manual_mode = false;
          external_hold = false;
        }))

-- A hold request of a running scanner in the scan state, with a database and an event pending: a
-- round between the flag that the request stores and its event clears the flag, if it returns; the
-- event then leads to the hold state, which takes no notice of the index that was asked for.
pub hold_scan_raced :
    (env env' : Env) (s t : Scanner) (index : List ℤ)
    → s.machine.run ≡ true
    → s.machine.current_state ≡ scan
    → s.machine.event_generated ≡ true
    → 0 < length s.systems.systems
    → step (round env) (hold_store index s) ≡ ok t
    → ((hold_event scan t).machine.current_state ≡ hold)
      × (index_hold env' (hold_event scan t) ≡ ok (hold_event scan t, false))
unfolding step hold_store hold_event
hold_scan_raced env env' s t index running here pending database ran =
    let free : t.external_hold ≡ false =
      Post-ok NotHeld
        (if-Post NotHeld s.machine.run _ _
          (λ _.
            state_engine-Post NotHeld env scan (hold_store index s) pending here
              (st_scan-NotHeld env _ database))
          (λ stopped. absurd (cc)))
        ran in
    (refl, ground arith)
