-- ===== src/Scanner/Rounds.antt =====
-- What one round of the scanner comes to: the state that follows, the audio and the context.
use mathlib.Core.Path.{subst}
use mathlib.Core.Bool.{false≢true}
use pi_scan.Base.{
  ◌≡◌, refl, sym, if-elim, ◌∙◌, ap, ◌+◌, ◌==◌, leb, Bool, true, false, ◌||◌, Option, none, some,
  Post, bind-Post, bind_any-Post, if-Post, if◌then◌else◌, length, arith,
}
use pi_scan.Machine.{take_event, end_round, Machine}
use pi_scan.Scan.Entry.{Entry, has_signal, is_locked_out}
use pi_scan.Scan.Bins.{sort_bins}
use pi_scan.Scan.Rotation.{or_undefined}
use pi_scan.Scanner.{
  State, load, scan, hold, receive, manual, save_all, stopped, EventData, frequency_data,
  manual_entry_data, ContextState, scanning, holding, receiving, Scanner, Env, go, changed,
  the_entry, enable_audio_out, set_context_state,
}
use pi_scan.Scanner.States.{
  squelch_trigger_hits, st_load, st_scan, st_hold, st_receive, st_manual, st_save_all, st_stopped,
  scan_check, hold_check, hold_next, go_if, check_signal, state_to_save,
}
use pi_scan.Scanner.Engine.{round, dispatch, state_engine, step}
use pi_scan.Scanner.Frames.{
  audio_open, Frame, Frame-trans, broadcast_if-Frame, scan_entry-Frame, index_hold-Frame,
  leave_dummies-Frame,
}

-- The events that a state function may generate; `none` where it generates none.
pub data Edge : State → Option State → Type 0 where
  loaded : Edge load none
  rescan : Edge scan (some scan)
  found : Edge scan (some receive)
  no_database : Edge scan (some manual)
  keep_hold : Edge hold (some hold)
  resume_scan : Edge hold (some scan)
  resume_receive : Edge hold (some receive)
  wait_hold : Edge hold none
  keep_receive : Edge receive (some receive)
  lost : Edge receive (some hold)
  entered : Edge manual (some hold)
  saved : Edge save_all (some stopped)
  ended : Edge stopped none

-- How the machine stands behind a state function that was called in state `x`.
abbrev pub Moved : Machine State EventData → Option State → Machine State EventData → Type 0
Moved m none n = (n.current_state ≡ m.current_state) × (n.event_generated ≡ m.event_generated)
Moved m (some y) n = (n.current_state ≡ y) × (n.event_generated ≡ true)

abbrev pub is_receiving : ContextState → Bool
is_receiving receiving = true
is_receiving _ = false

-- The audio is open exactly while the context shows that something is received.
abbrev pub AudioAgrees : Scanner → Type 0
AudioAgrees s = audio_open s.effects ≡ is_receiving s.context.state

-- Behind a function called in state `x`.
pub record After (x : State) (s t : Scanner) : Type 0 where
  pub next : Option State
  pub edge : Edge x next
  pub moved : Moved s.machine next t.machine
  pub audio : AudioAgrees s → AudioAgrees t

st_manual-After : (d : Option EventData) (s : Scanner) → Post (After manual s) (st_manual d s)
unfolding st_manual
st_manual-After none s = tt
st_manual-After (some (frequency_data n)) s = tt
st_manual-After (some (manual_entry_data f m)) s = record {
  next = some hold;
  edge = entered;
  moved = (refl, refl);
  audio = λ h. h;
}

st_stopped-After : (s : Scanner) → Post (After stopped s) (st_stopped s)
unfolding st_stopped
st_stopped-After s = record { next = none; edge = ended; moved = (refl, refl); audio = λ h. h }

st_save_all-After : (env : Env) (s : Scanner) → Post (After save_all s) (st_save_all env s)
unfolding st_save_all
st_save_all-After env s = bind_any-Post _ (state_to_save s) _ (λ saved_state.
    if-Post _ env.writes _ _
      (λ written. record {
        next = some stopped;
        edge = saved;
        moved = (refl, refl);
        audio = λ h. h;
      })
      (λ thrown. tt))

st_load-After : (env : Env) (s : Scanner) → Post (After load s) (st_load env s)
unfolding st_load
st_load-After env s = bind_any-Post _ (or_undefined (env.populate s.systems.systems)) _ (λ systems.
    bind_any-Post _ (sort_bins env.sample_rate _) _
      (λ l. record { next = none; edge = loaded; moved = (refl, refl); audio = λ h. h }))

-- An event that ends a state function, with the audio and the context as the function left them.
go-After :
    (x y : State) (d : Option EventData) (s u : Scanner)
    → Edge x (some y)
    → AudioAgrees u
    → After x s (go y d u)
unfolding go
go-After x y d s u edge agrees = record {
  next = some y;
  edge = edge;
  moved = (refl, refl);
  audio = λ _. agrees;
}

scan_target : (b : Bool) → Edge scan (some (if b then receive else scan))
scan_target true = found
scan_target false = rescan

-- Audio shut and the context scanning or holding, or audio open and the context receiving.
agrees_with :
    (t : Scanner) (b : Bool) (c : ContextState)
    → audio_open t.effects ≡ b
    → t.context.state ≡ c
    → b ≡ is_receiving c
    → AudioAgrees t
agrees_with t b c h k e = h ∙ e ∙ sym (ap is_receiving k)

scan_check-After :
    (env : Env) (e : Entry) (s t : Scanner) → AudioAgrees t → After scan s (scan_check env e t)
scan_check-After env e s t agrees =
    if-elim (After scan s) (has_signal env.demod e) _ _
      (λ _.
        go-After scan _ none s _ (scan_target (leb squelch_trigger_hits (t.squelch_hits + 1)))
          agrees)
      (λ _. go-After scan scan none s _ rescan agrees)

-- The common part of the functions that shut or open the audio and then show a context.
shown-agrees :
    (en : Bool) (c : ContextState) (s t : Scanner)
    → en ≡ is_receiving c
    → Frame (set_context_state c (enable_audio_out en s)) t
    → AudioAgrees t
shown-agrees en c s t e f = agrees_with t en c f.audio_kept f.state_kept e

st_scan-After : (env : Env) (s : Scanner) → Post (After scan s) (st_scan env s)
unfolding st_scan
st_scan-After env s =
    if-Post (After scan s) (length s.systems.systems == 0) _ _
      (λ _. record { next = some manual; edge = no_database; moved = (refl, refl); audio = λ h. h })
      (λ _.
        bind-Post (Frame shown) (After scan s) _ _ (broadcast_if-Frame (changed s) shown) (λ t f.
          bind-Post (Frame t) (After scan s) _ _ (scan_entry-Frame env (changed s) t) (λ u g.
            bind_any-Post (After scan s) (the_entry u) _ (λ e.
              scan_check-After env e s u
                (shown-agrees false scanning base u refl (Frame-trans f g))))))
  where
    base : Scanner
    base = record s {
      squelch_hits = if changed s then 0 else s.squelch_hits;
      manual_mode = false;
      external_hold = false;
    }

    shown : Scanner
    shown = set_context_state scanning (enable_audio_out false base)

hold_next-Edge : (env : Env) (e : Entry) (s : Scanner) → Edge hold (hold_next env e s)
hold_next-Edge env e s = grind (arith, keep_hold, resume_scan, wait_hold)

go_if-After :
    (x : State) (n : Option State) (s u : Scanner)
    → Edge x n
    → u.machine ≡ s.machine
    → AudioAgrees u
    → After x s (go_if n u)
unfolding go
go_if-After x none s u edge same agrees = record {
  next = none;
  edge = edge;
  moved = (rw same, rw same);
  audio = λ _. agrees;
}
go_if-After x (some y) s u edge same agrees = go-After x y none s u edge agrees

hold_check-After :
    (env : Env) (e : Entry) (s t : Scanner)
    → t.machine ≡ s.machine
    → AudioAgrees t
    → After hold s (hold_check env e t)
hold_check-After env e s t same agrees =
    go_if-After hold _ s (check_signal e t)
      (if-elim (Edge hold) (has_signal env.demod e) _ _ (λ _. resume_receive)
        (λ _. hold_next-Edge env e t))
      same agrees

st_hold-After : (env : Env) (s : Scanner) → Post (After hold s) (st_hold env s)
unfolding st_hold
st_hold-After env s =
    bind-Post (λ r. Frame s r.0) (After hold s) _ _ (index_hold-Frame env s)
      (λ r f.
        bind-Post (Frame r.0) (After hold s) _ _ (leave_dummies-Frame env.fuel env r.0) (λ t g.
          bind-Post (Frame (shown t)) (After hold s) _ _
            (broadcast_if-Frame (changed s || r.1) (shown t))
            (λ u k. bind_any-Post (After hold s) (the_entry u) _ (λ e.
              hold_check-After env e s u (k.machine_kept ∙ (g.machine_kept ∙ f.machine_kept))
                (shown-agrees false holding t u refl k)))))
  where
    shown : Scanner → Scanner
    shown t = set_context_state holding (enable_audio_out false t)

st_receive-After : (env : Env) (s : Scanner) → Post (After receive s) (st_receive env s)
unfolding st_receive
st_receive-After env s = bind_any-Post (After receive s) (the_entry s) _ (λ e.
    let s1 : Scanner = if is_locked_out e then go scan none s else s in
    let shown : Scanner = set_context_state receiving (enable_audio_out true s1) in
    bind-Post (Frame shown) (After receive s) _ _ (broadcast_if-Frame (changed s1) shown) (λ t f.
      let agrees = shown-agrees true receiving s1 t refl f in
      if-elim (After receive s) (has_signal env.demod e) _ _
        (λ _. go-After receive receive none s (check_signal e t) keep_receive agrees)
        (λ _.
          go-After receive hold none s (record (check_signal e t) { timeout_start = env.now }) lost
            agrees)))

-- Whatever state it was called in.
pub dispatch-After :
    (env : Env) (x : State) (d : Option EventData) (s : Scanner)
    → Post (After x s) (dispatch env x d s)
dispatch-After env load d s = st_load-After env s
dispatch-After env scan d s = st_scan-After env s
dispatch-After env hold d s = st_hold-After env s
dispatch-After env receive d s = st_receive-After env s
dispatch-After env manual d s = st_manual-After d s
dispatch-After env save_all d s = st_save_all-After env s
dispatch-After env stopped d s = st_stopped-After s

-- A round with an event pending, by the state function that it calls.
pub state_engine-Post {ℓ} :
    (P : Scanner → Type ℓ) (env : Env) (x : State) (s : Scanner)
    → s.machine.event_generated ≡ true
    → s.machine.current_state ≡ x
    → Post
        (λ t. P (record t { machine = end_round t.machine }))
        (dispatch env x s.machine.event_data (record s { machine = take_event s.machine }))
    → Post P (state_engine env s)
unfolding state_engine
state_engine-Post P env x s pending at_x h =
    if-Post P s.machine.event_generated _ _
      (λ _.
        bind-Post Done P
          (dispatch env s.machine.current_state s.machine.event_data
            (record s { machine = take_event s.machine }))
          _
          (subst
            (λ y.
              Post Done
                (dispatch env y s.machine.event_data (record s { machine = take_event s.machine })))
            (sym at_x) h)
          (λ t k. k))
      (λ idle. absurd (false≢true (sym idle ∙ pending)))
  where
    Done : Scanner → Type ℓ
    Done t = P (record t { machine = end_round t.machine })

-- The rounds of a running scanner.
pub step-Post {ℓ} :
    (P : Scanner → Type ℓ) (env : Env) (s : Scanner)
    → s.machine.run ≡ true
    → Post P (state_engine env s)
    → Post P (step (round env) s)
unfolding step
step-Post P env s running h =
    if-Post P s.machine.run _ _ (λ _. h) (λ off. absurd (false≢true (sym off ∙ running)))
