-- ===== src/Scanner/Scanning.antt =====
-- The scan state over a list that `sortBins` filled: every round of it returns.
use mathlib.Core.Path.{subst}
use pi_scan.Base.{
  ℕ, ◌+◌, ◌*◌, ◌<◌, ◌≤◌, ◌≡◌, refl, ◌∙◌, sym, ℤ, Bool, true, false, ◌==◌, ◌⊎◌, inl, inr, some, ok,
  arith, length, get_elem?, if◌then◌else◌, Bool-cases,
}
use pi_scan.Scan.Entry.{Entry}
use pi_scan.Scan.Bins.{EntryBin, SystemList, blocked}
use pi_scan.Scan.Bins.Filling.{flat}
use pi_scan.Scan.Rotation.{get_next_entry}
use pi_scan.Scan.Rotation.Steps.{IsWalking}
use pi_scan.Scan.Rotation.Finding.{get_next_entry-returns, systems-occupied}
use pi_scan.Scanner.{
  Scanner, Env, scanning, context_update, copy_context, go, clear_fields, emit, set_context_state,
  enable_audio_out, changed, is_scanning, broadcast_context_update,
}
use pi_scan.Scanner.States.{st_scan, scan_check, scan_entry, broadcast_if}

-- The scanner behind a broadcast of the scan state.
abbrev announced : Bool → Scanner → Scanner
announced true s =
    emit (context_update (copy_context (copy_context (clear_fields s.context))))
      (record s { context = clear_fields s.context })
announced false s = s

broadcast_if-announced :
    (b : Bool) (s : Scanner)
    → is_scanning s.context.state ≡ true
    → broadcast_if b s ≡ ok (announced b s)
unfolding broadcast_context_update
broadcast_if-announced true s h = ground arith
broadcast_if-announced false s h = refl

-- The scanner as the scan state makes it ready.
abbrev ready : Bool → Scanner → Scanner
ready moved s =
    set_context_state scanning
      (record (enable_audio_out false
        (record s { squelch_hits = if moved then 0 else s.squelch_hits })) {
          manual_mode = false;
          external_hold = false;
        })

scan_runs :
    (env : Env) (s s2 : Scanner) (e : Entry)
    → 0 < length s.systems.systems
    → scan_entry env (changed s) (announced (changed s) (ready (changed s) s)) ≡ ok s2
    → s2.current_entry ≡ some e
    → st_scan env s ≡ ok (scan_check env e s2)
unfolding st_scan
scan_runs env s s2 e database chosen known =
    ground (arith, broadcast_if-announced (changed s) (ready (changed s) s) refl, chosen, known)

scan_check-keeps :
    (env : Env) (e : Entry) (s : Scanner)
    → ((scan_check env e s).current_entry ≡ s.current_entry)
      × ((scan_check env e s).systems ≡ s.systems)
unfolding go
scan_check-keeps env e s = (ground arith, ground arith)

-- The entry that a round checks, and the scanner with it.
record Chosen (bandwidth : ℤ) (env : Env) (moved : Bool) (s : Scanner) : Type 0 where
  entry : Entry
  next : Scanner
  ran : scan_entry env moved (announced moved (ready moved s)) ≡ ok next
  current : next.current_entry ≡ some entry
  walking : IsWalking bandwidth next.systems

-- An entry is at hand, or the last check found no signal.
abbrev pub HasEntry : Scanner → Type 0
HasEntry s = (s.squelch_hits ≡ 0) ⊎ ((e : Entry) × (s.current_entry ≡ some e))

choose :
    (bandwidth : ℤ) (env : Env) (moved : Bool) (s : Scanner) (e : Entry) (l : SystemList)
    → HasEntry s
    → get_next_entry env.fuel s.systems ≡ ok (e, l)
    → IsWalking bandwidth l
    → IsWalking bandwidth s.systems
    → Chosen bandwidth env moved s
choose bandwidth env true s e l has ran w w0 = record {
  entry = e;
  next = record (announced true (ready true s)) { systems = l; current_entry = some e };
  ran = rw ran refl;
  current = refl;
  walking = w;
}
choose bandwidth env false s e l (inl zero_) ran w w0 = record {
  entry = e;
  next = record (ready false s) { systems = l; current_entry = some e };
  ran = ground (arith, ran);
  current = refl;
  walking = w;
}
choose bandwidth env false s e l (inr (e0, known)) ran w w0 =
    elim (Bool-cases (s.squelch_hits == 0)) [
      | inl none_yet ↦ record {
        entry = e;
        next = record (ready false s) { systems = l; current_entry = some e };
        ran = ground (arith, ran);
        current = refl;
        walking = w;
      }
      | inr checking ↦ record {
        entry = e0;
        next = ready false s;
        ran = ground arith;
        current = known;
        walking = w0;
      }
    ]

-- A round of the scan state over a list that `sortBins` filled, where the walk stands at an entry
-- and one entry is not locked out, with fuel for twice the entries and one round more, and with an
-- entry at hand unless no hit is counted: it returns, with a current entry, and the walk stands at
-- an entry of a bin again.
pub st_scan_returns :
    (bandwidth : ℤ) (env : Env) (s : Scanner) (t k : ℕ) (b : EntryBin) (e : Entry)
    → IsWalking bandwidth s.systems
    → get_elem? s.systems.bins t ≡ some b
    → get_elem? b.entries k ≡ some e
    → blocked s.systems.systems e ≡ ok false
    → 2 * length (flat s.systems.bins) + 1 ≤ env.fuel
    → HasEntry s
    → (u : Scanner) × (e' : Entry) × (st_scan env s ≡ ok u)
      × (u.current_entry ≡ some e')
      × IsWalking bandwidth u.systems
st_scan_returns bandwidth env s t k b e w found at_ free enough has =
    let (e', l, ran, open_, offered, walking, same_bins, same) =
      get_next_entry-returns bandwidth env.fuel s.systems t k b e w found at_ free enough in
    let c = choose bandwidth env (changed s) s e' l has ran walking w in
    let (same_entry, same_list) = scan_check-keeps env c.entry c.next in
    (
      scan_check env c.entry c.next,
      c.entry,
      scan_runs env s c.next c.entry (systems-occupied bandwidth s.systems w) c.ran c.current,
      same_entry ∙ c.current,
      subst (IsWalking bandwidth) (sym same_list) c.walking,
    )
