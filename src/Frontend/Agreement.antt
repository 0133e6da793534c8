-- ===== src/Frontend/Agreement.antt =====
-- The console and the socket agree: a line that is entered does what the message of a network client
-- does.
use Prim.Native.String.{◌++◌ as str_append}
use text.Mathlib.Text.{◌==◌ as str_eq}
use text.Mathlib.TextEquality.{eq_iff}
use mathlib.Core.Path.{subst}
use pi_scan.Base.{
  String, ◌≡◌, refl, sym, ap, ◌∙◌, ℤ, pos, negsuc, leb_ℤ, ◌&&◌, Bool, true, false, List, [], ◌∷◌,
  Option, none, some, ok, Outcome, arith, Bool-cases, inl, inr,
}
use pi_scan.Fields.{fields}
use pi_scan.Numbers.{stoi}
use pi_scan.Numbers.RoundTrip.{stoi-to_string}
use pi_scan.Scan.Text.{to_string}
use pi_scan.Scan.Tree.{FitsInt}
use pi_scan.Server.{Connection}
use pi_scan.Demodulator.Cubic.{Cubic}
use pi_scan.Frontend.{Program, set_demod_squelch, set_demod_gain}
use pi_scan.Frontend.Console.{
  Console, console_round, command, squelch_command, gain_command, hold_command, get_command,
  with_number,
}
use pi_scan.Frontend.Socket.{
  ClientToServer, general_request, scanner_state_request, demod_request, handle_client_message,
  to_scan, to_hold, set_squelch_func, set_gain_func, asks_scanner_context, asks_demod_context,
  handle_scan_state_request, handle_demod_request, handle_general_request,
}
use pi_scan.Frontend.Lines.{Lacks, behind, fields-number}

-- What both a line and a message can ask for.
pub data Ask : Type 0 where
  scans holds wants_scanner_context wants_demod_context : Ask
  squelches gains : ℤ → Ask

abbrev pub line_of : Ask → String
line_of scans = "scan"
line_of holds = "hold"
line_of wants_scanner_context = "get context"
line_of wants_demod_context = "squelch"
line_of (squelches n) = str_append "squelch" (behind " " (to_string n))
line_of (gains n) = str_append "gain" (behind " " (to_string n))

-- The number that is asked for is an `int`, and survives the way through a `float`.
abbrev pub IsAsked : Cubic → Ask → Type 0
IsAsked C (squelches n) = FitsInt n × (C.to_int (C.of_int n) ≡ n)
IsAsked C (gains n) = FitsInt n
IsAsked C _ = Unit

in_range : (n : ℤ) → FitsInt n → leb_ℤ (negsuc 0x7fff_ffff) n && leb_ℤ n (pos 0x7fff_ffff) ≡ true
in_range n h = ground (arith, h.above, h.below)

number_read : (n : ℤ) → FitsInt n → stoi (to_string n) ≡ some n
number_read n h = stoi-to_string n (in_range n h)

squelch-Lacks : Lacks b' ' "squelch"
squelch-Lacks = (refl, (refl, (refl, (refl, (refl, (refl, (refl, tt)))))))

gain-Lacks : Lacks b' ' "gain"
gain-Lacks = (refl, (refl, (refl, (refl, tt))))

no_number : stoi "auto" ≡ none
unfolding stoi
no_number = refl

number_not_auto : (n : ℤ) → FitsInt n → str_eq (to_string n) "auto" ≡ false
number_not_auto n h = elim (Bool-cases (str_eq (to_string n) "auto")) [
  | inr other ↦ other
  | inl same ↦
      absurd (cc (number_read n h, ap stoi ((eq_iff (to_string n) "auto").0 same), no_number))
]

module _ (C : Cubic) where
  abbrev pub message_of : Ask → ClientToServer C.Float
  message_of scans =
      scanner_state_request
        (record { state = to_scan; man_freq = pos 0; man_modulation = ""; hold_index = "" })
  message_of holds =
      scanner_state_request
        (record { state = to_hold; man_freq = pos 0; man_modulation = ""; hold_index = "" })
  message_of wants_scanner_context = general_request asks_scanner_context
  message_of wants_demod_context = general_request asks_demod_context
  message_of (squelches n) = demod_request (record { type = set_squelch_func; level = C.of_int n })
  message_of (gains n) = demod_request (record { type = set_gain_func; level = C.of_int n })

  module _ (stof : String → Option ℤ) (locked : Bool) (connection : Connection) where
    abbrev run_line : String → Console → Program C.Float → Outcome (Console × Program C.Float)
    run_line = console_round C stof locked connection

    abbrev emptied : Console → Console
    emptied c = record c { tokens = [] }

    -- A line whose tokens are known.
    round_of :
        (line : String) (tokens : List String) (c : Console) (p p' : Program C.Float)
        → fields b' ' line ≡ tokens
        → command C stof locked connection tokens (emptied c) p ≡ ok (some (emptied c, p'))
        → run_line line (emptied c) p ≡ ok (emptied c, p')
    unfolding console_round
    round_of line tokens c p p' split done =
        rw (ap (λ x. command C stof locked connection x (emptied c) p) split ∙ done) refl

    squelch_line :
        (n : ℤ) (c : Console) (p : Program C.Float)
        → FitsInt n
        → command C stof locked connection ("squelch" ∷ to_string n ∷ []) c p
          ≡ ok (some (c, set_demod_squelch C n p))
    unfolding command squelch_command
    squelch_line n c p fits = rw (number_read n fits, with_number) refl

    gain_line :
        (n : ℤ) (c : Console) (p : Program C.Float)
        → FitsInt n
        → command C stof locked connection ("gain" ∷ to_string n ∷ []) c p
          ≡ ok (some (c, set_demod_gain C (C.of_int n) p))
    unfolding command gain_command
    gain_line n c p fits = rw (number_not_auto n fits, number_read n fits, with_number) refl

    -- The line for a console whose tokens are cleared.
    emptied_round :
        (a : Ask) (c : Console) (p : Program C.Float)
        → IsAsked C a
        → run_line (line_of a) (emptied c) p
          ≡ ok (emptied c, handle_client_message C (message_of a) p)
    unfolding console_round command hold_command squelch_command get_command handle_client_message
        handle_scan_state_request handle_general_request handle_demod_request
    emptied_round scans c p asked = refl
    emptied_round holds c p asked = refl
    emptied_round wants_scanner_context c p asked = refl
    emptied_round wants_demod_context c p asked = refl
    emptied_round (squelches n) c p asked =
        round_of (line_of (squelches n)) ("squelch" ∷ to_string n ∷ []) c p _
          (fields-number "squelch" n squelch-Lacks) (squelch_line n (emptied c) p asked.0)
        ∙ ap (λ k. ok (emptied c, set_demod_squelch C k p)) (sym asked.1)
    emptied_round (gains n) c p asked =
        round_of (line_of (gains n)) ("gain" ∷ to_string n ∷ []) c p _
          (fields-number "gain" n gain-Lacks) (gain_line n (emptied c) p asked)

    -- Behind its first line the round that reads a line leaves the program as the message that asks for
    -- the same leaves it, and the round adds nothing of its own to what the console has printed: to
    -- scan, to hold, to tell a context, to set the squelch or the gain to a whole number that fits an
    -- `int`, the squelch if a `float` holds it. What the console prints once it is told a context does
    -- not belong to the round.
    pub console_round-message :
        (a : Ask) (c : Console) (p : Program C.Float)
        → c.tokens ≡ []
        → IsAsked C a
        → console_round C stof locked connection (line_of a) c p
          ≡ ok (c, handle_client_message C (message_of a) p)
    console_round-message a c p fresh asked =
        subst (λ x. run_line (line_of a) x p ≡ ok (x, handle_client_message C (message_of a) p))
          (λ i. record c { tokens = sym fresh i }) (emptied_round a c p asked)
