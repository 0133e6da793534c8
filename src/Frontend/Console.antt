-- ===== src/Frontend/Console.antt =====
-- `_consoleInputFunc` of server/connection/DebugConsole.cpp: one round reads a line and obeys it.
use text.Mathlib.Text.{◌==◌ as str_eq}
use pi_scan.Base.{
  String, ℤ, Bool, true, false, List, [], ◌∷◌, ◌++◌, Option, none, some, ok, Outcome, ◌>>=◌,
  if◌then◌else◌, ltb, length, get_elem?, drop,
}
use pi_scan.Fields.{fields}
use pi_scan.Numbers.{stoi}
use pi_scan.Scan.Rotation.{or_undefined}
use pi_scan.Server.{Connection}
use pi_scan.Demodulator.Cubic.{Cubic}
use pi_scan.Demodulator.Control.{auto_gain_value}
use pi_scan.Frontend.{
  Program, scan_start, scan_hold, scan_hold_entry, scan_manual_entry, set_demod_squelch,
  set_demod_gain, get_scanner_context, get_demod_context, answer_system_info, system_stop,
}

-- What the console prints in answer to a line.
pub data Said : Type 0 where
  invalid_command argument_missing commands : Said
  verbosity_set : ℤ → Said

pub record Console : Type 0 where
  pub run : Bool
  pub tokens : List String
  pub said : List Said  -- latest first

-- `std::vector<std::string> tokens(5)`.
abbrev pub new_console : Console
new_console = record { run = true; tokens = "" ∷ "" ∷ "" ∷ "" ∷ "" ∷ []; said = [] }

abbrev pub say : Said → Console → Console
say x c = record c { said = x ∷ c.said }

-- The index of a hold; `none` is the exception of a token that is no number.
unfoldable pub parse_index : List String → Option (List ℤ)
unfolding stoi
parse_index [] = some []
parse_index (t ∷ ts) =
    let rest = parse_index ts in
    elim (stoi t) [ none ↦ none | some i ↦ elim rest [ none ↦ none | some is ↦ some (i ∷ is) ] ]

-- `std::stof` and the conversion of its result to `long` are a parameter, `stof`; `locked` says
-- whether the server was locked at a request to stop.
module _ (C : Cubic) (stof : String → Option ℤ) (locked : Bool) (connection : Connection) where
  open C use {Float, of_int}

  -- `none` is an exception, which the round catches; nothing was done before it.
  abbrev pub Reaction : Type 0
  Reaction = Outcome (Option (Console × Program Float))

  abbrev pub obey : Console → Program Float → Reaction
  obey c p = ok (some (c, p))

  abbrev pub with_number : Option ℤ → (ℤ → Reaction) → Reaction
  with_number none f = ok none
  with_number (some n) f = f n

  unfoldable pub set_verbosity : List String → Console → Program Float → Reaction
  unfolding stoi
  set_verbosity tokens c p = do
    t ← or_undefined (get_elem? tokens 1)
    with_number (stoi t) (λ n. obey (say (verbosity_set n) c) p)

  unfoldable pub squelch_command : List String → Console → Program Float → Reaction
  unfolding stoi set_demod_squelch get_demod_context
  squelch_command tokens c p =
      if ltb 1 (length tokens)
      then (do
        t ← or_undefined (get_elem? tokens 1)
        with_number (stoi t) (λ n. obey c (set_demod_squelch C n p)))
      else obey c (get_demod_context C p)

  abbrev pub hold_index_obey : Option (List ℤ) → Console → Program Float → Reaction
  hold_index_obey none c p = ok none
  hold_index_obey (some index) c p = obey c (scan_hold_entry C index p)

  unfoldable pub hold_command : List String → Console → Program Float → Reaction
  unfolding parse_index scan_hold scan_hold_entry
  hold_command tokens c p =
      if ltb 2 (length tokens)
      then hold_index_obey (parse_index (drop 1 tokens)) c p
      else obey c (scan_hold C p)

  unfoldable pub gain_command : List String → Console → Program Float → Reaction
  unfolding stoi set_demod_gain get_demod_context
  gain_command tokens c p =
      if ltb 1 (length tokens)
      then (do
        t ← or_undefined (get_elem? tokens 1)
        if str_eq t "auto"
            then obey c (set_demod_gain C (of_int auto_gain_value) p)
            else with_number (stoi t) (λ n. obey c (set_demod_gain C (of_int n) p)))
      else obey c (get_demod_context C p)

  unfoldable pub manual_command : List String → Console → Program Float → Reaction
  unfolding scan_manual_entry
  manual_command tokens c p =
      if ltb 2 (length tokens)
      then (do
        t ← or_undefined (get_elem? tokens 1)
        mode ← or_undefined (get_elem? tokens 2)
        with_number (stof t) (λ n. obey c (scan_manual_entry C n mode p)))
      else (do
        t ← or_undefined (get_elem? tokens 1)
        with_number (stof t) (λ n. obey c (scan_manual_entry C n "FM" p)))

  unfoldable pub get_command : List String → Console → Program Float → Reaction
  unfolding get_scanner_context
  get_command tokens c p = do
    t ← or_undefined (get_elem? tokens 1)
    obey c (if str_eq t "context" then get_scanner_context C p else p)

  unfoldable pub exit_command : Console → Program Float → Reaction
  exit_command c p = do p' ← system_stop C locked connection p; obey (record c { run = false }) p'

  unfoldable pub command : List String → Console → Program Float → Reaction
  unfolding set_verbosity squelch_command hold_command gain_command manual_command get_command
      exit_command scan_start
  command tokens c p = do
    t ← or_undefined (get_elem? tokens 0)
    if str_eq t "exit"
        then exit_command c p
        else if str_eq t "verbosity"
        then set_verbosity tokens c p
        else if str_eq t "squelch"
        then squelch_command tokens c p
        else if str_eq t "scan"
        then obey c (scan_start C p)
        else if str_eq t "hold"
        then hold_command tokens c p
        else if str_eq t "gain"
        then gain_command tokens c p
        else if str_eq t "manual"
        then manual_command tokens c p
        else if str_eq t "get"
        then get_command tokens c p
        else if str_eq t "help"
        then obey (say commands c) p
        else obey (say invalid_command c) p

  abbrev pub finish :
      Program Float → Console → Option (Console × Program Float) → Console × Program Float
  finish p c none = (record (say argument_missing c) { tokens = [] }, p)
  finish p c (some (c', p')) = (record c' { tokens = [] }, p')

  unfoldable pub console_round :
      String → Console → Program Float → Outcome (Console × Program Float)
  unfolding fields command
  console_round input c p = do r ← command (c.tokens ++ fields b' ' input) c p; ok (finish p c r)

  -- What the thread asks for before its first round.
  unfoldable pub console_connected : Program Float → Program Float
  unfolding answer_system_info get_scanner_context get_demod_context
  console_connected p = get_demod_context C (get_scanner_context C (answer_system_info C p))

  -- The loop over the lines that are entered, while `_run` is set.
  unfoldable pub console_loop :
      List String → Console → Program Float → Outcome (Console × Program Float)
  unfolding console_round
  console_loop [] c p = ok (c, p)
  console_loop (line ∷ lines) c p =
      let next = (do (c', p') ← console_round line c p; console_loop lines c' p') in
      if c.run then next else ok (c, p)
