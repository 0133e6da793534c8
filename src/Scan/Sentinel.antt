-- ===== src/Scan/Sentinel.antt =====
-- scan/SentinelFile.cpp and ListGenerator.h: the converter of a Sentinel file into a list of systems.
pub mod Tokens
pub mod Converted
pub mod Delivered
use Prim.Native.Char.{code}
use text.Mathlib.Text.{◌==◌ as str_eq}
use pi_scan.Base.{
  ℕ, suc, ◌+◌, ◌-◌, ◌*◌, ◌==◌, String, ℤ, pos, negsuc, sub_ℕ, Bool, true, false, ◌||◌, List, [],
  ◌∷◌, ◌++◌, Option, none, some, ok, undefined, Outcome, ◌>>=◌, if◌then◌else◌, length, get_elem?,
  set,
}
use pi_scan.Fields.{fields, before, from}
use pi_scan.Numbers.{stoi, stoll, within}
use pi_scan.Scan.Entry.{Entry, Kind, new_channel, set_sys_index, set_entry_index}
use pi_scan.Scan.System.{System, new_system, add_entry}
use pi_scan.Scan.Rotation.{or_undefined}

-- `_list` and `_system`: the pointer is to an element of the list, here its place.
pub record SentinelFile : Type 0 where
  pub systems : List System
  pub system : Option ℕ

-- The tokens of a line: its fields that are not empty.
abbrev pub kept_fields : List String → List String
kept_fields [] = []
kept_fields (f ∷ fs) = let rest = kept_fields fs in if str_eq f "" then rest else f ∷ rest

unfoldable pub tokens_of : String → List String
unfolding fields
tokens_of line = kept_fields (fields b'\t' line)

-- `tokens[pos]`, which is not checked.
abbrev pub token : List String → ℕ → Outcome String
token tokens i = or_undefined (get_elem? tokens i)

unfoldable pub new_analog_sys : List String → SentinelFile → Outcome SentinelFile
unfolding new_system
new_analog_sys tokens c = do
  tag ← token tokens 1
  lockout ← token tokens 2
  ok (record {
    systems = c.systems ++ new_system tag (str_eq lockout "On") 0 ∷ [];
    system = some (length c.systems);
  })

-- The texts behind `TONE=`: without a letter, `substr` throws.
abbrev pub tone_kind : String → Outcome Kind
tone_kind String.[] = undefined
tone_kind (String.◌∷◌ c tone) =
    ok (if code c == b'C' then Kind.pl tone else if code c == b'D' then Kind.dc tone else Kind.fm)

abbrev pub is_fm : String → Bool
is_fm mode = str_eq mode "NFM" || (str_eq mode "FM" || str_eq mode "AUTO")

-- The class of the new entry, if there is one.
unfoldable pub channel_kind : String → String → Outcome (Option Kind)
channel_kind mode tone =
    if is_fm mode
    then (if str_eq tone ""
        then ok (some Kind.fm)
        else if str_eq (before 5 tone) "TONE="
        then (do kind ← tone_kind (from 5 tone); ok (some kind))
        else ok none)
    else if str_eq mode "AM"
    then ok (some Kind.am)
    else ok none

-- `std::stoi(s_delay) * 1000`, whose overflow is undefined.
abbrev pub thousandfold : ℤ → ℤ
thousandfold (pos n) = pos (n * 1000)
thousandfold (negsuc n) = sub_ℕ 0 (suc n * 1000)

-- The entry is numbered, and numbered again by `addEntry`.
unfoldable pub place_entry : ℕ → Entry → SentinelFile → Outcome SentinelFile
unfolding add_entry set_sys_index set_entry_index
place_entry i e c = do
  s ← or_undefined (get_elem? c.systems i)
  let e' = set_entry_index (set_sys_index e (length c.systems - 1)) s.num_entries
  ok (record c { systems = set c.systems i (add_entry s (some e')) })

abbrev pub place_if : ℕ → (Kind → Entry) → Option Kind → SentinelFile → Outcome SentinelFile
place_if i make none c = ok c
place_if i make (some kind) c = place_entry i (make kind) c

abbrev pub add_analog_entry : ℕ → List String → SentinelFile → Outcome SentinelFile
add_analog_entry i tokens c = do
  tag ← token tokens 1
  lockout ← token tokens 2
  s_freq ← token tokens 3
  mode ← token tokens 4
  tone ← token tokens 5
  s_delay ← token tokens 8
  freq ← or_undefined (stoll s_freq)
  seconds ← or_undefined (stoi s_delay)
  delay ← or_undefined (within 0x7fff_ffff (some (thousandfold seconds)))
  kind ← channel_kind mode tone
  place_if i (λ k. new_channel k freq tag (str_eq lockout "On") delay) kind c

abbrev pub add_to : Option ℕ → List String → SentinelFile → Outcome SentinelFile
add_to none tokens c = ok c
add_to (some i) tokens c = add_analog_entry i tokens c

unfoldable pub new_analog_entry : List String → SentinelFile → Outcome SentinelFile
unfolding new_channel channel_kind place_entry stoi stoll
new_analog_entry tokens c = add_to c.system tokens c

abbrev pub has_system : Option ℕ → Bool
has_system none = false
has_system (some i) = true

-- One round of the loop over the lines.
abbrev pub convert_tokens : List String → SentinelFile → Outcome SentinelFile
convert_tokens [] c = ok c
convert_tokens (type ∷ tokens) c =
    if str_eq type "C-Group"
    then new_analog_sys (type ∷ tokens) c
    else if str_eq type "C-Freq"
    then (if has_system c.system then new_analog_entry (type ∷ tokens) c else ok c)
    else ok c

unfoldable pub convert_lines : List String → SentinelFile → Outcome SentinelFile
unfolding tokens_of new_analog_sys new_analog_entry
convert_lines [] c = ok c
convert_lines (line ∷ lines) c = do c' ← convert_tokens (tokens_of line) c; convert_lines lines c'

-- `generateSystemList`, given the text of the file, or `none` where it does not open.
unfoldable pub generate_system_list : Option String → List System → Outcome (Bool × List System)
unfolding convert_lines fields
generate_system_list none systems = ok (false, systems)
generate_system_list (some file) systems = do
  c ← convert_lines (fields b'\n' file) (record { systems = systems; system = none })
  ok (true, c.systems)
