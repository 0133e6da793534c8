-- ===== src/Tests/Files.antt =====
-- A tree of paths that has the laws of Config/Tree, and the tests of the files of common/.
use text.Mathlib.Text.{◌==◌ as str_eq}
use text.Mathlib.TextEquality.{eq_iff}
use text.Mathlib.TextPositions.{eq_refl}
use pi_scan.Base.{
  ℕ, String, ◌≡◌, ◌≢◌, ◌≤◌, refl, ◌∙◌, ap, sym, ℤ, pos, negsuc, ◌≤ℤ◌, leb_ℤ, Bool, true, false,
  ◌&&◌, List, [], ◌∷◌, ◌++◌, map, Option, none, some, ok, arith, if◌then◌else◌, Bool-cases, inl,
  inr,
}
use pi_scan.Scan.Text.{to_string}
use pi_scan.Scan.Tree.{FitsInt}
use pi_scan.Numbers.{stoi, stoll}
use pi_scan.Numbers.RoundTrip.{stoi-to_string, stoi-to_string_wide, stoll-to_string}
use pi_scan.Scan.System.{System}
use pi_scan.Scanner.{hold_state, manual_state, Scanner, hold, load, stopped}
use pi_scan.Scanner.Engine.{round, stops_scanner, run_actions}
use pi_scan.Scanner.Startup.{start_scanner}
use pi_scan.Scanner.Resume.{Resumes}
use pi_scan.Restart.{reloaded, restart-Resumes}
use pi_scan.Tests.{scanner_in, tower, weather, busy, quiet}
use pi_scan.Tuner.{TunerConfig}
use pi_scan.Config.{Configuration, new_configuration}
use pi_scan.Config.Tree.{Keys, PathTree, same_path, apart, FitsLong}
use pi_scan.Config.Saving.{
  ConfigState, load_state, save_state, load_configuration, save_configuration, load_general,
  load_tuner, insert_tuners, tuner_trees,
}
use pi_scan.Config.StateFile.{IsSaved, load_state-save}
use pi_scan.Config.ConfigFile.{IsStorable, load_configuration-save}
use pi_scan.Config.Tuners.{IsRanked}
use pi_scan.Config.Ranks.{find_rank, insert_tuners-find}

mutual
  data Node : Type 0 where
    leaf : Node
    value : Keys → String → Node → Node
    children : Keys → Nodes → Node → Node

  data Nodes : Type 0 where
    nil : Nodes
    cons : Node → Nodes → Nodes

abbrev to_list : Nodes → List Node
to_list nil = []
to_list (cons t ts) = t ∷ to_list ts

abbrev from_list : List Node → Nodes
from_list [] = nil
from_list (t ∷ ts) = cons t (from_list ts)

listed : (ts : List Node) → to_list (from_list ts) ≡ ts
listed [] = refl
listed (t ∷ ts) = ap (◌∷◌ t) (listed ts)

abbrev data_of : Node → String
data_of leaf = ""
data_of (value q v t) = if same_path q [] then v else data_of t
data_of (children q c t) = data_of t

abbrev get_text : Keys → Node → Option String
get_text p leaf = none
get_text p (value q v t) = if same_path q p then some v else get_text p t
get_text p (children q c t) = if same_path q p then some "" else get_text p t

abbrev get_list : Keys → Node → Option (List Node)
get_list p leaf = none
get_list p (value q v t) = if same_path q p then some [] else get_list p t
get_list p (children q c t) = if same_path q p then some (to_list c) else get_list p t

abbrev starts_with : String → Keys → Bool
starts_with k [] = false
starts_with k (x ∷ p) = str_eq k x

abbrev without : String → Node → Node
without k leaf = leaf
without k (value q v t) = let rest = without k t in if starts_with k q then rest else value q v rest
without k (children q c t) =
    let rest = without k t in if starts_with k q then rest else children q c rest

same_path_refl : (p : Keys) → same_path p p ≡ true
same_path_refl [] = refl
same_path_refl (x ∷ p) = rw (eq_refl x, same_path_refl p) refl

apart-same_path : (p q : Keys) → apart q p ≡ true → same_path q p ≡ false
apart-same_path [] [] h = cc
apart-same_path [] (y ∷ q) h = refl
apart-same_path (x ∷ p) [] h = refl
apart-same_path (x ∷ p) (y ∷ q) h = elim (Bool-cases (str_eq y x)) [
  | inl same ↦ rw same (apart-same_path p q (ground (arith, same, h)))
  | inr other ↦ rw other refl
]

-- A path that starts with the key that is erased is no path that starts with another key.
erased_other :
    (k x : String) (p q : Keys)
    → str_eq k x ≡ false
    → starts_with k q ≡ true
    → same_path q (x ∷ p) ≡ false
erased_other k x p [] h s = cc
erased_other k x p (y ∷ q) h s =
    let same : k ≡ y = (eq_iff k y).0 s in rw (ap (λ z. str_eq z x) (sym same) ∙ h) refl

text-without :
    (k x : String) (p : Keys) (t : Node)
    → str_eq k x ≡ false
    → get_text (x ∷ p) (without k t) ≡ get_text (x ∷ p) t
text-without k x p leaf h = refl
text-without k x p (value q v t) h = elim (Bool-cases (starts_with k q)) [
  | inl gone ↦ rw (gone, erased_other k x p q h gone) (text-without k x p t h)
  | inr kept ↦ rw kept (ground (arith, text-without k x p t h))
]
text-without k x p (children q c t) h = elim (Bool-cases (starts_with k q)) [
  | inl gone ↦ rw (gone, erased_other k x p q h gone) (text-without k x p t h)
  | inr kept ↦ rw kept (ground (arith, text-without k x p t h))
]

int_range : (n : ℤ) → FitsInt n → leb_ℤ (negsuc 0x7fff_ffff) n && leb_ℤ n (pos 0x7fff_ffff) ≡ true
int_range n h = ground (arith, h.above, h.below)

wide : (n : ℤ) → ¬ FitsInt n → stoi (to_string n) ≡ none
wide n h = elim (Bool-cases (leb_ℤ (negsuc 0x7fff_ffff) n && leb_ℤ n (pos 0x7fff_ffff))) [
  | inl inside ↦ absurd (h record { above = ground arith; below = ground arith })
  | inr outside ↦ stoi-to_string_wide n outside
]

longs : (n : ℤ) → FitsLong n → stoll (to_string n) ≡ some n
longs n h = stoll-to_string n (ground (arith, h.above, h.below))

wholes : (n : ℤ) → negsuc 0xff_ffff ≤ℤ n → n ≤ℤ pos 0x100_0000 → stoi (to_string n) ≡ some n
wholes n lo hi = stoi-to_string n (ground (arith, lo, hi))

abbrev bool_text : Bool → String
bool_text true = "true"
bool_text false = "false"

abbrev text_bool : String → Option Bool
text_bool s = if str_eq s "true" then some true else if str_eq s "false" then some false else none

bools : (b : Bool) → text_bool (bool_text b) ≡ some b
bools true = refl
bools false = refl

abbrev paths : PathTree
paths = record {
  Tree = Node;
  empty = leaf;
  data_of = data_of;
  get = get_text;
  put = value;
  get_child = get_list;
  put_child = λ p c t. children p (from_list c) t;
  erase = without;
  print_int = to_string;
  parse_int = stoi;
  parse_long = stoll;
  print_bool = bool_text;
  parse_bool = text_bool;
  Float = ℤ;
  of_int = λ n. n;
  print_float = to_string;
  data-put = λ v t. refl;
  get-put_self = λ p v t. rw (same_path_refl p) refl;
  get-put_apart = λ p q v t h. rw (apart-same_path p q h) refl;
  get-put_child_apart = λ p q c t h. rw (apart-same_path p q h) refl;
  get_child-put_child_self = λ p c t. rw (same_path_refl p, listed c) refl;
  get-erase = text-without;
  print_int-to_string = λ n. refl;
  parse-print_int = λ n h. stoi-to_string n (int_range n h);
  parse-print_int_wide = wide;
  parse-print_long = longs;
  parse-print_bool = bools;
  parse-print_float = wholes;
}

abbrev held : ConfigState paths
held = record {
  demod_state = record { squelch = negsuc 79; gain = pos 30 };
  scanner_state = record {
    scan_state_saved = hold_state;
    manual_freq = pos 0;
    manual_modulation = "";
    hold_index_saved = pos 0 ∷ pos 1 ∷ [];
    hold_key = "F118300000AM";
  };
}

abbrev first_start : ConfigState paths
first_start = record held {
  scanner_state = record (held.scanner_state) { hold_index_saved = []; hold_key = "" };
}

fits : (n : ℕ) → n ≤ 0x7fff_ffff → FitsInt (pos n)
fits n h = record { above = omega arith; below = omega arith }

held-IsSaved : IsSaved paths held
held-IsSaved = record {
  numbered = tt;
  frequency_fits = fits 0 (omega arith);
  index_fits = (fits 0 (omega arith), (fits 1 (omega arith), tt));
  whole_gain = (pos 30, refl, omega arith, omega arith);
  whole_squelch = (negsuc 79, refl, omega arith, omega arith);
}

load_state-save_example : load_state paths (save_state paths held leaf) first_start ≡ held
load_state-save_example = load_state-save paths held leaf first_start held-IsSaved refl

abbrev microwave : ConfigState paths
microwave = record held {
  scanner_state = record (held.scanner_state) {
    scan_state_saved = manual_state;
    manual_freq = pos 2_304_100_000;
  };
}

abbrev dongle : TunerConfig
dongle = record {
  rank = pos 0;
  descriptor = "Generic RTL2832U";
  driver = "rtlsdr";
  ppm_correction = negsuc 2;
  sample_rate = pos 2_048_000;
}

abbrev two_tuners : List TunerConfig
two_tuners = dongle ∷ record dongle { rank = pos 3; descriptor = "Airspy"; driver = "airspy" } ∷ []

abbrev tuned : Configuration
tuned = record new_configuration { tuners = two_tuners }

two_tuners-IsRanked : IsRanked two_tuners
two_tuners-IsRanked = ((omega arith, tt), (tt, tt))

tuned-IsStorable : IsStorable tuned
tuned-IsStorable = record {
  port_fits = fits 1234 (omega arith);
  connections_fit = fits 5 (omega arith);
  retune_fits = record { above = omega arith; below = omega arith };
  delay_fits = record { above = omega arith; below = omega arith };
  squelch_fits = fits 0 (omega arith);
  rtsp_fits = fits 8554 (omega arith);
  narrow = (
    record {
      rank_fits = fits 0 (omega arith);
      ppm_fits = record { above = omega arith; below = omega arith };
      rate_fits = fits 2_048_000 (omega arith);
    },
    (
      record {
        rank_fits = fits 3 (omega arith);
        ppm_fits = record { above = omega arith; below = omega arith };
        rate_fits = fits 2_048_000 (omega arith);
      },
      tt,
    ),
  );
  ranked = two_tuners-IsRanked;
}

load_configuration-save_example :
    (load_configuration paths (save_configuration paths tuned leaf).1 new_configuration
      ≡ record tuned { general = load_general paths leaf })
    × ((save_configuration paths tuned leaf).0 ≡ record tuned { general = load_general paths leaf })
load_configuration-save_example =
    load_configuration-save paths tuned leaf new_configuration tuned-IsStorable refl

insert_tuners-find_example :
    IsRanked (insert_tuners paths (tuner_trees paths two_tuners leaf) (dongle ∷ []))
    × ((r : ℤ)
        → find_rank r (insert_tuners paths (tuner_trees paths two_tuners leaf) (dongle ∷ []))
          ≡ find_rank r
              ((dongle ∷ []) ++ map (load_tuner paths) (tuner_trees paths two_tuners leaf)))
insert_tuners-find_example =
    insert_tuners-find paths (tuner_trees paths two_tuners leaf) (dongle ∷ []) (tt, tt)

abbrev holding_tower : Scanner
holding_tower = record (scanner_in hold) { external_hold = true; current_entry = some tower }

abbrev next_run : Scanner
next_run = record (scanner_in load) { current_entry = none }

abbrev county : System
county = record {
  tag = "county";
  lockout = false;
  sys_index = 0;
  entries = weather ∷ tower ∷ [];
  num_entries = 2;
}

hold-not_stopped : hold ≢ stopped
hold-not_stopped h = cc

restart-Resumes_example :
    (old new : Scanner) × (run_actions (stops_scanner ∷ round busy ∷ round quiet ∷ []) holding_tower
      ≡ ok old)
    × (start_scanner 0
          (record next_run { saved = reloaded paths leaf first_start held.demod_state old.saved })
        ≡ ok new)
    × Resumes false true tower new
restart-Resumes_example =
    restart-Resumes paths leaf first_start held.demod_state busy quiet holding_tower tower 0
      next_run county refl hold-not_stopped refl
      (record {
        frequency_fits = fits 118_300_000 (omega arith);
        system_fits = fits 0 (omega arith);
        entry_fits = fits 1 (omega arith);
      })
      (pos 30, refl, omega arith, omega arith) (negsuc 79, refl, omega arith, omega arith) refl refl
      (λ listed held_. record { found = refl; below = omega arith; entry = refl }) refl
