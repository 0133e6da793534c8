-- ===== src/Scan/Tree.antt =====
-- `boost::property_tree::ptree`, a library that the sources only call: an interface with the
-- documented behaviour of the calls that src/scan makes.
use text.Mathlib.Text.{◌==◌ as str_eq}
use pi_scan.Base.{
  ◌≡◌, String, ℤ, pos, negsuc, ◌≤ℤ◌, Bool, false, List, Option, none, some, if◌then◌else◌,
}

-- The values of a 32-bit `int`.
pub record FitsInt (n : ℤ) : Type 0 where
  pub above : negsuc 0x7fff_ffff ≤ℤ n
  pub below : n ≤ℤ pos 0x7fff_ffff

-- A tree holds a text or a list of children under each key. `put` prints its value as a text, and
-- a typed `get` parses one.
pub record PropertyTree : Type 1 where
  pub Tree : Type 0
  pub empty : Tree
  pub get : String → Tree → Option String
  pub put : String → String → Tree → Tree
  pub get_child : String → Tree → Option (List Tree)
  pub add_child : String → List Tree → Tree → Tree
  pub print_int : ℤ → String
  pub parse_int : String → Option ℤ
  pub print_bool : Bool → String
  pub parse_bool : String → Option Bool
  pub get-put :
      (k j v : String) (t : Tree) → get k (put j v t) ≡ (if str_eq j k then some v else get k t)
  pub get-add_child :
      (k j : String) (c : List Tree) (t : Tree)
      → str_eq j k ≡ false
      → get k (add_child j c t) ≡ get k t
  pub get_child-add_child_self :
      (k : String) (c : List Tree) (t : Tree)
      → get_child k t ≡ none
      → get_child k (add_child k c t) ≡ some c
  pub get_child-put :
      (k j v : String) (t : Tree) → str_eq j k ≡ false → get_child k (put j v t) ≡ get_child k t
  pub get_child-empty : (k : String) → get_child k empty ≡ none
  pub parse-print_int : (n : ℤ) → FitsInt n → parse_int (print_int n) ≡ some n
  pub parse-print_int_wide : (n : ℤ) → ¬ FitsInt n → parse_int (print_int n) ≡ none
  pub parse-print_bool : (b : Bool) → parse_bool (print_bool b) ≡ some b

-- `get(path, default)`: the default where the key is missing or its text does not parse.
module _ (P : PropertyTree) where
  open P use {Tree, get, parse_int, parse_bool}

  abbrev pub get_text : String → String → Tree → String
  get_text k d t = elim (get k t) [ none ↦ d | some v ↦ v ]

  abbrev pub parsed_int : Option String → ℤ → ℤ
  parsed_int none d = d
  parsed_int (some v) d = elim (parse_int v) [ none ↦ d | some n ↦ n ]

  abbrev pub get_int : String → ℤ → Tree → ℤ
  get_int k d t = parsed_int (get k t) d

  abbrev pub parsed_bool : Option String → Bool → Bool
  parsed_bool none d = d
  parsed_bool (some v) d = elim (parse_bool v) [ none ↦ d | some b ↦ b ]

  abbrev pub get_bool : String → Bool → Tree → Bool
  get_bool k d t = parsed_bool (get k t) d
