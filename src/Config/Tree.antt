-- ===== src/Config/Tree.antt =====
-- `boost::property_tree::ptree` as common/ uses it: texts and lists of subtrees under paths. A path
-- is the list of its keys, which the library splits at each dot.
use text.Mathlib.Text.{◌==◌ as str_eq}
use pi_scan.Base.{
  String, ◌≡◌, ℤ, pos, negsuc, ◌≤ℤ◌, Bool, true, false, ◌&&◌, List, [], ◌∷◌, Option, none, some,
  if◌then◌else◌,
}
use pi_scan.Scan.Text.{to_string}
use pi_scan.Scan.Tree.{FitsInt}

abbrev pub Keys : Type 0
Keys = List String

abbrev pub same_path : Keys → Keys → Bool
same_path [] [] = true
same_path [] (y ∷ q) = false
same_path (x ∷ p) [] = false
same_path (x ∷ p) (y ∷ q) = str_eq x y && same_path p q

-- The paths part at some key, so that neither leads through the other.
abbrev pub apart : Keys → Keys → Bool
apart [] q = false
apart (x ∷ p) [] = false
apart (x ∷ p) (y ∷ q) = if str_eq x y then apart p q else true

-- The values of a 64-bit `long`.
pub record FitsLong (n : ℤ) : Type 0 where
  pub above : negsuc 0x7fff_ffff_ffff_ffff ≤ℤ n
  pub below : n ≤ℤ pos 0x7fff_ffff_ffff_ffff

-- `Float` is the machine's `float`, and `data_of` the text of the tree itself. `put` and `put_child`
-- replace what is under a path and make the keys that lead to it. `get_child` is `none` where it
-- throws. `erase` takes a key, not a path.
pub record PathTree : Type 1 where
  pub Tree : Type 0
  pub empty : Tree
  pub data_of : Tree → String
  pub get : Keys → Tree → Option String
  pub put : Keys → String → Tree → Tree
  pub get_child : Keys → Tree → Option (List Tree)
  pub put_child : Keys → List Tree → Tree → Tree
  pub erase : String → Tree → Tree
  pub print_int : ℤ → String
  pub parse_int : String → Option ℤ
  pub parse_long : String → Option ℤ
  pub print_bool : Bool → String
  pub parse_bool : String → Option Bool
  pub Float : Type 0
  pub of_int : ℤ → Float
  pub print_float : Float → String
  pub data-put : (v : String) (t : Tree) → data_of (put [] v t) ≡ v
  pub get-put_self : (p : Keys) (v : String) (t : Tree) → get p (put p v t) ≡ some v
  pub get-put_apart :
      (p q : Keys) (v : String) (t : Tree) → apart q p ≡ true → get p (put q v t) ≡ get p t
  pub get-put_child_apart :
      (p q : Keys) (c : List Tree) (t : Tree) → apart q p ≡ true → get p (put_child q c t) ≡ get p t
  pub get_child-put_child_self :
      (p : Keys) (c : List Tree) (t : Tree) → get_child p (put_child p c t) ≡ some c
  pub get-erase :
      (k x : String) (p : Keys) (t : Tree)
      → str_eq k x ≡ false
      → get (x ∷ p) (erase k t) ≡ get (x ∷ p) t
  pub print_int-to_string : (n : ℤ) → print_int n ≡ to_string n
  pub parse-print_int : (n : ℤ) → FitsInt n → parse_int (print_int n) ≡ some n
  pub parse-print_int_wide : (n : ℤ) → ¬ FitsInt n → parse_int (print_int n) ≡ none
  pub parse-print_long : (n : ℤ) → FitsLong n → parse_long (print_int n) ≡ some n
  pub parse-print_bool : (b : Bool) → parse_bool (print_bool b) ≡ some b
  -- A whole number that a `float` holds exactly is printed without a point.
  pub parse-print_float :
      (n : ℤ)
      → negsuc 0xff_ffff ≤ℤ n
      → n ≤ℤ pos 0x100_0000
      → parse_int (print_float (of_int n)) ≡ some n

abbrev pub read_with {ℓ} : {A : Type ℓ} → (String → Option A) → A → Option String → A
read_with parse d none = d
read_with parse d (some v) = elim (parse v) [ none ↦ d | some x ↦ x ]

-- `get(path, default)`, whose type is that of the default.
module _ (P : PathTree) where
  open P use {Tree, get, parse_int, parse_long, parse_bool}

  abbrev pub get_text : Keys → String → Tree → String
  get_text p d t = read_with some d (get p t)

  abbrev pub get_int : Keys → ℤ → Tree → ℤ
  get_int p d t = read_with parse_int d (get p t)

  abbrev pub get_long : Keys → ℤ → Tree → ℤ
  get_long p d t = read_with parse_long d (get p t)

  abbrev pub get_bool : Keys → Bool → Tree → Bool
  get_bool p d t = read_with parse_bool d (get p t)
