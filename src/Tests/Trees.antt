-- ===== src/Tests/Trees.antt =====
-- A property tree that has the laws of Scan/Tree, and the tests of what is read from one.
use Prim.Native.String.{◌++◌, count}
use text.Mathlib.Text.{◌==◌ as str_eq}
use text.Mathlib.TextLemmas.{length-append}
use text.Mathlib.TextPositions.{eq_refl}
use pi_scan.Base.{
  ℕ, zero, suc, ◌+◌, ◌*◌, ◌/◌, ◌%◌, ◌==◌, String, ◌≡◌, ◌≤◌, refl, ◌∙◌, ap, ℤ, pos, negsuc, leb_ℤ,
  Bool, true, false, List, [], ◌∷◌, Option, none, some, arith, if◌then◌else◌, ◌&&◌, Bool-cases, inl,
  inr,
}
use pi_scan.Scan.Tree.{PropertyTree, FitsInt}
use pi_scan.Scan.Entry.{Entry}
use pi_scan.Scan.System.{populate_from_file, systems_tree}
use pi_scan.Scan.System.EntryTree.{IsStored}
use pi_scan.Scan.System.RoundTrip.{AllKept, populate-systems_tree}
use pi_scan.Tests.{weather, tower, repeater, two_systems}

mutual
  pub data Node : Type 0 where
    leaf : Node
    value : String → String → Node → Node
    child : String → Nodes → Node → Node

  pub data Nodes : Type 0 where
    nil : Nodes
    cons : Node → Nodes → Nodes

abbrev pub to_list : Nodes → List Node
to_list nil = []
to_list (cons t ts) = t ∷ to_list ts

abbrev pub from_list : List Node → Nodes
from_list [] = nil
from_list (t ∷ ts) = cons t (from_list ts)

to_list-from_list : (ts : List Node) → to_list (from_list ts) ≡ ts
to_list-from_list [] = refl
to_list-from_list (t ∷ ts) = ap (◌∷◌ t) (to_list-from_list ts)

abbrev pub get_value : String → Node → Option String
get_value k leaf = none
get_value k (value j v t) = if str_eq j k then some v else get_value k t
get_value k (child j c t) = if str_eq j k then some "" else get_value k t

abbrev pub first_child : Option (List Node) → List Node → Option (List Node)
first_child none c = some c
first_child (some d) c = some d

abbrev pub get_children : String → Node → Option (List Node)
get_children k leaf = none
get_children k (value j v t) = if str_eq j k then some [] else get_children k t
get_children k (child j c t) =
    if str_eq j k then first_child (get_children k t) (to_list c) else get_children k t

-- An integer in unary: an even number of digits for one that is not negative.
unfoldable pub ones : ℕ → String
ones zero = ""
ones (suc n) = "1" ++ ones n

count-ones : (n : ℕ) → count (ones n) ≡ n
unfolding ones
count-ones zero = refl
count-ones (suc n) = length-append "1" (ones n) ∙ omega (arith, count-ones n)

abbrev pub encode : ℤ → ℕ
encode (pos n) = 2 * n
encode (negsuc n) = 2 * n + 1

abbrev pub decode : ℕ → ℤ
decode n = if n % 2 == 0 then pos (n / 2) else negsuc (n / 2)

decode-encode : (z : ℤ) → decode (encode z) ≡ z
decode-encode (pos n) = ground arith
decode-encode (negsuc n) = ground arith

abbrev pub fits : ℤ → Bool
fits z = leb_ℤ (negsuc 0x7fff_ffff) z && leb_ℤ z (pos 0x7fff_ffff)

abbrev pub if_fits : ℤ → Option ℤ
if_fits z = if fits z then some z else none

abbrev pub bool_text : Bool → String
bool_text true = "true"
bool_text false = "false"

abbrev pub text_bool : String → Option Bool
text_bool s = if str_eq s "true" then some true else if str_eq s "false" then some false else none

pub parse-print : (z : ℤ) → if_fits (decode (count (ones (encode z)))) ≡ if_fits z
parse-print z = ap (λ n. if_fits (decode n)) (count-ones (encode z)) ∙ ap if_fits (decode-encode z)

pub wide : (z : ℤ) → ¬ FitsInt z → if_fits z ≡ none
wide z h = elim (Bool-cases (fits z)) [
  | inl in_range ↦ absurd (h record { above = ground arith; below = ground arith })
  | inr too_wide ↦ rw too_wide refl
]

pub children_self :
    (k : String) (c : List Node) (t : Node)
    → get_children k t ≡ none
    → get_children k (child k (from_list c) t) ≡ some c
children_self k c t h = ground (arith, eq_refl k, h, to_list-from_list c)

pub narrow : (z : ℤ) → FitsInt z → if_fits z ≡ some z
narrow z h = ground (arith, h.above, h.below)

pub value_apart :
    (k j : String) (c : List Node) (t : Node)
    → str_eq j k ≡ false
    → get_value k (child j (from_list c) t) ≡ get_value k t
value_apart k j c t h = rw h refl

pub children_apart :
    (k j v : String) (t : Node)
    → str_eq j k ≡ false
    → get_children k (value j v t) ≡ get_children k t
children_apart k j v t h = rw h refl

pub bools : (b : Bool) → text_bool (bool_text b) ≡ some b
bools true = refl
bools false = refl

abbrev pub nodes : PropertyTree
nodes = record {
  Tree = Node;
  empty = leaf;
  get = get_value;
  put = value;
  get_child = get_children;
  add_child = λ k c t. child k (from_list c) t;
  print_int = λ z. ones (encode z);
  parse_int = λ s. if_fits (decode (count s));
  print_bool = bool_text;
  parse_bool = text_bool;
  get-put = λ k j v t. refl;
  get-add_child = value_apart;
  get_child-add_child_self = children_self;
  get_child-put = children_apart;
  get_child-empty = λ k. refl;
  parse-print_int = λ z h. parse-print z ∙ narrow z h;
  parse-print_int_wide = λ z h. parse-print z ∙ wide z h;
  parse-print_bool = bools;
}

pub int_stored : (n : ℕ) → n ≤ 0x7fff_ffff → FitsInt (pos n)
int_stored n h = record { above = omega arith; below = omega arith }

weather-IsStored : IsStored weather
weather-IsStored = record {
  real = λ h. cc;
  frequency_fits = int_stored 162_400_000 (omega arith);
  delay_fits = int_stored 2000 (omega arith);
  tuned = refl;
  persistent = refl;
}

tower-IsStored : IsStored tower
tower-IsStored = record {
  real = λ h. cc;
  frequency_fits = int_stored 118_300_000 (omega arith);
  delay_fits = int_stored 0 (omega arith);
  tuned = refl;
  persistent = refl;
}

repeater-IsStored : IsStored repeater
repeater-IsStored = record {
  real = λ h. cc;
  frequency_fits = int_stored 162_550_000 (omega arith);
  delay_fits = int_stored 0 (omega arith);
  tuned = refl;
  persistent = refl;
}

two_systems-AllKept : AllKept 0 two_systems
two_systems-AllKept = (
  record {
    placed = refl;
    sized = refl;
    stored = (weather-IsStored, (tower-IsStored, tt));
    numbered = (refl, refl, (refl, refl, tt));
  },
  (
    record {
      placed = refl;
      sized = refl;
      stored = (repeater-IsStored, tt);
      numbered = (refl, refl, tt);
    },
    tt,
  ),
)

populate-systems_tree_example :
    populate_from_file nodes [] (some (systems_tree nodes two_systems)) ≡ some two_systems
populate-systems_tree_example = populate-systems_tree nodes two_systems two_systems-AllKept

abbrev pub amateur_microwave : Entry
amateur_microwave = record weather { frequency = pos 2_304_100_000 }
