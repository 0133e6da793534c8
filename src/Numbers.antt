-- ===== src/Numbers.antt =====
-- `std::stoi` and `std::stoll` of the standard library, which the sources apply to fields of files
-- and of commands. `none` stands for the exception that they throw.
pub mod RoundTrip
use Prim.Native.Char.{code}
use pi_scan.Base.{
  ℕ, suc, ◌+◌, ◌-◌, ◌*◌, String, ℤ, pos, negsuc, leb, ◌==◌, leb_ℤ, Bool, ◌&&◌, ◌||◌, List, [], ◌∷◌,
  Option, none, some, if◌then◌else◌, sub_ℕ,
}

-- The code points of a text.
abbrev pub codes : String → List ℕ
codes String.[] = []
codes (String.◌∷◌ c s) = code c ∷ codes s

abbrev pub is_digit : ℕ → Bool
is_digit c = leb b'0' c && leb c b'9'

abbrev pub is_space : ℕ → Bool
is_space c = c == b' ' || (leb 9 c && leb c 13)

-- The digits at the front, behind the value of those before them.
unfoldable pub value : List ℕ → ℕ → ℕ
value [] n = n
value (c ∷ s) n = let rest = value s (n * 10 + (c - b'0')) in if is_digit c then rest else n

-- At least one digit is needed.
abbrev pub unsigned : List ℕ → Option ℕ
unsigned [] = none
unsigned (c ∷ s) = if is_digit c then some (value (c ∷ s) 0) else none

abbrev pub positive : Option ℕ → Option ℤ
positive none = none
positive (some n) = some (pos n)

abbrev pub negative : Option ℕ → Option ℤ
negative none = none
negative (some n) = some (sub_ℕ 0 n)

abbrev pub signed : List ℕ → Option ℤ
signed [] = none
signed (c ∷ s) =
    if c == b'-'
    then negative (unsigned s)
    else if c == b'+'
    then positive (unsigned s)
    else positive (unsigned (c ∷ s))

abbrev pub trimmed : List ℕ → List ℕ
trimmed [] = []
trimmed (c ∷ s) = let rest = trimmed s in if is_space c then rest else c ∷ s

abbrev pub within : ℕ → Option ℤ → Option ℤ
within max none = none
within max (some z) = if leb_ℤ (negsuc max) z && leb_ℤ z (pos max) then some z else none

unfoldable pub stoi : String → Option ℤ
unfolding value
stoi s = within 0x7fff_ffff (signed (trimmed (codes s)))

unfoldable pub stoll : String → Option ℤ
unfolding value
stoll s = within 0x7fff_ffff_ffff_ffff (signed (trimmed (codes s)))
