-- ===== src/Fields.antt =====
-- `std::getline` on a stream with a delimiter, and parts of a `std::string`.
use Prim.Native.Char.{Char, code}
use pi_scan.Base.{ℕ, zero, suc, String, ◌==◌, List, [], ◌∷◌, if◌then◌else◌}

abbrev pub put_front : Char → List String → List String
put_front c [] = String.◌∷◌ c String.[] ∷ []
put_front c (f ∷ fs) = String.◌∷◌ c f ∷ fs

-- What the calls of `getline` on a stream yield until one fails: a delimiter at the end begins no
-- further field.
unfoldable pub fields : ℕ → String → List String
fields d String.[] = []
fields d (String.◌∷◌ c s) =
    let rest = fields d s in if code c == d then "" ∷ rest else put_front c rest

-- The characters before a position, and those from it on.
abbrev pub before : ℕ → String → String
before zero s = ""
before (suc n) String.[] = ""
before (suc n) (String.◌∷◌ c s) = String.◌∷◌ c (before n s)

abbrev pub from : ℕ → String → String
from zero s = s
from (suc n) String.[] = ""
from (suc n) (String.◌∷◌ c s) = from n s
