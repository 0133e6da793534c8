-- ===== src/Frontend/Lines.antt =====
-- A line that is put together from words is taken apart into them again.
use Prim.Native.Char.{Char, code}
use Prim.Native.String.{◌++◌ as str_append}
use Prim.Native.String.append.{nil as append_nil, cons as append_cons}
use mathlib.Core.Path.{subst}
use pi_scan.Base.{
  ℕ, ◌==◌, String, ◌≡◌, refl, sym, ap, ◌∙◌, ℤ, pos, negsuc, Bool, true, false, List, [], ◌∷◌, All,
  arith, ◌+◌,
}
use pi_scan.Fields.{fields, put_front}
use pi_scan.Numbers.{codes}
use pi_scan.Numbers.RoundTrip.{IsDigit, codes-append, digits-IsDigit, digits-cons}
use pi_scan.Scan.Text.{digits, to_string}

-- A word holds no delimiter.
abbrev pub Lacks : ℕ → String → Type 0
Lacks d s = All (λ c. (c == d) ≡ false) (codes s)

-- A word that is not empty.
abbrev pub starts : String → Bool
starts String.[] = false
starts (String.◌∷◌ c s) = true

-- The rest of a line behind a delimiter.
abbrev pub behind : Char → String → String
behind d s = String.◌∷◌ d s

fields_cut : (d : Char) (s : String) → fields (code d) (behind d s) ≡ "" ∷ fields (code d) s
unfolding fields
fields_cut d s = ground arith

fields_step :
    (d : ℕ) (c : Char) (s : String)
    → (code c == d) ≡ false
    → fields d (behind c s) ≡ put_front c (fields d s)
unfolding fields
fields_step d c s h = rw (h) refl

pub fields-word :
    (d : Char) (w s : String)
    → Lacks (code d) w
    → fields (code d) (str_append w (behind d s)) ≡ w ∷ fields (code d) s
fields-word d String.[] s h = ap (fields (code d)) (λ i. append_nil (behind d s) i) ∙ fields_cut d s
fields-word d (String.◌∷◌ c w) s h =
    ap (fields (code d)) (λ i. append_cons c w (behind d s) i)
    ∙ (fields_step (code d) c (str_append w (behind d s)) h.0
        ∙ ap (put_front c) (fields-word d w s h.1))

pub fields-last : (d : ℕ) (w : String) → Lacks d w → starts w ≡ true → fields d w ≡ w ∷ []
unfolding fields
fields-last d String.[] h k = cc
fields-last d (String.◌∷◌ c String.[]) h k = rw (h.0) refl
fields-last d (String.◌∷◌ c (String.◌∷◌ c' w)) h k =
    fields_step d c (behind c' w) h.0 ∙ ap (put_front c) (fields-last d (String.◌∷◌ c' w) h.1 refl)

-- The digits of a number, and its sign, are no spaces.
digits-Lacks : (cs : List ℕ) → All IsDigit cs → All (λ c. (c == b' ') ≡ false) cs
digits-Lacks [] h = tt
digits-Lacks (c ∷ cs) h = (ground (arith, h.0), digits-Lacks cs h.1)

pub to_string-Lacks : (z : ℤ) → Lacks b' ' (to_string z)
unfolding to_string
to_string-Lacks (pos n) = digits-Lacks (codes (digits (n + 1) n)) (digits-IsDigit (n + 1) n)
to_string-Lacks (negsuc n) =
    subst (All (λ c. (c == b' ') ≡ false)) (sym (codes-append "-" (digits (n + 2) (n + 1))))
      (refl, digits-Lacks (codes (digits (n + 2) (n + 1))) (digits-IsDigit (n + 2) (n + 1)))

starts-cons : (s : String) (c : ℕ) (cs : List ℕ) → codes s ≡ c ∷ cs → starts s ≡ true
starts-cons String.[] c cs h = cc
starts-cons (String.◌∷◌ d s) c cs h = refl

pub to_string-starts : (z : ℤ) → starts (to_string z) ≡ true
unfolding to_string
to_string-starts (pos n) =
    let (c, cs, e) = digits-cons (n + 1) n (omega arith) in starts-cons (digits (n + 1) n) c cs e
to_string-starts (negsuc n) =
    starts-cons (str_append "-" (digits (n + 2) (n + 1))) b'-' (codes (digits (n + 2) (n + 1)))
      (codes-append "-" (digits (n + 2) (n + 1)))

-- A word and a number behind it, as the console reads them.
pub fields-number :
    (w : String) (z : ℤ)
    → Lacks b' ' w
    → fields b' ' (str_append w (behind " " (to_string z))) ≡ w ∷ to_string z ∷ []
fields-number w z h =
    fields-word " " w (to_string z) h
    ∙ ap (◌∷◌ w) (fields-last b' ' (to_string z) (to_string-Lacks z) (to_string-starts z))
