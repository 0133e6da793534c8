-- ===== src/Numbers/RoundTrip.antt =====
-- A number that was printed in decimal is read back.
use Prim.Native.Char.{code}
use Prim.Native.String.{◌++◌ as str_append}
use Prim.Native.String.append.{nil as append_nil, cons as append_cons}
use mathlib.Core.Path.{subst}
use pi_scan.Base.{
  ℕ, zero, suc, ◌+◌, ◌-◌, ◌*◌, ◌/◌, ◌%◌, ◌<◌, String, ◌≡◌, refl, sym, ◌∙◌, ap, ℤ, pos, negsuc, ltb,
  ltb→lt, true, false, List, [], ◌∷◌, ◌++◌, some, arith, All, All-append, Bool-cases, inl, inr,
  leb_ℤ, ◌&&◌, none,
}
use pi_scan.Scan.Text.{digit, digits, to_string}
use pi_scan.Numbers.{
  codes, is_digit, value, unsigned, signed, trimmed, within, stoi, stoll, positive, negative,
}

pub codes-append : (s t : String) → codes (str_append s t) ≡ codes s ++ codes t
codes-append String.[] t = ap codes (λ i. append_nil t i)
codes-append (String.◌∷◌ c s) t =
    ap codes (λ i. append_cons c s t i) ∙ ap (◌∷◌ (code c)) (codes-append s t)

abbrev pub IsDigit : ℕ → Type 0
IsDigit c = is_digit c ≡ true

codes-digit : (d : ℕ) → d < 10 → codes (digit d) ≡ (48 + d) ∷ []
unfolding digit
codes-digit zero h = refl
codes-digit (suc zero) h = refl
codes-digit (suc (suc zero)) h = refl
codes-digit (suc (suc (suc zero))) h = refl
codes-digit (suc (suc (suc (suc zero)))) h = refl
codes-digit (suc (suc (suc (suc (suc zero))))) h = refl
codes-digit (suc (suc (suc (suc (suc (suc zero)))))) h = refl
codes-digit (suc (suc (suc (suc (suc (suc (suc zero))))))) h = refl
codes-digit (suc (suc (suc (suc (suc (suc (suc (suc zero)))))))) h = refl
codes-digit (suc (suc (suc (suc (suc (suc (suc (suc (suc zero))))))))) h = refl
codes-digit (suc (suc (suc (suc (suc (suc (suc (suc (suc (suc d)))))))))) h =
    absurd (omega (arith, h))

pub digits-IsDigit : (fuel n : ℕ) → All IsDigit (codes (digits fuel n))
unfolding digits
digits-IsDigit zero n = tt
digits-IsDigit (suc fuel) n = elim (Bool-cases (ltb n 10)) [
  | inl one ↦ rw (one, codes-digit n (omega (arith, ltb→lt n 10 one))) (ground arith, tt)
  | inr more ↦
      rw
        (
          more,
          codes-append (digits fuel (n / 10)) (digit (n % 10)),
          codes-digit (n % 10) (omega arith),
        )
        (All-append IsDigit (codes (digits fuel (n / 10))) ((48 + n % 10) ∷ [])
          (digits-IsDigit fuel (n / 10)) (ground arith, tt))
]

value-append :
    (xs ys : List ℕ) (n : ℕ) → All IsDigit xs → value (xs ++ ys) n ≡ value ys (value xs n)
unfolding value
value-append [] ys n h = refl
value-append (c ∷ xs) ys n h = ground (arith, h.0, value-append xs ys (n * 10 + (c - b'0')) h.1)

value-digits : (fuel n : ℕ) → n < fuel → value (codes (digits fuel n)) 0 ≡ n
unfolding digits
value-digits zero n h = absurd (omega arith)
value-digits (suc fuel) n h = elim (Bool-cases (ltb n 10)) [
  | inl one ↦
      rw (one, codes-digit n (omega (arith, ltb→lt n 10 one))) (unfold value in ground arith)
  | inr more ↦
      rw
        (
          more,
          codes-append (digits fuel (n / 10)) (digit (n % 10)),
          codes-digit (n % 10) (omega arith),
          value-append (codes (digits fuel (n / 10))) ((48 + n % 10) ∷ []) 0
              (digits-IsDigit fuel (n / 10)),
          value-digits fuel (n / 10) (ground arith),
        )
        (unfold value in ground arith)
]

pub digits-cons : (fuel n : ℕ) → n < fuel → (c : ℕ) × (s : List ℕ) × (codes (digits fuel n) ≡ c ∷ s)
unfolding digits
digits-cons zero n h = absurd (omega arith)
digits-cons (suc fuel) n h = elim (Bool-cases (ltb n 10)) [
  | inl one ↦ (48 + n, [], rw (one, codes-digit n (omega (arith, ltb→lt n 10 one))) refl)
  | inr more ↦
      let (c, s, e) = digits-cons fuel (n / 10) (ground arith) in
      (
        c,
        s ++ codes (digit (n % 10)),
        rw (more, codes-append (digits fuel (n / 10)) (digit (n % 10)), e) refl,
      )
]

unsigned-digits : (fuel n : ℕ) → n < fuel → unsigned (codes (digits fuel n)) ≡ some n
unsigned-digits fuel n h =
    let (c, s, e) = digits-cons fuel n h in
    let all : All IsDigit (c ∷ s) = subst (All IsDigit) e (digits-IsDigit fuel n) in
    let read : value (c ∷ s) 0 ≡ n = ap (λ x. value x 0) (sym e) ∙ value-digits fuel n h in
    rw (e, all.0, read) refl

-- A digit is neither a space nor a sign.
signed-digits : (fuel n : ℕ) → n < fuel → signed (trimmed (codes (digits fuel n))) ≡ some (pos n)
signed-digits fuel n h =
    let (c, s, e) = digits-cons fuel n h in
    let all : All IsDigit (c ∷ s) = subst (All IsDigit) e (digits-IsDigit fuel n) in
    let front : is_digit c ≡ true = all.0 in
    let trim : trimmed (c ∷ s) ≡ c ∷ s = ground (arith, front) in
    let plain : signed (c ∷ s) ≡ positive (unsigned (c ∷ s)) = ground (arith, front) in
    let read : unsigned (c ∷ s) ≡ some n = ap unsigned (sym e) ∙ unsigned-digits fuel n h in
    ap (λ x. signed (trimmed x)) e ∙ (ap signed trim ∙ (plain ∙ ap positive read))

signed-to_string : (z : ℤ) → signed (trimmed (codes (to_string z))) ≡ some z
unfolding to_string
signed-to_string (pos n) = signed-digits (n + 1) n (omega arith)
signed-to_string (negsuc n) =
    ap (λ x. signed (trimmed x)) (codes-append "-" (digits (n + 2) (n + 1)))
    ∙ (ap negative (unsigned-digits (n + 2) (n + 1) (omega arith)) ∙ ground arith)

pub stoi-to_string :
    (z : ℤ)
    → leb_ℤ (negsuc 0x7fff_ffff) z && leb_ℤ z (pos 0x7fff_ffff) ≡ true
    → stoi (to_string z) ≡ some z
unfolding stoi
stoi-to_string z h = ap (within 0x7fff_ffff) (signed-to_string z) ∙ rw h refl

-- A number out of the range of the type throws.
pub stoi-to_string_wide :
    (z : ℤ)
    → leb_ℤ (negsuc 0x7fff_ffff) z && leb_ℤ z (pos 0x7fff_ffff) ≡ false
    → stoi (to_string z) ≡ none
unfolding stoi
stoi-to_string_wide z h = ap (within 0x7fff_ffff) (signed-to_string z) ∙ rw h refl

pub stoll-to_string :
    (z : ℤ)
    → leb_ℤ (negsuc 0x7fff_ffff_ffff_ffff) z && leb_ℤ z (pos 0x7fff_ffff_ffff_ffff) ≡ true
    → stoll (to_string z) ≡ some z
unfolding stoll
stoll-to_string z h = ap (within 0x7fff_ffff_ffff_ffff) (signed-to_string z) ∙ rw h refl
