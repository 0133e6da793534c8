-- ===== src/Base/Outcomes.antt =====
-- What a call of the source comes to: a result, undefined behaviour, or a loop that outlives its fuel.
use mathlib.Core.Path.{◌≡◌, refl, subst}
use mathlib.Core.Bool.{Bool, true, false}
use pi_scan.Base.Tests.{if◌then◌else◌}

pub data Outcome {ℓ} (A : Type ℓ) : Type ℓ where
  ok : A → Outcome A
  -- A read through a null pointer, past the end of a vector, or through a pointer of another type.
  undefined : Outcome A
  -- The loops of the call did not end within the fuel given.
  out_of_fuel : Outcome A

infixl 5 ◌>>=◌
abbrev pub ◌>>=◌ {ℓ κ} : {A : Type ℓ} {B : Type κ} → Outcome A → (A → Outcome B) → Outcome B
ok a >>= f = f a
undefined >>= f = undefined
out_of_fuel >>= f = out_of_fuel

pub ok-injective {ℓ} : {A : Type ℓ} {a b : A} → ok a ≡ ok b → a ≡ b
ok-injective h = cc

-- What holds of the result, if the call returns one.
abbrev pub Post {ℓ κ} : {A : Type ℓ} → (A → Type κ) → Outcome A → Type κ
Post P (ok a) = P a
Post P undefined = Unit
Post P out_of_fuel = Unit

module _ {ℓ κ} {A : Type ℓ} (P : A → Type κ) where
  pub Post-ok : {m : Outcome A} {a : A} → Post P m → m ≡ ok a → P a
  Post-ok h e = subst (Post P) e h

  pub if-Post :
      (b : Bool) (x y : Outcome A)
      → (b ≡ true → Post P x)
      → (b ≡ false → Post P y)
      → Post P (if b then x else y)
  if-Post true x y h k = h refl
  if-Post false x y h k = k refl

module _ {ℓ κ μ ν} {A : Type ℓ} {B : Type κ} (P : A → Type μ) (Q : B → Type ν) where
  pub bind-Post :
      (m : Outcome A) (f : A → Outcome B)
      → Post P m
      → ((a : A) → P a → Post Q (f a))
      → Post Q (m >>= f)
  bind-Post (ok a) f h k = k a h
  bind-Post undefined f h k = tt
  bind-Post out_of_fuel f h k = tt

module _ {ℓ κ ν} {A : Type ℓ} {B : Type κ} (Q : B → Type ν) where
  -- Where nothing of the first result matters.
  pub bind_any-Post :
      (m : Outcome A) (f : A → Outcome B) → ((a : A) → Post Q (f a)) → Post Q (m >>= f)
  bind_any-Post (ok a) f k = k a
  bind_any-Post undefined f k = tt
  bind_any-Post out_of_fuel f k = tt
