-- ===== src/Config/Puts.antt =====
-- Reading a path behind a sequence of `put` calls, as one lookup.
use text.Mathlib.Text.{◌==◌ as str_eq}
use text.Mathlib.TextEquality.{eq_iff}
use pi_scan.Base.{
  String, ◌≡◌, refl, ◌∙◌, ap, ℤ, Bool, true, ◌&&◌, ◌||◌, List, [], ◌∷◌, Option, some, if◌then◌else◌,
  arith, Bool-cases, inl, inr,
}
use pi_scan.Config.Tree.{
  Keys, PathTree, read_with, same_path, apart, FitsLong, get_text, get_int, get_long, get_bool,
}
use pi_scan.Scan.Tree.{FitsInt}

abbrev pub Puts : Type 0
Puts = List (Keys × String)

abbrev pub lookup : Keys → Puts → Option String → Option String
lookup p [] o = o
lookup p ((q, v) ∷ fs) o = if same_path q p then some v else lookup p fs o

-- Every path of the sequence is the one that is read, or parts from it.
abbrev pub clear : Keys → Puts → Bool
clear p [] = true
clear p ((q, v) ∷ fs) = (same_path q p || apart q p) && clear p fs

same_path-eq : (p q : Keys) → same_path p q ≡ true → p ≡ q
same_path-eq [] [] h = refl
same_path-eq [] (y ∷ q) h = cc
same_path-eq (x ∷ p) [] h = cc
same_path-eq (x ∷ p) (y ∷ q) h = elim (Bool-cases (str_eq x y)) [
  | inl same ↦ elim (Bool-cases (same_path p q)) [
    | inl rest ↦ cc ((eq_iff x y).0 same, same_path-eq p q rest)
    | inr other ↦ absurd (ground (arith))
  ]
  | inr other ↦ absurd (ground (arith))
]

module _ (P : PathTree) where
  open P use {Tree, get, put, print_int, print_bool}

  abbrev pub puts : Puts → Tree → Tree
  puts [] t = t
  puts ((q, v) ∷ fs) t = put q v (puts fs t)

  pub get-puts :
      (p : Keys) (fs : Puts) (t : Tree)
      → clear p fs ≡ true
      → get p (puts fs t) ≡ lookup p fs (get p t)
  get-puts p [] t h = refl
  get-puts p ((q, v) ∷ fs) t h = elim (Bool-cases (same_path q p)) [
    | inl same ↦
        rw (same)
          (ap (λ x. get p (put x v (puts fs t))) (same_path-eq q p same) ∙ P.get-put_self p v _)
    | inr other ↦
        rw (other)
          (P.get-put_apart p q v (puts fs t) (ground (arith)) ∙ get-puts p fs t (ground (arith)))
  ]

  -- What a typed read returns where the text that was put is found.
  pub read_int :
      (p : Keys) (d n : ℤ) (t : Tree)
      → get p t ≡ some (print_int n)
      → FitsInt n
      → get_int P p d t ≡ n
  read_int p d n t h f = rw (h, read_with, P.parse-print_int n f) refl

  pub read_long :
      (p : Keys) (d n : ℤ) (t : Tree)
      → get p t ≡ some (print_int n)
      → FitsLong n
      → get_long P p d t ≡ n
  read_long p d n t h f = rw (h, read_with, P.parse-print_long n f) refl

  pub read_bool :
      (p : Keys) (d b : Bool) (t : Tree) → get p t ≡ some (print_bool b) → get_bool P p d t ≡ b
  read_bool p d b t h = rw (h, read_with, P.parse-print_bool b) refl

  pub read_text : (p : Keys) (d v : String) (t : Tree) → get p t ≡ some v → get_text P p d t ≡ v
  read_text p d v t h = rw (h) refl
