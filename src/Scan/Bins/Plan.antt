-- ===== src/Scan/Bins/Plan.antt =====
-- What `sortBins` makes of the frequencies, as a function of the channels in any order: they are put
-- in order, and cut where one lies the bandwidth or more above the first of its bin.
use mathlib.Core.List.{Permᴰ}
use mathlib.Core.Logic.{∥∥₁_elim}
use mathlib.Core.Quot
use mathlib.Core.Quot.{Quot}
use pi_scan.Base.{
  ◌≡◌, refl, sym, ◌∙◌, ap, ℤ, pos, negsuc, ◌+ℤ◌, ◌≤ℤ◌, leb_ℤ, true, false, inl, inr, List, [], ◌∷◌,
  map, arith, Bool-cases, if◌then◌else◌, Perm,
}
use pi_scan.Scan.Entry.{Entry}
use pi_scan.Scan.Sorting.Merge.{Ascending}

-- The channels of a database, without their order.
abbrev pub Channels : Type 0
Channels = Quot {α = List Entry} Perm

insert : ℤ → List ℤ → List ℤ
insert f [] = f ∷ []
insert f (g ∷ gs) = let rest = insert f gs in if leb_ℤ f g then f ∷ g ∷ gs else g ∷ rest

unfoldable pub in_order : List Entry → List ℤ
unfolding insert
in_order [] = []
in_order (e ∷ es) = insert e.frequency (in_order es)

≤ℤ_antisymm : (a b : ℤ) → a ≤ℤ b → b ≤ℤ a → a ≡ b
≤ℤ_antisymm (pos m) (pos n) h k = ap pos (omega arith)
≤ℤ_antisymm (pos m) (negsuc n) h k = absurd (omega arith)
≤ℤ_antisymm (negsuc m) (pos n) h k = absurd (omega arith)
≤ℤ_antisymm (negsuc m) (negsuc n) h k = ap negsuc (omega arith)

ℤ_set : IsSet ℤ
ℤ_set = hlevel

insert-below : (f g : ℤ) (gs : List ℤ) → leb_ℤ f g ≡ true → insert f (g ∷ gs) ≡ f ∷ g ∷ gs
unfolding insert
insert-below f g gs h = rw (h) refl

insert-above : (f g : ℤ) (gs : List ℤ) → leb_ℤ f g ≡ false → insert f (g ∷ gs) ≡ g ∷ insert f gs
unfolding insert
insert-above f g gs h = rw (h, insert) refl

-- Of two numbers, the order in which they come does not matter.
insert_apart :
    (f g : ℤ) (hs : List ℤ)
    → leb_ℤ f g ≡ true
    → leb_ℤ g f ≡ false
    → insert f (insert g hs) ≡ insert g (insert f hs)
insert_apart f g [] le gt = unfold insert in (insert-below f g [] le ∙ sym (insert-above g f [] gt))
insert_apart f g (h ∷ hs) le gt = elim (Bool-cases (leb_ℤ g h)) [
  | inl gh ↦
      rw
        (
          insert-below g h hs gh,
          insert-below f g (h ∷ hs) le,
          insert-below f h hs (ground arith),
          insert-above g f (h ∷ hs) gt,
          insert-below g h hs gh,
        )
        refl
  | inr hg ↦ elim (Bool-cases (leb_ℤ f h)) [
    | inl fh ↦
        rw
          (
            insert-above g h hs hg,
            insert-below f h (insert g hs) fh,
            insert-below f h hs fh,
            insert-above g f (h ∷ hs) gt,
            insert-above g h hs hg,
          )
          refl
    | inr hf ↦
        rw
          (
            insert-above g h hs hg,
            insert-above f h (insert g hs) hf,
            insert-above f h hs hf,
            insert-above g h (insert f hs) hg,
            insert_apart f g hs le gt,
          )
          refl
  ]
]

insert_comm : (f g : ℤ) (hs : List ℤ) → insert f (insert g hs) ≡ insert g (insert f hs)
insert_comm f g hs = elim (Bool-cases (leb_ℤ f g)) [
  | inl le ↦ elim (Bool-cases (leb_ℤ g f)) [
    | inl ge ↦ let same : f ≡ g = ≤ℤ_antisymm f g (ground arith) (ground arith) in cc
    | inr gt ↦ insert_apart f g hs le gt
  ]
  | inr gt ↦ sym (insert_apart g f hs (ground arith) gt)
]

in_order-Permᴰ : {xs ys : List Entry} → Permᴰ xs ys → in_order xs ≡ in_order ys
unfolding in_order
in_order-Permᴰ Permᴰ.nil = refl
in_order-Permᴰ (Permᴰ.cons e p) = rw (e, in_order-Permᴰ p) refl
in_order-Permᴰ (Permᴰ.swap {a' = y} {b' = x} {l = es} e f) =
    rw (e, f) (insert_comm x.frequency y.frequency (in_order es))
in_order-Permᴰ (Permᴰ.trans p q) = in_order-Permᴰ p ∙ in_order-Permᴰ q

-- The frequencies in order depend only on the channels.
pub in_order-Perm : (xs ys : List Entry) → Perm xs ys → in_order xs ≡ in_order ys
in_order-Perm xs ys p = ∥∥₁_elim p (hlevel) (λ d. in_order-Permᴰ d)

pub in_order-Ascending : (es : List Entry) → Ascending es → in_order es ≡ map (λ e. e.frequency) es
unfolding in_order insert
in_order-Ascending [] h = refl
in_order-Ascending (e ∷ []) h = refl
in_order-Ascending (e ∷ x ∷ xs) h =
    let below : leb_ℤ e.frequency x.frequency ≡ true = ground (arith, h.0.0) in
    rw (in_order-Ascending (x ∷ xs) h.1) (insert-below e.frequency x.frequency _ below)

-- The frequencies of the bin that starts at `front`, and those of the bins behind it.
unfoldable pub cut : ℤ → ℤ → List ℤ → List ℤ × List (List ℤ)
cut bandwidth front [] = ([], [])
cut bandwidth front (f ∷ fs) =
    let next = cut bandwidth f fs in
    let here = cut bandwidth front fs in
    if leb_ℤ (front +ℤ bandwidth) f then ([], (f ∷ next.0) ∷ next.1) else (f ∷ here.0, here.1)

unfoldable pub cuts : ℤ → List ℤ → List (List ℤ)
unfolding cut
cuts bandwidth [] = []
cuts bandwidth (f ∷ fs) = let r = cut bandwidth f fs in (f ∷ r.0) ∷ r.1

-- The frequencies of the bins for some channels.
unfoldable pub plan : ℤ → Channels → List (List ℤ)
unfolding in_order cuts
plan bandwidth =
    Quot.lift (hlevel) (λ es. cuts bandwidth (in_order es))
      λ xs ys p. ap (cuts bandwidth) (in_order-Perm xs ys p)
