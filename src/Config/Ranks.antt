-- ===== src/Config/Ranks.antt =====
-- The set of tuners as a map from ranks: TunerList of common/Configuration.h.
use pi_scan.Base.{
  ◌≡◌, refl, sym, ◌∙◌, ap, ℤ, ◌<ℤ◌, leb_ℤ, ◌&&◌, List, [], ◌∷◌, ◌++◌, map, Option, none, some,
  arith, All, if◌then◌else◌, Bool-cases, inl, inr, ltb_ℤ,
}
use mathlib.Core.List.{append_assoc, append-nil}
use pi_scan.Tuner.{TunerConfig, insert_config}
use pi_scan.Config.Tree.{PathTree}
use pi_scan.Config.Tuners.{IsRanked}
use pi_scan.Config.Saving.{load_tuner, insert_tuners}

-- The first tuner of a rank, in any list.
abbrev pub find_rank : ℤ → List TunerConfig → Option TunerConfig
find_rank r [] = none
find_rank r (c ∷ cs) =
    let rest = find_rank r cs in if leb_ℤ r c.rank && leb_ℤ c.rank r then some c else rest

lt_trans-All :
    (a b : ℤ) (cs : List TunerConfig)
    → a <ℤ b
    → All (λ d. b <ℤ d.rank) cs
    → All (λ d. a <ℤ d.rank) cs
lt_trans-All a b [] h k = tt
lt_trans-All a b (c ∷ cs) h k = (omega (arith, h, k.0), lt_trans-All a b cs h k.1)

insert_config-All :
    (a : ℤ) (c : TunerConfig) (cs : List TunerConfig)
    → a <ℤ c.rank
    → All (λ d. a <ℤ d.rank) cs
    → All (λ d. a <ℤ d.rank) (insert_config c cs)
unfolding insert_config
insert_config-All a c [] h k = (h, tt)
insert_config-All a c (d ∷ cs) h k = elim (Bool-cases (ltb_ℤ c.rank d.rank)) [
  | inl below ↦ rw (below) (h, k)
  | inr not_below ↦ elim (Bool-cases (ltb_ℤ d.rank c.rank)) [
    | inl above ↦ rw (not_below, above) (k.0, insert_config-All a c cs h k.1)
    | inr same ↦ rw (not_below, same) k
  ]
]

pub insert_config-IsRanked :
    (c : TunerConfig) (cs : List TunerConfig) → IsRanked cs → IsRanked (insert_config c cs)
unfolding insert_config
insert_config-IsRanked c [] h = (tt, tt)
insert_config-IsRanked c (d ∷ cs) h = elim (Bool-cases (ltb_ℤ c.rank d.rank)) [
  | inl below ↦
      rw (below)
        ((ground (arith, below), lt_trans-All c.rank d.rank cs (ground (arith, below)) h.0), h)
  | inr not_below ↦ elim (Bool-cases (ltb_ℤ d.rank c.rank)) [
    | inl above ↦
        rw (not_below, above)
          (
            insert_config-All d.rank c cs (ground (arith, above)) h.0,
            insert_config-IsRanked c cs h.1,
          )
    | inr same ↦ rw (not_below, same) h
  ]
]

-- Behind a rank that is below all of the list there is none.
find_rank-none : (r : ℤ) (cs : List TunerConfig) → All (λ d. r <ℤ d.rank) cs → find_rank r cs ≡ none
find_rank-none r [] h = refl
find_rank-none r (c ∷ cs) h = ground (arith, h.0, find_rank-none r cs h.1)

abbrev or_else : Option TunerConfig → Option TunerConfig → Option TunerConfig
or_else none o = o
or_else (some c) o = some c

find_rank-append :
    (r : ℤ) (cs ds : List TunerConfig)
    → find_rank r (cs ++ ds) ≡ or_else (find_rank r cs) (find_rank r ds)
find_rank-append r [] ds = refl
find_rank-append r (c ∷ cs) ds = ground (arith, find_rank-append r cs ds)

find_rank-insert :
    (r : ℤ) (c : TunerConfig) (cs : List TunerConfig)
    → IsRanked cs
    → find_rank r (insert_config c cs) ≡ find_rank r (cs ++ c ∷ [])
unfolding insert_config
find_rank-insert r c [] h = refl
find_rank-insert r c (d ∷ cs) h =
    let tail = find_rank-append r cs (c ∷ []) in
    let ih = find_rank-insert r c cs h.1 in
    elim (Bool-cases (leb_ℤ r c.rank && leb_ℤ c.rank r)) [
      | inl this ↦ elim (Bool-cases (ltb_ℤ c.rank d.rank)) [
        | inl below ↦
            let absent : find_rank r cs ≡ none =
              find_rank-none r cs (lt_trans-All r d.rank cs (ground (arith, this, below)) h.0) in
            ground (arith, this, below, absent, tail)
        | inr not_below ↦ ground (arith, this, not_below, tail, ih)
      ]
      | inr other ↦ ground (arith, other, tail, ih)
    ]

-- The tuners of a file are added to the set as to a map from ranks: behind the loop the set is in the
-- order of its ranks, and under each rank it holds what it held, or else the first tuner of the file
-- with that rank.
pub insert_tuners-find :
    (P : PathTree) (ts : List P.Tree) (cs : List TunerConfig)
    → IsRanked cs
    → IsRanked (insert_tuners P ts cs)
      × ((r : ℤ) → find_rank r (insert_tuners P ts cs) ≡ find_rank r (cs ++ map (load_tuner P) ts))
unfolding insert_tuners
insert_tuners-find P [] cs h = (h, λ r. ap (find_rank r) (sym (append-nil cs)))
insert_tuners-find P (t ∷ ts) cs h =
    let c = load_tuner P t in
    let (ranked, found) =
      insert_tuners-find P ts (insert_config c cs) (insert_config-IsRanked c cs h) in
    (
      ranked,
      λ r.
          found r
          ∙ (find_rank-append r (insert_config c cs) (map (load_tuner P) ts)
              ∙ (ap (λ o. or_else o (find_rank r (map (load_tuner P) ts)))
                    (find_rank-insert r c cs h)
                  ∙ (sym (find_rank-append r (cs ++ c ∷ []) (map (load_tuner P) ts))
                      ∙ ap (find_rank r) (append_assoc cs (c ∷ []) (map (load_tuner P) ts))))),
    )
