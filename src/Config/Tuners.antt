-- ===== src/Config/Tuners.antt =====
-- The saved tuners read back from their list.
use pi_scan.Base.{
  ◌≡◌, refl, sym, ◌∙◌, ap, true, pos, ◌<ℤ◌, List, [], ◌∷◌, ◌++◌, arith, All, All-append,
}
use mathlib.Core.List.{append_assoc, append-nil}
use pi_scan.Scan.Tree.{FitsInt}
use pi_scan.Tuner.{TunerConfig, insert_config}
use pi_scan.Config.Tree.{PathTree, Keys}
use pi_scan.Config.Puts.{Puts, clear, lookup, get-puts, read_int, read_text}
use pi_scan.Config.Saving.{load_tuner, tuner_tree, tuner_trees, insert_tuners}

-- The numbers of a tuner that are read with the type `int`.
pub record IsNarrow (c : TunerConfig) : Type 0 where
  pub rank_fits : FitsInt c.rank
  pub ppm_fits : FitsInt c.ppm_correction
  pub rate_fits : FitsInt c.sample_rate

-- The order of the set: each rank is below those behind it.
abbrev pub IsRanked : List TunerConfig → Type 0
IsRanked [] = Unit
IsRanked (c ∷ cs) = All (λ d. c.rank <ℤ d.rank) cs × IsRanked cs

insert_config-last :
    (cs : List TunerConfig) (c : TunerConfig)
    → All (λ d. d.rank <ℤ c.rank) cs
    → insert_config c cs ≡ cs ++ c ∷ []
unfolding insert_config
insert_config-last [] c h = refl
insert_config-last (d ∷ cs) c h = ground (arith, h.0, insert_config-last cs c h.1)

module _ (P : PathTree) where
  open P use {Tree, empty, get, put, print_int}

  abbrev tuner_puts : TunerConfig → Puts
  tuner_puts c =
      ("sample_rate" ∷ [], print_int c.sample_rate)
      ∷ ("ppm_correction" ∷ [], print_int c.ppm_correction)
      ∷ ("driver" ∷ [], c.driver)
      ∷ ("descriptor" ∷ [], c.descriptor)
      ∷ ("rank" ∷ [], print_int c.rank)
      ∷ []

  get-tuner_tree :
      (c : TunerConfig) (t : Tree) (p : Keys)
      → clear p (tuner_puts c) ≡ true
      → get p (tuner_tree P c t) ≡ lookup p (tuner_puts c) (get p t)
  unfolding tuner_tree
  get-tuner_tree c t p ready = get-puts P p (tuner_puts c) t ready

  load_tuner-tree : (c : TunerConfig) (t : Tree) → IsNarrow c → load_tuner P (tuner_tree P c t) ≡ c
  unfolding load_tuner
  load_tuner-tree c t h = cc (
    read_int P ("rank" ∷ []) (pos 0) c.rank (tuner_tree P c t)
        (get-tuner_tree c t ("rank" ∷ []) refl) h.rank_fits,
    read_text P ("descriptor" ∷ []) "null" c.descriptor (tuner_tree P c t)
        (get-tuner_tree c t ("descriptor" ∷ []) refl),
    read_text P ("driver" ∷ []) "null" c.driver (tuner_tree P c t)
        (get-tuner_tree c t ("driver" ∷ []) refl),
    read_int P ("ppm_correction" ∷ []) (pos 0) c.ppm_correction (tuner_tree P c t)
        (get-tuner_tree c t ("ppm_correction" ∷ []) refl) h.ppm_fits,
    read_int P ("sample_rate" ∷ []) (pos 2_048_000) c.sample_rate (tuner_tree P c t)
        (get-tuner_tree c t ("sample_rate" ∷ []) refl) h.rate_fits,
  )

  -- Every tuner behind those of `done` ranks above them.
  abbrev Above : List TunerConfig → List TunerConfig → Type 0
  Above done cs = All (λ c. All (λ d. d.rank <ℤ c.rank) done) cs

  pub nothing-Above : (cs : List TunerConfig) → Above [] cs
  nothing-Above [] = tt
  nothing-Above (c ∷ cs) = (tt, nothing-Above cs)

  append-Above :
      (done : List TunerConfig) (c : TunerConfig) (cs : List TunerConfig)
      → Above done cs
      → All (λ d. c.rank <ℤ d.rank) cs
      → Above (done ++ c ∷ []) cs
  append-Above done c [] h k = tt
  append-Above done c (d ∷ cs) h k = (
    All-append (λ e. e.rank <ℤ d.rank) done (c ∷ []) h.0 (k.0, tt),
    append-Above done c cs h.1 k.1,
  )

  pub insert_tuners-trees :
      (cs done : List TunerConfig) (p : Tree)
      → All IsNarrow cs
      → IsRanked cs
      → Above done cs
      → insert_tuners P (tuner_trees P cs p) done ≡ done ++ cs
  unfolding insert_tuners tuner_trees
  insert_tuners-trees [] done p narrow ranked above = sym (append-nil done)
  insert_tuners-trees (c ∷ cs) done p narrow ranked above =
      let front : insert_config (load_tuner P (tuner_tree P c p)) done ≡ done ++ c ∷ [] =
        ap (λ x. insert_config x done) (load_tuner-tree c p narrow.0)
        ∙ insert_config-last done c above.0 in
      ap (insert_tuners P (tuner_trees P cs (tuner_tree P c p))) front
      ∙ (insert_tuners-trees cs (done ++ c ∷ []) (tuner_tree P c p) narrow.1 ranked.1
            (append-Above done c cs above.1 ranked.0)
          ∙ append_assoc done (c ∷ []) cs)
