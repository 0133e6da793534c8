-- ===== src/Scan/System/RoundTrip.antt =====
-- Systems read back from the tree that `writeToFile` writes.
use text.Mathlib.Text.{◌==◌ as str_eq}
use mathlib.Core.Path.{subst}
use mathlib.Core.List.{append-nil, append_assoc}
use pi_scan.Base.{
  ℕ, suc, ◌+◌, ◌≡◌, refl, ◌∙◌, ap, sym, false, List, [], ◌∷◌, ◌++◌, map, none, some, arith, length,
  length-append, All, if◌then◌else◌,
}
use pi_scan.Scan.Tree.{PropertyTree, get_text, get_bool, parsed_bool}
use pi_scan.Scan.Entry.{Entry, get_property_tree}
use pi_scan.Scan.System.{
  System, new_system, add_entry, add_made, load_entries, load_system, system_tree, load_systems,
  add_system, populate_from_file, systems_tree,
}
use pi_scan.Scan.System.EntryTree.{IsStored, unplaced, text_of, make_entry-tree}

-- The entries are numbered from `n` on within system `i`.
abbrev pub Numbered : ℕ → ℕ → List Entry → Type 0
Numbered i n [] = Unit
Numbered i n (e ∷ es) = (e.sys_index ≡ i) × (e.entry_index ≡ n) × Numbered i (n + 1) es

-- A system that the file can hold, which stands at place `i` of the list.
pub record IsKept (i : ℕ) (s : System) : Type 0 where
  pub placed : s.sys_index ≡ i
  pub sized : s.num_entries ≡ length s.entries
  pub stored : All IsStored s.entries
  pub numbered : Numbered i 0 s.entries

abbrev pub AllKept : ℕ → List System → Type 0
AllKept i [] = Unit
AllKept i (s ∷ systems) = IsKept i s × AllKept (i + 1) systems

add_entry-unplaced :
    (s : System) (e : Entry)
    → e.sys_index ≡ s.sys_index
    → e.entry_index ≡ s.num_entries
    → add_entry s (some (unplaced e))
      ≡ record s { entries = s.entries ++ e ∷ []; num_entries = s.num_entries + 1 }
unfolding add_entry
add_entry-unplaced s e here place =
    ap (λ x. record s { entries = s.entries ++ x ∷ []; num_entries = s.num_entries + 1 })
      (λ i. record e { sys_index = sym here i; entry_index = sym place i })

module _ (P : PropertyTree) where
  open P use {
    get, get_child, put, empty, add_child, get-put, get-add_child, get_child-add_child_self,
    get_child-put, get_child-empty, print_bool, parse-print_bool,
  }

  abbrev extended : System → List Entry → System
  extended s es = record s { entries = s.entries ++ es; num_entries = s.num_entries + length es }

  load_entries-trees :
      (s : System) (es : List Entry)
      → All IsStored es
      → Numbered s.sys_index s.num_entries es
      → load_entries P s (map (get_property_tree P) es) ≡ extended s es
  unfolding load_entries
  load_entries-trees s [] stored numbered =
      λ i. record s { entries = sym (append-nil s.entries) i; num_entries = same i }
    where
      same : s.num_entries ≡ s.num_entries + 0
      same = omega arith
  load_entries-trees s (e ∷ es) stored numbered =
      let next : System = record s {
        entries = s.entries ++ e ∷ [];
        num_entries = s.num_entries + 1;
      } in
      let count : s.num_entries + 1 + length es ≡ s.num_entries + suc (length es) = omega arith in
      ap (λ x. load_entries P (add_made P s x) (map (get_property_tree P) es))
        (make_entry-tree P e stored.0)
      ∙ (ap (λ x. load_entries P x (map (get_property_tree P) es))
            (add_entry-unplaced s e numbered.0 numbered.1)
          ∙ (load_entries-trees next es stored.1 numbered.2 ∙ (λ i. record s {
            entries = append_assoc s.entries (e ∷ []) es i;
            num_entries = count i;
          })))

  abbrev header : System → P.Tree
  header s = put "lockout" (print_bool s.lockout) (put "tag" s.tag (put "systype" "analog" empty))

  get_child-header : (s : System) → get_child "channels" (header s) ≡ none
  get_child-header s =
      get_child-put "channels" "lockout" _ _ refl
      ∙ (get_child-put "channels" "tag" _ _ refl
          ∙ (get_child-put "channels" "systype" _ _ refl ∙ get_child-empty "channels"))

  get_text-tag : (s : System) → get_text P "tag" "" (system_tree P s) ≡ s.tag
  unfolding system_tree
  get_text-tag s = text_of P "tag" _ (
      get-add_child "tag" "channels" _ (header s) refl
      ∙ (get-put "tag" "lockout" _ _ ∙ get-put "tag" "tag" _ _))

  get_text-systype : (s : System) → get_text P "systype" "unspecified" (system_tree P s) ≡ "analog"
  unfolding system_tree
  get_text-systype s =
      rw
        (
          get-add_child "systype" "channels" (map (get_property_tree P) s.entries) (header s) refl
              ∙ (get-put "systype" "lockout" _ _
                  ∙ (get-put "systype" "tag" _ _ ∙ get-put "systype" "systype" _ _)),
          get_text,
        )
        refl

  get_bool-lockout : (s : System) → get_bool P "lockout" false (system_tree P s) ≡ s.lockout
  unfolding system_tree
  get_bool-lockout s =
      ap (λ o. parsed_bool P o false)
        (get-add_child "lockout" "channels" (map (get_property_tree P) s.entries) (header s) refl
          ∙ get-put "lockout" "lockout" _ _)
      ∙ rw (parse-print_bool s.lockout) refl

  get_child-channels :
      (s : System)
      → get_child "channels" (system_tree P s) ≡ some (map (get_property_tree P) s.entries)
  unfolding system_tree
  get_child-channels s =
      get_child-add_child_self "channels" (map (get_property_tree P) s.entries) (header s)
        (get_child-header s)

  load_system-opens :
      (i : ℕ) (s : System)
      → load_system P (system_tree P s) i
        ≡ some (
            load_entries P
              (new_system
                (get_text P "tag" "" (system_tree P s))
                (get_bool P "lockout" false (system_tree P s))
                i)
              (map (get_property_tree P) s.entries))
  unfolding load_system
  load_system-opens i s = rw (get_child-channels s, load_system) refl

  load_system-tree : (i : ℕ) (s : System) → IsKept i s → load_system P (system_tree P s) i ≡ some s
  unfolding new_system
  load_system-tree i s kept =
      load_system-opens i s
      ∙ ((λ j. some (
            load_entries P (new_system (get_text-tag s j) (get_bool-lockout s j) i)
              (map (get_property_tree P) s.entries)))
          ∙ (ap some (
                load_entries-trees (new_system s.tag s.lockout i) s.entries kept.stored
                  kept.numbered)
              ∙ (λ j. some (record s { sys_index = sym kept.placed j; num_entries = size j }))))
    where
      size : 0 + length s.entries ≡ s.num_entries
      size = omega (arith, kept.sized)

  load_systems-trees :
      (before systems : List System)
      → AllKept (length before) systems
      → load_systems P before (map (system_tree P) systems) ≡ before ++ systems
  unfolding load_systems
  load_systems-trees before [] kept = sym (append-nil before)
  load_systems-trees before (s ∷ systems) kept =
      let rest : AllKept (length (before ++ s ∷ [])) systems =
        subst (λ n. AllKept n systems) (sym (length-append before (s ∷ []))) kept.1 in
      ap
        (λ x.
          load_systems P
            (if str_eq x "analog"
              then add_system P before (load_system P (system_tree P s) (length before))
              else before)
            (map (system_tree P) systems))
        (get_text-systype s)
      ∙ (ap (λ x. load_systems P (add_system P before x) (map (system_tree P) systems))
            (load_system-tree (length before) s kept.0)
          ∙ (load_systems-trees (before ++ s ∷ []) systems rest
              ∙ append_assoc before (s ∷ []) systems))

  -- What `writeToFile` writes of systems that the file can hold, which stand where their indices say,
  -- `populateFromFile` reads back into an empty list, system for system and entry for entry.
  pub populate-systems_tree :
      (systems : List System)
      → AllKept 0 systems
      → populate_from_file P [] (some (systems_tree P systems)) ≡ some systems
  unfolding populate_from_file systems_tree
  populate-systems_tree systems kept =
      rw
        (
          get_child-add_child_self "systems" (map (system_tree P) systems) empty
              (get_child-empty "systems"),
          populate_from_file,
        )
        (ap some (load_systems-trees [] systems kept))
