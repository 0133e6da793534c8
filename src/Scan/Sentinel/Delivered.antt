-- ===== src/Scan/Sentinel/Delivered.antt =====
-- From the converter to the scanner: main of scan/SentinelFile.cpp writes the list that it converts
-- with writeToFile, and the scanner reads it with populateFromFile.
use pi_scan.Base.{
  ℕ, suc, ◌+◌, String, ◌≡◌, refl, ap, sym, ◌∙◌, is_zero, true, false, List, [], ◌∷◌, map, some, ok,
  All, length,
}
use pi_scan.Scan.Tree.{PropertyTree, FitsInt}
use pi_scan.Scan.Entry.{Entry, set_sys_index, get_property_tree}
use pi_scan.Scan.System.{System, system_tree, systems_tree, populate_from_file}
use pi_scan.Scan.System.EntryTree.{IsStored}
use pi_scan.Scan.System.RoundTrip.{Numbered, AllKept, populate-systems_tree}
use pi_scan.Scan.Sentinel.{generate_system_list}
use pi_scan.Scan.Sentinel.Converted.{
  IsConverted, IsConvertedEntry, generate_system_list-IsConverted,
}

-- A frequency that the file of systems keeps.
pub record IsTunable (e : Entry) : Type 0 where
  pub frequency_fits : FitsInt e.frequency
  pub tuned : is_zero e.frequency ≡ false

abbrev pub AllTunable : List System → Type 0
AllTunable systems = All (λ s. All IsTunable s.entries) systems

abbrev pub placed_at : ℕ → System → System
placed_at i s = record s { sys_index = i; entries = map (λ e. set_sys_index e i) s.entries }

-- Each system and its entries with the place of the system in the list.
abbrev pub placed_from : ℕ → List System → List System
placed_from i [] = []
placed_from i (s ∷ systems) = placed_at i s ∷ placed_from (i + 1) systems

length-map : (f : Entry → Entry) (es : List Entry) → length (map f es) ≡ length es
length-map f [] = refl
length-map f (e ∷ es) = ap suc (length-map f es)

map-Numbered :
    (i n : ℕ) (es : List Entry) → Numbered 0 n es → Numbered i n (map (λ e. set_sys_index e i) es)
unfolding set_sys_index
map-Numbered i n [] h = tt
map-Numbered i n (e ∷ es) h = (refl, h.1, map-Numbered i (n + 1) es h.2)

map-IsStored :
    (i : ℕ) (es : List Entry)
    → All IsConvertedEntry es
    → All IsTunable es
    → All IsStored (map (λ e. set_sys_index e i) es)
unfolding set_sys_index
map-IsStored i [] h k = tt
map-IsStored i (e ∷ es) h k = (
  record {
    real = h.0.real;
    frequency_fits = k.0.frequency_fits;
    delay_fits = h.0.delay_fits;
    tuned = k.0.tuned;
    persistent = h.0.persistent;
  },
  map-IsStored i es h.1 k.1,
)

placed_from-AllKept :
    (i : ℕ) (systems : List System)
    → All IsConverted systems
    → AllTunable systems
    → AllKept i (placed_from i systems)
placed_from-AllKept i [] h k = tt
placed_from-AllKept i (s ∷ systems) h k = (
  record {
    placed = refl;
    sized = h.0.sized ∙ sym (length-map (λ e. set_sys_index e i) s.entries);
    stored = map-IsStored i s.entries h.0.converted k.0;
    numbered = map-Numbered i 0 s.entries h.0.numbered;
  },
  placed_from-AllKept (i + 1) systems h.1 k.1,
)

module _ (P : PropertyTree) where
  -- The tree of an entry does not tell its place.
  map-get_property_tree :
      (i : ℕ) (es : List Entry)
      → map (get_property_tree P) (map (λ e. set_sys_index e i) es) ≡ map (get_property_tree P) es
  unfolding get_property_tree set_sys_index
  map-get_property_tree i [] = refl
  map-get_property_tree i (e ∷ es) = ap (◌∷◌ (get_property_tree P e)) (map-get_property_tree i es)

  system_tree-placed : (i : ℕ) (s : System) → system_tree P (placed_at i s) ≡ system_tree P s
  unfolding system_tree
  system_tree-placed i s =
      ap
        (λ c. P.add_child "channels" c (
          P.put "lockout" (P.print_bool s.lockout)
            (P.put "tag" s.tag (P.put "systype" "analog" P.empty))))
        (map-get_property_tree i s.entries)

  map-system_tree :
      (i : ℕ) (systems : List System)
      → map (system_tree P) (placed_from i systems) ≡ map (system_tree P) systems
  map-system_tree i [] = refl
  map-system_tree i (s ∷ systems) = cc (system_tree-placed i s, map-system_tree (i + 1) systems)

  systems_tree-placed :
      (systems : List System) → systems_tree P (placed_from 0 systems) ≡ systems_tree P systems
  unfolding systems_tree
  systems_tree-placed systems =
      ap (λ c. P.add_child "systems" c P.empty) (map-system_tree 0 systems)

  -- What the converter writes of a Sentinel file the scanner reads, system for system and entry for
  -- entry, each with its place in the list, if every converted frequency is not zero and fits an
  -- `int`.
  pub populate-generated :
      (file : String) (systems : List System)
      → generate_system_list (some file) [] ≡ ok (true, systems)
      → AllTunable systems
      → populate_from_file P [] (some (systems_tree P systems)) ≡ some (placed_from 0 systems)
  populate-generated file systems e k =
      ap (λ t. populate_from_file P [] (some t)) (sym (systems_tree-placed systems))
      ∙ populate-systems_tree P (placed_from 0 systems) (
          placed_from-AllKept 0 systems
            (generate_system_list-IsConverted (some file) true systems e) k)
