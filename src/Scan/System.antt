-- ===== src/Scan/System.antt =====
-- RadioSystem.h, RadioSystem.cpp and the file part of SystemList.cpp: systems of entries, and their
-- trees. `none` stands for an exception of the source, and within `make_entry` for its null pointer.
pub mod EntryTree
pub mod RoundTrip
use text.Mathlib.Text.{◌==◌ as str_eq}
use pi_scan.Base.{
  ℕ, ◌+◌, String, pos, is_zero, Bool, false, List, [], ◌∷◌, ◌++◌, map, Option, none, some,
  if◌then◌else◌, length,
}
use pi_scan.Scan.Tree.{PropertyTree, get_text, get_int, get_bool}
use pi_scan.Scan.Entry
use pi_scan.Scan.Entry.{Entry, Kind, new_channel, set_sys_index, set_entry_index}

pub record System : Type 0 where
  pub tag : String
  pub lockout : Bool
  pub sys_index : ℕ
  pub entries : List Entry
  pub num_entries : ℕ

unfoldable pub new_system : String → Bool → ℕ → System
new_system tag lo index = record {
  tag = tag;
  lockout = lo;
  sys_index = index;
  entries = [];
  num_entries = 0;
}

-- `AnalogSystem::addEntry`; a null entry is not added.
unfoldable pub add_entry : System → Option Entry → System
unfolding set_sys_index set_entry_index
add_entry s none = s
add_entry s (some e) = record s {
  entries = s.entries ++ set_sys_index (set_entry_index e s.num_entries) s.sys_index ∷ [];
  num_entries = s.num_entries + 1;
}

module _ (P : PropertyTree) where
  open P use {Tree, empty, put, add_child, get_child, print_bool}

  -- The common body of `makeFMChannel`, `makeAMChannel`, `makePLChannel` and `makeDCChannel`.
  unfoldable pub make_channel : Kind → Tree → Option Entry
  unfolding new_channel
  make_channel kind t =
      let freq = get_int P "freq" (pos 0) t in
      if is_zero freq
      then none
      else some (
          new_channel kind freq (get_text P "tag" "" t) (get_bool P "lockout" false t)
            (get_int P "delay" (pos 0) t))

  -- `makeEntry[type](entryPT)`: an unknown type is an empty `std::function`, whose call throws.
  unfoldable pub make_entry : String → Tree → Option (Option Entry)
  unfolding make_channel
  make_entry type t =
      if str_eq type "fmc"
      then some (make_channel Kind.fm t)
      else if str_eq type "amc"
      then some (make_channel Kind.am t)
      else if str_eq type "plc"
      then some (make_channel (Kind.pl (get_text P "tone" "" t)) t)
      else if str_eq type "dcc"
      then some (make_channel (Kind.dc (get_text P "code" "" t)) t)
      else none

  -- One round of the loop of the constructor: an exception and a null entry are passed over.
  abbrev pub add_made : System → Option (Option Entry) → System
  add_made s none = s
  add_made s (some made) = add_entry s made

  unfoldable pub load_entries : System → List Tree → System
  unfolding make_entry
  load_entries s [] = s
  load_entries s (t ∷ ts) = load_entries (add_made s (make_entry (get_text P "chantype" "" t) t)) ts

  -- `AnalogSystem(pt, index)`: `get_child` throws where the system has no list of channels.
  unfoldable pub load_system : Tree → ℕ → Option System
  unfolding load_entries new_system
  load_system t index = elim (get_child "channels" t) [
    | none ↦ none
    | some ts ↦
        some (
          load_entries (new_system (get_text P "tag" "" t) (get_bool P "lockout" false t) index) ts)
  ]

  unfoldable pub system_tree : System → Tree
  system_tree s =
      add_child "channels" (map (Entry.get_property_tree P) s.entries)
        (put "lockout" (print_bool s.lockout) (put "tag" s.tag (put "systype" "analog" empty)))

  abbrev pub add_system : List System → Option System → List System
  add_system systems none = systems
  add_system systems (some s) = systems ++ s ∷ []

  -- The loop of `populateFromFile`, over the children of the list of systems.
  unfoldable pub load_systems : List System → List Tree → List System
  unfolding load_system
  load_systems systems [] = systems
  load_systems systems (t ∷ ts) =
      load_systems
        (if str_eq (get_text P "systype" "unspecified" t) "analog"
          then add_system systems (load_system t (length systems))
          else systems)
        ts

  -- `populateFromFile`, given the tree that was read, or `none` where there is no file. The result
  -- is `none` where an exception leaves the call.
  unfoldable pub populate_from_file : List System → Option Tree → Option (List System)
  unfolding load_systems
  populate_from_file systems none = some systems
  populate_from_file systems (some t) = elim (get_child "systems" t) [
    | none ↦ none
    | some ts ↦ some (load_systems systems ts)
  ]

  -- The tree that `writeToFile` writes.
  unfoldable pub systems_tree : List System → Tree
  unfolding system_tree
  systems_tree systems = add_child "systems" (map system_tree systems) empty
