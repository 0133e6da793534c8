-- ===== src/Launch/Delivery.antt =====
-- From one program to the other: the converter writes the systems of a Sentinel file where the
-- server, started with the same folder, finds them.
use text.Mathlib.TextPositions.{eq_refl}
use pi_scan.Base.{
  ℕ, ℤ, String, ◌≡◌, refl, ◌∙◌, ap, ◌≤◌, Bool, true, false, List, [], map, Option, some, ok, arith,
  ltb, All,
}
use pi_scan.Config.Saving.{parsed}
use pi_scan.Scan.Tree.{PropertyTree}
use pi_scan.Scan.System.{System, systems_tree, populate_from_file}
use pi_scan.Scan.Sentinel.{generate_system_list}
use pi_scan.Scan.Sentinel.Delivered.{AllTunable, placed_from, populate-generated}
use pi_scan.Launch.{
  Disk, Making, exists, write, systems_file, Flag, ConverterFlag, exits, Launch, new_launch,
  new_options, Options, read_flags, read_options, finish_conversion, convert, load_systems_file,
}
use pi_scan.Launch.Folder.{
  chosen, AllUsable, AllUsable-Kept, folder_of, input_of, output_of, IsReadable, has_argument,
  read_flags-Started, read_options-Chosen,
}

exists-write :
    {T : Type 0} (path dir : String) (t : T) (d : Disk T)
    → exists d dir ≡ true
    → exists (write path t d) dir ≡ true
exists-write path dir t d h = ground (arith, h)

content-write :
    {T : Type 0} (path : String) (t : T) (d : Disk T) → (write path t d).content path ≡ parsed t
content-write path t d = rw (eq_refl path) refl

load_systems_file-parsed :
    (P : PropertyTree) (folder : String) (d : Disk P.Tree) (t : P.Tree)
    → d.content (systems_file folder) ≡ parsed t
    → load_systems_file P folder d ≡ populate_from_file P [] (some t)
unfolding load_systems_file
load_systems_file-parsed P folder d t held = rw (held, load_systems_file) refl

module _ (P : PropertyTree) (database_path : String) (making : String → Making)
    (may_write : String → Bool) (reads : String → Option String) where
  -- The end of the converter, where its flags left the folder `dir`.
  convert-exits :
      (argc : ℕ) (flags : List ConverterFlag) (d : Disk P.Tree) (o : Options P.Tree)
      (dir hpd file : String) (systems : List System)
      → 5 ≤ argc
      → read_options database_path making flags (new_options database_path making d) ≡ ok (false, o)
      → o.hpd_path ≡ hpd
      → o.output ≡ dir
      → may_write (systems_file dir) ≡ true
      → reads hpd ≡ some file
      → generate_system_list (some file) [] ≡ ok (true, systems)
      → convert P database_path making may_write reads argc flags d
        ≡ ok (exits 0, write (systems_file dir) (systems_tree P systems) o.on_disk)
  unfolding convert finish_conversion
  convert-exits argc flags d o dir hpd file systems enough left input output may opens converts =
      let many : ltb argc 5 ≡ false = ground arith in
      rw (many, left, input, opens, converts, output, may) refl

  -- A run of the converter with the arguments it needs, whose last input is a file that opens and
  -- converts, and whose last output is a folder that is there and may be written to, exits with 0. A
  -- start of the server behind it, the last folder of whose flags is the same and whose verbosities
  -- are numbers, reads its flags, takes that folder, and finds in it the converted systems, entry
  -- for entry, if every converted frequency is not zero and fits an `int`. No earlier folder of
  -- either program's flags is one that is neither there nor can be made, for that throws.
  pub convert-delivers :
      (argc : ℕ) (flags : List ConverterFlag) (server_flags : List Flag) (verbosity : ℤ)
      (d : Disk P.Tree) (dir hpd file : String) (systems : List System)
      → 5 ≤ argc
      → All (λ f. has_argument f ≡ true) flags
      → chosen (map input_of flags) "" ≡ hpd
      → chosen (map output_of flags) database_path ≡ dir
      → exists d dir ≡ true
      → may_write (systems_file dir) ≡ true
      → reads hpd ≡ some file
      → generate_system_list (some file) [] ≡ ok (true, systems)
      → AllTunable systems
      → AllUsable database_path making d (map output_of flags)
      → AllUsable database_path making d (map folder_of server_flags)
      → All IsReadable server_flags
      → chosen (map folder_of server_flags) database_path ≡ dir
      → (d' : Disk P.Tree) × (l : Launch P.Tree) × (convert P database_path making may_write reads
            argc flags d
          ≡ ok (exits 0, d'))
        × (read_flags database_path making server_flags
              (new_launch database_path making verbosity d')
            ≡ ok l)
        × (l.folder ≡ dir)
        × (load_systems_file P l.folder l.disk ≡ some (placed_from 0 systems))
  convert-delivers argc flags server_flags verbosity d dir hpd file systems enough given input
        output there may opens converts tunable usable server_usable readable folder =
      let o = new_options database_path making d in
      let (o', left, c) =
        read_options-Chosen database_path making dir hpd flags o (unfold new_options in there)
          (unfold new_options in input) (unfold new_options in output)
          (unfold new_options in usable) given in
      let t = systems_tree P systems in
      let path = systems_file dir in
      let d' = write path t o'.on_disk in
      let kept : (p : String) → exists d p ≡ true → exists d' p ≡ true =
        λ p h. exists-write path p t o'.on_disk (c.keeps.there p (unfold new_options in h)) in
      let ran =
        convert-exits argc flags d o' dir hpd file systems enough left c.input_chosen
          c.output_chosen may opens converts in
      let (l, starts, started) =
        read_flags-Started database_path making dir server_flags
          (new_launch database_path making verbosity d') (unfold new_launch in kept dir there)
          (unfold new_launch in folder)
          (unfold new_launch in
            AllUsable-Kept database_path making d d' (map folder_of server_flags) kept
              server_usable)
          readable in
      let held : l.disk.content (systems_file l.folder) ≡ parsed t =
        ap (λ f. l.disk.content (systems_file f)) started.chosen_there
        ∙ ap (λ content. content path) started.keeps.same
        ∙ unfold new_launch in content-write path t o'.on_disk in
      (
        d',
        l,
        ran,
        starts,
        started.chosen_there,
        load_systems_file-parsed P l.folder l.disk t held
            ∙ populate-generated P file systems converts tunable,
      )
