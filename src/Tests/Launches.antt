-- ===== src/Tests/Launches.antt =====
-- Tests of Launch: the converter and the server over one folder.
use pi_scan.Base.{◌≡◌, refl, String, pos, true, List, [], ◌∷◌, some, ok, arith}
use pi_scan.Config.Saving.{File}
use pi_scan.Scan.Sentinel.Delivered.{placed_from}
use pi_scan.Launch.{
  Disk, Making, fails, Flag, verbosity_flag, console_flag, folder_flag, ConverterFlag, input_flag,
  output_flag, verbose_flag, exits, Launch, new_launch, read_flags, convert, load_systems_file,
  atoi,
}
use pi_scan.Launch.Delivery.{convert-delivers}
use pi_scan.Tests.Converter.{converted, hpd_file, converts}
use pi_scan.Tests.Trees.{Node, nodes, int_stored}

abbrev folder_there : Disk Node
folder_there = record { directories = "/data" ∷ []; content = λ path. File.missing }

abbrev converter_flags : List ConverterFlag
converter_flags = input_flag (some "list.hpd") ∷ verbose_flag ∷ output_flag (some "/data") ∷ []

abbrev server_flags : List Flag
server_flags = verbosity_flag (some "2") ∷ console_flag ∷ folder_flag (some "/data") ∷ []

abbrev cannot_make : String → Making
cannot_make path = fails

convert-delivers_example :
    (d : Disk Node) × (l : Launch Node) × (convert nodes "/etc/piscan" cannot_make
        (λ path. true)
        (λ path. some hpd_file)
        6
        converter_flags
        folder_there
      ≡ ok (exits 0, d))
    × (read_flags "/etc/piscan" cannot_make server_flags
          (new_launch "/etc/piscan" cannot_make (pos 0) d)
        ≡ ok l)
    × (l.folder ≡ "/data")
    × (load_systems_file nodes l.folder l.disk ≡ some (placed_from 0 converted))
convert-delivers_example =
    convert-delivers nodes "/etc/piscan" cannot_make (λ path. true) (λ path. some hpd_file) 6
      converter_flags server_flags (pos 0) folder_there "/data" "list.hpd" hpd_file converted
      (omega arith) (refl, (refl, (refl, tt))) refl refl refl refl refl converts
      (
        (
          record { frequency_fits = int_stored 118_300_000 (omega arith); tuned = refl },
          (record { frequency_fits = int_stored 162_550_000 (omega arith); tuned = refl }, tt),
        ),
        tt,
      )
      (refl, (refl, (refl, tt))) (refl, (refl, (refl, tt)))
      ((pos 2, unfold atoi in refl), (tt, (tt, tt))) refl
