-- ===== src/Launch.antt =====
-- The folder of the files, which a flag of the command line sets: setWorkingDirectory and the log
-- paths of Configuration.cpp, the flags of main in piscan_server.cpp and in SentinelFile.cpp, and the
-- file of the systems. `getopt` is taken by the flags that it reports, a flag's argument is `none`
-- where it has none; the disk, by its directories and what stands at each path.
pub mod Folder
pub mod Delivery
use text.Mathlib.Text.{◌==◌ as str_eq}
use Prim.Native.String.{◌++◌ as join_text}
use pi_scan.Base.{
  ℕ, String, ℤ, pos, negsuc, leb_ℤ, ltb, Bool, true, false, ◌&&◌, ◌||◌, List, [], ◌∷◌, Option, none,
  some, ok, undefined, Outcome, ◌>>=◌, if◌then◌else◌, not,
}
use pi_scan.Scan.Rotation.{or_undefined}
use pi_scan.Numbers.{codes, signed, trimmed, value}
use pi_scan.Config.Saving.{File, missing, malformed, parsed}
use pi_scan.Scan.Tree.{PropertyTree}
use pi_scan.Scan.System.{System, systems_tree, populate_from_file}
use pi_scan.Scan.Sentinel.{generate_system_list}

-- `path += preferred_separator; path += name`.
abbrev pub in_folder : String → String → String
in_folder folder name = join_text folder (join_text "/" name)

abbrev pub systems_file : String → String
systems_file folder = in_folder folder "systems.json"

-- What the files hold, as trees.
pub record Disk (T : Type 0) : Type 0 where
  pub directories : List String
  pub content : String → File T

abbrev pub listed : List String → String → Bool
listed [] path = false
listed (d ∷ ds) path = str_eq d path || listed ds path

abbrev is_file : {T : Type 0} → File T → Bool
is_file missing = false
is_file _ = true

-- `filesystem::exists`.
abbrev pub exists : {T : Type 0} → Disk T → String → Bool
exists d path = listed d.directories path || is_file (d.content path)

abbrev pub make_directory : {T : Type 0} → String → Disk T → Disk T
make_directory path d = record d { directories = path ∷ d.directories }

abbrev pub write : {T : Type 0} → String → T → Disk T → Disk T
write path t d = record d { content = λ p. if str_eq path p then parsed t else d.content p }

-- `std::atoi`: a text that begins with no number reads as 0, a number that does not fit an `int` is
-- undefined.
abbrev atoi_of : Option ℤ → Outcome ℤ
atoi_of none = ok (pos 0)
atoi_of (some z) =
    if leb_ℤ (negsuc 0x7fff_ffff) z && leb_ℤ z (pos 0x7fff_ffff) then ok z else undefined

unfoldable pub atoi : String → Outcome ℤ
unfolding value
atoi s = atoi_of (signed (trimmed (codes s)))

-- What the server's `getopt` reports; `other_flag` is any result that the switch has no case for.
pub data Flag : Type 0 where
  console_flag client_flag other_flag : Flag
  folder_flag verbosity_flag : Option String → Flag

-- What the converter's `getopt` reports.
pub data ConverterFlag : Type 0 where
  input_flag output_flag : Option String → ConverterFlag
  verbose_flag other_flag : ConverterFlag

-- How the converter ends.
pub data Exit : Type 0 where
  exits : ℕ → Exit
  terminates : Exit

-- The variables of the server's `main` that the flags set, with the folder of the configuration.
pub record Launch (T : Type 0) : Type 0 where
  pub use_debug_console : Bool
  pub spawn_client : Bool
  pub log_verbosity : ℤ
  pub folder : String
  pub disk : Disk T

-- Those of the converter's.
pub record Options (T : Type 0) : Type 0 where
  pub hpd_path : String
  pub verbose : Bool
  pub output : String
  pub on_disk : Disk T

-- What `create_directory` does: it returns true, it returns false for a directory that stands there by
-- now, or it throws.
pub data Making : Type 0 where
  makes stands fails : Making

-- `database_path` is DATABASE_PATH; `making` says what comes of making a directory. `none` stands for
-- the exception, which nothing catches.
module _ (database_path : String) (making : String → Making) {T : Type 0} where
  abbrev make_or : Making → String → Disk T → Option (String × Disk T)
  make_or makes path d = some (path, make_directory path d)
  make_or stands path d = some (database_path, d)
  make_or fails path d = none

  unfoldable pub set_working_directory : String → Disk T → Option (String × Disk T)
  set_working_directory path d =
      if exists d path then some (path, d) else make_or (making path) path d

  unfoldable pub get_log_directory : String → Disk T → Option (String × Disk T)
  get_log_directory folder d =
      let path = in_folder folder "logs" in
      if exists d path then some (path, d) else make_or (making path) path d

  unfoldable pub get_latest_log_path : String → Disk T → Option (String × Disk T)
  unfolding get_log_directory
  get_latest_log_path folder d = elim (get_log_directory folder d) [
    | none ↦ none
    | some r ↦ some (in_folder r.0 "latest.log", r.1)
  ]

  -- `date` is the time as `put_time` writes it.
  unfoldable pub get_dated_log_path : String → String → Disk T → Option (String × Disk T)
  unfolding get_log_directory
  get_dated_log_path date folder d = elim (get_log_directory folder d) [
    | none ↦ none
    | some r ↦ some (join_text (in_folder r.0 date) ".log", r.1)
  ]

  unfoldable pub read_flag : Flag → Launch T → Outcome (Launch T)
  unfolding set_working_directory atoi
  read_flag console_flag l = ok (record l { use_debug_console = true })
  read_flag client_flag l = ok (record l { spawn_client = true })
  read_flag Flag.other_flag l = ok l
  read_flag (folder_flag none) l = ok l
  read_flag (folder_flag (some path)) l = do
    r ← or_undefined (set_working_directory path l.disk)
    ok (record l { folder = r.0; disk = r.1 })
  read_flag (verbosity_flag none) l = ok l
  read_flag (verbosity_flag (some n)) l = do level ← atoi n; ok (record l { log_verbosity = level })

  unfoldable pub read_flags : List Flag → Launch T → Outcome (Launch T)
  unfolding read_flag
  read_flags [] l = ok l
  read_flags (f ∷ fs) l = do l' ← read_flag f l; read_flags fs l'

  unfoldable pub new_launch : ℤ → Disk T → Launch T
  new_launch verbosity d = record {
    use_debug_console = false;
    spawn_client = false;
    log_verbosity = verbosity;
    folder = database_path;
    disk = d;
  }

  -- The loop over the flags: whether it comes to `usage`, which ends the process, and the variables.
  unfoldable pub read_options : List ConverterFlag → Options T → Outcome (Bool × Options T)
  unfolding set_working_directory
  read_options [] o = ok (false, o)
  read_options (input_flag none ∷ fs) o = ok (true, o)
  read_options (input_flag (some path) ∷ fs) o = read_options fs (record o { hpd_path = path })
  read_options (output_flag none ∷ fs) o = ok (true, o)
  read_options (output_flag (some path) ∷ fs) o = do
    r ← or_undefined (set_working_directory path o.on_disk)
    read_options fs (record o { output = r.0; on_disk = r.1 })
  read_options (verbose_flag ∷ fs) o = read_options fs (record o { verbose = true })
  read_options (ConverterFlag.other_flag ∷ fs) o = read_options fs o

  unfoldable pub new_options : Disk T → Options T
  new_options d = record { hpd_path = ""; verbose = false; output = database_path; on_disk = d }

-- The file of the systems in the folder, as a property tree.
module _ (P : PropertyTree) where
  -- `populateFromFile` over the disk. A file that does not parse leaves an empty tree.
  unfoldable pub load_systems_file : String → Disk P.Tree → Option (List System)
  unfolding populate_from_file
  load_systems_file folder d = elim (d.content (systems_file folder)) [
    | missing ↦ populate_from_file P [] none
    | malformed ↦ populate_from_file P [] (some P.empty)
    | parsed t ↦ populate_from_file P [] (some t)
  ]

-- The converter: `reads` gives the text of a file that opens, `may_write` says where the system lets
-- the program write a file.
module _ (P : PropertyTree) (database_path : String) (making : String → Making)
    (may_write : String → Bool) (reads : String → Option String) where
  -- The end of `main`, behind the conversion.
  unfoldable pub finish_conversion : Bool → List System → Options P.Tree → Exit × Disk P.Tree
  unfolding systems_tree
  finish_conversion converted systems o =
      let path = systems_file o.output in
      if not converted
      then (exits 1, o.on_disk)
      else if may_write path
      then (exits 0, write path (systems_tree P systems) o.on_disk)
      else (terminates, o.on_disk)

  unfoldable pub convert : ℕ → List ConverterFlag → Disk P.Tree → Outcome (Exit × Disk P.Tree)
  unfolding read_options new_options generate_system_list finish_conversion
  convert argc flags d =
      let conversion = (do
        (shows_usage, o) ←
            read_options database_path making flags (new_options database_path making d)
        let made = (do
          (converted, systems) ← generate_system_list (reads o.hpd_path) []
          ok (finish_conversion converted systems o))
        if shows_usage then ok (exits 0, o.on_disk) else made) in
      if ltb argc 5 then ok (exits 0, d) else conversion
