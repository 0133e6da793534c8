-- ===== src/Launch/Folder.antt =====
-- The folder that the flags leave, and that the flags keep the files.
use pi_scan.Base.{
  ℤ, String, ◌≡◌, refl, sym, ◌∙◌, ◌⊎◌, ◌||◌, Bool, true, false, List, [], ◌∷◌, map, Option, some,
  none, ok, arith, inl, inr, ap, All, not, Bool-cases,
}
use pi_scan.Launch.{
  Disk, exists, make_directory, Making, makes, stands, fails, Flag, folder_flag, verbosity_flag,
  console_flag, client_flag, Launch, ConverterFlag, input_flag, output_flag, verbose_flag, Options,
  read_options, set_working_directory, read_flag, read_flags, atoi,
}

-- The last argument that some flag had, or else what was there before.
abbrev pub chosen : List (Option String) → String → String
chosen [] current = current
chosen (none ∷ paths) current = chosen paths current
chosen (some path ∷ paths) current = chosen paths path

-- What is chosen does not depend on what was there before, or it is that.
chosen-either :
    (paths : List (Option String))
    → ((p q : String) → chosen paths p ≡ chosen paths q) ⊎ ((p : String) → chosen paths p ≡ p)
chosen-either [] = inr (λ p. refl)
chosen-either (none ∷ paths) = chosen-either paths
chosen-either (some path ∷ paths) = inl (λ p q. refl)

abbrev pub folder_of : Flag → Option String
folder_of (folder_flag path) = path
folder_of _ = none

abbrev pub input_of : ConverterFlag → Option String
input_of (input_flag path) = path
input_of _ = none

abbrev pub output_of : ConverterFlag → Option String
output_of (output_flag path) = path
output_of _ = none

-- A verbosity is a number that `atoi` reads.
abbrev pub IsReadable : Flag → Type 0
IsReadable (verbosity_flag (some n)) = (level : ℤ) × (atoi n ≡ ok level)
IsReadable _ = Unit

-- A flag that takes an argument has one.
abbrev pub has_argument : ConverterFlag → Bool
has_argument (input_flag none) = false
has_argument (output_flag none) = false
has_argument _ = true

abbrev is_failure : Making → Bool
is_failure fails = true
is_failure _ = false

live : (a b : Bool) → a || not b ≡ true → a ≡ false → b ≡ false
live true b h k = absurd (cc)
live false true h k = absurd (cc)
live false false h k = refl

or_live : (a b : Bool) → b ≡ false → a || not b ≡ true
or_live true b h = refl
or_live false true h = absurd (cc)
or_live false false h = refl

-- A folder that is there, or that can be made.
abbrev pub is_usable : {T : Type 0} → (String → Making) → Disk T → Option String → Bool
is_usable making d none = true
is_usable making d (some path) = exists d path || not (is_failure (making path))

-- What a choice of the folder keeps: the files, and what is there.
pub record Keeps {T : Type 0} (d d' : Disk T) : Type 0 where
  pub same : d'.content ≡ d.content
  pub there : (path : String) → exists d path ≡ true → exists d' path ≡ true

Keeps-then : {T : Type 0} (d d' d'' : Disk T) → Keeps d d' → Keeps d' d'' → Keeps d d''
Keeps-then d d' d'' k k' = record {
  same = k'.same ∙ k.same;
  there = λ path h. k'.there path (k.there path h);
}

module _ (database_path : String) (making : String → Making) {T : Type 0} where
  abbrev pub AllUsable : Disk T → List (Option String) → Type 0
  AllUsable d paths = All (λ path. is_usable making d path ≡ true) paths

  usable-Kept :
      (d d' : Disk T) (path : Option String)
      → ((p : String) → exists d p ≡ true → exists d' p ≡ true)
      → is_usable making d path ≡ true
      → is_usable making d' path ≡ true
  usable-Kept d d' none k h = refl
  usable-Kept d d' (some path) k h = elim (Bool-cases (exists d path)) [
    | inl here ↦ rw (k path here) refl
    | inr gone ↦ or_live _ _ (live _ _ h gone)
  ]

  pub AllUsable-Kept :
      (d d' : Disk T) (paths : List (Option String))
      → ((p : String) → exists d p ≡ true → exists d' p ≡ true)
      → AllUsable d paths
      → AllUsable d' paths
  AllUsable-Kept d d' [] k h = tt
  AllUsable-Kept d d' (path ∷ paths) k h =
      (usable-Kept d d' path k h.0, AllUsable-Kept d d' paths k h.1)

  -- The choice of a usable folder: it returns, and one that is there is chosen.
  record Chooses (path : String) (d : Disk T) (r : String × Disk T) : Type 0 where
    pub ran : set_working_directory database_path making path d ≡ some r
    pub keeps : Keeps d r.1
    pub chooses : exists d path ≡ true → r.0 ≡ path

  makes-Keeps : (path : String) (d : Disk T) → Keeps d (make_directory path d)
  makes-Keeps path d = record { same = refl; there = λ p h. ground (arith, h) }

  made-Chooses :
      (path : String) (d : Disk T) (m : Making)
      → making path ≡ m
      → exists d path ≡ false
      → is_failure m ≡ false
      → (r : String × Disk T) × Chooses path d r
  unfolding set_working_directory
  made-Chooses path d makes e gone h = (
    (path, make_directory path d),
    record { ran = rw (gone, e) refl; keeps = makes-Keeps path d; chooses = λ here. refl },
  )
  made-Chooses path d stands e gone h = (
    (database_path, d),
    record {
      ran = rw (gone, e) refl;
      keeps = record { same = refl; there = λ p k. k };
      chooses = λ here. absurd (cc);
    },
  )
  made-Chooses path d fails e gone h = absurd (cc)

  set_working_directory-Chooses :
      (path : String) (d : Disk T)
      → is_usable making d (some path) ≡ true
      → (r : String × Disk T) × Chooses path d r
  unfolding set_working_directory
  set_working_directory-Chooses path d h = elim (Bool-cases (exists d path)) [
    | inl here ↦ (
      (path, d),
      record {
        ran = rw (here) refl;
        keeps = record { same = refl; there = λ p k. k };
        chooses = λ _. refl;
      },
    )
    | inr gone ↦ made-Chooses path d (making path) refl gone (live _ _ h gone)
  ]

  chosen-Chooses :
      (dir path : String) (paths : List (Option String)) (d : Disk T) (r : String × Disk T)
      → Chooses path d r
      → exists d dir ≡ true
      → chosen paths path ≡ dir
      → chosen paths r.0 ≡ dir
  chosen-Chooses dir path paths d r c there h = elim (chosen-either paths) [
    | inl any ↦ any r.0 path ∙ h
    | inr kept ↦
        let same : path ≡ dir = sym (kept path) ∙ h in
        kept r.0 ∙ (c.chooses (ap (exists d) same ∙ there) ∙ same)
  ]

  -- What the flags of the server leave.
  pub record Started (dir : String) (d : Disk T) (l : Launch T) : Type 0 where
    pub chosen_there : l.folder ≡ dir
    pub keeps : Keeps d l.disk

  pub read_flags-Started :
      (dir : String) (fs : List Flag) (l : Launch T)
      → exists l.disk dir ≡ true
      → chosen (map folder_of fs) l.folder ≡ dir
      → AllUsable l.disk (map folder_of fs)
      → All IsReadable fs
      → (l' : Launch T) × (read_flags database_path making fs l ≡ ok l') × Started dir l.disk l'
  unfolding read_flags read_flag
  read_flags-Started dir [] l there h usable readable =
      (l, refl, record { chosen_there = h; keeps = record { same = refl; there = λ p k. k } })
  read_flags-Started dir (console_flag ∷ fs) l there h usable readable =
      read_flags-Started dir fs (record l { use_debug_console = true }) there h usable.1 readable.1
  read_flags-Started dir (client_flag ∷ fs) l there h usable readable =
      read_flags-Started dir fs (record l { spawn_client = true }) there h usable.1 readable.1
  read_flags-Started dir (Flag.other_flag ∷ fs) l there h usable readable =
      read_flags-Started dir fs l there h usable.1 readable.1
  read_flags-Started dir (folder_flag none ∷ fs) l there h usable readable =
      read_flags-Started dir fs l there h usable.1 readable.1
  read_flags-Started dir (folder_flag (some path) ∷ fs) l there h usable readable =
      let (r, c) = set_working_directory-Chooses path l.disk usable.0 in
      let paths = map folder_of fs in
      let (l', ran, started) =
        read_flags-Started dir fs (record l { folder = r.0; disk = r.1 }) (c.keeps.there dir there)
          (chosen-Chooses dir path paths l.disk r c there h)
          (AllUsable-Kept l.disk r.1 paths c.keeps.there usable.1) readable.1 in
      (
        l',
        rw (c.ran) ran,
        record {
          chosen_there = started.chosen_there;
          keeps = Keeps-then l.disk r.1 l'.disk c.keeps started.keeps;
        },
      )
  read_flags-Started dir (verbosity_flag none ∷ fs) l there h usable readable =
      read_flags-Started dir fs l there h usable.1 readable.1
  read_flags-Started dir (verbosity_flag (some n) ∷ fs) l there h usable readable =
      let (level, known) = readable.0 in
      let (l', ran, started) =
        read_flags-Started dir fs (record l { log_verbosity = level }) there h usable.1
          readable.1 in
      (l', rw (known) ran, started)

  -- What those of the converter leave.
  pub record Chosen (dir hpd : String) (d : Disk T) (o : Options T) : Type 0 where
    pub input_chosen : o.hpd_path ≡ hpd
    pub output_chosen : o.output ≡ dir
    pub keeps : Keeps d o.on_disk

  pub read_options-Chosen :
      (dir hpd : String) (fs : List ConverterFlag) (o : Options T)
      → exists o.on_disk dir ≡ true
      → chosen (map input_of fs) o.hpd_path ≡ hpd
      → chosen (map output_of fs) o.output ≡ dir
      → AllUsable o.on_disk (map output_of fs)
      → All (λ f. has_argument f ≡ true) fs
      → (o' : Options T) × (read_options database_path making fs o ≡ ok (false, o'))
        × Chosen dir hpd o.on_disk o'
  unfolding read_options
  read_options-Chosen dir hpd [] o there i h usable given = (
    o,
    refl,
    record {
      input_chosen = i;
      output_chosen = h;
      keeps = record { same = refl; there = λ p k. k };
    },
  )
  read_options-Chosen dir hpd (input_flag none ∷ fs) o there i h usable given = absurd (cc)
  read_options-Chosen dir hpd (input_flag (some path) ∷ fs) o there i h usable given =
      read_options-Chosen dir hpd fs (record o { hpd_path = path }) there i h usable.1 given.1
  read_options-Chosen dir hpd (output_flag none ∷ fs) o there i h usable given = absurd (cc)
  read_options-Chosen dir hpd (output_flag (some path) ∷ fs) o there i h usable given =
      let (r, c) = set_working_directory-Chooses path o.on_disk usable.0 in
      let paths = map output_of fs in
      let (o', ran, left) =
        read_options-Chosen dir hpd fs (record o { output = r.0; on_disk = r.1 })
          (c.keeps.there dir there) i (chosen-Chooses dir path paths o.on_disk r c there h)
          (AllUsable-Kept o.on_disk r.1 paths c.keeps.there usable.1) given.1 in
      (
        o',
        rw (c.ran) ran,
        record {
          input_chosen = left.input_chosen;
          output_chosen = left.output_chosen;
          keeps = Keeps-then o.on_disk r.1 o'.on_disk c.keeps left.keeps;
        },
      )
  read_options-Chosen dir hpd (verbose_flag ∷ fs) o there i h usable given =
      read_options-Chosen dir hpd fs (record o { verbose = true }) there i h usable.1 given.1
  read_options-Chosen dir hpd (ConverterFlag.other_flag ∷ fs) o there i h usable given =
      read_options-Chosen dir hpd fs o there i h usable.1 given.1
