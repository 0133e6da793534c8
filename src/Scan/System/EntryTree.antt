-- ===== src/Scan/System/EntryTree.antt =====
-- An entry read back from its property tree.
use text.Mathlib.Text.{◌==◌ as str_eq}
use pi_scan.Base.{String, ◌≡◌, ◌≢◌, refl, ◌∙◌, ap, is_zero, false, none, some, arith}
use pi_scan.Scan.Tree.{PropertyTree, FitsInt, get_text}
use pi_scan.Scan.Entry.{
  Entry, Kind, kind_tree, is_locked, lockout_of, get_property_tree, new_channel,
}
use pi_scan.Scan.System.{make_channel, make_entry}

-- What the file can hold of an entry: it is no dummy channel, its frequency and delay fit an `int`,
-- the frequency is not zero, and a lockout is a persistent one.
pub record IsStored (e : Entry) : Type 0 where
  pub real : e.kind ≢ Kind.dummy
  pub frequency_fits : FitsInt e.frequency
  pub delay_fits : FitsInt e.delay_ms
  pub tuned : is_zero e.frequency ≡ false
  pub persistent : lockout_of (is_locked e.lockout_type) ≡ e.lockout_type

-- The entry before it is added to a system.
abbrev pub unplaced : Entry → Entry
unplaced e = record e { sys_index = 0; entry_index = 0 }

module _ (P : PropertyTree) where
  open P use {Tree, empty, get, put, print_int, print_bool, get-put}

  abbrev fields : Entry → Tree
  fields e = put "freq" (print_int e.frequency) (
      put "delay" (print_int e.delay_ms)
        (put "lockout" (print_bool (is_locked e.lockout_type)) (put "tag" e.tag empty)))

  -- The texts of the kind leave the other keys alone.
  get-kind_tree :
      (k : String) (kind : Kind) (t : Tree)
      → str_eq "chantype" k ≡ false
      → str_eq "tone" k ≡ false
      → str_eq "code" k ≡ false
      → get k (kind_tree P kind t) ≡ get k t
  get-kind_tree k Kind.dummy t h1 h2 h3 = refl
  get-kind_tree k Kind.fm t h1 h2 h3 = rw (get-put k "chantype" "fmc" t, h1) refl
  get-kind_tree k Kind.am t h1 h2 h3 = rw (get-put k "chantype" "amc" t, h1) refl
  get-kind_tree k (Kind.pl tone) t h1 h2 h3 =
      rw
        (
          get-put k "tone" tone (put "chantype" "plc" (put "chantype" "fmc" t)),
          h2,
          get-put k "chantype" "plc" (put "chantype" "fmc" t),
          h1,
          get-put k "chantype" "fmc" t,
          h1,
        )
        refl
  get-kind_tree k (Kind.dc code) t h1 h2 h3 =
      rw
        (
          get-put k "code" code (put "chantype" "dcc" (put "chantype" "fmc" t)),
          h3,
          get-put k "chantype" "dcc" (put "chantype" "fmc" t),
          h1,
          get-put k "chantype" "fmc" t,
          h1,
        )
        refl

  get-freq : (e : Entry) → get "freq" (get_property_tree P e) ≡ some (print_int e.frequency)
  unfolding get_property_tree
  get-freq e = get-kind_tree "freq" e.kind (fields e) refl refl refl ∙ get-put "freq" "freq" _ _

  get-delay : (e : Entry) → get "delay" (get_property_tree P e) ≡ some (print_int e.delay_ms)
  unfolding get_property_tree
  get-delay e =
      get-kind_tree "delay" e.kind (fields e) refl refl refl
      ∙ (get-put "delay" "freq" _ _ ∙ get-put "delay" "delay" _ _)

  get-lockout :
      (e : Entry)
      → get "lockout" (get_property_tree P e) ≡ some (print_bool (is_locked e.lockout_type))
  unfolding get_property_tree
  get-lockout e =
      get-kind_tree "lockout" e.kind (fields e) refl refl refl
      ∙ (get-put "lockout" "freq" _ _
          ∙ (get-put "lockout" "delay" _ _ ∙ get-put "lockout" "lockout" _ _))

  get-tag : (e : Entry) → get "tag" (get_property_tree P e) ≡ some e.tag
  unfolding get_property_tree
  get-tag e =
      get-kind_tree "tag" e.kind (fields e) refl refl refl
      ∙ (get-put "tag" "freq" _ _
          ∙ (get-put "tag" "delay" _ _ ∙ (get-put "tag" "lockout" _ _ ∙ get-put "tag" "tag" _ _)))

  make_channel-tree :
      (e : Entry) → IsStored e → make_channel P e.kind (get_property_tree P e) ≡ some (unplaced e)
  unfolding make_channel new_channel
  make_channel-tree e s = ground (
    arith,
    get-freq e,
    get-delay e,
    get-lockout e,
    get-tag e,
    P.parse-print_int e.frequency s.frequency_fits,
    P.parse-print_int e.delay_ms s.delay_fits,
    P.parse-print_bool (is_locked e.lockout_type),
    s.tuned,
    s.persistent,
  )

  kind_is :
      (e : Entry) (kind : Kind)
      → e.kind ≡ kind
      → get_property_tree P e ≡ kind_tree P kind (fields e)
  unfolding get_property_tree
  kind_is e kind h = ap (λ k. kind_tree P k (fields e)) h

  pub text_of : (k : String) (t : Tree) {v : String} → get k t ≡ some v → get_text P k "" t ≡ v
  text_of k t h = rw (h, get_text) refl

  -- The texts of the kind say which function makes the entry.
  make_entry-kind :
      (e : Entry) (kind : Kind)
      → e.kind ≡ kind
      → kind ≢ Kind.dummy
      → make_entry P (get_text P "chantype" "" (get_property_tree P e)) (get_property_tree P e)
        ≡ some (make_channel P kind (get_property_tree P e))
  unfolding make_entry
  make_entry-kind e Kind.dummy h real = absurd (real refl)
  make_entry-kind e Kind.fm h real =
      ap (λ x. make_entry P x (get_property_tree P e))
        (text_of "chantype" _
          (ap (get "chantype") (kind_is e Kind.fm h) ∙ get-put "chantype" "chantype" "fmc" _))
  make_entry-kind e Kind.am h real =
      ap (λ x. make_entry P x (get_property_tree P e))
        (text_of "chantype" _
          (ap (get "chantype") (kind_is e Kind.am h) ∙ get-put "chantype" "chantype" "amc" _))
  make_entry-kind e (Kind.pl tone) h real =
      ap (λ x. make_entry P x (get_property_tree P e))
        (text_of "chantype" _ (
          ap (get "chantype") (kind_is e (Kind.pl tone) h)
          ∙ (get-put "chantype" "tone" tone _ ∙ get-put "chantype" "chantype" "plc" _)))
      ∙ ap (λ x. some (make_channel P (Kind.pl x) (get_property_tree P e)))
          (text_of "tone" _
            (ap (get "tone") (kind_is e (Kind.pl tone) h) ∙ get-put "tone" "tone" tone _))
  make_entry-kind e (Kind.dc code) h real =
      ap (λ x. make_entry P x (get_property_tree P e))
        (text_of "chantype" _ (
          ap (get "chantype") (kind_is e (Kind.dc code) h)
          ∙ (get-put "chantype" "code" code _ ∙ get-put "chantype" "chantype" "dcc" _)))
      ∙ ap (λ x. some (make_channel P (Kind.dc x) (get_property_tree P e)))
          (text_of "code" _
            (ap (get "code") (kind_is e (Kind.dc code) h) ∙ get-put "code" "code" code _))

  pub make_entry-tree :
      (e : Entry)
      → IsStored e
      → make_entry P (get_text P "chantype" "" (get_property_tree P e)) (get_property_tree P e)
        ≡ some (some (unplaced e))
  make_entry-tree e s = make_entry-kind e e.kind refl s.real ∙ ap some (make_channel-tree e s)

  -- A channel, no dummy, whose frequency does not fit an `int` is written to the file, but not
  -- made again from what was written.
  pub make_entry-wide :
      (e : Entry)
      → e.kind ≢ Kind.dummy
      → ¬ FitsInt e.frequency
      → make_entry P (get_text P "chantype" "" (get_property_tree P e)) (get_property_tree P e)
        ≡ some none
  unfolding make_channel
  make_entry-wide e real wide =
      make_entry-kind e e.kind refl real
      ∙ ap some (ground (arith, get-freq e, P.parse-print_int_wide e.frequency wide))
