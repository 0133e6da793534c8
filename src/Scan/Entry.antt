-- ===== src/Scan/Entry.antt =====
-- Entry.h and Entry.cpp: the entries of the scan list. The class hierarchy is one record with the
-- class as its `kind`; the setters return the new record.
use Prim.Native.String.{◌++◌}
use pi_scan.Base.{
  ℕ, String, ℤ, pos, Bool, true, false, List, [], ◌∷◌, if◌then◌else◌, ◌≡◌, refl, arith,
}
use pi_scan.Scan.Text.{to_string}
use pi_scan.Scan.Tree.{PropertyTree}

-- The concrete subclasses of `Channel`; the tone of a `PLChannel` and the code of a `DCChannel`
-- are the texts that they keep.
pub data Kind : Type 0 where
  dummy fm am : Kind
  pl dc : String → Kind

pub data LockoutType : Type 0 where
  none persist session timer : LockoutType

pub record Entry : Type 0 where
  pub kind : Kind
  pub frequency : ℤ  -- long long
  pub tag : String
  pub lockout_type : LockoutType
  pub delay_ms : ℤ  -- int
  pub sys_index : ℕ
  pub entry_index : ℕ

abbrev pub lockout_of : Bool → LockoutType
lockout_of lo = if lo then LockoutType.persist else LockoutType.none

-- The constructors: `Entry(tag, lo, del)` and below it `Channel(freq, tag, lo, del)`.
unfoldable pub new_channel : Kind → ℤ → String → Bool → ℤ → Entry
new_channel kind freq tag lo del = record {
  kind = kind;
  frequency = freq;
  tag = tag;
  lockout_type = lockout_of lo;
  delay_ms = del;
  sys_index = 0;
  entry_index = 0;
}

unfoldable pub dummy_channel : ℤ → Entry
unfolding new_channel
dummy_channel freq = new_channel dummy freq "" false (pos 0)

abbrev pub is_locked : LockoutType → Bool
is_locked LockoutType.none = false
is_locked _ = true

unfoldable pub is_locked_out : Entry → Bool
is_locked_out e = is_locked e.lockout_type

unfoldable pub lockout : Entry → Bool → Entry
lockout e val = record e { lockout_type = lockout_of val }

abbrev is_dummy_kind : Kind → Bool
is_dummy_kind dummy = true
is_dummy_kind _ = false

unfoldable pub is_dummy : Entry → Bool
is_dummy e = is_dummy_kind e.kind

unfoldable pub set_sys_index : Entry → ℕ → Entry
set_sys_index e index = record e { sys_index = index }

unfoldable pub set_entry_index : Entry → ℕ → Entry
set_entry_index e index = record e { entry_index = index }

modulation_of : Kind → String
modulation_of dummy = ""
modulation_of fm = "NFM"
modulation_of (pl tone) = "PL" ++ tone
modulation_of (dc code) = "DC" ++ code
modulation_of am = "AM"

unfoldable pub modulation : Entry → String
unfolding modulation_of
modulation e = modulation_of e.kind

-- `Channel::key`, and what the subclasses append to it.
key_suffix : Kind → String
key_suffix dummy = ""
key_suffix fm = "FM"
key_suffix (pl tone) = "FM" ++ ("PL" ++ tone)
key_suffix (dc code) = "FM" ++ ("DC" ++ code)
key_suffix am = "AM"

unfoldable pub key : Entry → String
unfolding key_suffix to_string
key e = ("F" ++ to_string e.frequency) ++ key_suffix e.kind

-- `piscan::sigproc::Modulation`, and the calls of the demodulator that an entry makes.
pub data Modulation : Type 0 where
  nfm wide_fm am_mode : Modulation

pub data DemodCall : Type 0 where
  set_modem : Modulation → DemodCall
  set_frequency set_tuner_frequency : ℤ → DemodCall

-- What `DemodInterface` answers during one call of a state function.
pub record Demod : Type 0 where
  pub sets_frequency : ℤ → Bool
  pub threshold_met : Bool

-- The last clauses are `FMChannel::hasSignal`, which the tone and code channels inherit.
has_signal_of : Demod → ℤ → Kind → Bool
has_signal_of d freq dummy = false
has_signal_of d freq _ = if d.sets_frequency freq then d.threshold_met else false

unfoldable pub has_signal : Demod → Entry → Bool
unfolding has_signal_of
has_signal d e = has_signal_of d e.frequency e.kind

has_signal_of-quiet :
    (d : Demod) (freq : ℤ) (k : Kind) → d.threshold_met ≡ false → has_signal_of d freq k ≡ false
unfolding has_signal_of
has_signal_of-quiet d freq dummy h = refl
has_signal_of-quiet d freq _ h = ground (arith, h)

pub has_signal-quiet : (d : Demod) (e : Entry) → d.threshold_met ≡ false → has_signal d e ≡ false
unfolding has_signal
has_signal-quiet d e h = has_signal_of-quiet d e.frequency e.kind h

signal_calls_of : ℤ → Kind → List DemodCall
signal_calls_of freq dummy = set_tuner_frequency freq ∷ []
signal_calls_of freq am = set_modem am_mode ∷ set_frequency freq ∷ []
signal_calls_of freq _ = set_modem nfm ∷ set_frequency freq ∷ []

-- The calls that `hasSignal` makes, in order.
unfoldable pub signal_calls : Entry → List DemodCall
unfolding signal_calls_of
signal_calls e = signal_calls_of e.frequency e.kind

-- The tree that the constructors fill and `lockout` keeps up to date.
module _ (P : PropertyTree) where
  open P use {Tree, empty, put, print_int, print_bool}

  abbrev pub kind_tree : Kind → Tree → Tree
  kind_tree dummy t = t
  kind_tree fm t = put "chantype" "fmc" t
  kind_tree am t = put "chantype" "amc" t
  kind_tree (pl tone) t = put "tone" tone (put "chantype" "plc" (put "chantype" "fmc" t))
  kind_tree (dc code) t = put "code" code (put "chantype" "dcc" (put "chantype" "fmc" t))

  unfoldable pub get_property_tree : Entry → Tree
  get_property_tree e = kind_tree e.kind (
      put "freq" (print_int e.frequency) (
        put "delay" (print_int e.delay_ms)
          (put "lockout" (print_bool (is_locked e.lockout_type)) (put "tag" e.tag empty))))
