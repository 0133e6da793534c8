-- ===== src/Scan/Sentinel/Converted.antt =====
-- What the converter makes of a file, and what the scanner reads of it.
use Prim.Native.Char.{code}
use text.Mathlib.Text.{◌==◌ as str_eq}
use pi_scan.Base.{
  ℕ, zero, suc, ◌+◌, ◌-◌, String, ◌≡◌, ◌≢◌, refl, ap, sym, ◌∙◌, ℤ, pos, Bool, true, false, List, [],
  ◌∷◌, ◌++◌, Option, none, some, ok, ok-injective, Post, Post-ok, bind-Post, bind_any-Post, if-Post,
  if-elim, leb_ℤ, negsuc, ◌&&◌, ◌==◌, All, All-append, get_elem?, set, length, length-append, arith,
  Bool-cases, inl, inr,
}
use pi_scan.Numbers.{within, stoi, stoll}
use pi_scan.Fields.{fields, before, from}
use pi_scan.Scan.Tree.{FitsInt}
use pi_scan.Scan.Entry.{
  Kind, Entry, new_channel, lockout_of, is_locked, set_sys_index, set_entry_index,
}
use pi_scan.Scan.System.{System, new_system, add_entry}
use pi_scan.Scan.System.RoundTrip.{Numbered}
use pi_scan.Scan.Rotation.{or_undefined}
use pi_scan.Scan.Sentinel.{
  SentinelFile, tokens_of, token, thousandfold, channel_kind, tone_kind, place_entry, place_if,
  new_analog_sys, new_analog_entry, add_to, add_analog_entry, is_fm, has_system, convert_tokens,
  convert_lines, generate_system_list,
}

-- What holds of every entry that is converted.
pub record IsConvertedEntry (e : Entry) : Type 0 where
  pub real : e.kind ≢ Kind.dummy
  pub delay_fits : FitsInt e.delay_ms
  pub persistent : lockout_of (is_locked e.lockout_type) ≡ e.lockout_type

-- A converted system: its index is 0 wherever it stands in the list, and so is that of its entries.
pub record IsConverted (s : System) : Type 0 where
  pub index : s.sys_index ≡ 0
  pub sized : s.num_entries ≡ length s.entries
  pub numbered : Numbered 0 0 s.entries
  pub converted : All IsConvertedEntry s.entries

abbrev Systems : SentinelFile → Type 0
Systems c = All IsConverted c.systems

module _ {ℓ κ} {A : Type ℓ} (Q : A → Type κ) where
  set-All : (xs : List A) (i : ℕ) (v : A) → All Q xs → Q v → All Q (set xs i v)
  set-All [] i v h q = tt
  set-All (x ∷ xs) zero v h q = (q, h.1)
  set-All (x ∷ xs) (suc i) v h q = (h.0, set-All xs i v h.1 q)

append-Numbered :
    (i n : ℕ) (es : List Entry) (e : Entry)
    → Numbered i n es
    → e.sys_index ≡ i
    → e.entry_index ≡ n + length es
    → Numbered i n (es ++ e ∷ [])
append-Numbered i n [] e h here place = (here, omega (arith, place), tt)
append-Numbered i n (x ∷ es) e h here place =
    (h.0, h.1, append-Numbered i (n + 1) es e h.2 here (omega (arith, place)))

add_entry-IsConverted :
    (s : System) (e : Entry)
    → IsConverted s
    → IsConvertedEntry e
    → IsConverted (add_entry s (some e))
unfolding add_entry set_sys_index set_entry_index
add_entry-IsConverted s e h k =
    let e' : Entry = set_sys_index (set_entry_index e s.num_entries) s.sys_index in
    record {
      index = h.index;
      sized = ap (λ n. n + 1) h.sized ∙ (omega arith ∙ sym (length-append s.entries (e' ∷ [])));
      numbered = append-Numbered 0 0 s.entries e' h.numbered h.index (h.sized ∙ omega arith);
      converted =
          All-append IsConvertedEntry s.entries (e' ∷ []) h.converted
            (record { real = k.real; delay_fits = k.delay_fits; persistent = k.persistent }, tt);
    }

found-IsConverted :
    (systems : List System) (i : ℕ)
    → All IsConverted systems
    → Post IsConverted (or_undefined (get_elem? systems i))
found-IsConverted [] i h = tt
found-IsConverted (s ∷ systems) zero h = h.0
found-IsConverted (s ∷ systems) (suc i) h = found-IsConverted systems i h.1

place_entry-Systems :
    (i : ℕ) (e : Entry) (c : SentinelFile)
    → Systems c
    → IsConvertedEntry e
    → Post Systems (place_entry i e c)
unfolding place_entry set_sys_index set_entry_index
place_entry-Systems i e c h k =
    bind-Post IsConverted Systems (or_undefined (get_elem? c.systems i)) _
      (found-IsConverted c.systems i h)
      (λ s kept. set-All IsConverted c.systems i _ h (
        add_entry-IsConverted s
          (set_entry_index (set_sys_index e (length c.systems - 1)) s.num_entries) kept
          (record { real = k.real; delay_fits = k.delay_fits; persistent = k.persistent })))

new_analog_sys-Systems :
    (tokens : List String) (c : SentinelFile) → Systems c → Post Systems (new_analog_sys tokens c)
unfolding new_analog_sys new_system
new_analog_sys-Systems tokens c h = bind_any-Post Systems (token tokens 1) _ λ tag.
    bind_any-Post Systems (token tokens 2) _ λ lockout.
      All-append IsConverted c.systems (_ ∷ []) h
        (record { index = refl; sized = refl; numbered = tt; converted = tt }, tt)

tone_kind_real : (coded : String) → Post (λ kind. kind ≢ Kind.dummy) (tone_kind coded)
tone_kind_real String.[] = tt
tone_kind_real (String.◌∷◌ c tone) =
    if-elim (λ kind. kind ≢ Kind.dummy) (code c == b'C') _ _ (λ pl h. cc)
      (λ other. if-elim (λ kind. kind ≢ Kind.dummy) (code c == b'D') _ _ (λ dc h. cc) (λ fm h. cc))

-- No class that the converter picks is that of a dummy channel.
abbrev IsReal : Option Kind → Type 0
IsReal none = Unit
IsReal (some kind) = kind ≢ Kind.dummy

channel_kind-IsReal : (mode tone : String) → Post IsReal (channel_kind mode tone)
unfolding channel_kind
channel_kind-IsReal mode tone =
    if-Post IsReal (is_fm mode) _ _
      (λ fm.
        if-Post IsReal (str_eq tone "") _ _ (λ empty h. cc)
          (λ text.
            if-Post IsReal (str_eq (before 5 tone) "TONE=") _ _
              (λ coded.
                bind-Post (λ kind. kind ≢ Kind.dummy) IsReal (tone_kind (from 5 tone)) _
                  (tone_kind_real (from 5 tone)) (λ kind real. real))
              (λ bare. tt)))
      (λ other. if-Post IsReal (str_eq mode "AM") _ _ (λ am h. cc) (λ unknown. tt))

delay-FitsInt : (z : ℤ) → Post FitsInt (or_undefined (within 0x7fff_ffff (some z)))
delay-FitsInt z = elim (Bool-cases (leb_ℤ (negsuc 0x7fff_ffff) z && leb_ℤ z (pos 0x7fff_ffff))) [
  | inl inside ↦
      rw inside (record { above = ground (arith, inside); below = ground (arith, inside) })
  | inr outside ↦ rw outside tt
]

lockout_persistent : (lo : Bool) → lockout_of (is_locked (lockout_of lo)) ≡ lockout_of lo
lockout_persistent true = refl
lockout_persistent false = refl

place_if-Systems :
    (i : ℕ) (make : Kind → Entry) (o : Option Kind) (c : SentinelFile)
    → Systems c
    → IsReal o
    → ((kind : Kind) → kind ≢ Kind.dummy → IsConvertedEntry (make kind))
    → Post Systems (place_if i make o c)
place_if-Systems i make none c h real made = h
place_if-Systems i make (some kind) c h real made =
    place_entry-Systems i (make kind) c h (made kind real)

add_analog_entry-Systems :
    (i : ℕ) (tokens : List String) (c : SentinelFile)
    → Systems c
    → Post Systems (add_analog_entry i tokens c)
unfolding new_channel
add_analog_entry-Systems i tokens c h = bind_any-Post Systems (token tokens 1) _ λ tag.
    bind_any-Post Systems (token tokens 2) _ λ lockout.
      bind_any-Post Systems (token tokens 3) _ λ s_freq.
        bind_any-Post Systems (token tokens 4) _ λ mode.
          bind_any-Post Systems (token tokens 5) _ λ tone.
            bind_any-Post Systems (token tokens 8) _ λ s_delay.
              bind_any-Post Systems (or_undefined (stoll s_freq)) _ λ freq.
                bind_any-Post Systems (or_undefined (stoi s_delay)) _ λ seconds.
                  bind-Post FitsInt Systems
                    (or_undefined (within 0x7fff_ffff (some (thousandfold seconds)))) _
                    (delay-FitsInt (thousandfold seconds))
                    λ delay fits.
                      bind-Post IsReal Systems (channel_kind mode tone) _
                        (channel_kind-IsReal mode tone)
                        λ o real. place_if-Systems i _ o c h real λ kind r. record {
                          real = r;
                          delay_fits = fits;
                          persistent = lockout_persistent (str_eq lockout "On");
                        }

add_to-Systems :
    (o : Option ℕ) (tokens : List String) (c : SentinelFile)
    → Systems c
    → Post Systems (add_to o tokens c)
add_to-Systems none tokens c h = h
add_to-Systems (some i) tokens c h = add_analog_entry-Systems i tokens c h

convert_tokens-Systems :
    (tokens : List String) (c : SentinelFile) → Systems c → Post Systems (convert_tokens tokens c)
unfolding new_analog_entry
convert_tokens-Systems [] c h = h
convert_tokens-Systems (t ∷ ts) c h =
    if-Post Systems (str_eq t "C-Group") _ _ (λ group. new_analog_sys-Systems (t ∷ ts) c h)
      (λ no_group.
        if-Post Systems (str_eq t "C-Freq") _ _
          (λ freq.
            if-Post Systems (has_system c.system) _ _
              (λ there. add_to-Systems c.system (t ∷ ts) c h) (λ none_yet. h))
          (λ other. h))

convert_lines-Systems :
    (lines : List String) (c : SentinelFile) → Systems c → Post Systems (convert_lines lines c)
unfolding convert_lines
convert_lines-Systems [] c h = h
convert_lines-Systems (line ∷ lines) c h =
    bind-Post Systems Systems (convert_tokens (tokens_of line) c) _
      (convert_tokens-Systems (tokens_of line) c h) (λ c' h'. convert_lines-Systems lines c' h')

-- Whatever the file holds, every system that is converted from it is well-formed.
pub generate_system_list-IsConverted :
    (file : Option String) (opened : Bool) (systems : List System)
    → generate_system_list file [] ≡ ok (opened, systems)
    → All IsConverted systems
unfolding generate_system_list
generate_system_list-IsConverted none opened systems e = rw⁻¹ (ap (λ x. x.1) (ok-injective e)) tt
generate_system_list-IsConverted (some file) opened systems e =
    Post-ok (λ (r : Bool × List System). All IsConverted r.1)
      (bind-Post Systems (λ r. All IsConverted r.1)
        (convert_lines (fields b'\n' file) (record { systems = []; system = none })) _
        (convert_lines-Systems (fields b'\n' file) (record { systems = []; system = none }) tt)
        (λ c h. h))
      e
