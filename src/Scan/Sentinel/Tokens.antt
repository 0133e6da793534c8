-- ===== src/Scan/Sentinel/Tokens.antt =====
-- A line of a Sentinel file and its tokens: what becomes of a channel without a tone.
use text.Mathlib.Text.{◌==◌ as str_eq}
use pi_scan.Base.{
  ℕ, String, ◌≡◌, refl, ap, true, false, List, [], ◌∷◌, Option, none, some, ok, Post, bind-Post,
  bind_any-Post, if-Post, All, All-get_elem?, get_elem?, Bool-cases, inl, inr,
}
use pi_scan.Fields.{before, fields}
use pi_scan.Numbers.{stoi, stoll, within}
use pi_scan.Scan.Rotation.{or_undefined}
use pi_scan.Scan.Sentinel.{
  SentinelFile, kept_fields, tokens_of, thousandfold, has_system, token, is_fm, channel_kind,
  new_analog_entry, add_to, add_analog_entry, convert_tokens, convert_lines,
}

abbrev NotEmpty : String → Type 0
NotEmpty f = str_eq f "" ≡ false

kept_fields-NotEmpty : (fs : List String) → All NotEmpty (kept_fields fs)
kept_fields-NotEmpty [] = tt
kept_fields-NotEmpty (f ∷ fs) = elim (Bool-cases (str_eq f "")) [
  | inl empty ↦ rw empty (kept_fields-NotEmpty fs)
  | inr text ↦ rw text (text, kept_fields-NotEmpty fs)
]

tokens-NotEmpty : (line : String) → All NotEmpty (tokens_of line)
unfolding tokens_of
tokens-NotEmpty line = kept_fields-NotEmpty (fields b'\t' line)

-- Without the mark of a tone an FM channel is of no class, unless the text of its tone is empty.
channel_kind-none :
    (mode tone : String)
    → is_fm mode ≡ true
    → NotEmpty tone
    → str_eq (before 5 tone) "TONE=" ≡ false
    → channel_kind mode tone ≡ ok none
unfolding channel_kind
channel_kind-none mode tone fm text bare = rw (fm, text, bare) refl

abbrev Same : SentinelFile → SentinelFile → Type 0
Same c c' = c' ≡ c

add_analog_entry-Same :
    (i : ℕ) (tokens : List String) (c : SentinelFile) (mode tone : String)
    → get_elem? tokens 4 ≡ some mode
    → get_elem? tokens 5 ≡ some tone
    → channel_kind mode tone ≡ ok none
    → Post (Same c) (add_analog_entry i tokens c)
add_analog_entry-Same i tokens c mode tone at4 at5 dropped =
    bind_any-Post (Same c) (token tokens 1) _ λ tag.
      bind_any-Post (Same c) (token tokens 2) _ λ lockout.
        bind_any-Post (Same c) (token tokens 3) _ λ s_freq.
          rw (at4, at5)
            (bind_any-Post (Same c) (token tokens 8) _ λ s_delay.
              bind_any-Post (Same c) (or_undefined (stoll s_freq)) _ λ freq.
                bind_any-Post (Same c) (or_undefined (stoi s_delay)) _ λ seconds.
                  bind_any-Post (Same c)
                    (or_undefined (within 0x7fff_ffff (some (thousandfold seconds)))) _
                    λ delay. rw dropped refl)

add_to-Same :
    (o : Option ℕ) (tokens : List String) (c : SentinelFile) (mode tone : String)
    → get_elem? tokens 4 ≡ some mode
    → get_elem? tokens 5 ≡ some tone
    → channel_kind mode tone ≡ ok none
    → Post (Same c) (add_to o tokens c)
add_to-Same none tokens c mode tone at4 at5 dropped = refl
add_to-Same (some i) tokens c mode tone at4 at5 dropped =
    add_analog_entry-Same i tokens c mode tone at4 at5 dropped

new_analog_entry-Same :
    (tokens : List String) (c : SentinelFile) (mode tone : String)
    → get_elem? tokens 4 ≡ some mode
    → get_elem? tokens 5 ≡ some tone
    → channel_kind mode tone ≡ ok none
    → Post (Same c) (new_analog_entry tokens c)
unfolding new_analog_entry
new_analog_entry-Same tokens c mode tone at4 at5 dropped =
    add_to-Same c.system tokens c mode tone at4 at5 dropped

convert_tokens-Same :
    (all tokens : List String) (c : SentinelFile) (mode tone : String)
    → all ≡ "C-Freq" ∷ tokens
    → get_elem? all 4 ≡ some mode
    → get_elem? all 5 ≡ some tone
    → channel_kind mode tone ≡ ok none
    → Post (Same c) (convert_tokens all c)
convert_tokens-Same [] tokens c mode tone type at4 at5 dropped = refl
convert_tokens-Same (t ∷ ts) tokens c mode tone type at4 at5 dropped =
    let freq : t ≡ "C-Freq" = cc in
    let is_freq : str_eq t "C-Freq" ≡ true = ap (λ x. str_eq x "C-Freq") freq in
    let no_group : str_eq t "C-Group" ≡ false = ap (λ x. str_eq x "C-Group") freq in
    rw (no_group, is_freq)
      (if-Post (Same c) (has_system c.system) (new_analog_entry (t ∷ ts) c) (ok c)
        (λ there. new_analog_entry-Same (t ∷ ts) c mode tone at4 at5 dropped) (λ none_yet. refl))

-- A line of a channel whose mode is that of an FM channel, and whose sixth token does not begin with
-- the mark of a tone, adds nothing, whatever the conversion holds. As no token is empty, the branch
-- for a channel without a tone is never taken.
pub convert_lines-toneless :
    (line : String) (tokens : List String) (c : SentinelFile) (mode tone : String)
    → tokens_of line ≡ "C-Freq" ∷ tokens
    → get_elem? (tokens_of line) 4 ≡ some mode
    → is_fm mode ≡ true
    → get_elem? (tokens_of line) 5 ≡ some tone
    → str_eq (before 5 tone) "TONE=" ≡ false
    → Post (Same c) (convert_lines (line ∷ []) c)
unfolding convert_lines
convert_lines-toneless line tokens c mode tone type at4 fm at5 bare =
    let text : NotEmpty tone =
      All-get_elem? NotEmpty (tokens_of line) 5 (tokens-NotEmpty line) at5 in
    bind-Post (Same c) (Same c) (convert_tokens (tokens_of line) c) _
      (convert_tokens-Same (tokens_of line) tokens c mode tone type at4 at5
        (channel_kind-none mode tone fm text bare))
      (λ c' same. same)
