-- ===== src/Parser/Text.antt =====
-- What the parser uses of Go's `strings`, `unicode/utf8` and of slices, on byte strings.
use aesirguard_audit.Base.{
  ℕ, ◌-◌, Bool, true, false, ◌&&◌, [], ◌∷◌, Option, none, some, ◌==◌, Bytes, bytes_equality, leb,
  ltb, nat_eq, if◌then◌else◌,
}

-- The longest prefix whose bytes pass a test, and the rest.
unfoldable pub span : (ℕ → Bool) → Bytes → Bytes × Bytes
span p [] = ([], [])
span p (c ∷ cs) = let rest = span p cs in if p c then (c ∷ rest.0, rest.1) else ([], c ∷ cs)

-- `strings.HasPrefix` and `strings.CutPrefix` in one: what stands behind the prefix.
unfoldable pub after_prefix : Bytes → Bytes → Option Bytes
after_prefix [] s = some s
after_prefix (p ∷ ps) [] = none
after_prefix (p ∷ ps) (c ∷ cs) = let rest = after_prefix ps cs in if nat_eq p c then rest else none

abbrev pub has_prefix : Bytes → Bytes → Bool
has_prefix s prefix = elim (after_prefix prefix s) [ none ↦ false | some _ ↦ true ]

-- `strings.TrimPrefix`.
abbrev pub trim_prefix : Bytes → Bytes → Bytes
trim_prefix s prefix = elim (after_prefix prefix s) [ none ↦ s | some rest ↦ rest ]

-- `strings.Index`: the text before the first occurrence, and the text behind it.
unfoldable pub cut_at : Bytes → Bytes → Option (Bytes × Bytes)
cut_at sep [] = elim (after_prefix sep []) [ none ↦ none | some rest ↦ some ([], rest) ]
cut_at sep (c ∷ cs) = elim (after_prefix sep (c ∷ cs)) [
  | some rest ↦ some ([], rest)
  | none ↦ elim (cut_at sep cs) [ none ↦ none | some r ↦ some (c ∷ r.0, r.1) ]
]

-- What stands before a suffix (`strings.HasSuffix`).
unfoldable pub before_suffix : Bytes → Bytes → Option Bytes
before_suffix suffix [] = if suffix == [] then some [] else none
before_suffix suffix (c ∷ cs) = elim (before_suffix suffix cs) [
  | some before ↦ some (c ∷ before)
  | none ↦ if suffix == c ∷ cs then some [] else none
]

-- `utf8.ValidString` as an automaton: how many continuation bytes are due, and the range of the next.
pub record Utf8State : Type 0 where
  pub due : ℕ
  pub low : ℕ
  pub high : ℕ

abbrev pub expect : ℕ → ℕ → ℕ → Utf8State
expect due low high = record { due = due; low = low; high = high }

abbrev within : ℕ → ℕ → ℕ → Bool
within low high c = leb low c && leb c high

unfoldable pub utf8_lead : ℕ → Option Utf8State
utf8_lead c =
    if ltb c 0x80
    then some (expect 0 0x80 0xbf)
    else if within 0xc2 0xdf c
    then some (expect 1 0x80 0xbf)
    else if nat_eq c 0xe0
    then some (expect 2 0xa0 0xbf)
    else if nat_eq c 0xed
    then some (expect 2 0x80 0x9f)
    else if within 0xe1 0xef c
    then some (expect 2 0x80 0xbf)
    else if nat_eq c 0xf0
    then some (expect 3 0x90 0xbf)
    else if within 0xf1 0xf3 c
    then some (expect 3 0x80 0xbf)
    else if nat_eq c 0xf4
    then some (expect 3 0x80 0x8f)
    else none

unfoldable pub utf8_step : Utf8State → ℕ → Option Utf8State
utf8_step s c =
    if nat_eq s.due 0
    then utf8_lead c
    else if within s.low s.high c
    then some (expect (s.due - 1) 0x80 0xbf)
    else none

unfoldable pub utf8_run : Utf8State → Bytes → Bool
utf8_run s [] = nat_eq s.due 0
utf8_run s (c ∷ cs) = elim (utf8_step s c) [ none ↦ false | some t ↦ utf8_run t cs ]

unfoldable pub valid_utf8 : Bytes → Bool
unfolding utf8_lead utf8_step utf8_run
valid_utf8 s = utf8_run (expect 0 0x80 0xbf) s
