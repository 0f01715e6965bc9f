-- ===== src/Assembler/Time.antt =====
-- `auditTimeFromID` of assembler.go: the time that an audit ID `seconds.fraction:serial` states.
use aesirguard_audit.Base.{
  ℕ, zero, suc, ◌+◌, ◌-◌, ◌*◌, ◌^◌, Bool, true, false, ◌&&◌, ◌||◌, not, [], ◌∷◌, Option, none, some,
  Bytes, leb, ltb, nat_eq, if◌then◌else◌, length,
}

-- A byte string cut at a separator: what stands before it and what stands behind.
unfoldable pub cut_first : ℕ → Bytes → Option (Bytes × Bytes)
cut_first b [] = none
cut_first b (c ∷ cs) = elim (nat_eq c b) [
  | true ↦ some ([], cs)
  | false ↦ elim (cut_first b cs) [ none ↦ none | some r ↦ some (c ∷ r.0, r.1) ]
]

-- The same at the last separator (`strings.LastIndexByte`).
unfoldable pub cut_last : ℕ → Bytes → Option (Bytes × Bytes)
cut_last b [] = none
cut_last b (c ∷ cs) = elim (cut_last b cs) [
  | some r ↦ some (c ∷ r.0, r.1)
  | none ↦ if nat_eq c b then some ([], cs) else none
]

abbrev pub is_digit : ℕ → Bool
is_digit c = leb b'0' c && leb c b'9'

unfoldable pub all_digits : Bytes → Bool
all_digits [] = true
all_digits (c ∷ cs) = is_digit c && all_digits cs

-- The number that a string of digits spells, onto what was read before.
unfoldable pub digits_value : ℕ → Bytes → ℕ
digits_value acc [] = acc
digits_value acc (c ∷ cs) = digits_value (acc * 10 + (c - b'0')) cs

-- `strconv.ParseUint(s, 10, bits)` and, on digits alone, `strconv.ParseInt`: `limit` is the first
-- value out of range.
unfoldable pub parse_decimal : ℕ → Bytes → Option ℕ
unfolding all_digits digits_value
parse_decimal limit [] = none
parse_decimal limit (c ∷ cs) =
    if all_digits (c ∷ cs) && ltb (digits_value 0 (c ∷ cs)) limit
    then some (digits_value 0 (c ∷ cs))
    else none

-- The fraction cut or padded to nine digits.
unfoldable pub nine_digits : ℕ → Bytes → Bytes
nine_digits zero text = []
nine_digits (suc n) [] = b'0' ∷ nine_digits n []
nine_digits (suc n) (c ∷ cs) = c ∷ nine_digits n cs

-- Seconds from Go's zero time to the Unix epoch, and from the Unix epoch to the year 10000.
abbrev pub unix_epoch : ℕ
unix_epoch = 62135596800

abbrev pub year_10000 : ℕ
year_10000 = 253402300800

abbrev pub nanoseconds_per_second : ℕ
nanoseconds_per_second = 1000000000

-- `time.Unix(seconds, nanoseconds)` in nanoseconds since the zero time, if the year has four digits.
unfoldable pub unix_time : ℕ → ℕ → Option ℕ
unix_time seconds nanoseconds =
    if ltb seconds year_10000
    then some ((unix_epoch + seconds) * nanoseconds_per_second + nanoseconds)
    else none

-- From the two texts round the dot on; `dot` tells whether there was one.
unfoldable pub time_from_parts : Bool → Bytes → Bytes → Option ℕ
unfolding unix_time all_digits parse_decimal nine_digits
time_from_parts dot seconds_text fraction_text =
    if nat_eq (length seconds_text) 0 || (dot && nat_eq (length fraction_text) 0)
    then none
    else if not (all_digits seconds_text) || not (all_digits fraction_text)
    then none
    else elim (parse_decimal (2 ^ 63) seconds_text) [
      | none ↦ none
      | some seconds ↦ elim (parse_decimal (2 ^ 63) (nine_digits 9 fraction_text)) [
        | none ↦ none
        | some nanoseconds ↦ unix_time seconds nanoseconds
      ]
    ]

unfoldable pub audit_time_from_id : Bytes → Option ℕ
unfolding cut_first cut_last all_digits parse_decimal time_from_parts
audit_time_from_id id = elim (cut_last b':' id) [
  | none ↦ none
  | some (timestamp, serial) ↦
      if nat_eq (length timestamp) 0 || nat_eq (length serial) 0
      then none
      else elim (parse_decimal (2 ^ 64) serial) [
        | none ↦ none
        | some _ ↦ elim (cut_first b'.' timestamp) [
          | none ↦ time_from_parts false timestamp []
          | some (seconds_text, fraction_text) ↦ time_from_parts true seconds_text fraction_text
        ]
      ]
]
