-- ===== src/Parser/Fields.antt =====
-- `parseFields`: the grammar of `key=value` fields between boundaries, with quoting. A position in
-- the line is the suffix that is left, and a byte offset the length that was read.
use aesirguard_audit.Base.{
  ◌≡◌, refl, ℕ, zero, suc, ◌-◌, Bool, true, false, ◌&&◌, ◌||◌, not, List, [], ◌∷◌, ◌++◌, Option,
  none, some, Bytes, bytes_equality, nat_eq, if◌then◌else◌, length,
}
use aesirguard_audit.Base.Maps.{lookup, insert}
use aesirguard_audit.Record.{
  Field, FieldError, empty_field_name, malformed_field, unterminated_value, missing_boundary,
  out_of_fuel,
}
use aesirguard_audit.Parser.Text.{span}

pub data Result {ℓ} (E : Type 0) (A : Type ℓ) : Type ℓ where
  ok : A → Result E A
  err : E → Result E A

infixl 5 ◌>>=◌
abbrev pub ◌>>=◌ {ℓ κ} :
    {E : Type 0} {A : Type ℓ} {B : Type κ} → Result E A → (A → Result E B) → Result E B
ok a >>= f = f a
err e >>= f = err e

-- A chain that succeeds, step by step.
pub >>=-eq-ok {ℓ κ} :
    {E : Type 0} {A : Type ℓ} {B : Type κ} (m : Result E A) (f : A → Result E B) (b : B)
    → (m >>= f) ≡ ok b
    → (a : A) × (m ≡ ok a) × (f a ≡ ok b)
>>=-eq-ok (ok a) f b h = (a, refl, h)
>>=-eq-ok (err e) f b h = cc

abbrev pub separator : ℕ
separator = 0x1d

unfoldable pub field_boundary : ℕ → Bool
field_boundary b = nat_eq b b' ' || nat_eq b separator

-- The bytes between two fields; a separator marks what follows as interpreted.
unfoldable pub skip_boundary : Bool → Bytes → Bool × Bytes
skip_boundary interpreted [] = (interpreted, [])
skip_boundary interpreted (c ∷ cs) =
    let rest = skip_boundary (interpreted || nat_eq c separator) cs in
    if field_boundary c then rest else (interpreted, c ∷ cs)

abbrev pub is_key_byte : ℕ → Bool
is_key_byte c = not (nat_eq c b'=') && not (field_boundary c)

abbrev pub is_value_byte : ℕ → Bool
is_value_byte c = not (field_boundary c)

-- Double quotes inside a value in single quotes protect its apostrophes.
abbrev pub toggled : ℕ → Bool → ℕ → Bool
toggled quote nested c = if nat_eq quote b'\'' && nat_eq c b'"' then not nested else nested

-- The text up to the closing quote, and what stands behind that.
unfoldable pub scan_quoted : ℕ → Bool → Bytes → Option (Bytes × Bytes)
scan_quoted quote nested [] = none
scan_quoted quote nested (c ∷ cs) =
    let rest = scan_quoted quote (toggled quote nested c) cs in
    if nat_eq c quote && not (toggled quote nested c)
    then some ([], cs)
    else elim rest [ none ↦ none | some r ↦ some (c ∷ r.0, r.1) ]

abbrev pub at_boundary : Bytes → Bool
at_boundary [] = true
at_boundary (c ∷ _) = field_boundary c

-- The value behind `key=`, whether it was quoted, and the rest of the line.
abbrev pub Value : Type 0
Value = Bytes × Bool × Bytes

unfoldable pub after_quoted : Bytes → Option (Bytes × Bytes) → Result FieldError Value
after_quoted key none = err (unterminated_value key)
after_quoted key (some (value, rest)) =
    if at_boundary rest then ok (value, true, rest) else err (missing_boundary key)

unfoldable pub parse_quoted : Bytes → ℕ → Bytes → Result FieldError Value
parse_quoted key quote line = after_quoted key (scan_quoted quote false line)

unfoldable pub parse_plain : Bytes → Value
parse_plain line = let (value, rest) = span is_value_byte line in (value, false, rest)

abbrev pub is_quote : ℕ → Bool
is_quote c = nat_eq c b'"' || nat_eq c b'\''

unfoldable pub parse_value : Bytes → Bytes → Result FieldError Value
parse_value key [] = ok (parse_plain [])
parse_value key (c ∷ cs) = if is_quote c then parse_quoted key c cs else ok (parse_plain (c ∷ cs))

abbrev pub field_of : Bool → Bytes → Value → Field × Bytes
field_of interpreted key (value, quoted, rest) =
    (record { key = key; value = value; quoted = quoted; interpreted = interpreted }, rest)

-- Behind the key: the rest begins with `=`, or the field is malformed. `start` is its offset.
unfoldable pub parse_after_key : ℕ → Bool → Bytes → Bytes → Result FieldError (Field × Bytes)
parse_after_key start interpreted [] rest = err (empty_field_name start)
parse_after_key start interpreted (k ∷ ks) [] = err (malformed_field (k ∷ ks) start)
parse_after_key start interpreted (k ∷ ks) (c ∷ cs) =
    if nat_eq c b'='
    then (parse_value (k ∷ ks) cs >>= λ v. ok (field_of interpreted (k ∷ ks) v))
    else err (malformed_field (k ∷ ks) start)

-- One field, at a byte that is no boundary.
unfoldable pub parse_field : ℕ → Bool → Bytes → Result FieldError (Field × Bytes)
parse_field size interpreted line =
    let (key, rest) = span is_key_byte line in
    parse_after_key (size - length line) interpreted key rest

-- `all`, `first` and `values` of `parseFields`.
pub record Parsed : Type 0 where
  pub all : List Field
  pub first : List (Bytes × Bytes)
  pub values : List (Bytes × List Bytes)

abbrev pub nothing_parsed : Parsed
nothing_parsed = record { all = []; first = []; values = [] }

abbrev pub or_empty {ℓ} : {A : Type ℓ} → Option (List A) → List A
or_empty none = []
or_empty (some l) = l

unfoldable pub add_first : Bytes → Bytes → List (Bytes × Bytes) → List (Bytes × Bytes)
add_first key value m = elim (lookup key m) [ none ↦ insert key value m | some _ ↦ m ]

unfoldable pub append_values :
    Bytes → List Bytes → List (Bytes × List Bytes) → List (Bytes × List Bytes)
append_values key entries m = insert key (or_empty (lookup key m) ++ entries) m

unfoldable pub add_field : Field → Parsed → Parsed
add_field f p = record {
  all = p.all ++ f ∷ [];
  first = add_first f.key f.value p.first;
  values = append_values f.key (f.value ∷ []) p.values;
}

-- What one round of the loop finds: the end of the line, an error, or a field with the state of the
-- flag and the rest of the line.
pub data Round : Type 0 where
  finished : Round
  failed : FieldError → Round
  found : Bool → Field → Bytes → Round

abbrev pub round_of : Bool → Result FieldError (Field × Bytes) → Round
round_of interpreted (err e) = failed e
round_of interpreted (ok (f, rest)) = found interpreted f rest

unfoldable pub round_at : ℕ → Bool × Bytes → Round
round_at size (interpreted, []) = finished
round_at size (interpreted, c ∷ cs) = round_of interpreted (parse_field size interpreted (c ∷ cs))

unfoldable pub next_field : ℕ → Bool → Bytes → Round
next_field size interpreted line = round_at size (skip_boundary interpreted line)

-- How the loop goes on from a round, given its next rounds.
unfoldable pub go_on :
    (Bool → Field → Bytes → Result FieldError Parsed) → Parsed → Round → Result FieldError Parsed
go_on rounds p finished = ok p
go_on rounds p (failed e) = err e
go_on rounds p (found flag f rest) = rounds flag f rest

-- The loop. Each round reads at least one byte, so the length of the line is fuel enough.
unfoldable pub parse_loop : ℕ → ℕ → Bool → Bytes → Parsed → Result FieldError Parsed
parse_loop zero size interpreted line p = err out_of_fuel
parse_loop (suc fuel) size interpreted line p =
    go_on (λ flag f rest. parse_loop fuel size flag rest (add_field f p)) p
      (next_field size interpreted line)

unfoldable pub parse_fields : Bytes → Result FieldError Parsed
parse_fields line = parse_loop (suc (length line)) (length line) false line nothing_parsed
