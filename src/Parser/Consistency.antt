-- ===== src/Parser/Consistency.antt =====
-- What every successful parse satisfies: the two maps are views of the ordered fields, and each
-- field is one that the grammar allows.
use aesirguard_audit.Base.{
  ℕ, zero, suc, Bool, true, false, List, [], ◌∷◌, ◌++◌, Option, none, some, ◌≡◌, ◌≢◌, refl, sym, ap,
  ◌∙◌, inl, inr, arith, Bytes, nat_eq, if◌then◌else◌, length, Bool-cases, All, All-append, ◌==◌,
  bytes_equality, bytes_eq_iff,
}
use mathlib.Core.List.{append-nil}
use mathlib.Core.Path.{subst}
use aesirguard_audit.Base.Maps.{lookup, lookup-insert}
use aesirguard_audit.Record.{Field, FieldError}
use aesirguard_audit.Parser.Text.{span}
use aesirguard_audit.Parser.Fields.{
  Result, ok, err, ◌>>=◌, Value, at_boundary, after_quoted, parse_quoted, parse_plain, parse_value,
  is_quote, is_key_byte, is_value_byte, scan_quoted, parse_after_key, parse_field, field_of, Round,
  finished, failed, found, round_of, round_at, next_field, skip_boundary, Parsed, nothing_parsed,
  add_field, add_first, append_values, or_empty, go_on, parse_loop, parse_fields,
}

-- The values of a key among ordered fields.
unfoldable pub values_of : Bytes → List Field → List Bytes
values_of key [] = []
values_of key (f ∷ fs) =
    let rest = values_of key fs in if f.key == key then f.value ∷ rest else rest

abbrev pub head_of : List Bytes → Option Bytes
head_of [] = none
head_of (v ∷ vs) = some v

abbrev pub first_of : Option Bytes → Bytes → Option Bytes
first_of none v = some v
first_of (some u) v = some u

-- The maps say what the ordered fields say.
pub record IsConsistent (p : Parsed) : Type 0 where
  pub values_view : (key : Bytes) → or_empty (lookup key p.values) ≡ values_of key p.all
  pub first_view : (key : Bytes) → lookup key p.first ≡ head_of (values_of key p.all)

values_of-snoc :
    (key : Bytes) (fs : List Field) (f : Field)
    → values_of key (fs ++ f ∷ []) ≡ values_of key fs ++ (if f.key == key then f.value ∷ [] else [])
unfolding values_of
values_of-snoc key [] f = ground arith
values_of-snoc key (g ∷ fs) f = ground (arith, values_of-snoc key fs f)

append_values-view :
    (f : Field) (key : Bytes) (m : List (Bytes × List Bytes))
    → or_empty (lookup key (append_values f.key (f.value ∷ []) m))
      ≡ or_empty (lookup key m) ++ (if f.key == key then f.value ∷ [] else [])
unfolding append_values
append_values-view f key m = ground (
  arith,
  lookup-insert f.key key (or_empty (lookup f.key m) ++ f.value ∷ []) m,
  bytes_eq_iff f.key key,
  append-nil (or_empty (lookup key m)),
)

add_first-view :
    (f : Field) (key : Bytes) (m : List (Bytes × Bytes))
    → lookup key (add_first f.key f.value m)
      ≡ (if f.key == key then first_of (lookup key m) f.value else lookup key m)
unfolding add_first
add_first-view f key m = ground (arith, lookup-insert f.key key f.value m, bytes_eq_iff f.key key)

head-snoc :
    (key : Bytes) (vs : List Bytes) (f : Field) (o : Option Bytes)
    → o ≡ head_of vs
    → (if f.key == key then first_of o f.value else o)
      ≡ head_of (vs ++ (if f.key == key then f.value ∷ [] else []))
head-snoc key [] f o e = ground (arith, bytes_eq_iff f.key key)
head-snoc key (u ∷ vs) f o e = ground (arith, bytes_eq_iff f.key key)

add_field-IsConsistent : (f : Field) (p : Parsed) → IsConsistent p → IsConsistent (add_field f p)
unfolding add_field
add_field-IsConsistent f p v = record {
  values_view = λ key.
      append_values-view f key p.values
      ∙ ap (λ l. l ++ (if f.key == key then f.value ∷ [] else [])) (v.values_view key)
      ∙ sym (values_of-snoc key p.all f);
  first_view = λ key.
      add_first-view f key p.first
      ∙ head-snoc key (values_of key p.all) f _ (v.first_view key)
      ∙ ap head_of (sym (values_of-snoc key p.all f));
}

-- A field that the grammar allows.
pub record IsField (f : Field) : Type 0 where
  pub key_some : f.key ≢ []
  pub key_bytes : All (λ c. is_key_byte c ≡ true) f.key
  pub plain_value : f.quoted ≡ false → All (λ c. is_value_byte c ≡ true) f.value

pub span-All : (p : ℕ → Bool) (s : Bytes) → All (λ c. p c ≡ true) (span p s).0
unfolding span
span-All p [] = tt
span-All p (c ∷ cs) = ground (arith, span-All p cs)

-- What holds of the parts of a value that is read.
abbrev PlainIsPlain : Result FieldError Value → Type 0
PlainIsPlain (ok (v, quoted, rest)) = quoted ≡ false → All (λ c. is_value_byte c ≡ true) v
PlainIsPlain (err e) = Unit

after_quoted-PlainIsPlain :
    (key : Bytes) (o : Option (Bytes × Bytes)) → PlainIsPlain (after_quoted key o)
unfolding after_quoted
after_quoted-PlainIsPlain key none = tt
after_quoted-PlainIsPlain key (some (v, rest)) = elim (Bool-cases (at_boundary rest)) [
  | inl closed ↦ rw closed (λ e. cc)
  | inr more ↦ rw more tt
]

parse_value-PlainIsPlain : (key s : Bytes) → PlainIsPlain (parse_value key s)
unfolding parse_value parse_plain parse_quoted
parse_value-PlainIsPlain key [] = λ e. span-All is_value_byte []
parse_value-PlainIsPlain key (c ∷ cs) = elim (Bool-cases (is_quote c)) [
  | inl quoted ↦ rw quoted (after_quoted-PlainIsPlain key (scan_quoted c false cs))
  | inr plain ↦ rw plain (λ e. span-All is_value_byte (c ∷ cs))
]

abbrev YieldsField : Result FieldError (Field × Bytes) → Type 0
YieldsField (ok (f, rest)) = IsField f
YieldsField (err e) = Unit

field_of-YieldsField :
    (flag : Bool) (k : ℕ) (ks : Bytes) (x : Result FieldError Value)
    → All (λ c. is_key_byte c ≡ true) (k ∷ ks)
    → PlainIsPlain x
    → YieldsField (x >>= λ v. ok (field_of flag (k ∷ ks) v))
field_of-YieldsField flag k ks (ok (v, quoted, rest)) a h = record {
  key_some = λ e. cc;
  key_bytes = a;
  plain_value = h;
}
field_of-YieldsField flag k ks (err e) a h = tt

parse_after_key-YieldsField :
    (start : ℕ) (flag : Bool) (key rest : Bytes)
    → All (λ c. is_key_byte c ≡ true) key
    → YieldsField (parse_after_key start flag key rest)
unfolding parse_after_key
parse_after_key-YieldsField start flag [] rest a = tt
parse_after_key-YieldsField start flag (k ∷ ks) [] a = tt
parse_after_key-YieldsField start flag (k ∷ ks) (c ∷ cs) a = elim (Bool-cases (nat_eq c b'=')) [
  | inl equals ↦ rw equals (
      field_of-YieldsField flag k ks (parse_value (k ∷ ks) cs) a
        (parse_value-PlainIsPlain (k ∷ ks) cs))
  | inr other ↦ rw other tt
]

abbrev FindsField : Round → Type 0
FindsField (found flag f rest) = IsField f
FindsField _ = Unit

round_of-FindsField :
    (flag : Bool) (x : Result FieldError (Field × Bytes))
    → YieldsField x
    → FindsField (round_of flag x)
round_of-FindsField flag (ok (f, rest)) h = h
round_of-FindsField flag (err e) h = tt

next_field-FindsField : (size : ℕ) (x : Bool × Bytes) → FindsField (round_at size x)
unfolding round_at parse_field
next_field-FindsField size (flag, []) = tt
next_field-FindsField size (flag, c ∷ cs) =
    round_of-FindsField flag (parse_field size flag (c ∷ cs)) (
      parse_after_key-YieldsField _ flag (span is_key_byte (c ∷ cs)).0 (span is_key_byte (c ∷ cs)).1
        (span-All is_key_byte (c ∷ cs)))

-- What holds after the rounds so far.
pub record IsParse (p : Parsed) : Type 0 where
  pub consistent : IsConsistent p
  pub fields_allowed : All IsField p.all

ok-injective : {p q : Parsed} → ◌≡◌ {A = Result FieldError Parsed} (ok p) (ok q) → p ≡ q
ok-injective e = cc

add_field-IsParse : (f : Field) (p : Parsed) → IsField f → IsParse p → IsParse (add_field f p)
add_field-IsParse f p a v = record {
  consistent = add_field-IsConsistent f p v.consistent;
  fields_allowed = unfold add_field in All-append IsField p.all (f ∷ []) v.fields_allowed (a, tt);
}

go_on-IsParse :
    (rounds : Bool → Field → Bytes → Result FieldError Parsed) (p q : Parsed) (x : Round)
    → FindsField x
    → IsParse p
    → ((flag : Bool) (f : Field) (rest : Bytes) → IsField f → rounds flag f rest ≡ ok q → IsParse q)
    → go_on rounds p x ≡ ok q
    → IsParse q
unfolding go_on
go_on-IsParse rounds p q finished g v h e = subst IsParse (ok-injective e) v
go_on-IsParse rounds p q (failed _) g v h e = cc
go_on-IsParse rounds p q (found flag f rest) g v h e = h flag f rest g e

parse_loop-IsParse :
    (fuel size : ℕ) (flag : Bool) (s : Bytes) (p q : Parsed)
    → IsParse p
    → parse_loop fuel size flag s p ≡ ok q
    → IsParse q
unfolding parse_loop
parse_loop-IsParse zero size flag s p q v e = cc
parse_loop-IsParse (suc fuel) size flag s p q v e =
    go_on-IsParse _ p q (next_field size flag s)
      (unfold next_field in next_field-FindsField size (skip_boundary flag s)) v
      (λ flag' f rest a later.
        parse_loop-IsParse fuel size flag' rest (add_field f p) q (add_field-IsParse f p a v) later)
      e

-- Whatever `parseFields` returns: keys are not empty and hold no equals sign or boundary, values
-- without quotes hold no boundary, `values` lists each key's values in the order of the fields, and
-- `first` holds the first of them.
pub parse_fields-IsParse : (line : Bytes) (p : Parsed) → parse_fields line ≡ ok p → IsParse p
unfolding parse_fields
parse_fields-IsParse line p e =
    parse_loop-IsParse (suc (length line)) (length line) false line nothing_parsed p
      (record {
        consistent = record {
          values_view = λ k. unfold lookup values_of in refl;
          first_view = λ k. unfold lookup values_of in refl;
        };
        fields_allowed = tt;
      })
      e
