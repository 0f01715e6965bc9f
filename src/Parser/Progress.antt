-- ===== src/Parser/Progress.antt =====
-- `parseFields` always ends: each round of its loop reads a byte at least.
use aesirguard_audit.Base.{
  ℕ, zero, suc, ◌+◌, ◌-◌, ◌≤◌, ◌<◌, Bool, false, ◌||◌, [], ◌∷◌, Option, none, some, ◌≡◌, ◌≢◌, refl,
  inl, inr, arith, Bytes, nat_eq, length, Bool-cases, Option-cases,
}
use mathlib.Core.Path.{subst}
use aesirguard_audit.Record.{Field, FieldError, out_of_fuel}
use aesirguard_audit.Parser.Text.{span}
use aesirguard_audit.Parser.Fields.{
  Result, ok, err, separator, ◌>>=◌, after_quoted, skip_boundary, scan_quoted, toggled, at_boundary,
  parse_quoted, parse_plain, parse_value, is_quote, is_key_byte, is_value_byte, parse_after_key,
  parse_field, field_of, Round, finished, failed, found, round_of, round_at, next_field, Parsed,
  add_field, go_on, parse_loop, parse_fields,
}

pub length-span : (p : ℕ → Bool) (s : Bytes) → length (span p s).0 + length (span p s).1 ≡ length s
unfolding span
length-span p [] = refl
length-span p (c ∷ cs) = ground (arith, length-span p cs)

skip_boundary-shorter : (flag : Bool) (s : Bytes) → length (skip_boundary flag s).1 ≤ length s
unfolding skip_boundary
skip_boundary-shorter flag [] = omega arith
skip_boundary-shorter flag (c ∷ cs) =
    ground (arith, skip_boundary-shorter (flag || nat_eq c separator) cs)

-- A quoted value ends with its quote, which is read too.
scan_quoted-shorter :
    (quote : ℕ) (nested : Bool) (s : Bytes) {v rest : Bytes}
    → scan_quoted quote nested s ≡ some (v, rest)
    → length rest < length s
unfolding scan_quoted
scan_quoted-shorter quote nested [] h = cc
scan_quoted-shorter quote nested (c ∷ cs) h =
    elim (Option-cases (scan_quoted quote (toggled quote nested c) cs)) [
      | inl e ↦ ground (arith, e)
      | inr ((v', rest'), e) ↦
          ground (arith, e, scan_quoted-shorter quote (toggled quote nested c) cs e)
    ]

-- The rest behind a value is no longer than what stood there, and no fuel is at stake.
abbrev Shorter : ℕ → Result FieldError (Bytes × Bool × Bytes) → Type 0
Shorter n (ok (v, q, rest)) = length rest ≤ n
Shorter n (err e) = e ≢ out_of_fuel

after_quoted-Shorter :
    (n : ℕ) (key : Bytes) (o : Option (Bytes × Bytes))
    → ((v rest : Bytes) → o ≡ some (v, rest) → length rest ≤ n)
    → Shorter n (after_quoted key o)
unfolding after_quoted
after_quoted-Shorter n key none h = λ e. cc
after_quoted-Shorter n key (some (v, rest)) h = elim (Bool-cases (at_boundary rest)) [
  | inl closed ↦ rw closed (h v rest refl)
  | inr more ↦ rw more (λ e. cc)
]

parse_quoted-Shorter :
    (key : Bytes) (quote : ℕ) (s : Bytes) → Shorter (length s) (parse_quoted key quote s)
unfolding parse_quoted
parse_quoted-Shorter key quote s =
    after_quoted-Shorter (length s) key (scan_quoted quote false s)
      (λ v rest e. omega (arith, scan_quoted-shorter quote false s e))

parse_value-Shorter : (key s : Bytes) → Shorter (length s) (parse_value key s)
unfolding parse_value parse_plain
parse_value-Shorter key [] = unfold span in omega arith
parse_value-Shorter key (c ∷ cs) = elim (Bool-cases (is_quote c)) [
  | inl quoted ↦
      rw quoted (longer (length cs) (parse_quoted key c cs) (parse_quoted-Shorter key c cs))
  | inr plain ↦ rw plain (omega (arith, length-span is_value_byte (c ∷ cs)))
]
  where
    longer :
        (n : ℕ) (x : Result FieldError (Bytes × Bool × Bytes)) → Shorter n x → Shorter (suc n) x
    longer n (ok (v, q, rest)) h = omega arith
    longer n (err e) h = h

-- A field takes at least its equals sign.
abbrev Advances : ℕ → Result FieldError (Field × Bytes) → Type 0
Advances n (ok (f, rest)) = length rest < n
Advances n (err e) = e ≢ out_of_fuel

field_of-Advances :
    (n : ℕ) (flag : Bool) (key : Bytes) (x : Result FieldError (Bytes × Bool × Bytes))
    → Shorter n x
    → Advances (suc n) (x >>= λ v. ok (field_of flag key v))
field_of-Advances n flag key (ok (v, q, rest)) h = omega arith
field_of-Advances n flag key (err e) h = h

parse_after_key-Advances :
    (start : ℕ) (flag : Bool) (key rest : Bytes)
    → Advances (length key + length rest) (parse_after_key start flag key rest)
unfolding parse_after_key
parse_after_key-Advances start flag [] rest = λ e. cc
parse_after_key-Advances start flag (k ∷ ks) [] = λ e. cc
parse_after_key-Advances start flag (k ∷ ks) (c ∷ cs) = elim (Bool-cases (nat_eq c b'=')) [
  | inl equals ↦ rw equals (
      more (suc (length cs)) _ (parse_value (k ∷ ks) cs >>= λ v. ok (field_of flag (k ∷ ks) v))
        (omega arith)
        (field_of-Advances (length cs) flag (k ∷ ks) (parse_value (k ∷ ks) cs)
          (parse_value-Shorter (k ∷ ks) cs)))
  | inr other ↦ rw other (λ e. cc)
]
  where
    more : (m n : ℕ) (x : Result FieldError (Field × Bytes)) → m ≤ n → Advances m x → Advances n x
    more m n (ok (f, rest)) le h = omega arith
    more m n (err e) le h = h

parse_field-Advances :
    (size : ℕ) (flag : Bool) (s : Bytes) → Advances (length s) (parse_field size flag s)
unfolding parse_field
parse_field-Advances size flag s =
    subst
      (λ n.
        Advances n
          (parse_after_key (size - length s) flag (span is_key_byte s).0 (span is_key_byte s).1))
      (length-span is_key_byte s)
      (parse_after_key-Advances (size - length s) flag (span is_key_byte s).0
        (span is_key_byte s).1)

-- A round ends the loop, or leaves less to read.
abbrev Goes : ℕ → Round → Type 0
Goes n finished = Unit {0}
Goes n (failed e) = e ≢ out_of_fuel
Goes n (found flag f rest) = length rest < n

round_of-Goes :
    (n : ℕ) (flag : Bool) (x : Result FieldError (Field × Bytes))
    → Advances n x
    → Goes n (round_of flag x)
round_of-Goes n flag (ok (f, rest)) h = h
round_of-Goes n flag (err e) h = h

round_at-Goes : (size n : ℕ) (x : Bool × Bytes) → length x.1 ≤ n → Goes n (round_at size x)
unfolding round_at
round_at-Goes size n (flag, []) h = tt
round_at-Goes size n (flag, c ∷ cs) h = wider (round_of flag (parse_field size flag (c ∷ cs))) (
    round_of-Goes (length (c ∷ cs)) flag (parse_field size flag (c ∷ cs))
      (parse_field-Advances size flag (c ∷ cs)))
  where
    wider : (x : Round) → Goes (length (c ∷ cs)) x → Goes n x
    wider finished g = tt
    wider (failed e) g = g
    wider (found flag f rest) g = omega arith

next_field-Goes : (size : ℕ) (flag : Bool) (s : Bytes) → Goes (length s) (next_field size flag s)
unfolding next_field
next_field-Goes size flag s =
    round_at-Goes size (length s) (skip_boundary flag s) (skip_boundary-shorter flag s)

go_on-ends :
    (n : ℕ) (rounds : Bool → Field → Bytes → Result FieldError Parsed) (p : Parsed) (x : Round)
    → Goes n x
    → ((flag : Bool) (f : Field) (rest : Bytes)
        → length rest < n
        → rounds flag f rest ≢ err out_of_fuel)
    → go_on rounds p x ≢ err out_of_fuel
unfolding go_on
go_on-ends n rounds p finished g h = λ e. cc
go_on-ends n rounds p (failed e) g h = λ q. g (ground arith)
go_on-ends n rounds p (found flag f rest) g h = h flag f rest g

parse_loop-ends :
    (fuel size : ℕ) (flag : Bool) (s : Bytes) (p : Parsed)
    → length s < fuel
    → parse_loop fuel size flag s p ≢ err out_of_fuel
unfolding parse_loop
parse_loop-ends zero size flag s p h = elim h [ ]
parse_loop-ends (suc fuel) size flag s p h =
    go_on-ends (length s) _ p (next_field size flag s) (next_field-Goes size flag s)
      (λ flag' f rest lt. parse_loop-ends fuel size flag' rest (add_field f p) (omega arith))

-- On every line `parseFields` comes to a result of its own: the fields, or an error that it reports.
pub parse_fields-ends : (line : Bytes) → parse_fields line ≢ err out_of_fuel
unfolding parse_fields
parse_fields-ends line =
    parse_loop-ends (suc (length line)) (length line) false line _ (omega arith)
