-- ===== src/Parser/RoundTrip.antt =====
-- Printing fields and parsing them again: nothing of keys, values, quoting or order is lost.
use aesirguard_audit.Base.{
  ℕ, zero, suc, ◌≤◌, ◌<◌, Bool, true, false, ◌&&◌, not, List, [], ◌∷◌, ◌++◌, ◌≡◌, ◌≢◌, refl, sym,
  ap, ◌∙◌, arith, Bytes, if◌then◌else◌, length, length-append, All,
}
use mathlib.Core.List.{append-nil, append_assoc}
use aesirguard_audit.Record.{Field, FieldError}
use aesirguard_audit.Parser.Fields.{
  Result, ok, separator, field_boundary, at_boundary, is_key_byte, parse_field, finished, found,
  round_of, round_at, next_field, skip_boundary, Parsed, nothing_parsed, add_field, go_on,
  parse_loop, parse_fields,
}
use aesirguard_audit.Parser.Printing.{
  print_field, print_fields, IsPrintable, IsMonotone, parse_field-print,
}

-- A text that begins with a byte of a field.
abbrev Starts : Bytes → Type 0
Starts [] = ⊥
Starts (c ∷ cs) = field_boundary c ≡ false

-- The boundary before a field is skipped, and sets the flag where the interpreted fields begin.
skip_boundary-print :
    (flag interpreted : Bool) (s : Bytes)
    → (flag ≡ true → interpreted ≡ true)
    → Starts s
    → skip_boundary flag ((if interpreted && not flag then separator else b' ') ∷ s)
      ≡ (interpreted, s)
unfolding skip_boundary field_boundary
skip_boundary-print flag interpreted [] m h = absurd h
skip_boundary-print true true (c ∷ rest) m h = rw h
skip_boundary-print true false (c ∷ rest) m h = ground (arith, m refl)
skip_boundary-print false true (c ∷ rest) m h = rw h
skip_boundary-print false false (c ∷ rest) m h = rw h

round_at-found :
    (size : ℕ) (flag : Bool) (s : Bytes) (f : Field) (rest : Bytes)
    → Starts s
    → parse_field size flag s ≡ ok (f, rest)
    → round_at size (flag, s) ≡ found flag f rest
unfolding round_at
round_at-found size flag [] f rest st e = absurd st
round_at-found size flag (c ∷ cs) f rest st e = ap (round_of flag) e

print-Starts :
    (key t rest : Bytes)
    → key ≢ []
    → All (λ c. is_key_byte c ≡ true) key
    → Starts ((key ++ t) ++ rest)
print-Starts [] t rest ne a = absurd (ne refl)
print-Starts (k ∷ ks) t rest ne a = ground (arith, a.0)

print_fields-at_boundary :
    (flag : Bool) (fs : List Field) → at_boundary (print_fields flag fs) ≡ true
unfolding field_boundary
print_fields-at_boundary flag [] = refl
print_fields-at_boundary flag (f ∷ fs) = ground arith

next_field-print :
    (size : ℕ) (flag : Bool) (f : Field) (fs : List Field)
    → IsPrintable f
    → (flag ≡ true → f.interpreted ≡ true)
    → next_field size flag (print_fields flag (f ∷ fs))
      ≡ found f.interpreted f (print_fields f.interpreted fs)
unfolding next_field
next_field-print size flag f fs p m =
    let s = print_field f ++ print_fields f.interpreted fs in
    let starts = print-Starts f.key _ (print_fields f.interpreted fs) p.key_some p.key_bytes in
    ap (round_at size) (skip_boundary-print flag f.interpreted s m starts)
    ∙ round_at-found size f.interpreted s f (print_fields f.interpreted fs) starts (
        parse_field-print size f (print_fields f.interpreted fs) p
          (print_fields-at_boundary f.interpreted fs))

add_fields : List Field → Parsed → Parsed
add_fields [] p = p
add_fields (f ∷ fs) p = add_fields fs (add_field f p)

all-add_fields : (fs : List Field) (p : Parsed) → (add_fields fs p).all ≡ p.all ++ fs
unfolding add_fields add_field
all-add_fields [] p = sym (append-nil p.all)
all-add_fields (f ∷ fs) p = all-add_fields fs (add_field f p) ∙ append_assoc p.all (f ∷ []) fs

next_field-end : (size : ℕ) (flag : Bool) → next_field size flag [] ≡ finished
unfolding next_field skip_boundary round_at
next_field-end size flag = refl

go_on-found :
    (rounds : Bool → Field → Bytes → Result FieldError Parsed) (p : Parsed) (flag : Bool)
    (f : Field) (rest : Bytes)
    → go_on rounds p (found flag f rest) ≡ rounds flag f rest
unfolding go_on
go_on-found rounds p flag f rest = refl

parse_loop-print :
    (fuel size : ℕ) (flag : Bool) (fs : List Field) (p : Parsed)
    → length fs < fuel
    → All IsPrintable fs
    → IsMonotone flag fs
    → parse_loop fuel size flag (print_fields flag fs) p ≡ ok (add_fields fs p)
unfolding parse_loop add_fields
parse_loop-print zero size flag fs p h a m = elim h [ ]
parse_loop-print (suc fuel) size flag [] p h a m =
    rw (next_field-end size flag) (unfold go_on in refl)
parse_loop-print (suc fuel) size flag (f ∷ fs) p h a m =
    let rounds = λ (flag' : Bool) (g : Field) (rest : Bytes).
      parse_loop fuel size flag' rest (add_field g p) in
    ap (go_on rounds p) (next_field-print size flag f fs a.0 m.0)
    ∙ go_on-found rounds p f.interpreted f (print_fields f.interpreted fs)
    ∙ parse_loop-print fuel size f.interpreted fs (add_field f p) (omega arith) a.1 m.1

length-le-print : (flag : Bool) (fs : List Field) → length fs ≤ length (print_fields flag fs)
length-le-print flag [] = omega arith
length-le-print flag (f ∷ fs) = omega (
  arith,
  length-append (print_field f) (print_fields f.interpreted fs),
  length-le-print f.interpreted fs,
)

-- Printing any list of allowed fields, interpreted ones last, and parsing the line gives the list
-- back: keys, values, quoting and the interpreted mark, repeated keys and the order included.
pub parse_fields-print_fields :
    (fs : List Field)
    → All IsPrintable fs
    → IsMonotone false fs
    → (p : Parsed) × (parse_fields (print_fields false fs) ≡ ok p) × (p.all ≡ fs)
unfolding parse_fields
parse_fields-print_fields fs a m = (
  add_fields fs nothing_parsed,
  parse_loop-print _ _ false fs nothing_parsed (omega (arith, length-le-print false fs)) a m,
  all-add_fields fs nothing_parsed,
)
