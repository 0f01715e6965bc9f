-- ===== src/Parser/Printing.antt =====
-- One printed field, parsed again by `parseFields` of parser.go.
use aesirguard_audit.Base.{
  ℕ, ◌-◌, Bool, true, false, ◌&&◌, not, List, [], ◌∷◌, ◌++◌, some, ◌≡◌, ◌≢◌, refl, ap, ◌∙◌, arith,
  Bytes, nat_eq, if◌then◌else◌, length, All,
}
use mathlib.Core.List.{append_assoc}
use aesirguard_audit.Record.{Field}
use aesirguard_audit.Parser.Text.{span}
use aesirguard_audit.Parser.Fields.{
  ok, separator, field_boundary, at_boundary, after_quoted, parse_quoted, parse_plain, parse_value,
  is_quote, is_key_byte, is_value_byte, scan_quoted, parse_after_key, parse_field, field_of,
}

-- The value as auditd writes it: bare, or in double quotes.
abbrev pub print_value : Bool → Bytes → Bytes
print_value true value = b'"' ∷ (value ++ b'"' ∷ [])
print_value false value = value

abbrev pub print_field : Field → Bytes
print_field f = f.key ++ (b'=' ∷ print_value f.quoted f.value)

-- Each field behind a boundary: the separator where the interpreted fields begin, else a space.
abbrev pub print_fields : Bool → List Field → Bytes
print_fields flag [] = []
print_fields flag (f ∷ fs) =
    (if f.interpreted && not flag then separator else b' ')
    ∷ (print_field f ++ print_fields f.interpreted fs)

abbrev pub NoQuoteFirst : Bytes → Type 0
NoQuoteFirst [] = Unit
NoQuoteFirst (c ∷ cs) = is_quote c ≡ false

-- A field whose print is read back: the bytes of its key and value are allowed where they stand.
pub record IsPrintable (f : Field) : Type 0 where
  pub key_some : f.key ≢ []
  pub key_bytes : All (λ c. is_key_byte c ≡ true) f.key
  pub plain_bytes :
      f.quoted ≡ false → All (λ c. is_value_byte c ≡ true) f.value × NoQuoteFirst f.value
  pub quoted_bytes : f.quoted ≡ true → All (λ c. nat_eq c b'"' ≡ false) f.value

-- Interpreted fields come behind the others.
abbrev pub IsMonotone : Bool → List Field → Type 0
IsMonotone flag [] = Unit
IsMonotone flag (f ∷ fs) = (flag ≡ true → f.interpreted ≡ true) × IsMonotone f.interpreted fs

-- A text behind which a span ends.
abbrev pub Stops : (ℕ → Bool) → Bytes → Type 0
Stops p [] = Unit
Stops p (c ∷ cs) = p c ≡ false

pub span-append :
    (p : ℕ → Bool) (s rest : Bytes)
    → All (λ c. p c ≡ true) s
    → Stops p rest
    → span p (s ++ rest) ≡ (s, rest)
unfolding span
span-append p [] [] a h = refl
span-append p [] (c ∷ cs) a h = ground arith
span-append p (c ∷ cs) rest a h = ground (arith, span-append p cs rest a.1 h)

-- In double quotes nothing is nested, and the first quote closes.
pub scan_quoted-append :
    (v rest : Bytes)
    → All (λ c. nat_eq c b'"' ≡ false) v
    → scan_quoted b'"' false (v ++ b'"' ∷ rest) ≡ some (v, rest)
unfolding scan_quoted
scan_quoted-append [] rest a = refl
scan_quoted-append (c ∷ cs) rest a = ground (arith, scan_quoted-append cs rest a.1)

pub at_boundary-Stops : (rest : Bytes) → at_boundary rest ≡ true → Stops is_value_byte rest
at_boundary-Stops [] h = tt
at_boundary-Stops (c ∷ cs) h = rw h

pub parse_value-quoted :
    (key v rest : Bytes)
    → All (λ c. nat_eq c b'"' ≡ false) v
    → at_boundary rest ≡ true
    → parse_value key (b'"' ∷ (v ++ b'"' ∷ rest)) ≡ ok (v, true, rest)
unfolding parse_value parse_quoted
parse_value-quoted key v rest a h = rw (scan_quoted-append v rest a) (unfold after_quoted in rw h)

pub parse_plain-append :
    (v rest : Bytes)
    → All (λ c. is_value_byte c ≡ true) v
    → at_boundary rest ≡ true
    → parse_plain (v ++ rest) ≡ (v, false, rest)
unfolding parse_plain
parse_plain-append v rest a h = rw (span-append is_value_byte v rest a (at_boundary-Stops rest h))

pub parse_value-unquoted : (key s : Bytes) → NoQuoteFirst s → parse_value key s ≡ ok (parse_plain s)
unfolding parse_value
parse_value-unquoted key [] q = refl
parse_value-unquoted key (c ∷ cs) q = rw q

pub at_boundary-no_quote : (rest : Bytes) → at_boundary rest ≡ true → NoQuoteFirst rest
unfolding field_boundary
at_boundary-no_quote [] h = tt
at_boundary-no_quote (c ∷ cs) h = ground arith

pub append-no_quote :
    (v rest : Bytes) → NoQuoteFirst v → NoQuoteFirst rest → NoQuoteFirst (v ++ rest)
append-no_quote [] rest h k = k
append-no_quote (c ∷ cs) rest h k = h

pub parse_value-plain :
    (key v rest : Bytes)
    → All (λ c. is_value_byte c ≡ true) v
    → NoQuoteFirst v
    → at_boundary rest ≡ true
    → parse_value key (v ++ rest) ≡ ok (v, false, rest)
parse_value-plain key v rest a q h =
    parse_value-unquoted key (v ++ rest) (append-no_quote v rest q (at_boundary-no_quote rest h))
    ∙ ap ok (parse_plain-append v rest a h)

pub parse_value-print :
    (key v rest : Bytes) (quoted : Bool)
    → (quoted ≡ false → All (λ c. is_value_byte c ≡ true) v × NoQuoteFirst v)
    → (quoted ≡ true → All (λ c. nat_eq c b'"' ≡ false) v)
    → at_boundary rest ≡ true
    → parse_value key (print_value quoted v ++ rest) ≡ ok (v, quoted, rest)
parse_value-print key v rest true p q h =
    ap (λ t. parse_value key (b'"' ∷ t)) (append_assoc v (b'"' ∷ []) rest)
    ∙ parse_value-quoted key v rest (q refl) h
parse_value-print key v rest false p q h = parse_value-plain key v rest (p refl).0 (p refl).1 h

pub parse_after_key-print :
    (start : ℕ) (flag : Bool) (key v rest : Bytes) (quoted : Bool)
    → key ≢ []
    → parse_value key (print_value quoted v ++ rest) ≡ ok (v, quoted, rest)
    → parse_after_key start flag key (b'=' ∷ (print_value quoted v ++ rest))
      ≡ ok (field_of flag key (v, quoted, rest))
unfolding parse_after_key
parse_after_key-print start flag [] v rest quoted ne h = absurd (ne refl)
parse_after_key-print start flag (k ∷ ks) v rest quoted ne h = rw h

pub span-key :
    (key rest : Bytes)
    → All (λ c. is_key_byte c ≡ true) key
    → span is_key_byte (key ++ b'=' ∷ rest) ≡ (key, b'=' ∷ rest)
span-key key rest a = span-append is_key_byte key (b'=' ∷ rest) a refl

pub print_field-append :
    (f : Field) (rest : Bytes)
    → print_field f ++ rest ≡ f.key ++ (b'=' ∷ (print_value f.quoted f.value ++ rest))
print_field-append f rest = append_assoc f.key (b'=' ∷ print_value f.quoted f.value) rest

pub parse_field-print :
    (size : ℕ) (f : Field) (rest : Bytes)
    → IsPrintable f
    → at_boundary rest ≡ true
    → parse_field size f.interpreted (print_field f ++ rest) ≡ ok (f, rest)
unfolding parse_field
parse_field-print size f rest p h =
    let tail = print_value f.quoted f.value ++ rest in
    ap
      (λ s.
        parse_after_key (size - length s) f.interpreted (span is_key_byte s).0
          (span is_key_byte s).1)
      (print_field-append f rest)
    ∙ ap
        (λ (x : Bytes × Bytes).
          parse_after_key (size - length (f.key ++ b'=' ∷ tail)) f.interpreted x.0 x.1)
        (span-key f.key tail p.key_bytes)
    ∙ parse_after_key-print _ f.interpreted f.key f.value rest f.quoted p.key_some
        (parse_value-print f.key f.value rest f.quoted p.plain_bytes p.quoted_bytes h)
