-- ===== src/Parser/Values.antt =====
-- Reading the values of a record: `firstValue`, `recordValue`, `semanticRecordValue`, and the keys
-- of EXECVE arguments, `parseExecArgKey`.
use aesirguard_audit.Base.{
  ℕ, ◌+◌, ◌^◌, Bool, true, false, ◌&&◌, not, List, [], ◌∷◌, Option, none, some, ◌==◌, Bytes,
  bytes_equality, codes, nat_eq, if◌then◌else◌,
}
use aesirguard_audit.Base.Maps.{lookup}
use aesirguard_audit.Record.{Record}
use aesirguard_audit.Parser.Text.{span, before_suffix}
use aesirguard_audit.Parser.Fields.{or_empty}
use aesirguard_audit.Assembler.Types.{contains_string}
use aesirguard_audit.Assembler.Time.{is_digit, parse_decimal}

-- The first value that is not empty, or the empty text.
unfoldable pub first_nonempty : List Bytes → Bytes
first_nonempty [] = []
first_nonempty ([] ∷ vs) = first_nonempty vs
first_nonempty ((c ∷ cs) ∷ vs) = c ∷ cs

unfoldable pub first_value : List (Bytes × List Bytes) → Bytes → Bytes
first_value values key = first_nonempty (or_empty (lookup key values))

-- `record.Values != nil` holds for every parsed record, so its `Fields` are not consulted.
unfoldable pub record_value : Record → Bytes → Bytes
record_value r key = if contains_string r.conflicts key then [] else first_value r.values key

abbrev pub or_else : Bytes → Bytes → Bytes
or_else [] other = other
or_else (c ∷ cs) other = c ∷ cs

unfoldable pub semantic_record_value : Record → Bytes → Bytes
semantic_record_value r key =
    if contains_string r.conflicts key
    then []
    else or_else (record_value r key) (first_value r.embedded_values key)

-- `strconv.Atoi` on a 64-bit machine: an optional sign, then digits in the range of an int64.
pub data Sign : Type 0 where
  plus minus : Sign

pub record SignedNumber : Type 0 where
  pub sign : Sign
  pub magnitude : ℕ

abbrev pub signed : Sign → Option ℕ → Option SignedNumber
signed s none = none
signed s (some n) = some (record { sign = s; magnitude = n })

unfoldable pub atoi : Bytes → Option SignedNumber
atoi [] = none
atoi (c ∷ cs) =
    if nat_eq c b'-'
    then signed minus (parse_decimal (2 ^ 63 + 1) cs)
    else if nat_eq c b'+'
    then signed plus (parse_decimal (2 ^ 63) cs)
    else signed plus (parse_decimal (2 ^ 63) (c ∷ cs))

abbrev pub sign_negative : Sign → Bool
sign_negative plus = false
sign_negative minus = true

-- `n < 0`.
abbrev pub is_negative : SignedNumber → Bool
is_negative n = sign_negative n.sign && not (nat_eq n.magnitude 0)

-- What `parseExecArgKey` reads: argument `aN`, its length `aN_len`, its fragment `aN[M]`. The
-- number of a fragment is an int that may have a sign.
pub data ArgKind : Type 0 where
  exec_arg_whole exec_arg_length exec_arg_fragment : ArgKind

pub record ArgKey : Type 0 where
  pub arg_index : ℕ
  pub part_index : SignedNumber
  pub kind : ArgKind

abbrev pub zero_part : SignedNumber
zero_part = record { sign = plus; magnitude = 0 }

-- Behind the bracket: the fragment's number up to the closing bracket at the end of the key.
unfoldable pub parse_fragment : ℕ → Bytes → Option ArgKey
parse_fragment arg_index rest = elim (before_suffix (codes "]") rest) [
  | none ↦ none
  | some text ↦ elim (atoi text) [
    | none ↦ none
    | some n ↦ some (record { arg_index = arg_index; part_index = n; kind = exec_arg_fragment })
  ]
]

unfoldable pub parse_arg_suffix : ℕ → Bytes → Option ArgKey
parse_arg_suffix n [] =
    some (record { arg_index = n; part_index = zero_part; kind = exec_arg_whole })
parse_arg_suffix n (c ∷ cs) =
    if c ∷ cs == codes "_len"
    then some (record { arg_index = n; part_index = zero_part; kind = exec_arg_length })
    else if nat_eq c b'['
    then parse_fragment n cs
    else none

unfoldable pub parse_arg_number : Bytes × Bytes → Option ArgKey
parse_arg_number (digits, suffix) = elim (parse_decimal (2 ^ 63) digits) [
  | none ↦ none
  | some n ↦ parse_arg_suffix n suffix
]

unfoldable pub parse_exec_arg_key : Bytes → Option ArgKey
parse_exec_arg_key [] = none
parse_exec_arg_key (c ∷ cs) = if nat_eq c b'a' then parse_arg_number (span is_digit cs) else none
