-- ===== src/Record.antt =====
-- internal/audit/parser.go: the data of one audit record, and where its line stands in the source.
use aesirguard_audit.Base.{
  ℕ, Bool, not, List, Option, Bytes, bytes_equality, codes, ltb, nat_eq, if◌then◌else◌,
}

-- `Field`: one parsed key and value.
pub record Field : Type 0 where
  pub key : Bytes
  pub value : Bytes
  pub quoted : Bool
  pub interpreted : Bool

-- What `parseFields` reports, with the byte offsets and texts that its messages name.
pub data FieldError : Type 0 where
  empty_field_name : ℕ → FieldError
  malformed_field : Bytes → ℕ → FieldError
  unterminated_value : Bytes → FieldError
  missing_boundary : Bytes → FieldError
  out_of_fuel : FieldError

-- `SourcePosition`: one complete physical line of a source generation.
pub record SourcePosition : Type 0 where
  pub anchor : Bytes
  pub device : ℕ
  pub inode : ℕ
  pub generation : ℕ
  pub start : ℕ
  pub end : ℕ
  pub bytes : ℕ
  pub valid : Bool

abbrev pub zero_position : SourcePosition
zero_position = record {
  anchor = codes "";
  device = 0;
  inode = 0;
  generation = 0;
  start = 0;
  end = 0;
  bytes = 0;
  valid = Bool.false;
}

-- `Record`. A nil map is an empty one; `conflicts` lists the keys that the Go map sends to true.
-- `embedded_parse_error` is the error itself, and `none` for the empty text.
pub record Record : Type 0 where
  pub raw : Bytes
  pub conflicts : List Bytes
  pub node : Bytes
  pub node_present : Bool
  pub record_type : Bytes
  pub id : Bytes
  pub fields : List (Bytes × Bytes)
  pub values : List (Bytes × List Bytes)
  pub all_fields : List Field
  pub embedded_all_fields : List Field
  pub embedded_fields : List (Bytes × Bytes)
  pub embedded_values : List (Bytes × List Bytes)
  pub embedded_parse_error : Option FieldError
  pub embedded_failures : List Field
  pub source_bytes : ℕ
  pub source : SourcePosition

-- `sourcePositionBefore` of assembler.go.
unfoldable pub source_position_before : SourcePosition → SourcePosition → Bool
source_position_before left right =
    if not (nat_eq left.generation right.generation)
    then ltb left.generation right.generation
    else ltb left.start right.start
