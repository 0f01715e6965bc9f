-- ===== src/Semantics/Decoding.antt =====
-- internal/audit/decoding.go: the values of fields, decoded one record at a time.
use aesirguard_audit.Base.{
  ℕ, ◌+◌, Bool, true, false, ◌&&◌, ◌||◌, not, List, [], ◌∷◌, ◌++◌, Option, none, some, ◌==◌, Bytes,
  bytes_equality, codes, if◌then◌else◌,
}
use aesirguard_audit.Base.Hex.{decode_hex, encode_hex}
use aesirguard_audit.Record.{Record, Field}
use aesirguard_audit.Parser.Text.{has_prefix, valid_utf8}
use aesirguard_audit.Parser.Fields.{append_values, add_first}

-- `CanonicalIssue` of canonical.go; an absent index and an absent flag are nil pointers there.
pub record CanonicalIssue : Type 0 where
  pub code : Bytes
  pub record_type : Bytes
  pub record_index : Option ℕ
  pub field : Bytes
  pub value : Bytes
  pub value_encoding : Bytes
  pub quoted : Option Bool
  pub source : Bytes

abbrev section_name : Field → Bool → Bytes
section_name f embedded =
    if embedded
    then codes "embedded"
    else if f.interpreted
    then codes "interpreted"
    else codes "raw"

-- `sourceFieldIssue`.
unfoldable pub source_field_issue : Bytes → Record → ℕ → Field → Bool → CanonicalIssue
source_field_issue code r index f embedded = record {
  code = code;
  record_type = r.record_type;
  record_index = some index;
  field = f.key;
  value = encode_hex f.value;
  value_encoding = codes "hex";
  quoted = some f.quoted;
  source = section_name f embedded;
}

abbrev pub decoded_or : Bytes → Bool → Option Bytes → Bytes × Bool
decoded_or value strict (some bs) = (bs, true)
decoded_or value true none = ([], false)
decoded_or value false none = (value, true)

-- `untrustedString`.
unfoldable pub untrusted_string : Field → Bool → Bytes × Bool
untrusted_string f strict =
    if f.quoted || f.interpreted
    then (f.value, true)
    else decoded_or f.value strict (decode_hex f.value)

-- `encodedTextField`.
unfoldable pub encoded_text_field : Bytes → Bytes → Bool
encoded_text_field t key =
    if key == codes "comm" || key == codes "exe" || key == codes "key"
    then true
    else if key == codes "cwd"
    then t == codes "CWD" || t == codes "USER_CMD"
    else if key == codes "name"
    then t == codes "PATH"
      || t == codes "AVC"
      || t == codes "USER_AVC"
      || t == codes "SELINUX_ERR"
      || t == codes "USER_SELINUX_ERR"
      || has_prefix t (codes "APPARMOR_")
      || t == codes "KERN_MODULE"
    else if key == codes "acct"
    then has_prefix t (codes "USER_")
      || has_prefix t (codes "CRED_")
      || t == codes "ADD_USER"
      || t == codes "DEL_USER"
    else false

-- The unquoted raw key `(null)` denotes absence.
abbrev is_absent_key : Field → Bool
is_absent_key f =
    f.key == codes "key" && not f.quoted && not f.interpreted && f.value == codes "(null)"

-- The value of one field, before the check of its encoding.
unfoldable pub decoded_value : Bytes → Field → Bytes
decoded_value record_type f =
    if not (encoded_text_field record_type f.key)
    then f.value
    else if is_absent_key f
    then []
    else (untrusted_string f false).0

-- The maps that `decode` fills, and the issues it reports.
pub record Decoded : Type 0 where
  pub first : List (Bytes × Bytes)
  pub values : List (Bytes × List Bytes)
  pub issues : List CanonicalIssue

unfoldable pub decode_field : Record → ℕ → Bool → Decoded → Field → Decoded
decode_field r index embedded d f =
    let value = decoded_value r.record_type f in
    let text = if valid_utf8 value then value else [] in
    record {
      first = add_first f.key text d.first;
      values = append_values f.key (text ∷ []) d.values;
      issues =
          if valid_utf8 value
          then d.issues
          else d.issues ++ source_field_issue (codes "invalid_utf8") r index f embedded ∷ [];
    }

unfoldable pub decode_fields : Record → ℕ → Bool → Decoded → List Field → Decoded
decode_fields r index embedded d [] = d
decode_fields r index embedded d (f ∷ fs) =
    decode_fields r index embedded (decode_field r index embedded d f) fs

abbrev empty_decoded : List CanonicalIssue → Decoded
empty_decoded issues = record { first = []; values = []; issues = issues }

-- `r.Fields, r.Values = decode(r.AllFields, false)`, if there is a field.
unfoldable pub decode_raw :
    Record → ℕ → List CanonicalIssue → List Field → Record × List CanonicalIssue
decode_raw r index issues [] = (r, issues)
decode_raw r index issues (f ∷ fs) =
    let d = decode_fields r index false (empty_decoded issues) (f ∷ fs) in
    (record r { fields = d.first; values = d.values }, d.issues)

unfoldable pub decode_embedded :
    Record → ℕ → List CanonicalIssue → List Field → Record × List CanonicalIssue
decode_embedded r index issues [] = (r, issues)
decode_embedded r index issues (f ∷ fs) =
    let d = decode_fields r index true (empty_decoded issues) (f ∷ fs) in
    (record r { embedded_fields = d.first; embedded_values = d.values }, d.issues)

unfoldable pub decode_records :
    ℕ → List CanonicalIssue → List Record → List Record × List CanonicalIssue
decode_records index issues [] = ([], issues)
decode_records index issues (r ∷ rs) =
    let (raw, some_issues) = decode_raw r index issues r.all_fields in
    let (decoded, more_issues) = decode_embedded raw index some_issues r.embedded_all_fields in
    let (rest, all_issues) = decode_records (index + 1) more_issues rs in
    (decoded ∷ rest, all_issues)
