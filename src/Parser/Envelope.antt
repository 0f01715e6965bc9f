-- ===== src/Parser/Envelope.antt =====
-- `auditIDFromMessage`, `auditIDFromLinePrefix`, `parseEmbeddedMessages` and `ParseRecord`. What
-- `normalizeAuditPayload` does to a payload is a parameter here; Parser.Payload models it.
use aesirguard_audit.Base.{
  ℕ, suc, Bool, true, false, ◌&&◌, ◌||◌, not, List, [], ◌∷◌, ◌++◌, Option, none, some, ◌==◌, Bytes,
  bytes_equality, codes, nat_eq, if◌then◌else◌, length,
}
use aesirguard_audit.Record.{Record, Field, FieldError, zero_position}
use aesirguard_audit.Parser.Text.{after_prefix, before_suffix, cut_at, valid_utf8}
use aesirguard_audit.Parser.Fields.{
  Result, ok, err, ◌>>=◌, Parsed, parse_fields, add_first, append_values,
}
use aesirguard_audit.Parser.Values.{first_value}

-- The errors of `ParseRecord`.
pub data RecordError : Type 0 where
  bad_fields : FieldError → RecordError
  conflicting_ids conflicting_types invalid_node conflicting_nodes id_not_found : RecordError
  type_not_found : Bytes → RecordError
  invalid_envelope : RecordError

-- The index of `)` in the body must be its end, so the ID holds no closing parenthesis.
unfoldable pub no_parenthesis : Bytes → Bool
no_parenthesis [] = true
no_parenthesis (c ∷ cs) = not (nat_eq c b')') && no_parenthesis cs

abbrev pub checked_id : Option Bytes → Bytes
checked_id none = []
checked_id (some id) = if no_parenthesis id then id else []

abbrev pub id_of_body : Option Bytes → Bytes
id_of_body none = []
id_of_body (some body) = checked_id (before_suffix (codes "):") body)

unfoldable pub audit_id_from_message : Bytes → Bytes
unfolding no_parenthesis
audit_id_from_message msg = id_of_body (after_prefix (codes "audit(") msg)

-- `field.Key == "msg" && !field.Quoted && !field.Interpreted`
abbrev pub is_raw_message : Field → Bool
is_raw_message f = f.key == codes "msg" && not f.quoted && not f.interpreted

abbrev pub id_of_field : Field → Bytes
id_of_field f = if is_raw_message f then audit_id_from_message f.value else []

-- `r.ID` and `envelope` in the first loop of `ParseRecord`; the index counts the fields.
abbrev pub Envelope : Type 0
Envelope = Option (ℕ × Bytes)

unfoldable pub note_id : ℕ → Bytes → Envelope → Result RecordError Envelope
note_id i [] e = ok e
note_id i (c ∷ cs) none = ok (some (i, c ∷ cs))
note_id i (c ∷ cs) (some (j, id)) = if id == c ∷ cs then ok (some (j, id)) else err conflicting_ids

unfoldable pub find_envelope : ℕ → List Field → Envelope → Result RecordError Envelope
find_envelope i [] e = ok e
find_envelope i (f ∷ fs) e = note_id i (id_of_field f) e >>= find_envelope (suc i) fs

-- `r.Node` and `r.NodePresent` in the second loop.
abbrev pub Node : Type 0
Node = Option Bytes

abbrev pub is_node : Field → Bool
is_node f = f.key == codes "node" && not f.interpreted

unfoldable pub note_node : Bytes → Node → Result RecordError Node
note_node value seen =
    if nat_eq (length value) 0 || not (valid_utf8 value) then err invalid_node else elim seen [
      | none ↦ ok (some value)
      | some node ↦ if node == value then ok (some value) else err conflicting_nodes
    ]

unfoldable pub check_field : Bytes → Field → Node → Result RecordError Node
check_field record_type f seen =
    if f.key == codes "type" && not (f.value == record_type)
    then err conflicting_types
    else if is_node f
    then note_node f.value seen
    else ok seen

unfoldable pub check_fields : Bytes → List Field → Node → Result RecordError Node
check_fields record_type [] seen = ok seen
check_fields record_type (f ∷ fs) seen =
    check_field record_type f seen >>= check_fields record_type fs

-- The `msg` fields other than the envelope.
unfoldable pub messages_from : ℕ → ℕ → List Field → List Field
messages_from envelope i [] = []
messages_from envelope i (f ∷ fs) =
    let rest = messages_from envelope (suc i) fs in
    if f.key == codes "msg" && not (nat_eq i envelope) then f ∷ rest else rest

-- What `parseEmbeddedMessages` gathers.
pub record Embedded : Type 0 where
  pub all : List Field
  pub first : List (Bytes × Bytes)
  pub values : List (Bytes × List Bytes)
  pub failures : List Field
  pub first_error : Option FieldError

abbrev pub nothing_embedded : Embedded
nothing_embedded = record { all = []; first = []; values = []; failures = []; first_error = none }

unfoldable pub merge_first : List (Bytes × Bytes) → List (Bytes × Bytes) → List (Bytes × Bytes)
merge_first [] m = m
merge_first ((key, value) ∷ new) m = merge_first new (add_first key value m)

unfoldable pub merge_values :
    List (Bytes × List Bytes) → List (Bytes × List Bytes) → List (Bytes × List Bytes)
merge_values [] m = m
merge_values ((key, entries) ∷ new) m = merge_values new (append_values key entries m)

abbrev pub first_of_errors : Option FieldError → FieldError → Option FieldError
first_of_errors none e = some e
first_of_errors (some d) e = some d

unfoldable pub embed : Field → Result FieldError Parsed → Embedded → Embedded
embed f (err e) m = record m {
  failures = m.failures ++ f ∷ [];
  first_error = first_of_errors m.first_error e;
}
embed f (ok p) m = record m {
  all = m.all ++ p.all;
  first = merge_first p.first m.first;
  values = merge_values p.values m.values;
}

unfoldable pub parse_embedded : (Bytes → Bytes) → List Field → Embedded → Embedded
parse_embedded normalize_payload [] m = m
parse_embedded normalize_payload (f ∷ fs) m =
    parse_embedded normalize_payload fs (embed f (parse_fields (normalize_payload f.value)) m)

abbrev pub joined : Bytes → Option (Bytes × Bytes) → (Bytes → Bytes) → Bytes
joined line none normalize_payload = line
joined line (some (before, payload)) normalize_payload =
    before ++ (codes "): " ++ normalize_payload payload)

unfoldable pub normalize_known_record_syntax : (Bytes → Bytes) → Bytes → Bytes
normalize_known_record_syntax normalize_payload line =
    joined line (cut_at (codes "): ") line) normalize_payload

abbrev pub node_text : Node → Bytes
node_text none = []
node_text (some node) = node

abbrev pub node_there : Node → Bool
node_there none = false
node_there (some _) = true

abbrev pub build_record : Bytes → Parsed → Bytes → ℕ → Bytes → Node → Embedded → Record
build_record line p record_type envelope id seen m = record {
  raw = line;
  conflicts = [];
  node = node_text seen;
  node_present = node_there seen;
  record_type = record_type;
  id = id;
  fields = p.first;
  values = p.values;
  all_fields = p.all;
  embedded_all_fields = m.all;
  embedded_fields = m.first;
  embedded_values = m.values;
  embedded_parse_error = m.first_error;
  embedded_failures = m.failures;
  source_bytes = length line;
  source = zero_position;
}

unfoldable pub finish_record :
    (Bytes → Bytes) → Bytes → Parsed → Bytes → Node → Envelope → Result RecordError Record
finish_record normalize_payload line p record_type seen none = err id_not_found
finish_record normalize_payload line p record_type seen (some (envelope, id)) =
    if nat_eq (length record_type) 0
    then err (type_not_found id)
    else if not (valid_utf8 record_type) || not (valid_utf8 id)
    then err invalid_envelope
    else ok (
        build_record line p record_type envelope id seen
          (parse_embedded normalize_payload (messages_from envelope 0 p.all) nothing_embedded))

unfoldable pub record_of_fields : (Bytes → Bytes) → Bytes → Parsed → Result RecordError Record
record_of_fields normalize_payload line p =
    let record_type = first_value p.values (codes "type") in
    find_envelope 0 p.all none >>= λ envelope. check_fields record_type p.all none >>= λ node.
    finish_record normalize_payload line p record_type node envelope

abbrev pub lift_fields : Result FieldError Parsed → Result RecordError Parsed
lift_fields (ok p) = ok p
lift_fields (err e) = err (bad_fields e)

unfoldable pub parse_record : (Bytes → Bytes) → Bytes → Result RecordError Record
parse_record normalize_payload line =
    lift_fields (parse_fields (normalize_known_record_syntax normalize_payload line))
    >>= record_of_fields normalize_payload line

-- The first ID in the fields of a malformed line's prefix up to `):`.
unfoldable pub first_id : List Field → Bytes
first_id [] = []
first_id (f ∷ fs) = elim (id_of_field f) [ [] ↦ first_id fs | c ∷ cs ↦ c ∷ cs ]

abbrev pub id_of_prefix : Result FieldError Parsed → Bytes
id_of_prefix (err e) = []
id_of_prefix (ok p) = first_id p.all

unfoldable pub audit_id_from_line_prefix : Bytes → Bytes
audit_id_from_line_prefix line = elim (cut_at (codes "):") line) [
  | none ↦ []
  | some (before, _) ↦ id_of_prefix (parse_fields (before ++ codes "):"))
]
