-- ===== src/Tests/Parsing.antt =====
-- The parser's theorems applied.
use aesirguard_audit.Base.{
  bytes_eq, Bytes, true, false, List, [], ◌∷◌, ◌≡◌, ◌≢◌, refl, arith, codes, All,
}
use aesirguard_audit.Base.Maps.{lookup, insert}
use aesirguard_audit.Parser.Text.{span}
use aesirguard_audit.Record.{Record, Field, out_of_fuel}
use aesirguard_audit.Parser.Fields.{
  ok, err, Parsed, parse_fields, parse_loop, round_at, next_field, go_on, skip_boundary,
  parse_field, parse_after_key, parse_value, parse_plain, parse_quoted, scan_quoted, after_quoted,
  add_field, add_first, append_values, field_boundary,
}
use aesirguard_audit.Parser.Text.{
  cut_at, after_prefix, before_suffix, valid_utf8, utf8_run, utf8_step, utf8_lead,
}
use aesirguard_audit.Parser.Values.{first_value, first_nonempty}
use aesirguard_audit.Parser.Envelope.{
  parse_record, record_of_fields, finish_record, find_envelope, note_id, check_fields, check_field,
  messages_from, parse_embedded, normalize_known_record_syntax, audit_id_from_message,
  no_parenthesis,
}
use aesirguard_audit.Parser.Agreement.{IsAgreed, parse_record-IsAgreed}
use aesirguard_audit.Tests.Samples.{sample}
use aesirguard_audit.Parser.Progress.{parse_fields-ends}
use aesirguard_audit.Parser.Consistency.{IsParse, parse_fields-IsParse}
use aesirguard_audit.Parser.Printing.{print_fields, IsPrintable, IsMonotone}
use aesirguard_audit.Parser.RoundTrip.{parse_fields-print_fields}

abbrev bare : Field
bare = record { key = codes "uid"; value = codes "0"; quoted = false; interpreted = false }

abbrev in_quotes : Field
in_quotes = record {
  key = codes "comm";
  value = codes "my cat";
  quoted = true;
  interpreted = false;
}

abbrev enriched : Field
enriched = record { key = codes "UID"; value = codes "root"; quoted = true; interpreted = true }

abbrev three_fields : List Field
three_fields = bare ∷ in_quotes ∷ enriched ∷ []

three_fields-IsPrintable : All IsPrintable three_fields
unfolding field_boundary
three_fields-IsPrintable = (
  record {
    key_some = ground arith;
    key_bytes = ground arith;
    plain_bytes = λ _. ground arith;
    quoted_bytes = λ h. ground (arith, h);
  },
  (
    record {
      key_some = ground arith;
      key_bytes = ground arith;
      plain_bytes = λ h. ground (arith, h);
      quoted_bytes = λ _. ground arith;
    },
    (
      record {
        key_some = ground arith;
        key_bytes = ground arith;
        plain_bytes = λ h. ground (arith, h);
        quoted_bytes = λ _. ground arith;
      },
      tt,
    ),
  ),
)

three_fields-IsMonotone : IsMonotone false three_fields
three_fields-IsMonotone = ground arith

parse_fields-print_fields_example :
    (p : Parsed) × (parse_fields (print_fields false three_fields) ≡ ok p) × (p.all ≡ three_fields)
parse_fields-print_fields_example =
    parse_fields-print_fields three_fields three_fields-IsPrintable three_fields-IsMonotone

parse_fields-ends_example : parse_fields (codes "uid=0 comm=a") ≢ err out_of_fuel
parse_fields-ends_example = parse_fields-ends (codes "uid=0 comm=a")

abbrev one_field : Parsed
one_field = record {
  all = bare ∷ [];
  first = (codes "uid", codes "0") ∷ [];
  values = (codes "uid", codes "0" ∷ []) ∷ [];
}

one_field_parsed : parse_fields (codes " uid=0") ≡ ok one_field
unfolding parse_fields parse_loop round_at next_field go_on skip_boundary parse_field
    parse_after_key parse_value parse_plain parse_quoted scan_quoted after_quoted add_field
    add_first append_values field_boundary lookup insert span
one_field_parsed = refl

parse_fields-IsParse_example : IsParse one_field
parse_fields-IsParse_example = parse_fields-IsParse (codes " uid=0") one_field one_field_parsed

abbrev path_line : Bytes
path_line = codes "type=PATH msg=audit(1:2):"

abbrev path_fields : List Field
path_fields =
    record { key = codes "type"; value = codes "PATH"; quoted = false; interpreted = false }
    ∷ record { key = codes "msg"; value = codes "audit(1:2):"; quoted = false; interpreted = false }
    ∷ []

abbrev path_record : Record
path_record = record (sample (codes "PATH") (codes "1:2")) {
  raw = path_line;
  fields = (codes "type", codes "PATH") ∷ (codes "msg", codes "audit(1:2):") ∷ [];
  values = (codes "type", codes "PATH" ∷ []) ∷ (codes "msg", codes "audit(1:2):" ∷ []) ∷ [];
  all_fields = path_fields;
  source_bytes = 25;
}

-- A payload normaliser that changes nothing.
abbrev as_it_is : Bytes → Bytes
as_it_is s = s

path_parsed : parse_record as_it_is path_line ≡ ok path_record
unfolding parse_record record_of_fields finish_record find_envelope note_id check_fields check_field
    messages_from parse_embedded normalize_known_record_syntax audit_id_from_message no_parenthesis
    first_value first_nonempty cut_at after_prefix before_suffix valid_utf8 utf8_run utf8_step
    utf8_lead bytes_eq parse_fields parse_loop round_at next_field go_on skip_boundary parse_field
    parse_after_key parse_value parse_plain add_field add_first append_values field_boundary lookup
    insert span
path_parsed = refl

parse_record-IsAgreed_example : IsAgreed path_line path_record
parse_record-IsAgreed_example = parse_record-IsAgreed as_it_is path_line path_record path_parsed
