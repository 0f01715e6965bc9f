-- ===== src/Tests/Meaning.antt =====
-- The meaning of fields: the theorems applied.
use aesirguard_audit.Base.{
  true, false, List, [], ◌∷◌, some, ◌≡◌, refl, codes, Bytes, bytes_equality, bytes_eq, ◌||◌, ◌↔◌,
}
use aesirguard_audit.Record.{Record, Field}
use aesirguard_audit.Parser.Text.{after_prefix}
use aesirguard_audit.Parser.Values.{ArgKey, plus, exec_arg_whole}
use aesirguard_audit.Assembler.Types.{contains_string}
use aesirguard_audit.Semantics.Decoding.{untrusted_string}
use aesirguard_audit.Semantics.Results.{
  canonical_success, result_types, other_types, sort_strings, insert_string, try_types, conclude,
  judge_records, judge_fields, judge_field, judge_value, decode_result, to_lower, lower_onto,
}
use aesirguard_audit.Semantics.Verdict.{Decides, canonical_success-Decides}
use aesirguard_audit.Semantics.Conflicts.{settle_record}
use aesirguard_audit.Semantics.Aliases.{
  disputed, carried_over, repeated_names, settle_record-disputed,
}
use aesirguard_audit.Semantics.Recognised.{Stands, untrusted_string-Stands}
use aesirguard_audit.Tests.Samples.{sample}

abbrev field : Bytes → Bytes → Field
field key value = record { key = key; value = value; quoted = false; interpreted = false }

abbrev quoted_field : Bytes → Bytes → Field
quoted_field key value = record { key = key; value = value; quoted = true; interpreted = false }

-- The kernel's spelling of `/bin` with capitals, and a letter behind it.
untrusted_string-Stands_example :
    (untrusted_string (field (codes "exe") (codes "2F62696E6a")) true ≡ (codes "/binj", true))
    ↔ Stands (field (codes "exe") (codes "2F62696E6a")) (codes "/binj")
untrusted_string-Stands_example =
    untrusted_string-Stands (field (codes "exe") (codes "2F62696E6a")) (codes "/binj")

abbrev answered : List Record
answered =
    record (sample (codes "SYSCALL") (codes "1:1")) {
      all_fields = field (codes "success") (codes "yes") ∷ [];
    }
    ∷ []

answered_result : (canonical_success answered (codes "SYSCALL")).0 ≡ some true
unfolding canonical_success result_types other_types sort_strings insert_string try_types conclude
    judge_records judge_fields judge_field judge_value decode_result to_lower lower_onto
    contains_string bytes_eq after_prefix
answered_result = refl

canonical_success-Decides_example : Decides answered true (result_types (codes "SYSCALL") answered)
canonical_success-Decides_example =
    canonical_success-Decides answered (codes "SYSCALL") true answered_result

abbrev contested : Record
contested = record (sample (codes "SYSCALL") (codes "1000.5:1")) { conflicts = codes "exe" ∷ [] }

settle_record-disputed_example :
    contains_string (settle_record (codes "auid" ∷ []) contested).conflicts (codes "AUID") ≡ (
      disputed (codes "auid" ∷ []) contested (codes "AUID")
      || carried_over (disputed (codes "auid" ∷ []) contested) (codes "AUID") repeated_names)
settle_record-disputed_example = settle_record-disputed (codes "auid" ∷ []) contested (codes "AUID")

abbrev command : List Record
command =
    record (sample (codes "EXECVE") (codes "1:1")) {
      all_fields =
          field (codes "argc") (codes "2")
          ∷ quoted_field (codes "a0") (codes "ls")
          ∷ field (codes "a1") (codes "2d6c")
          ∷ [];
    }
    ∷ []

abbrev two_arguments : List Bytes
two_arguments = codes "ls" ∷ codes "-l" ∷ []

abbrev argc_field : Field
argc_field = field (codes "argc") (codes "2")

abbrev first_argument : Field
first_argument = quoted_field (codes "a0") (codes "ls")

abbrev first_key : ArgKey
first_key = record {
  arg_index = 0;
  part_index = record { sign = plus; magnitude = 0 };
  kind = exec_arg_whole;
}
