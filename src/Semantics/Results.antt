-- ===== src/Semantics/Results.antt =====
-- internal/audit/results.go: whether the action of an event succeeded.
use aesirguard_audit.Base.{
  ℕ, ◌+◌, Bool, true, false, ◌&&◌, ◌||◌, not, List, [], ◌∷◌, ◌++◌, Option, none, some, ◌==◌, Bytes,
  bytes_equality, codes, leb, ltb, nat_eq, drop, keep, length, if◌then◌else◌,
}
use aesirguard_audit.Parser.Text.{has_prefix}
use aesirguard_audit.Record.{Record, Field}
use aesirguard_audit.Assembler.Types.{contains_string}
use aesirguard_audit.Semantics.Decoding.{CanonicalIssue, source_field_issue}

abbrev lower_byte : ℕ → ℕ
lower_byte c = if leb b'A' c && leb c b'Z' then c + 32 else c

-- One byte in front of what is lowered already.
unfoldable pub lower_onto : ℕ → Bytes → Bytes
lower_onto c rest =
    if nat_eq c 0xc4 && has_prefix rest (0xb0 ∷ [])
    then b'i' ∷ drop 1 rest
    else if nat_eq c 0xe2 && has_prefix rest (0x84 ∷ 0xaa ∷ [])
    then b'k' ∷ drop 2 rest
    else lower_byte c ∷ rest

-- `strings.ToLower` as far as its result can be ASCII: the ASCII letters, and the two other letters
-- that lower to one (U+0130 and U+212A).
unfoldable pub to_lower : Bytes → Bytes
to_lower [] = []
to_lower (c ∷ cs) = lower_onto c (to_lower cs)

-- `decodeResult`; `none` is a second result of false.
unfoldable pub decode_result : Bytes → Bytes → Option Bool
decode_result record_type raw =
    let word = to_lower raw in
    if word == codes "yes" || word == codes "success" || word == codes "succeeded"
    then some true
    else if word == codes "no" || word == codes "failed" || word == codes "failure"
    then some false
    else if record_type == codes "LOGIN"
        || record_type == codes "CONFIG_CHANGE"
        || record_type == codes "FEATURE_CHANGE"
        || record_type == codes "MAC_STATUS"
        || record_type == codes "MAC_POLICY_LOAD"
    then if raw == codes "1" then some true else if raw == codes "0" then some false else none
    else none

abbrev pub is_result : Field → Bool
is_result f = f.key == codes "success" || f.key == codes "res"

-- The loop variables `found`, `known`, `result` and `evidence`.
pub record Judgement : Type 0 where
  pub found : Bool
  pub known : Bool
  pub result : Bool
  pub evidence : List CanonicalIssue

-- `!ok || (found && result != value)` turns `known` off.
unfoldable pub judge_value : Option Bool → CanonicalIssue → Judgement → Judgement
judge_value none issue j = record {
  found = true;
  known = false;
  result = false;
  evidence = j.evidence ++ issue ∷ [];
}
judge_value (some value) issue j = record {
  found = true;
  known = j.known && not (j.found && not (same j.result value));
  result = value;
  evidence = j.evidence ++ issue ∷ [];
}
  where
    same : Bool → Bool → Bool
    same true b = b
    same false b = not b

unfoldable pub judge_field : Bytes → Record → ℕ → Bool → Judgement → Field → Judgement
judge_field kind r index embedded j f =
    if not (is_result f)
    then j
    else judge_value (decode_result kind f.value)
        (source_field_issue (codes "unknown_result") r index f embedded) j

unfoldable pub judge_fields : Bytes → Record → ℕ → Bool → List Field → Judgement → Judgement
judge_fields kind r index embedded [] j = j
judge_fields kind r index embedded (f ∷ fs) j =
    judge_fields kind r index embedded fs (judge_field kind r index embedded j f)

-- The raw fields, then the embedded ones, of the records of a type.
unfoldable pub judge_records : Bytes → ℕ → List Record → Judgement → Judgement
judge_records kind index [] j = j
judge_records kind index (r ∷ rs) j = judge_records kind (index + 1) rs (
    if not (r.record_type == kind)
    then j
    else judge_fields kind r index true r.embedded_all_fields
        (judge_fields kind r index false r.all_fields j))

abbrev pub no_judgement : Judgement
no_judgement = record { found = false; known = true; result = false; evidence = [] }

abbrev conflicting : List CanonicalIssue → List CanonicalIssue
conflicting [] = []
conflicting (e ∷ es) = record e { code = codes "conflicting_result" } ∷ conflicting es

-- The result, if it is known, and the evidence against it.
unfoldable pub conclude : Judgement → Option Bool × List CanonicalIssue
conclude j =
    if j.known
    then (some j.result, [])
    else (none, if ltb 1 (length j.evidence) then conflicting j.evidence else j.evidence)

unfoldable pub try_types : List Record → List Bytes → Option Bool × List CanonicalIssue
try_types rs [] = (none, [])
try_types rs (kind ∷ kinds) =
    let rest = try_types rs kinds in
    let j = judge_records kind 0 rs no_judgement in if j.found then conclude j else rest

-- `a <= b` for Go strings.
unfoldable pub bytes_leb : Bytes → Bytes → Bool
bytes_leb [] b = true
bytes_leb (x ∷ a) [] = false
bytes_leb (x ∷ a) (y ∷ b) = ltb x y || (leb x y && bytes_leb a b)

-- `sort.Strings`.
unfoldable pub insert_string : Bytes → List Bytes → List Bytes
insert_string s [] = s ∷ []
insert_string s (t ∷ ts) = if bytes_leb s t then s ∷ t ∷ ts else t ∷ insert_string s ts

unfoldable pub sort_strings : List Bytes → List Bytes
sort_strings [] = []
sort_strings (s ∷ ss) = insert_string s (sort_strings ss)

-- The types that were not seen before.
unfoldable pub other_types : List Bytes → List Record → List Bytes
other_types seen [] = []
other_types seen (r ∷ rs) =
    if contains_string seen r.record_type
    then other_types seen rs
    else r.record_type ∷ other_types (r.record_type ∷ seen) rs

unfoldable pub result_types : Bytes → List Record → List Bytes
result_types primary rs =
    if primary == codes "LOGIN"
    then primary ∷ []
    else (primary ∷ (if primary == codes "SYSCALL" then [] else codes "SYSCALL" ∷ []))
      ++ sort_strings (other_types (primary ∷ codes "SYSCALL" ∷ []) rs)

-- `canonicalSuccess`.
unfoldable pub canonical_success : List Record → Bytes → Option Bool × List CanonicalIssue
canonical_success rs primary = try_types rs (result_types primary rs)

abbrev context_types : List Bytes
context_types =
    codes "CWD" ∷ codes "EXECVE" ∷ codes "PATH" ∷ codes "PROCTITLE" ∷ codes "SOCKADDR" ∷ []

abbrev least_of : List Bytes → List Bytes → Bytes
least_of [] [] = []
least_of [] (t ∷ _) = t
least_of (t ∷ _) _ = t

-- `primaryRecordType` of parser.go.
unfoldable pub primary_record_type : List Record → Bytes
primary_record_type rs =
    let seen = other_types ([] ∷ codes "EOE" ∷ []) rs in
    if contains_string seen (codes "SYSCALL")
    then codes "SYSCALL"
    else least_of (sort_strings (keep (λ t. not (contains_string context_types t)) seen))
        (sort_strings seen)
