-- ===== src/Semantics/Argv.antt =====
-- internal/audit/argv.go: the argument vector, from EXECVE records or from PROCTITLE.
use aesirguard_audit.Base.{
  ℕ, ◌+◌, Bool, true, false, ◌&&◌, ◌||◌, not, List, [], ◌∷◌, ◌++◌, Option, none, some, ◌==◌, Bytes,
  bytes_equality, nat_equality, codes, nat_eq, length, if◌then◌else◌,
}
use aesirguard_audit.Base.Maps.{lookup, insert}
use aesirguard_audit.Base.Sort.{sort_by}
use aesirguard_audit.Assembler.State.{bool_eq}
use aesirguard_audit.Record.{Record, Field}
use aesirguard_audit.Parser.Text.{valid_utf8}
use aesirguard_audit.Parser.Values.{
  atoi, is_negative, ArgKind, exec_arg_whole, exec_arg_length, exec_arg_fragment, ArgKey,
  parse_exec_arg_key,
}
use aesirguard_audit.Semantics.Decoding.{CanonicalIssue, source_field_issue, untrusted_string}

-- `execArgument`.
pub record ExecArgument : Type 0 where
  pub whole : Option Field
  pub length : Option ℕ
  pub fragments : List (ℕ × Field)

abbrev pub no_argument : ExecArgument
no_argument = record { whole = none; length = none; fragments = [] }

-- The loop variables; `argc` of -1 is `none`.
pub record ArgState : Type 0 where
  pub args : List (ℕ × ExecArgument)
  pub argc : Option ℕ
  pub valid : Bool
  pub evidence : List CanonicalIssue

abbrev invalid : ArgState → ArgState
invalid s = record s { valid = false }

-- A count that is read: a decimal that is not negative.
unfoldable pub read_count : Bytes → Option ℕ
read_count value = elim (atoi value) [
  | none ↦ none
  | some n ↦ if is_negative n then none else some n.magnitude
]

abbrev pub differs_from : Option ℕ → ℕ → Bool
differs_from none n = false
differs_from (some m) n = not (nat_eq m n)

unfoldable pub note_argc : Option ℕ → ArgState → ArgState
note_argc none s = invalid s
note_argc (some n) s = if differs_from s.argc n then invalid s else record s { argc = some n }

abbrev pub other_field : Option Field → Field → Bool
other_field none f = false
other_field (some old) f = not (old.value == f.value) || not (bool_eq old.quoted f.quoted)

abbrev pub put : ℕ → ExecArgument → Bool → ArgState → ArgState
put i a good s = record s { args = insert i a s.args; valid = s.valid && good }

abbrev pub put_length : ℕ → ExecArgument → Option ℕ → ArgState → ArgState
put_length i a none s = put i a false s
put_length i a (some n) s =
    if differs_from a.length n then put i a false s else put i (record a { length = some n }) true s

-- One part of an argument that is known by its index.
unfoldable pub note_part : ℕ → ExecArgument → ℕ → ArgKind → Field → ArgState → ArgState
note_part i a part exec_arg_length f s = put_length i a (read_count f.value) s
note_part i a part exec_arg_whole f s =
    put i (record a { whole = some f }) (not (other_field a.whole f)) s
note_part i a part exec_arg_fragment f s =
    put i (record a { fragments = insert part f a.fragments })
      (not (other_field (lookup part a.fragments) f)) s

abbrev pub argument_or_new : Option ExecArgument → ExecArgument
argument_or_new none = no_argument
argument_or_new (some a) = a

unfoldable pub note_argument : ArgKey → Field → ArgState → ArgState
note_argument k f s =
    if is_negative k.part_index
    then invalid s
    else note_part k.arg_index (argument_or_new (lookup k.arg_index s.args)) k.part_index.magnitude
        k.kind f s

abbrev pub witnessed : Record → ℕ → Field → ArgState → ArgState
witnessed r index f s = record s {
  evidence = s.evidence ++ source_field_issue (codes "incomplete_argv") r index f false ∷ [];
}

abbrev pub note_other : Option ArgKey → Record → ℕ → Field → ArgState → ArgState
note_other none r index f s = s
note_other (some k) r index f s = note_argument k f (witnessed r index f s)

unfoldable pub note_field : Record → ℕ → ArgState → Field → ArgState
note_field r index s f =
    if f.key == codes "argc"
    then note_argc (read_count f.value) (witnessed r index f s)
    else note_other (parse_exec_arg_key f.key) r index f s

unfoldable pub note_fields : Record → ℕ → ArgState → List Field → ArgState
note_fields r index s [] = s
note_fields r index s (f ∷ fs) = note_fields r index (note_field r index s f) fs

-- The EXECVE records; whether there was one is told apart.
unfoldable pub scan_execve : ℕ → Bool → ArgState → List Record → Bool × ArgState
scan_execve index found s [] = (found, s)
scan_execve index found s (r ∷ rs) =
    if r.record_type == codes "EXECVE"
    then scan_execve (index + 1) true (note_fields r index s r.all_fields) rs
    else scan_execve (index + 1) found s rs

-- The fragments in order, the encoded length added up.
unfoldable pub join_fragments : ℕ → List (ℕ × Field) → Option (Bytes × ℕ)
join_fragments position [] = some ([], 0)
join_fragments position ((part, f) ∷ rest) =
    let (value, good) = untrusted_string f true in
    let tail = join_fragments (position + 1) rest in
    if nat_eq position part && good
    then elim tail [ none ↦ none | some (bytes, n) ↦ some (value ++ bytes, length f.value + n) ]
    else none

abbrev of_length : ℕ → Option (Bytes × ℕ) → Bytes × Bool
of_length n none = ([], false)
of_length n (some (bytes, m)) = (bytes, nat_eq m n)

abbrev decode_fragments : List (ℕ × Field) → Option ℕ → Bytes × Bool
decode_fragments [] n = ([], false)
decode_fragments (p ∷ ps) none = ([], false)
decode_fragments (p ∷ ps) (some n) =
    of_length n (join_fragments 0 (sort_by (λ (x : ℕ × Field). x.0) (p ∷ ps)))

abbrev decode_whole : Field → List (ℕ × Field) → Option ℕ → Bytes × Bool
decode_whole f [] none = untrusted_string f true
decode_whole f _ _ = ([], false)

abbrev decode_either : Option Field → List (ℕ × Field) → Option ℕ → Bytes × Bool
decode_either (some f) fragments n = decode_whole f fragments n
decode_either none fragments n = decode_fragments fragments n

-- `decode` of an argument.
unfoldable pub decode_argument : ExecArgument → Bytes × Bool
decode_argument a = decode_either a.whole a.fragments a.length

-- The values in the order of the indexes, and whether all are there and good.
unfoldable pub decode_arguments : ℕ → List (ℕ × ExecArgument) → List Bytes × Bool
decode_arguments position [] = ([], true)
decode_arguments position ((index, a) ∷ rest) =
    let (value, good) = decode_argument a in
    let (values, all_good) = decode_arguments (position + 1) rest in
    (value ∷ values, nat_eq position index && good && valid_utf8 value && all_good)

-- What `buildArguments` returns: an argument vector with its source, or evidence against one.
pub data Arguments : Type 0 where
  no_arguments : Arguments
  execve : List Bytes → Arguments
  incomplete_argv : List CanonicalIssue → Arguments
  proctitle : List Bytes → Arguments
  invalid_proctitle : CanonicalIssue → Arguments

abbrev missing_argc : CanonicalIssue
missing_argc = record {
  code = codes "incomplete_argv";
  record_type = codes "EXECVE";
  record_index = none;
  field = codes "argc";
  value = [];
  value_encoding = [];
  quoted = none;
  source = [];
}

abbrev evidence_or_missing : List CanonicalIssue → List CanonicalIssue
evidence_or_missing [] = missing_argc ∷ []
evidence_or_missing (e ∷ es) = e ∷ es

abbrev pub counts : Option ℕ → ℕ → Bool
counts none n = false
counts (some m) n = nat_eq m n

unfoldable pub finish_execve : ArgState → Arguments
finish_execve s =
    let (argv, good) = decode_arguments 0 (sort_by (λ (x : ℕ × ExecArgument). x.0) s.args) in
    if s.valid && counts s.argc (length s.args) && good
    then execve argv
    else incomplete_argv (evidence_or_missing s.evidence)

-- `strings.Split(value, "\x00")`.
unfoldable pub split_nul : Bytes → List Bytes
split_nul [] = [] ∷ []
split_nul (c ∷ cs) =
    let rest = split_nul cs in
    if nat_eq c 0 then [] ∷ rest else elim rest [ [] ↦ (c ∷ []) ∷ [] | p ∷ ps ↦ (c ∷ p) ∷ ps ]

-- An empty last part goes, unless it is the only one.
unfoldable pub drop_last_empty : List Bytes → List Bytes
drop_last_empty [] = []
drop_last_empty (p ∷ []) = p ∷ []
drop_last_empty (p ∷ q ∷ []) = if nat_eq (length q) 0 then p ∷ [] else p ∷ q ∷ []
drop_last_empty (p ∷ q ∷ r ∷ ps) = p ∷ drop_last_empty (q ∷ r ∷ ps)

unfoldable pub read_proctitle : Record → ℕ → Field → Arguments
read_proctitle r index f =
    let (value, good) = untrusted_string f true in
    if not good || not (valid_utf8 value)
    then invalid_proctitle (source_field_issue (codes "invalid_proctitle") r index f false)
    else proctitle (drop_last_empty (split_nul value))

unfoldable pub find_proctitle : List Field → Option Field
find_proctitle [] = none
find_proctitle (f ∷ fs) = if f.key == codes "proctitle" then some f else find_proctitle fs

-- The first field decides.
unfoldable pub proctitle_or : Option Field → Record → ℕ → Arguments → Arguments
proctitle_or none r index rest = rest
proctitle_or (some f) r index rest = read_proctitle r index f

unfoldable pub scan_proctitle : ℕ → List Record → Arguments
scan_proctitle index [] = no_arguments
scan_proctitle index (r ∷ rs) =
    proctitle_or (if r.record_type == codes "PROCTITLE" then find_proctitle r.all_fields else none)
      r index (scan_proctitle (index + 1) rs)

abbrev pub no_state : ArgState
no_state = record { args = []; argc = none; valid = true; evidence = [] }

-- `buildArguments`.
unfoldable pub build_arguments : List Record → Arguments
build_arguments rs =
    let (found, s) = scan_execve 0 false no_state rs in
    if found then finish_execve s else scan_proctitle 0 rs
