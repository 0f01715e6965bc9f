-- ===== src/Rotation/Candidates.antt =====
-- Retained generations found in a directory (internal/collector/rotation.go), in source order. What
-- the directory lists is a parameter; `filepath.Join` of a clean directory and a name is written out.
use aesirguard_audit.Base.{
  ℕ, ◌-◌, ◌^◌, Bool, true, false, ◌&&◌, ◌||◌, not, List, [], ◌∷◌, ◌++◌, Option, none, some, ◌==◌,
  Bytes, bytes_equality, codes, nat_eq, ltb, if◌then◌else◌,
}
use aesirguard_audit.Base.Sort.{sort_by}
use aesirguard_audit.Parser.Text.{after_prefix, before_suffix, has_prefix}
use aesirguard_audit.Parser.Fields.{Result, ok, err, ◌>>=◌}
use aesirguard_audit.Assembler.Time.{all_digits, parse_decimal}
use aesirguard_audit.Assembler.State.{bool_eq}
use aesirguard_audit.Collector.Ledger.{FileIdentity, SourceGap, SourceError}
use aesirguard_audit.Follower.Lines.{FollowError}
use aesirguard_audit.Follower.Opening.{OpenError, identity_eq}

-- `sourceCandidate`; the number is there if the name is numbered.
pub record SourceCandidate : Type 0 where
  pub path : Bytes
  pub identity : FileIdentity
  pub current : Bool
  pub number : Option ℕ

-- The errors of discovery and of the follower; a joined error counts as the one that is found in it.
pub data RotationError : Type 0 where
  no_directory unsafe_symlink no_info not_regular_file unidentified : RotationError
  generation_alias ambiguous_order no_candidate input_pending : RotationError
  line_exceeds no_size no_path_stat not_closed no_drain : RotationError
  source_gap : SourceGap → RotationError
  source_failure : SourceError → RotationError
  open_failure : OpenError → RotationError
  read_failure : FollowError → RotationError

-- What `entry.Type()`, `entry.Info()` and the file's identity say.
pub data EntryKind : Type 0 where
  symlink no_file_info other_file no_identity : EntryKind
  regular_file : FileIdentity → EntryKind

pub record DirEntry : Type 0 where
  pub name : Bytes
  pub kind : EntryKind

-- The number behind `base.`, if `strconv.ParseUint` takes it.
abbrev pub parse_suffix : Option Bytes → Option ℕ
parse_suffix none = none
parse_suffix (some []) = none
parse_suffix (some (c ∷ cs)) =
    if not (all_digits (c ∷ cs)) then none else parse_decimal (2 ^ 64) (c ∷ cs)

-- `rotationNumber`.
unfoldable pub rotation_number : Bytes → Bytes → Option ℕ
rotation_number base name = parse_suffix (after_prefix (base ++ codes ".") name)

abbrev has_suffix : Bytes → Bytes → Bool
has_suffix name suffix = elim (before_suffix suffix name) [ none ↦ false | some _ ↦ true ]

-- `isCompressedRotation`.
unfoldable pub is_compressed_rotation : Bytes → Bool
is_compressed_rotation name =
    has_suffix name (codes ".gz")
    || has_suffix name (codes ".xz")
    || has_suffix name (codes ".bz2")
    || has_suffix name (codes ".zst")

-- `isExcludedPath`.
unfoldable pub is_excluded_path : Bytes → List Bytes → Bool
is_excluded_path path [] = false
is_excluded_path path (state ∷ states) =
    path == state
    || has_prefix path (state ++ codes ".")
    || has_prefix path (state ++ codes "-")
    || is_excluded_path path states

-- The canonical spelling of the excluded paths; one that is empty or has none is left out.
unfoldable pub excluded_paths : (Bytes → Option Bytes) → List Bytes → List Bytes
excluded_paths canonical [] = []
excluded_paths canonical (path ∷ paths) =
    let rest = excluded_paths canonical paths in
    if path == []
    then rest
    else elim (canonical path) [ none ↦ rest | some spelled ↦ spelled ∷ rest ]

abbrev pub join : Bytes → Bytes → Bytes
join directory name =
    if directory == codes "/" then directory ++ name else directory ++ codes "/" ++ name

abbrev pub is_numbered : Option ℕ → Bool
is_numbered none = false
is_numbered (some _) = true

abbrev pub has_identity : FileIdentity → List SourceCandidate → Bool
has_identity identity [] = false
has_identity identity (c ∷ cs) = identity_eq c.identity identity || has_identity identity cs

-- A file that is a generation, behind those found before it.
unfoldable pub add_candidate :
    Bytes
    → Bytes
    → Option ℕ
    → EntryKind
    → List SourceCandidate
    → Result RotationError (List SourceCandidate)
add_candidate input path number symlink found = err unsafe_symlink
add_candidate input path number no_file_info found = err no_info
add_candidate input path number other_file found = err not_regular_file
add_candidate input path number no_identity found = err unidentified
add_candidate input path number (regular_file identity) found =
    if has_identity identity found
    then err generation_alias
    else ok (
        found
        ++ record { path = path; identity = identity; current = path == input; number = number }
          ∷ [])

-- One entry of the directory.
unfoldable pub add_entry :
    Bytes
    → Bytes
    → List Bytes
    → DirEntry
    → List SourceCandidate
    → Result RotationError (List SourceCandidate)
add_entry directory base excluded e found =
    let number = rotation_number base e.name in
    let path = join directory e.name in
    if not (e.name == base) && not (is_numbered number)
    then ok found
    else if is_compressed_rotation e.name
    then ok found
    else if is_excluded_path path excluded
    then ok found
    else add_candidate (join directory base) path number e.kind found

unfoldable pub add_entries :
    Bytes
    → Bytes
    → List Bytes
    → List DirEntry
    → List SourceCandidate
    → Result RotationError (List SourceCandidate)
add_entries directory base excluded [] found = ok found
add_entries directory base excluded (e ∷ es) found =
    add_entry directory base excluded e found >>= add_entries directory base excluded es

abbrev pub same_number : Option ℕ → Option ℕ → Bool
same_number (some m) (some n) = nat_eq m n
same_number _ _ = true

-- Neither is the active file, and their numbers do not tell which is older.
unfoldable pub ambiguous : SourceCandidate → SourceCandidate → Bool
ambiguous a b = not (a.current || b.current) && same_number a.number b.number

abbrev pub any_ambiguous : SourceCandidate → List SourceCandidate → Bool
any_ambiguous a [] = false
any_ambiguous a (b ∷ bs) = ambiguous a b || any_ambiguous a bs

unfoldable pub is_ambiguous : List SourceCandidate → Bool
is_ambiguous [] = false
is_ambiguous (c ∷ cs) = any_ambiguous c cs || is_ambiguous cs

-- The field `number`, which is 0 without a number.
abbrev pub number_or_zero : Option ℕ → ℕ
number_or_zero none = 0
number_or_zero (some n) = n

abbrev pub number_of : SourceCandidate → ℕ
number_of c = number_or_zero c.number

-- The order that sorts the candidates, for `sort.SliceStable`.
unfoldable pub older : SourceCandidate → SourceCandidate → Bool
older a b =
    if not (bool_eq a.current b.current) then not a.current else ltb (number_of b) (number_of a)

-- The same order as a number.
unfoldable pub age_rank : SourceCandidate → ℕ
age_rank c = if c.current then 2 ^ 64 else 2 ^ 64 - 1 - number_of c

abbrev pub any_current : List SourceCandidate → Bool
any_current [] = false
any_current (c ∷ cs) = c.current || any_current cs

unfoldable pub order_candidates : List SourceCandidate → Result RotationError (List SourceCandidate)
order_candidates [] = err no_candidate
order_candidates (c ∷ cs) =
    if is_ambiguous (c ∷ cs)
    then err ambiguous_order
    else if not (any_current (sort_by age_rank (c ∷ cs)))
    then err input_pending
    else ok (sort_by age_rank (c ∷ cs))

-- `discoverCandidates`, on what `os.ReadDir` lists.
unfoldable pub discover_candidates :
    Bytes
    → Bytes
    → List Bytes
    → Option (List DirEntry)
    → Result RotationError (List SourceCandidate)
discover_candidates directory base excluded none = err no_directory
discover_candidates directory base excluded (some entries) =
    add_entries directory base excluded entries [] >>= order_candidates

-- The number that the older of two generations must have.
abbrev pub expected_number : SourceCandidate → ℕ
expected_number newer = (if newer.current then 0 else number_of newer)

abbrev pub breaks : SourceCandidate → SourceCandidate → Bool
breaks older newer =
    older.current
    || nat_eq (number_of older) 0
    || not (nat_eq (number_of older - 1) (expected_number newer))

-- `validateGenerationChain`.
unfoldable pub validate_generation_chain : List SourceCandidate → Option RotationError
validate_generation_chain [] = none
validate_generation_chain (c ∷ []) = none
validate_generation_chain (c ∷ d ∷ ds) =
    let rest = validate_generation_chain (d ∷ ds) in
    if breaks c d
    then some (
        source_gap
          (record { identity = c.identity; reason = codes "missing_intermediate_generation" }))
    else rest
