-- ===== src/Semantics/Conflicts.antt =====
-- internal/audit/conflicts.go: fields that may have one value only. A Go set of keys is a list.
use aesirguard_audit.Base.{
  ℕ, ◌+◌, Bool, true, false, ◌||◌, not, List, [], ◌∷◌, ◌++◌, Option, none, some, ◌==◌, Bytes,
  bytes_equality, codes, if◌then◌else◌,
}
use aesirguard_audit.Base.Maps.{lookup, insert}
use aesirguard_audit.Record.{Record, Field}
use aesirguard_audit.Assembler.Types.{contains_string}
use aesirguard_audit.Semantics.Decoding.{CanonicalIssue, source_field_issue, decode_records}

-- The keys that `singletonField` and `eventSingleton` share.
abbrev pub event_singletons : List Bytes
event_singletons =
    codes "auid"
    ∷ codes "AUID"
    ∷ codes "uid"
    ∷ codes "UID"
    ∷ codes "euid"
    ∷ codes "EUID"
    ∷ codes "pid"
    ∷ codes "ppid"
    ∷ codes "comm"
    ∷ codes "exe"
    ∷ codes "cwd"
    ∷ codes "tty"
    ∷ codes "exit"
    ∷ codes "arch"
    ∷ codes "ARCH"
    ∷ codes "syscall"
    ∷ codes "SYSCALL"
    ∷ codes "acct"
    ∷ codes "addr"
    ∷ codes "hostname"
    ∷ codes "terminal"
    ∷ codes "unit"
    ∷ codes "service"
    ∷ codes "reason"
    ∷ codes "op"
    ∷ codes "operation"
    ∷ []

-- The keys of `singletonField` alone.
abbrev record_singletons : List Bytes
record_singletons =
    codes "name"
    ∷ codes "nametype"
    ∷ codes "item"
    ∷ codes "ouid"
    ∷ codes "OUID"
    ∷ codes "ogid"
    ∷ codes "OGID"
    ∷ codes "cap_fp"
    ∷ codes "cap_fi"
    ∷ codes "cap_fe"
    ∷ codes "decision"
    ∷ codes "apparmor"
    ∷ codes "scontext"
    ∷ codes "subj"
    ∷ codes "tcontext"
    ∷ codes "tclass"
    ∷ codes "profile"
    ∷ codes "permissive"
    ∷ codes "code"
    ∷ codes "sig"
    ∷ codes "ip"
    ∷ codes "compat"
    ∷ []

unfoldable pub event_singleton : Bytes → Bool
event_singleton key = contains_string event_singletons key

unfoldable pub singleton_field : Bytes → Bool
singleton_field key = event_singleton key || contains_string record_singletons key

-- `first` (the value seen last), `seen` and the conflicts, of a record or of the event.
pub record Seen : Type 0 where
  pub last_value : List (Bytes × Bytes)
  pub conflicting : List Bytes

unfoldable pub mark_key : Bytes → List Bytes → List Bytes
mark_key key keys = if contains_string keys key then keys else key ∷ keys

abbrev differs : Option Bytes → Bytes → Bool
differs none value = false
differs (some old) value = not (old == value)

unfoldable pub see_value : Bytes → Bytes → Seen → Seen
see_value key value s = record {
  last_value = insert key value s.last_value;
  conflicting =
      if differs (lookup key s.last_value) value then mark_key key s.conflicting else s.conflicting;
}

-- The values of one key, in the record and, for some keys, in the event.
unfoldable pub see_values : Bytes → List Bytes → Seen × Seen → Seen × Seen
see_values key [] s = s
see_values key (value ∷ values) (local, global) =
    see_values key values (
      see_value key value local,
      if event_singleton key then see_value key value global else global,
    )

unfoldable pub see_section : List (Bytes × List Bytes) → Seen × Seen → Seen × Seen
see_section [] s = s
see_section ((key, values) ∷ rest) s =
    see_section rest (if not (singleton_field key) then s else see_values key values s)

abbrev disagree : Option Bytes → Option Bytes → Bool
disagree (some a) (some b) = not (a == b)
disagree _ _ = false

-- Two names of one thing with two values.
unfoldable pub mark_alias : Seen → List Bytes → Bytes × Bytes → List Bytes
mark_alias s keys (a, b) =
    if disagree (lookup a s.last_value) (lookup b s.last_value)
    then mark_key b (mark_key a keys)
    else keys

unfoldable pub mark_aliases : Seen → List Bytes → List (Bytes × Bytes) → List Bytes
mark_aliases s keys [] = keys
mark_aliases s keys (p ∷ ps) = mark_aliases s (mark_alias s keys p) ps

abbrev record_aliases : List (Bytes × Bytes)
record_aliases =
    (codes "decision", codes "apparmor")
    ∷ (codes "scontext", codes "subj")
    ∷ (codes "op", codes "operation")
    ∷ []

abbrev nothing_seen : Seen
nothing_seen = record { last_value = []; conflicting = [] }

-- One record of the first loop of `markSingletonConflicts`: its conflicts, and the event's state.
unfoldable pub scan_record : Record → Seen → List Bytes × Seen
scan_record r global =
    let s = see_section r.embedded_values (see_section r.values (nothing_seen, global)) in
    (mark_aliases s.0 s.0.conflicting record_aliases, s.1)

unfoldable pub scan_records : List Record → Seen → List Record × Seen
scan_records [] global = ([], global)
scan_records (r ∷ rs) global =
    let (keys, later) = scan_record r global in
    let (rest, all) = scan_records rs later in (record r { conflicts = keys } ∷ rest, all)

unfoldable pub mark_all : List Bytes → List Bytes → List Bytes
mark_all [] keys = keys
mark_all (key ∷ more) keys = mark_all more (mark_key key keys)

-- An interpreted alias of an ambiguous identity is ambiguous too.
unfoldable pub spread_alias : List Bytes → Bytes × Bytes → List Bytes
spread_alias keys (a, b) =
    if contains_string keys a || contains_string keys b then mark_key b (mark_key a keys) else keys

unfoldable pub spread_aliases : List (Bytes × Bytes) → List Bytes → List Bytes
spread_aliases [] keys = keys
spread_aliases (p ∷ ps) keys = spread_aliases ps (spread_alias keys p)

abbrev pub interpreted_aliases : List (Bytes × Bytes)
interpreted_aliases =
    (codes "auid", codes "AUID")
    ∷ (codes "uid", codes "UID")
    ∷ (codes "euid", codes "EUID")
    ∷ (codes "ouid", codes "OUID")
    ∷ (codes "ogid", codes "OGID")
    ∷ (codes "arch", codes "ARCH")
    ∷ (codes "syscall", codes "SYSCALL")
    ∷ []

unfoldable pub conflict_issues : Record → ℕ → Bool → List Field → List CanonicalIssue
conflict_issues r index embedded [] = []
conflict_issues r index embedded (f ∷ fs) =
    let rest = conflict_issues r index embedded fs in
    if contains_string r.conflicts f.key
    then source_field_issue (codes "conflicting_singleton") r index f embedded ∷ rest
    else rest

-- The second loop.
unfoldable pub settle_record : List Bytes → Record → Record
settle_record global r = record r {
  conflicts = spread_aliases interpreted_aliases (mark_all global r.conflicts);
}

unfoldable pub settle_records : List Bytes → ℕ → List Record → List Record × List CanonicalIssue
settle_records global index [] = ([], [])
settle_records global index (r ∷ rs) =
    let settled = settle_record global r in
    let (rest, issues) = settle_records global (index + 1) rs in
    (
      settled ∷ rest,
      conflict_issues settled index false settled.all_fields
          ++ conflict_issues settled index true settled.embedded_all_fields
          ++ issues,
    )

unfoldable pub mark_singleton_conflicts : List Record → List Record × List CanonicalIssue
mark_singleton_conflicts rs =
    let (scanned, global) = scan_records rs nothing_seen in
    settle_records global.conflicting 0 scanned

-- `decodedRecords` of decoding.go.
unfoldable pub decoded_records : List Record → List Record × List CanonicalIssue
decoded_records rs =
    let (decoded, issues) = decode_records 0 [] rs in
    let (marked, more) = mark_singleton_conflicts decoded in (marked, issues ++ more)
