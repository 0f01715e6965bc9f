-- ===== src/Rotation/Opening.antt =====
-- `OpenRotatingFollower`, `CaughtUp` and `LagBytes` of internal/collector/rotation.go, and
-- `OpenRecoveryFollower` of recovery.go.
use aesirguard_audit.Base.{
  ℕ, ◌+◌, ◌-◌, Bool, true, false, ◌||◌, not, List, [], ◌∷◌, Option, none, some, Bytes, nat_eq, ltb,
  length, if◌then◌else◌,
}
use aesirguard_audit.Parser.Fields.{Result, ok, err, ◌>>=◌}
use aesirguard_audit.Collector.Ledger.{FileIdentity}
use aesirguard_audit.Collector.Checkpoint.{Checkpoint}
use aesirguard_audit.Follower.Lines.{FollowerOptions, FileFollower}
use aesirguard_audit.Follower.Opening.{OpenAnswer, signed_nat, open_file_follower_at}
use aesirguard_audit.Rotation.Candidates.{
  SourceCandidate, RotationError, no_candidate, no_size, no_drain, not_closed, no_path_stat,
  DirEntry, number_of, expected_number, discover_candidates, validate_generation_chain,
}
use aesirguard_audit.Rotation.State.{RotatingFollower, LinePosition, zero_identity}
use aesirguard_audit.Rotation.Queue.{find_from, gap_at, discovered, truncated_to}
use aesirguard_audit.Rotation.Next.{lift_open}

-- `RotationOptions` and the input path; the excluded paths are spelled canonically.
pub record RotationOptions : Type 0 where
  pub input_directory : Bytes
  pub input_name : Bytes
  pub exclude_paths : List Bytes
  pub follower_options : FollowerOptions
  pub drain : ℕ

-- A follower of rotations around one that is open.
abbrev pub around :
    RotationOptions → FileFollower → Bool → List SourceCandidate → LinePosition → RotatingFollower
around o f at_path queued complete = record {
  directory = o.input_directory;
  base = o.input_name;
  excluded = o.exclude_paths;
  options = o.follower_options;
  drain_interval = o.drain;
  current = f;
  current_at_path = at_path;
  queued = queued;
  complete = complete;
  rotation_count = 0;
  pending_identity = zero_identity;
  drain_started = 0;
  drain_size = 0;
}

abbrev start_of : FileIdentity → Bytes → ℕ → LinePosition
start_of identity anchor offset = record {
  at_identity = identity;
  at_generation = 0;
  at_anchor = anchor;
  at_offset = offset;
}

abbrev first_generation : RotationOptions → FollowerOptions
first_generation o = record o.follower_options { option_generation = 0 }

abbrev list_candidates :
    RotationOptions → Option (List DirEntry) → Result RotationError (List SourceCandidate)
list_candidates o listing =
    discover_candidates o.input_directory o.input_name o.exclude_paths listing

abbrev or_missing :
    FileIdentity
    → Option (SourceCandidate × List SourceCandidate)
    → Result RotationError (SourceCandidate × List SourceCandidate)
or_missing identity none = err (gap_at identity)
or_missing identity (some x) = ok x

abbrev none_or : Option RotationError → RotatingFollower → Result RotationError RotatingFollower
none_or none f = ok f
none_or (some e) f = err e

-- The oldest candidates that are contiguous up to the active one, from the right, and whether a gap
-- has been met.
unfoldable pub extend : SourceCandidate → List SourceCandidate → Bool → List SourceCandidate × Bool
extend c suffix true = (suffix, true)
extend c [] false = (c ∷ [], false)
extend c (d ∷ ds) false =
    if nat_eq (number_of c) 0 || not (nat_eq (number_of c - 1) (expected_number d))
    then (d ∷ ds, true)
    else (c ∷ d ∷ ds, false)

unfoldable pub contiguous : List SourceCandidate → List SourceCandidate × Bool
contiguous [] = ([], false)
contiguous (c ∷ cs) = let (suffix, stopped) = contiguous cs in extend c suffix stopped

module _ (hash : Bytes → Bytes) where
  unfoldable pub open_at_start :
      RotationOptions → OpenAnswer → Result RotationError RotatingFollower
  open_at_start o os =
      lift_open (open_file_follower_at hash o.follower_options os (signed_nat 0) none none) >>= λ f.
      ok (around o f true [] (start_of f.identity f.origin_anchor 0))

  -- The generation of a checkpoint is opened first; then the generations behind it are checked.
  unfoldable pub open_generation :
      RotationOptions
      → OpenAnswer
      → Checkpoint
      → FileIdentity
      → SourceCandidate × List SourceCandidate
      → Result RotationError RotatingFollower
  open_generation o os checkpoint expected (first, behind) =
      lift_open (
        open_file_follower_at hash (first_generation o) os checkpoint.offset (some expected)
          (some checkpoint.anchor))
      >>= λ f. none_or (validate_generation_chain (first ∷ behind)) (
          around o f first.current behind
            (start_of expected checkpoint.anchor (checkpoint.offset).magnitude))

  unfoldable pub open_at :
      RotationOptions
      → OpenAnswer
      → Option (List DirEntry)
      → Option Checkpoint
      → Result RotationError RotatingFollower
  open_at o os listing none = open_at_start o os
  open_at o os listing (some checkpoint) =
      let expected : FileIdentity = record {
        device = checkpoint.device;
        inode = checkpoint.inode;
      } in
      list_candidates o listing >>= λ cs.
      or_missing expected (find_from expected cs) >>= open_generation o os checkpoint expected

  -- `OpenRotatingFollower`.
  unfoldable pub open_rotating_follower :
      RotationOptions
      → OpenAnswer
      → Option (List DirEntry)
      → Option Checkpoint
      → Result RotationError RotatingFollower
  open_rotating_follower o os listing checkpoint =
      if nat_eq o.drain 0 then err no_drain else open_at o os listing checkpoint

  unfoldable pub open_suffix :
      RotationOptions → OpenAnswer → List SourceCandidate → Result RotationError RotatingFollower
  open_suffix o os [] = err no_candidate
  open_suffix o os (first ∷ behind) =
      lift_open (
        open_file_follower_at hash (first_generation o) os (signed_nat 0) (some first.identity)
          none)
      >>= λ f. ok (around o f first.current behind (start_of first.identity f.origin_anchor 0))

  -- `OpenRecoveryFollower`: the active file is opened and closed again before anything is listed.
  unfoldable pub open_recovery_follower :
      RotationOptions
      → OpenAnswer
      → Bool
      → Option (List DirEntry)
      → OpenAnswer
      → Result RotationError RotatingFollower
  open_recovery_follower o active closes listing first =
      lift_open (open_file_follower_at hash o.follower_options active (signed_nat 0) none none)
      >>= λ _.
          if not closes
          then err not_closed
          else list_candidates o listing >>= λ cs. open_suffix o first (contiguous cs).0

-- `CaughtUp`, with the size of the open file if it can be read.
unfoldable pub caught_up : Option ℕ → RotatingFollower → Bool
caught_up size f =
    if not f.current_at_path || not (nat_eq (length f.queued) 0)
    then false
    else elim size [ none ↦ false | some n ↦ nat_eq n f.current.read_offset ]

-- The sizes of the candidates behind the open one, as `os.Stat` gives them.
unfoldable pub add_sizes : (Bytes → Option ℕ) → List SourceCandidate → ℕ → Result RotationError ℕ
add_sizes size_at [] lag = ok lag
add_sizes size_at (c ∷ cs) lag = elim (size_at c.path) [
  | none ↦ err no_path_stat
  | some n ↦ add_sizes size_at cs (lag + n)
]

abbrev lag_behind :
    (Bytes → Option ℕ)
    → RotatingFollower
    → ℕ
    → Option (SourceCandidate × List SourceCandidate)
    → Result RotationError ℕ
lag_behind size_at f lag none = err (gap_at f.current.identity)
lag_behind size_at f lag (some (c, behind)) = add_sizes size_at behind lag

-- `LagBytes`.
unfoldable pub lag_bytes :
    (Bytes → Option ℕ)
    → Option ℕ
    → Option (List DirEntry)
    → RotatingFollower
    → Result RotationError ℕ
lag_bytes size_at none listing f = err no_size
lag_bytes size_at (some size) listing f =
    if ltb size f.current.read_offset
    then err (truncated_to f.current f.current.identity size)
    else discovered listing f >>= λ cs.
        lag_behind size_at f (size - f.current.read_offset) (find_from f.current.identity cs)
