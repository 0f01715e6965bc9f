-- ===== src/Rotation/Queue.antt =====
-- `refreshQueue` of internal/collector/rotation.go: the files between the open one and the input path.
use aesirguard_audit.Base.{
  ℕ, true, List, [], ◌∷◌, Option, none, some, nat_eq, length, if◌then◌else◌,
}
use aesirguard_audit.Parser.Fields.{Result, ok, err}
use aesirguard_audit.Collector.Ledger.{FileIdentity, truncated}
use aesirguard_audit.Follower.Lines.{FileFollower}
use aesirguard_audit.Follower.Opening.{signed_nat, identity_eq}
use aesirguard_audit.Rotation.Candidates.{
  SourceCandidate, RotationError, source_gap, source_failure, DirEntry, discover_candidates,
  validate_generation_chain, has_identity,
}
use aesirguard_audit.Rotation.State.{RotatingFollower}

-- The candidate with an identity, and those behind it.
unfoldable pub find_from :
    FileIdentity → List SourceCandidate → Option (SourceCandidate × List SourceCandidate)
find_from identity [] = none
find_from identity (c ∷ cs) =
    let rest = find_from identity cs in
    if identity_eq c.identity identity then some (c, cs) else rest

-- The first known candidate that is no longer there.
unfoldable pub missing : List SourceCandidate → List SourceCandidate → Option FileIdentity
missing [] refreshed = none
missing (known ∷ more) refreshed =
    let rest = missing more refreshed in
    if has_identity known.identity refreshed then rest else some known.identity

abbrev pub gap_at : FileIdentity → RotationError
gap_at identity = source_gap (record { identity = identity; reason = [] })

unfoldable pub queue_behind :
    SourceCandidate
    → List SourceCandidate
    → Option FileIdentity
    → RotatingFollower
    → RotatingFollower × Option RotationError
queue_behind c refreshed (some lost) f = (f, some (gap_at lost))
queue_behind c refreshed none f = elim (validate_generation_chain (c ∷ refreshed)) [
  | some e ↦ (f, some e)
  | none ↦ (record f { queued = refreshed }, none)
]

unfoldable pub refresh_found :
    Option (SourceCandidate × List SourceCandidate)
    → RotatingFollower
    → RotatingFollower × Option RotationError
refresh_found none f = (f, some (gap_at f.current.identity))
refresh_found (some (c, refreshed)) f =
    if c.current
    then (record f { current_at_path = true; queued = [] }, none)
    else if nat_eq (length refreshed) 0
    then (f, some (gap_at f.current.identity))
    else queue_behind c refreshed (missing f.queued refreshed) f

unfoldable pub refresh_on :
    Result RotationError (List SourceCandidate)
    → RotatingFollower
    → RotatingFollower × Option RotationError
refresh_on (err e) f = (f, some e)
refresh_on (ok candidates) f = refresh_found (find_from f.current.identity candidates) f

abbrev pub discovered :
    Option (List DirEntry) → RotatingFollower → Result RotationError (List SourceCandidate)
discovered listing f = discover_candidates f.directory f.base f.excluded listing

-- `refreshQueue`.
unfoldable pub refresh_queue :
    Option (List DirEntry) → RotatingFollower → RotatingFollower × Option RotationError
refresh_queue listing f = refresh_on (discovered listing f) f

abbrev pub truncated_to : FileFollower → FileIdentity → ℕ → RotationError
truncated_to f identity size = source_failure (
    truncated
      (record { identity = identity; offset = signed_nat f.read_offset; size = signed_nat size }))
