-- ===== src/Rotation/State.antt =====
-- `RotatingFollower` of internal/collector/rotation.go: its state, and what the operating system
-- answers.
use aesirguard_audit.Base.{ℕ, Bool, true, false, List, Option, Bytes, if◌then◌else◌}
use aesirguard_audit.Collector.Ledger.{FileIdentity}
use aesirguard_audit.Follower.Lines.{FollowerOptions, FileFollower, SourceLine, Read}
use aesirguard_audit.Follower.Opening.{OpenAnswer}
use aesirguard_audit.Rotation.Candidates.{SourceCandidate, RotationError, input_pending, DirEntry}

-- `SourcePosition` of the collector.
pub record LinePosition : Type 0 where
  pub at_identity : FileIdentity
  pub at_generation : ℕ
  pub at_anchor : Bytes
  pub at_offset : ℕ

-- `RotatingFollower`, with the input path as its directory and name; a time of 0 is the zero time.
pub record RotatingFollower : Type 0 where
  pub directory : Bytes
  pub base : Bytes
  pub excluded : List Bytes
  pub options : FollowerOptions
  pub drain_interval : ℕ
  pub current : FileFollower
  pub current_at_path : Bool
  pub queued : List SourceCandidate
  pub complete : LinePosition
  pub rotation_count : ℕ
  pub pending_identity : FileIdentity
  pub drain_started : ℕ
  pub drain_size : ℕ

-- What `os.Stat` finds at the input path.
pub data PathAnswer : Type 0 where
  path_missing path_unreadable path_unidentified : PathAnswer
  path_found : FileIdentity → ℕ → PathAnswer

-- The answers to one call of `Next`; a second listing and opening are for a file that has moved.
pub record RotationAnswers : Type 0 where
  pub reads : List Read
  pub listing : Option (List DirEntry)
  pub listing_again : Option (List DirEntry)
  pub size : Option ℕ
  pub path : PathAnswer
  pub now : ℕ
  pub opened : OpenAnswer
  pub opened_again : OpenAnswer
  pub closes : Bool

-- What `Next` returns: a line, an idle tick, or an error; or it is still reading. An index out of
-- range is a panic.
pub data Turn : Type 0 where
  line : SourceLine → Turn
  tick still_reading panic : Turn
  failed : RotationError → Turn

abbrev pub zero_identity : FileIdentity
zero_identity = record { device = 0; inode = 0 }

-- `resetDrain`.
abbrev pub reset_drain : RotatingFollower → RotatingFollower
reset_drain f = record f { pending_identity = zero_identity; drain_started = 0; drain_size = 0 }

abbrev pub position_of_line : SourceLine → LinePosition
position_of_line l = record {
  at_identity = l.line_identity;
  at_generation = l.line_generation;
  at_anchor = l.end_anchor;
  at_offset = l.line_end;
}

-- `rotationPending`, and what `Next` makes of an error.
abbrev pub is_pending : RotationError → Bool
is_pending input_pending = true
is_pending _ = false

abbrev pub report : RotationError → Turn
report e = if is_pending e then tick else failed e
