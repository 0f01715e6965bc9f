-- ===== src/Command/Checkpoints.antt =====
-- `checkpointWriter` of cmd/ag-audit/main.go: the position in the source that a restart continues at,
-- saved behind a commit of the output. The answers of the clock and of the file system are parameters.
use aesirguard_audit.Base.{
  ℕ, ◌-◌, ◌&&◌, Bool, true, not, List, [], ◌∷◌, ◌++◌, map, Option, none, some, Bytes, nat_eq, ltb,
  if◌then◌else◌,
}
use aesirguard_audit.Record.{SourcePosition}
use aesirguard_audit.Parser.Values.{plus}
use aesirguard_audit.Collector.Checkpoint.{
  Checkpoint, CheckpointError, checkpoint_version, validate_checkpoint,
}
use aesirguard_audit.Output.Sink.{Sink, SinkError, Answers, FileEffect, SinkOutcome, commit}
use aesirguard_audit.Command.Processor.{Written}

-- `checkpointWriter`; the sink, which the processor has too, is an argument of each call.
pub record CheckpointWriter : Type 0 where
  pub has_path : Bool
  pub input_path : Bytes
  pub interval : ℕ
  pub last : SourcePosition
  pub last_attempt : ℕ
  pub initialized : Bool

-- `newCheckpointWriter`; `has_path` is that `-checkpoint` is not empty.
unfoldable pub new_checkpoint_writer :
    Bool → ℕ → Bytes → SourcePosition → Bool → ℕ → CheckpointWriter
new_checkpoint_writer has_path interval input_path position initialized now = record {
  has_path = has_path;
  input_path = input_path;
  interval = interval;
  last = position;
  last_attempt = now;
  initialized = initialized;
}

-- `sourcePositionBefore` of main.go, which compares ends.
unfoldable pub source_end_before : SourcePosition → SourcePosition → Bool
source_end_before left right =
    if not (nat_eq left.generation right.generation)
    then ltb left.generation right.generation
    else ltb left.end right.end

-- `sameSourcePosition`.
unfoldable pub same_source_position : SourcePosition → SourcePosition → Bool
same_source_position left right =
    nat_eq left.device right.device && nat_eq left.inode right.inode && nat_eq left.end right.end

pub data PersistError : Type 0 where
  position_regressed : PersistError
  not_committed : SinkError → PersistError
  not_valid : CheckpointError → PersistError
  not_saved : PersistError

-- The effects: those of the commit, and the replacement of the checkpoint's file, with the position
-- that it is for.
pub data PersistEffect : Type 0 where
  on_output : FileEffect Written → PersistEffect
  save_state : SourcePosition → Checkpoint → PersistEffect

pub record Persisted : Type 0 where
  pub writer : CheckpointWriter
  pub sink : Sink
  pub effects : List PersistEffect
  pub failure : Option PersistError

-- The answers of one call: the clock, twice, the commit, and whether `saveState` succeeds.
pub record PersistAnswers : Type 0 where
  pub since : ℕ
  pub now : ℕ
  pub updated_at : ℕ
  pub on_commit : Answers
  pub saves : Bool

unfoldable pub checkpoint_of : Bytes → SourcePosition → ℕ → Checkpoint
checkpoint_of input_path position updated_at = record {
  version = record { sign = plus; magnitude = checkpoint_version };
  input_path = input_path;
  device = position.device;
  inode = position.inode;
  offset = record { sign = plus; magnitude = position.end };
  anchor = position.anchor;
  updated_at = updated_at;
}

-- `SaveCheckpoint`, and what `persist` does with its answer; `es` are the effects before.
unfoldable pub save_validated :
    Option CheckpointError
    → Bool
    → SourcePosition
    → Checkpoint
    → CheckpointWriter
    → Sink
    → List PersistEffect
    → Persisted
save_validated (some e) saves position c writer s es = record {
  writer = writer;
  sink = s;
  effects = es;
  failure = some (not_valid e);
}
save_validated none saves position c writer s es = record {
  writer = if saves then record writer { last = position; initialized = true } else writer;
  sink = s;
  effects = es ++ save_state position c ∷ [];
  failure = if saves then none else some not_saved;
}

unfoldable pub save_committed :
    PersistAnswers
    → SourcePosition
    → CheckpointWriter
    → SinkOutcome Written
    → Option SinkError
    → Persisted
save_committed os position writer o (some e) = record {
  writer = writer;
  sink = o.sink;
  effects = map on_output o.effects;
  failure = some (not_committed e);
}
save_committed os position writer o none =
    let c = checkpoint_of writer.input_path position os.updated_at in
    save_validated (validate_checkpoint c) os.saves position c writer o.sink
      (map on_output o.effects)

unfoldable pub save_after_commit :
    PersistAnswers → SourcePosition → CheckpointWriter → SinkOutcome Written → Persisted
save_after_commit os position writer o = save_committed os position writer o o.failure

-- `persist`.
unfoldable pub persist :
    PersistAnswers → SourcePosition → Bool → CheckpointWriter → Sink → Persisted
persist os position force writer s =
    let still : Persisted = record { writer = writer; sink = s; effects = []; failure = none } in
    if not writer.has_path
    then still
    else if source_end_before position writer.last
    then record still { failure = some position_regressed }
    else if writer.initialized && same_source_position position writer.last
    then still
    else if not force && ltb (os.since - writer.last_attempt) writer.interval
    then still
    else save_after_commit os position (record writer { last_attempt = os.now })
        (commit os.on_commit s)
