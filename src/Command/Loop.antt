-- ===== src/Command/Loop.antt =====
-- The loop of `runFollower` in cmd/ag-audit/main.go: a line, an idle tick or the cancellation goes
-- through the event processor and then to the checkpoint writer. What the calls of the follower
-- returned is an argument; the answers of the clock, of the diagnostics and of the file system are
-- parameters.
use aesirguard_audit.Base.{
  ℕ, Bool, true, false, ◌&&◌, List, [], ◌∷◌, ◌++◌, map, Option, none, some, Bytes, nat_eq, ltb,
  if◌then◌else◌,
}
use aesirguard_audit.Record.{SourcePosition}
use aesirguard_audit.Assembler.State.{Completion}
use aesirguard_audit.Assembler.Replay.{safe_source_position}
use aesirguard_audit.Output.Sink.{Answers}
use aesirguard_audit.Follower.Lines.{SourceLine}
use aesirguard_audit.Rotation.State.{LinePosition}
use aesirguard_audit.Command.Processor.{
  Processor, ProcessorError, Outcome, Counters, with_counters, add_source_line, reject_line,
  emit_expired, flush_all,
}
use aesirguard_audit.Command.Checkpoints.{
  CheckpointWriter, PersistAnswers, PersistEffect, on_output, PersistError, Persisted, persist,
}

-- The variables of the loop.
pub record Loop : Type 0 where
  pub processor : Processor
  pub writer : CheckpointWriter
  pub rotation_count : ℕ

pub data LoopError : Type 0 where
  processing : ProcessorError → LoopError
  persisting : PersistError → LoopError
  reporting : LoopError

pub record LoopOutcome : Type 0 where
  pub loop : Loop
  pub effects : List PersistEffect
  pub failure : Option LoopError

-- The answers during one turn of the loop.
pub record LoopAnswers : Type 0 where
  pub first_now : ℕ
  pub now : ℕ
  pub logs : Bool
  pub logs_rotation : Bool
  pub caught_up : Bool
  pub logs_caught_up : Bool
  pub on_persist : PersistAnswers
  pub beats : Bool

-- `sourcePosition`.
unfoldable pub source_position : LinePosition → SourcePosition
source_position p = record {
  anchor = p.at_anchor;
  device = p.at_identity.device;
  inode = p.at_identity.inode;
  generation = p.at_generation;
  start = p.at_offset;
  end = p.at_offset;
  bytes = 0;
  valid = true;
}

-- The source of a line that the follower returned.
unfoldable pub line_source : SourceLine → SourcePosition
line_source l = record {
  anchor = l.start_anchor;
  device = l.start_identity.device;
  inode = l.start_identity.inode;
  generation = l.start_generation;
  start = l.line_start;
  end = l.line_start;
  bytes = l.line_bytes;
  valid = true;
}

abbrev pub go_on_with_loop : LoopOutcome → Option LoopError → (Loop → LoopOutcome) → LoopOutcome
go_on_with_loop o (some e) next = o
go_on_with_loop o none next =
    let later = next o.loop in record later { effects = o.effects ++ later.effects }

unfoldable pub and_next : LoopOutcome → (Loop → LoopOutcome) → LoopOutcome
and_next o next = go_on_with_loop o o.failure next

abbrev pub processing_error : Option ProcessorError → Option LoopError
processing_error none = none
processing_error (some e) = some (processing e)

abbrev pub persisting_error : Option PersistError → Option LoopError
persisting_error none = none
persisting_error (some e) = some (persisting e)

-- A call of the processor.
unfoldable pub processed : Loop → Outcome → LoopOutcome
processed l o = record {
  loop = record l { processor = o.processor };
  effects = map on_output o.effects;
  failure = processing_error o.failure;
}

unfoldable pub kept : Loop → Persisted → LoopOutcome
kept l x = record {
  loop = record l { writer = x.writer; processor = record (l.processor) { sink = x.sink } };
  effects = x.effects;
  failure = persisting_error x.failure;
}

-- A call of the checkpoint writer, on the sink that the processor has.
unfoldable pub keep_position : PersistAnswers → SourcePosition → Bool → Loop → LoopOutcome
keep_position os position force l = kept l (persist os position force l.writer l.processor.sink)

-- A diagnostic.
unfoldable pub reported : Bool → Loop → LoopOutcome
reported logs l = record { loop = l; effects = []; failure = if logs then none else some reporting }

abbrev pub set_rotations : ℕ → Counters → Counters
set_rotations n c = record c { rotations = n }

-- A change of `RotationCount` is counted and reported.
unfoldable pub note_rotation : Bool → ℕ → Loop → LoopOutcome
note_rotation logs count l =
    if nat_eq count l.rotation_count
    then reported true l
    else reported logs (record l {
      rotation_count = count;
      processor = with_counters (set_rotations count) l.processor;
    })

-- The end of a replay is noted and reported.
unfoldable pub note_caught_up : Bool → Bool → Loop → LoopOutcome
note_caught_up caught_up logs l =
    if l.processor.replay_window && caught_up
    then reported logs (record l { processor = record (l.processor) { replay_window = false } })
    else reported true l

-- The position that a restart can replay from is kept, and a heartbeat follows.
unfoldable pub keep_safe : LoopAnswers → LinePosition → Loop → LoopOutcome
keep_safe a complete l =
    let safe = safe_source_position (source_position complete) l.processor.assembler in
    and_next (keep_position a.on_persist safe false l) (reported a.beats)

-- What `follower.Next` and the context brought, with `CompletePosition` and `RotationCount`.
pub data LoopEvent : Type 0 where
  line_read : SourceLine → LinePosition → LoopEvent
  ticked : LinePosition → ℕ → LoopEvent
  cancelled : LinePosition → LoopEvent

module _ (os : ℕ → Answers) (normalize : Bytes → Bytes) where
  unfoldable pub handle_line : LoopAnswers → SourceLine → Processor → Outcome
  handle_line a l p =
      if ltb 0 l.omitted_bytes
      then reject_line os normalize l.text l.line_bytes (line_source l) a.first_now a.now a.logs p
      else add_source_line os normalize l.text (line_source l) a.now a.logs p

  -- One turn of the loop; behind a cancellation the loop ends.
  unfoldable pub loop_turn : LoopAnswers → LoopEvent → Loop → LoopOutcome
  loop_turn a (line_read line complete) l =
      and_next (processed l (handle_line a line l.processor)) (keep_safe a complete)
  loop_turn a (ticked complete count) l = and_next (note_rotation a.logs_rotation count l) (λ m.
      and_next (processed m (emit_expired os a.now m.processor))
        (λ n. and_next (note_caught_up a.caught_up a.logs_caught_up n) (keep_safe a complete)))
  loop_turn a (cancelled complete) l =
      and_next (processed l (flush_all os Completion.shutdown l.processor))
        (keep_position a.on_persist (source_position complete) true)

  -- Turns one after the other, up to the first that fails.
  unfoldable pub loop_turns : List (LoopAnswers × LoopEvent) → Loop → LoopOutcome
  loop_turns [] l = reported true l
  loop_turns ((a, e) ∷ turns) l = and_next (loop_turn a e l) (loop_turns turns)
