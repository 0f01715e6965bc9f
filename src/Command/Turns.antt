-- ===== src/Command/Turns.antt =====
-- The turns of the loop of `runFollower` in cmd/ag-audit/main.go, and the checkpoints that they save.
use aesirguard_audit.Base.{
  ℕ, if-cases, Bool, true, false, ◌&&◌, List, [], ◌∷◌, refl, Bytes, nat_eq, ltb,
}
use aesirguard_audit.Base.Sort.{Pairs}
use aesirguard_audit.Assembler.State.{Completion}
use aesirguard_audit.Output.Sink.{Answers}
use aesirguard_audit.Output.Durable.{OnlyIn}
use aesirguard_audit.Command.Processor.{Processor}
use aesirguard_audit.Command.Loop.{
  Loop, reported, LoopAnswers, LoopEvent, line_read, ticked, cancelled, handle_line, keep_safe,
  note_rotation, note_caught_up, loop_turn, loop_turns, source_position, line_source,
}
use aesirguard_audit.Command.Durable.{Confines, AnyReport, Confines-IsClosed}
use aesirguard_audit.Assembler.Replay.{safe_source_position}
use aesirguard_audit.Follower.Lines.{SourceLine}
use aesirguard_audit.Rotation.State.{LinePosition}
use aesirguard_audit.Command.Closed.{
  add_source_line-closed, reject_line-closed, emit_expired-closed, flush_all-closed,
}
use aesirguard_audit.Command.Saves.{
  IsSynced, saved, NotBack, Guards, and_next-Guards, processed-Guards, reported-Guards,
}
use aesirguard_audit.Command.Keeping.{keep_position-Guards}

module _ (os : ℕ → Answers) (normalize : Bytes → Bytes) where
  handle_line-Confines :
      (a : LoopAnswers) (line : SourceLine) (p : Processor)
      → Confines p (handle_line os normalize a line p)
  unfolding handle_line
  handle_line-Confines a line p =
      if-cases (Confines p) (ltb 0 line.omitted_bytes) _ _
        (λ long.
          reject_line-closed os AnyReport Confines (Confines-IsClosed os) normalize line.text
            line.line_bytes (line_source line) a.first_now a.now a.logs p tt)
        (λ short.
          add_source_line-closed os AnyReport Confines (Confines-IsClosed os) normalize line.text
            (line_source line) a.now a.logs p tt)

  keep_safe-Guards :
      (a : LoopAnswers) (complete : LinePosition) (l : Loop) (files : List ℕ)
      → OnlyIn l.processor.sink.file files
      → Guards l files (keep_safe a complete l)
  unfolding keep_safe
  keep_safe-Guards a complete l files only =
      and_next-Guards l files _ (reported a.beats)
        (keep_position-Guards l files only a.on_persist
          (safe_source_position (source_position complete) l.processor.assembler) false)
        (λ m left confined. reported-Guards m m left a.beats confined refl refl)

  note_rotation-Guards :
      (logs : Bool) (count : ℕ) (l : Loop) (files : List ℕ)
      → OnlyIn l.processor.sink.file files
      → Guards l files (note_rotation logs count l)
  unfolding note_rotation
  note_rotation-Guards logs count l files only =
      if-cases (Guards l files) (nat_eq count l.rotation_count) _ _
        (λ same. reported-Guards l l files true only refl refl)
        (λ moved. reported-Guards l _ files logs only refl refl)

  note_caught_up-Guards :
      (caught_up logs : Bool) (l : Loop) (files : List ℕ)
      → OnlyIn l.processor.sink.file files
      → Guards l files (note_caught_up caught_up logs l)
  unfolding note_caught_up
  note_caught_up-Guards caught_up logs l files only =
      if-cases (Guards l files) (l.processor.replay_window && caught_up) _ _
        (λ over. reported-Guards l _ files logs only refl refl)
        (λ still. reported-Guards l l files true only refl refl)

  loop_turn-Guards :
      (a : LoopAnswers) (e : LoopEvent) (l : Loop) (files : List ℕ)
      → OnlyIn l.processor.sink.file files
      → Guards l files (loop_turn os normalize a e l)
  unfolding loop_turn
  loop_turn-Guards a (line_read line complete) l files only =
      and_next-Guards l files _ _
        (processed-Guards l files _ only (handle_line-Confines a line l.processor))
        (keep_safe-Guards a complete)
  loop_turn-Guards a (ticked complete count) l files only =
      and_next-Guards l files _ _ (note_rotation-Guards a.logs_rotation count l files only)
        (λ m left confined.
          and_next-Guards m left _ _
            (processed-Guards m left _ confined
              (emit_expired-closed os AnyReport Confines (Confines-IsClosed os) a.now m.processor))
            (λ n rest narrow.
              and_next-Guards n rest _ _
                (note_caught_up-Guards a.caught_up a.logs_caught_up n rest narrow)
                (keep_safe-Guards a complete)))
  loop_turn-Guards a (cancelled complete) l files only =
      and_next-Guards l files _ _
        (processed-Guards l files _ only (
          flush_all-closed os AnyReport Confines (Confines-IsClosed os) Completion.shutdown
            l.processor))
        (λ m left confined.
          keep_position-Guards m left confined a.on_persist (source_position complete) true)

  pub loop_turns-Guards :
      (turns : List (LoopAnswers × LoopEvent)) (l : Loop) (files : List ℕ)
      → OnlyIn l.processor.sink.file files
      → Guards l files (loop_turns os normalize turns l)
  unfolding loop_turns
  loop_turns-Guards [] l files only = reported-Guards l l files true only refl refl
  loop_turns-Guards ((a, e) ∷ turns) l files only =
      and_next-Guards l files _ _ (loop_turn-Guards a e l files only) (loop_turns-Guards turns)

  -- Any turns of the loop, with any lines, positions and answers, started with no line unsynced: no
  -- checkpoint is saved while a line written before it is not synced, and no position stored
  -- in a saved checkpoint, taken with the generation that it is saved for, ends before an earlier one
  -- or before the one the checkpoint writer started from.
  pub loop_turns-IsDurable :
      (turns : List (LoopAnswers × LoopEvent)) (l : Loop)
      → IsSynced (loop_turns os normalize turns l).effects []
        × Pairs NotBack (l.writer.last ∷ saved (loop_turns os normalize turns l).effects)
  loop_turns-IsDurable turns l =
      let guards = loop_turns-Guards turns l [] tt in
      (guards.synced, (guards.ahead, guards.in_order))
