-- ===== src/Command/Covering.antt =====
-- The checkpoints of the loop of `runFollower` (cmd/ag-audit/main.go) against the records that are
-- still pending in the assembler.
use aesirguard_audit.Base.{
  ℕ, ◌-◌, if-cases, Bool, true, false, not, ◌&&◌, List, [], ◌∷◌, ◌++◌, map, Option, none, some, ◌≡◌,
  refl, ap, ◌∙◌, ◌⊎◌, inl, inr, Bytes, All, All-append, Option-cases, nat_eq, ltb,
}
use aesirguard_audit.Record.{SourcePosition}
use aesirguard_audit.Assembler.State.{Assembler, Completion, CorrelationKey, PendingEvent}
use aesirguard_audit.Collector.Checkpoint.{Checkpoint, CheckpointError, validate_checkpoint}
use aesirguard_audit.Output.Sink.{Answers, Sink, SinkOutcome, FileEffect, commit}
use aesirguard_audit.Command.Processor.{Written, Processor, Outcome}
use aesirguard_audit.Command.Checkpoints.{
  CheckpointWriter, PersistAnswers, on_output, save_state, Persisted, source_end_before,
  same_source_position, checkpoint_of, save_validated, save_committed, save_after_commit, persist,
}
use aesirguard_audit.Command.Loop.{
  Loop, LoopOutcome, and_next, processed, keep_position, reported, kept, LoopAnswers, LoopEvent,
  line_read, ticked, cancelled, handle_line, keep_safe, note_rotation, note_caught_up, loop_turn,
  source_position,
}
use aesirguard_audit.Assembler.Replay.{safe_source_position}
use aesirguard_audit.Rotation.State.{LinePosition}
use aesirguard_audit.Command.Saves.{
  stored, stored-checkpoint_of, saved, saved-append, map-on_output,
}
use aesirguard_audit.Assembler.Accounts.{IsAccounted}
use aesirguard_audit.Assembler.Replay.{
  Replays, pending_sources, StartsOne, sources_of, safe_source_position-Replays,
}
use aesirguard_audit.Assembler.Delivery.{flush_all_with-empty}
use aesirguard_audit.Assembler.Expiry.{flush_all_with}
use aesirguard_audit.Command.Processor.{flush_all, emit_expired}
use aesirguard_audit.Command.Shown.{emit-Shows}

abbrev ReplaysAll : SourcePosition → List (CorrelationKey × PendingEvent) → Type 0
ReplaysAll p m = All (Replays p) (pending_sources m)

-- From the position, a restart comes to the start of every pending record; and it is the fallback, or
-- the place at which a record, a rejected key or the fence of the assembler starts.
abbrev IsChosen : LinePosition → SourcePosition → Assembler → Type 0
IsChosen complete p a =
    ReplaysAll p a.pending × ((p ≡ source_position complete) ⊎ StartsOne p (sources_of a))

-- The positions saved were chosen for the assembler at the end.
abbrev pub Covered : LinePosition → LoopOutcome → Type 0
Covered complete o = All (λ p. IsChosen complete p o.loop.processor.assembler) (saved o.effects)

after_unsaved :
    (complete : LinePosition) (o : LoopOutcome) (next : Loop → LoopOutcome)
    → saved o.effects ≡ []
    → (o.failure ≡ none → Covered complete (next o.loop))
    → Covered complete (and_next o next)
unfolding and_next
after_unsaved complete o next none_saved k = elim (Option-cases o.failure) [
  | inr (e, bad) ↦ simp bad (rw none_saved tt)
  | inl good ↦ simp good (
      rw
        (saved-append o.effects (next o.loop).effects
          ∙ ap (λ ps. ps ++ saved (next o.loop).effects) none_saved)
        (k good))
]

before_report :
    (complete : LinePosition) (o : LoopOutcome) (logs : Bool)
    → Covered complete o
    → Covered complete (and_next o (reported logs))
unfolding and_next reported saved
before_report complete o logs h = elim (Option-cases o.failure) [
  | inr (e, bad) ↦ simp bad h
  | inl good ↦ simp good (
      rw (saved-append o.effects []) (
        All-append (λ p. IsChosen complete p o.loop.processor.assembler) (saved o.effects) [] h tt))
]

processed-unsaved : (l : Loop) (o : Outcome) → saved (processed l o).effects ≡ []
unfolding processed
processed-unsaved l o = (map-on_output o.effects []).1

module _ (l : Loop) (complete : LinePosition) (position : SourcePosition)
    (covers : IsChosen complete position l.processor.assembler) where
  save_validated-Covered :
      (invalid : Option CheckpointError) (saves : Bool) (c : Checkpoint) (writer : CheckpointWriter)
      (s : Sink) (es : List (FileEffect Written))
      → stored position c ≡ position
      → Covered complete
          (kept l (save_validated invalid saves position c writer s (map on_output es)))
  unfolding save_validated kept saved
  save_validated-Covered (some e) saves c writer s es same = rw ((map-on_output es []).1) tt
  save_validated-Covered none saves c writer s es same =
      rw
        (saved-append (map on_output es) (save_state position c ∷ [])
          ∙ ap (λ ps. ps ++ stored position c ∷ []) (map-on_output es []).1
          ∙ ap (λ p. p ∷ []) same)
        (covers, tt)

  save_after_commit-Covered :
      (os : PersistAnswers) (writer : CheckpointWriter) (o : SinkOutcome Written)
      → Covered complete (kept l (save_after_commit os position writer o))
  unfolding save_after_commit save_committed kept
  save_after_commit-Covered os writer o = elim (Option-cases o.failure) [
    | inr (e, bad) ↦ simp bad (rw ((map-on_output o.effects []).1) tt)
    | inl good ↦
        let c = checkpoint_of writer.input_path position os.updated_at in
        simp good (
          save_validated-Covered (validate_checkpoint c) os.saves c writer o.sink o.effects
            (stored-checkpoint_of writer.input_path position os.updated_at))
  ]

  keep_position-Covered :
      (os : PersistAnswers) (force : Bool) → Covered complete (keep_position os position force l)
  unfolding keep_position persist kept saved
  keep_position-Covered os force =
      let Q : Persisted → Type 0 = λ x. Covered complete (kept l x) in
      if-cases Q (not l.writer.has_path) _ _ (λ _. tt)
        (λ _.
          if-cases Q (source_end_before position l.writer.last) _ _ (λ _. tt)
            (λ _.
              if-cases Q (l.writer.initialized && same_source_position position l.writer.last) _ _
                (λ _. tt)
                (λ _.
                  if-cases Q (not force && ltb (os.since - l.writer.last_attempt) l.writer.interval)
                    _ _ (λ _. tt)
                    (λ _.
                      save_after_commit-Covered os (record (l.writer) { last_attempt = os.now })
                        (commit os.on_commit l.processor.sink)))))

source_position-IsPoint : (p : LinePosition) → (source_position p).start ≡ (source_position p).end
unfolding source_position
source_position-IsPoint p = refl

All-first :
    (P : SourcePosition → Type 0) (xs ys : List SourcePosition) → All P (xs ++ ys) → All P xs
All-first P [] ys h = tt
All-first P (x ∷ xs) ys h = (h.0, All-first P xs ys h.1)

keep_safe-Covered :
    (a : LoopAnswers) (complete : LinePosition) (l : Loop)
    → Covered complete (keep_safe a complete l)
unfolding keep_safe
keep_safe-Covered a complete l =
    let fallback = source_position complete in
    let pending = l.processor.assembler.pending in
    let safe = safe_source_position fallback l.processor.assembler in
    let (behind, chosen) =
      safe_source_position-Replays fallback l.processor.assembler
        (source_position-IsPoint complete) in
    before_report complete (keep_position a.on_persist safe false l) a.beats (
      keep_position-Covered l complete safe
        (
          All-first (Replays safe) (pending_sources pending) _
              (All-first (Replays safe) _ _ behind.1),
          chosen,
        )
        a.on_persist false)

note_rotation-unsaved :
    (logs : Bool) (count : ℕ) (l : Loop) → saved (note_rotation logs count l).effects ≡ []
unfolding note_rotation reported saved
note_rotation-unsaved logs count l =
    if-cases (λ (o : LoopOutcome). saved o.effects ≡ []) (nat_eq count l.rotation_count) _ _
      (λ _. refl) (λ _. refl)

note_caught_up-unsaved :
    (caught_up logs : Bool) (l : Loop) → saved (note_caught_up caught_up logs l).effects ≡ []
unfolding note_caught_up reported saved
note_caught_up-unsaved caught_up logs l =
    if-cases (λ (o : LoopOutcome). saved o.effects ≡ []) (l.processor.replay_window && caught_up) _
      _ (λ _. refl) (λ _. refl)

-- The position behind the last complete line, as the follower reports it with an event.
abbrev pub complete_position : LoopEvent → LinePosition
complete_position (line_read line complete) = complete
complete_position (ticked complete count) = complete
complete_position (cancelled complete) = complete

module _ (os : ℕ → Answers) (normalize : Bytes → Bytes) where
  nothing_pending_left :
      (l : Loop) (complete : LinePosition) (c : Completion) (p : Processor)
      → IsAccounted p.assembler
      → IsChosen complete
          (source_position complete)
          (processed l (flush_all os c p)).loop.processor.assembler
  unfolding flush_all processed
  nothing_pending_left l complete c p books =
      let (b, es) = flush_all_with c p.assembler in
      let shown = emit-Shows os (λ r. 0) es (record p { assembler = b }) in
      let gone =
        ap (λ (x : Assembler). x.pending) shown.untouched
        ∙ (flush_all_with-empty c p.assembler books).0 in
      (rw gone tt, inl refl)

  -- One turn of the loop, with any answers, on an assembler with distinct keys and an exact byte
  -- counter. For each checkpoint that the turn saves, the file, the offset and the anchor stored in it
  -- are those of the last complete position, or of the place at which a pending record, a rejected
  -- key or the fence starts; and reading on from there, in the generation that it is saved for, a
  -- restart comes to the start of the source of every record that is still pending, so far as that
  -- is a position.
  pub loop_turn-Covered :
      (a : LoopAnswers) (e : LoopEvent) (l : Loop)
      → IsAccounted l.processor.assembler
      → Covered (complete_position e) (loop_turn os normalize a e l)
  unfolding loop_turn
  loop_turn-Covered a (line_read line complete) l books =
      let o = processed l (handle_line os normalize a line l.processor) in
      after_unsaved complete o (keep_safe a complete) (processed-unsaved l _)
        (λ _. keep_safe-Covered a complete o.loop)
  loop_turn-Covered a (ticked complete count) l books =
      let o = note_rotation a.logs_rotation count l in
      after_unsaved complete o _ (note_rotation-unsaved a.logs_rotation count l) (λ _.
        let p = processed o.loop (emit_expired os a.now o.loop.processor) in
        after_unsaved complete p _ (processed-unsaved o.loop _) (λ _.
          after_unsaved complete (note_caught_up a.caught_up a.logs_caught_up p.loop) _
            (note_caught_up-unsaved a.caught_up a.logs_caught_up p.loop)
            (λ _.
              keep_safe-Covered a complete
                (note_caught_up a.caught_up a.logs_caught_up p.loop).loop)))
  loop_turn-Covered a (cancelled complete) l books =
      let o = processed l (flush_all os Completion.shutdown l.processor) in
      after_unsaved complete o _ (processed-unsaved l _) (λ _.
        keep_position-Covered o.loop complete (source_position complete)
          (nothing_pending_left l complete Completion.shutdown l.processor books) a.on_persist true)
