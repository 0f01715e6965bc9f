-- ===== src/Command/Keeping.antt =====
-- `persist` of cmd/ag-audit/main.go on each branch.
use aesirguard_audit.Base.{
  ℕ, ◌-◌, if-cases, Bool, true, false, not, ◌&&◌, List, [], ◌∷◌, ◌++◌, map, Option, none, some, ◌≡◌,
  refl, ap, ◌∙◌, inl, inr, Option-cases, ltb, if◌then◌else◌,
}
use aesirguard_audit.Record.{SourcePosition}
use aesirguard_audit.Collector.Checkpoint.{Checkpoint, CheckpointError, validate_checkpoint}
use aesirguard_audit.Output.Sink.{Sink, FileEffect, commit}
use aesirguard_audit.Output.Durable.{unsynced, OnlyIn, commit-synced}
use aesirguard_audit.Command.Processor.{Written}
use aesirguard_audit.Command.Checkpoints.{
  CheckpointWriter, PersistAnswers, on_output, save_state, PersistError, Persisted, not_valid,
  not_saved, not_committed, position_regressed, source_end_before, same_source_position,
  checkpoint_of, save_validated, save_committed, save_after_commit, persist,
}
use aesirguard_audit.Command.Loop.{Loop, persisting_error, keep_position, kept}
use aesirguard_audit.Command.Saves.{
  left_unsynced, IsSynced, stored, saved, stored-checkpoint_of, NotBack, NotBack-refl, Guards,
  left_unsynced-append, IsSynced-append, saved-append, map-on_output,
}

module _ (l : Loop) (files : List ℕ) (only : OnlyIn l.processor.sink.file files) where
  -- A call that touches nothing but the time of the last attempt.
  still-Guards :
      (failure : Option PersistError)
      → Guards l files (
          kept l (record {
            writer = l.writer;
            sink = l.processor.sink;
            effects = [];
            failure = failure;
          }))
  unfolding kept IsSynced saved left_unsynced
  still-Guards failure = record {
    synced = tt;
    ahead = tt;
    in_order = tt;
    confined = λ good. only;
    behind = λ good. tt;
    forward = λ good. NotBack-refl l.writer.last;
  }

  -- A call that fails behind the effects of the commit.
  refused-Guards :
      (writer : CheckpointWriter) (s : Sink) (es : List (FileEffect Written)) (e : PersistError)
      → Guards l files (
          kept l
            (record { writer = writer; sink = s; effects = map on_output es; failure = some e }))
  unfolding kept
  refused-Guards writer s es e =
      let (synced, none_saved, left) = map-on_output es files in
      record {
        synced = synced;
        ahead = rw none_saved tt;
        in_order = rw none_saved tt;
        confined = λ good. cc good;
        behind = λ good. cc;
        forward = λ good. cc good;
      }

  save_validated-Guards :
      (invalid : Option CheckpointError) (saves : Bool) (position : SourcePosition) (c : Checkpoint)
      (writer : CheckpointWriter) (s : Sink) (es : List (FileEffect Written))
      → stored position c ≡ position
      → NotBack l.writer.last position
      → unsynced es files ≡ []
      → Guards l files
          (kept l (save_validated invalid saves position c writer s (map on_output es)))
  unfolding save_validated kept IsSynced saved left_unsynced
  save_validated-Guards (some e) saves position c writer s es same ahead clean =
      refused-Guards writer s es (not_valid e)
  save_validated-Guards none saves position c writer s es same ahead clean =
      let (synced, none_saved, left) = map-on_output es files in
      let line = save_state position c ∷ [] in
      let all =
        saved-append (map on_output es) line
        ∙ ap (λ ps. ps ++ saved line) none_saved
        ∙ ap (λ p. p ∷ []) same in
      let after = left_unsynced-append (map on_output es) line files ∙ left ∙ clean in
      record {
        synced = IsSynced-append (map on_output es) line files synced (left ∙ clean, tt);
        ahead = rw all (ahead, tt);
        in_order = rw all (tt, tt);
        confined = λ good. rw after tt;
        behind = λ good. rw (all, saved_at saves good) (NotBack-refl position, tt);
        forward = λ good. rw (saved_at saves good) ahead;
      }
    where
      saved_at :
          (saves : Bool)
          → persisting_error (if saves then none else some not_saved) ≡ none
          → (if saves then record writer { last = position; initialized = true } else writer).last
            ≡ position
      saved_at true good = refl
      saved_at false good = cc good

  save_after_commit-Guards :
      (os : PersistAnswers) (position : SourcePosition) (writer : CheckpointWriter)
      → NotBack l.writer.last position
      → Guards l files
          (kept l (save_after_commit os position writer (commit os.on_commit l.processor.sink)))
  unfolding save_after_commit save_committed
  save_after_commit-Guards os position writer ahead =
      let o = commit {E = Written} os.on_commit l.processor.sink in
      elim (Option-cases o.failure) [
        | inr (e, bad) ↦ simp bad (refused-Guards writer o.sink o.effects (not_committed e))
        | inl good ↦
            let c = checkpoint_of writer.input_path position os.updated_at in
            simp good (
              save_validated-Guards (validate_checkpoint c) os.saves position c writer o.sink
                o.effects (stored-checkpoint_of writer.input_path position os.updated_at) ahead
                (commit-synced Written os.on_commit l.processor.sink files only good))
      ]

  pub keep_position-Guards :
      (os : PersistAnswers) (position : SourcePosition) (force : Bool)
      → Guards l files (keep_position os position force l)
  unfolding keep_position persist
  keep_position-Guards os position force =
      let Q : Persisted → Type 0 = λ x. Guards l files (kept l x) in
      if-cases Q (not l.writer.has_path) _ _ (λ nowhere. still-Guards none)
        (λ named.
          if-cases Q (source_end_before position l.writer.last) _ _
            (λ back. still-Guards (some position_regressed))
            (λ ahead.
              if-cases Q (l.writer.initialized && same_source_position position l.writer.last) _ _
                (λ same. still-Guards none)
                (λ moved.
                  if-cases Q (not force && ltb (os.since - l.writer.last_attempt) l.writer.interval)
                    _ _ (λ early. still-Guards none)
                    (λ due.
                      save_after_commit-Guards os position
                        (record (l.writer) { last_attempt = os.now }) ahead))))
