-- ===== src/Tests/Commanding.antt =====
-- The command: the theorems applied.
use aesirguard_audit.Base.{
  ℕ, ◌≤◌, Bool, true, false, List, [], ◌∷◌, none, some, Bytes, codes, ◌==◌, bytes_equality, ◌≡◌,
  ◌⊎◌, refl, sum_by, bytes_eq,
}
use aesirguard_audit.Base.Sort.{Pairs}
use aesirguard_audit.Record.{zero_position}
use aesirguard_audit.Assembler.State.{Assembler, Completion, new_bounded_assembler, new_assembler}
use aesirguard_audit.Output.Sink.{Answers}
use aesirguard_audit.Follower.Lines.{SourceLine}
use aesirguard_audit.Follower.Opening.{signed_nat, open_file_follower_at}
use aesirguard_audit.Rotation.State.{LinePosition}
use aesirguard_audit.Command.Options.{CommandOptions, default_options}
use aesirguard_audit.Command.Checks.{check_options}
use aesirguard_audit.Command.Ready.{
  limits_of, follower_options_of, Apart, IsLate, ModeAgrees, check_options-Ready,
}
use aesirguard_audit.Command.Processor.{Processor, ProcessorError}
use aesirguard_audit.Command.Shown.{written}
use aesirguard_audit.Command.Session.{
  Call, add_line, refuse_line, expire, session, handed_over, session-Conserves, IsHealthy,
}
use aesirguard_audit.Command.Healthy.{session-Succeeds}
use aesirguard_audit.Command.Checkpoints.{PersistAnswers}
use aesirguard_audit.Command.Loop.{
  Loop, LoopAnswers, LoopEvent, line_read, ticked, cancelled, loop_turn, loop_turns,
}
use aesirguard_audit.Command.Saves.{IsSynced, saved, NotBack}
use aesirguard_audit.Command.Turns.{loop_turns-IsDurable}
use aesirguard_audit.Command.Covering.{Covered, loop_turn-Covered}
use aesirguard_audit.Tests.Samples.{
  bounded, two_events, busy, busy-IsAccounted, counted, counted-SkipsEoe,
}
use aesirguard_audit.Tests.Writing.{fine, managed}
use aesirguard_audit.Tests.Following.{plain_hash, first_file, reopened}

abbrev same_bytes : Bytes → Bytes → Bool
same_bytes a b = a == b

-- Follow mode with a lock.
abbrev following_options : CommandOptions
following_options = record (default_options []) {
  input_path = codes "/var/log/audit/audit.log";
  follow = true;
  lock_path = codes "/run/lock";
}

passing : check_options same_bytes following_options ≡ none
unfolding check_options bytes_eq
passing = refl

check_options-Ready_example :
    ((a : Assembler) × (new_bounded_assembler following_options.event_timeout.magnitude
          (limits_of following_options)
        ≡ some a))
    × IsLate (
        open_file_follower_at plain_hash
          (follower_options_of following_options)
          reopened
          (signed_nat 0)
          none
          none)
    × ModeAgrees following_options
    × (Apart same_bytes following_options.input_path following_options.output_path
        × Apart same_bytes following_options.output_path following_options.lock_path
        × Apart same_bytes following_options.input_path following_options.lock_path
        × Apart same_bytes following_options.input_path following_options.checkpoint_path
        × Apart same_bytes following_options.output_path following_options.checkpoint_path
        × Apart same_bytes following_options.lock_path following_options.checkpoint_path)
check_options-Ready_example =
    check_options-Ready same_bytes following_options plain_hash reopened (signed_nat 0) none none
      passing

abbrev processor : Processor
processor = record {
  assembler = bounded;
  sink = managed;
  render_message = false;
  counters = record {
    line_limits = 0;
    assembler_limits = 0;
    input_lines = 0;
    input_bytes = 0;
    emitted_events = 0;
    parse_failures = 0;
    replay_candidates = 0;
    gaps = 0;
    rotations = 0;
  };
  replay_window = false;
  writes = 0;
}

abbrev always_fine : ℕ → Answers
always_fine n = fine

-- A record, a malformed line and a line that is too long.
abbrev calls : List Call
calls =
    add_line (codes "type=SYSCALL msg=audit(1000.500:1): pid=7") zero_position 1 true
    ∷ add_line (codes "no record") zero_position 2 true
    ∷ refuse_line (codes "type=PATH msg=audit(1000.500:1): name=") 90 zero_position 3 4 true
    ∷ expire 5
    ∷ []

bounded_made : new_bounded_assembler 2000000000 two_events ≡ some processor.assembler
unfolding new_bounded_assembler new_assembler
bounded_made = refl

fine-IsHealthy : IsHealthy fine
fine-IsHealthy = record { stats = refl; in_place = refl; encodes = refl; syncs = refl }

session-Conserves_example :
    ((session always_fine plain_hash calls Completion.eof processor).failure ≡ none
      × (written counted (session always_fine plain_hash calls Completion.eof processor).effects
          ≡ sum_by (handed_over always_fine plain_hash counted) calls))
    ⊎ ((e : ProcessorError) × ((session always_fine plain_hash calls Completion.eof
            processor).failure
          ≡ some e)
        × (written counted (session always_fine plain_hash calls Completion.eof processor).effects
            ≤ sum_by (handed_over always_fine plain_hash counted) calls))
session-Conserves_example =
    session-Conserves always_fine plain_hash counted calls Completion.eof processor 2000000000
      two_events counted-SkipsEoe bounded_made

session-Succeeds_example :
    (session always_fine plain_hash calls Completion.eof processor).failure ≡ none
session-Succeeds_example =
    session-Succeeds always_fine (λ n. fine-IsHealthy) plain_hash calls Completion.eof processor
      (refl, (refl, (refl, (tt, tt)))) refl

abbrev persisting_fine : PersistAnswers
persisting_fine = record { since = 50; now = 51; updated_at = 52; on_commit = fine; saves = true }

abbrev loop_fine : LoopAnswers
loop_fine = record {
  first_now = 40;
  now = 41;
  logs = true;
  logs_rotation = true;
  caught_up = true;
  logs_caught_up = true;
  on_persist = persisting_fine;
  beats = true;
}

abbrev position_at : ℕ → LinePosition
position_at n = record {
  at_identity = first_file;
  at_generation = 0;
  at_anchor = [];
  at_offset = n;
}

abbrev first_line : SourceLine
first_line = record {
  omitted_bytes = 0;
  text = codes "type=SYSCALL msg=audit(1000.500:1): pid=7";
  line_identity = first_file;
  line_generation = 0;
  start_identity = first_file;
  start_generation = 0;
  line_start = 10;
  line_end = 52;
  start_anchor = [];
  end_anchor = [];
  line_bytes = 42;
}

abbrev started : Loop
started = record {
  processor = record processor { assembler = busy };
  writer = record {
    has_path = true;
    input_path = codes "/var/log/audit/audit.log";
    interval = 5;
    last = record zero_position { end = 10; valid = true };
    last_attempt = 30;
    initialized = true;
  };
  rotation_count = 0;
}

abbrev turns : List (LoopAnswers × LoopEvent)
turns =
    (loop_fine, line_read first_line (position_at 52))
    ∷ (loop_fine, ticked (position_at 52) 1)
    ∷ (loop_fine, cancelled (position_at 52))
    ∷ []

loop_turns-IsDurable_example :
    IsSynced (loop_turns always_fine plain_hash turns started).effects []
    × Pairs NotBack
        (started.writer.last ∷ saved (loop_turns always_fine plain_hash turns started).effects)
loop_turns-IsDurable_example = loop_turns-IsDurable always_fine plain_hash turns started

loop_turn-Covered_example :
    Covered
      (position_at 52)
      (loop_turn always_fine plain_hash loop_fine (line_read first_line (position_at 52)) started)
loop_turn-Covered_example =
    loop_turn-Covered always_fine plain_hash loop_fine (line_read first_line (position_at 52))
      started busy-IsAccounted
