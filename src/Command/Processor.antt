-- ===== src/Command/Processor.antt =====
-- `eventProcessor` of cmd/ag-audit/main.go and line_limit.go: a physical line goes through the parser
-- and the assembler to the sink. A written event is named by the call that builds it; the answers to
-- the writes, to the diagnostics and of the clock are parameters.
use aesirguard_audit.Base.{
  ℕ, ◌+◌, ◌-◌, ◌%◌, ◌^◌, Bool, true, false, ◌&&◌, not, List, [], ◌∷◌, ◌++◌, Option, none, some,
  Bytes, ltb, length, if◌then◌else◌,
}
use aesirguard_audit.Record.{Record, SourcePosition}
use aesirguard_audit.Parser.Fields.{Result, ok, err}
use aesirguard_audit.Parser.Envelope.{RecordError, parse_record}
use aesirguard_audit.Assembler.State.{Assembler, AssembledEvent, Completion}
use aesirguard_audit.Assembler.Expiry.{flush_expired, flush_all_with}
use aesirguard_audit.Assembler.Isolation.{Recovered, add_recovering}
use aesirguard_audit.Assembler.Reject.{reject_physical_line}
use aesirguard_audit.Output.Sink.{Sink, SinkError, Answers, FileEffect, write}

-- The arguments of `BuildCanonicalEvent` (and whether a message is rendered), of
-- `BuildAssemblyException`, and of `BuildParseFailureEvent` for a malformed or a too long line.
pub data Written : Type 0 where
  canonical_event : AssembledEvent → Bool → Written
  assembly_exception : Record → Written
  parse_failure : Bytes → RecordError → Written
  line_exception : Bytes → ℕ → Written

-- `operationCounters`.
pub record Counters : Type 0 where
  pub line_limits : ℕ
  pub assembler_limits : ℕ
  pub input_lines : ℕ
  pub input_bytes : ℕ
  pub emitted_events : ℕ
  pub parse_failures : ℕ
  pub replay_candidates : ℕ
  pub gaps : ℕ
  pub rotations : ℕ

-- `eventProcessor`; `writes` counts the calls of the sink, whose answers are numbered.
pub record Processor : Type 0 where
  pub assembler : Assembler
  pub sink : Sink
  pub render_message : Bool
  pub counters : Counters
  pub replay_window : Bool
  pub writes : ℕ

pub data ProcessorError : Type 0 where
  write_failed : SinkError → ProcessorError
  diagnostic_failed : ProcessorError

-- What a call leaves, the effects on files in order, and the error that it returns.
pub record Outcome : Type 0 where
  pub processor : Processor
  pub effects : List (FileEffect Written)
  pub failure : Option ProcessorError

abbrev pub returns : Processor → Outcome
returns p = record { processor = p; effects = []; failure = none }

abbrev pub fails : Processor → ProcessorError → Outcome
fails p e = record { processor = p; effects = []; failure = some e }

abbrev pub go_on_with : Outcome → Option ProcessorError → (Processor → Outcome) → Outcome
go_on_with o (some e) next = o
go_on_with o none next =
    let later = next o.processor in record later { effects = o.effects ++ later.effects }

-- `if err := ...; err != nil { return err }`
unfoldable pub and_then : Outcome → (Processor → Outcome) → Outcome
and_then o next = go_on_with o o.failure next

abbrev pub with_counters : (Counters → Counters) → Processor → Processor
with_counters f p = record p { counters = f p.counters }

abbrev increment : ℕ → ℕ
increment n = (n + 1) % 2 ^ 64

abbrev pub count_emitted : Bool → Counters → Counters
count_emitted replay c = record c {
  emitted_events = increment c.emitted_events;
  replay_candidates = if replay then increment c.replay_candidates else c.replay_candidates;
}

abbrev pub lift_failure : Option SinkError → Option ProcessorError
lift_failure none = none
lift_failure (some e) = some (write_failed e)

abbrev pub is_none : Option SinkError → Bool
is_none none = true
is_none (some _) = false

-- The diagnostic of a line, and what follows it.
abbrev pub logged : Bool → (Processor → Outcome) → Processor → Outcome
logged logs next p = if logs then next p else fails p diagnostic_failed

abbrev pub count_parse_failure : Counters → Counters
count_parse_failure c = record c { parse_failures = increment c.parse_failures }

-- A source does not end before it starts.
abbrev pub located : SourcePosition → Record → Record
located source r = if not source.valid then r else record r {
  source = source;
  source_bytes = if ltb 0 source.bytes then source.bytes else source.end - source.start;
}

abbrev pub count_limit : Counters → Counters
count_limit c = record c { assembler_limits = increment c.assembler_limits }

abbrev pub count_line : ℕ → Counters → Counters
count_line bytes c = record c {
  input_lines = increment c.input_lines;
  input_bytes = (c.input_bytes + bytes) % 2 ^ 64;
}

abbrev pub bytes_of_line : Bytes → SourcePosition → ℕ
bytes_of_line text source =
    if source.valid && ltb 0 source.bytes then source.bytes else length text + 1

abbrev pub count_line_limit : ℕ → Counters → Counters
count_line_limit bytes c = record (count_line bytes c) { line_limits = increment c.line_limits }

module _ (os : ℕ → Answers) where
  -- `emitCanonical`.
  unfoldable pub emit_canonical : Written → Processor → Outcome
  emit_canonical event p =
      let o = write (os p.writes) p.sink event in
      let written = record p { sink = o.sink; writes = p.writes + 1 } in
      record {
        processor =
            if is_none o.failure
            then with_counters (count_emitted p.replay_window) written
            else written;
        effects = o.effects;
        failure = lift_failure o.failure;
      }

  unfoldable pub emit_exceptions : List Record → Processor → Outcome
  emit_exceptions [] p = returns p
  emit_exceptions (r ∷ rs) p =
      and_then (emit_canonical (assembly_exception r) p) (emit_exceptions rs)

  unfoldable pub emit_event : AssembledEvent → Processor → Outcome
  emit_event e p =
      if e.exceptional
      then emit_exceptions e.records p
      else emit_canonical (canonical_event e p.render_message) p

  -- `emit`.
  unfoldable pub emit : List AssembledEvent → Processor → Outcome
  emit [] p = returns p
  emit (e ∷ es) p = and_then (emit_event e p) (emit es)

  -- The events that a method of the assembler returns, emitted.
  abbrev pub emit_from : Processor → Assembler × List AssembledEvent → Outcome
  emit_from p (a, es) = emit es (record p { assembler = a })

  -- `flushAll`.
  unfoldable pub flush_all : Completion → Processor → Outcome
  flush_all completion p = emit_from p (flush_all_with completion p.assembler)

  unfoldable pub emit_expired : ℕ → Processor → Outcome
  emit_expired now p = emit_from p (flush_expired now p.assembler)

  unfoldable pub add_malformed : Bytes → RecordError → ℕ → Bool → Processor → Outcome
  add_malformed text e now logs p = and_then (emit_expired now p) (λ q.
      logged logs (emit_canonical (parse_failure text e)) (with_counters count_parse_failure q))

  unfoldable pub emit_added : Bool → Processor → Assembler × Recovered → Outcome
  emit_added logs p (a, (es, none)) = emit es (record p { assembler = a })
  emit_added logs p (a, (es, some limit)) =
      logged logs (emit es) (with_counters count_limit (record p { assembler = a }))

  unfoldable pub add_parsed :
      Bytes → SourcePosition → ℕ → Bool → Result RecordError Record → Processor → Outcome
  add_parsed text source now logs (err e) p = add_malformed text e now logs p
  add_parsed text source now logs (ok r) p =
      emit_added logs p (add_recovering (located source r) now p.assembler)

  module _ (normalize : Bytes → Bytes) where
    -- `addSourceLine`.
    unfoldable pub add_source_line : Bytes → SourcePosition → ℕ → Bool → Processor → Outcome
    add_source_line text source now logs p =
        add_parsed text source now logs (parse_record normalize text)
          (with_counters (count_line (bytes_of_line text source)) p)

    unfoldable pub reject_logged : Bytes → ℕ → SourcePosition → ℕ → Processor → Outcome
    reject_logged prefix total source now p =
        and_then (emit_from p (reject_physical_line normalize prefix source now p.assembler))
          (emit_canonical (line_exception prefix (total - length prefix)))

    -- `rejectLine` of line_limit.go; the clock is read twice.
    unfoldable pub reject_line : Bytes → ℕ → SourcePosition → ℕ → ℕ → Bool → Processor → Outcome
    reject_line prefix total source first_now now logs p = and_then (emit_expired first_now p) (λ q.
        logged logs (reject_logged prefix total source now)
          (with_counters (count_line_limit total) q))
