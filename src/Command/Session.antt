-- ===== src/Command/Session.antt =====
-- Whole runs of the event processor (cmd/ag-audit/main.go, line_limit.go): from physical lines to the
-- lines of output, through parser, assembler and sink, as calls one after the other.
use aesirguard_audit.Base.{
  ℕ, ◌+◌, ◌≤◌, Bool, true, List, [], ◌∷◌, none, some, ◌≡◌, ap, ◌∙◌, ◌⊎◌, inl, inr, arith, sum_by,
  Bytes, Option-cases,
}
use aesirguard_audit.Base.Maps.{total}
use aesirguard_audit.Record.{Record, SourcePosition}
use aesirguard_audit.Parser.Envelope.{parse_record}
use aesirguard_audit.Assembler.State.{
  Completion, PendingEvent, AssemblerLimits, new_bounded_assembler,
}
use aesirguard_audit.Assembler.Expiry.{flush_all_with}
use aesirguard_audit.Assembler.Accounts.{held, IsAccounted}
use aesirguard_audit.Assembler.Delivery.{flush_all_with-empty}
use aesirguard_audit.Assembler.Runs.{SkipsEoe, new-IsReady}
use aesirguard_audit.Output.Sink.{Answers, is_file}
use aesirguard_audit.Output.Reopening.{encoded}
use aesirguard_audit.Command.Processor.{
  Processor, ProcessorError, Outcome, returns, and_then, flush_all, emit_expired, add_source_line,
  reject_line, with_counters, count_line, bytes_of_line,
}
use aesirguard_audit.Command.Shown.{written, emit-Shows}
use aesirguard_audit.Command.Handling.{
  Handles, flush_all-Handles, emit_expired-Handles, and_then-Handles,
}
use aesirguard_audit.Command.Conserves.{
  weight_of_parsed, Handles-counted, add_parsed-Handles, reject_line-Handles,
}

-- A call of one of the processor's methods, with its arguments and what the clock and the
-- diagnostics answer.
pub data Call : Type 0 where
  add_line : Bytes → SourcePosition → ℕ → Bool → Call
  refuse_line : Bytes → ℕ → SourcePosition → ℕ → ℕ → Bool → Call
  expire : ℕ → Call
  flush : Completion → Call

module _ (os : ℕ → Answers) (normalize : Bytes → Bytes) where
  unfoldable pub perform : Call → Processor → Outcome
  perform (add_line text source now logs) p = add_source_line os normalize text source now logs p
  perform (refuse_line prefix total source first_now now logs) p =
      reject_line os normalize prefix total source first_now now logs p
  perform (expire now) p = emit_expired os now p
  perform (flush c) p = flush_all os c p

  -- Calls one after the other, up to the first that fails.
  unfoldable pub perform_all : List Call → Processor → Outcome
  perform_all [] p = returns p
  perform_all (c ∷ cs) p = and_then (perform c p) (perform_all cs)

  -- The weight of the record that a line parses to.
  unfoldable pub handed_over : (Record → ℕ) → Call → ℕ
  handed_over w (add_line text source now logs) =
      weight_of_parsed w source (parse_record normalize text)
  handed_over w (refuse_line prefix total source first_now now logs) = 0
  handed_over w (expire now) = 0
  handed_over w (flush c) = 0

  perform-Handles :
      (w : Record → ℕ) (c : Call) (p : Processor)
      → SkipsEoe w
      → IsAccounted p.assembler
      → Handles w (handed_over w c) p (perform c p)
  unfolding perform handed_over add_source_line
  perform-Handles w (add_line text source now logs) p skips v =
      Handles-counted os w (handed_over w (add_line text source now logs))
        (count_line (bytes_of_line text source)) p
        (add_source_line os normalize text source now logs p)
        (add_parsed-Handles os w text source now logs (parse_record normalize text)
          (with_counters (count_line (bytes_of_line text source)) p) skips v)
  perform-Handles w (refuse_line prefix total source first_now now logs) p skips v =
      reject_line-Handles os w normalize prefix total source first_now now logs p v
  perform-Handles w (expire now) p skips v = emit_expired-Handles os w now p v
  perform-Handles w (flush c) p skips v = flush_all-Handles os w c p v

  pub perform_all-Handles :
      (w : Record → ℕ) (cs : List Call) (p : Processor)
      → SkipsEoe w
      → IsAccounted p.assembler
      → Handles w (sum_by (handed_over w) cs) p (perform_all cs p)
  unfolding perform_all encoded
  perform_all-Handles w [] p skips v = record {
    no_more = omega arith;
    no_less = λ _. omega arith;
    accounted = v;
  }
  perform_all-Handles w (c ∷ cs) p skips v =
      and_then-Handles os w (handed_over w c) (sum_by (handed_over w) cs) p (perform c p)
        (perform_all cs) (perform-Handles w c p skips v) (λ q u. perform_all-Handles w cs q skips u)

  -- The calls, then the last flush.
  unfoldable pub session : List Call → Completion → Processor → Outcome
  session cs c p = and_then (perform_all cs p) (flush_all os c)

  flush_all-empty :
      (w : Record → ℕ) (c : Completion) (p : Processor)
      → IsAccounted p.assembler
      → held (sum_by w) (flush_all os c p).processor.assembler ≡ 0
  unfolding flush_all
  flush_all-empty w c p v =
      let (b, es) = flush_all_with c p.assembler in
      ap (held (sum_by w)) (emit-Shows os w es (record p { assembler = b })).untouched
      ∙ ap (total (λ (x : PendingEvent). sum_by w x.records))
          (flush_all_with-empty c p.assembler v).0

  session-empty :
      (w : Record → ℕ) (cs : List Call) (c : Completion) (p : Processor)
      → SkipsEoe w
      → IsAccounted p.assembler
      → (session cs c p).failure ≡ none
      → held (sum_by w) (session cs c p).processor.assembler ≡ 0
  unfolding session and_then
  session-empty w cs c p skips v h = elim (Option-cases (perform_all cs p).failure) [
    | inr (e, bad) ↦ let k : some e ≡ none = simp bad at h in cc k
    | inl good ↦ simp good (
        flush_all-empty w c (perform_all cs p).processor
          (perform_all-Handles w cs p skips v).accounted)
  ]

  -- From physical lines to lines of output. For a processor with an assembler that
  -- `NewBoundedAssembler` made, any sequence of `addSourceLine`, `rejectLine`, the emission of expired
  -- events and `flushAll`, with any answers of the file system, the clock and the diagnostics, then a
  -- last `flushAll`, and any weight on records that ignores EOE records: if no call reports an error,
  -- the records in the lines written weigh what the records parsed from the lines weigh; if one does,
  -- which ends the sequence, they weigh at most that.
  pub session-Conserves :
      (w : Record → ℕ) (cs : List Call) (c : Completion) (p : Processor) (expiry : ℕ)
      (limits : AssemblerLimits)
      → SkipsEoe w
      → new_bounded_assembler expiry limits ≡ some p.assembler
      → ((session cs c p).failure ≡ none
          × (written w (session cs c p).effects ≡ sum_by (handed_over w) cs))
        ⊎ ((e : ProcessorError) × ((session cs c p).failure ≡ some e)
            × (written w (session cs c p).effects ≤ sum_by (handed_over w) cs))
  unfolding session
  session-Conserves w cs c p expiry limits skips h =
      let (books, bounded, tracked, empty) = new-IsReady expiry limits p.assembler h in
      let both : Handles w (sum_by (handed_over w) cs + 0) p (session cs c p) =
        and_then-Handles os w (sum_by (handed_over w) cs) 0 p (perform_all cs p) (flush_all os c)
          (perform_all-Handles w cs p skips books) (flush_all-Handles os w c) in
      elim (Option-cases (session cs c p).failure) [
        | inl good ↦ inl (
          good,
          omega
              (arith, both.no_less good, empty (sum_by w), session-empty w cs c p skips books good),
        )
        | inr (e, bad) ↦ inr (e, bad, omega (arith, both.no_more, empty (sum_by w)))
      ]

-- A file system where every call succeeds and the output file stays in place.
pub record IsHealthy (os : Answers) : Type 0 where
  pub stats : os.stats ≡ true
  pub in_place : os.at_path ≡ is_file true
  pub encodes : os.encodes ≡ true
  pub syncs : os.syncs ≡ true
