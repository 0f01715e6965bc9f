-- ===== src/Command/Closed.antt =====
-- Properties of the calls of the event processor (cmd/ag-audit/main.go, line_limit.go) that follow from
-- what one write does: the calls only write, touch the assembler, count and report.
use aesirguard_audit.Base.{
  ℕ, Bool, List, [], ◌∷◌, ◌-◌, length, none, some, Bool-cases, Bytes, All, inl, inr,
}
use aesirguard_audit.Record.{Record, SourcePosition}
use aesirguard_audit.Parser.Fields.{Result, ok, err}
use aesirguard_audit.Parser.Envelope.{RecordError, parse_record}
use aesirguard_audit.Assembler.State.{Assembler, AssembledEvent, Completion}
use aesirguard_audit.Assembler.Expiry.{flush_expired, flush_all_with}
use aesirguard_audit.Assembler.Isolation.{Recovered, add_recovering}
use aesirguard_audit.Assembler.Reject.{reject_physical_line}
use aesirguard_audit.Output.Sink.{Answers}
use aesirguard_audit.Command.Processor.{
  Written, Processor, Outcome, and_then, emit_canonical, emit_exceptions, emit_event, emit,
  canonical_event, assembly_exception, emit_from, flush_all, emit_expired, add_malformed,
  emit_added, add_parsed, add_source_line, reject_logged, reject_line, with_counters, returns,
  count_limit, located, parse_failure, line_exception, count_parse_failure, count_line_limit,
  count_line, bytes_of_line, Counters, logged,
}
use aesirguard_audit.Command.Session.{
  Call, add_line, refuse_line, expire, flush, perform, perform_all, session,
}

-- A property of a call, by the processor before it. `allowed` says of which diagnostics it speaks.
pub record IsClosed (os : ℕ → Answers) (allowed : Bool → Type 0) (P : Processor → Outcome → Type 0)
    : Type 0 where
  pub holds_written : (x : Written) (p : Processor) → P p (emit_canonical os x p)
  pub holds_returned : (p : Processor) → P p (returns p)
  pub holds_then :
      (p : Processor) (o : Outcome) (next : Processor → Outcome)
      → P p o
      → ((q : Processor) → P q (next q))
      → P p (and_then o next)
  pub holds_logged :
      (logs : Bool) (p : Processor) (next : Processor → Outcome)
      → allowed logs
      → P p (next p)
      → P p (logged logs next p)
  pub holds_assembled :
      (a : Assembler) (p : Processor) (o : Outcome) → P (record p { assembler = a }) o → P p o
  pub holds_counted :
      (f : Counters → Counters) (p : Processor) (o : Outcome) → P (with_counters f p) o → P p o

-- The calls whose diagnostics are allowed.
abbrev pub Reports : (Bool → Type 0) → Call → Type 0
Reports allowed (add_line text source now logs) = allowed logs
Reports allowed (refuse_line prefix total source first_now now logs) = allowed logs
Reports allowed (expire now) = Unit
Reports allowed (flush completion) = Unit

module _ (os : ℕ → Answers) (allowed : Bool → Type 0) (P : Processor → Outcome → Type 0)
    (c : IsClosed os allowed P) where
  emit_exceptions-closed : (rs : List Record) (p : Processor) → P p (emit_exceptions os rs p)
  unfolding emit_exceptions
  emit_exceptions-closed [] p = c.holds_returned p
  emit_exceptions-closed (r ∷ rs) p =
      c.holds_then p _ _ (c.holds_written (assembly_exception r) p) (emit_exceptions-closed rs)

  emit_event-closed : (e : AssembledEvent) (p : Processor) → P p (emit_event os e p)
  unfolding emit_event
  emit_event-closed e p = elim (Bool-cases e.exceptional) [
    | inl exceptional ↦ simp exceptional (emit_exceptions-closed e.records p)
    | inr plain ↦ simp plain (c.holds_written (canonical_event e p.render_message) p)
  ]

  emit-closed : (es : List AssembledEvent) (p : Processor) → P p (emit os es p)
  unfolding emit
  emit-closed [] p = c.holds_returned p
  emit-closed (e ∷ es) p = c.holds_then p _ _ (emit_event-closed e p) (emit-closed es)

  emit_from-closed : (p : Processor) (x : Assembler × List AssembledEvent) → P p (emit_from os p x)
  emit_from-closed p (a, es) = c.holds_assembled a p _ (emit-closed es (record p { assembler = a }))

  pub emit_expired-closed : (now : ℕ) (p : Processor) → P p (emit_expired os now p)
  unfolding emit_expired
  emit_expired-closed now p = emit_from-closed p (flush_expired now p.assembler)

  pub flush_all-closed : (completion : Completion) (p : Processor) → P p (flush_all os completion p)
  unfolding flush_all
  flush_all-closed completion p = emit_from-closed p (flush_all_with completion p.assembler)

  -- A diagnostic of a counted call.
  counted_logged-closed :
      (logs : Bool) (f : Counters → Counters) (p : Processor) (next : Processor → Outcome)
      → allowed logs
      → ((q : Processor) → P q (next q))
      → P p (logged logs next (with_counters f p))
  counted_logged-closed logs f p next l h =
      c.holds_counted f p _ (c.holds_logged logs (with_counters f p) next l (h (with_counters f p)))

  emit_added-closed :
      (logs : Bool) (p : Processor) (x : Assembler × Recovered)
      → allowed logs
      → P p (emit_added os logs p x)
  unfolding emit_added
  emit_added-closed logs p (a, (es, none)) l = emit_from-closed p (a, es)
  emit_added-closed logs p (a, (es, some limit)) l = c.holds_assembled a p _ (
      counted_logged-closed logs count_limit (record p { assembler = a }) (emit os es) l
        (emit-closed es))

  add_parsed-closed :
      (text : Bytes) (source : SourcePosition) (now : ℕ) (logs : Bool)
      (x : Result RecordError Record) (p : Processor)
      → allowed logs
      → P p (add_parsed os text source now logs x p)
  unfolding add_parsed add_malformed
  add_parsed-closed text source now logs (ok r) p l =
      emit_added-closed logs p (add_recovering (located source r) now p.assembler) l
  add_parsed-closed text source now logs (err e) p l =
      c.holds_then p _ _ (emit_expired-closed now p) (λ q.
        counted_logged-closed logs count_parse_failure q (emit_canonical os (parse_failure text e))
          l (c.holds_written (parse_failure text e)))

  module _ (normalize : Bytes → Bytes) where
    pub add_source_line-closed :
        (text : Bytes) (source : SourcePosition) (now : ℕ) (logs : Bool) (p : Processor)
        → allowed logs
        → P p (add_source_line os normalize text source now logs p)
    unfolding add_source_line
    add_source_line-closed text source now logs p l =
        let count = count_line (bytes_of_line text source) in
        c.holds_counted count p _ (
          add_parsed-closed text source now logs (parse_record normalize text)
            (with_counters count p) l)

    reject_logged-closed :
        (prefix : Bytes) (total : ℕ) (source : SourcePosition) (now : ℕ) (p : Processor)
        → P p (reject_logged os normalize prefix total source now p)
    unfolding reject_logged
    reject_logged-closed prefix total source now p =
        c.holds_then p _ _
          (emit_from-closed p (reject_physical_line normalize prefix source now p.assembler))
          (c.holds_written (line_exception prefix (total - length prefix)))

    pub reject_line-closed :
        (prefix : Bytes) (total : ℕ) (source : SourcePosition) (first_now now : ℕ) (logs : Bool)
        (p : Processor)
        → allowed logs
        → P p (reject_line os normalize prefix total source first_now now logs p)
    unfolding reject_line
    reject_line-closed prefix total source first_now now logs p l =
        c.holds_then p _ _ (emit_expired-closed first_now p) (λ q.
          counted_logged-closed logs (count_line_limit total) q
            (reject_logged os normalize prefix total source now) l
            (reject_logged-closed prefix total source now))

    perform-closed : (x : Call) (p : Processor) → Reports allowed x → P p (perform os normalize x p)
    unfolding perform
    perform-closed (add_line text source now logs) p l =
        add_source_line-closed text source now logs p l
    perform-closed (refuse_line prefix total source first_now now logs) p l =
        reject_line-closed prefix total source first_now now logs p l
    perform-closed (expire now) p l = emit_expired-closed now p
    perform-closed (flush completion) p l = flush_all-closed completion p

    perform_all-closed :
        (xs : List Call) (p : Processor)
        → All (Reports allowed) xs
        → P p (perform_all os normalize xs p)
    unfolding perform_all
    perform_all-closed [] p l = c.holds_returned p
    perform_all-closed (x ∷ xs) p l =
        c.holds_then p _ _ (perform-closed x p l.0) (λ q. perform_all-closed xs q l.1)

    pub session-closed :
        (xs : List Call) (completion : Completion) (p : Processor)
        → All (Reports allowed) xs
        → P p (session os normalize xs completion p)
    unfolding session
    session-closed xs completion p l =
        c.holds_then p _ _ (perform_all-closed xs p l) (flush_all-closed completion)
