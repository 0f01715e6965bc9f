-- ===== src/Command/Conserves.antt =====
-- What `addSourceLine` (cmd/ag-audit/main.go) and `rejectLine` (line_limit.go) do with the weight of a
-- record.
use aesirguard_audit.Base.{
  ℕ, ◌+◌, Bool, true, false, none, some, ◌≡◌, arith, sum_by, Bytes, length, ◌-◌,
}
use aesirguard_audit.Base.Maps.{total}
use aesirguard_audit.Record.{Record, SourcePosition}
use aesirguard_audit.Parser.Fields.{Result, ok, err}
use aesirguard_audit.Parser.Envelope.{RecordError}
use aesirguard_audit.Assembler.State.{Assembler}
use aesirguard_audit.Assembler.Isolation.{Recovered, add_recovering}
use aesirguard_audit.Assembler.Reject.{reject_physical_line}
use aesirguard_audit.Assembler.Accounts.{held, emitted, IsAccounted}
use aesirguard_audit.Assembler.Recovery.{add_recovering-Accounts}
use aesirguard_audit.Assembler.LineLimit.{reject_physical_line-Delivers}
use aesirguard_audit.Assembler.Runs.{SkipsEoe, add_recovering-balance, IsAccounted-after}
use aesirguard_audit.Output.Sink.{Answers}
use aesirguard_audit.Output.Reopening.{encoded}
use aesirguard_audit.Command.Processor.{
  parse_failure, line_exception, Processor, Outcome, emit_canonical, add_malformed, located,
  emit_added, add_parsed, reject_logged, reject_line, with_counters, count_parse_failure, Counters,
  count_limit, count_line_limit,
}
use aesirguard_audit.Command.Shown.{weight_of, emit_canonical-Shows}
use aesirguard_audit.Command.Handling.{
  Handles, emit_expired-Handles, emit_from-Handles, and_then-Handles, Shows-Handles, logged-Handles,
}

-- What a parsed line hands over, with its place in the source.
unfoldable pub weight_of_parsed : (Record → ℕ) → SourcePosition → Result RecordError Record → ℕ
weight_of_parsed w source (ok r) = w (located source r)
weight_of_parsed w source (err e) = 0

module _ (os : ℕ → Answers) (w : Record → ℕ) where
  -- Counting is no matter of records.
  pub Handles-counted :
      (added : ℕ) (f : Counters → Counters) (p : Processor) (o : Outcome)
      → Handles w added (with_counters f p) o
      → Handles w added p o
  Handles-counted added f p o h = record {
    no_more = h.no_more;
    no_less = h.no_less;
    accounted = h.accounted;
  }

  add_malformed-Handles :
      (text : Bytes) (e : RecordError) (now : ℕ) (logs : Bool) (p : Processor)
      → IsAccounted p.assembler
      → Handles w 0 p (add_malformed os text e now logs p)
  unfolding add_malformed weight_of
  add_malformed-Handles text e now logs p v =
      and_then-Handles os w 0 0 p _ _ (emit_expired-Handles os w now p v) (λ q u.
        let counted = with_counters count_parse_failure q in
        Handles-counted 0 count_parse_failure q _ (
          logged-Handles os w logs 0 counted (emit_canonical os (parse_failure text e)) u (
            Shows-Handles os w counted _ (emit_canonical-Shows os w (parse_failure text e) counted)
              u)))

  emit_added-Handles :
      (logs : Bool) (added : ℕ) (p : Processor) (x : Assembler × Recovered)
      → held (sum_by w) x.0 + emitted w x.1.0 ≡ held (sum_by w) p.assembler + added
      → IsAccounted x.0
      → Handles w added p (emit_added os logs p x)
  unfolding emit_added encoded
  emit_added-Handles logs added p (a, (es, none)) balance books =
      emit_from-Handles os w added p (a, es) balance books
  emit_added-Handles true added p (a, (es, some limit)) balance books =
      Handles-counted added count_limit p _
        (emit_from-Handles os w added (with_counters count_limit p) (a, es) balance books)
  emit_added-Handles false added p (a, (es, some limit)) balance books = record {
    no_more = omega (arith, balance);
    no_less = λ good. cc good;
    accounted = books;
  }

  pub add_parsed-Handles :
      (text : Bytes) (source : SourcePosition) (now : ℕ) (logs : Bool)
      (x : Result RecordError Record) (p : Processor)
      → SkipsEoe w
      → IsAccounted p.assembler
      → Handles w (weight_of_parsed w source x) p (add_parsed os text source now logs x p)
  unfolding add_parsed weight_of_parsed
  add_parsed-Handles text source now logs (err e) p skips v =
      add_malformed-Handles text e now logs p v
  add_parsed-Handles text source now logs (ok r) p skips v =
      let moved = add_recovering-Accounts (located source r) now p.assembler v in
      emit_added-Handles logs (w (located source r)) p
        (add_recovering (located source r) now p.assembler)
        (add_recovering-balance w (located source r) now p.assembler skips moved)
        (IsAccounted-after (located source r) now p.assembler moved)

  reject_logged-Handles :
      (normalize : Bytes → Bytes) (prefix : Bytes) (total : ℕ) (source : SourcePosition) (now : ℕ)
      (p : Processor)
      → IsAccounted p.assembler
      → Handles w 0 p (reject_logged os normalize prefix total source now p)
  unfolding reject_logged weight_of
  reject_logged-Handles normalize prefix total source now p v =
      let d = reject_physical_line-Delivers normalize prefix source now p.assembler v in
      and_then-Handles os w 0 0 p _ _
        (emit_from-Handles os w 0 p (reject_physical_line normalize prefix source now p.assembler)
          (d.balance w) d.accounted)
        (λ q u.
          Shows-Handles os w q _
            (emit_canonical-Shows os w (line_exception prefix (total - length prefix)) q) u)

  pub reject_line-Handles :
      (normalize : Bytes → Bytes) (prefix : Bytes) (total : ℕ) (source : SourcePosition)
      (first_now now : ℕ) (logs : Bool) (p : Processor)
      → IsAccounted p.assembler
      → Handles w 0 p (reject_line os normalize prefix total source first_now now logs p)
  unfolding reject_line
  reject_line-Handles normalize prefix total source first_now now logs p v =
      and_then-Handles os w 0 0 p _ _ (emit_expired-Handles os w first_now p v) (λ q u.
        let counted = with_counters (count_line_limit total) q in
        Handles-counted 0 (count_line_limit total) q _ (
          logged-Handles os w logs 0 counted (reject_logged os normalize prefix total source now) u
            (reject_logged-Handles normalize prefix total source now counted u)))
