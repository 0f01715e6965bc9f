-- ===== src/Command/Handling.antt =====
-- What the calls of the event processor (cmd/ag-audit/main.go) do with the weight of records: in the
-- assembler before, in the assembler and in the written lines afterwards.
use aesirguard_audit.Base.{
  ℕ, ◌+◌, ◌≤◌, Bool, true, false, List, none, ◌≡◌, ap, inl, inr, arith, sum_by, Option-cases,
}
use aesirguard_audit.Base.Maps.{total}
use aesirguard_audit.Record.{Record}
use aesirguard_audit.Assembler.State.{Assembler, AssembledEvent, Completion, PendingEvent}
use aesirguard_audit.Assembler.Expiry.{flush_expired, flush_all_with}
use aesirguard_audit.Assembler.Accounts.{held, emitted, IsAccounted}
use aesirguard_audit.Assembler.Delivery.{flush_all_with-empty, flush_expired-Delivers}
use aesirguard_audit.Assembler.Operations.{flush_all_with-IsAccounted}
use aesirguard_audit.Output.Sink.{Answers}
use aesirguard_audit.Output.Reopening.{encoded}
use aesirguard_audit.Command.Processor.{
  Processor, Outcome, and_then, emit_from, flush_all, emit_expired, logged,
}
use aesirguard_audit.Command.Shown.{written, written-append, Shows, emit-Shows}

-- A call that hands over what weighs `added`: nothing is made up, and without a failure nothing is
-- lost either. The assembler's books stay in order.
pub record Handles (w : Record → ℕ) (added : ℕ) (p : Processor) (o : Outcome) : Type 0 where
  pub no_more :
      held (sum_by w) o.processor.assembler + written w o.effects
      ≤ held (sum_by w) p.assembler + added
  pub no_less :
      o.failure ≡ none
      → held (sum_by w) o.processor.assembler + written w o.effects
        ≡ held (sum_by w) p.assembler + added
  pub accounted : IsAccounted o.processor.assembler

module _ (os : ℕ → Answers) (w : Record → ℕ) where
  -- What a method of the assembler gives out, emitted.
  pub emit_from-Handles :
      (added : ℕ) (p : Processor) (x : Assembler × List AssembledEvent)
      → held (sum_by w) x.0 + emitted w x.1 ≡ held (sum_by w) p.assembler + added
      → IsAccounted x.0
      → Handles w added p (emit_from os p x)
  emit_from-Handles added p (a, es) balance books =
      let q : Processor = record p { assembler = a } in
      let shown = emit-Shows os w es q in
      let kept = ap (held (sum_by w)) shown.untouched in
      record {
        no_more = omega (arith, shown.at_most, balance, kept);
        no_less = λ good. omega (arith, shown.exactly good, balance, kept);
        accounted = rw shown.untouched books;
      }

  pub flush_all-Handles :
      (c : Completion) (p : Processor) → IsAccounted p.assembler → Handles w 0 p (flush_all os c p)
  unfolding flush_all
  flush_all-Handles c p v =
      let (gone, unheld, all) = flush_all_with-empty c p.assembler v in
      emit_from-Handles 0 p (flush_all_with c p.assembler)
        (omega (arith, all w, ap (total (λ (x : PendingEvent). sum_by w x.records)) gone))
        (flush_all_with-IsAccounted c p.assembler v)

  pub emit_expired-Handles :
      (now : ℕ) (p : Processor) → IsAccounted p.assembler → Handles w 0 p (emit_expired os now p)
  unfolding emit_expired
  emit_expired-Handles now p v =
      let d = flush_expired-Delivers now p.assembler v in
      emit_from-Handles 0 p (flush_expired now p.assembler) (d.balance w) d.accounted

  -- One call, and what follows it unless it failed.
  pub and_then-Handles :
      (x y : ℕ) (p : Processor) (o : Outcome) (next : Processor → Outcome)
      → Handles w x p o
      → ((q : Processor) → IsAccounted q.assembler → Handles w y q (next q))
      → Handles w (x + y) p (and_then o next)
  unfolding and_then
  and_then-Handles x y p o next h k = elim (Option-cases o.failure) [
    | inr (e, bad) ↦ simp bad (record {
      no_more = omega (arith, h.no_more);
      no_less = λ good. cc (good, bad);
      accounted = h.accounted;
    })
    | inl good ↦
        let later = k o.processor h.accounted in
        let both = written-append w o.effects (next o.processor).effects in
        simp good (record {
          no_more = omega (arith, h.no_more, later.no_more, both);
          no_less = λ fine. omega (arith, h.no_less good, later.no_less fine, both);
          accounted = later.accounted;
        })
  ]

  -- A line of output that shows no record.
  pub Shows-Handles :
      (p : Processor) (o : Outcome) → Shows w 0 p o → IsAccounted p.assembler → Handles w 0 p o
  Shows-Handles p o h v =
      let kept = ap (held (sum_by w)) h.untouched in
      record {
        no_more = omega (arith, h.at_most, kept);
        no_less = λ good. omega (arith, h.exactly good, kept);
        accounted = rw h.untouched v;
      }

  -- A diagnostic that fails ends the call.
  pub logged-Handles :
      (logs : Bool) (added : ℕ) (p : Processor) (next : Processor → Outcome)
      → IsAccounted p.assembler
      → Handles w added p (next p)
      → Handles w added p (logged logs next p)
  unfolding encoded
  logged-Handles true added p next v h = h
  logged-Handles false added p next v h = record {
    no_more = omega arith;
    no_less = λ good. cc good;
    accounted = v;
  }
