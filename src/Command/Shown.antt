-- ===== src/Command/Shown.antt =====
-- What the event processor (cmd/ag-audit/main.go) writes: the weight of the records that the lines of
-- output show.
use aesirguard_audit.Base.{
  ℕ, ◌+◌, ◌≤◌, Bool, true, false, List, [], ◌∷◌, ◌++◌, Option, none, some, ◌≡◌, refl, ap, ◌∙◌, ◌⊎◌,
  inl, inr, arith, sum_by, sum_by-append, Option-cases, Bool-cases, if◌then◌else◌,
}
use aesirguard_audit.Record.{Record}
use aesirguard_audit.Assembler.State.{AssembledEvent}
use aesirguard_audit.Assembler.Accounts.{emitted}
use aesirguard_audit.Output.Sink.{SinkError, Answers, FileEffect, write}
use aesirguard_audit.Output.Reopening.{encoded, encoded-append}
use aesirguard_audit.Output.Delivery.{write-encoded, written-encoded, write-failed}
use aesirguard_audit.Command.Processor.{
  Written, canonical_event, assembly_exception, parse_failure, line_exception, Processor, Outcome,
  and_then, emit_canonical, emit_exceptions, emit_event, emit, with_counters, count_emitted,
  is_none, lift_failure,
}

-- The weight of the records that a line of output shows.
unfoldable pub weight_of : (Record → ℕ) → Written → ℕ
weight_of w (canonical_event e rendered) = sum_by w e.records
weight_of w (assembly_exception r) = w r
weight_of w (parse_failure text e) = 0
weight_of w (line_exception prefix omitted) = 0

abbrev pub written : (Record → ℕ) → List (FileEffect Written) → ℕ
written w es = sum_by (weight_of w) (encoded es)

-- Lines of output that weigh `amount`, the assembler untouched.
pub record Shows (w : Record → ℕ) (amount : ℕ) (p : Processor) (o : Outcome) : Type 0 where
  pub at_most : written w o.effects ≤ amount
  pub exactly : o.failure ≡ none → written w o.effects ≡ amount
  pub untouched : o.processor.assembler ≡ p.assembler

pub written-append :
    (w : Record → ℕ) (xs ys : List (FileEffect Written))
    → written w (xs ++ ys) ≡ written w xs + written w ys
written-append w xs ys =
    ap (sum_by (weight_of w)) (encoded-append xs ys)
    ∙ sum_by-append (weight_of w) (encoded xs) (encoded ys)

and_then-Shows :
    (w : Record → ℕ) (x y : ℕ) (p : Processor) (o : Outcome) (next : Processor → Outcome)
    → Shows w x p o
    → ((q : Processor) → Shows w y q (next q))
    → Shows w (x + y) p (and_then o next)
unfolding and_then
and_then-Shows w x y p o next h k = elim (Option-cases o.failure) [
  | inr (e, bad) ↦ simp bad (record {
    at_most = omega (arith, h.at_most);
    exactly = λ good. cc (good, bad);
    untouched = h.untouched;
  })
  | inl good ↦
      let later = k o.processor in
      simp good (record {
        at_most = omega (
          arith,
          h.at_most,
          later.at_most,
          written-append w o.effects (next o.processor).effects,
        );
        exactly = λ fine. omega (
          arith,
          h.exactly good,
          later.exactly fine,
          written-append w o.effects (next o.processor).effects,
        );
        untouched = later.untouched ∙ h.untouched;
      })
]

pub lifted-none : (x : Option SinkError) → lift_failure x ≡ none → x ≡ none
lifted-none none h = refl
lifted-none (some e) h = cc

-- At most the line itself goes out.
one_or_none :
    (w : Record → ℕ) (x : Written) (es : List (FileEffect Written))
    → (encoded es ≡ []) ⊎ (encoded es ≡ x ∷ [])
    → written w es ≤ weight_of w x
one_or_none w x es (inl nothing_there) = rw nothing_there (omega arith)
one_or_none w x es (inr there) = rw there (omega arith)

-- Counting leaves the assembler alone.
either_processor :
    (good replay : Bool) (p : Processor)
    → (if good then with_counters (count_emitted replay) p else p).assembler ≡ p.assembler
either_processor true replay p = refl
either_processor false replay p = refl

module _ (os : ℕ → Answers) (w : Record → ℕ) where
  writes_at_most :
      (x : Written) (p : Processor)
      → written w (write (os p.writes) p.sink x).effects ≤ weight_of w x
  unfolding encoded
  writes_at_most x p = elim (Option-cases p.sink.failed) [
    | inr (e, bad) ↦ rw (write-failed (os p.writes) p.sink x e bad) (omega arith)
    | inl usable ↦
        one_or_none w x (write (os p.writes) p.sink x).effects
          (write-encoded (os p.writes) p.sink x usable)
  ]

  pub emit_canonical-Shows :
      (x : Written) (p : Processor) → Shows w (weight_of w x) p (emit_canonical os x p)
  unfolding emit_canonical
  emit_canonical-Shows x p = record {
    at_most = writes_at_most x p;
    exactly = λ good.
        let there =
          written-encoded (os p.writes) p.sink x
            (lifted-none (write (os p.writes) p.sink x).failure good) in
        omega (arith, ap (sum_by (weight_of w)) there);
    untouched = either_processor (is_none (write (os p.writes) p.sink x).failure) p.replay_window _;
  }

  emit_exceptions-Shows :
      (rs : List Record) (p : Processor) → Shows w (sum_by w rs) p (emit_exceptions os rs p)
  unfolding emit_exceptions weight_of encoded
  emit_exceptions-Shows [] p = record {
    at_most = omega arith;
    exactly = λ _. refl;
    untouched = refl;
  }
  emit_exceptions-Shows (r ∷ rs) p =
      and_then-Shows w (w r) (sum_by w rs) p _ _ (emit_canonical-Shows (assembly_exception r) p)
        (emit_exceptions-Shows rs)

  emit_event-Shows :
      (e : AssembledEvent) (p : Processor) → Shows w (sum_by w e.records) p (emit_event os e p)
  unfolding emit_event weight_of
  emit_event-Shows e p = elim (Bool-cases e.exceptional) [
    | inl exceptional ↦ simp exceptional (emit_exceptions-Shows e.records p)
    | inr plain ↦ simp plain (emit_canonical-Shows (canonical_event e p.render_message) p)
  ]

  pub emit-Shows :
      (es : List AssembledEvent) (p : Processor) → Shows w (emitted w es) p (emit os es p)
  unfolding emit encoded
  emit-Shows [] p = record { at_most = omega arith; exactly = λ _. refl; untouched = refl }
  emit-Shows (e ∷ es) p =
      and_then-Shows w (sum_by w e.records) (emitted w es) p _ _ (emit_event-Shows e p)
        (emit-Shows es)
