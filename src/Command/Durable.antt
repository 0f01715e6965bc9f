-- ===== src/Command/Durable.antt =====
-- The calls of the event processor (cmd/ag-audit/main.go, line_limit.go), and the file that the sink
-- writes to.
use aesirguard_audit.Base.{ℕ, Bool, true, false, List, none, some, ◌≡◌, inl, inr, Option-cases}
use aesirguard_audit.Output.Sink.{Answers, write}
use aesirguard_audit.Output.Durable.{unsynced, unsynced-append, OnlyIn, write-Confines}
use aesirguard_audit.Command.Processor.{
  Written, Processor, Outcome, and_then, logged, emit_canonical,
}
use aesirguard_audit.Command.Shown.{lifted-none}
use aesirguard_audit.Command.Closed.{IsClosed}

-- The sink writes to one file at a time: a call that reports no error leaves unsynced lines in that
-- file only.
abbrev pub Confines : Processor → Outcome → Type 0
Confines p o =
    (files : List ℕ)
    → OnlyIn p.sink.file files
    → o.failure ≡ none
    → OnlyIn o.processor.sink.file (unsynced o.effects files)

abbrev pub AnyReport : Bool → Type 0
AnyReport logs = Unit

module _ (os : ℕ → Answers) where
  Confines-written : (x : Written) (p : Processor) → Confines p (emit_canonical os x p)
  unfolding emit_canonical
  Confines-written x p files h good =
      let fine = lifted-none (write (os p.writes) p.sink x).failure good in
      simp fine (write-Confines Written (os p.writes) p.sink x files h fine)

  Confines-then :
      (p : Processor) (o : Outcome) (next : Processor → Outcome)
      → Confines p o
      → ((q : Processor) → Confines q (next q))
      → Confines p (and_then o next)
  unfolding and_then
  Confines-then p o next first k files h good = elim (Option-cases o.failure) [
    | inr (e, bad) ↦ let x : some e ≡ none = simp bad at good in cc x
    | inl fine ↦
        let later =
          k o.processor (unsynced o.effects files) (first files h fine) (simp fine at good) in
        simp fine (rw (unsynced-append o.effects (next o.processor).effects files) later)
  ]

  Confines-logged :
      (logs : Bool) (p : Processor) (next : Processor → Outcome)
      → Confines p (next p)
      → Confines p (logged logs next p)
  Confines-logged true p next h = h
  Confines-logged false p next h = λ files only good. cc good

  pub Confines-IsClosed : IsClosed os AnyReport Confines
  unfolding unsynced
  Confines-IsClosed = record {
    holds_written = Confines-written;
    holds_returned = λ p files h good. h;
    holds_then = Confines-then;
    holds_logged = λ logs p next l h. Confines-logged logs p next h;
    holds_assembled = λ a p o h. h;
    holds_counted = λ f p o h. h;
  }
