-- ===== src/Command/Healthy.antt =====
-- The event processor (cmd/ag-audit/main.go) and the sink (internal/output/sink.go) where the file
-- system and the diagnostics do what they are asked.
use aesirguard_audit.Base.{
  ℕ, Bool, true, List, [], Option, none, some, ◌≡◌, refl, Bool-cases, Option-cases, Bytes, All, inl,
  inr, true,
}
use aesirguard_audit.Assembler.State.{Completion}
use aesirguard_audit.Output.Sink.{
  Answers, Sink, write, write_unless, write_usable, write_reopened, remember, after_reopening,
  encode_event, sync_write, sync_file, reopen_if_rotated, reopen_file, reopen_at,
}
use aesirguard_audit.Command.Processor.{
  Written, Processor, Outcome, and_then, emit_canonical, logged,
}
use aesirguard_audit.Command.Closed.{IsClosed, Reports, session-closed}
use aesirguard_audit.Command.Session.{Call, session, IsHealthy}

sync-healthy :
    (E : Type 0) (os : Answers) (s : Sink) → IsHealthy os → (sync_write {E = E} os s).1 ≡ none
unfolding sync_write sync_file
sync-healthy E os s h = elim (Bool-cases s.sync) [
  | inr unsynced ↦ simp unsynced refl
  | inl each ↦ elim (Option-cases s.file) [
    | inl nowhere ↦ simp (each, nowhere) refl
    | inr (file, there) ↦ simp (each, there, h.syncs) refl
  ]
]

module _ {E : Type 0} where
  reopen-healthy :
      (os : Answers) (s : Sink) (file : Option ℕ)
      → IsHealthy os
      → reopen_file {E = E} os s file ≡ record { sink = s; effects = []; failure = none }
  unfolding reopen_file reopen_at
  reopen-healthy os s none h = refl
  reopen-healthy os s (some file) h = elim (Bool-cases s.has_path) [
    | inl named ↦ simp (named, h.stats, h.in_place) refl
    | inr unnamed ↦ simp unnamed refl
  ]

  write-healthy :
      (os : Answers) (s : Sink) (e : E)
      → IsHealthy os
      → s.failed ≡ none
      → ((write os s e).failure ≡ none) × ((write os s e).sink.failed ≡ none)
  unfolding write write_unless write_usable write_reopened reopen_if_rotated encode_event
      after_reopening remember
  write-healthy os s e h usable =
      simp (usable, reopen-healthy os s s.file h, h.encodes, sync-healthy E os s h) (refl, refl)

-- From a usable sink the call comes to its end without an error, and the sink stays usable.
abbrev pub Succeeds : Processor → Outcome → Type 0
Succeeds p o = p.sink.failed ≡ none → (o.failure ≡ none) × (o.processor.sink.failed ≡ none)

abbrev pub IsLogged : Bool → Type 0
IsLogged logs = logs ≡ true

module _ (os : ℕ → Answers) (healthy : (n : ℕ) → IsHealthy (os n)) where
  Succeeds-written : (x : Written) (p : Processor) → Succeeds p (emit_canonical os x p)
  unfolding emit_canonical
  Succeeds-written x p h =
      let (good, usable) = write-healthy (os p.writes) p.sink x (healthy p.writes) h in
      simp good (refl, usable)

  Succeeds-then :
      (p : Processor) (o : Outcome) (next : Processor → Outcome)
      → Succeeds p o
      → ((q : Processor) → Succeeds q (next q))
      → Succeeds p (and_then o next)
  unfolding and_then
  Succeeds-then p o next first k h =
      let (good, usable) = first h in simp good (k o.processor usable)

  Succeeds-logged :
      (logs : Bool) (p : Processor) (next : Processor → Outcome)
      → logs ≡ true
      → Succeeds p (next p)
      → Succeeds p (logged logs next p)
  Succeeds-logged logs p next l h = simp l h

  Succeeds-IsClosed : IsClosed os IsLogged Succeeds
  Succeeds-IsClosed = record {
    holds_written = Succeeds-written;
    holds_returned = λ p h. (refl, h);
    holds_then = Succeeds-then;
    holds_logged = Succeeds-logged;
    holds_assembled = λ a p o h. h;
    holds_counted = λ f p o h. h;
  }

  -- Where every call on files succeeds with the output file in place, and every diagnostic is
  -- written, any sequence of `addSourceLine`, `rejectLine`, the emission of expired events and
  -- `flushAll` on a processor with a usable sink, then a last `flushAll`, whatever the lines hold and
  -- whatever the limits of the assembler are, comes to its end without an error.
  pub session-Succeeds :
      (normalize : Bytes → Bytes) (xs : List Call) (c : Completion) (p : Processor)
      → All (Reports IsLogged) xs
      → p.sink.failed ≡ none
      → (session os normalize xs c p).failure ≡ none
  session-Succeeds normalize xs c p l h =
      (session-closed os IsLogged Succeeds Succeeds-IsClosed normalize xs c p l h).0
