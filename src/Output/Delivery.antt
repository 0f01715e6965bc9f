-- ===== src/Output/Delivery.antt =====
-- What `Write` of sink.go promises about the lines that reach the files.
use aesirguard_audit.Base.{
  List, [], ◌∷◌, ◌++◌, Option, none, some, ◌≡◌, refl, ap, sym, ◌∙◌, ◌⊎◌, inl, inr, Option-cases,
}
use aesirguard_audit.Output.Sink.{
  Sink, SinkError, Answers, FileEffect, encode_to, reopen_if_rotated, encode_event, after_reopening,
  SinkOutcome, write_reopened, remember, write_usable, write_unless, write,
}
use aesirguard_audit.Output.Reopening.{
  encoded, encoded-append, sync_due, sync_due-encoded, encode_event-encoded, encode_event-effects,
  reopen-IsQuiet, after_reopening-encoded, after_reopening-written, remember-effects,
  remember-failure, remember-failed,
}

module _ {E : Type 0} where
  pub write-usable :
      (os : Answers) (s : Sink) (e : E) → s.failed ≡ none → write os s e ≡ write_usable os s e
  unfolding write write_unless
  write-usable os s e h = rw h refl

  -- A failure is final: no later write reaches a file, and each reports it.
  pub write-failed :
      (os : Answers) (s : Sink) (e : E) (x : SinkError)
      → s.failed ≡ some x
      → write os s e ≡ record { sink = s; effects = []; failure = some x }
  unfolding write write_unless
  write-failed os s e x h = simp h refl

  -- One write on a usable sink: at most one line, and the failure is remembered.
  write_usable-encoded :
      (os : Answers) (s : Sink) (e : E)
      → (encoded (write_usable os s e).effects ≡ [])
        ⊎ (encoded (write_usable os s e).effects ≡ e ∷ [])
  unfolding write_usable write_reopened
  write_usable-encoded os s e =
      let o = reopen_if_rotated os s in
      rw (remember-effects (write_reopened os o e) (write_reopened os o e).failure) (
        after_reopening-encoded o o.failure (encode_event os o.sink e) e (reopen-IsQuiet os s).0
          (encode_event-encoded os o.sink e))

  write_usable-failed :
      (os : Answers) (s : Sink) (e : E) (x : SinkError)
      → (write_usable os s e).failure ≡ some x
      → (write_usable os s e).sink.failed ≡ some x
  unfolding write_usable
  write_usable-failed os s e x h =
      let w = write_reopened os (reopen_if_rotated os s) e in
      remember-failed w x (sym (remember-failure w w.failure) ∙ h)

  pub write_usable-succeeds :
      (os : Answers) (s : Sink) (e : E)
      → (write_usable os s e).failure ≡ none
      → (write_usable os s e ≡ record {
        sink = (reopen_if_rotated {E = E} os s).sink;
        effects =
            (reopen_if_rotated os s).effects
            ++ (encode_event os (reopen_if_rotated {E = E} os s).sink e).0;
        failure = none;
      })
        × ((encode_event os (reopen_if_rotated {E = E} os s).sink e).1 ≡ none)
  unfolding write_usable write_reopened remember
  write_usable-succeeds os s e h =
      let o = reopen_if_rotated os s in
      let next = encode_event os o.sink e in
      let w = after_reopening o o.failure next in
      let (is, good) =
        after_reopening-written o o.failure next refl (sym (remember-failure w w.failure) ∙ h) in
      (ap (λ x. remember x x.failure) is, good)

  -- The effects of a reopening, and what follows it where that did not fail.
  pub after_reopening-followed :
      (o : SinkOutcome E) (next : List (FileEffect E) × Option SinkError)
      → (after_reopening o o.failure next).failure ≡ none
      → (o.failure ≡ none) × ((after_reopening o o.failure next).effects ≡ o.effects ++ next.0)
  unfolding after_reopening
  after_reopening-followed o next h = elim (Option-cases o.failure) [
    | inl good ↦ simp good (refl, refl)
    | inr (e, bad) ↦ let k : some e ≡ none = simp bad at h in cc k
  ]

  -- A write that reports no error, behind its reopening.
  pub write-written :
      (os : Answers) (s : Sink) (e : E)
      → (write os s e).failure ≡ none
      → (s.failed ≡ none)
        × ((write os s e).effects
            ≡ (reopen_if_rotated os s).effects
              ++ encode_to (write os s e).sink.file e
                ∷ sync_due (write os s e).sink.sync (write os s e).sink.file)
        × ((write os s e).sink.failed ≡ none)
  write-written os s e h = elim (Option-cases s.failed) [
    | inr (x, bad) ↦ cc (write-failed os s e x bad, h)
    | inl usable ↦
        let o = reopen_if_rotated os s in
        let (whole, good) =
          write_usable-succeeds os s e
            (ap (λ w. w.failure) (sym (write-usable os s e usable)) ∙ h) in
        rw (write-usable os s e usable, whole)
          (
            usable,
            ap (λ xs. o.effects ++ xs) (encode_event-effects os o.sink e good),
            (reopen-IsQuiet os s).1 ∙ usable,
          )
  ]

  -- The events of a run whose writes reported no error.
  unfoldable pub acknowledge : Option SinkError → E → List E → List E
  acknowledge none e es = e ∷ es
  acknowledge (some _) e es = es

  -- A sequence of writes: the effects, and the events acknowledged.
  unfoldable pub run_writes : List (Answers × E) → Sink → List (FileEffect E) × List E
  run_writes [] s = ([], [])
  run_writes ((os, e) ∷ ws) s =
      let o = write os s e in
      let rest = run_writes ws o.sink in (o.effects ++ rest.0, acknowledge o.failure e rest.1)

  run_writes-failed :
      (ws : List (Answers × E)) (s : Sink) (x : SinkError)
      → s.failed ≡ some x
      → run_writes ws s ≡ ([], [])
  unfolding run_writes acknowledge
  run_writes-failed [] s x h = refl
  run_writes-failed ((os, e) ∷ ws) s x h = rw (write-failed os s e x h) (run_writes-failed ws s x h)

  -- The lines in the files are the events acknowledged, and at most one more, whose write failed.
  abbrev pub IsExact : List (FileEffect E) → List E → Type 0
  IsExact effects acked =
      (encoded effects ≡ acked) ⊎ ((e : E) × (encoded effects ≡ acked ++ e ∷ []))

  IsExact-cons :
      (xs ys : List (FileEffect E)) (e : E) (acked : List E)
      → encoded xs ≡ e ∷ []
      → IsExact ys acked
      → IsExact (xs ++ ys) (e ∷ acked)
  IsExact-cons xs ys e acked h (inl same) =
      inl (encoded-append xs ys ∙ ap (λ zs. zs ++ encoded ys) h ∙ ap (λ zs. e ∷ zs) same)
  IsExact-cons xs ys e acked h (inr (last, more)) =
      inr (last, encoded-append xs ys ∙ ap (λ zs. zs ++ encoded ys) h ∙ ap (λ zs. e ∷ zs) more)

  IsExact-last :
      (xs : List (FileEffect E)) (e : E)
      → (encoded xs ≡ []) ⊎ (encoded xs ≡ e ∷ [])
      → IsExact (xs ++ []) []
  unfolding encoded
  IsExact-last xs e (inl nothing_there) =
      inl (encoded-append xs [] ∙ ap (λ zs. zs ++ encoded []) nothing_there ∙ refl)
  IsExact-last xs e (inr one_line) =
      inr (e, encoded-append xs [] ∙ ap (λ zs. zs ++ encoded []) one_line ∙ refl)

  write-failure :
      (os : Answers) (s : Sink) (e : E) (x : SinkError)
      → s.failed ≡ none
      → (write os s e).failure ≡ some x
      → (write os s e).sink.failed ≡ some x
  write-failure os s e x usable h =
      rw (write-usable os s e usable)
        (write_usable-failed os s e x (ap (λ w. w.failure) (sym (write-usable os s e usable)) ∙ h))

  pub write-encoded :
      (os : Answers) (s : Sink) (e : E)
      → s.failed ≡ none
      → (encoded (write os s e).effects ≡ []) ⊎ (encoded (write os s e).effects ≡ e ∷ [])
  write-encoded os s e usable = rw (write-usable os s e usable) (write_usable-encoded os s e)

  pub written-encoded :
      (os : Answers) (s : Sink) (e : E)
      → (write os s e).failure ≡ none
      → encoded (write os s e).effects ≡ e ∷ []
  unfolding encoded
  written-encoded os s e h =
      let o = reopen_if_rotated os s in
      let w = write os s e in
      ap encoded (write-written os s e h).1
      ∙ encoded-append o.effects (encode_to w.sink.file e ∷ sync_due w.sink.sync w.sink.file)
      ∙ ap (λ zs. zs ++ e ∷ encoded (sync_due w.sink.sync w.sink.file)) (reopen-IsQuiet os s).0
      ∙ ap (λ zs. e ∷ zs) (sync_due-encoded w.sink.sync w.sink.file)

  -- Any sequence of writes, with any answers of the operating system: the lines handed to the
  -- encoder are, in order and each once, the events whose writes reported no error, and at most one
  -- more at the end, the event of the write that failed.
  pub run_writes-IsExact :
      (ws : List (Answers × E)) (s : Sink) → IsExact (run_writes ws s).0 (run_writes ws s).1
  unfolding run_writes encoded acknowledge
  run_writes-IsExact [] s = inl refl
  run_writes-IsExact ((os, e) ∷ ws) s = elim (Option-cases s.failed) [
    | inr (x, bad) ↦ rw (write-failed os s e x bad, run_writes-failed ws s x bad) (inl refl)
    | inl usable ↦ elim (Option-cases (write os s e).failure) [
      | inl good ↦ simp good (
          IsExact-cons (write os s e).effects _ e _ (written-encoded os s e good)
            (run_writes-IsExact ws (write os s e).sink))
      | inr (x, bad) ↦
          simp (bad, run_writes-failed ws (write os s e).sink x (write-failure os s e x usable bad))
            (IsExact-last (write os s e).effects e (write-encoded os s e usable))
    ]
  ]
