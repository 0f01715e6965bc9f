-- ===== src/Output/Reopening.antt =====
-- What reopening and one encoding in sink.go do to the files.
use aesirguard_audit.Base.{
  ℕ, Bool, true, false, not, List, [], ◌∷◌, ◌++◌, Option, none, some, ◌≡◌, refl, ap, ◌∙◌, ◌⊎◌, inl,
  inr, arith, Bool-cases, if◌then◌else◌,
}
use aesirguard_audit.Output.Sink.{
  Sink, SinkError, Answers, PathState, is_link, is_missing, unreadable, is_file, FileEffect,
  encode_to, sync_of, close_of, SinkOutcome, Opened, opened_file, rejected_file, not_opened,
  open_managed_file, replace_file, reopen_at, reopen_file, reopen_if_rotated, sync_file, sync_write,
  encode_event, after_reopening, remember,
}

-- A property of both branches.
pub either-holds :
    {A : Type 0} (P : A → Type 0) (b : Bool) (x y : A) → P x → P y → P (if b then x else y)
either-holds P true x y p q = p
either-holds P false x y p q = q

module _ {E : Type 0} where
  -- The events that were handed to the encoder, in order.
  unfoldable pub encoded : List (FileEffect E) → List E
  encoded [] = []
  encoded (encode_to _ e ∷ es) = e ∷ encoded es
  encoded (sync_of _ ∷ es) = encoded es
  encoded (close_of _ ∷ es) = encoded es

  pub encoded-append : (xs ys : List (FileEffect E)) → encoded (xs ++ ys) ≡ encoded xs ++ encoded ys
  unfolding encoded
  encoded-append [] ys = refl
  encoded-append (encode_to f e ∷ xs) ys = ap (λ zs. e ∷ zs) (encoded-append xs ys)
  encoded-append (sync_of f ∷ xs) ys = encoded-append xs ys
  encoded-append (close_of f ∷ xs) ys = encoded-append xs ys

  -- Reopening writes no line and leaves the mark of a failure alone.
  abbrev pub IsQuiet : Sink → SinkOutcome E → Type 0
  IsQuiet s o = (encoded o.effects ≡ []) × (o.sink.failed ≡ s.failed) × (o.sink.sync ≡ s.sync)

  pub replace_file-IsQuiet :
      (os : Answers) (s : Sink) (f : ℕ) (x : Opened) → IsQuiet s (replace_file os s f x)
  unfolding replace_file encoded
  replace_file-IsQuiet os s f not_opened = (refl, refl, refl)
  replace_file-IsQuiet os s f (rejected_file g e) = (refl, refl, refl)
  replace_file-IsQuiet os s f (opened_file g) = elim (Bool-cases os.syncs_previous) [
    | inl synced ↦ rw synced (refl, refl, refl)
    | inr failed ↦ rw failed (refl, refl, refl)
  ]

  pub reopen_at-IsQuiet :
      (os : Answers) (s : Sink) (f : ℕ) (p : PathState) → IsQuiet s (reopen_at os s f p)
  unfolding reopen_at encoded
  reopen_at-IsQuiet os s f is_link = (refl, refl, refl)
  reopen_at-IsQuiet os s f (is_file true) = (refl, refl, refl)
  reopen_at-IsQuiet os s f (is_file false) = replace_file-IsQuiet os s f (open_managed_file os)
  reopen_at-IsQuiet os s f is_missing = replace_file-IsQuiet os s f (open_managed_file os)
  reopen_at-IsQuiet os s f unreadable = (refl, refl, refl)

  pub reopen_file-IsQuiet :
      (os : Answers) (s : Sink) (o : Option ℕ) → IsQuiet s (reopen_file os s o)
  unfolding reopen_file encoded
  reopen_file-IsQuiet os s none = (refl, refl, refl)
  reopen_file-IsQuiet os s (some f) =
      either-holds (IsQuiet s) (not s.has_path) _ _ (refl, refl, refl)
        (either-holds (IsQuiet s) (not os.stats) _ _ (refl, refl, refl)
          (reopen_at-IsQuiet os s f os.at_path))

  -- The sync of a sink's file, if it has one and asks for it.
  abbrev pub sync_due : Bool → Option ℕ → List (FileEffect E)
  sync_due false f = []
  sync_due true none = []
  sync_due true (some f) = sync_of f ∷ []

  pub sync_due-encoded : (b : Bool) (f : Option ℕ) → encoded (sync_due b f) ≡ []
  unfolding encoded
  sync_due-encoded false f = refl
  sync_due-encoded true none = refl
  sync_due-encoded true (some f) = refl

  pub sync_file-due : (os : Answers) (f : Option ℕ) → (sync_file os f).0 ≡ sync_due true f
  unfolding sync_file
  sync_file-due os none = refl
  sync_file-due os (some f) = refl

  pub sync_write-due : (os : Answers) (s : Sink) → (sync_write os s).0 ≡ sync_due s.sync s.file
  unfolding sync_write
  sync_write-due os s = elim (Bool-cases s.sync) [
    | inl each ↦ simp each (sync_file-due os s.file)
    | inr never ↦ simp never refl
  ]

  pub encode_event-encoded :
      (os : Answers) (s : Sink) (e : E) → encoded (encode_event os s e).0 ≡ e ∷ []
  unfolding encode_event encoded
  encode_event-encoded os s e = elim (Bool-cases os.encodes) [
    | inl done ↦
        simp done
          (ap (λ xs. e ∷ xs) (ap encoded (sync_write-due os s) ∙ sync_due-encoded s.sync s.file))
    | inr failed ↦ simp failed refl
  ]

  pub encode_event-effects :
      (os : Answers) (s : Sink) (e : E)
      → (encode_event os s e).1 ≡ none
      → (encode_event os s e).0 ≡ encode_to s.file e ∷ sync_due s.sync s.file
  unfolding encode_event
  encode_event-effects os s e h = elim (Bool-cases os.encodes) [
    | inl done ↦ simp done (ap (λ xs. encode_to s.file e ∷ xs) (sync_write-due os s))
    | inr failed ↦ ground (arith, h, failed)
  ]

  pub reopen-IsQuiet : (os : Answers) (s : Sink) → IsQuiet s (reopen_if_rotated os s)
  unfolding reopen_if_rotated
  reopen-IsQuiet os s = reopen_file-IsQuiet os s s.file

  -- The encoder's turn behind a reopening: refused, or exactly one line.
  pub after_reopening-encoded :
      (o : SinkOutcome E) (x : Option SinkError) (next : List (FileEffect E) × Option SinkError)
      (e : E)
      → encoded o.effects ≡ []
      → encoded next.0 ≡ e ∷ []
      → (encoded (after_reopening o x next).effects ≡ [])
        ⊎ (encoded (after_reopening o x next).effects ≡ e ∷ [])
  unfolding after_reopening
  after_reopening-encoded o (some x) next e quiet line = inl quiet
  after_reopening-encoded o none (es, f) e quiet line =
      inr (encoded-append o.effects es ∙ ap (λ xs. xs ++ encoded es) quiet ∙ line)

  pub after_reopening-written :
      (o : SinkOutcome E) (x : Option SinkError) (next : List (FileEffect E) × Option SinkError)
      → o.failure ≡ x
      → (after_reopening o x next).failure ≡ none
      → (after_reopening o x next
          ≡ record { sink = o.sink; effects = o.effects ++ next.0; failure = none })
        × (next.1 ≡ none)
  unfolding after_reopening
  after_reopening-written o (some x) next same h = cc
  after_reopening-written o none (es, f) same h =
      (ap (λ g. record { sink = o.sink; effects = o.effects ++ es; failure = g }) h, h)

  pub remember-effects :
      (o : SinkOutcome E) (x : Option SinkError) → (remember o x).effects ≡ o.effects
  unfolding remember
  remember-effects o none = refl
  remember-effects o (some x) = refl

  pub remember-failure :
      (o : SinkOutcome E) (x : Option SinkError) → (remember o x).failure ≡ o.failure
  unfolding remember
  remember-failure o none = refl
  remember-failure o (some x) = refl

  pub remember-failed :
      (o : SinkOutcome E) (x : SinkError)
      → o.failure ≡ some x
      → (remember o o.failure).sink.failed ≡ some x
  unfolding remember
  remember-failed o x h = simp h refl
