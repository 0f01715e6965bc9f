-- ===== src/Output/Landing.antt =====
-- The file in which the line of a `Write` of sink.go lands.
use aesirguard_audit.Base.{
  ℕ, if-cases, Bool, true, false, not, ◌&&◌, List, [], ◌∷◌, ◌++◌, Option, none, some, ◌≡◌, refl, ap,
  sym, ◌∙◌, inl, inr, arith, Bool-cases, Option-cases,
}
use aesirguard_audit.Output.Sink.{
  Sink, Answers, PathState, is_link, is_missing, unreadable, is_file, FileEffect, encode_to,
  sync_of, close_of, SinkOutcome, Opened, opened_file, rejected_file, not_opened, open_managed_file,
  check_managed, replace_file, reopen_at, reopen_file, reopen_if_rotated, write, write_usable,
  write_reopened, encode_event,
}
use aesirguard_audit.Output.Reopening.{sync_due, remember-failure, reopen-IsQuiet}
use aesirguard_audit.Output.Delivery.{
  write-written, write-usable, write_usable-succeeds, after_reopening-followed,
}

-- Does the path name the file that is open?
abbrev pub still_named : PathState → Bool
still_named (is_file same) = same
still_named _ = false

-- The sink was given a path, and it names another file, or none.
abbrev pub is_rotated : Answers → Sink → Bool
is_rotated os s = s.has_path && not (still_named os.at_path)

-- The file that a write is for: behind a rotation the one that was opened in its place.
abbrev pub file_behind : Bool → Option ℕ → Option ℕ → Option ℕ
file_behind rotated none opened = none
file_behind true (some file) opened = opened
file_behind false (some file) opened = some file

abbrev pub current_file : Answers → Sink → Option ℕ
current_file os s = file_behind (is_rotated os s) s.file os.opened

module _ {E : Type 0} where
  -- The rotated file is synced and closed.
  abbrev pub handed_over : Bool → Option ℕ → List (FileEffect E)
  handed_over true (some file) = sync_of file ∷ close_of file ∷ []
  handed_over true none = []
  handed_over false file = []

  handed_over-none : (rotated : Bool) → handed_over rotated none ≡ []
  handed_over-none true = refl
  handed_over-none false = refl

check_managed-same : (os : Answers) (g f : ℕ) → check_managed os g ≡ opened_file f → g ≡ f
unfolding check_managed
check_managed-same os g f h = ground (arith, h)

open_managed_file-opened :
    (os : Answers) (f : ℕ) → open_managed_file os ≡ opened_file f → os.opened ≡ some f
unfolding open_managed_file
open_managed_file-opened os f h = elim (Option-cases os.opened) [
  | inl missing ↦ let k : not_opened ≡ opened_file f = simp missing at h in cc k
  | inr (g, is) ↦
      let k : check_managed os g ≡ opened_file f = simp is at h in
      is ∙ ap some (check_managed-same os g f k)
]

module _ {E : Type 0} where
  -- What a reopening did, if it did not fail.
  abbrev Reopened : Answers → Bool → Option ℕ → SinkOutcome E → Type 0
  Reopened os rotated file o =
      o.failure ≡ none
      → (o.sink.file ≡ file_behind rotated file os.opened) × (o.effects ≡ handed_over rotated file)

  replace_file-Reopened :
      (os : Answers) (s : Sink) (f : ℕ) (x : Opened)
      → ((g : ℕ) → x ≡ opened_file g → os.opened ≡ some g)
      → Reopened os true (some f) (replace_file os s f x)
  unfolding replace_file
  replace_file-Reopened os s f not_opened h = λ good. cc good
  replace_file-Reopened os s f (rejected_file g e) h = λ good. cc good
  replace_file-Reopened os s f (opened_file g) h = elim (Bool-cases os.syncs_previous) [
    | inl synced ↦ rw synced (λ good. (sym (h g refl), refl))
    | inr failed ↦ rw failed (λ good. cc good)
  ]

  reopen_at-Reopened :
      (os : Answers) (s : Sink) (f : ℕ) (p : PathState)
      → s.file ≡ some f
      → Reopened os (not (still_named p)) (some f) (reopen_at os s f p)
  unfolding reopen_at
  reopen_at-Reopened os s f is_link h = λ good. cc good
  reopen_at-Reopened os s f (is_file true) h = λ good. (h, refl)
  reopen_at-Reopened os s f (is_file false) h =
      replace_file-Reopened os s f (open_managed_file os) (open_managed_file-opened os)
  reopen_at-Reopened os s f is_missing h =
      replace_file-Reopened os s f (open_managed_file os) (open_managed_file-opened os)
  reopen_at-Reopened os s f unreadable h = λ good. cc good

  reopen_file-Reopened :
      (os : Answers) (s : Sink) (o : Option ℕ)
      → s.file ≡ o
      → Reopened os (is_rotated os s) o (reopen_file os s o)
  unfolding reopen_file
  reopen_file-Reopened os s none h = λ good. (h, sym (handed_over-none (is_rotated os s)))
  reopen_file-Reopened os s (some f) h =
      let P : SinkOutcome E → Type 0 = Reopened os (is_rotated os s) (some f) in
      if-cases P (not s.has_path) _ _
        (λ nowhere.
          let off : is_rotated os s ≡ false = ground (arith, nowhere) in rw off (λ good. (h, refl)))
        (λ named.
          let on : is_rotated os s ≡ not (still_named os.at_path) = ground (arith, named) in
          rw on (
            if-cases (Reopened os (not (still_named os.at_path)) (some f)) (not os.stats) _ _
              (λ failed good. cc good) (λ found. reopen_at-Reopened os s f os.at_path h)))

  -- A write that reports no error, on any sink and with any answers of the operating system: the
  -- sink had not failed. If the sink has a path and it names another file than the open one, or
  -- none, that one was synced and closed, and the line was handed to the encoder for the file opened
  -- in its place; else for the open file, or for the caller's writer if there is none. If each write
  -- is to be synced and there is a file, a sync of the file of the line came last. The sink goes on
  -- with the file of the line and has not failed.
  pub write-current_file :
      (os : Answers) (s : Sink) (e : E)
      → (write os s e).failure ≡ none
      → (s.failed ≡ none)
        × ((write os s e).effects
            ≡ handed_over (is_rotated os s) s.file
              ++ encode_to (current_file os s) e ∷ sync_due s.sync (current_file os s))
        × ((write os s e).sink.file ≡ current_file os s)
        × ((write os s e).sink.failed ≡ none)
  unfolding write_usable write_reopened reopen_if_rotated
  write-current_file os s e h =
      let o = reopen_if_rotated {E = E} os s in
      let (usable, effects, still) = write-written os s e h in
      let fine = ap (λ w. w.failure) (sym (write-usable os s e usable)) ∙ h in
      let (whole, encoded_well) = write_usable-succeeds os s e fine in
      let w = write_reopened os o e in
      let reopened =
        (after_reopening-followed o (encode_event os o.sink e)
          (sym (remember-failure w w.failure) ∙ fine)).0 in
      let (file, effects_before) = reopen_file-Reopened os s s.file refl reopened in
      let same : (write os s e).sink ≡ o.sink =
        ap (λ x. x.sink) (write-usable os s e usable ∙ whole) in
      let sync : (write os s e).sink.sync ≡ s.sync =
        ap (λ x. x.sync) same ∙ (reopen-IsQuiet os s).2 in
      let lands : (write os s e).sink.file ≡ current_file os s = ap (λ x. x.file) same ∙ file in
      (usable, effects ∙ rw (lands, sync, effects_before) refl, lands, still)
