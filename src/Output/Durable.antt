-- ===== src/Output/Durable.antt =====
-- Which files hold lines that were not synced yet, across the writes and commits of
-- internal/output/sink.go.
use aesirguard_audit.Base.{
  ℕ, Bool, true, false, not, List, [], ◌∷◌, ◌++◌, Option, none, some, ◌≡◌, refl, ap, sym, ◌∙◌, inl,
  inr, arith, Bool-cases, Option-cases, All, keep, nat_eq,
}
use mathlib.Core.Option.{some-injective}
use aesirguard_audit.Output.Sink.{
  Sink, Answers, PathState, is_link, is_missing, unreadable, is_file, FileEffect, encode_to,
  sync_of, close_of, SinkOutcome, Opened, opened_file, rejected_file, not_opened, open_managed_file,
  replace_file, reopen_at, reopen_file, reopen_if_rotated, sync_file, commit, commit_unless,
  commit_usable, write, write_usable, write_reopened, encode_event,
}
use aesirguard_audit.Output.Reopening.{sync_due, sync_file-due, remember-failure}
use aesirguard_audit.Output.Delivery.{
  write-written, write-usable, write_usable-succeeds, after_reopening-followed,
}

module _ {E : Type 0} where
  -- Behind effects that succeeded: a line is safe once its file is synced. The caller's writer has no
  -- file.
  unfoldable pub unsynced : List (FileEffect E) → List ℕ → List ℕ
  unsynced [] files = files
  unsynced (encode_to none e ∷ es) files = unsynced es files
  unsynced (encode_to (some f) e ∷ es) files = unsynced es (f ∷ files)
  unsynced (sync_of f ∷ es) files = unsynced es (keep (λ g. not (nat_eq f g)) files)
  unsynced (close_of f ∷ es) files = unsynced es files

  pub unsynced-append :
      (xs ys : List (FileEffect E)) (files : List ℕ)
      → unsynced (xs ++ ys) files ≡ unsynced ys (unsynced xs files)
  unfolding unsynced
  unsynced-append [] ys files = refl
  unsynced-append (encode_to none e ∷ xs) ys files = unsynced-append xs ys files
  unsynced-append (encode_to (some f) e ∷ xs) ys files = unsynced-append xs ys (f ∷ files)
  unsynced-append (sync_of f ∷ xs) ys files = unsynced-append xs ys _
  unsynced-append (close_of f ∷ xs) ys files = unsynced-append xs ys files

-- Only the file that the sink writes to.
abbrev pub OnlyIn : Option ℕ → List ℕ → Type 0
OnlyIn file files = All (λ f. file ≡ some f) files

synced-nothing :
    (f : ℕ) (files : List ℕ) → OnlyIn (some f) files → keep (λ g. not (nat_eq f g)) files ≡ []
unfolding keep
synced-nothing f [] h = refl
synced-nothing f (g ∷ files) (h, hs) =
    ground (arith, some-injective f g h, synced-nothing f files hs)

module _ (E : Type 0) (os : Answers) (s : Sink) where
  -- A call that reports no error leaves unsynced lines in the sink's file only.
  abbrev pub Confines : List ℕ → SinkOutcome E → Type 0
  Confines files o = o.failure ≡ none → OnlyIn o.sink.file (unsynced o.effects files)

  replace_file-Confines :
      (f : ℕ) (x : Opened) (files : List ℕ)
      → OnlyIn (some f) files
      → Confines files (replace_file os s f x)
  unfolding replace_file unsynced
  replace_file-Confines f not_opened files h = λ good. cc good
  replace_file-Confines f (rejected_file g e) files h = λ good. cc good
  replace_file-Confines f (opened_file g) files h = elim (Bool-cases os.syncs_previous) [
    | inl synced ↦ simp synced (λ good. rw (synced-nothing f files h) tt)
    | inr failed ↦ simp failed (λ good. cc good)
  ]

  reopen_at-Confines :
      (f : ℕ) (p : PathState) (files : List ℕ)
      → s.file ≡ some f
      → OnlyIn (some f) files
      → Confines files (reopen_at os s f p)
  unfolding reopen_at unsynced
  reopen_at-Confines f is_link files there h = λ good. cc good
  reopen_at-Confines f (is_file true) files there h = λ _. rw there h
  reopen_at-Confines f (is_file false) files there h =
      replace_file-Confines f (open_managed_file os) files h
  reopen_at-Confines f is_missing files there h =
      replace_file-Confines f (open_managed_file os) files h
  reopen_at-Confines f unreadable files there h = λ good. cc good

  reopen_file-Confines :
      (file : Option ℕ) (files : List ℕ)
      → s.file ≡ file
      → OnlyIn file files
      → Confines files (reopen_file os s file)
  unfolding reopen_file unsynced
  reopen_file-Confines none files there h = λ _. rw there h
  reopen_file-Confines (some f) files there h = elim (Bool-cases s.has_path) [
    | inr unnamed ↦ simp unnamed (λ good. rw there h)
    | inl named ↦ elim (Bool-cases os.stats) [
      | inr failed ↦ simp (named, failed) (λ good. cc good)
      | inl found ↦ simp (named, found) (reopen_at-Confines f os.at_path files there h)
    ]
  ]

  reopen-Confines : (files : List ℕ) → OnlyIn s.file files → Confines files (reopen_if_rotated os s)
  unfolding reopen_if_rotated
  reopen-Confines files h = reopen_file-Confines s.file files refl h

  encoded-OnlyIn :
      (e : E) (sync : Bool) (file : Option ℕ) (files : List ℕ)
      → OnlyIn file files
      → OnlyIn file (unsynced (encode_to file e ∷ sync_due sync file) files)
  unfolding unsynced
  encoded-OnlyIn e true none files h = h
  encoded-OnlyIn e false none files h = h
  encoded-OnlyIn e true (some f) files h = rw (synced-nothing f (f ∷ files) (refl, h)) tt
  encoded-OnlyIn e false (some f) files h = (refl, h)

  pub write-Confines :
      (e : E) (files : List ℕ) → OnlyIn s.file files → Confines files (write os s e)
  unfolding write_usable write_reopened
  write-Confines e files h good =
      let o = reopen_if_rotated {E = E} os s in
      let (usable, effects, still) = write-written os s e good in
      let fine = ap (λ w. w.failure) (sym (write-usable os s e usable)) ∙ good in
      let (whole, encoded_well) = write_usable-succeeds os s e fine in
      let w = write_reopened os o e in
      let reopened =
        (after_reopening-followed o (encode_event os o.sink e)
          (sym (remember-failure w w.failure) ∙ fine)).0 in
      let confined = reopen-Confines files h reopened in
      let same : (write os s e).sink.file ≡ o.sink.file =
        ap (λ x. x.sink.file) (write-usable os s e usable ∙ whole) in
      let sync = (write os s e).sink.sync in
      rw
        (
          effects,
          same,
          unsynced-append o.effects (encode_to o.sink.file e ∷ sync_due sync o.sink.file) files,
        )
        (encoded-OnlyIn e sync o.sink.file (unsynced o.effects files) confined)

  nothing-OnlyIn : (files : List ℕ) → OnlyIn none files → files ≡ []
  nothing-OnlyIn [] h = refl
  nothing-OnlyIn (f ∷ files) (h, hs) = cc h

  sync_due-clears :
      (file : Option ℕ) (files : List ℕ)
      → OnlyIn file files
      → unsynced (sync_due {E = E} true file) files ≡ []
  unfolding unsynced
  sync_due-clears none files h = nothing-OnlyIn files h
  sync_due-clears (some f) files h = synced-nothing f files h

  pub commit-synced :
      (files : List ℕ)
      → OnlyIn s.file files
      → (commit {E = E} os s).failure ≡ none
      → unsynced (commit {E = E} os s).effects files ≡ []
  unfolding commit commit_unless commit_usable
  commit-synced files h good = elim (Option-cases s.failed) [
    | inr (e, bad) ↦ let k : some e ≡ none = simp bad at good in cc k
    | inl usable ↦
        let o = reopen_if_rotated {E = E} os s in
        let next = sync_file {E = E} os o.sink.file in
        let (reopened, effects) = after_reopening-followed o next (simp usable at good) in
        simp usable (
          ap (λ es. unsynced es files)
            (effects ∙ ap (λ es. o.effects ++ es) (sync_file-due os o.sink.file))
          ∙ unsynced-append o.effects (sync_due true o.sink.file) files
          ∙ sync_due-clears o.sink.file (unsynced o.effects files)
              (reopen-Confines files h reopened))
  ]
