-- ===== src/Rotation/Aligned.antt =====
-- `CompletePosition` of rotation.go over calls of `Next`: where a restart resumes.
use aesirguard_audit.Base.{
  Bool, true, false, ◌&&◌, not, List, [], ◌∷◌, Option, none, some, Bytes, ◌≡◌, refl, sym, ◌∙◌, inl,
  inr, arith, Bool-cases, nat_eq, length,
}
use mathlib.Core.Path.{subst}
use aesirguard_audit.Parser.Fields.{Result, ok, err, ◌>>=◌}
use aesirguard_audit.Follower.Lines.{
  FollowerOptions, FileFollower, Next, got_line, idle, go_on, failed_with, next_source,
  transfer_partial_to,
}
use aesirguard_audit.Follower.Opening.{
  OpenAnswer, OpenError, signed_nat, identity_eq, open_file_follower_at,
}
use aesirguard_audit.Follower.Resuming.{open_file_follower_at-new}
use aesirguard_audit.Rotation.Candidates.{SourceCandidate, RotationError}
use aesirguard_audit.Rotation.Position.{Moves, next_source-Moves}
use aesirguard_audit.Rotation.State.{
  RotatingFollower, RotationAnswers, PathAnswer, path_missing, path_unreadable, path_unidentified,
  path_found,
}
use aesirguard_audit.Rotation.Next.{
  find_candidate, next_generation, lift_open, switch_opened, open_candidate, or_resolved, switch_to,
  after_switch, when_stable, switch_first, after_refresh, after_queue_refresh, tick_or_report,
  at_path, at_idle, after_read, next,
}
use aesirguard_audit.Rotation.Invariant.{
  IsAligned, IsAligned-of, refresh_queue-IsAligned, stable_for_switch-IsAligned,
}
use aesirguard_audit.Rotation.Entering.{IsFresh, same_identity, transfer_to-IsAligned}

abbrev OpensFresh :
    RotatingFollower → Result RotationError (SourceCandidate × FileFollower) → Type 0
OpensFresh f (err e) = Unit
OpensFresh f (ok (c, g)) = IsFresh f c g

switch_opened-IsAligned :
    (closes : Bool) (f : RotatingFollower)
    (x : Result RotationError (SourceCandidate × FileFollower))
    → IsAligned f
    → OpensFresh f x
    → IsAligned (switch_opened closes f x).0
unfolding switch_opened
switch_opened-IsAligned closes f (err e) v w = v
switch_opened-IsAligned closes f (ok (c, g)) v w =
    transfer_to-IsAligned closes c f g (transfer_partial_to f.current g) refl v w

module _ (hash : Bytes → Bytes) where
  opened-OpensFresh :
      (o : FollowerOptions) (os : OpenAnswer) (f : RotatingFollower) (c : SourceCandidate)
      (x : Result OpenError FileFollower)
      → open_file_follower_at hash
          (record o { option_generation = next_generation f })
          os
          (signed_nat 0)
          (some c.identity)
          none
        ≡ x
      → OpensFresh f (lift_open x >>= λ g. ok (c, g))
  opened-OpensFresh o os f c (err e) h = tt
  opened-OpensFresh o os f c (ok g) h =
      let (i, anchor, made, same) =
        open_file_follower_at-new hash (record o { option_generation = next_generation f }) os
          (signed_nat 0) (some c.identity) none g h in
      let is = same_identity i c.identity (ground (arith, same)) in
      subst (IsFresh f c) made (record {
        generation = refl;
        start = λ k. record {
          at_identity = is k;
          at_generation = next_generation f;
          at_anchor = anchor;
          at_offset = 0;
        };
      })

  open_candidate-OpensFresh :
      (os : OpenAnswer) (f : RotatingFollower) (c : SourceCandidate)
      → OpensFresh f (open_candidate hash os f c)
  unfolding open_candidate
  open_candidate-OpensFresh os f c = opened-OpensFresh f.options os f c _ refl

  resolved-OpensFresh :
      (os : OpenAnswer) (f : RotatingFollower) (x : Result RotationError SourceCandidate)
      → OpensFresh f (x >>= open_candidate hash os f)
  resolved-OpensFresh os f (err e) = tt
  resolved-OpensFresh os f (ok c) = open_candidate-OpensFresh os f c

  or_resolved-OpensFresh :
      (os : RotationAnswers) (f : RotatingFollower) (c : SourceCandidate)
      (x : Result RotationError (SourceCandidate × FileFollower))
      → OpensFresh f x
      → OpensFresh f (or_resolved hash os f c x)
  unfolding or_resolved
  or_resolved-OpensFresh os f c (ok x) w = w
  or_resolved-OpensFresh os f c (err e) w =
      resolved-OpensFresh os.opened_again f (find_candidate os.listing_again c.identity f)

  switch_to-IsAligned :
      (os : RotationAnswers) (c : SourceCandidate) (f : RotatingFollower)
      → IsAligned f
      → IsAligned (switch_to hash os c f).0
  unfolding switch_to
  switch_to-IsAligned os c f v =
      switch_opened-IsAligned os.closes f _ v
        (or_resolved-OpensFresh os f c _ (open_candidate-OpensFresh os.opened f c))

  after_switch-IsAligned :
      (cs : List SourceCandidate) (x : RotatingFollower × Option RotationError)
      → IsAligned x.0
      → IsAligned (after_switch hash cs x).0
  unfolding after_switch
  after_switch-IsAligned cs (f, some e) v = v
  after_switch-IsAligned cs (f, none) v = IsAligned-of f _ refl refl refl v

  when_stable-IsAligned :
      (os : RotationAnswers) (c : SourceCandidate) (cs : List SourceCandidate)
      (x : RotatingFollower × Result RotationError Bool)
      → IsAligned x.0
      → IsAligned (when_stable hash os c cs x).0
  unfolding when_stable
  when_stable-IsAligned os c cs (f, err e) v = v
  when_stable-IsAligned os c cs (f, ok false) v = v
  when_stable-IsAligned os c cs (f, ok true) v =
      after_switch-IsAligned cs _ (switch_to-IsAligned os c f v)

  switch_first-IsAligned :
      (os : RotationAnswers) (cs : List SourceCandidate) (f : RotatingFollower)
      → IsAligned f
      → IsAligned (switch_first hash os cs f).0
  unfolding switch_first
  switch_first-IsAligned os [] f v = v
  switch_first-IsAligned os (c ∷ cs) f v =
      when_stable-IsAligned os c cs _ (stable_for_switch-IsAligned os.size os.now c.identity f v)

  after_refresh-IsAligned :
      (os : RotationAnswers) (x : RotatingFollower × Option RotationError)
      → IsAligned x.0
      → IsAligned (after_refresh hash os x).0
  unfolding after_refresh
  after_refresh-IsAligned os (f, some e) v = v
  after_refresh-IsAligned os (f, none) v = switch_first-IsAligned os f.queued f v

  after_queue_refresh-IsAligned :
      (os : RotationAnswers) (x : RotatingFollower × Option RotationError)
      → IsAligned x.0
      → IsAligned (after_queue_refresh hash os x).0
  unfolding after_queue_refresh
  after_queue_refresh-IsAligned os (f, some e) v = v
  after_queue_refresh-IsAligned os (f, none) v = elim (Bool-cases f.current_at_path) [
    | inl back ↦ simp back v
    | inr moved ↦ simp moved (switch_first-IsAligned os f.queued f v)
  ]

  tick_or_report-IsAligned :
      (x : RotatingFollower × Option RotationError)
      → IsAligned x.0
      → IsAligned (tick_or_report hash x).0
  tick_or_report-IsAligned (f, some e) v = v
  tick_or_report-IsAligned (f, none) v = v

  at_path-IsAligned :
      (os : RotationAnswers) (x : PathAnswer) (f : RotatingFollower)
      → IsAligned f
      → IsAligned (at_path hash os x f).0
  unfolding at_path
  at_path-IsAligned os path_missing f v = v
  at_path-IsAligned os path_unreadable f v = v
  at_path-IsAligned os path_unidentified f v = v
  at_path-IsAligned os (path_found i size) f v =
      elim (Bool-cases (identity_eq i f.current.identity)) [
        | inl same ↦ rw same (IsAligned-of f _ refl refl refl v)
        | inr other ↦
            rw other (after_refresh-IsAligned os _ (refresh_queue-IsAligned os.listing f v))
      ]

  at_idle-IsAligned :
      (os : RotationAnswers) (f : RotatingFollower) → IsAligned f → IsAligned (at_idle hash os f).0
  unfolding at_idle
  at_idle-IsAligned os f v =
      elim (Bool-cases (not (nat_eq (length f.queued) 0) && not f.current_at_path)) [
        | inl waiting ↦
            simp waiting
              (after_queue_refresh-IsAligned os _ (refresh_queue-IsAligned os.listing f v))
        | inr free ↦ elim (Bool-cases f.current_at_path) [
          | inl here ↦ simp free (simp here (at_path-IsAligned os os.path f v))
          | inr moved ↦
              simp free
                (simp moved (tick_or_report-IsAligned _ (refresh_queue-IsAligned os.listing f v)))
        ]
      ]

  after_read-IsAligned :
      (os : RotationAnswers) (f : RotatingFollower) (g : FileFollower) (x : Next)
      → IsAligned f
      → Moves f.current g x
      → IsAligned (after_read hash os (record f { current = g }) x).0
  unfolding after_read
  after_read-IsAligned os f g (got_line l) v m = record {
    counted = m.same_generation ∙ v.counted;
    at_start = sym m.start;
  }
  after_read-IsAligned os f g idle v m =
      at_idle-IsAligned os (record f { current = g })
        (record { counted = m.same_generation ∙ v.counted; at_start = v.at_start ∙ sym m.start })
  after_read-IsAligned os f g go_on v m = record {
    counted = m.same_generation ∙ v.counted;
    at_start = v.at_start ∙ sym m.start;
  }
  after_read-IsAligned os f g (failed_with e) v m = record {
    counted = m.same_generation ∙ v.counted;
    at_start = v.at_start ∙ sym m.start;
  }

  -- `Next`, whatever the file, the directory, the path and the clock answer, and whatever it returns:
  -- if `CompletePosition` is where the open line starts and `RotationCount` is the number of the open
  -- generation, they are so afterwards, also when the open line began in an earlier generation.
  pub next-IsAligned :
      (os : RotationAnswers) (f : RotatingFollower) → IsAligned f → IsAligned (next hash os f).0
  unfolding next
  next-IsAligned os f v =
      let x = next_source hash os.reads f.current in
      after_read-IsAligned os f x.0 x.2 v (next_source-Moves hash os.reads f.current)
