-- ===== src/Rotation/Panic.antt =====
-- When `Next` of rotation.go indexes an empty queue: `follower.queued[0]` behind `refreshQueue`.
use aesirguard_audit.Base.{
  Bytes, Bool, true, false, List, [], ◌∷◌, Option, none, some, ◌≡◌, ◌≢◌, ◌↔◌, refl, ap, inl, inr,
  arith, Bool-cases, nat_eq, length,
}
use aesirguard_audit.Parser.Fields.{Result, ok, err}
use aesirguard_audit.Collector.Ledger.{FileIdentity}
use aesirguard_audit.Follower.Lines.{Next, got_line, idle, go_on, failed_with, next_source}
use aesirguard_audit.Follower.Opening.{identity_eq}
use aesirguard_audit.Rotation.Candidates.{SourceCandidate, RotationError}
use aesirguard_audit.Rotation.State.{
  RotatingFollower, RotationAnswers, PathAnswer, path_missing, path_unreadable, path_unidentified,
  path_found, panic,
}
use aesirguard_audit.Rotation.Queue.{discovered, refresh_queue}
use aesirguard_audit.Rotation.Next.{
  stable_for_switch, after_switch, when_stable, switch_first, after_refresh, after_queue_refresh,
  tick_or_report, at_path, at_idle, after_read, next, switch_to,
}
use aesirguard_audit.Rotation.Refreshed.{
  back_at_path, Refreshed, refresh_queue-Refreshed, differ, report-ne-panic,
}

-- The path named another file when it was asked, and the open one when the directory was listed.
abbrev pub Races : FileIdentity → Bool → PathAnswer → Type 0
Races open_identity back (path_found i size) = (identity_eq i open_identity ≡ false) × (back ≡ true)
Races open_identity back _ = ⊥

abbrev pub came_back : RotationAnswers → RotatingFollower → Bool
came_back os f = back_at_path f.current.identity (discovered os.listing f)

abbrev pub IsIdle : Next → Type 0
IsIdle idle = Unit
IsIdle _ = ⊥

module _ (hash : Bytes → Bytes) where
  after_switch-ne-panic :
      (cs : List SourceCandidate) (x : RotatingFollower × Option RotationError)
      → (after_switch hash cs x).1 ≢ panic
  unfolding after_switch
  after_switch-ne-panic cs (f, some e) h = report-ne-panic e h
  after_switch-ne-panic cs (f, none) h = cc

  when_stable-ne-panic :
      (os : RotationAnswers) (c : SourceCandidate) (cs : List SourceCandidate)
      (x : RotatingFollower × Result RotationError Bool)
      → (when_stable hash os c cs x).1 ≢ panic
  unfolding when_stable
  when_stable-ne-panic os c cs (f, err e) h = cc
  when_stable-ne-panic os c cs (f, ok false) h = cc
  when_stable-ne-panic os c cs (f, ok true) h = after_switch-ne-panic cs (switch_to hash os c f) h

  switch_first-panic :
      (os : RotationAnswers) (cs : List SourceCandidate) (f : RotatingFollower)
      → ((switch_first hash os cs f).1 ≡ panic) ↔ (nat_eq (length cs) 0 ≡ true)
  unfolding switch_first
  switch_first-panic os [] f = (λ _. refl, λ _. refl)
  switch_first-panic os (c ∷ cs) f = (
    λ h. absurd (when_stable-ne-panic os c cs (stable_for_switch os.size os.now c.identity f) h),
    λ h. ground (arith, h),
  )

  after_refresh-panic :
      (os : RotationAnswers) (back : Bool) (f : RotatingFollower)
      (x : RotatingFollower × Option RotationError)
      → Refreshed back f x
      → ((after_refresh hash os x).1 ≡ panic) ↔ (back ≡ true)
  unfolding after_refresh
  after_refresh-panic os back f (g, some e) r = (λ h. absurd (report-ne-panic e h), λ h. cc)
  after_refresh-panic os back f (g, none) (inl (is, empty, here)) =
      (λ h. is, λ h. (switch_first-panic os g.queued g).1 (ap (λ q. nat_eq (length q) 0) empty))
  after_refresh-panic os back f (g, none) (inr (is, more)) =
      (λ h. absurd (differ _ ((switch_first-panic os g.queued g).0 h) more), λ h. cc)

  after_queue_refresh-ne-panic :
      (os : RotationAnswers) (back : Bool) (f : RotatingFollower)
      (x : RotatingFollower × Option RotationError)
      → Refreshed back f x
      → (after_queue_refresh hash os x).1 ≢ panic
  unfolding after_queue_refresh
  after_queue_refresh-ne-panic os back f (g, some e) r h = report-ne-panic e h
  after_queue_refresh-ne-panic os back f (g, none) (inl (is, empty, here)) h =
      ground (arith, here, h)
  after_queue_refresh-ne-panic os back f (g, none) (inr (is, more)) h =
      elim (Bool-cases g.current_at_path) [
        | inl here ↦ ground (arith, here, h)
        | inr moved ↦
            differ _ ((switch_first-panic os g.queued g).0 (ground (arith, moved, h))) more
      ]

  tick_or_report-ne-panic :
      (x : RotatingFollower × Option RotationError) → (tick_or_report hash x).1 ≢ panic
  tick_or_report-ne-panic (f, some e) h = report-ne-panic e h
  tick_or_report-ne-panic (f, none) h = cc

  at_path-panic :
      (os : RotationAnswers) (x : PathAnswer) (f : RotatingFollower)
      → ((at_path hash os x f).1 ≡ panic) ↔ Races f.current.identity (came_back os f) x
  unfolding at_path
  at_path-panic os path_missing f = (λ h. cc, λ h. absurd h)
  at_path-panic os path_unreadable f = (λ h. cc, λ h. absurd h)
  at_path-panic os path_unidentified f = (λ h. cc, λ h. absurd h)
  at_path-panic os (path_found i size) f =
      let refreshed =
        after_refresh-panic os (came_back os f) f (refresh_queue os.listing f)
          (refresh_queue-Refreshed os.listing f) in
      elim (Bool-cases (identity_eq i f.current.identity)) [
        | inl same ↦ (λ h. ground (arith, same, h), λ h. ground (arith, same, h))
        | inr other ↦ (
          λ h. (other, refreshed.0 (ground (arith, other, h))),
          λ h. let e = refreshed.1 h.1 in ground (arith, other, e),
        )
      ]

  at_idle-panic :
      (os : RotationAnswers) (f : RotatingFollower)
      → ((at_idle hash os f).1 ≡ panic)
        ↔ ((f.current_at_path ≡ true) × Races f.current.identity (came_back os f) os.path)
  unfolding at_idle
  at_idle-panic os f = elim (Bool-cases f.current_at_path) [
    | inl here ↦
        let at = at_path-panic os os.path f in
        (
          λ h. (here, at.0 (ground (arith, here, h))),
          λ h. let e = at.1 h.1 in ground (arith, here, e),
        )
    | inr moved ↦ (
      λ h. absurd (elim (Bool-cases (nat_eq (length f.queued) 0)) [
        | inl empty ↦
            tick_or_report-ne-panic (refresh_queue os.listing f) (ground (arith, moved, empty, h))
        | inr waiting ↦
            after_queue_refresh-ne-panic os (came_back os f) f (refresh_queue os.listing f)
              (refresh_queue-Refreshed os.listing f) (ground (arith, moved, waiting, h))
      ]),
      λ h. absurd (differ _ h.0 moved),
    )
  ]

  after_read-panic :
      (os : RotationAnswers) (f : RotatingFollower) (x : Next)
      → ((after_read hash os f x).1 ≡ panic) ↔ (
          IsIdle x × (f.current_at_path ≡ true) × Races f.current.identity (came_back os f) os.path)
  unfolding after_read
  after_read-panic os f (got_line l) = (λ h. cc, λ h. absurd h.0)
  after_read-panic os f (failed_with e) = (λ h. cc, λ h. absurd h.0)
  after_read-panic os f go_on = (λ h. cc, λ h. absurd h.0)
  after_read-panic os f idle =
      let at = at_idle-panic os f in (λ h. (tt, (at.0 h).0, (at.0 h).1), λ h. at.1 (h.1, h.2))

  -- `Next` indexes an empty queue exactly if it finds nothing to read while the open file counts as the
  -- active one, `os.Stat` finds another file at the input path, and the directory, listed right after,
  -- has the open file there again.
  pub next-panic :
      (os : RotationAnswers) (f : RotatingFollower)
      → ((next hash os f).1 ≡ panic) ↔ (
          let g : RotatingFollower = record f {
            current = (next_source hash os.reads f.current).0;
          } in
          IsIdle (next_source hash os.reads f.current).2
          × (f.current_at_path ≡ true)
          × Races g.current.identity (came_back os g) os.path)
  unfolding next
  next-panic os f =
      let x = next_source hash os.reads f.current in
      after_read-panic os (record f { current = x.0 }) x.2
