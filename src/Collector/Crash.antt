-- ===== src/Collector/Crash.antt =====
-- A crash during `commit` of gap_recovery.go: what a restart finds, whichever boundaries were crossed.
use aesirguard_audit.Base.{
  Bool, true, false, List, [], ◌∷◌, Option, none, some, bytes_equality, ◌≡◌, refl, ◌⊎◌, inl, inr,
  arith, Bool-cases, if◌then◌else◌, beq_refl,
}
use aesirguard_audit.Collector.Checkpoint.{Checkpoint}
use aesirguard_audit.Collector.Ledger.{GapIncident, GapLedger, last_incident}
use aesirguard_audit.Collector.Recovery.{
  GapRecovery, Effect, log_gap, flush_pending, commit_sink, log_resumed, save_checkpoint,
  save_ledger, Outcome, Pending, nothing_pending, resume_at, pending, pending_incident,
  same_checkpoint, RecoveryError, log_failed, flush_failed, sink_failed, checkpoint_failed,
  complete_failed, map_last, complete, attempt, complete_ledger, move_checkpoint, commit_incident,
  commit_last, commit,
}

-- What outlives a crash: the files, and whether the pending events went to the output and were
-- committed there.
pub record Durable : Type 0 where
  pub checkpoint : Option Checkpoint
  pub ledger : Option GapLedger
  pub flushed : Bool
  pub committed : Bool

-- `SaveCheckpoint` stamps UpdatedAt anew, which no comparison reads; the checkpoint is kept as given.
unfoldable pub apply : Effect → Durable → Durable
apply log_gap d = d
apply flush_pending d = record d { flushed = true }
apply commit_sink d = record d { committed = d.flushed }
apply log_resumed d = d
apply (save_checkpoint c) d = record d { checkpoint = some c }
apply (save_ledger l) d = record d { ledger = some l }

-- A predicate before, between and behind the effects.
abbrev pub AtEachPoint : (Durable → Type 0) → List Effect → Durable → Type 0
AtEachPoint P [] d = P d
AtEachPoint P (e ∷ es) d = P d × AtEachPoint P es (apply e d)

-- What a restart decides.
abbrev pub decision : Durable → Pending
decision d = pending d.checkpoint d.ledger

-- Either the restart resumes at the prepared position, and the checkpoint has not moved unless the
-- output was committed; or the recovery is over, with the output committed and the checkpoint moved.
abbrev pub Recovers : GapIncident → Bool → Durable → Type 0
Recovers incident has_path d =
    ((decision d ≡ resume_at incident.resume)
      × ((d.checkpoint ≡ incident.previous) ⊎ (d.committed ≡ true)))
    ⊎ ((decision d ≡ nothing_pending)
        × (d.committed ≡ true)
        × (d.checkpoint ≡ (if has_path then some incident.resume else incident.previous)))

attempt-AtEachPoint :
    (P : Durable → Type 0) (succeeds : Effect → Bool) (e : Effect) (failed : RecoveryError)
    (r : GapRecovery) (next : Outcome) (d : Durable)
    → P d
    → P (apply e d)
    → AtEachPoint P next.effects (apply e d)
    → AtEachPoint P (attempt succeeds e failed r next).effects d
unfolding attempt
attempt-AtEachPoint P succeeds e failed r next d before after rest =
    elim (Bool-cases (succeeds e)) [
      | inl done ↦ rw done (before, rest)
      | inr not_done ↦ rw not_done (before, after)
    ]

same_checkpoint_refl : (c : Option Checkpoint) → same_checkpoint c c ≡ true
unfolding same_checkpoint
same_checkpoint_refl none = refl
same_checkpoint_refl (some c) = ground (arith, beq_refl c.input_path, beq_refl c.anchor)

last_incident-map_last :
    (f : GapIncident → GapIncident) (gs : List GapIncident) (g : GapIncident)
    → last_incident gs ≡ some g
    → last_incident (map_last f gs) ≡ some (f g)
unfolding last_incident map_last
last_incident-map_last f [] g h = ground arith
last_incident-map_last f (x ∷ []) g h = ground (arith, h)
last_incident-map_last f (x ∷ y ∷ []) g h = ground (arith, h)
last_incident-map_last f (x ∷ y ∷ z ∷ gs) g h = last_incident-map_last f (y ∷ z ∷ gs) g h

module _ (l : GapLedger) (incident : GapIncident)
    (is_last : last_incident l.incidents ≡ some incident) where
  -- While the incident is prepared, either checkpoint leads to its position.
  resumes :
      (c : Option Checkpoint)
      → incident.prepared ≡ true
      → (c ≡ incident.previous) ⊎ (c ≡ some incident.resume)
      → pending c (some l) ≡ resume_at incident.resume
  unfolding pending pending_incident
  resumes c p (inl before) = rw (is_last, p, before, same_checkpoint_refl incident.previous) refl
  resumes c p (inr after) =
      rw (is_last, p, after) (ground (arith, same_checkpoint_refl (some incident.resume)))

  over :
      (c : Option Checkpoint)
      → pending c (some (record l { incidents = map_last complete l.incidents })) ≡ nothing_pending
  unfolding pending pending_incident complete
  over c = rw (last_incident-map_last complete l.incidents incident is_last) refl

  module _ (succeeds : Effect → Bool) (r : GapRecovery) (p : incident.prepared ≡ true) where
    completed-Recovers :
        (has_path : Bool) (d : Durable)
        → d.ledger ≡ some l
        → d.committed ≡ true
        → d.checkpoint ≡ (if has_path then some incident.resume else incident.previous)
        → Recovers incident has_path d
        → AtEachPoint (Recovers incident has_path) (complete_ledger succeeds l r).effects d
    unfolding complete_ledger apply
    completed-Recovers has_path d hl hc hk now =
        let P = Recovers incident has_path in
        let done = record l { incidents = map_last complete l.incidents } in
        let finished : P (apply (save_ledger done) d) = inr (over d.checkpoint, hc, hk) in
        attempt-AtEachPoint P succeeds (save_ledger done) complete_failed _ _ d now finished (
          attempt-AtEachPoint P succeeds log_resumed log_failed _ _ (apply (save_ledger done) d)
            finished finished finished)

    moved-Recovers :
        (has_path : Bool) (d : Durable)
        → d.ledger ≡ some l
        → d.committed ≡ true
        → d.checkpoint ≡ incident.previous
        → AtEachPoint
            (Recovers incident has_path)
            (move_checkpoint succeeds has_path incident.resume r
              (complete_ledger succeeds l r)).effects
            d
    unfolding move_checkpoint apply
    moved-Recovers false d hl hc hk =
        completed-Recovers false d hl hc hk (inl (rw hl (resumes d.checkpoint p (inl hk)), inr hc))
    moved-Recovers true d hl hc hk =
        let P = Recovers incident true in
        let e = save_checkpoint incident.resume in
        let after : P (apply e d) =
          inl (rw hl (resumes (some incident.resume) p (inr refl)), inr hc) in
        attempt-AtEachPoint P succeeds e checkpoint_failed r (complete_ledger succeeds l r) d
          (inl (rw hl (resumes d.checkpoint p (inl hk)), inr hc)) after
          (completed-Recovers true (apply e d) hl hc refl after)

    commit_incident-Recovers :
        (d : Durable)
        → d.ledger ≡ some l
        → d.checkpoint ≡ incident.previous
        → AtEachPoint
            (Recovers incident r.has_checkpoint_path)
            (commit_incident succeeds l incident r).effects
            d
    unfolding commit_incident apply
    commit_incident-Recovers d hl hk =
        let P = Recovers incident r.has_checkpoint_path in
        let early : (x : Durable) → x.ledger ≡ some l → x.checkpoint ≡ incident.previous → P x =
          λ x xl xk. inl (rw xl (resumes x.checkpoint p (inl xk)), inl xk) in
        let d1 = apply flush_pending d in
        let d2 = apply commit_sink d1 in
        attempt-AtEachPoint P succeeds log_gap log_failed r _ d (early d hl hk) (early d hl hk) (
          attempt-AtEachPoint P succeeds flush_pending flush_failed r _ d (early d hl hk)
            (early d1 hl hk)
            (attempt-AtEachPoint P succeeds commit_sink sink_failed r _ d1 (early d1 hl hk)
              (early d2 hl hk) (moved-Recovers r.has_checkpoint_path d2 hl refl hk)))

-- A crash at any point of `commit`. The ledger holds a prepared incident last, the checkpoint on
-- disk is still the one before the gap, and any of the boundaries may fail: `commit` runs, and
-- before, between and behind the boundaries that it crosses, a restart either resumes at the
-- incident's position, where a moved checkpoint means that the output was flushed and committed; or
-- it finds the recovery completed, with the output committed and the checkpoint, if one is
-- configured, moved to that position.
pub commit-Recovers :
    (succeeds : Effect → Bool) (r : GapRecovery) (l : GapLedger) (incident : GapIncident)
    (d : Durable)
    → r.ledger ≡ some l
    → last_incident l.incidents ≡ some incident
    → incident.prepared ≡ true
    → d.ledger ≡ some l
    → d.checkpoint ≡ incident.previous
    → (o : Outcome) × (commit succeeds r ≡ some o)
      × AtEachPoint (Recovers incident r.has_checkpoint_path) o.effects d
unfolding commit commit_last
commit-Recovers succeeds r l incident d hr is_last p hl hk = (
  commit_incident succeeds l incident r,
  rw (hr, is_last) refl,
  commit_incident-Recovers l incident is_last succeeds r p d hl hk,
)
