-- ===== src/Collector/Evidence.antt =====
-- What `pending` of gap_recovery.go makes of the checkpoints that it may find behind `prepare`.
use aesirguard_audit.Base.{
  ℕ, ◌+◌, ◌-◌, ◌^◌, ◌||◌, Bool, true, false, Option, none, some, bytes_equality, bytes_eq_iff, ◌≡◌,
  refl, sym, ◌∙◌, ◌⊎◌, ◌↔◌, inl, inr, arith, nat_eq, Bool-cases, if◌then◌else◌, beq_refl,
}
use aesirguard_audit.Parser.Values.{is_negative}
use aesirguard_audit.Collector.Checkpoint.{Checkpoint}
use aesirguard_audit.Collector.Ledger.{SourceError}
use aesirguard_audit.Collector.Recovery.{
  GapRecovery, Effect, Pending, resume_at, evidence_mismatch, pending, pending_incident,
  same_checkpoint, Position, ledger_or_new, prepare, add_incident, new_incident, resume_checkpoint,
  supersede,
}
use aesirguard_audit.Collector.Window.{recent-append}

-- Checkpoints of the same file, offset and anchor, or no checkpoint twice.
abbrev pub Matches : Option Checkpoint → Option Checkpoint → Type 0
Matches none none = Unit
Matches none (some c) = ⊥
Matches (some c) none = ⊥
Matches (some a) (some b) =
    (a.input_path ≡ b.input_path)
    × (a.device ≡ b.device)
    × (a.inode ≡ b.inode)
    × (a.offset.magnitude ≡ b.offset.magnitude)
    × (is_negative a.offset ≡ is_negative b.offset)
    × (a.anchor ≡ b.anchor)

same_checkpoint-Matches : (a b : Option Checkpoint) → (same_checkpoint a b ≡ true) ↔ Matches a b
unfolding same_checkpoint
same_checkpoint-Matches none none = ((λ _. tt), λ _. refl)
same_checkpoint-Matches none (some c) = ((λ h. cc h), λ h. elim h [ ])
same_checkpoint-Matches (some c) none = ((λ h. cc h), λ h. elim h [ ])
same_checkpoint-Matches (some a) (some b) =
    let paths = bytes_eq_iff a.input_path b.input_path in
    let anchors = bytes_eq_iff a.anchor b.anchor in
    (
      (λ h. (
        ground (arith, h, paths),
        ground (arith, h),
        ground (arith, h),
        ground (arith, h),
        ground (arith, h),
        ground (arith, h, anchors),
      )),
      λ (h : Matches (some a) (some b)).
          ground (arith, h.0, h.1, h.2, h.3, h.4, h.5, beq_refl b.input_path, beq_refl b.anchor),
    )

-- Behind `prepare`, what `pending` answers, by the code's comparison.
pending-by_comparison :
    (succeeds : Effect → Bool) (previous c : Option Checkpoint) (position : Position)
    (cause : SourceError) (now : ℕ) (r : GapRecovery)
    → nat_eq (ledger_or_new r.input r.ledger).total (2 ^ 64 - 1) ≡ false
    → pending c (prepare succeeds previous position cause now r).state.ledger ≡ (
        if same_checkpoint c previous
          || same_checkpoint c (some (resume_checkpoint r.input position now))
        then resume_at (resume_checkpoint r.input position now)
        else evidence_mismatch)
unfolding prepare pending pending_incident add_incident new_incident
pending-by_comparison succeeds previous c position cause now r room =
    let l = ledger_or_new r.input r.ledger in
    let n = new_incident r.input (l.total + 1) previous position cause now in
    rw (room, (recent-append supersede l.incidents n).0) (ground arith)

judged_pending :
    (c x y : Option Checkpoint) (resume : Checkpoint) (p : Pending)
    → p
      ≡ (if same_checkpoint c x || same_checkpoint c y then resume_at resume else evidence_mismatch)
    → ((p ≡ resume_at resume) ↔ (Matches c x ⊎ Matches c y))
      × ((p ≡ resume_at resume) ⊎ (p ≡ evidence_mismatch))
judged_pending c x y resume p h = elim (Bool-cases (same_checkpoint c x)) [
  | inl first ↦
      let is : p ≡ resume_at resume = h ∙ rw first refl in
      (((λ _. inl ((same_checkpoint-Matches c x).0 first)), λ _. is), inl is)
  | inr other ↦ elim (Bool-cases (same_checkpoint c y)) [
    | inl second ↦
        let is : p ≡ resume_at resume = h ∙ rw (other, second) refl in
        (((λ _. inr ((same_checkpoint-Matches c y).0 second)), λ _. is), inl is)
    | inr nor ↦
        let is : p ≡ evidence_mismatch = h ∙ rw (other, nor) refl in
        (
          (
            (λ k. let bad : evidence_mismatch ≡ resume_at resume = sym is ∙ k in cc bad),
            λ m. elim m [
              | inl a ↦ cc (other, (same_checkpoint-Matches c x).1 a)
              | inr b ↦ cc (nor, (same_checkpoint-Matches c y).1 b)
            ],
          ),
          inr is,
        )
  ]
]

-- Behind `prepare`, if the count of incidents is not exhausted and whether or not the write of the
-- ledger succeeded: `pending` answers the position to resume at exactly if the checkpoint matches the
-- one before the gap or the one to resume at, in input path, device, inode, offset and anchor, or
-- there is none as there was none before the gap; and it answers with an error otherwise.
pub prepare-Matches :
    (succeeds : Effect → Bool) (previous c : Option Checkpoint) (position : Position)
    (cause : SourceError) (now : ℕ) (r : GapRecovery)
    → nat_eq (ledger_or_new r.input r.ledger).total (2 ^ 64 - 1) ≡ false
    → ((pending c (prepare succeeds previous position cause now r).state.ledger
          ≡ resume_at (resume_checkpoint r.input position now))
        ↔ (Matches c previous ⊎ Matches c (some (resume_checkpoint r.input position now))))
      × ((pending c (prepare succeeds previous position cause now r).state.ledger
            ≡ resume_at (resume_checkpoint r.input position now))
          ⊎ (pending c (prepare succeeds previous position cause now r).state.ledger
              ≡ evidence_mismatch))
prepare-Matches succeeds previous c position cause now r room =
    judged_pending c previous (some (resume_checkpoint r.input position now))
      (resume_checkpoint r.input position now)
      (pending c (prepare succeeds previous position cause now r).state.ledger)
      (pending-by_comparison succeeds previous c position cause now r room)
