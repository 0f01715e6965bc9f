-- ===== src/Assembler/LineLimitBounds.antt =====
-- `RejectPhysicalLine` of isolation.go keeps the metadata of rejected keys, distinct and bounded.
use aesirguard_audit.Base.{
  ℕ, ◌++◌, false, List, [], ◌∷◌, Option, none, some, ◌≡◌, refl, arith, Bytes, codes,
}
use aesirguard_audit.Base.Maps.{lookup}
use aesirguard_audit.Record.{Record, SourcePosition}
use aesirguard_audit.Parser.Text.{cut_at}
use aesirguard_audit.Parser.Fields.{Result, ok, err}
use aesirguard_audit.Parser.Envelope.{RecordError, parse_record}
use aesirguard_audit.Assembler.State.{
  Assembler, PendingEvent, RejectedEvent, CorrelationKey, key_equality, Completion,
}
use aesirguard_audit.Assembler.Expiry.{
  Entry, flush_all_with, finish_all, finish, remove_pending, clear_rejected,
}
use aesirguard_audit.Assembler.Add.{key_of}
use aesirguard_audit.Assembler.Reject.{
  reject_uncorrelated, mark_rejected, source_of, reject_pending, reject_parsed, reject_prefix,
  reject_physical_line,
}
use aesirguard_audit.Assembler.Tracking.{
  IsTracked, SameTracking, SameTracking-refl, SameTracking-trans, SameTracking-IsTracked,
  touch-IsTracked, track_or_spill-IsTracked, start_spill-SameTracking,
}
use aesirguard_audit.Assembler.Untouched.{remove_pending-SameTracking}

finish_all-SameTracking :
    (es : List Entry) (c : Completion) (a : Assembler) → SameTracking a (finish_all es c a).0
unfolding finish_all finish
finish_all-SameTracking [] c a = SameTracking-refl a
finish_all-SameTracking (e ∷ es) c a =
    SameTracking-trans a (remove_pending e a) _ (remove_pending-SameTracking e a)
      (finish_all-SameTracking es c (remove_pending e a))

-- A flush forgets the rejected keys.
pub flush_all_with-IsTracked : (c : Completion) (a : Assembler) → IsTracked (flush_all_with c a).0
unfolding flush_all_with
flush_all_with-IsTracked c a =
    SameTracking-IsTracked (clear_rejected a) _
      (finish_all-SameTracking a.pending c (clear_rejected a))
      (record {
        keys_distinct = tt;
        counted = refl;
        few_keys = omega arith;
        few_key_bytes = omega arith;
      })

mark_rejected-IsTracked :
    (k : CorrelationKey) (x : Option RejectedEvent) (s : SourcePosition) (now : ℕ) (a : Assembler)
    → lookup k a.rejected ≡ x
    → IsTracked a
    → IsTracked (mark_rejected k x s now a)
unfolding mark_rejected
mark_rejected-IsTracked k none s now a h v = track_or_spill-IsTracked k now s s a h v
mark_rejected-IsTracked k (some x) s now a h v = touch-IsTracked k x now a h v

reject_uncorrelated-IsTracked :
    (s : SourcePosition) (now : ℕ) (a : Assembler) → IsTracked (reject_uncorrelated s now a).0
unfolding reject_uncorrelated
reject_uncorrelated-IsTracked s now a =
    let b = (flush_all_with Completion.line_limit a).0 in
    SameTracking-IsTracked b _ (start_spill-SameTracking now s b)
      (flush_all_with-IsTracked Completion.line_limit a)

reject_pending-IsTracked :
    (k : CorrelationKey) (pending : Option PendingEvent) (s : SourcePosition) (now : ℕ)
    (a : Assembler)
    → IsTracked a
    → IsTracked (reject_pending k pending s now a).0
unfolding reject_pending
reject_pending-IsTracked k none s now a v =
    mark_rejected-IsTracked k (lookup k a.rejected) s now a refl v
reject_pending-IsTracked k (some p) s now a v =
    let b = (finish (k, p) Completion.line_limit false a).0 in
    mark_rejected-IsTracked k (lookup k b.rejected) (source_of p.records s) now b refl
      (unfold finish in SameTracking-IsTracked a b (remove_pending-SameTracking (k, p) a) v)

reject_parsed-IsTracked :
    (parsed : Result RecordError Record) (s : SourcePosition) (now : ℕ) (a : Assembler)
    → IsTracked a
    → IsTracked (reject_parsed parsed s now a).0
unfolding reject_parsed
reject_parsed-IsTracked (err e) s now a v = reject_uncorrelated-IsTracked s now a
reject_parsed-IsTracked (ok r) s now a v =
    reject_pending-IsTracked (key_of r) (lookup (key_of r) a.pending) s now a v

reject_prefix-IsTracked :
    (normalize : Bytes → Bytes) (cut : Option (Bytes × Bytes)) (s : SourcePosition) (now : ℕ)
    (a : Assembler)
    → IsTracked a
    → IsTracked (reject_prefix normalize cut s now a).0
unfolding reject_prefix
reject_prefix-IsTracked normalize none s now a v = reject_uncorrelated-IsTracked s now a
reject_prefix-IsTracked normalize (some (before, _)) s now a v =
    reject_parsed-IsTracked (parse_record normalize (before ++ codes "):")) s now a v

-- `RejectPhysicalLine`, whatever prefix was retained, from a state whose rejected keys are distinct,
-- have their bytes counted exactly and are, in number and in bytes, within the limits on pending
-- events: the rejected keys are so afterwards.
pub reject_physical_line-IsTracked :
    (normalize : Bytes → Bytes) (prefix : Bytes) (s : SourcePosition) (now : ℕ) (a : Assembler)
    → IsTracked a
    → IsTracked (reject_physical_line normalize prefix s now a).0
unfolding reject_physical_line
reject_physical_line-IsTracked normalize prefix s now a v =
    reject_prefix-IsTracked normalize (cut_at (codes "):") prefix) s now a v
