-- ===== src/Assembler/LineLimitSizes.antt =====
-- `RejectPhysicalLine` of isolation.go and the flush behind it keep the limits on pending events.
use aesirguard_audit.Base.{ℕ, ◌++◌, List, [], ◌∷◌, Option, none, some, refl, arith, Bytes, codes}
use aesirguard_audit.Base.Maps.{lookup}
use aesirguard_audit.Record.{Record, SourcePosition}
use aesirguard_audit.Parser.Text.{cut_at}
use aesirguard_audit.Parser.Fields.{Result, ok, err}
use aesirguard_audit.Parser.Envelope.{RecordError, parse_record}
use aesirguard_audit.Assembler.State.{
  Assembler, PendingEvent, RejectedEvent, CorrelationKey, key_equality, Completion,
}
use aesirguard_audit.Assembler.Expiry.{
  Entry, flush_all_with, finish_all, finish, remove_pending, clear_rejected,
}
use aesirguard_audit.Assembler.Add.{key_of}
use aesirguard_audit.Assembler.Isolation.{start_spill}
use aesirguard_audit.Assembler.Reject.{
  reject_uncorrelated, mark_rejected, source_of, reject_pending, reject_parsed, reject_prefix,
  reject_physical_line,
}
use aesirguard_audit.Assembler.Shrinking.{
  Shrinks, Shrinks-refl, Shrinks-of, Shrinks-trans, remove_pending-Shrinks,
}
use aesirguard_audit.Assembler.RecoveryBounds.{track_or_spill-Shrinks}
use aesirguard_audit.Assembler.Bounds.{IsBounded, Shrinks-IsBounded}

finish_all-Shrinks :
    (es : List Entry) (c : Completion) (a : Assembler) → Shrinks a (finish_all es c a).0
unfolding finish_all finish
finish_all-Shrinks [] c a = Shrinks-refl a
finish_all-Shrinks (e ∷ es) c a =
    Shrinks-trans a (remove_pending e a) _ (remove_pending-Shrinks e a)
      (finish_all-Shrinks es c (remove_pending e a))

pub flush_all_with-Shrinks : (c : Completion) (a : Assembler) → Shrinks a (flush_all_with c a).0
unfolding flush_all_with
flush_all_with-Shrinks c a =
    Shrinks-trans a (clear_rejected a) _ (Shrinks-of a a _ (Shrinks-refl a) refl refl refl)
      (finish_all-Shrinks a.pending c (clear_rejected a))

mark_rejected-Shrinks :
    (k : CorrelationKey) (x : Option RejectedEvent) (s : SourcePosition) (now : ℕ) (a : Assembler)
    → Shrinks a (mark_rejected k x s now a)
unfolding mark_rejected
mark_rejected-Shrinks k none s now a = track_or_spill-Shrinks k now s s a
mark_rejected-Shrinks k (some x) s now a = Shrinks-of a a _ (Shrinks-refl a) refl refl refl

start_spill-Shrinks :
    (now : ℕ) (s : SourcePosition) (a : Assembler) → Shrinks a (start_spill now s a)
unfolding start_spill
start_spill-Shrinks now s a =
    Shrinks-of a a _ (Shrinks-refl a) (ground arith) (ground arith) (ground arith)

reject_uncorrelated-Shrinks :
    (s : SourcePosition) (now : ℕ) (a : Assembler) → Shrinks a (reject_uncorrelated s now a).0
unfolding reject_uncorrelated
reject_uncorrelated-Shrinks s now a =
    let b = (flush_all_with Completion.line_limit a).0 in
    Shrinks-trans a b _ (flush_all_with-Shrinks Completion.line_limit a)
      (start_spill-Shrinks now s b)

reject_pending-Shrinks :
    (k : CorrelationKey) (pending : Option PendingEvent) (s : SourcePosition) (now : ℕ)
    (a : Assembler)
    → Shrinks a (reject_pending k pending s now a).0
unfolding reject_pending finish
reject_pending-Shrinks k none s now a = mark_rejected-Shrinks k (lookup k a.rejected) s now a
reject_pending-Shrinks k (some p) s now a =
    let b = remove_pending (k, p) a in
    Shrinks-trans a b _ (remove_pending-Shrinks (k, p) a)
      (mark_rejected-Shrinks k (lookup k b.rejected) (source_of p.records s) now b)

reject_parsed-Shrinks :
    (parsed : Result RecordError Record) (s : SourcePosition) (now : ℕ) (a : Assembler)
    → Shrinks a (reject_parsed parsed s now a).0
unfolding reject_parsed
reject_parsed-Shrinks (err e) s now a = reject_uncorrelated-Shrinks s now a
reject_parsed-Shrinks (ok r) s now a =
    reject_pending-Shrinks (key_of r) (lookup (key_of r) a.pending) s now a

reject_prefix-Shrinks :
    (normalize : Bytes → Bytes) (cut : Option (Bytes × Bytes)) (s : SourcePosition) (now : ℕ)
    (a : Assembler)
    → Shrinks a (reject_prefix normalize cut s now a).0
unfolding reject_prefix
reject_prefix-Shrinks normalize none s now a = reject_uncorrelated-Shrinks s now a
reject_prefix-Shrinks normalize (some (before, _)) s now a =
    reject_parsed-Shrinks (parse_record normalize (before ++ codes "):")) s now a

-- `RejectPhysicalLine`, whatever prefix was retained, from a state whose limits are positive and
-- kept, keeps the limits on the number of pending events, of records in each and of bytes.
pub reject_physical_line-IsBounded :
    (normalize : Bytes → Bytes) (prefix : Bytes) (s : SourcePosition) (now : ℕ) (a : Assembler)
    → IsBounded a
    → IsBounded (reject_physical_line normalize prefix s now a).0
unfolding reject_physical_line
reject_physical_line-IsBounded normalize prefix s now a =
    Shrinks-IsBounded a _ (reject_prefix-Shrinks normalize (cut_at (codes "):") prefix) s now a)
