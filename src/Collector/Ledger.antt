-- ===== src/Collector/Ledger.antt =====
-- internal/collector/recovery.go: source gaps, the ledger of incidents and its validation.
use aesirguard_audit.Base.{
  ℕ, ◌+◌, ◌%◌, ◌^◌, Bool, true, false, ◌||◌, ◌&&◌, not, List, [], ◌∷◌, Option, none, some, ◌==◌,
  Bytes, bytes_equality, codes, nat_eq, ltb, length, if◌then◌else◌,
}
use aesirguard_audit.Parser.Values.{SignedNumber}
use aesirguard_audit.Collector.Checkpoint.{
  Checkpoint, CheckpointError, validate_checkpoint, is_nat, is_empty,
}

-- `FileIdentity`.
pub record FileIdentity : Type 0 where
  pub device : ℕ
  pub inode : ℕ

-- `SourceGapError` and `SourceTruncatedError`.
pub record SourceGap : Type 0 where
  pub identity : FileIdentity
  pub reason : Bytes

pub record SourceTruncated : Type 0 where
  pub identity : FileIdentity
  pub offset : SignedNumber
  pub size : SignedNumber

-- What `errors.As` finds along the chain of an error. A mismatch wraps its gap.
pub data SourceError : Type 0 where
  truncated : SourceTruncated → SourceError
  gap : SourceGap → SourceError
  anchor_mismatch : SourceGap → SourceError
  other_error : SourceError

-- `RecoverableSourceGap`.
unfoldable pub recoverable_source_gap : SourceError → Bool
recoverable_source_gap (truncated _) = true
recoverable_source_gap (gap _) = true
recoverable_source_gap (anchor_mismatch _) = false
recoverable_source_gap other_error = false

abbrev pub reason_or_missing : Bytes → Bytes
reason_or_missing reason =
    if not (is_empty reason) then reason else codes "source_generation_missing"

-- `SourceGapReason`.
unfoldable pub source_gap_reason : SourceError → Bytes
source_gap_reason (truncated _) = codes "source_truncated"
source_gap_reason (gap g) = reason_or_missing g.reason
source_gap_reason (anchor_mismatch g) = reason_or_missing g.reason
source_gap_reason other_error = codes "source_generation_missing"

-- `GapIncident`.
pub record GapIncident : Type 0 where
  pub number : ℕ
  pub detected_at : ℕ
  pub reason : Bytes
  pub observed_identity : FileIdentity
  pub observed_offset : Option SignedNumber
  pub observed_size : Option SignedNumber
  pub previous : Option Checkpoint
  pub resume : Checkpoint
  pub prepared : Bool
  pub superseded : Bool

-- `GapLedger`.
pub record GapLedger : Type 0 where
  pub version : SignedNumber
  pub input_path : Bytes
  pub total : ℕ
  pub incidents : List GapIncident

pub data LedgerError : Type 0 where
  invalid_ledger invalid_incident input_mismatch count_mismatch : LedgerError
  invalid_checkpoint : CheckpointError → LedgerError

-- The first of two checks that fails.
abbrev pub or_error : Option LedgerError → Option LedgerError → Option LedgerError
or_error none e = e
or_error (some e) _ = some e

abbrev pub checkpoint_error : Option CheckpointError → Option LedgerError
checkpoint_error none = none
checkpoint_error (some e) = some (invalid_checkpoint e)

abbrev pub known_reason : Bytes → Bool
known_reason reason =
    reason == codes "source_truncated"
    || reason == codes "source_generation_missing"
    || reason == codes "missing_intermediate_generation"

-- `i > 0 && g.Number != l.Incidents[i-1].Number+1`, on uint64.
abbrev pub follows : Option ℕ → ℕ → Bool
follows none n = true
follows (some m) n = nat_eq n ((m + 1) % 2 ^ 64)

abbrev pub is_more : List GapIncident → Bool
is_more [] = false
is_more (_ ∷ _) = true

unfoldable pub check_previous : Bytes → Option Checkpoint → Option LedgerError
check_previous input none = none
check_previous input (some c) =
    or_error (checkpoint_error (validate_checkpoint c))
      (if not (c.input_path == input) then some input_mismatch else none)

-- The condition on one incident, given the number before it and whether another one stands behind.
unfoldable pub well_formed : Bytes → ℕ → Option ℕ → Bool → GapIncident → Bool
well_formed input total before more g =
    not (nat_eq g.observed_identity.device 0)
    && not (nat_eq g.observed_identity.inode 0)
    && not (g.prepared && g.superseded)
    && not (nat_eq g.number 0)
    && not (ltb total g.number)
    && follows before g.number
    && not (nat_eq g.detected_at 0)
    && known_reason g.reason
    && g.resume.input_path == input
    && nat_eq g.resume.offset.magnitude 0
    && not (more && g.prepared)

unfoldable pub check_incident : Bytes → ℕ → Option ℕ → Bool → GapIncident → Option LedgerError
check_incident input total before more g =
    or_error (if not (well_formed input total before more g) then some invalid_incident else none)
      (or_error (checkpoint_error (validate_checkpoint g.resume)) (check_previous input g.previous))

unfoldable pub check_incidents : Bytes → ℕ → Option ℕ → List GapIncident → Option LedgerError
check_incidents input total before [] = none
check_incidents input total before (g ∷ gs) =
    or_error (check_incident input total before (is_more gs) g)
      (check_incidents input total (some g.number) gs)

-- The last incident.
unfoldable pub last_incident : List GapIncident → Option GapIncident
last_incident [] = none
last_incident (g ∷ []) = some g
last_incident (g ∷ h ∷ gs) = last_incident (h ∷ gs)

abbrev check_count : ℕ → Option GapIncident → Option LedgerError
check_count total none = some invalid_ledger
check_count total (some g) = if not (nat_eq g.number total) then some count_mismatch else none

-- `GapLedger.Validate`; `none` is the nil error.
unfoldable pub validate_ledger : GapLedger → Option LedgerError
validate_ledger l =
    if not (is_nat l.version 1)
      || is_empty l.input_path
      || nat_eq l.total 0
      || nat_eq (length l.incidents) 0
      || ltb 8 (length l.incidents)
    then some invalid_ledger
    else or_error (check_incidents l.input_path l.total none l.incidents)
        (check_count l.total (last_incident l.incidents))
