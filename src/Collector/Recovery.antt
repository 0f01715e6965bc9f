-- ===== src/Collector/Recovery.antt =====
-- cmd/ag-audit/gap_recovery.go: the write-ahead transition over a source gap. What the durable
-- boundaries answer is a parameter; the boundaries that were crossed are returned, in order.
use aesirguard_audit.Base.{
  ℕ, ◌+◌, ◌-◌, ◌^◌, Bool, true, false, ◌&&◌, not, List, [], ◌∷◌, ◌++◌, Option, none, some, ◌==◌,
  Bytes, bytes_equality, nat_eq, length, drop, if◌then◌else◌,
}
use aesirguard_audit.Assembler.State.{bool_eq}
use aesirguard_audit.Parser.Values.{SignedNumber, plus, is_negative}
use aesirguard_audit.Collector.Checkpoint.{Checkpoint, checkpoint_version}
use aesirguard_audit.Collector.Ledger.{
  FileIdentity, SourceError, truncated, gap, anchor_mismatch, other_error, source_gap_reason,
  GapIncident, GapLedger, last_incident,
}

-- `gapRecovery`; `saveLedger` and `saveCheckpoint` are answers at the calls.
pub record GapRecovery : Type 0 where
  pub input : Bytes
  pub has_checkpoint_path : Bool
  pub ledger : Option GapLedger

-- `collector.SourcePosition`.
pub record Position : Type 0 where
  pub identity : FileIdentity
  pub anchor : Bytes
  pub offset : SignedNumber

abbrev pub int_eq : SignedNumber → SignedNumber → Bool
int_eq m n = nat_eq m.magnitude n.magnitude && bool_eq (is_negative m) (is_negative n)

-- `sameCheckpoint`.
unfoldable pub same_checkpoint : Option Checkpoint → Option Checkpoint → Bool
same_checkpoint none none = true
same_checkpoint (some a) (some b) =
    a.input_path == b.input_path
    && nat_eq a.device b.device
    && nat_eq a.inode b.inode
    && int_eq a.offset b.offset
    && a.anchor == b.anchor
same_checkpoint _ _ = false

-- What `pending` returns: nothing, a position to resume at, or an error.
pub data Pending : Type 0 where
  nothing_pending : Pending
  resume_at : Checkpoint → Pending
  evidence_mismatch : Pending

unfoldable pub pending_incident : Option Checkpoint → Option GapIncident → Pending
pending_incident checkpoint none = nothing_pending
pending_incident checkpoint (some last) =
    if not last.prepared
    then nothing_pending
    else if not (same_checkpoint checkpoint last.previous)
        && not (same_checkpoint checkpoint (some last.resume))
    then evidence_mismatch
    else resume_at last.resume

-- `pending`, on what `LoadGapLedger` gave.
unfoldable pub pending : Option Checkpoint → Option GapLedger → Pending
pending checkpoint none = nothing_pending
pending checkpoint (some l) = pending_incident checkpoint (last_incident l.incidents)

-- A change to the last incident, which the source makes through a pointer into the slice.
unfoldable pub map_last : (GapIncident → GapIncident) → List GapIncident → List GapIncident
map_last f [] = []
map_last f (g ∷ []) = f g ∷ []
map_last f (g ∷ h ∷ gs) = g ∷ map_last f (h ∷ gs)

unfoldable pub supersede : GapIncident → GapIncident
supersede g = if g.prepared then record g { prepared = false; superseded = true } else g

unfoldable pub observed_identity : SourceError → FileIdentity
observed_identity (truncated t) = t.identity
observed_identity (gap g) = g.identity
observed_identity (anchor_mismatch g) = g.identity
observed_identity other_error = record { device = 0; inode = 0 }

unfoldable pub observed_offset : SourceError → Option SignedNumber
observed_offset (truncated t) = some t.offset
observed_offset _ = none

unfoldable pub observed_size : SourceError → Option SignedNumber
observed_size (truncated t) = some t.size
observed_size _ = none

-- The checkpoint to resume at, as of a time.
unfoldable pub resume_checkpoint : Bytes → Position → ℕ → Checkpoint
resume_checkpoint input position now = record {
  version = record { sign = plus; magnitude = checkpoint_version };
  input_path = input;
  device = position.identity.device;
  inode = position.identity.inode;
  offset = position.offset;
  anchor = position.anchor;
  updated_at = now;
}

unfoldable pub new_incident :
    Bytes → ℕ → Option Checkpoint → Position → SourceError → ℕ → GapIncident
new_incident input number previous position cause now = record {
  number = number;
  detected_at = now;
  reason = source_gap_reason cause;
  observed_identity = observed_identity cause;
  observed_offset = observed_offset cause;
  observed_size = observed_size cause;
  previous = previous;
  resume = resume_checkpoint input position now;
  prepared = true;
  superseded = false;
}

-- `r.ledger.Incidents[len(r.ledger.Incidents)-8:]`; the subtraction stops at 0 below eight.
unfoldable pub recent : List GapIncident → List GapIncident
recent gs = drop (length gs - 8) gs

-- The ledger that is worked on when there is none.
abbrev pub ledger_or_new : Bytes → Option GapLedger → GapLedger
ledger_or_new input none = record {
  version = record { sign = plus; magnitude = 1 };
  input_path = input;
  total = 0;
  incidents = [];
}
ledger_or_new input (some l) = l

-- The incident added, numbered behind the last one, and an older preparation superseded.
unfoldable pub add_incident :
    Bytes → Option Checkpoint → Position → SourceError → ℕ → GapLedger → GapLedger
add_incident input previous position cause now l = record l {
  total = l.total + 1;
  incidents = recent (
      map_last supersede l.incidents
      ++ new_incident input (l.total + 1) previous position cause now ∷ []);
}

pub data RecoveryError : Type 0 where
  count_exhausted persist_failed log_failed flush_failed sink_failed : RecoveryError
  checkpoint_failed complete_failed : RecoveryError

-- The durable boundaries and the reports of a recovery.
pub data Effect : Type 0 where
  log_gap flush_pending commit_sink log_resumed : Effect
  save_checkpoint : Checkpoint → Effect
  save_ledger : GapLedger → Effect

-- The state left, the boundaries crossed, and the error if one failed.
pub record Outcome : Type 0 where
  pub state : GapRecovery
  pub effects : List Effect
  pub failure : Option RecoveryError

abbrev pub with_ledger : GapLedger → GapRecovery → GapRecovery
with_ledger l r = record r { ledger = some l }

-- `prepare`. The clock is read twice in the source, and once here.
unfoldable pub prepare :
    (Effect → Bool) → Option Checkpoint → Position → SourceError → ℕ → GapRecovery → Outcome
prepare succeeds previous position cause now r =
    let l = ledger_or_new r.input r.ledger in
    let added = add_incident r.input previous position cause now l in
    if nat_eq l.total (2 ^ 64 - 1)
    then record { state = with_ledger l r; effects = []; failure = some count_exhausted }
    else record {
      state = with_ledger added r;
      effects = save_ledger added ∷ [];
      failure = if succeeds (save_ledger added) then none else some persist_failed;
    }

unfoldable pub complete : GapIncident → GapIncident
complete g = record g { prepared = false }

-- An effect, and what follows if it succeeds.
unfoldable pub attempt : (Effect → Bool) → Effect → RecoveryError → GapRecovery → Outcome → Outcome
attempt succeeds e failed r next =
    if succeeds e
    then record next { effects = e ∷ next.effects }
    else record { state = r; effects = e ∷ []; failure = some failed }

-- The last two steps of `commit`: the ledger that holds the incident as completed, and a report.
unfoldable pub complete_ledger : (Effect → Bool) → GapLedger → GapRecovery → Outcome
complete_ledger succeeds l r =
    let done = record l { incidents = map_last complete l.incidents } in
    let after = with_ledger done r in
    attempt succeeds (save_ledger done) complete_failed after (
      attempt succeeds log_resumed log_failed after
        (record { state = after; effects = []; failure = none }))

-- `if r.checkpointPath != ""`
unfoldable pub move_checkpoint :
    (Effect → Bool) → Bool → Checkpoint → GapRecovery → Outcome → Outcome
move_checkpoint succeeds true resume r next =
    attempt succeeds (save_checkpoint resume) checkpoint_failed r next
move_checkpoint succeeds false resume r next = next

-- `commit` on the ledger and its last incident.
unfoldable pub commit_incident : (Effect → Bool) → GapLedger → GapIncident → GapRecovery → Outcome
commit_incident succeeds l incident r = attempt succeeds log_gap log_failed r (
    attempt succeeds flush_pending flush_failed r (
      attempt succeeds commit_sink sink_failed r (
        move_checkpoint succeeds r.has_checkpoint_path incident.resume r
          (complete_ledger succeeds l r))))

unfoldable pub commit_last :
    (Effect → Bool) → GapLedger → Option GapIncident → GapRecovery → Option Outcome
commit_last succeeds l none r = none
commit_last succeeds l (some incident) r = some (commit_incident succeeds l incident r)

abbrev commit_ledger : (Effect → Bool) → Option GapLedger → GapRecovery → Option Outcome
commit_ledger succeeds none r = none
commit_ledger succeeds (some l) r = commit_last succeeds l (last_incident l.incidents) r

-- `commit`; `none` is the panic without a ledger or an incident, which `prepare` rules out.
unfoldable pub commit : (Effect → Bool) → GapRecovery → Option Outcome
commit succeeds r = commit_ledger succeeds r.ledger r
