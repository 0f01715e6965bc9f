-- ===== src/Assembler/State.antt =====
-- The state of `Assembler`. A `time.Time` is the number of nanoseconds since Go's zero time, so
-- `IsZero` is equality with 0; a `time.Duration` that is not positive is 0, as every use of the
-- timeout treats the two alike.
use aesirguard_audit.Base.{
  ℕ, Bool, false, ◌&&◌, ◌||◌, List, [], Option, none, some, ◌≡◌, ◌↔◌, arith, ◌==◌, Bytes,
  bytes_equality, bytes_eq_iff, Equality, leb, if◌then◌else◌,
}
use aesirguard_audit.Record.{Record, SourcePosition, zero_position}

-- `correlationKey`.
pub record CorrelationKey : Type 0 where
  pub id : Bytes
  pub node : Bytes
  pub node_present : Bool

abbrev pub bool_eq : Bool → Bool → Bool
bool_eq Bool.true b = b
bool_eq Bool.false Bool.true = false
bool_eq Bool.false Bool.false = Bool.true

abbrev pub key_eq : CorrelationKey → CorrelationKey → Bool
key_eq a b = a.id == b.id && a.node == b.node && bool_eq a.node_present b.node_present

pub key_eq_iff : (a b : CorrelationKey) → (key_eq a b ≡ Bool.true) ↔ (a ≡ b)
key_eq_iff a b = ground (arith, bytes_eq_iff a.id b.id, bytes_eq_iff a.node b.node)

instance abbrev pub key_equality : Equality CorrelationKey
key_equality = record { beq = key_eq; beq_iff = key_eq_iff }

-- `pendingEvent`.
pub record PendingEvent : Type 0 where
  pub mixed_node : Bool
  pub records : List Record
  pub sequence : ℕ
  pub last_seen : ℕ
  pub audit_time : ℕ
  pub has_audit_ts : Bool

-- `rejectedEvent` of isolation.go.
pub record RejectedEvent : Type 0 where
  pub source : SourcePosition
  pub last_seen : ℕ
  pub key_bytes : ℕ

-- `AssemblerLimits`; all zero when limits are disabled.
pub record AssemblerLimits : Type 0 where
  pub max_pending_events : ℕ
  pub max_records_per_event : ℕ
  pub max_pending_bytes : ℕ

-- `Completion`.
pub data Completion : Type 0 where
  eoe proctitle single_record watermark timeout eof : Completion
  assembly_limit line_limit shutdown source_gap : Completion

-- `AssembledEvent`.
pub record AssembledEvent : Type 0 where
  pub sequence : ℕ
  pub exceptional : Bool
  pub mixed_node : Bool
  pub id : Bytes
  pub records : List Record
  pub complete : Bool
  pub completion : Completion

-- `readyEvent`.
pub record ReadyEvent : Type 0 where
  pub sequence : ℕ
  pub event : AssembledEvent

-- The three limits that `AssemblerLimitError` names.
pub data LimitName : Type 0 where
  pending_events records_per_event pending_bytes : LimitName

-- `AssemblerLimitError`.
pub record AssemblerLimitError : Type 0 where
  pub limit : LimitName
  pub value : ℕ
  pub audit_id : Bytes
  pub node : Bytes
  pub node_present : Bool
  pub observed_records : ℕ
  pub count_complete : Bool

-- `Assembler`.
pub record Assembler : Type 0 where
  pub rejected : List (CorrelationKey × RejectedEvent)
  pub rejection_bytes : ℕ
  pub spill_since : ℕ
  pub spill_source : SourcePosition
  pub timeout : ℕ
  pub limits : AssemblerLimits
  pub pending : List (CorrelationKey × PendingEvent)
  pub pending_bytes : ℕ
  pub next_sequence : ℕ
  pub latest_audit_time : ℕ
  pub latest_audit_node : Bytes
  pub latest_node_present : Bool

abbrev pub no_limits : AssemblerLimits
no_limits = record { max_pending_events = 0; max_records_per_event = 0; max_pending_bytes = 0 }

-- `NewAssembler`.
unfoldable pub new_assembler : ℕ → Assembler
new_assembler expiry = record {
  rejected = [];
  rejection_bytes = 0;
  spill_since = 0;
  spill_source = zero_position;
  timeout = expiry;
  limits = no_limits;
  pending = [];
  pending_bytes = 0;
  next_sequence = 0;
  latest_audit_time = 0;
  latest_audit_node = [];
  latest_node_present = false;
}

-- `NewBoundedAssembler`; `none` is the error that the limits must be positive.
unfoldable pub new_bounded_assembler : ℕ → AssemblerLimits → Option Assembler
unfolding new_assembler
new_bounded_assembler expiry limits =
    if leb limits.max_pending_events 0
      || leb limits.max_records_per_event 0
      || leb limits.max_pending_bytes 0
    then none
    else some (record (new_assembler expiry) { limits = limits })
