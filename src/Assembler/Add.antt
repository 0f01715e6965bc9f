-- ===== src/Assembler/Add.antt =====
-- `addAt` and `checkLimits` of assembler.go (the body of Add, AddAt, AddChecked, AddCheckedAt).
use aesirguard_audit.Base.{
  ℕ, ◌+◌, ◌%◌, ◌^◌, Bool, true, false, ◌&&◌, ◌||◌, not, List, [], ◌∷◌, ◌++◌, Option, none, some,
  ◌==◌, codes, bytes_equality, leb, ltb, nat_eq, if◌then◌else◌, length,
}
use aesirguard_audit.Base.Maps.{lookup, insert, map_values}
use aesirguard_audit.Record.{Record}
use aesirguard_audit.Assembler.State.{
  Assembler, PendingEvent, CorrelationKey, key_equality, bool_eq, Completion, ReadyEvent,
  AssembledEvent, AssemblerLimitError, LimitName,
}
use aesirguard_audit.Assembler.Time.{audit_time_from_id}
use aesirguard_audit.Assembler.Clock.{observe_audit_time}
use aesirguard_audit.Assembler.Types.{is_terminal_record, terminal_completion}
use aesirguard_audit.Assembler.Expiry.{finish, expired, ordered_events}

abbrev pub key_of : Record → CorrelationKey
key_of r = record { id = r.id; node = r.node; node_present = r.node_present }

-- Same Audit ID, with a node on one side only.
abbrev pub mixes : CorrelationKey → CorrelationKey → Bool
mixes key other = other.id == key.id && not (bool_eq other.node_present key.node_present)

abbrev pub mark_if_mixed : CorrelationKey → CorrelationKey → PendingEvent → PendingEvent
mark_if_mixed key other p = if mixes key other then record p { mixed_node = true } else p

unfoldable pub any_mixed : CorrelationKey → List (CorrelationKey × PendingEvent) → Bool
any_mixed key [] = false
any_mixed key ((other, p) ∷ m) = mixes key other || any_mixed key m

unfoldable pub mark_mixed : CorrelationKey → Assembler → Assembler
mark_mixed key a = record a { pending = map_values (mark_if_mixed key) a.pending }

abbrev pub limit_error : LimitName → ℕ → AssemblerLimitError
limit_error name value = record {
  limit = name;
  value = value;
  audit_id = [];
  node = [];
  node_present = false;
  observed_records = 0;
  count_complete = false;
}

-- `record.SourceBytes > limits.MaxPendingBytes - pendingBytes`, over the integers.
abbrev pub exceeds_bytes : Record → Assembler → Bool
exceeds_bytes r a = ltb a.limits.max_pending_bytes (a.pending_bytes + r.source_bytes)

unfoldable pub check_limits : Record → Option PendingEvent → Assembler → Option AssemblerLimitError
check_limits r none a =
    if nat_eq a.limits.max_pending_events 0
    then none
    else if leb a.limits.max_pending_events (length a.pending)
    then some (limit_error LimitName.pending_events a.limits.max_pending_events)
    else if exceeds_bytes r a
    then some (limit_error LimitName.pending_bytes a.limits.max_pending_bytes)
    else none
check_limits r (some pending) a =
    if nat_eq a.limits.max_pending_events 0
    then none
    else if leb a.limits.max_records_per_event (length pending.records)
    then some (limit_error LimitName.records_per_event a.limits.max_records_per_event)
    else if exceeds_bytes r a
    then some (limit_error LimitName.pending_bytes a.limits.max_pending_bytes)
    else none

-- `assembler.nextSequence++` on a uint64.
unfoldable pub next_sequence : ℕ → ℕ
next_sequence n = (n + 1) % 2 ^ 64

abbrev pub fresh_event : Bool → ℕ → PendingEvent
fresh_event mixed sequence = record {
  mixed_node = mixed;
  records = [];
  sequence = sequence;
  last_seen = 0;
  audit_time = 0;
  has_audit_ts = false;
}

-- The clock's view of a new event, whose ID states the given audit time or none.
unfoldable pub time_event :
    CorrelationKey → Option ℕ → PendingEvent → Assembler → Assembler × PendingEvent
time_event key none p a = (a, p)
time_event key (some time) p a =
    (observe_audit_time time key a, record p { audit_time = time; has_audit_ts = true })

-- The entry for a new key, before its first record.
unfoldable pub open_event : Record → Bool → Assembler → Assembler × PendingEvent
open_event r mixed a =
    time_event (key_of r) (audit_time_from_id r.id) (fresh_event mixed a.next_sequence)
      (record a { next_sequence = next_sequence a.next_sequence })

abbrev pub with_record : Record → ℕ → PendingEvent → PendingEvent
with_record r now p = record p { records = p.records ++ r ∷ []; last_seen = now }

-- `pending.records = append(...)` through the pointer that the map holds.
unfoldable pub store_record : Record → ℕ → PendingEvent → Assembler → Assembler
store_record r now p a = record a {
  pending = insert (key_of r) (with_record r now p) a.pending;
  pending_bytes = a.pending_bytes + r.source_bytes;
}

abbrev pub one {ℓ κ} : {A : Type ℓ} {B : Type κ} → A × B → A × List B
one (a, b) = (a, b ∷ [])

-- Closing the event on a PROCTITLE, or on a terminal type.
unfoldable pub close_event : Record → Bool → PendingEvent → Assembler → Assembler × List ReadyEvent
close_event r exists p a =
    if r.record_type == codes "PROCTITLE" && exists
    then one (finish (key_of r, p) Completion.proctitle true a)
    else if is_terminal_record r.record_type
    then one (finish (key_of r, p) (terminal_completion r.record_type) true a)
    else (a, [])

abbrev pub is_some {ℓ} : {A : Type ℓ} → Option A → Bool
is_some none = false
is_some (some _) = true

-- The pending event that takes the record: the one there is, or a new one.
unfoldable pub open_or_reuse :
    Record → Bool → Option PendingEvent → Assembler → Assembler × PendingEvent
open_or_reuse r mixed none a = open_event r mixed a
open_or_reuse r mixed (some p) a = (a, p)

unfoldable pub admit :
    Record → ℕ → Bool → Option PendingEvent → Assembler → Assembler × List ReadyEvent
admit r now mixed pending a =
    let (b, p) = open_or_reuse r mixed pending a in
    close_event r (is_some pending) (with_record r now p) (store_record r now p b)

abbrev pub explained : Record → Option PendingEvent → AssemblerLimitError → AssemblerLimitError
explained r none e = record e {
  audit_id = r.id;
  node = r.node;
  node_present = r.node_present;
  observed_records = 1;
  count_complete = false;
}
explained r (some p) e = record e {
  audit_id = r.id;
  node = r.node;
  node_present = r.node_present;
  observed_records = 1 + length p.records;
  count_complete = false;
}

-- What `addAt` returns: events, or the limit that refused the record.
pub data Added : Type 0 where
  events : List AssembledEvent → Added
  limited : AssemblerLimitError → Added

-- The expiry that ends every call that admits its record.
unfoldable pub then_expire : ℕ → Assembler → List ReadyEvent → Assembler × Added
then_expire now a ready =
    let (b, late) = expired now a in (b, events (ordered_events (ready ++ late)))

unfoldable pub add_known : Record → ℕ → Bool → Option PendingEvent → Assembler → Assembler × Added
add_known r now mixed pending a =
    if not (r.record_type == codes "EOE") || is_some pending
    then elim (check_limits r pending a) [
      | some e ↦ (a, limited (explained r pending e))
      | none ↦ let (b, ready) = admit r now mixed pending a in then_expire now b ready
    ]
    else then_expire now a []

unfoldable pub add_at : Record → ℕ → Assembler → Assembler × Added
add_at r now a =
    add_known r now (any_mixed (key_of r) a.pending) (lookup (key_of r) a.pending)
      (mark_mixed (key_of r) a)

abbrev events_of : Added → List AssembledEvent
events_of (events es) = es
events_of (limited _) = []

-- `Add` and `AddAt`, which leave the error out. `AddChecked` and `AddCheckedAt` are `add_at`.
unfoldable pub add : Record → ℕ → Assembler → Assembler × List AssembledEvent
add r now a = let (b, added) = add_at r now a in (b, events_of added)
