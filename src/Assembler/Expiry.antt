-- ===== src/Assembler/Expiry.antt =====
-- `finish`, `expired`, `orderedEvents`, `FlushExpired` and `FlushAllWith`: how pending events leave.
use aesirguard_audit.Base.{
  ℕ, ◌+◌, ◌-◌, Bool, false, ◌&&◌, ◌||◌, not, List, [], ◌∷◌, map, ltb, nat_eq, if◌then◌else◌, sum_by,
  keep, length,
}
use aesirguard_audit.Base.Maps.{delete}
use aesirguard_audit.Base.Sort.{sort_by}
use aesirguard_audit.Record.{Record, zero_position}
use aesirguard_audit.Assembler.State.{
  Assembler, PendingEvent, RejectedEvent, CorrelationKey, key_equality, Completion, ReadyEvent,
  AssembledEvent,
}

abbrev pub Entry : Type 0
Entry = CorrelationKey × PendingEvent

abbrev pub source_bytes_of : List Record → ℕ
source_bytes_of = sum_by (λ r. r.source_bytes)

-- The event that `finish` makes of what the map holds under a key.
abbrev pub finished : Entry → Completion → Bool → ReadyEvent
finished (id, pending) completion complete = record {
  sequence = pending.sequence;
  event = record {
    sequence = 0;
    exceptional = false;
    mixed_node = pending.mixed_node;
    id = id.id;
    records = pending.records;
    complete = complete;
    completion = completion;
  };
}

-- The state that `finish` leaves. The entry is passed along: each caller has just read it.
unfoldable pub remove_pending : Entry → Assembler → Assembler
remove_pending (id, pending) a = record a {
  pending = delete id a.pending;
  pending_bytes = a.pending_bytes - source_bytes_of pending.records;
}

unfoldable pub finish : Entry → Completion → Bool → Assembler → Assembler × ReadyEvent
finish e completion complete a = (remove_pending e a, finished e completion complete)

unfoldable pub wall_expired : ℕ → Assembler → PendingEvent → Bool
wall_expired now a p = not (nat_eq p.last_seen 0) && not (ltb now (p.last_seen + a.timeout))

unfoldable pub watermark_expired : Assembler → PendingEvent → Bool
watermark_expired a p = p.has_audit_ts && not (ltb a.latest_audit_time (p.audit_time + a.timeout))

-- The entries past the watermark or the inactivity timeout.
unfoldable pub due : ℕ → Assembler → List Entry
due now a = keep (λ (e : Entry). wall_expired now a e.1 || watermark_expired a e.1) a.pending

unfoldable pub expire_one : Entry → Assembler → Assembler × ReadyEvent
expire_one e a =
    let watermark = watermark_expired a e.1 in
    finish e (if watermark then Completion.watermark else Completion.timeout) watermark a

unfoldable pub expire_all : List Entry → Assembler → Assembler × List ReadyEvent
expire_all [] a = (a, [])
expire_all (e ∷ es) a =
    let (b, ready) = expire_one e a in let (c, rest) = expire_all es b in (c, ready ∷ rest)

unfoldable pub expired : ℕ → Assembler → Assembler × List ReadyEvent
expired now a =
    if nat_eq a.timeout 0
    then (a, [])
    else expire_all (sort_by (λ (e : Entry). e.1.sequence) (due now a)) a

-- `item.event.sequence = item.sequence`
abbrev pub stamped : ReadyEvent → AssembledEvent
stamped item = record (item.event) { sequence = item.sequence }

unfoldable pub ordered_events : List ReadyEvent → List AssembledEvent
ordered_events ready = map stamped (sort_by (λ (r : ReadyEvent). r.sequence) ready)

-- `expireRejected` of isolation.go: one round of the loop over the rejected keys, the loop, and the
-- fence behind it.
unfoldable pub expire_rejected_key : ℕ → CorrelationKey → RejectedEvent → Assembler → Assembler
expire_rejected_key now key r a =
    if ltb 0 a.timeout && not (ltb now (r.last_seen + a.timeout))
    then record a {
      rejected = delete key a.rejected;
      rejection_bytes = a.rejection_bytes - r.key_bytes;
    }
    else a

unfoldable pub expire_rejected_keys :
    ℕ → List (CorrelationKey × RejectedEvent) → Assembler → Assembler
expire_rejected_keys now [] a = a
expire_rejected_keys now ((key, r) ∷ rest) a =
    expire_rejected_keys now rest (expire_rejected_key now key r a)

unfoldable pub expire_spill : ℕ → Assembler → Assembler
expire_spill now a =
    if not (nat_eq a.spill_since 0) && ltb 0 a.timeout && not (ltb now (a.spill_since + a.timeout))
    then record a { spill_since = 0; spill_source = zero_position }
    else a

unfoldable pub expire_rejected : ℕ → Assembler → Assembler
expire_rejected now a = expire_spill now (expire_rejected_keys now a.rejected a)

unfoldable pub flush_expired : ℕ → Assembler → Assembler × List AssembledEvent
flush_expired now a =
    let (b, ready) = expired now (expire_rejected now a) in (b, ordered_events ready)

unfoldable pub finish_all : List Entry → Completion → Assembler → Assembler × List ReadyEvent
finish_all [] completion a = (a, [])
finish_all (e ∷ es) completion a =
    let (b, ready) = finish e completion false a in
    let (c, rest) = finish_all es completion b in (c, ready ∷ rest)

abbrev pub clear_rejected : Assembler → Assembler
clear_rejected a = record a {
  rejected = [];
  rejection_bytes = 0;
  spill_since = 0;
  spill_source = zero_position;
}

unfoldable pub flush_all_with : Completion → Assembler → Assembler × List AssembledEvent
flush_all_with completion a =
    let (b, ready) = finish_all a.pending completion (clear_rejected a) in (b, ordered_events ready)

-- `FlushAll`.
unfoldable pub flush_all : Assembler → Assembler × List AssembledEvent
flush_all a = flush_all_with Completion.eof a

-- `RejectionTracking`; `Pending` and `PendingBytes` read one field each.
unfoldable pub rejection_tracking : Assembler → ℕ × ℕ × Bool
rejection_tracking a = (length a.rejected, a.rejection_bytes, not (nat_eq a.spill_since 0))
