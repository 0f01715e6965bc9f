-- ===== src/Assembler/Isolation.antt =====
-- isolation.go: `AddRecovering`, and the part of `RejectPhysicalLine` behind its envelope parse.
use aesirguard_audit.Base.{
  ℕ, ◌+◌, ◌-◌, Bool, true, false, ◌&&◌, ◌||◌, not, List, [], ◌∷◌, ◌++◌, map, Option, none, some,
  ◌==◌, codes, bytes_equality, leb, ltb, nat_eq, if◌then◌else◌, length,
}
use aesirguard_audit.Base.Maps.{lookup, insert, delete}
use aesirguard_audit.Record.{Record, SourcePosition, source_position_before}
use aesirguard_audit.Assembler.State.{
  Assembler, PendingEvent, RejectedEvent, CorrelationKey, key_equality, Completion, ReadyEvent,
  AssembledEvent, AssemblerLimitError,
}
use aesirguard_audit.Assembler.Types.{is_terminal_record}
use aesirguard_audit.Assembler.Expiry.{
  finish, remove_pending, expired, expire_rejected, ordered_events,
}
use aesirguard_audit.Assembler.Add.{
  key_of, Added, events, limited, add_at, exceeds_bytes, next_sequence,
}

unfoldable pub start_spill : ℕ → SourcePosition → Assembler → Assembler
start_spill now source a = record b { spill_since = now }
  where
    b : Assembler
    b =
        if nat_eq a.spill_since 0
          || (source.valid
              && (not a.spill_source.valid || source_position_before source a.spill_source))
        then record a { spill_source = source }
        else a

abbrev pub key_bytes : CorrelationKey → ℕ
key_bytes key = length key.id + length key.node

-- `len(a.rejected) < MaxPendingEvents && size <= MaxPendingBytes - rejectionBytes`
abbrev pub has_room : CorrelationKey → Assembler → Bool
has_room key a =
    ltb (length a.rejected) a.limits.max_pending_events
    && leb (a.rejection_bytes + key_bytes key) a.limits.max_pending_bytes

unfoldable pub reject_key : CorrelationKey → ℕ → SourcePosition → Assembler → Assembler
reject_key key now source a = record a {
  rejected =
      insert key (record { source = source; last_seen = now; key_bytes = key_bytes key })
        a.rejected;
  rejection_bytes = a.rejection_bytes + key_bytes key;
}

-- Track the key if there is room (at `tracked`), else raise the fence (at `untracked`).
unfoldable pub track_or_spill :
    CorrelationKey → ℕ → SourcePosition → SourcePosition → Assembler → Assembler
track_or_spill key now tracked untracked a =
    if has_room key a then reject_key key now tracked a else start_spill now untracked a

abbrev pub exceptional_event : Record → List Record → ℕ → AssembledEvent
exceptional_event r records sequence = record {
  sequence = sequence;
  exceptional = true;
  mixed_node = false;
  id = r.id;
  records = records;
  complete = false;
  completion = Completion.assembly_limit;
}

-- The local function `exceptional`: a pending event lends its number.
unfoldable pub exceptional :
    Record → Option PendingEvent → List Record → Assembler → Assembler × AssembledEvent
exceptional r none records a = (
  record a { next_sequence = next_sequence a.next_sequence },
  exceptional_event r records a.next_sequence,
)
exceptional r (some p) records a = (a, exceptional_event r records p.sequence)

-- What `AddRecovering` returns, the state aside.
abbrev pub Recovered : Type 0
Recovered = List AssembledEvent × Option AssemblerLimitError

-- `return []AssembledEvent{exceptional(records)}, diagnostic`
unfoldable pub emit_exception :
    Record
    → Option PendingEvent
    → List Record
    → Option AssemblerLimitError
    → Assembler
    → Assembler × Recovered
emit_exception r pending records diagnostic a =
    let (b, event) = exceptional r pending records a in (b, (event ∷ [], diagnostic))

abbrev pub is_terminal : Record → Bool
is_terminal r = is_terminal_record r.record_type || r.record_type == codes "PROCTITLE"

-- A record of a key that was rejected before.
unfoldable pub add_rejected :
    Record → ℕ → Option PendingEvent → RejectedEvent → Assembler → Assembler × Recovered
add_rejected r now pending rejected a = emit_exception r pending (r ∷ []) none b
  where
    b : Assembler
    b =
        if is_terminal r
        then record a {
          rejected = delete (key_of r) a.rejected;
          rejection_bytes = a.rejection_bytes - rejected.key_bytes;
        }
        else record a {
          rejected = insert (key_of r) (record rejected { last_seen = now }) a.rejected;
        }

-- An EOE that finds its event full closes it and is not retained.
abbrev pub closes_full : Record → PendingEvent → Assembler → Bool
closes_full r p a =
    r.record_type == codes "EOE"
    && ltb 0 a.limits.max_records_per_event
    && (leb a.limits.max_records_per_event (length p.records) || exceeds_bytes r a)

-- A new key while the fence is up.
unfoldable pub add_fenced : Record → ℕ → Assembler → Assembler × Recovered
add_fenced r now a =
    emit_exception r none (r ∷ []) none
      (if is_terminal r then a else track_or_spill (key_of r) now a.spill_source r.source a)

-- `records[0].Source`
abbrev pub first_source : List Record → Record → SourcePosition
first_source [] r = r.source
first_source (x ∷ _) r = x.source

-- The record that `addAt` refused, with what was pending under its key.
unfoldable pub add_over_limit :
    Record → ℕ → Option PendingEvent → AssemblerLimitError → Assembler → Assembler × Recovered
add_over_limit r now none limit a =
    emit_exception r none (r ∷ []) (some limit)
      (if is_terminal r then a else track_or_spill (key_of r) now r.source r.source a)
add_over_limit r now (some p) limit a =
    let records = p.records ++ r ∷ [] in
    let b = remove_pending (key_of r, p) a in
    emit_exception r (some p) records (some limit) (
      if is_terminal r
      then b
      else track_or_spill (key_of r) now (first_source records r) (first_source records r) b)

unfoldable pub recover_added :
    Record → ℕ → Option PendingEvent → Assembler → Added → Assembler × Recovered
recover_added r now pending a (events es) = (a, (es, none))
recover_added r now pending a (limited e) = add_over_limit r now pending e a

unfoldable pub add_admissible : Record → ℕ → Option PendingEvent → Assembler → Assembler × Recovered
add_admissible r now pending a =
    let (b, added) = add_at r now a in recover_added r now pending b added

abbrev pub close_full : Assembler × ReadyEvent → Assembler × Recovered
close_full (b, ready) = (b, (ordered_events (ready ∷ []), none))

-- Behind the test for rejected keys.
unfoldable pub add_unrejected : Record → ℕ → Option PendingEvent → Assembler → Assembler × Recovered
add_unrejected r now none a =
    if not (nat_eq a.spill_since 0) then add_fenced r now a else add_admissible r now none a
add_unrejected r now (some p) a =
    if closes_full r p a
    then close_full (finish (key_of r, p) Completion.eoe true a)
    else add_admissible r now (some p) a

-- The test for rejected keys.
unfoldable pub isolate :
    Record → ℕ → Option PendingEvent → Option RejectedEvent → Assembler → Assembler × Recovered
isolate r now pending (some rejected) a = add_rejected r now pending rejected a
isolate r now pending none a = add_unrejected r now pending a

unfoldable pub add_isolated : Record → ℕ → Option PendingEvent → Assembler → Assembler × Recovered
add_isolated r now pending a = isolate r now pending (lookup (key_of r) a.rejected) a

-- `readyEvent{sequence: event.sequence, event: event}`
abbrev pub readied : AssembledEvent → ReadyEvent
readied e = record { sequence = e.sequence; event = e }

-- The deferred merge of what had expired with what the call returns.
unfoldable pub merge_expired : List ReadyEvent → List AssembledEvent → List AssembledEvent
merge_expired [] es = es
merge_expired (x ∷ xs) es = ordered_events ((x ∷ xs) ++ map readied es)

unfoldable pub add_recovering : Record → ℕ → Assembler → Assembler × Recovered
add_recovering r now a0 =
    let (a1, late) = expired now a0 in
    let a2 = expire_rejected now a1 in
    let (a3, (es, diagnostic)) = add_isolated r now (lookup (key_of r) a2.pending) a2 in
    (a3, (merge_expired late es, diagnostic))
