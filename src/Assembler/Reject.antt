-- ===== src/Assembler/Reject.antt =====
-- `RejectPhysicalLine` of isolation.go: a line over the byte limit, of which a prefix is retained.
use aesirguard_audit.Base.{
  ℕ, ◌++◌, List, [], ◌∷◌, true, false, Option, none, some, Bytes, codes, map,
}
use aesirguard_audit.Base.Maps.{lookup, insert}
use aesirguard_audit.Record.{Record, SourcePosition}
use aesirguard_audit.Parser.Text.{cut_at}
use aesirguard_audit.Parser.Fields.{Result, ok, err}
use aesirguard_audit.Parser.Envelope.{RecordError, parse_record}
use aesirguard_audit.Assembler.State.{
  Assembler, PendingEvent, RejectedEvent, CorrelationKey, key_equality, Completion, AssembledEvent,
}
use aesirguard_audit.Assembler.Expiry.{finish, flush_all_with}
use aesirguard_audit.Assembler.Add.{key_of}
use aesirguard_audit.Assembler.Isolation.{start_spill, track_or_spill}

abbrev pub as_exceptional : AssembledEvent → AssembledEvent
as_exceptional e = record e { exceptional = true }

-- No key can be read: everything pending is emitted, and the fence goes up.
unfoldable pub reject_uncorrelated :
    SourcePosition → ℕ → Assembler → Assembler × List AssembledEvent
reject_uncorrelated source now a =
    let (b, es) = flush_all_with Completion.line_limit a in
    (start_spill now source b, map as_exceptional es)

-- A key that is rejected already is seen again; else it is tracked, or the fence goes up.
unfoldable pub mark_rejected :
    CorrelationKey → Option RejectedEvent → SourcePosition → ℕ → Assembler → Assembler
mark_rejected key (some x) source now a = record a {
  rejected = insert key (record x { last_seen = now }) a.rejected;
}
mark_rejected key none source now a = track_or_spill key now source source a

-- `event.Records[0].Source`, if the event has a record.
abbrev pub source_of : List Record → SourcePosition → SourcePosition
source_of [] source = source
source_of (r ∷ _) source = r.source

unfoldable pub reject_pending :
    CorrelationKey
    → Option PendingEvent
    → SourcePosition
    → ℕ
    → Assembler
    → Assembler × List AssembledEvent
reject_pending key none source now a = (mark_rejected key (lookup key a.rejected) source now a, [])
reject_pending key (some p) source now a =
    let (b, ready) = finish (key, p) Completion.line_limit false a in
    (
      mark_rejected key (lookup key b.rejected) (source_of p.records source) now b,
      as_exceptional ready.event ∷ [],
    )

unfoldable pub reject_parsed :
    Result RecordError Record → SourcePosition → ℕ → Assembler → Assembler × List AssembledEvent
reject_parsed (err _) source now a = reject_uncorrelated source now a
reject_parsed (ok r) source now a =
    reject_pending (key_of r) (lookup (key_of r) a.pending) source now a

-- The prefix up to the key's `):`, if it reaches that far.
unfoldable pub reject_prefix :
    (Bytes → Bytes)
    → Option (Bytes × Bytes)
    → SourcePosition
    → ℕ
    → Assembler
    → Assembler × List AssembledEvent
reject_prefix normalize_payload none source now a = reject_uncorrelated source now a
reject_prefix normalize_payload (some (before, _)) source now a =
    reject_parsed (parse_record normalize_payload (before ++ codes "):")) source now a

unfoldable pub reject_physical_line :
    (Bytes → Bytes) → Bytes → SourcePosition → ℕ → Assembler → Assembler × List AssembledEvent
reject_physical_line normalize_payload prefix source now a =
    reject_prefix normalize_payload (cut_at (codes "):") prefix) source now a
