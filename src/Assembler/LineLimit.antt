-- ===== src/Assembler/LineLimit.antt =====
-- `RejectPhysicalLine` of isolation.go emits what it takes out of the pending events, and keeps the
-- rest.
use aesirguard_audit.Base.{
  false, ℕ, ◌+◌, ◌++◌, List, [], ◌∷◌, map, Option, none, some, ◌≡◌, refl, ap, sym, ◌∙◌, arith,
  sum_by, Bytes, codes,
}
use aesirguard_audit.Base.Maps.{lookup, total}
use aesirguard_audit.Record.{Record, SourcePosition}
use aesirguard_audit.Parser.Text.{cut_at}
use aesirguard_audit.Parser.Fields.{Result, ok, err}
use aesirguard_audit.Parser.Envelope.{RecordError, parse_record}
use aesirguard_audit.Assembler.State.{
  Assembler, PendingEvent, RejectedEvent, CorrelationKey, key_equality, Completion, AssembledEvent,
}
use aesirguard_audit.Assembler.Expiry.{flush_all_with, finish, source_bytes_of}
use aesirguard_audit.Assembler.Add.{key_of}
use aesirguard_audit.Assembler.Isolation.{start_spill, track_or_spill, reject_key}
use aesirguard_audit.Assembler.Accounts.{
  emitted, IsAccounted, SameHoldings, SameHoldings-of, SameHoldings-refl, SameHoldings-IsAccounted,
}
use aesirguard_audit.Assembler.Delivery.{Delivers, nothing, finish-Delivers, flush_all_with-empty}
use aesirguard_audit.Assembler.Reject.{
  as_exceptional, reject_uncorrelated, mark_rejected, source_of, reject_pending, reject_parsed,
  reject_prefix, reject_physical_line,
}

emitted-map-as_exceptional :
    (w : Record → ℕ) (es : List AssembledEvent) → emitted w (map as_exceptional es) ≡ emitted w es
emitted-map-as_exceptional w [] = refl
emitted-map-as_exceptional w (e ∷ es) =
    ap (λ n. sum_by w e.records + n) (emitted-map-as_exceptional w es)

-- Bookkeeping on rejected keys leaves the pending events alone.
mark_rejected-SameHoldings :
    (k : CorrelationKey) (x : Option RejectedEvent) (s : SourcePosition) (now : ℕ) (a : Assembler)
    → SameHoldings a (mark_rejected k x s now a)
unfolding mark_rejected track_or_spill reject_key start_spill
mark_rejected-SameHoldings k none s now a =
    SameHoldings-of a a _ (SameHoldings-refl a) (ground arith) (ground arith)
mark_rejected-SameHoldings k (some x) s now a =
    SameHoldings-of a a _ (SameHoldings-refl a) refl refl

start_spill-SameHoldings :
    (now : ℕ) (s : SourcePosition) (a : Assembler) → SameHoldings a (start_spill now s a)
unfolding start_spill
start_spill-SameHoldings now s a =
    SameHoldings-of a a _ (SameHoldings-refl a) (ground arith) (ground arith)

SameHoldings-Delivers :
    (a b c : Assembler) (out : (Record → ℕ) → ℕ)
    → SameHoldings b c
    → Delivers a nothing b out
    → Delivers a nothing c out
SameHoldings-Delivers a b c out s d = record {
  balance = λ w. omega (arith, s.same_held (sum_by w), d.balance w);
  accounted = SameHoldings-IsAccounted b c s d.accounted;
}

-- What a line limit does to the events it is handed: each is given out or still pending.
abbrev pub Rejects : Assembler → Assembler × List AssembledEvent → Type 0
Rejects a x = Delivers a nothing x.0 (λ w. emitted w x.1)

reject_uncorrelated-Rejects :
    (s : SourcePosition) (now : ℕ) (a : Assembler)
    → IsAccounted a
    → Rejects a (reject_uncorrelated s now a)
unfolding reject_uncorrelated
reject_uncorrelated-Rejects s now a v =
    let flushed = flush_all_with Completion.line_limit a in
    let (gone, unheld, all) = flush_all_with-empty Completion.line_limit a v in
    SameHoldings-Delivers a flushed.0 _ _ (start_spill-SameHoldings now s flushed.0) (record {
      balance = λ w. omega (
        arith,
        emitted-map-as_exceptional w flushed.1,
        all w,
        ap (total (λ (p : PendingEvent). sum_by w p.records)) gone,
      );
      accounted = record {
        distinct = rw gone tt;
        bytes = unheld ∙ sym (ap (total (λ (p : PendingEvent). source_bytes_of p.records)) gone);
      };
    })

reject_pending-Rejects :
    (k : CorrelationKey) (pending : Option PendingEvent) (s : SourcePosition) (now : ℕ)
    (a : Assembler)
    → IsAccounted a
    → lookup k a.pending ≡ pending
    → Rejects a (reject_pending k pending s now a)
unfolding reject_pending
reject_pending-Rejects k none s now a v h =
    SameHoldings-Delivers a a _ (λ w. 0)
      (mark_rejected-SameHoldings k (lookup k a.rejected) s now a)
      (record { balance = λ w. omega arith; accounted = v })
reject_pending-Rejects k (some p) s now a v h =
    let done = finish (k, p) Completion.line_limit false a in
    let d = finish-Delivers (k, p) Completion.line_limit false a v h in
    let same =
      mark_rejected-SameHoldings k (lookup k done.0.rejected) (source_of p.records s) now done.0 in
    SameHoldings-Delivers a done.0 _ _ same
      (record { balance = λ w. omega (arith, d.balance w); accounted = d.accounted })

reject_parsed-Rejects :
    (parsed : Result RecordError Record) (s : SourcePosition) (now : ℕ) (a : Assembler)
    → IsAccounted a
    → Rejects a (reject_parsed parsed s now a)
unfolding reject_parsed
reject_parsed-Rejects (err e) s now a v = reject_uncorrelated-Rejects s now a v
reject_parsed-Rejects (ok r) s now a v =
    reject_pending-Rejects (key_of r) (lookup (key_of r) a.pending) s now a v refl

reject_prefix-Rejects :
    (normalize : Bytes → Bytes) (cut : Option (Bytes × Bytes)) (s : SourcePosition) (now : ℕ)
    (a : Assembler)
    → IsAccounted a
    → Rejects a (reject_prefix normalize cut s now a)
unfolding reject_prefix
reject_prefix-Rejects normalize none s now a v = reject_uncorrelated-Rejects s now a v
reject_prefix-Rejects normalize (some (before, _)) s now a v =
    reject_parsed-Rejects (parse_record normalize (before ++ codes "):")) s now a v

-- The physical line limit, whatever the payload normaliser does and whatever prefix was retained:
-- when the map of pending events has distinct keys and the byte counter is exact, every pending
-- record is afterwards still pending or in the emitted events, once, none is added, and keys and
-- counter stay so.
pub reject_physical_line-Delivers :
    (normalize : Bytes → Bytes) (prefix : Bytes) (s : SourcePosition) (now : ℕ) (a : Assembler)
    → IsAccounted a
    → Rejects a (reject_physical_line normalize prefix s now a)
unfolding reject_physical_line
reject_physical_line-Delivers normalize prefix s now a v =
    reject_prefix-Rejects normalize (cut_at (codes "):") prefix) s now a v
