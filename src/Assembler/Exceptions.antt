-- ===== src/Assembler/Exceptions.antt =====
-- The paths of `AddRecovering` in isolation.go that emit an exception, and what they do with records.
use aesirguard_audit.Base.{
  ℕ, List, [], ◌∷◌, ◌++◌, Option, none, some, ◌≡◌, ◌⊎◌, inl, inr, arith, sum_by, sum_by-append,
  Bool-cases, if◌then◌else◌, codes, bytes_equality,
}
use aesirguard_audit.Base.Maps.{lookup, lookup-map_values}
use aesirguard_audit.Record.{Record, SourcePosition}
use aesirguard_audit.Assembler.State.{
  Assembler, PendingEvent, RejectedEvent, CorrelationKey, key_equality, AssemblerLimitError,
}
use aesirguard_audit.Assembler.Expiry.{remove_pending}
use aesirguard_audit.Assembler.Add.{
  key_of, mark_mixed, mark_if_mixed, limited, then_expire, add_known, add_at,
}
use aesirguard_audit.Assembler.Isolation.{
  start_spill, reject_key, track_or_spill, exceptional, emit_exception, is_terminal, add_rejected,
  add_fenced, first_source, add_over_limit, Recovered,
}
use aesirguard_audit.Assembler.Accounts.{
  emitted, IsAccounted, SameHoldings, SameHoldings-of, SameHoldings-refl, SameHoldings-IsAccounted,
  remove_pending-held, remove_pending-IsAccounted,
}
use aesirguard_audit.Assembler.Delivery.{Delivers, nothing}

-- The weight of the events that a call of `AddRecovering` returns.
abbrev pub recovered : Assembler × Recovered → (Record → ℕ) → ℕ
recovered x w = emitted w x.1.0

-- Whole: the record is pending or emitted. An EOE, which carries no event data, may be dropped.
abbrev pub Accounts : Record → Assembler → Assembler × Recovered → Type 0
Accounts r a x =
    Delivers a (λ w. w r) x.0 (recovered x)
    ⊎ ((r.record_type ≡ codes "EOE") × Delivers a nothing x.0 (recovered x))

-- A state change that moves no record, before a delivery.
pub after_same :
    {added out : (Record → ℕ) → ℕ} (a b c : Assembler)
    → SameHoldings a b
    → Delivers b added c out
    → Delivers a added c out
after_same a b c s d = record {
  balance = λ w. omega (arith, d.balance w, s.same_held (sum_by w));
  accounted = d.accounted;
}

pub emit_exception-Delivers :
    (r : Record) (pending : Option PendingEvent) (records : List Record)
    (diagnostic : Option AssemblerLimitError) (a : Assembler)
    → IsAccounted a
    → Delivers a
        (λ w. sum_by w records)
        (emit_exception r pending records diagnostic a).0
        (recovered (emit_exception r pending records diagnostic a))
unfolding emit_exception exceptional
emit_exception-Delivers r none records d a v = record {
  balance = λ w. omega arith;
  accounted = record { distinct = v.distinct; bytes = v.bytes };
}
emit_exception-Delivers r (some p) records d a v = record {
  balance = λ w. omega arith;
  accounted = v;
}

-- Tracking a key or raising the fence leaves the pending events alone.
pub track_or_spill-SameHoldings :
    (k : CorrelationKey) (now : ℕ) (s t : SourcePosition) (a : Assembler)
    → SameHoldings a (track_or_spill k now s t a)
unfolding track_or_spill reject_key start_spill
track_or_spill-SameHoldings k now s t a =
    SameHoldings-of a a _ (SameHoldings-refl a) (ground arith) (ground arith)

pub unless_terminal-SameHoldings :
    (r : Record) (k : CorrelationKey) (now : ℕ) (s t : SourcePosition) (a : Assembler)
    → SameHoldings a (if is_terminal r then a else track_or_spill k now s t a)
unless_terminal-SameHoldings r k now s t a = elim (Bool-cases (is_terminal r)) [
  | inl yes' ↦ rw yes' (SameHoldings-refl a)
  | inr no' ↦ rw no' (track_or_spill-SameHoldings k now s t a)
]

pub except-Delivers :
    (r : Record) (pending : Option PendingEvent) (d : Option AssemblerLimitError) (a b : Assembler)
    → IsAccounted a
    → SameHoldings a b
    → Delivers a
        (λ w. w r)
        (emit_exception r pending (r ∷ []) d b).0
        (recovered (emit_exception r pending (r ∷ []) d b))
except-Delivers r pending d a b v s =
    let e =
      after_same a b _ s
        (emit_exception-Delivers r pending (r ∷ []) d b (SameHoldings-IsAccounted a b s v)) in
    record { balance = λ w. omega (arith, e.balance w); accounted = e.accounted }

pub add_rejected-Delivers :
    (r : Record) (now : ℕ) (pending : Option PendingEvent) (rejected : RejectedEvent)
    (a : Assembler)
    → IsAccounted a
    → Delivers a
        (λ w. w r)
        (add_rejected r now pending rejected a).0
        (recovered (add_rejected r now pending rejected a))
unfolding add_rejected
add_rejected-Delivers r now pending rejected a v =
    except-Delivers r pending none a _ v
      (SameHoldings-of a a _ (SameHoldings-refl a) (ground arith) (ground arith))

pub add_fenced-Delivers :
    (r : Record) (now : ℕ) (a : Assembler)
    → IsAccounted a
    → Delivers a (λ w. w r) (add_fenced r now a).0 (recovered (add_fenced r now a))
unfolding add_fenced
add_fenced-Delivers r now a v =
    except-Delivers r none none a _ v
      (unless_terminal-SameHoldings r (key_of r) now a.spill_source r.source a)

-- What was pending under the refused record's key, if anything, is what the map holds.
abbrev pub Holds : CorrelationKey → Option PendingEvent → Assembler → Type 0
Holds k pending a = lookup k a.pending ≡ pending

pub add_over_limit-Delivers :
    (r : Record) (now : ℕ) (pending : Option PendingEvent) (limit : AssemblerLimitError)
    (a : Assembler)
    → IsAccounted a
    → Holds (key_of r) pending a
    → Delivers a
        (λ w. w r)
        (add_over_limit r now pending limit a).0
        (recovered (add_over_limit r now pending limit a))
unfolding add_over_limit
add_over_limit-Delivers r now none limit a v h =
    except-Delivers r none (some limit) a _ v
      (unless_terminal-SameHoldings r (key_of r) now r.source r.source a)
add_over_limit-Delivers r now (some p) limit a v h =
    let e : CorrelationKey × PendingEvent = (key_of r, p) in
    let records = p.records ++ r ∷ [] in
    let b = remove_pending e a in
    let c =
      if is_terminal r
      then b
      else track_or_spill (key_of r) now (first_source records r) (first_source records r) b in
    let s =
      unless_terminal-SameHoldings r (key_of r) now (first_source records r)
        (first_source records r) b in
    let removed = remove_pending-IsAccounted e a v h in
    let d = after_same b c _ s (
      emit_exception-Delivers r (some p) records (some limit) c
        (SameHoldings-IsAccounted b c s removed)) in
    record {
      balance = λ w. omega (
        arith,
        d.balance w,
        remove_pending-held w e a v.distinct h,
        sum_by-append w p.records (r ∷ []),
      );
      accounted = d.accounted;
    }

-- Nothing else than the mixed-node marks remains of a refused call.
pub limited-state :
    (r : Record) (now : ℕ) (a : Assembler) {e : AssemblerLimitError}
    → (add_at r now a).1 ≡ limited e
    → (add_at r now a).0 ≡ mark_mixed (key_of r) a
unfolding add_at add_known then_expire
limited-state r now a h = ground arith

-- A key is not mixed with itself.
pub mark_mixed-Holds :
    (r : Record) (pending : Option PendingEvent) (a : Assembler)
    → Holds (key_of r) pending a
    → Holds (key_of r) pending (mark_mixed (key_of r) a)
unfolding mark_mixed
mark_mixed-Holds r pending a h =
    ground (arith, lookup-map_values (mark_if_mixed (key_of r)) (key_of r) a.pending)
