-- ===== src/Assembler/Accounts.antt =====
-- What the assembler holds, weighed: each operation moves records from the pending events to the
-- emitted ones, and `pending_bytes` follows.
use aesirguard_audit.Base.{
  ℕ, ◌+◌, Bool, true, false, List, [], ◌∷◌, Option, none, some, ◌≡◌, refl, ◌∙◌, sym, inl, inr,
  arith, sum_by, sum_by-append, Option-cases,
}
use aesirguard_audit.Base.Maps.{
  lookup, Distinct, total, weigh, map_values, total-insert, total-delete, Distinct-insert,
  Distinct-delete, Distinct-map_values, total-map_values, lookup-map_values,
}
use aesirguard_audit.Record.{Record}
use aesirguard_audit.Assembler.State.{
  Assembler, PendingEvent, CorrelationKey, key_equality, ReadyEvent, AssembledEvent,
}
use aesirguard_audit.Assembler.Clock.{
  observe_audit_time, observe_node, node_changed, close_epoch, move_watermark, forget_audit_times,
}
use aesirguard_audit.Assembler.Time.{audit_time_from_id}
use aesirguard_audit.Assembler.Expiry.{Entry, source_bytes_of, remove_pending}
use aesirguard_audit.Assembler.Add.{
  time_event, fresh_event, next_sequence, key_of, mark_mixed, mark_if_mixed, open_event,
  with_record, store_record,
}

-- The weight of what is pending, by a weight on lists of records.
abbrev pub held : (List Record → ℕ) → Assembler → ℕ
held g a = total (λ (p : PendingEvent). g p.records) a.pending

-- The weight of the records in a list of events.
abbrev pub emitted : (Record → ℕ) → List AssembledEvent → ℕ
emitted w = sum_by (λ (e : AssembledEvent). sum_by w e.records)

abbrev pub emitted_ready : (Record → ℕ) → List ReadyEvent → ℕ
emitted_ready w = sum_by (λ (e : ReadyEvent). sum_by w e.event.records)

-- Keys are distinct, and the byte counter is the sum over the pending records.
pub record IsAccounted (a : Assembler) : Type 0 where
  pub distinct : Distinct a.pending
  pub bytes : a.pending_bytes ≡ held source_bytes_of a

-- The two states hold the same records, grouped alike.
pub record SameHoldings (a b : Assembler) : Type 0 where
  pub same_held : (g : List Record → ℕ) → held g b ≡ held g a
  pub same_weigh :
      (g : List Record → ℕ) (k : CorrelationKey)
      → weigh (λ (p : PendingEvent). g p.records) (lookup k b.pending)
        ≡ weigh (λ (p : PendingEvent). g p.records) (lookup k a.pending)
  pub same_bytes : b.pending_bytes ≡ a.pending_bytes
  pub same_distinct : Distinct a.pending → Distinct b.pending

pub SameHoldings-IsAccounted : (a b : Assembler) → SameHoldings a b → IsAccounted a → IsAccounted b
SameHoldings-IsAccounted a b s v = record {
  distinct = s.same_distinct v.distinct;
  bytes = s.same_bytes ∙ v.bytes ∙ sym (s.same_held source_bytes_of);
}

-- A change that leaves the records alone is not seen by a weight on them.
weigh-map_values :
    (g : List Record → ℕ) (f : CorrelationKey → PendingEvent → PendingEvent)
    → ((k : CorrelationKey) (p : PendingEvent) → g (f k p).records ≡ g p.records)
    → (k : CorrelationKey) (m : List (CorrelationKey × PendingEvent))
    → weigh (λ (p : PendingEvent). g p.records) (lookup k (map_values f m))
      ≡ weigh (λ (p : PendingEvent). g p.records) (lookup k m)
weigh-map_values g f h k m = elim (Option-cases (lookup k m)) [
  | inl e ↦ ground (arith, lookup-map_values f k m)
  | inr (p, e) ↦ ground (arith, lookup-map_values f k m, h k p)
]

pub mark_mixed-SameHoldings :
    (key : CorrelationKey) (a : Assembler) → SameHoldings a (mark_mixed key a)
unfolding mark_mixed
mark_mixed-SameHoldings key a = record {
  same_held = λ g. total-map_values _ (mark_if_mixed key) a.pending (λ k p. ground arith);
  same_weigh = λ g k. weigh-map_values g (mark_if_mixed key) (λ j p. ground arith) k a.pending;
  same_bytes = refl;
  same_distinct = Distinct-map_values (mark_if_mixed key) a.pending;
}

pub SameHoldings-refl : (a : Assembler) → SameHoldings a a
SameHoldings-refl a = record {
  same_held = λ g. refl;
  same_weigh = λ g k. refl;
  same_bytes = refl;
  same_distinct = λ d. d;
}

pub SameHoldings-trans :
    (a b c : Assembler) → SameHoldings a b → SameHoldings b c → SameHoldings a c
SameHoldings-trans a b c s t = record {
  same_held = λ g. t.same_held g ∙ s.same_held g;
  same_weigh = λ g k. t.same_weigh g k ∙ s.same_weigh g k;
  same_bytes = t.same_bytes ∙ s.same_bytes;
  same_distinct = λ d. t.same_distinct (s.same_distinct d);
}

forget-SameHoldings : (a : Assembler) → SameHoldings a (forget_audit_times a)
unfolding forget_audit_times
forget-SameHoldings a = record {
  same_held = λ g. total-map_values _ _ a.pending (λ k p. refl);
  same_weigh = λ g k. weigh-map_values g _ (λ j p. refl) k a.pending;
  same_bytes = refl;
  same_distinct = Distinct-map_values _ a.pending;
}

-- Only the pending events and the byte counter count.
pub SameHoldings-of :
    (a b c : Assembler)
    → SameHoldings a b
    → c.pending ≡ b.pending
    → c.pending_bytes ≡ b.pending_bytes
    → SameHoldings a c
SameHoldings-of a b c s p q = record {
  same_held = λ g. rw p (s.same_held g);
  same_weigh = λ g k. rw p (s.same_weigh g k);
  same_bytes = q ∙ s.same_bytes;
  same_distinct = λ d. rw p (s.same_distinct d);
}

close_epoch-SameHoldings : (e : Bool) (a : Assembler) → SameHoldings a (close_epoch e a)
unfolding close_epoch
close_epoch-SameHoldings true a =
    SameHoldings-of a (forget_audit_times a) _ (forget-SameHoldings a) refl refl
close_epoch-SameHoldings false a = SameHoldings-refl a

move_watermark-SameHoldings :
    (jump : Bool) (time : ℕ) (a : Assembler) → SameHoldings a (move_watermark jump time a)
unfolding move_watermark
move_watermark-SameHoldings true time a =
    SameHoldings-of a (forget_audit_times a) _ (forget-SameHoldings a) refl refl
move_watermark-SameHoldings false time a =
    SameHoldings-of a a _ (SameHoldings-refl a) (ground arith) (ground arith)

pub observe-SameHoldings :
    (time : ℕ) (key : CorrelationKey) (a : Assembler)
    → SameHoldings a (observe_audit_time time key a)
unfolding observe_audit_time observe_node
observe-SameHoldings time key a =
    SameHoldings-trans a (observe_node key a) _
      (SameHoldings-of a (close_epoch (node_changed key a) a) _
        (close_epoch-SameHoldings (node_changed key a) a) refl refl)
      (move_watermark-SameHoldings _ time (observe_node key a))

time_event-SameHoldings :
    (key : CorrelationKey) (t : Option ℕ) (p : PendingEvent) (a : Assembler)
    → SameHoldings a (time_event key t p a).0 × ((time_event key t p a).1.records ≡ p.records)
unfolding time_event
time_event-SameHoldings key none p a = (SameHoldings-refl a, refl)
time_event-SameHoldings key (some t) p a = (observe-SameHoldings t key a, refl)

numbered-SameHoldings : (n : ℕ) (a : Assembler) → SameHoldings a (record a { next_sequence = n })
numbered-SameHoldings n a = SameHoldings-of a a _ (SameHoldings-refl a) refl refl

-- A new event holds nothing yet.
pub open_event-SameHoldings :
    (r : Record) (mixed : Bool) (a : Assembler)
    → SameHoldings a (open_event r mixed a).0 × ((open_event r mixed a).1.records ≡ [])
unfolding open_event
open_event-SameHoldings r mixed a =
    let b = record a { next_sequence = next_sequence a.next_sequence } in
    let (s, e) =
      time_event-SameHoldings (key_of r) (audit_time_from_id r.id)
        (fresh_event mixed a.next_sequence) b in
    (SameHoldings-trans a b _ (numbered-SameHoldings _ a) s, e)

-- Storing a record under its key adds its weight.
pub store_record-held :
    (w : Record → ℕ) (r : Record) (now : ℕ) (p : PendingEvent) (a : Assembler)
    → weigh (λ (q : PendingEvent). sum_by w q.records) (lookup (key_of r) a.pending)
      ≡ sum_by w p.records
    → held (sum_by w) (store_record r now p a) ≡ held (sum_by w) a + w r
unfolding store_record
store_record-held w r now p a h = omega (
  arith,
  total-insert (λ (q : PendingEvent). sum_by w q.records) (key_of r) (with_record r now p)
      a.pending,
  sum_by-append w p.records (r ∷ []),
)

pub store_record-IsAccounted :
    (r : Record) (now : ℕ) (p : PendingEvent) (a : Assembler)
    → IsAccounted a
    → weigh (λ (q : PendingEvent). source_bytes_of q.records) (lookup (key_of r) a.pending)
      ≡ source_bytes_of p.records
    → IsAccounted (store_record r now p a)
store_record-IsAccounted r now p a v h = record {
  distinct = unfold store_record in Distinct-insert _ _ a.pending v.distinct;
  bytes =
      unfold store_record in
      omega (arith, v.bytes, store_record-held (λ r. r.source_bytes) r now p a h);
}

-- Removing an entry that the map holds takes its records out.
pub remove_pending-held :
    (w : Record → ℕ) (e : Entry) (a : Assembler)
    → Distinct a.pending
    → lookup e.0 a.pending ≡ some e.1
    → held (sum_by w) (remove_pending e a) + sum_by w e.1.records ≡ held (sum_by w) a
unfolding remove_pending
remove_pending-held w (k, p) a d h =
    rw h at (total-delete (λ (q : PendingEvent). sum_by w q.records) k a.pending d)

pub remove_pending-IsAccounted :
    (e : Entry) (a : Assembler)
    → IsAccounted a
    → lookup e.0 a.pending ≡ some e.1
    → IsAccounted (remove_pending e a)
remove_pending-IsAccounted (k, p) a v h = record {
  distinct = unfold remove_pending in Distinct-delete k a.pending v.distinct;
  bytes =
      unfold remove_pending in
      omega (arith, v.bytes, remove_pending-held (λ r. r.source_bytes) (k, p) a v.distinct h);
}
