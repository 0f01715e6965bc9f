-- ===== src/Assembler/Bounds.antt =====
-- The limits that `NewBoundedAssembler` sets are kept by `addAt` and `AddRecovering`: on the number
-- of pending events, of records in each and of bytes held.
use aesirguard_audit.Base.{
  ℕ, ◌+◌, ◌≤◌, ◌<◌, Bool, ◌||◌, not, List, [], ◌∷◌, Option, none, some, ◌≡◌, refl, ◌⊎◌, inl, inr,
  arith, Bool-cases, Option-cases, length, length-append, ◌==◌, codes, bytes_equality,
}
use aesirguard_audit.Base.Maps.{lookup, weigh, AllOf, AllOf-insert, length-insert}
use aesirguard_audit.Record.{Record}
use aesirguard_audit.Assembler.State.{Assembler, PendingEvent, key_equality, ReadyEvent}
use aesirguard_audit.Assembler.Expiry.{expired}
use aesirguard_audit.Assembler.Add.{
  key_of, mark_mixed, with_record, store_record, open_or_reuse, admit, is_some, then_expire,
  add_known, add_at, check_limits,
}
use aesirguard_audit.Assembler.Exceptions.{Holds, mark_mixed-Holds}
use aesirguard_audit.Assembler.Shrinking.{
  Shrinks, mark_mixed-Shrinks, open_or_reuse-Shrinks, expired-Shrinks, close_event-Shrinks,
}

-- The limits are on, and kept.
pub record IsBounded (a : Assembler) : Type 0 where
  pub positive : (0 < a.limits.max_pending_events) × (0 < a.limits.max_records_per_event)
  pub few_events : length a.pending ≤ a.limits.max_pending_events
  pub few_bytes : a.pending_bytes ≤ a.limits.max_pending_bytes
  pub few_records :
      AllOf (λ k (p : PendingEvent). length p.records ≤ a.limits.max_records_per_event) a.pending

pub Shrinks-IsBounded : (a b : Assembler) → Shrinks a b → IsBounded a → IsBounded b
Shrinks-IsBounded a b s v = record {
  positive = rw s.same_limits v.positive;
  few_events = rw s.same_limits (omega (arith, s.fewer, v.few_events));
  few_bytes = rw s.same_limits (omega (arith, s.lighter, v.few_bytes));
  few_records = rw s.same_limits (s.still_fit _ v.few_records);
}

-- There is room for the record: in bytes, in its event, and for its key.
record Fits (r : Record) (p : PendingEvent) (a : Assembler) : Type 0 where
  bytes_fit : a.pending_bytes + r.source_bytes ≤ a.limits.max_pending_bytes
  records_fit : length p.records < a.limits.max_records_per_event
  event_fits :
      (length a.pending < a.limits.max_pending_events)
      ⊎ (weigh (λ (q : PendingEvent). 1) (lookup (key_of r) a.pending) ≡ 1)

store_record-IsBounded :
    (r : Record) (now : ℕ) (p : PendingEvent) (a : Assembler)
    → IsBounded a
    → Fits r p a
    → IsBounded (store_record r now p a)
unfolding store_record
store_record-IsBounded r now p a v f = record {
  positive = v.positive;
  few_events = elim f.event_fits [
    | inl room ↦ omega (arith, length-insert (key_of r) (with_record r now p) a.pending)
    | inr there ↦
        omega (arith, length-insert (key_of r) (with_record r now p) a.pending, v.few_events)
  ];
  few_bytes = f.bytes_fit;
  few_records =
      AllOf-insert _ (key_of r) (with_record r now p) a.pending v.few_records
        (omega (arith, length-append p.records (r ∷ []), f.records_fit));
}

-- A passed limit test leaves room in the state in which the event is open.
open-Fits :
    (r : Record) (mixed : Bool) (pending : Option PendingEvent) (a : Assembler)
    → IsBounded a
    → Holds (key_of r) pending a
    → check_limits r pending a ≡ none
    → Fits r (open_or_reuse r mixed pending a).1 (open_or_reuse r mixed pending a).0
unfolding check_limits
open-Fits r mixed none a v held_there h =
    let (s, e) = open_or_reuse-Shrinks r mixed none a in
    let room : length a.pending < a.limits.max_pending_events = ground arith in
    let light : a.pending_bytes + r.source_bytes ≤ a.limits.max_pending_bytes = ground arith in
    record {
      bytes_fit = rw s.same_limits (omega (arith, s.lighter));
      records_fit = rw (e, s.same_limits) v.positive.1;
      event_fits = inl (rw s.same_limits (omega (arith, s.fewer)));
    }
open-Fits r mixed (some p) a v held_there h = record {
  bytes_fit = unfold open_or_reuse in ground arith;
  records_fit = unfold open_or_reuse in ground arith;
  event_fits = unfold open_or_reuse in inr (rw held_there refl);
}

admit-IsBounded :
    (r : Record) (now : ℕ) (mixed : Bool) (pending : Option PendingEvent) (a : Assembler)
    → IsBounded a
    → Holds (key_of r) pending a
    → check_limits r pending a ≡ none
    → IsBounded (admit r now mixed pending a).0
unfolding admit
admit-IsBounded r now mixed pending a v held_there h =
    let b = (open_or_reuse r mixed pending a).0 in
    let p = (open_or_reuse r mixed pending a).1 in
    let opened = Shrinks-IsBounded a b (open_or_reuse-Shrinks r mixed pending a).0 v in
    let stored =
      store_record-IsBounded r now p b opened (open-Fits r mixed pending a v held_there h) in
    Shrinks-IsBounded (store_record r now p b) _
      (close_event-Shrinks r (is_some pending) (with_record r now p) (store_record r now p b))
      stored

then_expire-IsBounded :
    (now : ℕ) (a : Assembler) (ready : List ReadyEvent)
    → IsBounded a
    → IsBounded (then_expire now a ready).0
unfolding then_expire
then_expire-IsBounded now a ready v =
    Shrinks-IsBounded a (expired now a).0 (expired-Shrinks now a) v

add_known-IsBounded :
    (r : Record) (now : ℕ) (mixed : Bool) (pending : Option PendingEvent) (a : Assembler)
    → IsBounded a
    → Holds (key_of r) pending a
    → IsBounded (add_known r now mixed pending a).0
unfolding add_known
add_known-IsBounded r now mixed pending a v held_there =
    elim (Bool-cases (not (r.record_type == codes "EOE") || is_some pending)) [
      | inr bare ↦ rw bare (then_expire-IsBounded now a [] v)
      | inl evidence ↦ elim (Option-cases (check_limits r pending a)) [
        | inr (e, over) ↦ rw (evidence, over) v
        | inl within ↦
            rw (evidence, within)
              (then_expire-IsBounded now (admit r now mixed pending a).0
                (admit r now mixed pending a).1
                (admit-IsBounded r now mixed pending a v held_there within))
      ]
    ]

-- `addAt`, from a state whose limits are positive and kept, keeps the limits on the number of pending
-- events, of records in each and of bytes, whatever record it is handed and whether it takes it.
pub add_at-IsBounded :
    (r : Record) (now : ℕ) (a : Assembler) → IsBounded a → IsBounded (add_at r now a).0
unfolding add_at
add_at-IsBounded r now a v =
    add_known-IsBounded r now _ (lookup (key_of r) a.pending) (mark_mixed (key_of r) a)
      (Shrinks-IsBounded a (mark_mixed (key_of r) a) (mark_mixed-Shrinks (key_of r) a) v)
      (mark_mixed-Holds r _ a refl)
