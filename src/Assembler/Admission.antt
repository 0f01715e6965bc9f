-- ===== src/Assembler/Admission.antt =====
-- The admission of a record in `addAt` of assembler.go: where its event and the others go.
use aesirguard_audit.Base.{
  ℕ, Bool, true, ◌&&◌, List, ◌++◌, Option, none, some, ◌≡◌, refl, ◌∙◌, inl, inr, arith, sum_by,
  sum_by-append, Bool-cases, ◌==◌, codes, bytes_equality, beq_refl,
}
use aesirguard_audit.Base.Maps.{lookup, weigh, lookup-insert}
use aesirguard_audit.Record.{Record}
use aesirguard_audit.Assembler.State.{Assembler, PendingEvent, key_equality, Completion, ReadyEvent}
use aesirguard_audit.Assembler.Expiry.{finish, expired}
use aesirguard_audit.Assembler.Types.{is_terminal_record, terminal_completion}
use aesirguard_audit.Assembler.Add.{
  key_of, mark_mixed, with_record, store_record, open_or_reuse, close_event, one, admit, is_some,
  then_expire,
}
use aesirguard_audit.Assembler.Accounts.{
  emitted_ready, IsAccounted, SameHoldings, SameHoldings-refl, SameHoldings-IsAccounted,
  mark_mixed-SameHoldings, open_event-SameHoldings, store_record-held, store_record-IsAccounted,
}
use aesirguard_audit.Assembler.Delivery.{
  Delivers, emitted_added, records_of, Weighs, nothing, finish-Delivers, expired-Delivers,
  emitted-ordered_events,
}

pub then_expire-Delivers :
    (now : ℕ) (a : Assembler) (ready : List ReadyEvent)
    → IsAccounted a
    → Delivers a
        (λ w. emitted_ready w ready)
        (then_expire now a ready).0
        (λ w. emitted_added w (then_expire now a ready).1)
unfolding then_expire
then_expire-Delivers now a ready v =
    let late = expired-Delivers now a v in
    record {
      balance = λ w. omega (
        arith,
        late.balance w,
        emitted-ordered_events w (ready ++ (expired now a).1),
        sum_by-append (λ (e : ReadyEvent). sum_by w e.event.records) ready (expired now a).1,
      );
      accounted = late.accounted;
    }

pub open_or_reuse-SameHoldings :
    (r : Record) (mixed : Bool) (pending : Option PendingEvent) (a : Assembler)
    → SameHoldings a (open_or_reuse r mixed pending a).0
      × ((open_or_reuse r mixed pending a).1.records ≡ records_of pending)
unfolding open_or_reuse
open_or_reuse-SameHoldings r mixed none a = open_event-SameHoldings r mixed a
open_or_reuse-SameHoldings r mixed (some p) a = (SameHoldings-refl a, refl)

-- Storing a record in the event that takes it.
pub store-Delivers :
    (r : Record) (now : ℕ) (p : PendingEvent) (a : Assembler)
    → IsAccounted a
    → Weighs (key_of r) p.records a
    → Delivers a (λ w. w r) (store_record r now p a) nothing
store-Delivers r now p a v h = record {
  balance = λ w. omega (arith, store_record-held w r now p a (h w));
  accounted = store_record-IsAccounted r now p a v (h (λ x. x.source_bytes));
}

pub store_record-lookup :
    (r : Record) (now : ℕ) (p : PendingEvent) (a : Assembler)
    → lookup (key_of r) (store_record r now p a).pending ≡ some (with_record r now p)
unfolding store_record
store_record-lookup r now p a = rw (lookup-insert (key_of r) (key_of r)) (rw (beq_refl (key_of r)))

pub one-Delivers :
    (x : Assembler × ReadyEvent) (a : Assembler)
    → Delivers a nothing x.0 (λ w. sum_by w x.1.event.records)
    → Delivers a nothing (one x).0 (λ w. emitted_ready w (one x).1)
one-Delivers x a d = record { balance = λ w. omega (arith, d.balance w); accounted = d.accounted }

pub close_event-Delivers :
    (r : Record) (exists : Bool) (p : PendingEvent) (a : Assembler)
    → IsAccounted a
    → lookup (key_of r) a.pending ≡ some p
    → Delivers a nothing
        (close_event r exists p a).0
        (λ w. emitted_ready w (close_event r exists p a).1)
unfolding close_event
close_event-Delivers r exists p a v h =
    elim (Bool-cases (r.record_type == codes "PROCTITLE" && exists)) [
      | inl last ↦ rw last (
          one-Delivers (finish (key_of r, p) Completion.proctitle true a) a
            (finish-Delivers (key_of r, p) Completion.proctitle true a v h))
      | inr no_title ↦ elim (Bool-cases (is_terminal_record r.record_type)) [
        | inl terminal ↦
            rw (no_title, terminal)
              (one-Delivers (finish (key_of r, p) (terminal_completion r.record_type) true a) a
                (finish-Delivers (key_of r, p) (terminal_completion r.record_type) true a v h))
        | inr going ↦ rw (no_title, going) (record { balance = λ w. omega arith; accounted = v })
      ]
    ]

pub admit-Delivers :
    (r : Record) (now : ℕ) (mixed : Bool) (pending : Option PendingEvent) (a : Assembler)
    → IsAccounted a
    → Weighs (key_of r) (records_of pending) a
    → Delivers a
        (λ w. w r)
        (admit r now mixed pending a).0
        (λ w. emitted_ready w (admit r now mixed pending a).1)
unfolding admit
admit-Delivers r now mixed pending a v h =
    let b = (open_or_reuse r mixed pending a).0 in
    let p = (open_or_reuse r mixed pending a).1 in
    let (same, records) = open_or_reuse-SameHoldings r mixed pending a in
    let opened = SameHoldings-IsAccounted a b same v in
    let stored =
      store-Delivers r now p b opened
        (λ w. rw records (same.same_weigh (sum_by w) (key_of r) ∙ h w)) in
    let closed =
      close_event-Delivers r (is_some pending) (with_record r now p) (store_record r now p b)
        stored.accounted (store_record-lookup r now p b) in
    record {
      balance = λ w. omega (arith, stored.balance w, closed.balance w, same.same_held (sum_by w));
      accounted = closed.accounted;
    }

pub weigh-records_of :
    (w : Record → ℕ) (o : Option PendingEvent)
    → weigh (λ (p : PendingEvent). sum_by w p.records) o ≡ sum_by w (records_of o)
weigh-records_of w none = refl
weigh-records_of w (some p) = refl

pub Weighs-mark_mixed :
    (r : Record) (a : Assembler)
    → Weighs (key_of r) (records_of (lookup (key_of r) a.pending)) (mark_mixed (key_of r) a)
Weighs-mark_mixed r a w =
    (mark_mixed-SameHoldings (key_of r) a).same_weigh (sum_by w) (key_of r)
    ∙ weigh-records_of w (lookup (key_of r) a.pending)

-- A record that is admitted, behind the guard and the limits.
pub admitted-Delivers :
    (r : Record) (now : ℕ) (mixed : Bool) (pending : Option PendingEvent) (a : Assembler)
    → IsAccounted a
    → Weighs (key_of r) (records_of pending) a
    → Delivers a
        (λ w. w r)
        (then_expire now (admit r now mixed pending a).0 (admit r now mixed pending a).1).0
        (λ w.
          emitted_added w
            (then_expire now (admit r now mixed pending a).0 (admit r now mixed pending a).1).1)
admitted-Delivers r now mixed pending a v h =
    let inner = admit-Delivers r now mixed pending a v h in
    let outer =
      then_expire-Delivers now (admit r now mixed pending a).0 (admit r now mixed pending a).1
        inner.accounted in
    record {
      balance = λ w. omega (arith, inner.balance w, outer.balance w);
      accounted = outer.accounted;
    }
