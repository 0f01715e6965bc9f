-- ===== src/Assembler/Shrinking.antt =====
-- What every operation but the storing of a record does to the sizes that the limits bound.
use aesirguard_audit.Base.{
  ℕ, ◌≤◌, Bool, true, false, ◌&&◌, List, [], ◌∷◌, Option, none, some, ◌≡◌, refl, ◌∙◌, inl, inr,
  arith, Bool-cases, nat_eq, length, ◌==◌, codes, bytes_equality,
}
use aesirguard_audit.Base.Maps.{
  map_values, AllOf, AllOf-delete, AllOf-map_values, length-map_values, length-delete-le,
}
use aesirguard_audit.Record.{Record}
use aesirguard_audit.Assembler.State.{Assembler, PendingEvent, CorrelationKey, key_equality}
use aesirguard_audit.Assembler.Clock.{
  observe_audit_time, observe_node, node_changed, close_epoch, move_watermark, forget_audit_times,
}
use aesirguard_audit.Assembler.Time.{audit_time_from_id}
use aesirguard_audit.Assembler.Types.{is_terminal_record}
use aesirguard_audit.Assembler.Expiry.{
  Entry, remove_pending, finish, expire_one, expire_all, expired,
}
use aesirguard_audit.Assembler.Add.{
  key_of, mark_mixed, mark_if_mixed, open_event, time_event, fresh_event, next_sequence,
  open_or_reuse, close_event,
}
use aesirguard_audit.Assembler.Delivery.{records_of}

-- No pending event grows, none is added, and the limits stay.
pub record Shrinks (a b : Assembler) : Type 0 where
  pub same_limits : b.limits ≡ a.limits
  pub fewer : length b.pending ≤ length a.pending
  pub lighter : b.pending_bytes ≤ a.pending_bytes
  pub still_fit :
      (n : ℕ)
      → AllOf (λ k (p : PendingEvent). length p.records ≤ n) a.pending
      → AllOf (λ k (p : PendingEvent). length p.records ≤ n) b.pending

pub Shrinks-refl : (a : Assembler) → Shrinks a a
Shrinks-refl a = record {
  same_limits = refl;
  fewer = omega arith;
  lighter = omega arith;
  still_fit = λ n h. h;
}

pub Shrinks-trans : (a b c : Assembler) → Shrinks a b → Shrinks b c → Shrinks a c
Shrinks-trans a b c s t = record {
  same_limits = t.same_limits ∙ s.same_limits;
  fewer = omega (arith, s.fewer, t.fewer);
  lighter = omega (arith, s.lighter, t.lighter);
  still_fit = λ n h. t.still_fit n (s.still_fit n h);
}

-- Only these three fields count.
pub Shrinks-of :
    (a b c : Assembler)
    → Shrinks a b
    → c.pending ≡ b.pending
    → c.pending_bytes ≡ b.pending_bytes
    → c.limits ≡ b.limits
    → Shrinks a c
Shrinks-of a b c s p q l = record {
  same_limits = l ∙ s.same_limits;
  fewer = rw p s.fewer;
  lighter = rw q s.lighter;
  still_fit = λ n h. rw p (s.still_fit n h);
}

-- A change of the events that keeps their records.
map_values-Shrinks :
    (g : CorrelationKey → PendingEvent → PendingEvent) (a : Assembler)
    → ((k : CorrelationKey) (p : PendingEvent) → length (g k p).records ≡ length p.records)
    → Shrinks a (record a { pending = map_values g a.pending })
map_values-Shrinks g a h = record {
  same_limits = refl;
  fewer = omega (arith, length-map_values g a.pending);
  lighter = omega arith;
  still_fit = λ n. AllOf-map_values _ g a.pending (λ k p q. omega (arith, h k p));
}

pub mark_mixed-Shrinks : (key : CorrelationKey) (a : Assembler) → Shrinks a (mark_mixed key a)
unfolding mark_mixed
mark_mixed-Shrinks key a = map_values-Shrinks (mark_if_mixed key) a (λ k p. ground arith)

forget-Shrinks : (a : Assembler) → Shrinks a (forget_audit_times a)
unfolding forget_audit_times
forget-Shrinks a = map_values-Shrinks _ a (λ k p. refl)

close_epoch-Shrinks : (e : Bool) (a : Assembler) → Shrinks a (close_epoch e a)
unfolding close_epoch
close_epoch-Shrinks true a = Shrinks-of a (forget_audit_times a) _ (forget-Shrinks a) refl refl refl
close_epoch-Shrinks false a = Shrinks-refl a

move_watermark-Shrinks : (jump : Bool) (t : ℕ) (a : Assembler) → Shrinks a (move_watermark jump t a)
unfolding move_watermark
move_watermark-Shrinks true t a =
    Shrinks-of a (forget_audit_times a) _ (forget-Shrinks a) refl refl refl
move_watermark-Shrinks false t a =
    Shrinks-of a a _ (Shrinks-refl a) (ground arith) (ground arith) (ground arith)

observe-Shrinks :
    (t : ℕ) (key : CorrelationKey) (a : Assembler) → Shrinks a (observe_audit_time t key a)
unfolding observe_audit_time observe_node
observe-Shrinks t key a =
    Shrinks-trans a (observe_node key a) _
      (Shrinks-of a (close_epoch (node_changed key a) a) _
        (close_epoch-Shrinks (node_changed key a) a) refl refl refl)
      (move_watermark-Shrinks _ t (observe_node key a))

time_event-Shrinks :
    (key : CorrelationKey) (t : Option ℕ) (p : PendingEvent) (a : Assembler)
    → Shrinks a (time_event key t p a).0 × ((time_event key t p a).1.records ≡ p.records)
unfolding time_event
time_event-Shrinks key none p a = (Shrinks-refl a, refl)
time_event-Shrinks key (some t) p a = (observe-Shrinks t key a, refl)

pub open_or_reuse-Shrinks :
    (r : Record) (mixed : Bool) (pending : Option PendingEvent) (a : Assembler)
    → Shrinks a (open_or_reuse r mixed pending a).0
      × ((open_or_reuse r mixed pending a).1.records ≡ records_of pending)
unfolding open_or_reuse open_event
open_or_reuse-Shrinks r mixed none a =
    let b = record a { next_sequence = next_sequence a.next_sequence } in
    let (s, e) =
      time_event-Shrinks (key_of r) (audit_time_from_id r.id) (fresh_event mixed a.next_sequence)
        b in
    (Shrinks-trans a b _ (Shrinks-of a a b (Shrinks-refl a) refl refl refl) s, e)
open_or_reuse-Shrinks r mixed (some p) a = (Shrinks-refl a, refl)

pub remove_pending-Shrinks : (e : Entry) (a : Assembler) → Shrinks a (remove_pending e a)
unfolding remove_pending
remove_pending-Shrinks (k, p) a = record {
  same_limits = refl;
  fewer = length-delete-le k a.pending;
  lighter = omega arith;
  still_fit = λ n. AllOf-delete _ k a.pending;
}

expire_all-Shrinks : (es : List Entry) (a : Assembler) → Shrinks a (expire_all es a).0
unfolding expire_all expire_one finish
expire_all-Shrinks [] a = Shrinks-refl a
expire_all-Shrinks (e ∷ es) a =
    Shrinks-trans a (remove_pending e a) _ (remove_pending-Shrinks e a)
      (expire_all-Shrinks es (remove_pending e a))

pub expired-Shrinks : (now : ℕ) (a : Assembler) → Shrinks a (expired now a).0
unfolding expired
expired-Shrinks now a = elim (Bool-cases (nat_eq a.timeout 0)) [
  | inl off ↦ rw off (Shrinks-refl a)
  | inr on ↦ rw on (expire_all-Shrinks _ a)
]

pub close_event-Shrinks :
    (r : Record) (exists : Bool) (p : PendingEvent) (a : Assembler)
    → Shrinks a (close_event r exists p a).0
unfolding close_event finish
close_event-Shrinks r exists p a =
    elim (Bool-cases (r.record_type == codes "PROCTITLE" && exists)) [
      | inl last ↦ rw last (remove_pending-Shrinks (key_of r, p) a)
      | inr no_title ↦ elim (Bool-cases (is_terminal_record r.record_type)) [
        | inl terminal ↦ rw (no_title, terminal) (remove_pending-Shrinks (key_of r, p) a)
        | inr going ↦ rw (no_title, going) (Shrinks-refl a)
      ]
    ]
