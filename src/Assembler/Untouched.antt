-- ===== src/Assembler/Untouched.antt =====
-- What `addAt` and the expiry of pending events leave alone: the metadata of rejected keys.
use aesirguard_audit.Base.{
  ℕ, Bool, true, false, ◌||◌, ◌&&◌, not, List, [], ◌∷◌, Option, none, some, ◌≡◌, refl, inl, inr,
  arith, Bool-cases, Option-cases, nat_eq, ◌==◌, codes, bytes_equality,
}
use aesirguard_audit.Base.Maps.{lookup}
use aesirguard_audit.Record.{Record}
use aesirguard_audit.Assembler.State.{
  Assembler, PendingEvent, CorrelationKey, key_equality, AssemblerLimitError, ReadyEvent,
}
use aesirguard_audit.Assembler.Time.{audit_time_from_id}
use aesirguard_audit.Assembler.Clock.{
  observe_audit_time, observe_node, node_changed, close_epoch, move_watermark, forget_audit_times,
}
use aesirguard_audit.Assembler.Types.{is_terminal_record}
use aesirguard_audit.Assembler.Expiry.{
  Entry, remove_pending, finish, expire_one, expire_all, expired,
}
use aesirguard_audit.Assembler.Add.{
  key_of, mark_mixed, fresh_event, next_sequence, time_event, open_event, with_record, store_record,
  close_event, open_or_reuse, admit, is_some, check_limits, then_expire, add_known, add_at,
}
use aesirguard_audit.Assembler.Isolation.{emit_exception, exceptional}
use aesirguard_audit.Assembler.Tracking.{SameTracking, SameTracking-refl, SameTracking-trans}

-- Three fields that are the same by computation.
all_same :
    (a b : Assembler)
    → b.rejected ≡ a.rejected
    → b.rejection_bytes ≡ a.rejection_bytes
    → b.limits ≡ a.limits
    → SameTracking a b
all_same a b p q r = record { same_rejected = p; same_rejection_bytes = q; same_limits = r }

close_epoch-SameTracking : (e : Bool) (a : Assembler) → SameTracking a (close_epoch e a)
unfolding close_epoch forget_audit_times
close_epoch-SameTracking true a = all_same a _ refl refl refl
close_epoch-SameTracking false a = SameTracking-refl a

move_watermark-SameTracking :
    (jump : Bool) (t : ℕ) (a : Assembler) → SameTracking a (move_watermark jump t a)
unfolding move_watermark forget_audit_times
move_watermark-SameTracking true t a = all_same a _ refl refl refl
move_watermark-SameTracking false t a = all_same a _ (ground arith) (ground arith) (ground arith)

observe-SameTracking :
    (t : ℕ) (key : CorrelationKey) (a : Assembler) → SameTracking a (observe_audit_time t key a)
unfolding observe_audit_time observe_node
observe-SameTracking t key a =
    let e = close_epoch (node_changed key a) a in
    let s = close_epoch-SameTracking (node_changed key a) a in
    SameTracking-trans a (observe_node key a) _
      (all_same a _ s.same_rejected s.same_rejection_bytes s.same_limits)
      (move_watermark-SameTracking _ t (observe_node key a))

time_event-SameTracking :
    (key : CorrelationKey) (t : Option ℕ) (p : PendingEvent) (a : Assembler)
    → SameTracking a (time_event key t p a).0
unfolding time_event
time_event-SameTracking key none p a = SameTracking-refl a
time_event-SameTracking key (some t) p a = observe-SameTracking t key a

open_or_reuse-SameTracking :
    (r : Record) (mixed : Bool) (pending : Option PendingEvent) (a : Assembler)
    → SameTracking a (open_or_reuse r mixed pending a).0
unfolding open_or_reuse open_event
open_or_reuse-SameTracking r mixed none a =
    let b = record a { next_sequence = next_sequence a.next_sequence } in
    SameTracking-trans a b _ (all_same a b refl refl refl) (
      time_event-SameTracking (key_of r) (audit_time_from_id r.id)
        (fresh_event mixed a.next_sequence) b)
open_or_reuse-SameTracking r mixed (some p) a = SameTracking-refl a

pub remove_pending-SameTracking : (e : Entry) (a : Assembler) → SameTracking a (remove_pending e a)
unfolding remove_pending
remove_pending-SameTracking (k, p) a = all_same a _ refl refl refl

expire_all-SameTracking : (es : List Entry) (a : Assembler) → SameTracking a (expire_all es a).0
unfolding expire_all expire_one finish
expire_all-SameTracking [] a = SameTracking-refl a
expire_all-SameTracking (e ∷ es) a =
    SameTracking-trans a (remove_pending e a) _ (remove_pending-SameTracking e a)
      (expire_all-SameTracking es (remove_pending e a))

pub expired-SameTracking : (now : ℕ) (a : Assembler) → SameTracking a (expired now a).0
unfolding expired
expired-SameTracking now a = elim (Bool-cases (nat_eq a.timeout 0)) [
  | inl off ↦ rw off (SameTracking-refl a)
  | inr on ↦ rw on (expire_all-SameTracking _ a)
]

close_event-SameTracking :
    (r : Record) (exists : Bool) (p : PendingEvent) (a : Assembler)
    → SameTracking a (close_event r exists p a).0
unfolding close_event finish
close_event-SameTracking r exists p a =
    elim (Bool-cases (r.record_type == codes "PROCTITLE" && exists)) [
      | inl last ↦ rw last (remove_pending-SameTracking (key_of r, p) a)
      | inr no_title ↦ elim (Bool-cases (is_terminal_record r.record_type)) [
        | inl terminal ↦ rw (no_title, terminal) (remove_pending-SameTracking (key_of r, p) a)
        | inr going ↦ rw (no_title, going) (SameTracking-refl a)
      ]
    ]

admit-SameTracking :
    (r : Record) (now : ℕ) (mixed : Bool) (pending : Option PendingEvent) (a : Assembler)
    → SameTracking a (admit r now mixed pending a).0
unfolding admit store_record
admit-SameTracking r now mixed pending a =
    let (b, p) = open_or_reuse r mixed pending a in
    SameTracking-trans a b _ (open_or_reuse-SameTracking r mixed pending a) (
      SameTracking-trans b (store_record r now p b) _ (all_same b _ refl refl refl) (
        close_event-SameTracking r (is_some pending) (with_record r now p)
          (store_record r now p b)))

then_expire-SameTracking :
    (now : ℕ) (a : Assembler) (ready : List ReadyEvent) → SameTracking a (then_expire now a ready).0
unfolding then_expire
then_expire-SameTracking now a ready = expired-SameTracking now a

add_known-SameTracking :
    (r : Record) (now : ℕ) (mixed : Bool) (pending : Option PendingEvent) (a : Assembler)
    → SameTracking a (add_known r now mixed pending a).0
unfolding add_known
add_known-SameTracking r now mixed pending a =
    elim (Bool-cases (not (r.record_type == codes "EOE") || is_some pending)) [
      | inr bare ↦ rw bare (then_expire-SameTracking now a [])
      | inl evidence ↦ elim (Option-cases (check_limits r pending a)) [
        | inr (e, over) ↦ rw (evidence, over) (SameTracking-refl a)
        | inl within ↦
            let x = admit r now mixed pending a in
            rw (evidence, within)
              (SameTracking-trans a x.0 _ (admit-SameTracking r now mixed pending a)
                (then_expire-SameTracking now x.0 x.1))
      ]
    ]

pub add_at-SameTracking : (r : Record) (now : ℕ) (a : Assembler) → SameTracking a (add_at r now a).0
unfolding add_at mark_mixed
add_at-SameTracking r now a =
    SameTracking-trans a (mark_mixed (key_of r) a) _ (all_same a _ refl refl refl)
      (add_known-SameTracking r now _ (lookup (key_of r) a.pending) (mark_mixed (key_of r) a))

pub emit_exception-SameTracking :
    (r : Record) (pending : Option PendingEvent) (records : List Record)
    (d : Option AssemblerLimitError) (a : Assembler)
    → SameTracking a (emit_exception r pending records d a).0
unfolding emit_exception exceptional
emit_exception-SameTracking r none records d a = all_same a _ refl refl refl
emit_exception-SameTracking r (some p) records d a = SameTracking-refl a
