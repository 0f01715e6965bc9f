-- ===== src/Assembler/Conservation.antt =====
-- No operation of the assembler loses a record or emits one twice: for every weight on records,
-- what is held after a call and what the call emits weigh as much as what was held and the record.
use aesirguard_audit.Base.{
  ℕ, Bool, true, false, ◌&&◌, ◌||◌, not, List, [], Option, ◌≡◌, inl, inr, arith, sum_by, Bool-cases,
  Option-cases, if◌then◌else◌, ◌==◌, codes, bytes_equality,
}
use aesirguard_audit.Base.Maps.{lookup}
use aesirguard_audit.Record.{Record}
use aesirguard_audit.Assembler.State.{Assembler, PendingEvent, key_equality, ReadyEvent}
use aesirguard_audit.Assembler.Add.{
  key_of, mark_mixed, admit, is_some, Added, events, limited, then_expire, add_known, add_at,
  check_limits, any_mixed,
}
use aesirguard_audit.Assembler.Accounts.{
  IsAccounted, SameHoldings-IsAccounted, mark_mixed-SameHoldings,
}
use aesirguard_audit.Assembler.Delivery.{Delivers, emitted_added, records_of, Weighs, nothing}
use aesirguard_audit.Assembler.Admission.{
  then_expire-Delivers, Weighs-mark_mixed, admitted-Delivers,
}

-- What a call of `addAt` accounts for: nothing of a record that a limit refuses, or of an EOE with
-- no pending event, and the whole record otherwise.
abbrev pub accepted : Record → Bool → Added → (Record → ℕ) → ℕ
accepted r exists (limited _) w = 0
accepted r exists (events _) w = if r.record_type == codes "EOE" && not exists then 0 else w r

-- Nothing pending and no evidence in the record: only expiry happens.
idle-Delivers :
    (now : ℕ) (a : Assembler)
    → IsAccounted a
    → Delivers a nothing (then_expire now a []).0 (λ w. emitted_added w (then_expire now a []).1)
idle-Delivers now a v = then_expire-Delivers now a [] v

accepted-bare :
    (r : Record) (now : ℕ) (exists : Bool) (a : Assembler) (ready : List ReadyEvent)
    (w : Record → ℕ)
    → not (r.record_type == codes "EOE") || exists ≡ false
    → accepted r exists (then_expire now a ready).1 w ≡ 0
unfolding then_expire
accepted-bare r now exists a ready w h = ground arith

accepted-evidence :
    (r : Record) (now : ℕ) (exists : Bool) (a : Assembler) (ready : List ReadyEvent)
    (w : Record → ℕ)
    → not (r.record_type == codes "EOE") || exists ≡ true
    → accepted r exists (then_expire now a ready).1 w ≡ w r
unfolding then_expire
accepted-evidence r now exists a ready w h = ground arith

settle-bare :
    (r : Record) (now : ℕ) (exists : Bool) (a : Assembler)
    → IsAccounted a
    → not (r.record_type == codes "EOE") || exists ≡ false
    → Delivers a
        (accepted r exists (then_expire now a []).1)
        (then_expire now a []).0
        (λ w. emitted_added w (then_expire now a []).1)
settle-bare r now exists a v h =
    let d = idle-Delivers now a v in
    record {
      balance = λ w. omega (arith, d.balance w, accepted-bare r now exists a [] w h);
      accounted = d.accounted;
    }

settle-evidence :
    (r : Record) (now : ℕ) (mixed : Bool) (pending : Option PendingEvent) (a : Assembler)
    → IsAccounted a
    → Weighs (key_of r) (records_of pending) a
    → not (r.record_type == codes "EOE") || is_some pending ≡ true
    → Delivers a
        (accepted r
          (is_some pending)
          (then_expire now (admit r now mixed pending a).0 (admit r now mixed pending a).1).1)
        (then_expire now (admit r now mixed pending a).0 (admit r now mixed pending a).1).0
        (λ w.
          emitted_added w
            (then_expire now (admit r now mixed pending a).0 (admit r now mixed pending a).1).1)
settle-evidence r now mixed pending a v h evidence =
    let d = admitted-Delivers r now mixed pending a v h in
    record {
      balance = λ w. omega (
        arith,
        d.balance w,
        accepted-evidence r now (is_some pending) (admit r now mixed pending a).0
            (admit r now mixed pending a).1 w evidence,
      );
      accounted = d.accounted;
    }

add_known-Delivers :
    (r : Record) (now : ℕ) (mixed : Bool) (pending : Option PendingEvent) (a : Assembler)
    → IsAccounted a
    → Weighs (key_of r) (records_of pending) a
    → Delivers a
        (accepted r (is_some pending) (add_known r now mixed pending a).1)
        (add_known r now mixed pending a).0
        (λ w. emitted_added w (add_known r now mixed pending a).1)
unfolding add_known
add_known-Delivers r now mixed pending a v h =
    elim (Bool-cases (not (r.record_type == codes "EOE") || is_some pending)) [
      | inr bare ↦ rw bare (settle-bare r now (is_some pending) a v bare)
      | inl evidence ↦ elim (Option-cases (check_limits r pending a)) [
        | inr (e, over) ↦ rw (evidence, over) (record { balance = λ w. omega arith; accounted = v })
        | inl within ↦ rw (evidence, within) (settle-evidence r now mixed pending a v h evidence)
      ]
    ]

-- One call of `addAt`, from a state whose keys are distinct and whose byte counter is the sum over
-- the pending records: the record, unless a limit refuses it or it is an EOE with nothing pending
-- under its key, is pending or in an emitted event afterwards, once, and so is every record that
-- was pending; the keys stay distinct and the counter exact.
pub add_at-Delivers :
    (r : Record) (now : ℕ) (a : Assembler)
    → IsAccounted a
    → Delivers a
        (accepted r (is_some (lookup (key_of r) a.pending)) (add_at r now a).1)
        (add_at r now a).0
        (λ w. emitted_added w (add_at r now a).1)
unfolding add_at
add_at-Delivers r now a v =
    let marked = mark_mixed-SameHoldings (key_of r) a in
    let d =
      add_known-Delivers r now (any_mixed (key_of r) a.pending) (lookup (key_of r) a.pending)
        (mark_mixed (key_of r) a) (SameHoldings-IsAccounted a (mark_mixed (key_of r) a) marked v)
        (Weighs-mark_mixed r a) in
    record {
      balance = λ w. omega (arith, d.balance w, marked.same_held (sum_by w));
      accounted = d.accounted;
    }
