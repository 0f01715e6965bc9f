-- ===== src/Assembler/Delivery.antt =====
-- Events that leave the assembler: what `finish`, `expired` and the flushes take out of the pending
-- events is what they emit. Two states are compared by every weight on records at once.
use aesirguard_audit.Base.{
  ℕ, ◌+◌, Bool, false, ◌||◌, List, [], ◌∷◌, map, Option, none, some, ◌≡◌, refl, ◌∙◌, ap, inl, inr,
  arith, sum_by, Bool-cases, nat_eq, if◌then◌else◌, bytes_equality,
}
use aesirguard_audit.Base.Entries.{
  IsListed, sort_by-IsListed, self-IsListed, delete_all, delete_all_self,
}
use aesirguard_audit.Base.Maps.{lookup, delete, total, weigh}
use aesirguard_audit.Base.Sort.{sort_by, sort_by-sum}
use aesirguard_audit.Record.{Record}
use aesirguard_audit.Assembler.State.{
  Assembler, PendingEvent, RejectedEvent, CorrelationKey, key_equality, Completion, ReadyEvent,
}
use aesirguard_audit.Assembler.Expiry.{
  Entry, remove_pending, finish, due, wall_expired, watermark_expired, expire_one, expire_all,
  expired, stamped, ordered_events, finish_all, flush_all_with, clear_rejected, flush_expired,
  expire_rejected, expire_rejected_key, expire_rejected_keys, expire_spill,
}
use aesirguard_audit.Assembler.Add.{Added, events, limited}
use aesirguard_audit.Assembler.Accounts.{
  held, emitted, emitted_ready, IsAccounted, SameHoldings, SameHoldings-of, SameHoldings-refl,
  SameHoldings-IsAccounted, remove_pending-held, remove_pending-IsAccounted,
}

-- From `a`, given what weighs `added`, to `b`, having emitted what weighs `out`.
pub record Delivers (a : Assembler) (added : (Record → ℕ) → ℕ) (b : Assembler)
    (out : (Record → ℕ) → ℕ) : Type 0 where
  pub balance : (w : Record → ℕ) → held (sum_by w) b + out w ≡ held (sum_by w) a + added w
  pub accounted : IsAccounted b

-- The weight of what `addAt` returns.
abbrev pub emitted_added : (Record → ℕ) → Added → ℕ
emitted_added w (events es) = emitted w es
emitted_added w (limited _) = 0

abbrev pub records_of : Option PendingEvent → List Record
records_of none = []
records_of (some p) = p.records

-- What the assembler holds under a key weighs as much as the given records.
abbrev pub Weighs : CorrelationKey → List Record → Assembler → Type 0
Weighs k records a =
    (w : Record → ℕ)
    → weigh (λ (p : PendingEvent). sum_by w p.records) (lookup k a.pending) ≡ sum_by w records

abbrev pub nothing : (Record → ℕ) → ℕ
nothing w = 0

pub finish-Delivers :
    (e : Entry) (c : Completion) (complete : Bool) (a : Assembler)
    → IsAccounted a
    → lookup e.0 a.pending ≡ some e.1
    → Delivers a nothing
        (finish e c complete a).0
        (λ w. sum_by w (finish e c complete a).1.event.records)
unfolding finish
finish-Delivers e c complete a v h = record {
  balance = λ w. omega (arith, remove_pending-held w e a v.distinct h);
  accounted = remove_pending-IsAccounted e a v h;
}

pub finish-pending :
    (e : Entry) (c : Completion) (complete : Bool) (a : Assembler)
    → (finish e c complete a).0.pending ≡ delete e.0 a.pending
unfolding finish remove_pending
finish-pending e c complete a = refl

expire_all-Delivers :
    (es : List Entry) (a : Assembler)
    → IsAccounted a
    → IsListed es a.pending
    → Delivers a nothing (expire_all es a).0 (λ w. emitted_ready w (expire_all es a).1)
unfolding expire_all expire_one
expire_all-Delivers [] a v h = record { balance = λ w. omega arith; accounted = v }
expire_all-Delivers (e ∷ es) a v h =
    let watermark = watermark_expired a e.1 in
    let c = if watermark then Completion.watermark else Completion.timeout in
    let first = finish-Delivers e c watermark a v h.0 in
    let rest =
      expire_all-Delivers es (finish e c watermark a).0 first.accounted
        (rw (finish-pending e c watermark a) h.1) in
    record {
      balance = λ w. omega (arith, first.balance w, rest.balance w);
      accounted = rest.accounted;
    }

pub finish_all-Delivers :
    (es : List Entry) (c : Completion) (a : Assembler)
    → IsAccounted a
    → IsListed es a.pending
    → Delivers a nothing (finish_all es c a).0 (λ w. emitted_ready w (finish_all es c a).1)
unfolding finish_all
finish_all-Delivers [] c a v h = record { balance = λ w. omega arith; accounted = v }
finish_all-Delivers (e ∷ es) c a v h =
    let first = finish-Delivers e c false a v h.0 in
    let rest =
      finish_all-Delivers es c (finish e c false a).0 first.accounted
        (rw (finish-pending e c false a) h.1) in
    record {
      balance = λ w. omega (arith, first.balance w, rest.balance w);
      accounted = rest.accounted;
    }

pub expired-Delivers :
    (now : ℕ) (a : Assembler)
    → IsAccounted a
    → Delivers a nothing (expired now a).0 (λ w. emitted_ready w (expired now a).1)
unfolding expired due
expired-Delivers now a v = elim (Bool-cases (nat_eq a.timeout 0)) [
  | inl off ↦ rw off (record { balance = λ w. omega arith; accounted = v })
  | inr on ↦ rw on (
      expire_all-Delivers _ a v (
        sort_by-IsListed _ (λ (e : Entry). wall_expired now a e.1 || watermark_expired a e.1)
          a.pending v.distinct))
]

pub emitted-map-stamped :
    (w : Record → ℕ) (ready : List ReadyEvent)
    → emitted w (map stamped ready) ≡ emitted_ready w ready
emitted-map-stamped w [] = refl
emitted-map-stamped w (x ∷ xs) = ap (λ n. sum_by w x.event.records + n) (emitted-map-stamped w xs)

pub emitted-ordered_events :
    (w : Record → ℕ) (ready : List ReadyEvent)
    → emitted w (ordered_events ready) ≡ emitted_ready w ready
unfolding ordered_events
emitted-ordered_events w ready =
    emitted-map-stamped w (sort_by (λ (r : ReadyEvent). r.sequence) ready)
    ∙ sort_by-sum (λ (r : ReadyEvent). r.sequence) (λ (e : ReadyEvent). sum_by w e.event.records)
        ready

-- The rejected keys and the fence are no pending events.
expire_rejected_key-pending :
    (now : ℕ) (key : CorrelationKey) (r : RejectedEvent) (a : Assembler)
    → ((expire_rejected_key now key r a).pending ≡ a.pending)
      × ((expire_rejected_key now key r a).pending_bytes ≡ a.pending_bytes)
unfolding expire_rejected_key
expire_rejected_key-pending now key r a = ground arith

expire_rejected_keys-pending :
    (now : ℕ) (keys : List (CorrelationKey × RejectedEvent)) (a : Assembler)
    → ((expire_rejected_keys now keys a).pending ≡ a.pending)
      × ((expire_rejected_keys now keys a).pending_bytes ≡ a.pending_bytes)
unfolding expire_rejected_keys
expire_rejected_keys-pending now [] a = (refl, refl)
expire_rejected_keys-pending now ((key, r) ∷ rest) a =
    let (p, q) = expire_rejected_keys-pending now rest (expire_rejected_key now key r a) in
    let (p', q') = expire_rejected_key-pending now key r a in (p ∙ p', q ∙ q')

pub expire_rejected-pending :
    (now : ℕ) (a : Assembler) → (expire_rejected now a).pending ≡ a.pending
unfolding expire_rejected expire_spill
expire_rejected-pending now a =
    let (p, q) = expire_rejected_keys-pending now a.rejected a in ground (arith, p)

pub expire_rejected-SameHoldings :
    (now : ℕ) (a : Assembler) → SameHoldings a (expire_rejected now a)
unfolding expire_rejected expire_spill
expire_rejected-SameHoldings now a =
    let (p, q) = expire_rejected_keys-pending now a.rejected a in
    SameHoldings-of a a _ (SameHoldings-refl a) (ground (arith, p)) (ground (arith, q))

-- `FlushExpired`, from a state whose keys are distinct and whose byte counter is the sum over the
-- pending records: everything that leaves the pending events is emitted, once, and the keys stay
-- distinct and the counter exact.
pub flush_expired-Delivers :
    (now : ℕ) (a : Assembler)
    → IsAccounted a
    → Delivers a nothing (flush_expired now a).0 (λ w. emitted w (flush_expired now a).1)
unfolding flush_expired
flush_expired-Delivers now a v =
    let b = expire_rejected now a in
    let same = expire_rejected-SameHoldings now a in
    let d = expired-Delivers now b (SameHoldings-IsAccounted a b same v) in
    record {
      balance = λ w. omega (
        arith,
        d.balance w,
        same.same_held (sum_by w),
        emitted-ordered_events w (expired now b).1,
      );
      accounted = d.accounted;
    }

pub finish_all-pending :
    (es : List Entry) (c : Completion) (a : Assembler)
    → (finish_all es c a).0.pending ≡ delete_all es a.pending
unfolding finish_all
finish_all-pending [] c a = refl
finish_all-pending (e ∷ es) c a =
    finish_all-pending es c (finish e c false a).0 ∙ ap (delete_all es) (finish-pending e c false a)

-- `FlushAllWith`, from a state whose keys are distinct and whose byte counter is the sum over the
-- pending records: nothing is pending and no byte counted afterwards, and every record that was
-- pending is emitted, once.
pub flush_all_with-empty :
    (c : Completion) (a : Assembler)
    → IsAccounted a
    → ((flush_all_with c a).0.pending ≡ [])
      × ((flush_all_with c a).0.pending_bytes ≡ 0)
      × ((w : Record → ℕ) → emitted w (flush_all_with c a).1 ≡ held (sum_by w) a)
unfolding flush_all_with
flush_all_with-empty c a v =
    let es = a.pending in
    let d =
      finish_all-Delivers es c (clear_rejected a)
        (record { distinct = v.distinct; bytes = v.bytes }) (self-IsListed a.pending v.distinct) in
    let none_left =
      finish_all-pending es c (clear_rejected a) ∙ delete_all_self a.pending v.distinct in
    (
      none_left,
      d.accounted.bytes ∙ ap (total _) none_left,
      λ w. omega (
        arith,
        d.balance w,
        ap (total (λ (p : PendingEvent). sum_by w p.records)) none_left,
        emitted-ordered_events w (finish_all es c (clear_rejected a)).1,
      ),
    )
