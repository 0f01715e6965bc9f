-- ===== src/Assembler/Recovery.antt =====
-- `AddRecovering` accounts for every record that it is handed.
use aesirguard_audit.Base.{
  ℕ, ◌+◌, true, ◌&&◌, not, List, [], ◌∷◌, ◌++◌, map, Option, none, some, ◌≡◌, refl, ap, inl, inr,
  arith, sum_by, sum_by-append, Bool-cases, nat_eq, ◌==◌, codes, bytes_equality, bytes_eq_iff,
}
use aesirguard_audit.Base.Maps.{lookup}
use aesirguard_audit.Record.{Record}
use aesirguard_audit.Assembler.State.{
  Assembler, PendingEvent, RejectedEvent, key_equality, Completion, ReadyEvent, AssembledEvent,
  AssemblerLimitError,
}
use aesirguard_audit.Assembler.Expiry.{finish, expired, expire_rejected}
use aesirguard_audit.Assembler.Add.{key_of, mark_mixed, is_some, Added, events, limited, add_at}
use aesirguard_audit.Assembler.Isolation.{
  closes_full, recover_added, add_admissible, close_full, add_unrejected, isolate, add_isolated,
  readied, merge_expired, add_recovering,
}
use aesirguard_audit.Assembler.Accounts.{
  emitted, emitted_ready, IsAccounted, SameHoldings, SameHoldings-IsAccounted,
}
use aesirguard_audit.Assembler.Delivery.{
  Delivers, nothing, emitted_added, finish-Delivers, expired-Delivers, expire_rejected-SameHoldings,
  emitted-ordered_events,
}
use aesirguard_audit.Assembler.Conservation.{accepted, add_at-Delivers}
use aesirguard_audit.Assembler.Exceptions.{
  recovered, Accounts, add_rejected-Delivers, add_fenced-Delivers, Holds, add_over_limit-Delivers,
  limited-state, mark_mixed-Holds,
}

recover_added-Accounts :
    (r : Record) (now : ℕ) (pending : Option PendingEvent) (a b : Assembler) (x : Added)
    → Holds (key_of r) pending a
    → ((e : AssemblerLimitError) → x ≡ limited e → b ≡ mark_mixed (key_of r) a)
    → Delivers a (accepted r (is_some pending) x) b (λ w. emitted_added w x)
    → Accounts r a (recover_added r now pending b x)
unfolding recover_added
recover_added-Accounts r now pending a b (limited e) h marks d =
    let held_there : Holds (key_of r) pending b =
      rw (marks e refl) (mark_mixed-Holds r pending a h) in
    let later = add_over_limit-Delivers r now pending e b d.accounted held_there in
    inl (record {
      balance = λ w. omega (arith, d.balance w, later.balance w);
      accounted = later.accounted;
    })
recover_added-Accounts r now pending a b (events es) h marks d =
    elim (Bool-cases (r.record_type == codes "EOE" && not (is_some pending))) [
      | inl bare ↦ inr (
        (bytes_eq_iff r.record_type (codes "EOE")).0 (ground arith),
        record { balance = λ w. rw bare at (d.balance w); accounted = d.accounted },
      )
      | inr full ↦ inl (record { balance = λ w. rw full at (d.balance w); accounted = d.accounted })
    ]

add_admissible-Accounts :
    (r : Record) (now : ℕ) (pending : Option PendingEvent) (a : Assembler)
    → IsAccounted a
    → Holds (key_of r) pending a
    → Accounts r a (add_admissible r now pending a)
unfolding add_admissible
add_admissible-Accounts r now pending a v h =
    recover_added-Accounts r now pending a (add_at r now a).0 (add_at r now a).1 h
      (λ e q. limited-state r now a q) (rw h at (add_at-Delivers r now a v))

close_full-Delivers :
    (r : Record) (p : PendingEvent) (a : Assembler)
    → IsAccounted a
    → Holds (key_of r) (some p) a
    → Delivers a nothing
        (close_full (finish (key_of r, p) Completion.eoe true a)).0
        (recovered (close_full (finish (key_of r, p) Completion.eoe true a)))
close_full-Delivers r p a v h =
    let d = finish-Delivers (key_of r, p) Completion.eoe true a v h in
    record {
      balance = λ w. omega (
        arith,
        d.balance w,
        emitted-ordered_events w ((finish (key_of r, p) Completion.eoe true a).1 ∷ []),
      );
      accounted = d.accounted;
    }

add_unrejected-Accounts :
    (r : Record) (now : ℕ) (pending : Option PendingEvent) (a : Assembler)
    → IsAccounted a
    → Holds (key_of r) pending a
    → Accounts r a (add_unrejected r now pending a)
unfolding add_unrejected
add_unrejected-Accounts r now none a v h = elim (Bool-cases (not (nat_eq a.spill_since 0))) [
  | inl up ↦ rw up (inl (add_fenced-Delivers r now a v))
  | inr down ↦ rw down (add_admissible-Accounts r now none a v h)
]
add_unrejected-Accounts r now (some p) a v h = elim (Bool-cases (closes_full r p a)) [
  | inl full ↦ rw full (
      inr (
        (bytes_eq_iff r.record_type (codes "EOE")).0 (ground arith),
        close_full-Delivers r p a v h,
      ))
  | inr room ↦ rw room (add_admissible-Accounts r now (some p) a v h)
]

isolate-Accounts :
    (r : Record) (now : ℕ) (pending : Option PendingEvent) (rejected : Option RejectedEvent)
    (a : Assembler)
    → IsAccounted a
    → Holds (key_of r) pending a
    → Accounts r a (isolate r now pending rejected a)
unfolding isolate
isolate-Accounts r now pending none a v h = add_unrejected-Accounts r now pending a v h
isolate-Accounts r now pending (some x) a v h = inl (add_rejected-Delivers r now pending x a v)

add_isolated-Accounts :
    (r : Record) (now : ℕ) (pending : Option PendingEvent) (a : Assembler)
    → IsAccounted a
    → Holds (key_of r) pending a
    → Accounts r a (add_isolated r now pending a)
unfolding add_isolated
add_isolated-Accounts r now pending a v h =
    isolate-Accounts r now pending (lookup (key_of r) a.rejected) a v h

emitted-wrapped :
    (w : Record → ℕ) (es : List AssembledEvent) → emitted_ready w (map readied es) ≡ emitted w es
emitted-wrapped w [] = refl
emitted-wrapped w (e ∷ es) = ap (λ n. sum_by w e.records + n) (emitted-wrapped w es)

-- The deferred merge adds the expired events to the result, and loses none of it.
emitted-merge_expired :
    (w : Record → ℕ) (late : List ReadyEvent) (es : List AssembledEvent)
    → emitted w (merge_expired late es) ≡ emitted_ready w late + emitted w es
unfolding merge_expired
emitted-merge_expired w [] es = omega arith
emitted-merge_expired w (x ∷ xs) es =
    let wrapped = map readied es in
    omega (
      arith,
      emitted-ordered_events w ((x ∷ xs) ++ wrapped),
      sum_by-append (λ (e : ReadyEvent). sum_by w e.event.records) (x ∷ xs) wrapped,
      emitted-wrapped w es,
    )

-- Expiry, the change of the rejected keys, the call proper and the merge, one after the other.
chain :
    {added : (Record → ℕ) → ℕ} (a b c d : Assembler) (late : List ReadyEvent)
    (es : List AssembledEvent)
    → Delivers a nothing b (λ w. emitted_ready w late)
    → SameHoldings b c
    → Delivers c added d (λ w. emitted w es)
    → Delivers a added d (λ w. emitted w (merge_expired late es))
chain a b c d late es first same last = record {
  balance = λ w. omega (
    arith,
    first.balance w,
    same.same_held (sum_by w),
    last.balance w,
    emitted-merge_expired w late es,
  );
  accounted = last.accounted;
}

-- One call of `AddRecovering`, from a state whose keys are distinct and whose byte counter is the
-- sum over the pending records: the record, and every record that was pending, is pending or in a
-- returned event afterwards, exactly once, except that the record may vanish if it is an EOE; the
-- keys stay distinct and the counter exact.
pub add_recovering-Accounts :
    (r : Record) (now : ℕ) (a : Assembler) → IsAccounted a → Accounts r a (add_recovering r now a)
unfolding add_recovering
add_recovering-Accounts r now a v =
    let b = (expired now a).0 in
    let late = (expired now a).1 in
    let c = expire_rejected now b in
    let first = expired-Delivers now a v in
    let same = expire_rejected-SameHoldings now b in
    let inner = add_isolated r now (lookup (key_of r) c.pending) c in
    elim (add_isolated-Accounts r now (lookup (key_of r) c.pending) c
      (SameHoldings-IsAccounted b c same first.accounted) refl) [
        | inl d ↦ inl (chain a b c inner.0 late inner.1.0 first same d)
        | inr (e, d) ↦ inr (e, chain a b c inner.0 late inner.1.0 first same d)
      ]
