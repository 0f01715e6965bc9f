-- ===== src/Assembler/Order.antt =====
-- The order in which events leave: `orderedEvents` of assembler.go, and the numbers by which it sorts.
use aesirguard_audit.Base.{
  ℕ, ◌+◌, some, ◌≤◌, ◌||◌, List, [], ◌∷◌, map, ◌≡◌, refl, ap, ◌∙◌, inl, inr, arith, sum_by, All,
  Bool-cases, nat_eq,
}
use aesirguard_audit.Base.Entries.{IsListed, sort_by-IsListed, self-IsListed, delete_all_self}
use aesirguard_audit.Base.Maps.{lookup, Distinct-delete, total, total-delete, Distinct}
use aesirguard_audit.Base.Sort.{IsSorted, sort_by, sort_by-IsSorted, sort_by-sum}
use aesirguard_audit.Record.{Record}
use aesirguard_audit.Assembler.State.{
  Assembler, CorrelationKey, key_equality, PendingEvent, ReadyEvent, AssembledEvent, Completion,
}
use aesirguard_audit.Assembler.Delivery.{expire_rejected-pending, finish_all-pending}
use aesirguard_audit.Assembler.Expiry.{
  Entry, due, wall_expired, watermark_expired, finish, remove_pending, expire_one, expire_all,
  expired, expire_rejected, finish_all, clear_rejected, stamped, ordered_events, flush_expired,
  flush_all_with,
}

-- Each event was opened no later than those behind it.
abbrev pub InOrder : List AssembledEvent → Type 0
InOrder = IsSorted (λ (e : AssembledEvent). e.sequence)

-- A weight of a number and of records, summed up over events.
abbrev pub numbered : (ℕ → List Record → ℕ) → List AssembledEvent → ℕ
numbered w = sum_by (λ (e : AssembledEvent). w e.sequence e.records)

-- The same over pending events, each with the number that it was opened with.
abbrev pub opened : (ℕ → List Record → ℕ) → List (CorrelationKey × PendingEvent) → ℕ
opened w = total (λ (p : PendingEvent). w p.sequence p.records)

abbrev numbered_ready : (ℕ → List Record → ℕ) → List ReadyEvent → ℕ
numbered_ready w = sum_by (λ (x : ReadyEvent). w x.sequence x.event.records)

All-map-stamped :
    (n : ℕ) (xs : List ReadyEvent)
    → All (λ (x : ReadyEvent). n ≤ x.sequence) xs
    → All (λ (e : AssembledEvent). n ≤ e.sequence) (map stamped xs)
All-map-stamped n [] a = tt
All-map-stamped n (x ∷ xs) a = (a.0, All-map-stamped n xs a.1)

map-stamped-InOrder :
    (xs : List ReadyEvent) → IsSorted (λ (x : ReadyEvent). x.sequence) xs → InOrder (map stamped xs)
map-stamped-InOrder [] s = tt
map-stamped-InOrder (x ∷ xs) s = (All-map-stamped x.sequence xs s.0, map-stamped-InOrder xs s.1)

ordered_events-InOrder : (ready : List ReadyEvent) → InOrder (ordered_events ready)
unfolding ordered_events
ordered_events-InOrder ready =
    map-stamped-InOrder (sort_by (λ (x : ReadyEvent). x.sequence) ready)
      (sort_by-IsSorted (λ (x : ReadyEvent). x.sequence) ready)

module _ (w : ℕ → List Record → ℕ) where
  map-stamped-numbered :
      (ready : List ReadyEvent) → numbered w (map stamped ready) ≡ numbered_ready w ready
  map-stamped-numbered [] = refl
  map-stamped-numbered (x ∷ xs) =
      ap (λ n. w x.sequence x.event.records + n) (map-stamped-numbered xs)

  ordered_events-numbered :
      (ready : List ReadyEvent) → numbered w (ordered_events ready) ≡ numbered_ready w ready
  unfolding ordered_events
  ordered_events-numbered ready =
      map-stamped-numbered (sort_by (λ (x : ReadyEvent). x.sequence) ready)
      ∙ sort_by-sum (λ (x : ReadyEvent). x.sequence)
          (λ (x : ReadyEvent). w x.sequence x.event.records) ready

  remove_pending-opened :
      (e : Entry) (a : Assembler)
      → Distinct a.pending
      → lookup e.0 a.pending ≡ some e.1
      → opened w (remove_pending e a).pending + w e.1.sequence e.1.records ≡ opened w a.pending
  unfolding remove_pending
  remove_pending-opened (k, p) a d h =
      rw h at (total-delete (λ (q : PendingEvent). w q.sequence q.records) k a.pending d)

  expire_all-opened :
      (es : List Entry) (a : Assembler)
      → Distinct a.pending
      → IsListed es a.pending
      → opened w (expire_all es a).0.pending + numbered_ready w (expire_all es a).1
        ≡ opened w a.pending
  unfolding expire_all expire_one finish remove_pending
  expire_all-opened [] a d h = omega arith
  expire_all-opened (e ∷ es) a d h = omega (
    arith,
    expire_all-opened es (remove_pending e a) (Distinct-delete e.0 a.pending d) h.1,
    remove_pending-opened e a d h.0,
  )

  finish_all-opened :
      (es : List Entry) (c : Completion) (a : Assembler)
      → Distinct a.pending
      → IsListed es a.pending
      → opened w (finish_all es c a).0.pending + numbered_ready w (finish_all es c a).1
        ≡ opened w a.pending
  unfolding finish_all finish remove_pending
  finish_all-opened [] c a d h = omega arith
  finish_all-opened (e ∷ es) c a d h = omega (
    arith,
    finish_all-opened es c (remove_pending e a) (Distinct-delete e.0 a.pending d) h.1,
    remove_pending-opened e a d h.0,
  )

  expired-opened :
      (now : ℕ) (a : Assembler)
      → Distinct a.pending
      → opened w (expired now a).0.pending + numbered_ready w (expired now a).1 ≡ opened w a.pending
  unfolding expired due
  expired-opened now a d = elim (Bool-cases (nat_eq a.timeout 0)) [
    | inl off ↦ rw off (omega arith)
    | inr on ↦ rw on (
        expire_all-opened _ a d (
          sort_by-IsListed _ (λ (e : Entry). wall_expired now a e.1 || watermark_expired a e.1)
            a.pending d))
  ]

-- Whatever the order in which the map of pending events is visited, if its keys are distinct: what
-- expires at a time leaves in the order of the numbers that the events were opened with, each event
-- under that number and with its records, and the events that do not expire keep theirs; and the
-- last flush emits all that was pending in that order and in that way. Numbers and records are
-- compared by every weight on the two together.
pub flushes-InOrder :
    (w : ℕ → List Record → ℕ) (now : ℕ) (c : Completion) (a : Assembler)
    → Distinct a.pending
    → InOrder (flush_expired now a).1
      × (opened w (flush_expired now a).0.pending + numbered w (flush_expired now a).1
          ≡ opened w a.pending)
      × InOrder (flush_all_with c a).1
      × (numbered w (flush_all_with c a).1 ≡ opened w a.pending)
unfolding flush_expired flush_all_with
flushes-InOrder w now c a d =
    let b = expire_rejected now a in
    let same = expire_rejected-pending now a in
    let none_left =
      finish_all-pending a.pending c (clear_rejected a) ∙ delete_all_self a.pending d in
    (
      ordered_events-InOrder _,
      omega (
        arith,
        expired-opened w now b (rw same d),
        ordered_events-numbered w (expired now b).1,
        ap (opened w) same,
      ),
      ordered_events-InOrder _,
      omega (
        arith,
        finish_all-opened w a.pending c (clear_rejected a) d (self-IsListed a.pending d),
        ordered_events-numbered w (finish_all a.pending c (clear_rejected a)).1,
        ap (opened w) none_left,
      ),
    )
