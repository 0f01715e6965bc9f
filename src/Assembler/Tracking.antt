-- ===== src/Assembler/Tracking.antt =====
-- The metadata kept of rejected keys (isolation.go): within the limits, and counted exactly.
use aesirguard_audit.Base.{
  ℕ, ◌+◌, ◌-◌, ◌≤◌, true, false, ◌&&◌, not, List, [], ◌∷◌, none, some, ◌≡◌, refl, ◌==◌, ap, ◌∙◌,
  inl, inr, arith, length, Bool-cases, ltb, bytes_equality,
}
use aesirguard_audit.Base.Maps.{
  lookup, insert, delete, Distinct, total, weigh, Distinct-insert, Distinct-delete, total-insert,
  total-delete, length-insert, length-delete-le, lookup-delete,
}
use aesirguard_audit.Base.Entries.{AreIn, AreIn-self}
use aesirguard_audit.Record.{SourcePosition}
use aesirguard_audit.Assembler.State.{Assembler, RejectedEvent, CorrelationKey, key_equality}
use aesirguard_audit.Assembler.Expiry.{
  expire_rejected_key, expire_rejected_keys, expire_spill, expire_rejected,
}
use aesirguard_audit.Assembler.Isolation.{
  start_spill, reject_key, track_or_spill, has_room, key_bytes,
}

-- The bytes of the keys that are tracked.
abbrev pub tracked_bytes : List (CorrelationKey × RejectedEvent) → ℕ
tracked_bytes = total (λ (x : RejectedEvent). x.key_bytes)

-- Keys are distinct, their bytes are counted exactly, and both their number and their bytes are
-- within the limits on pending events.
pub record IsTracked (a : Assembler) : Type 0 where
  pub keys_distinct : Distinct a.rejected
  pub counted : a.rejection_bytes ≡ tracked_bytes a.rejected
  pub few_keys : length a.rejected ≤ a.limits.max_pending_events
  pub few_key_bytes : a.rejection_bytes ≤ a.limits.max_pending_bytes

-- The two states track the same keys under the same limits.
pub record SameTracking (a b : Assembler) : Type 0 where
  pub same_rejected : b.rejected ≡ a.rejected
  pub same_rejection_bytes : b.rejection_bytes ≡ a.rejection_bytes
  pub same_limits : b.limits ≡ a.limits

pub SameTracking-IsTracked : (a b : Assembler) → SameTracking a b → IsTracked a → IsTracked b
SameTracking-IsTracked a b s v = record {
  keys_distinct = rw s.same_rejected v.keys_distinct;
  counted = rw (s.same_rejected, s.same_rejection_bytes) v.counted;
  few_keys = rw (s.same_rejected, s.same_limits) v.few_keys;
  few_key_bytes = rw (s.same_rejection_bytes, s.same_limits) v.few_key_bytes;
}

pub SameTracking-refl : (a : Assembler) → SameTracking a a
SameTracking-refl a = record {
  same_rejected = refl;
  same_rejection_bytes = refl;
  same_limits = refl;
}

pub SameTracking-trans :
    (a b c : Assembler) → SameTracking a b → SameTracking b c → SameTracking a c
SameTracking-trans a b c s t = record {
  same_rejected = t.same_rejected ∙ s.same_rejected;
  same_rejection_bytes = t.same_rejection_bytes ∙ s.same_rejection_bytes;
  same_limits = t.same_limits ∙ s.same_limits;
}

-- A key that is no longer tracked.
pub untrack-IsTracked :
    (k : CorrelationKey) (x : RejectedEvent) (a : Assembler)
    → lookup k a.rejected ≡ some x
    → IsTracked a
    → IsTracked (record a {
      rejected = delete k a.rejected;
      rejection_bytes = a.rejection_bytes - x.key_bytes;
    })
untrack-IsTracked k x a h v =
    let w = λ (y : RejectedEvent). y.key_bytes in
    let heavy = total-delete w k a.rejected v.keys_distinct in
    let same : weigh w (lookup k a.rejected) ≡ x.key_bytes = ap (weigh w) h in
    record {
      keys_distinct = Distinct-delete k a.rejected v.keys_distinct;
      counted = omega (arith, heavy, same, v.counted);
      few_keys = omega (arith, length-delete-le k a.rejected, v.few_keys);
      few_key_bytes = omega (arith, v.few_key_bytes);
    }

-- A new key, where there is room for it.
reject_key-IsTracked :
    (k : CorrelationKey) (now : ℕ) (s : SourcePosition) (a : Assembler)
    → lookup k a.rejected ≡ none
    → has_room k a ≡ true
    → IsTracked a
    → IsTracked (reject_key k now s a)
unfolding reject_key
reject_key-IsTracked k now s a h room v =
    let w = λ (y : RejectedEvent). y.key_bytes in
    let x : RejectedEvent = record { source = s; last_seen = now; key_bytes = key_bytes k } in
    let heavier = total-insert w k x a.rejected in
    let same : weigh w (lookup k a.rejected) ≡ 0 = ap (weigh w) h in
    record {
      keys_distinct = Distinct-insert k x a.rejected v.keys_distinct;
      counted = omega (arith, heavier, same, v.counted);
      few_keys = ground (arith, room, length-insert k x a.rejected, h);
      few_key_bytes = ground (arith, room);
    }

pub start_spill-SameTracking :
    (now : ℕ) (s : SourcePosition) (a : Assembler) → SameTracking a (start_spill now s a)
unfolding start_spill
start_spill-SameTracking now s a = record {
  same_rejected = ground arith;
  same_rejection_bytes = ground arith;
  same_limits = ground arith;
}

-- A key that is not tracked yet: it is tracked, or the fence goes up.
pub track_or_spill-IsTracked :
    (k : CorrelationKey) (now : ℕ) (s t : SourcePosition) (a : Assembler)
    → lookup k a.rejected ≡ none
    → IsTracked a
    → IsTracked (track_or_spill k now s t a)
unfolding track_or_spill
track_or_spill-IsTracked k now s t a h v = elim (Bool-cases (has_room k a)) [
  | inl room ↦ rw room (reject_key-IsTracked k now s a h room v)
  | inr full ↦
      rw full (SameTracking-IsTracked a (start_spill now t a) (start_spill-SameTracking now t a) v)
]

-- A key that is seen again.
pub touch-IsTracked :
    (k : CorrelationKey) (x : RejectedEvent) (now : ℕ) (a : Assembler)
    → lookup k a.rejected ≡ some x
    → IsTracked a
    → IsTracked (record a { rejected = insert k (record x { last_seen = now }) a.rejected })
touch-IsTracked k x now a h v =
    let w = λ (y : RejectedEvent). y.key_bytes in
    let y : RejectedEvent = record x { last_seen = now } in
    let heavier = total-insert w k y a.rejected in
    let same : weigh w (lookup k a.rejected) ≡ x.key_bytes = ap (weigh w) h in
    let one_there : weigh (λ (z : RejectedEvent). 1) (lookup k a.rejected) ≡ 1 =
      ap (weigh (λ (z : RejectedEvent). 1)) h in
    record {
      keys_distinct = Distinct-insert k y a.rejected v.keys_distinct;
      counted = omega (arith, heavier, same, v.counted);
      few_keys = omega (arith, length-insert k y a.rejected, one_there, v.few_keys);
      few_key_bytes = v.few_key_bytes;
    }

expire_key-IsTracked :
    (now : ℕ) (k : CorrelationKey) (x : RejectedEvent) (a : Assembler)
    → lookup k a.rejected ≡ some x
    → IsTracked a
    → IsTracked (expire_rejected_key now k x a)
      × ((j : CorrelationKey)
          → (k == j) ≡ false
          → lookup j (expire_rejected_key now k x a).rejected ≡ lookup j a.rejected)
unfolding expire_rejected_key
expire_key-IsTracked now k x a h v =
    elim (Bool-cases (ltb 0 a.timeout && not (ltb now (x.last_seen + a.timeout)))) [
      | inl due ↦
          rw due
            (untrack-IsTracked k x a h v, λ j other. lookup-delete k j a.rejected ∙ rw other refl)
      | inr fresh ↦ rw fresh (v, λ j other. refl)
    ]

-- Entries other than `k` stay where they are.
others-AreIn :
    (k : CorrelationKey) (rest m n : List (CorrelationKey × RejectedEvent))
    → lookup k rest ≡ none
    → ((j : CorrelationKey) → (k == j) ≡ false → lookup j n ≡ lookup j m)
    → AreIn rest m
    → AreIn rest n
unfolding lookup
others-AreIn k [] m n h same a = tt
others-AreIn k ((i, w) ∷ rest) m n h same a = elim (Bool-cases (i == k)) [
  | inl this ↦ ground (arith, h, this)
  | inr other ↦ (
    same i (ground (arith, other, key_equality.beq_iff i k, key_equality.beq_iff k i)) ∙ a.0,
    others-AreIn k rest m n (ground (arith, h, other)) same a.1,
  )
]

expire_keys-IsTracked :
    (now : ℕ) (ks : List (CorrelationKey × RejectedEvent)) (a : Assembler)
    → Distinct ks
    → AreIn ks a.rejected
    → IsTracked a
    → IsTracked (expire_rejected_keys now ks a)
unfolding expire_rejected_keys
expire_keys-IsTracked now [] a d there v = v
expire_keys-IsTracked now ((k, x) ∷ rest) a d there v =
    let b = expire_rejected_key now k x a in
    let (kept, others) = expire_key-IsTracked now k x a there.0 v in
    expire_keys-IsTracked now rest b d.1
      (others-AreIn k rest a.rejected b.rejected d.0 others there.1) kept

-- `expireRejected` keeps the bookkeeping.
pub expire_rejected-IsTracked :
    (now : ℕ) (a : Assembler) → IsTracked a → IsTracked (expire_rejected now a)
unfolding expire_rejected expire_spill
expire_rejected-IsTracked now a v =
    let b = expire_rejected_keys now a.rejected a in
    SameTracking-IsTracked b (expire_rejected now a)
      (record {
        same_rejected = ground arith;
        same_rejection_bytes = ground arith;
        same_limits = ground arith;
      })
      (expire_keys-IsTracked now a.rejected a v.keys_distinct
        (AreIn-self a.rejected v.keys_distinct) v)
