-- ===== src/Assembler/RecoveryBounds.antt =====
-- `AddRecovering` and the flushes keep the limits on pending events.
use aesirguard_audit.Base.{
  ℕ, not, List, [], ◌∷◌, ◌++◌, Option, none, some, refl, inl, inr, arith, Bool-cases, nat_eq,
  if◌then◌else◌, bytes_equality,
}
use aesirguard_audit.Base.Maps.{lookup}
use aesirguard_audit.Record.{Record, SourcePosition}
use aesirguard_audit.Assembler.State.{
  Assembler, PendingEvent, RejectedEvent, CorrelationKey, key_equality, AssemblerLimitError,
}
use aesirguard_audit.Assembler.Expiry.{
  remove_pending, finish, expired, expire_rejected_key, expire_rejected_keys, expire_spill,
  expire_rejected,
}
use aesirguard_audit.Assembler.Add.{key_of, Added, events, limited, add_at}
use aesirguard_audit.Assembler.Isolation.{
  start_spill, reject_key, track_or_spill, exceptional, emit_exception, is_terminal, add_rejected,
  closes_full, add_fenced, first_source, add_over_limit, recover_added, add_admissible,
  add_unrejected, isolate, add_isolated, add_recovering,
}
use aesirguard_audit.Assembler.Shrinking.{
  Shrinks, Shrinks-refl, Shrinks-of, Shrinks-trans, remove_pending-Shrinks, expired-Shrinks,
}
use aesirguard_audit.Assembler.Bounds.{IsBounded, Shrinks-IsBounded, add_at-IsBounded}

emit_exception-Shrinks :
    (r : Record) (pending : Option PendingEvent) (records : List Record)
    (d : Option AssemblerLimitError) (a : Assembler)
    → Shrinks a (emit_exception r pending records d a).0
unfolding emit_exception exceptional
emit_exception-Shrinks r none records d a = Shrinks-of a a _ (Shrinks-refl a) refl refl refl
emit_exception-Shrinks r (some p) records d a = Shrinks-refl a

pub track_or_spill-Shrinks :
    (k : CorrelationKey) (now : ℕ) (s t : SourcePosition) (a : Assembler)
    → Shrinks a (track_or_spill k now s t a)
unfolding track_or_spill reject_key start_spill
track_or_spill-Shrinks k now s t a =
    Shrinks-of a a _ (Shrinks-refl a) (ground arith) (ground arith) (ground arith)

unless_terminal-Shrinks :
    (r : Record) (k : CorrelationKey) (now : ℕ) (s t : SourcePosition) (a : Assembler)
    → Shrinks a (if is_terminal r then a else track_or_spill k now s t a)
unless_terminal-Shrinks r k now s t a = elim (Bool-cases (is_terminal r)) [
  | inl ends ↦ rw ends (Shrinks-refl a)
  | inr goes_on ↦ rw goes_on (track_or_spill-Shrinks k now s t a)
]

except-Shrinks :
    (r : Record) (pending : Option PendingEvent) (records : List Record)
    (d : Option AssemblerLimitError) (a b : Assembler)
    → Shrinks a b
    → Shrinks a (emit_exception r pending records d b).0
except-Shrinks r pending records d a b s =
    Shrinks-trans a b _ s (emit_exception-Shrinks r pending records d b)

add_rejected-Shrinks :
    (r : Record) (now : ℕ) (pending : Option PendingEvent) (x : RejectedEvent) (a : Assembler)
    → Shrinks a (add_rejected r now pending x a).0
unfolding add_rejected
add_rejected-Shrinks r now pending x a =
    except-Shrinks r pending (r ∷ []) none a _
      (Shrinks-of a a _ (Shrinks-refl a) (ground arith) (ground arith) (ground arith))

add_over_limit-Shrinks :
    (r : Record) (now : ℕ) (pending : Option PendingEvent) (e : AssemblerLimitError) (a : Assembler)
    → Shrinks a (add_over_limit r now pending e a).0
unfolding add_over_limit
add_over_limit-Shrinks r now none e a =
    except-Shrinks r none (r ∷ []) (some e) a _
      (unless_terminal-Shrinks r (key_of r) now r.source r.source a)
add_over_limit-Shrinks r now (some p) e a =
    let records = p.records ++ r ∷ [] in
    let b = remove_pending (key_of r, p) a in
    except-Shrinks r (some p) records (some e) a _ (
      Shrinks-trans a b _ (remove_pending-Shrinks (key_of r, p) a) (
        unless_terminal-Shrinks r (key_of r) now (first_source records r) (first_source records r)
          b))

recover_added-IsBounded :
    (r : Record) (now : ℕ) (pending : Option PendingEvent) (a : Assembler) (x : Added)
    → IsBounded a
    → IsBounded (recover_added r now pending a x).0
unfolding recover_added
recover_added-IsBounded r now pending a (events es) v = v
recover_added-IsBounded r now pending a (limited e) v =
    Shrinks-IsBounded a _ (add_over_limit-Shrinks r now pending e a) v

add_admissible-IsBounded :
    (r : Record) (now : ℕ) (pending : Option PendingEvent) (a : Assembler)
    → IsBounded a
    → IsBounded (add_admissible r now pending a).0
unfolding add_admissible
add_admissible-IsBounded r now pending a v =
    recover_added-IsBounded r now pending (add_at r now a).0 (add_at r now a).1
      (add_at-IsBounded r now a v)

add_fenced-Shrinks : (r : Record) (now : ℕ) (a : Assembler) → Shrinks a (add_fenced r now a).0
unfolding add_fenced
add_fenced-Shrinks r now a =
    except-Shrinks r none (r ∷ []) none a _
      (unless_terminal-Shrinks r (key_of r) now a.spill_source r.source a)

add_unrejected-IsBounded :
    (r : Record) (now : ℕ) (pending : Option PendingEvent) (a : Assembler)
    → IsBounded a
    → IsBounded (add_unrejected r now pending a).0
unfolding add_unrejected finish
add_unrejected-IsBounded r now none a v = elim (Bool-cases (not (nat_eq a.spill_since 0))) [
  | inl up ↦ rw up (Shrinks-IsBounded a _ (add_fenced-Shrinks r now a) v)
  | inr down ↦ rw down (add_admissible-IsBounded r now none a v)
]
add_unrejected-IsBounded r now (some p) a v = elim (Bool-cases (closes_full r p a)) [
  | inl full ↦ rw full (Shrinks-IsBounded a _ (remove_pending-Shrinks (key_of r, p) a) v)
  | inr room ↦ rw room (add_admissible-IsBounded r now (some p) a v)
]

isolate-IsBounded :
    (r : Record) (now : ℕ) (pending : Option PendingEvent) (x : Option RejectedEvent)
    (a : Assembler)
    → IsBounded a
    → IsBounded (isolate r now pending x a).0
unfolding isolate
isolate-IsBounded r now pending none a v = add_unrejected-IsBounded r now pending a v
isolate-IsBounded r now pending (some x) a v =
    Shrinks-IsBounded a _ (add_rejected-Shrinks r now pending x a) v

expire_rejected_key-Shrinks :
    (now : ℕ) (key : CorrelationKey) (r : RejectedEvent) (a : Assembler)
    → Shrinks a (expire_rejected_key now key r a)
unfolding expire_rejected_key
expire_rejected_key-Shrinks now key r a =
    Shrinks-of a a _ (Shrinks-refl a) (ground arith) (ground arith) (ground arith)

expire_rejected_keys-Shrinks :
    (now : ℕ) (keys : List (CorrelationKey × RejectedEvent)) (a : Assembler)
    → Shrinks a (expire_rejected_keys now keys a)
unfolding expire_rejected_keys
expire_rejected_keys-Shrinks now [] a = Shrinks-refl a
expire_rejected_keys-Shrinks now ((key, r) ∷ rest) a =
    Shrinks-trans a (expire_rejected_key now key r a) _ (expire_rejected_key-Shrinks now key r a)
      (expire_rejected_keys-Shrinks now rest (expire_rejected_key now key r a))

pub expire_rejected-Shrinks : (now : ℕ) (a : Assembler) → Shrinks a (expire_rejected now a)
unfolding expire_rejected expire_spill
expire_rejected-Shrinks now a =
    Shrinks-of a (expire_rejected_keys now a.rejected a) _
      (expire_rejected_keys-Shrinks now a.rejected a) (ground arith) (ground arith) (ground arith)

-- `AddRecovering`, from a state whose limits are positive and kept, keeps the limits on the number of
-- pending events, of records in each and of bytes, on each of its paths.
pub add_recovering-IsBounded :
    (r : Record) (now : ℕ) (a : Assembler) → IsBounded a → IsBounded (add_recovering r now a).0
unfolding add_recovering add_isolated
add_recovering-IsBounded r now a v =
    let b = (expired now a).0 in
    let c = expire_rejected now b in
    isolate-IsBounded r now (lookup (key_of r) c.pending) (lookup (key_of r) c.rejected) c (
      Shrinks-IsBounded b c (expire_rejected-Shrinks now b)
        (Shrinks-IsBounded a b (expired-Shrinks now a) v))
