-- ===== src/Assembler/RejectedKeys.antt =====
-- `AddRecovering` keeps the metadata of rejected keys counted and within the limits.
use aesirguard_audit.Base.{
  ℕ, not, List, [], ◌∷◌, ◌++◌, Option, none, some, ◌≡◌, refl, ap, ◌∙◌, inl, inr, Bool-cases, nat_eq,
  if◌then◌else◌, bytes_equality,
}
use aesirguard_audit.Base.Maps.{lookup}
use aesirguard_audit.Record.{Record, SourcePosition}
use aesirguard_audit.Assembler.State.{
  Assembler, PendingEvent, RejectedEvent, key_equality, AssemblerLimitError,
}
use aesirguard_audit.Assembler.Expiry.{expired, expire_rejected, remove_pending, finish}
use aesirguard_audit.Assembler.Add.{key_of, Added, events, limited, add_at}
use aesirguard_audit.Assembler.Isolation.{
  track_or_spill, emit_exception, is_terminal, add_rejected, add_fenced, first_source,
  add_over_limit, recover_added, add_admissible, closes_full, add_unrejected, isolate, add_isolated,
  add_recovering,
}
use aesirguard_audit.Assembler.Tracking.{
  IsTracked, SameTracking-IsTracked, untrack-IsTracked, touch-IsTracked, track_or_spill-IsTracked,
  expire_rejected-IsTracked,
}
use aesirguard_audit.Assembler.Untouched.{
  expired-SameTracking, remove_pending-SameTracking, add_at-SameTracking,
  emit_exception-SameTracking,
}

-- Behind the bookkeeping, an exception is emitted.
except-IsTracked :
    (r : Record) (pending : Option PendingEvent) (records : List Record)
    (d : Option AssemblerLimitError) (a : Assembler)
    → IsTracked a
    → IsTracked (emit_exception r pending records d a).0
except-IsTracked r pending records d a v =
    SameTracking-IsTracked a _ (emit_exception-SameTracking r pending records d a) v

unless_terminal-IsTracked :
    (r : Record) (now : ℕ) (s t : SourcePosition) (a : Assembler)
    → lookup (key_of r) a.rejected ≡ none
    → IsTracked a
    → IsTracked (if is_terminal r then a else track_or_spill (key_of r) now s t a)
unless_terminal-IsTracked r now s t a h v = elim (Bool-cases (is_terminal r)) [
  | inl ends ↦ rw ends v
  | inr goes_on ↦ rw goes_on (track_or_spill-IsTracked (key_of r) now s t a h v)
]

add_rejected-IsTracked :
    (r : Record) (now : ℕ) (pending : Option PendingEvent) (x : RejectedEvent) (a : Assembler)
    → lookup (key_of r) a.rejected ≡ some x
    → IsTracked a
    → IsTracked (add_rejected r now pending x a).0
unfolding add_rejected
add_rejected-IsTracked r now pending x a h v =
    except-IsTracked r pending (r ∷ []) none _ (elim (Bool-cases (is_terminal r)) [
      | inl ends ↦ rw ends (untrack-IsTracked (key_of r) x a h v)
      | inr goes_on ↦ rw goes_on (touch-IsTracked (key_of r) x now a h v)
    ])

add_over_limit-IsTracked :
    (r : Record) (now : ℕ) (pending : Option PendingEvent) (e : AssemblerLimitError) (a : Assembler)
    → lookup (key_of r) a.rejected ≡ none
    → IsTracked a
    → IsTracked (add_over_limit r now pending e a).0
unfolding add_over_limit
add_over_limit-IsTracked r now none e a h v =
    except-IsTracked r none (r ∷ []) (some e) _
      (unless_terminal-IsTracked r now r.source r.source a h v)
add_over_limit-IsTracked r now (some p) e a h v =
    let records = p.records ++ r ∷ [] in
    let b = remove_pending (key_of r, p) a in
    let same = remove_pending-SameTracking (key_of r, p) a in
    except-IsTracked r (some p) records (some e) _ (
      unless_terminal-IsTracked r now (first_source records r) (first_source records r) b
        (ap (lookup (key_of r)) same.same_rejected ∙ h) (SameTracking-IsTracked a b same v))

recover_added-IsTracked :
    (r : Record) (now : ℕ) (pending : Option PendingEvent) (a : Assembler) (x : Added)
    → lookup (key_of r) a.rejected ≡ none
    → IsTracked a
    → IsTracked (recover_added r now pending a x).0
unfolding recover_added
recover_added-IsTracked r now pending a (events es) h v = v
recover_added-IsTracked r now pending a (limited e) h v =
    add_over_limit-IsTracked r now pending e a h v

add_admissible-IsTracked :
    (r : Record) (now : ℕ) (pending : Option PendingEvent) (a : Assembler)
    → lookup (key_of r) a.rejected ≡ none
    → IsTracked a
    → IsTracked (add_admissible r now pending a).0
unfolding add_admissible
add_admissible-IsTracked r now pending a h v =
    let x = add_at r now a in
    let same = add_at-SameTracking r now a in
    recover_added-IsTracked r now pending x.0 x.1 (ap (lookup (key_of r)) same.same_rejected ∙ h)
      (SameTracking-IsTracked a x.0 same v)

add_unrejected-IsTracked :
    (r : Record) (now : ℕ) (pending : Option PendingEvent) (a : Assembler)
    → lookup (key_of r) a.rejected ≡ none
    → IsTracked a
    → IsTracked (add_unrejected r now pending a).0
unfolding add_unrejected add_fenced finish
add_unrejected-IsTracked r now none a h v = elim (Bool-cases (not (nat_eq a.spill_since 0))) [
  | inl up ↦ rw up (
      except-IsTracked r none (r ∷ []) none _
        (unless_terminal-IsTracked r now a.spill_source r.source a h v))
  | inr down ↦ rw down (add_admissible-IsTracked r now none a h v)
]
add_unrejected-IsTracked r now (some p) a h v = elim (Bool-cases (closes_full r p a)) [
  | inl full ↦ rw full (SameTracking-IsTracked a _ (remove_pending-SameTracking (key_of r, p) a) v)
  | inr room ↦ rw room (add_admissible-IsTracked r now (some p) a h v)
]

isolate-IsTracked :
    (r : Record) (now : ℕ) (pending : Option PendingEvent) (x : Option RejectedEvent)
    (a : Assembler)
    → lookup (key_of r) a.rejected ≡ x
    → IsTracked a
    → IsTracked (isolate r now pending x a).0
unfolding isolate
isolate-IsTracked r now pending none a h v = add_unrejected-IsTracked r now pending a h v
isolate-IsTracked r now pending (some x) a h v = add_rejected-IsTracked r now pending x a h v

-- `AddRecovering`, from a state whose rejected keys are distinct, have their bytes counted exactly and
-- are, in number and in bytes, within the limits on pending events: the rejected keys are so
-- afterwards, whatever record comes and whichever path it takes.
pub add_recovering-IsTracked :
    (r : Record) (now : ℕ) (a : Assembler) → IsTracked a → IsTracked (add_recovering r now a).0
unfolding add_recovering add_isolated
add_recovering-IsTracked r now a v =
    let b = (expired now a).0 in
    let c = expire_rejected now b in
    isolate-IsTracked r now (lookup (key_of r) c.pending) (lookup (key_of r) c.rejected) c refl
      (expire_rejected-IsTracked now b (SameTracking-IsTracked a b (expired-SameTracking now a) v))
