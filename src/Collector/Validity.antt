-- ===== src/Collector/Validity.antt =====
-- `prepare` and `commit` of gap_recovery.go keep a ledger that `GapLedger.Validate` accepts.
use aesirguard_audit.Base.{
  ℕ, ◌+◌, ◌-◌, ◌^◌, ◌≤◌, ◌<◌, Bool, true, false, not, ◌&&◌, Option, none, some, Bytes,
  bytes_equality, ◌≡◌, ◌≢◌, refl, ◌⊎◌, arith, nat_eq, ltb, length, inl, inr, Bool-cases,
  if◌then◌else◌, beq_refl,
}
use aesirguard_audit.Collector.Checkpoint.{
  Checkpoint, CheckpointError, validate_checkpoint, is_nat, is_empty,
}
use aesirguard_audit.Collector.Ledger.{
  GapIncident, GapLedger, LedgerError, known_reason, check_previous, well_formed, check_incident,
  check_incidents, last_incident, checkpoint_error, validate_ledger, SourceError, source_gap_reason,
}
use aesirguard_audit.Collector.Recovery.{
  supersede, recent, new_incident, add_incident, ledger_or_new, prepare, Effect, Position,
  GapRecovery, resume_checkpoint, observed_identity,
}
use aesirguard_audit.Collector.Window.{
  number_of, both, check_incidents-append, check_incidents-drop, follows-next, recent-append,
}

-- What the caller of `prepare` has to bring: an error with a known reason that names a generation,
-- a previous checkpoint that is valid and of the same input, and a start of a generation.
pub record CanRecover (input : Bytes) (previous : Option Checkpoint) (position : Position)
    (cause : SourceError) (now : ℕ) : Type 0 where
  pub known : known_reason (source_gap_reason cause) ≡ true
  pub named : ((observed_identity cause).device ≢ 0) × ((observed_identity cause).inode ≢ 0)
  pub good_previous : check_previous input previous ≡ none
  pub good_resume : validate_checkpoint (resume_checkpoint input position now) ≡ none
  pub timely : now ≢ 0
  pub at_origin : position.offset.magnitude ≡ 0

unless : (b : Bool) (e : LedgerError) → b ≡ true → (if not b then some e else none) ≡ none
unless b e h = ground (arith, h)

no_checkpoint_error : (o : Option CheckpointError) → o ≡ none → checkpoint_error o ≡ none
no_checkpoint_error o h = rw h refl

new_incident-well_formed :
    (input : Bytes) (total : ℕ) (before : Option ℕ) (previous : Option Checkpoint)
    (position : Position) (cause : SourceError) (now : ℕ)
    → CanRecover input previous position cause now
    → total < 2 ^ 64 - 1
    → (before ≡ some total) ⊎ (before ≡ none)
    → well_formed input
        (total + 1)
        before
        false
        (new_incident input (total + 1) previous position cause now)
      ≡ true
unfolding well_formed new_incident resume_checkpoint
new_incident-well_formed input total before previous position cause now c small before_it = ground (
  arith,
  c.known,
  c.named,
  c.timely,
  c.at_origin,
  follows-next total before small before_it,
  beq_refl input,
)

new_incident-IsValid :
    (input : Bytes) (total : ℕ) (before : Option ℕ) (previous : Option Checkpoint)
    (position : Position) (cause : SourceError) (now : ℕ)
    → CanRecover input previous position cause now
    → total < 2 ^ 64 - 1
    → (before ≡ some total) ⊎ (before ≡ none)
    → check_incident input
        (total + 1)
        before
        false
        (new_incident input (total + 1) previous position cause now)
      ≡ none
unfolding check_incident new_incident resume_checkpoint
new_incident-IsValid input total before previous position cause now c small before_it =
    both _ _
      (unless _ LedgerError.invalid_incident
        (new_incident-well_formed input total before previous position cause now c small before_it))
      (both _ _ (no_checkpoint_error _ c.good_resume) c.good_previous)

-- The version, the input and the lengths are as `Validate` asks.
unfoldable has_shape : GapLedger → Bool
has_shape l =
    is_nat l.version 1
    && not (is_empty l.input_path)
    && not (nat_eq l.total 0)
    && not (nat_eq (length l.incidents) 0)
    && not (ltb 8 (length l.incidents))

shape_of :
    (l : GapLedger)
    → is_nat l.version 1 ≡ true
    → is_empty l.input_path ≡ false
    → 0 < l.total
    → 0 < length l.incidents
    → length l.incidents ≤ 8
    → has_shape l ≡ true
unfolding has_shape
shape_of l version input total some_left few = ground (arith, version, input, total, some_left, few)

shape-validates :
    (l : GapLedger) (last : GapIncident)
    → has_shape l ≡ true
    → check_incidents l.input_path l.total none l.incidents ≡ none
    → last_incident l.incidents ≡ some last
    → last.number ≡ l.total
    → validate_ledger l ≡ none
unfolding validate_ledger has_shape
shape-validates l last s c e n = ground (arith, s, c, e, n)

-- What is validated is valid, part by part.
validated-shape : (l : GapLedger) → validate_ledger l ≡ none → has_shape l ≡ true
unfolding validate_ledger has_shape
validated-shape l v = ground (arith, v)

validated-incidents :
    (l : GapLedger)
    → validate_ledger l ≡ none
    → (check_incidents l.input_path l.total none l.incidents ≡ none)
      × (number_of (last_incident l.incidents) none ≡ some l.total)
unfolding validate_ledger
validated-incidents l v = ground (arith, v)

-- A ledger that the next incident can be added to, be it new or one that was validated.
record IsExtensible (input : Bytes) (l : GapLedger) : Type 0 where
  pub versioned : is_nat l.version 1 ≡ true
  pub same_input : l.input_path ≡ input
  pub room : l.total < 2 ^ 64 - 1
  pub checked : check_incidents l.input_path l.total none l.incidents ≡ none
  pub counted :
      (number_of (last_incident l.incidents) none ≡ some l.total)
      ⊎ (number_of (last_incident l.incidents) none ≡ none)

-- `none` before the first gap; else a ledger that validates, of this input, with a uint64 total.
abbrev pub IsLedgerOf : Bytes → Option GapLedger → Type 0
IsLedgerOf input none = Unit
IsLedgerOf input (some l) = (validate_ledger l ≡ none) × (l.input_path ≡ input) × (l.total < 2 ^ 64)

ledger_or_new-IsExtensible :
    (input : Bytes) (o : Option GapLedger)
    → IsLedgerOf input o
    → nat_eq (ledger_or_new input o).total (2 ^ 64 - 1) ≡ false
    → IsExtensible input (ledger_or_new input o)
unfolding check_incidents last_incident
ledger_or_new-IsExtensible input none v h = record {
  versioned = refl;
  same_input = refl;
  room = omega arith;
  checked = refl;
  counted = inr refl;
}
ledger_or_new-IsExtensible input (some l) (v, same, small) h = record {
  versioned = unfold has_shape in ground (arith, validated-shape l v);
  same_input = same;
  room = ground (arith, small, h);
  checked = (validated-incidents l v).0;
  counted = inl (validated-incidents l v).1;
}

add_incident-validates :
    (input : Bytes) (previous : Option Checkpoint) (position : Position) (cause : SourceError)
    (now : ℕ) (l : GapLedger)
    → is_empty input ≡ false
    → CanRecover input previous position cause now
    → IsExtensible input l
    → validate_ledger (add_incident input previous position cause now l) ≡ none
unfolding add_incident
add_incident-validates input previous position cause now l named c v =
    let n = new_incident input (l.total + 1) previous position cause now in
    let (is_last, some_left, few) = recent-append supersede l.incidents n in
    shape-validates _ n (shape_of _ v.versioned (rw v.same_input named) (omega arith) some_left few)
      (rw v.same_input (
        unfold recent in
        check_incidents-drop input (l.total + 1) _ _ (
          check_incidents-append input l.total none l.incidents n (rw v.same_input at v.checked)
            (new_incident-IsValid input l.total _ previous position cause now c v.room v.counted))))
      is_last (unfold new_incident in refl)

worked_on-IsLedgerOf :
    (input : Bytes) (o : Option GapLedger)
    → IsLedgerOf input o
    → nat_eq (ledger_or_new input o).total (2 ^ 64 - 1) ≡ true
    → IsLedgerOf input (some (ledger_or_new input o))
worked_on-IsLedgerOf input none v h = ground arith
worked_on-IsLedgerOf input (some l) v h = v

-- `prepare` keeps the ledger one that `Validate` accepts, for the input and with a uint64 total, if
-- the input has a name, the ledger it found was such or there was none, and the evidence is well
-- formed; this holds also when the write of the ledger fails.
pub prepare-IsLedgerOf :
    (succeeds : Effect → Bool) (previous : Option Checkpoint) (position : Position)
    (cause : SourceError) (now : ℕ) (r : GapRecovery)
    → is_empty r.input ≡ false
    → CanRecover r.input previous position cause now
    → IsLedgerOf r.input r.ledger
    → IsLedgerOf r.input (prepare succeeds previous position cause now r).state.ledger
unfolding prepare
prepare-IsLedgerOf succeeds previous position cause now r named c v =
    let l = ledger_or_new r.input r.ledger in
    elim (Bool-cases (nat_eq l.total (2 ^ 64 - 1))) [
      | inl exhausted ↦ rw exhausted (worked_on-IsLedgerOf r.input r.ledger v exhausted)
      | inr room ↦ rw room (
          let x = ledger_or_new-IsExtensible r.input r.ledger v room in
          (
            add_incident-validates r.input previous position cause now l named c x,
            unfold add_incident in x.same_input,
            unfold add_incident in omega (arith, x.room),
          ))
    ]
