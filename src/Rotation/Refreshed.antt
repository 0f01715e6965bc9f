-- ===== src/Rotation/Refreshed.antt =====
-- What `refreshQueue` of internal/collector/rotation.go leaves in the queue.
use aesirguard_audit.Base.{
  Bool, true, false, List, [], ◌∷◌, Option, none, some, ◌≡◌, ◌≢◌, ◌⊎◌, refl, inl, inr, arith,
  Bool-cases, nat_eq, length,
}
use aesirguard_audit.Parser.Fields.{Result, ok, err}
use aesirguard_audit.Collector.Ledger.{FileIdentity}
use aesirguard_audit.Rotation.Candidates.{
  SourceCandidate, RotationError, DirEntry, validate_generation_chain,
}
use aesirguard_audit.Rotation.State.{RotatingFollower, report, is_pending, panic}
use aesirguard_audit.Rotation.Queue.{
  find_from, missing, queue_behind, refresh_found, refresh_on, discovered, refresh_queue,
}

abbrev pub is_current : Option (SourceCandidate × List SourceCandidate) → Bool
is_current none = false
is_current (some (c, _)) = c.current

-- The candidates have the open file at the input path.
abbrev pub back_at_path : FileIdentity → Result RotationError (List SourceCandidate) → Bool
back_at_path identity (err e) = false
back_at_path identity (ok cs) = is_current (find_from identity cs)

-- What a refreshed queue looks like.
abbrev pub Refreshed : Bool → RotatingFollower → RotatingFollower × Option RotationError → Type 0
Refreshed back f (g, some e) = back ≡ false
Refreshed back f (g, none) =
    ((back ≡ true) × (g.queued ≡ []) × (g.current_at_path ≡ true))
    ⊎ ((back ≡ false) × (nat_eq (length g.queued) 0 ≡ false))

pub queue_behind-Refreshed :
    (c : SourceCandidate) (cs : List SourceCandidate) (lost : Option FileIdentity)
    (f : RotatingFollower)
    → nat_eq (length cs) 0 ≡ false
    → Refreshed false f (queue_behind c cs lost f)
unfolding queue_behind
queue_behind-Refreshed c cs (some i) f h = refl
queue_behind-Refreshed c cs none f h = checked (validate_generation_chain (c ∷ cs))
  where
    checked :
        (e : Option RotationError)
        → Refreshed false f (elim e as (λ _. RotatingFollower × Option RotationError) [
          | some x ↦ (f, some x)
          | none ↦ (record f { queued = cs }, none)
        ])
    checked (some x) = refl
    checked none = inr (refl, h)

pub refresh_found-Refreshed :
    (x : Option (SourceCandidate × List SourceCandidate)) (f : RotatingFollower)
    → Refreshed (is_current x) f (refresh_found x f)
unfolding refresh_found
refresh_found-Refreshed none f = refl
refresh_found-Refreshed (some (c, cs)) f = elim (Bool-cases c.current) [
  | inl back ↦ simp back (inl (refl, refl, refl))
  | inr moved ↦ elim (Bool-cases (nat_eq (length cs) 0)) [
    | inl last ↦ simp moved (simp last refl)
    | inr more ↦ simp moved (simp more (queue_behind-Refreshed c cs (missing f.queued cs) f more))
  ]
]

pub refresh_on-Refreshed :
    (r : Result RotationError (List SourceCandidate)) (f : RotatingFollower)
    → Refreshed (back_at_path f.current.identity r) f (refresh_on r f)
unfolding refresh_on
refresh_on-Refreshed (err e) f = refl
refresh_on-Refreshed (ok cs) f = refresh_found-Refreshed (find_from f.current.identity cs) f

pub refresh_queue-Refreshed :
    (listing : Option (List DirEntry)) (f : RotatingFollower)
    → Refreshed (back_at_path f.current.identity (discovered listing f)) f (refresh_queue listing f)
unfolding refresh_queue
refresh_queue-Refreshed listing f = refresh_on-Refreshed (discovered listing f) f

pub differ : (b : Bool) → b ≡ true → b ≡ false → ⊥
differ b h k = cc

pub report-ne-panic : (e : RotationError) → report e ≢ panic
report-ne-panic e h = elim (Bool-cases (is_pending e)) [
  | inl waits ↦ ground (arith, waits, h)
  | inr fails ↦ ground (arith, fails, h)
]
