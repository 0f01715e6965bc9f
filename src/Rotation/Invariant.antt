-- ===== src/Rotation/Invariant.antt =====
-- The position invariant of internal/collector/rotation.go, and the queue.
use aesirguard_audit.Base.{
  ℕ, List, ◌∷◌, Option, none, some, ◌≡◌, refl, ap, sym, ◌∙◌, inl, inr, arith, Bool-cases, nat_eq,
  length,
}
use aesirguard_audit.Parser.Fields.{Result, ok, err}
use aesirguard_audit.Collector.Ledger.{FileIdentity}
use aesirguard_audit.Follower.Lines.{FileFollower}
use aesirguard_audit.Rotation.Candidates.{
  SourceCandidate, RotationError, DirEntry, validate_generation_chain,
}
use aesirguard_audit.Rotation.Position.{start_of_line}
use aesirguard_audit.Rotation.State.{RotatingFollower}
use aesirguard_audit.Rotation.Queue.{
  find_from, missing, queue_behind, refresh_found, refresh_on, discovered, refresh_queue,
}
use aesirguard_audit.Rotation.Next.{stable_for_switch}

-- The complete position is the start of the open line, and the generations are counted.
pub record IsAligned (f : RotatingFollower) : Type 0 where
  pub counted : f.current.generation ≡ f.rotation_count
  pub at_start : f.complete ≡ start_of_line f.current

-- Only these fields count.
pub IsAligned-of :
    (f g : RotatingFollower)
    → g.current ≡ f.current
    → g.rotation_count ≡ f.rotation_count
    → g.complete ≡ f.complete
    → IsAligned f
    → IsAligned g
IsAligned-of f g c n p v = record {
  counted = ap (λ (x : FileFollower). x.generation) c ∙ v.counted ∙ sym n;
  at_start = p ∙ v.at_start ∙ sym (ap start_of_line c);
}

pub queue_behind-IsAligned :
    (c : SourceCandidate) (cs : List SourceCandidate) (lost : Option FileIdentity)
    (f : RotatingFollower)
    → IsAligned f
    → IsAligned (queue_behind c cs lost f).0
unfolding queue_behind
queue_behind-IsAligned c cs (some i) f v = v
queue_behind-IsAligned c cs none f v = checked (validate_generation_chain (c ∷ cs))
  where
    checked :
        (e : Option RotationError)
        → IsAligned
            (elim e as (λ _. RotatingFollower × Option RotationError) [
              | some x ↦ (f, some x)
              | none ↦ (record f { queued = cs }, none)
            ]).0
    checked (some x) = v
    checked none = IsAligned-of f _ refl refl refl v

pub refresh_found-IsAligned :
    (x : Option (SourceCandidate × List SourceCandidate)) (f : RotatingFollower)
    → IsAligned f
    → IsAligned (refresh_found x f).0
unfolding refresh_found
refresh_found-IsAligned none f v = v
refresh_found-IsAligned (some (c, cs)) f v = elim (Bool-cases c.current) [
  | inl back ↦ simp back (IsAligned-of f _ refl refl refl v)
  | inr moved ↦ elim (Bool-cases (nat_eq (length cs) 0)) [
    | inl last ↦ simp (moved, last) v
    | inr more ↦ simp (moved, more) (queue_behind-IsAligned c cs (missing f.queued cs) f v)
  ]
]

pub refresh_on-IsAligned :
    (x : Result RotationError (List SourceCandidate)) (f : RotatingFollower)
    → IsAligned f
    → IsAligned (refresh_on x f).0
unfolding refresh_on
refresh_on-IsAligned (err e) f v = v
refresh_on-IsAligned (ok cs) f v = refresh_found-IsAligned (find_from f.current.identity cs) f v

pub refresh_queue-IsAligned :
    (listing : Option (List DirEntry)) (f : RotatingFollower)
    → IsAligned f
    → IsAligned (refresh_queue listing f).0
unfolding refresh_queue
refresh_queue-IsAligned listing f v = refresh_on-IsAligned (discovered listing f) f v

pub stable_for_switch-IsAligned :
    (size : Option ℕ) (now : ℕ) (i : FileIdentity) (f : RotatingFollower)
    → IsAligned f
    → IsAligned (stable_for_switch size now i f).0
unfolding stable_for_switch
stable_for_switch-IsAligned none now i f v = v
stable_for_switch-IsAligned (some size) now i f v =
    IsAligned-of f _ (ground arith) (ground arith) (ground arith) v
