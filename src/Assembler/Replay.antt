-- ===== src/Assembler/Replay.antt =====
-- `SafeSourcePosition` of assembler.go: where a restart can replay from.
use aesirguard_audit.Base.{
  true, false, ◌&&◌, ◌||◌, not, List, [], ◌∷◌, ◌++◌, map, ◌≡◌, refl, sym, ap, ◌∙◌, ◌⊎◌, inl, inr,
  Bool-cases, ◌<◌, ◌≤◌, arith, if◌then◌else◌, All,
}
use mathlib.Core.Path.{subst}
use aesirguard_audit.Record.{Record, SourcePosition, source_position_before}
use aesirguard_audit.Assembler.State.{Assembler, CorrelationKey, PendingEvent, RejectedEvent}

-- `candidate.End = candidate.Start`
abbrev pub at_start : SourcePosition → SourcePosition
at_start s = record s { end = s.start }

-- One candidate against the safe position so far.
unfoldable pub consider : SourcePosition → SourcePosition → SourcePosition
unfolding source_position_before
consider source safe =
    if source.valid && (not safe.valid || source_position_before (at_start source) safe)
    then at_start source
    else safe

unfoldable pub consider_records : List Record → SourcePosition → SourcePosition
consider_records [] safe = safe
consider_records (r ∷ rs) safe = consider_records rs (consider r.source safe)

unfoldable pub consider_pending :
    List (CorrelationKey × PendingEvent) → SourcePosition → SourcePosition
consider_pending [] safe = safe
consider_pending ((k, p) ∷ m) safe = consider_pending m (consider_records p.records safe)

unfoldable pub consider_rejected :
    List (CorrelationKey × RejectedEvent) → SourcePosition → SourcePosition
consider_rejected [] safe = safe
consider_rejected ((k, x) ∷ m) safe = consider_rejected m (consider x.source safe)

unfoldable pub safe_source_position : SourcePosition → Assembler → SourcePosition
safe_source_position fallback a =
    consider a.spill_source (consider_rejected a.rejected (consider_pending a.pending fallback))

-- The sources of the records of pending events, and of the rejected keys.
abbrev pub pending_sources : List (CorrelationKey × PendingEvent) → List SourcePosition
pending_sources [] = []
pending_sources ((k, p) ∷ m) = map (λ (r : Record). r.source) p.records ++ pending_sources m

abbrev pub rejected_sources : List (CorrelationKey × RejectedEvent) → List SourcePosition
rejected_sources [] = []
rejected_sources ((k, x) ∷ m) = x.source ∷ rejected_sources m

-- All that a restart must read again: those, and the source of the fence.
abbrev pub sources_of : Assembler → List SourcePosition
sources_of a = pending_sources a.pending ++ rejected_sources a.rejected ++ a.spill_source ∷ []

-- Reading on from the end of `safe`, a restart comes to the start of `x`, if that is a position at
-- all: it lies in an older file, or in the same and no further on.
abbrev pub Replays : SourcePosition → SourcePosition → Type 0
Replays safe x =
    (x.valid ≡ false)
    ⊎ ((safe.valid ≡ true)
        × ((safe.generation < x.generation)
            ⊎ ((safe.generation ≡ x.generation) × (safe.end ≤ x.start))))

-- A place, no line.
abbrev pub IsPoint : SourcePosition → Type 0
IsPoint s = s.start ≡ s.end

-- One of the sources is that of the position.
abbrev pub StartsOne : SourcePosition → List SourcePosition → Type 0
StartsOne safe [] = ⊥
StartsOne safe (s ∷ ss) =
    ((s.valid ≡ true) × (safe ≡ record s { end = s.start })) ⊎ StartsOne safe ss

abbrev consider_all : List SourcePosition → SourcePosition → SourcePosition
consider_all [] safe = safe
consider_all (s ∷ ss) safe = consider_all ss (consider s safe)

consider_all-append :
    (xs ys : List SourcePosition) (safe : SourcePosition)
    → consider_all (xs ++ ys) safe ≡ consider_all ys (consider_all xs safe)
consider_all-append [] ys safe = refl
consider_all-append (x ∷ xs) ys safe = consider_all-append xs ys (consider x safe)

consider_records-all :
    (rs : List Record) (safe : SourcePosition)
    → consider_records rs safe ≡ consider_all (map (λ (r : Record). r.source) rs) safe
unfolding consider_records
consider_records-all [] safe = refl
consider_records-all (r ∷ rs) safe = consider_records-all rs (consider r.source safe)

consider_pending-all :
    (m : List (CorrelationKey × PendingEvent)) (safe : SourcePosition)
    → consider_pending m safe ≡ consider_all (pending_sources m) safe
unfolding consider_pending
consider_pending-all [] safe = refl
consider_pending-all ((k, p) ∷ m) safe =
    consider_pending-all m (consider_records p.records safe)
    ∙ ap (consider_all (pending_sources m)) (consider_records-all p.records safe)
    ∙ sym (consider_all-append (map (λ (r : Record). r.source) p.records) (pending_sources m) safe)

consider_rejected-all :
    (m : List (CorrelationKey × RejectedEvent)) (safe : SourcePosition)
    → consider_rejected m safe ≡ consider_all (rejected_sources m) safe
unfolding consider_rejected
consider_rejected-all [] safe = refl
consider_rejected-all ((k, x) ∷ m) safe = consider_rejected-all m (consider x.source safe)

safe_source_position-all :
    (fallback : SourcePosition) (a : Assembler)
    → safe_source_position fallback a ≡ consider_all (sources_of a) fallback
unfolding safe_source_position
safe_source_position-all fallback a =
    let pending = pending_sources a.pending in
    let rejected = rejected_sources a.rejected in
    sym (
      consider_all-append (pending ++ rejected) (a.spill_source ∷ []) fallback
      ∙ ap (consider a.spill_source) (
          consider_all-append pending rejected fallback
          ∙ sym (
              consider_rejected-all a.rejected (consider_pending a.pending fallback)
              ∙ ap (consider_all rejected) (consider_pending-all a.pending fallback))))

consider-IsPoint : (s safe : SourcePosition) → IsPoint safe → IsPoint (consider s safe)
unfolding consider source_position_before
consider-IsPoint s safe p = ground (arith, p)

consider-Replays_self : (s safe : SourcePosition) → IsPoint safe → Replays (consider s safe) s
unfolding consider source_position_before
consider-Replays_self s safe p = ground (arith, p)

consider-Replays :
    (s safe x : SourcePosition) → IsPoint safe → Replays safe x → Replays (consider s safe) x
unfolding consider source_position_before
consider-Replays s safe x p h = ground (arith, p, h)

consider-either :
    (s safe : SourcePosition)
    → (consider s safe ≡ safe) ⊎ ((s.valid ≡ true) × (consider s safe ≡ at_start s))
unfolding consider
consider-either s safe =
    elim (Bool-cases (s.valid && (not safe.valid || source_position_before (at_start s) safe))) [
      | inl earlier ↦ inr (ground (arith, earlier), simp earlier refl)
      | inr later ↦ inl (simp later refl)
    ]

Replays-self : (s : SourcePosition) → IsPoint s → Replays s s
Replays-self s p = ground (arith, p, Bool-cases s.valid)

consider_all-Replays :
    (xs : List SourcePosition) (safe x : SourcePosition)
    → IsPoint safe
    → Replays safe x
    → Replays (consider_all xs safe) x
consider_all-Replays [] safe x p h = h
consider_all-Replays (s ∷ ss) safe x p h =
    consider_all-Replays ss (consider s safe) x (consider-IsPoint s safe p)
      (consider-Replays s safe x p h)

consider_all-Replays_all :
    (xs : List SourcePosition) (safe : SourcePosition)
    → IsPoint safe
    → All (Replays (consider_all xs safe)) xs
consider_all-Replays_all [] safe p = tt
consider_all-Replays_all (s ∷ ss) safe p =
    let point = consider-IsPoint s safe p in
    (
      consider_all-Replays ss (consider s safe) s point (consider-Replays_self s safe p),
      consider_all-Replays_all ss (consider s safe) point,
    )

consider_all-StartsOne :
    (xs : List SourcePosition) (safe : SourcePosition)
    → (consider_all xs safe ≡ safe) ⊎ StartsOne (consider_all xs safe) xs
consider_all-StartsOne [] safe = inl refl
consider_all-StartsOne (s ∷ ss) safe = elim (consider_all-StartsOne ss (consider s safe)) [
  | inr later ↦ inr (inr later)
  | inl same ↦ elim (consider-either s safe) [
    | inl kept ↦ inl (same ∙ kept)
    | inr (valid, here) ↦ inr (inl (valid, same ∙ here))
  ]
]

-- From a fallback that is a place, no line: reading on from the end of the safe position, a restart
-- comes to the fallback and to the start of the source of each pending record, of each rejected key
-- and of the fence, so far as these are positions; and no earlier place is chosen than needed: it is
-- the fallback, or the start of one of those sources, in all fields but the end.
pub safe_source_position-Replays :
    (fallback : SourcePosition) (a : Assembler)
    → IsPoint fallback
    → All (Replays (safe_source_position fallback a)) (fallback ∷ sources_of a)
      × ((safe_source_position fallback a ≡ fallback)
          ⊎ StartsOne (safe_source_position fallback a) (sources_of a))
safe_source_position-Replays fallback a p =
    subst
      (λ safe.
        All (Replays safe) (fallback ∷ sources_of a)
        × ((safe ≡ fallback) ⊎ StartsOne safe (sources_of a)))
      (sym (safe_source_position-all fallback a))
      (
        (
          consider_all-Replays (sources_of a) fallback fallback p (Replays-self fallback p),
          consider_all-Replays_all (sources_of a) fallback p,
        ),
        consider_all-StartsOne (sources_of a) fallback,
      )
