-- ===== src/Rotation/Ages.antt =====
-- The order of the candidates in internal/collector/rotation.go.
use aesirguard_audit.Base.{
  ℕ, ◌+◌, ◌^◌, ◌≤◌, ◌<◌, true, false, List, [], ◌∷◌, Option, none, some, bytes_equality, ltb,
  if◌then◌else◌, ◌≡◌, ◌≢◌, refl, ◌⊎◌, inl, inr, arith, All, sum_by, Bool-cases,
}
use mathlib.Core.Path.{subst}
use aesirguard_audit.Base.Sort.{
  sort_by, IsSorted, sort_by-sum, sort_by-IsSorted, sort_by-All, Pairs, sort_by-Pairs,
}
use aesirguard_audit.Parser.Fields.{ok}
use aesirguard_audit.Rotation.Candidates.{
  SourceCandidate, ambiguous, any_ambiguous, is_ambiguous, number_or_zero, number_of, older,
  age_rank, any_current, order_candidates, same_number,
}

-- Retained generations from the oldest, numbered downwards, and the active file last.
abbrev pub Generations : List SourceCandidate → Type 0
Generations [] = ⊥
Generations (c ∷ []) = c.current ≡ true
Generations (c ∷ d ∷ ds) =
    (c.current ≡ false) × ((d.current ≡ true) ⊎ (number_of d < number_of c)) × Generations (d ∷ ds)

abbrev pub active : SourceCandidate → ℕ
active c = if c.current then 1 else 0

abbrev pub InRange : SourceCandidate → Type 0
InRange c = number_of c < 2 ^ 64

abbrev pub Clear : SourceCandidate → SourceCandidate → Type 0
Clear a b = ambiguous a b ≡ false

-- The rank sorts as the source's comparison does.
pub age_rank-older :
    (a b : SourceCandidate)
    → InRange a
    → InRange b
    → (a.current ≡ true → number_of a ≡ 0)
    → (b.current ≡ true → number_of b ≡ 0)
    → older a b ≡ ltb (age_rank a) (age_rank b)
unfolding older age_rank
age_rank-older a b h k ca cb = ground (arith, ca, cb)

pub differ : (m n : Option ℕ) → same_number m n ≡ false → number_or_zero m ≢ number_or_zero n
differ none n h = cc
differ (some m) none h = cc
differ (some m) (some n) h = ground arith

pub number_of-differ :
    (c d : SourceCandidate)
    → c.current ≡ false
    → d.current ≡ false
    → Clear c d
    → number_of c ≢ number_of d
unfolding ambiguous
number_of-differ c d hc hd h = differ c.number d.number (ground (arith, hc, hd, h))

pub descends :
    (c d : SourceCandidate)
    → age_rank c ≤ age_rank d
    → Clear c d
    → InRange c
    → InRange d
    → active c + active d ≤ 1
    → (c.current ≡ false) × ((d.current ≡ true) ⊎ (number_of d < number_of c))
unfolding age_rank
descends c d h k rc rd n = elim (Bool-cases c.current) [
  | inl is_active ↦ absurd (ground (arith, is_active, h, n, rd))
  | inr retained ↦ elim (Bool-cases d.current) [
    | inl last ↦ (retained, inl last)
    | inr also ↦
        let other = number_of-differ c d retained also k in
        (retained, inr (ground (arith, retained, also, h, rc, rd, other)))
  ]
]

pub Generations-sorted :
    (cs : List SourceCandidate)
    → IsSorted age_rank cs
    → Pairs Clear cs
    → All InRange cs
    → sum_by active cs ≡ 1
    → Generations cs
Generations-sorted [] s p r n = absurd (omega (arith, n))
Generations-sorted (c ∷ []) s p r n = ground (arith, n)
Generations-sorted (c ∷ d ∷ ds) s p r n =
    let first = descends c d s.0.0 p.0.0 r.0 r.1.0 (omega (arith, n)) in
    (first.0, first.1, Generations-sorted (d ∷ ds) s.1 p.1 r.1 (ground (arith, n, first.0)))

-- The checks of `discoverCandidates` as predicates.
pub any_ambiguous-Clear :
    (c : SourceCandidate) (cs : List SourceCandidate)
    → any_ambiguous c cs ≡ false
    → All (Clear c) cs
any_ambiguous-Clear c [] h = tt
any_ambiguous-Clear c (d ∷ ds) h = (ground (arith, h), any_ambiguous-Clear c ds (ground (arith, h)))

pub is_ambiguous-Clear : (cs : List SourceCandidate) → is_ambiguous cs ≡ false → Pairs Clear cs
unfolding is_ambiguous
is_ambiguous-Clear [] h = tt
is_ambiguous-Clear (c ∷ cs) h =
    (any_ambiguous-Clear c cs (ground (arith, h)), is_ambiguous-Clear cs (ground (arith, h)))

pub same_number_comm : (m n : Option ℕ) → same_number m n ≡ same_number n m
same_number_comm none none = refl
same_number_comm none (some n) = refl
same_number_comm (some m) none = refl
same_number_comm (some m) (some n) = ground arith

pub Clear-sym : (a b : SourceCandidate) → Clear a b → Clear b a
unfolding ambiguous
Clear-sym a b h = ground (arith, h, same_number_comm a.number b.number)

pub any_current-active : (cs : List SourceCandidate) → any_current cs ≡ true → 1 ≤ sum_by active cs
any_current-active [] h = cc
any_current-active (c ∷ cs) h = ground (arith, any_current-active cs)

pub order_candidates-Generations :
    (found cs : List SourceCandidate)
    → order_candidates found ≡ ok cs
    → All InRange found
    → sum_by active found ≤ 1
    → Generations cs
unfolding order_candidates
order_candidates-Generations [] cs h r n = cc
order_candidates-Generations (c ∷ found) cs h r n = elim (Bool-cases (is_ambiguous (c ∷ found))) [
  | inl unclear ↦ ground (arith, h, unclear)
  | inr clear ↦ elim (Bool-cases (any_current (sort_by age_rank (c ∷ found)))) [
    | inl there ↦
        let is : sort_by age_rank (c ∷ found) ≡ cs = ground (arith, h, clear, there) in
        subst Generations is (
          Generations-sorted (sort_by age_rank (c ∷ found)) (sort_by-IsSorted age_rank (c ∷ found))
            (sort_by-Pairs age_rank Clear (c ∷ found) Clear-sym
              (is_ambiguous-Clear (c ∷ found) clear))
            (sort_by-All age_rank InRange (c ∷ found) r)
            (omega (
              arith,
              n,
              sort_by-sum age_rank active (c ∷ found),
              any_current-active (sort_by age_rank (c ∷ found)) there,
            )))
    | inr pending ↦ ground (arith, h, clear, pending)
  ]
]
