-- ===== src/Rotation/Suffix.antt =====
-- The generation that `OpenRecoveryFollower` of internal/collector/recovery.go starts with.
use aesirguard_audit.Base.{
  ◌-◌, Bool, true, false, ◌||◌, not, List, [], ◌∷◌, ◌++◌, none, ◌≡◌, ◌≢◌, refl, ap, sym, ◌⊎◌, inl,
  inr, arith, Bool-cases, nat_eq,
}
use mathlib.Core.Path.{subst}
use aesirguard_audit.Rotation.Candidates.{
  SourceCandidate, number_of, expected_number, breaks, validate_generation_chain,
}
use aesirguard_audit.Rotation.Ages.{Generations}
use aesirguard_audit.Rotation.Opening.{extend, contiguous}

-- Before the suffix stands a generation with which it is no chain.
abbrev pub StopsAt : List SourceCandidate → List SourceCandidate → Type 0
StopsAt suffix cs =
    (older : List SourceCandidate) × (c : SourceCandidate) × (cs ≡ older ++ c ∷ suffix)
    × (validate_generation_chain (c ∷ suffix) ≢ none)

-- A suffix, and whether it stopped before the whole list.
pub record IsLongest (cs : List SourceCandidate) (x : List SourceCandidate × Bool) : Type 0 where
  pub chain : validate_generation_chain x.0 ≡ none
  pub to_active : Generations x.0
  pub longest : ((x.1 ≡ false) × (cs ≡ x.0)) ⊎ ((x.1 ≡ true) × StopsAt x.0 cs)

extend-stopped :
    (c : SourceCandidate) (cs s : List SourceCandidate)
    → IsLongest cs (s, true)
    → ((◌≡◌ {A = Bool} true false) × (cs ≡ s)) ⊎ ((◌≡◌ {A = Bool} true true) × StopsAt s cs)
    → IsLongest (c ∷ cs) (s, true)
extend-stopped c cs s v (inl (h, is)) = cc
extend-stopped c cs s v (inr (h, (older, d, is, broken))) = record {
  chain = v.chain;
  to_active = v.to_active;
  longest = inr (refl, (c ∷ older, d, ap (λ t. c ∷ t) is, broken));
}

extend-whole :
    (c d : SourceCandidate) (ds : List SourceCandidate)
    → Generations (c ∷ d ∷ ds)
    → validate_generation_chain (d ∷ ds) ≡ none
    → IsLongest (c ∷ d ∷ ds) (extend c (d ∷ ds) false)
unfolding extend validate_generation_chain
extend-whole c d ds g chain = elim (Bool-cases (breaks c d)) [
  | inl broken ↦
      let test : (nat_eq (number_of c) 0 || not (nat_eq (number_of c - 1) (expected_number d)))
          ≡ true =
        ground (arith, broken, g.0) in
      rw test (record {
        chain = chain;
        to_active = g.2;
        longest = inr (refl, ([], c, refl, λ h. ground (arith, broken, h)));
      })
  | inr next ↦
      let test : (nat_eq (number_of c) 0 || not (nat_eq (number_of c - 1) (expected_number d)))
          ≡ false =
        ground (arith, next, g.0) in
      rw test (record { chain = rw next chain; to_active = g; longest = inl (refl, refl) })
]

not_both : (◌≡◌ {A = Bool} false true) → ⊥
not_both h = cc

extend-IsLongest :
    (c : SourceCandidate) (cs : List SourceCandidate) (x : List SourceCandidate × Bool)
    → ((s : List SourceCandidate) → cs ≡ s → Generations (c ∷ s))
    → IsLongest cs x
    → IsLongest (c ∷ cs) (extend c x.0 x.1)
unfolding extend
extend-IsLongest c cs (s, true) g v = extend-stopped c cs s v v.longest
extend-IsLongest c cs ([], false) g v = absurd v.to_active
extend-IsLongest c cs (d ∷ ds, false) g v =
    let is : cs ≡ d ∷ ds = elim v.longest [ inl h ↦ h.1 | inr h ↦ absurd (not_both h.0) ] in
    subst (λ (t : List SourceCandidate). IsLongest (c ∷ t) (extend c (d ∷ ds) false)) (sym is)
      (extend-whole c d ds (g (d ∷ ds) is) v.chain)

-- On generations in source order, what `OpenRecoveryFollower` follows is a chain without a gap, down
-- to the active file, and the longest one: it is all of them, or the generation before it is missing
-- its successor.
pub contiguous-IsLongest :
    (cs : List SourceCandidate) → Generations cs → IsLongest cs (contiguous cs)
unfolding contiguous
contiguous-IsLongest [] g = absurd g
contiguous-IsLongest (c ∷ []) g =
    unfold extend validate_generation_chain in
    record { chain = refl; to_active = g; longest = inl (refl, refl) }
contiguous-IsLongest (c ∷ d ∷ ds) g =
    extend-IsLongest c (d ∷ ds) (contiguous (d ∷ ds))
      (λ s is. subst (λ (t : List SourceCandidate). Generations (c ∷ t)) is g)
      (contiguous-IsLongest (d ∷ ds) g.2)
