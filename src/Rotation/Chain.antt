-- ===== src/Rotation/Chain.antt =====
-- `validateGenerationChain` of internal/collector/rotation.go, against the numbers of the generations.
use aesirguard_audit.Base.{
  ◌+◌, false, List, [], ◌∷◌, none, ◌≡◌, refl, ◌↔◌, inl, inr, arith, Bool-cases, length,
}
use aesirguard_audit.Rotation.Candidates.{
  SourceCandidate, number_of, expected_number, breaks, validate_generation_chain,
}
use aesirguard_audit.Rotation.Ages.{Generations}

-- Each retained generation carries the number of the generations behind it.
abbrev pub Counted : List SourceCandidate → Type 0
Counted [] = Unit
Counted (c ∷ cs) = (c.current ≡ false → number_of c ≡ length cs) × Counted cs

-- The number that the first generation of a list gives to the one before it.
expected_number-Counted :
    (d : SourceCandidate) (ds : List SourceCandidate)
    → Generations (d ∷ ds)
    → Counted (d ∷ ds)
    → expected_number d ≡ length ds
expected_number-Counted d [] g k = rw g refl
expected_number-Counted d (e ∷ ds) g k = rw g.0 (k.0 g.0)

unbroken :
    (c d : SourceCandidate)
    → c.current ≡ false
    → (breaks c d ≡ false) ↔ (number_of c ≡ expected_number d + 1)
unbroken c d h = ground (arith, h)

-- On generations in source order, as `discoverCandidates` gives them, `validateGenerationChain`
-- reports no gap exactly if each retained generation is numbered by how many are behind it: the names
-- end in .N, ..., .2, .1 and the active file.
pub validate_generation_chain-Counted :
    (cs : List SourceCandidate)
    → Generations cs
    → (validate_generation_chain cs ≡ none) ↔ Counted cs
unfolding validate_generation_chain
validate_generation_chain-Counted [] g = absurd g
validate_generation_chain-Counted (c ∷ []) g =
    (λ h. (λ retained. ground (arith, g, retained), tt), λ k. refl)
validate_generation_chain-Counted (c ∷ d ∷ ds) g =
    let rest = validate_generation_chain-Counted (d ∷ ds) g.2 in
    let whole = unbroken c d g.0 in
    elim (Bool-cases (breaks c d)) [
      | inl gap ↦ (
        λ h. ground (arith, gap, h),
        λ k.
            let e = whole.1 (omega (arith, k.0 g.0, expected_number-Counted d ds g.2 k.1)) in
            ground (arith, gap, e),
      )
      | inr next ↦ (
        λ h.
            let later = rest.0 (rw next at h) in
            (
              λ retained. omega (arith, whole.0 next, expected_number-Counted d ds g.2 later),
              later,
            ),
        λ k. rw next (rest.1 k.1),
      )
    ]
