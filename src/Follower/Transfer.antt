-- ===== src/Follower/Transfer.antt =====
-- `transferPartialTo` of internal/collector/follower.go, and the open line that it moves.
use aesirguard_audit.Base.{
  ℕ, zero, suc, ◌≤◌, ◌<◌, [], ◌∷◌, ◌++◌, some, Bytes, ◌≡◌, refl, ap, sym, ◌∙◌, inl, inr, arith,
  Bool-cases, nat_eq, nat_eq_iff, length, take, if◌then◌else◌,
}
use mathlib.Core.Path.{subst}
use aesirguard_audit.Follower.Lines.{FileFollower, transfer_partial_to, has_partial}
use aesirguard_audit.Follower.Holding.{Holds, take-nil}

take_empty : (n : ℕ) (xs : Bytes) → 0 < n → length (take n xs) ≡ 0 → xs ≡ []
take_empty zero xs h e = absurd (omega arith)
take_empty (suc n) [] h e = refl
take_empty (suc n) (x ∷ xs) h e = absurd (omega (arith, e))

length-take-le : (n : ℕ) (xs : Bytes) → length (take n xs) ≤ n
length-take-le zero xs = omega arith
length-take-le (suc n) [] = omega arith
length-take-le (suc n) (x ∷ xs) = omega (arith, length-take-le n xs)

-- The open line in the next follower.
abbrev pub carried : FileFollower → FileFollower → FileFollower × FileFollower
carried f g = (
  record f { bytes_read = 0; partial = [] },
  record g {
    partial = g.partial ++ f.partial;
    bytes_read = f.bytes_read;
    origin = f.origin;
    origin_generation = f.origin_generation;
    origin_offset = f.origin_offset;
    origin_anchor = f.origin_anchor;
  },
)

-- The open line of a follower, moved by `transferPartialTo` to a new follower with the same limit: it
-- is held there as it was here, and nothing is held here any more, so the line goes on over the
-- change of generation; a line that holds something keeps its start.
pub transfer_partial_to-Holds :
    (open_line : Bytes) (f next : FileFollower)
    → Holds open_line f
    → Holds [] next
    → next.max_line_bytes ≡ f.max_line_bytes
    → 0 < f.max_line_bytes
    → (x : FileFollower × FileFollower) × (transfer_partial_to f next ≡ some x)
      × Holds [] x.0
      × Holds open_line x.1
      × (x.1.origin_offset ≡ (if has_partial f then f.origin_offset else next.origin_offset))
unfolding transfer_partial_to has_partial
transfer_partial_to-Holds open_line f next v w same positive =
    elim (Bool-cases (nat_eq (length f.partial) 0)) [
      | inl empty ↦
          let none_open =
            take_empty f.max_line_bytes open_line positive
              (ap length (sym v.prefix) ∙ (nat_eq_iff (length f.partial) 0).0 empty) in
          (
            (f, next),
            ground (arith, empty),
            subst (λ (o : Bytes). Holds o f) none_open v,
            subst (λ (o : Bytes). Holds o next) (sym none_open) w,
            ground (arith, empty),
          )
      | inr held ↦
          let short : length f.partial ≤ next.max_line_bytes =
            omega (arith, ap length v.prefix, length-take-le f.max_line_bytes open_line, same) in
          (
            carried f next,
            ground (arith, held, short),
            record {
              prefix = sym (take-nil f.max_line_bytes);
              counted = refl;
              recovers = v.recovers;
            },
            record {
              prefix =
                  ap (λ p. p ++ f.partial) (w.prefix ∙ take-nil next.max_line_bytes)
                  ∙ v.prefix
                  ∙ ap (λ n. take n open_line) (sym same);
              counted = v.counted;
              recovers = w.recovers;
            },
            ground (arith, held),
          )
    ]
