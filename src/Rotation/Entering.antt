-- ===== src/Rotation/Entering.antt =====
-- The position invariant of internal/collector/rotation.go, when the next file is entered.
use aesirguard_audit.Base.{
  ◌+◌, ◌%◌, ◌^◌, Bool, true, false, Option, none, some, ◌≡◌, refl, ap, sym, ◌∙◌, inl, inr, arith,
  Bool-cases, nat_eq, ltb, length, if◌then◌else◌,
}
use mathlib.Core.Path.{subst}
use aesirguard_audit.Collector.Ledger.{FileIdentity}
use aesirguard_audit.Follower.Lines.{FileFollower, transfer_partial_to, has_partial}
use aesirguard_audit.Follower.Opening.{identity_eq}
use aesirguard_audit.Follower.Transfer.{carried}
use aesirguard_audit.Rotation.Candidates.{SourceCandidate}
use aesirguard_audit.Rotation.Position.{start_of_line}
use aesirguard_audit.Rotation.State.{LinePosition, RotatingFollower}
use aesirguard_audit.Rotation.Next.{next_generation, enter, transfer_to}
use aesirguard_audit.Rotation.Invariant.{IsAligned}

-- A follower of the next generation, that was opened at its start.
pub record IsFresh (f : RotatingFollower) (c : SourceCandidate) (g : FileFollower) : Type 0 where
  pub generation : g.generation ≡ next_generation f
  pub start : start_of_line g ≡ record {
    at_identity = c.identity;
    at_generation = next_generation f;
    at_anchor = g.origin_anchor;
    at_offset = 0;
  }

pub same_identity : (a b : FileIdentity) → identity_eq a b ≡ true → a ≡ b
unfolding identity_eq
same_identity a b h = ground arith

-- The two followers behind a transfer, by whether there was an open line.
abbrev pub Transferred : FileFollower → FileFollower → Bool → FileFollower × FileFollower → Type 0
Transferred f g held x =
    (x.0.generation ≡ f.generation)
    × (start_of_line x.0 ≡ start_of_line f)
    × (x.1.generation ≡ g.generation)
    × ((if held then x.1.origin_anchor else g.origin_anchor) ≡ x.1.origin_anchor)
    × (start_of_line x.1 ≡ (if held then start_of_line f else start_of_line g))

-- What the transfer of the open line leaves.
pub transferred :
    (f g : FileFollower) (x : FileFollower × FileFollower)
    → transfer_partial_to f g ≡ some x
    → Transferred f g (has_partial f) x
unfolding transfer_partial_to has_partial
transferred f g x h = elim (Bool-cases (nat_eq (length f.partial) 0)) [
  | inl empty ↦
      let is : (f, g) ≡ x = ground (arith, empty, h) in
      simp empty (
        subst (λ (y : FileFollower × FileFollower). Transferred f g false y) is
          (refl, refl, refl, refl, refl))
  | inr held ↦ elim (Bool-cases (ltb g.max_line_bytes (length f.partial))) [
    | inl long ↦ ground (arith, held, long, h)
    | inr fits ↦
        let is : carried f g ≡ x = ground (arith, held, fits, h) in
        simp held (
          subst (λ (y : FileFollower × FileFollower). Transferred f g true y) is
            (refl, refl, refl, refl, refl))
  ]
]

pub enter-IsAligned :
    (closes held : Bool) (c : SourceCandidate) (f : RotatingFollower) (g : FileFollower)
    (x : FileFollower × FileFollower)
    → IsAligned f
    → IsFresh f c g
    → Transferred f.current g held x
    → IsAligned (enter closes held c f x).0
unfolding enter
enter-IsAligned false held c f g (old, new) v w t = record {
  counted = t.0 ∙ v.counted;
  at_start = v.at_start ∙ sym t.1;
}
enter-IsAligned true true c f g (old, new) v w t = record {
  counted = t.2 ∙ w.generation ∙ ap (λ n. (n + 1) % 2 ^ 64) v.counted;
  at_start = v.at_start ∙ sym t.4;
}
enter-IsAligned true false c f g (old, new) v w t = record {
  counted = t.2 ∙ w.generation ∙ ap (λ n. (n + 1) % 2 ^ 64) v.counted;
  at_start =
      ap
        (λ a.
          let p : LinePosition = record {
            at_identity = c.identity;
            at_generation = next_generation f;
            at_anchor = a;
            at_offset = 0;
          } in
          p)
        (sym t.3)
      ∙ sym w.start
      ∙ sym t.4;
}

pub transfer_to-IsAligned :
    (closes : Bool) (c : SourceCandidate) (f : RotatingFollower) (g : FileFollower)
    (x : Option (FileFollower × FileFollower))
    → transfer_partial_to f.current g ≡ x
    → IsAligned f
    → IsFresh f c g
    → IsAligned (transfer_to closes c f x).0
unfolding transfer_to
transfer_to-IsAligned closes c f g none h v w = v
transfer_to-IsAligned closes c f g (some x) h v w =
    enter-IsAligned closes (has_partial f.current) c f g x v w (transferred f.current g x h)
