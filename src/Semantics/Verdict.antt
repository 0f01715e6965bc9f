-- ===== src/Semantics/Verdict.antt =====
-- The record type on which a result of `canonicalSuccess` of results.go rests.
use aesirguard_audit.Base.{
  ℕ, ◌+◌, Bool, true, false, ◌&&◌, ◌||◌, List, [], ◌∷◌, ◌++◌, Option, none, some, ◌==◌, Bytes, ◌≡◌,
  refl, ap, sym, codes, ◌∙◌, inl, inr, bytes_equality, All, arith, Bool-cases,
}
use mathlib.Core.Path.{subst}
use aesirguard_audit.Record.{Record, Field}
use aesirguard_audit.Semantics.Decoding.{CanonicalIssue, source_field_issue}
use aesirguard_audit.Semantics.Results.{
  decode_result, Judgement, judge_value, judge_field, judge_fields, judge_records, no_judgement,
  conclude, try_types, canonical_success, result_types,
}
use aesirguard_audit.Semantics.Unanimity.{Agree, Agree-of, judge_records-Keeps}

conclude-known :
    (j : Judgement) (b : Bool) → (conclude j).0 ≡ some b → (j.known ≡ true) × (j.result ≡ b)
unfolding conclude
conclude-known j b h = ground (arith, h)

-- Is there a result field, raw or embedded, in a record of the type?
abbrev pub any_result : List Field → Bool
any_result [] = false
any_result (f ∷ fs) = f.key == codes "success" || f.key == codes "res" || any_result fs

abbrev pub has_result : Bytes → List Record → Bool
has_result kind [] = false
has_result kind (r ∷ rs) =
    (r.record_type == kind && (any_result r.all_fields || any_result r.embedded_all_fields))
    || has_result kind rs

judge_value-found :
    (o : Option Bool) (i : CanonicalIssue) (j : Judgement) → (judge_value o i j).found ≡ true
unfolding judge_value
judge_value-found none i j = refl
judge_value-found (some b) i j = refl

judge_fields-found :
    (kind : Bytes) (r : Record) (index : ℕ) (embedded : Bool) (fs : List Field) (j : Judgement)
    → (judge_fields kind r index embedded fs j).found ≡ (j.found || any_result fs)
unfolding judge_fields judge_field
judge_fields-found kind r index embedded [] j = ground arith
judge_fields-found kind r index embedded (f ∷ fs) j = ground (
  arith,
  judge_fields-found kind r index embedded fs (judge_field kind r index embedded j f),
  judge_value-found (decode_result kind f.value)
      (source_field_issue (codes "unknown_result") r index f embedded) j,
)

judge_records-found :
    (kind : Bytes) (index : ℕ) (rs : List Record) (j : Judgement)
    → (judge_records kind index rs j).found ≡ (j.found || has_result kind rs)
unfolding judge_records
judge_records-found kind index [] j = ground arith
judge_records-found kind index (r ∷ rs) j =
    let raw = judge_fields kind r index false r.all_fields j in
    ground (
      arith,
      judge_records-found kind (index + 1) rs (judge_records kind index (r ∷ []) j),
      judge_fields-found kind r index true r.embedded_all_fields raw,
      judge_fields-found kind r index false r.all_fields j,
    )

-- A type that was to be looked at, and the types before it.
abbrev pub Decides : List Record → Bool → List Bytes → Type 0
Decides rs b kinds =
    (before : List Bytes) × (kind : Bytes) × (after : List Bytes) × (kinds ≡ before ++ kind ∷ after)
    × All (λ k. has_result k rs ≡ false) before
    × (has_result kind rs ≡ true)
    × Agree kind b rs

try_types-Decides :
    (rs : List Record) (kinds : List Bytes) (b : Bool)
    → (try_types rs kinds).0 ≡ some b
    → Decides rs b kinds
unfolding try_types
try_types-Decides rs [] b h = ground (arith, h)
try_types-Decides rs (kind ∷ kinds) b h =
    let j = judge_records kind 0 rs no_judgement in
    elim (Bool-cases j.found) [
      | inl found ↦
          let (known, is) = conclude-known j b (ground (arith, found, h)) in
          (
            [],
            kind,
            kinds,
            refl,
            tt,
            sym (judge_records-found kind 0 rs no_judgement) ∙ found,
            subst (λ x. Agree kind x rs) is
                (Agree-of kind j rs (judge_records-Keeps kind 0 rs no_judgement known).0),
          )
      | inr nothing_found ↦
          let (before, other, after, split, skipped, there, agree) =
            try_types-Decides rs kinds b (ground (arith, nothing_found, h)) in
          (
            kind ∷ before,
            other,
            after,
            ap (λ ks. kind ∷ ks) split,
            (sym (judge_records-found kind 0 rs no_judgement) ∙ nothing_found, skipped),
            there,
            agree,
          )
    ]

-- A result that `canonicalSuccess` reports rests on the first of the types that it was to look at
-- that has a `success` or `res` field, raw or embedded, in one of its records; and every such field
-- of the records of that type decodes to that result.
pub canonical_success-Decides :
    (rs : List Record) (primary : Bytes) (b : Bool)
    → (canonical_success rs primary).0 ≡ some b
    → Decides rs b (result_types primary rs)
unfolding canonical_success
canonical_success-Decides rs primary b h = try_types-Decides rs (result_types primary rs) b h
