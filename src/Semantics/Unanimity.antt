-- ===== src/Semantics/Unanimity.antt =====
-- The result fields that `canonicalSuccess` of results.go judges, type by type.
use aesirguard_audit.Base.{
  ℕ, ◌+◌, Bool, true, false, not, List, [], ◌∷◌, Option, none, some, ◌==◌, Bytes, ◌≡◌, refl, ap,
  ◌∙◌, bytes_equality, All, arith, if◌then◌else◌,
}
use aesirguard_audit.Record.{Record, Field}
use aesirguard_audit.Semantics.Decoding.{CanonicalIssue}
use aesirguard_audit.Semantics.Results.{
  is_result, decode_result, Judgement, judge_value, judge_field, judge_fields, judge_records,
}

-- Each result field says the same.
abbrev pub Says : Bytes → Bool → List Field → Type 0
Says kind b = All (λ (f : Field). is_result f ≡ true → decode_result kind f.value ≡ some b)

-- A known judgement was known before, and what was found before is its result.
abbrev Keeps : Judgement → Judgement → Type 0
Keeps j k = (j.known ≡ true) × (j.found ≡ true → (j.result ≡ k.result) × (k.found ≡ true))

-- A field that counts has the result of the judgement behind it.
abbrev Counts : Bool → Option Bool → Judgement → Type 0
Counts counted o k = counted ≡ true → (o ≡ some k.result) × (k.found ≡ true)

judge_value-Keeps :
    (counted : Bool) (o : Option Bool) (issue : CanonicalIssue) (j : Judgement)
    → (if not counted then j else judge_value o issue j).known ≡ true
    → Counts counted o (if not counted then j else judge_value o issue j)
      × Keeps j (if not counted then j else judge_value o issue j)
unfolding judge_value
judge_value-Keeps false o issue j h = ((λ no. ground (arith, no)), (h, λ found. (refl, found)))
judge_value-Keeps true none issue j h = ground (arith, h)
judge_value-Keeps true (some b) issue j h = ground (arith, h)

judge_field-Keeps :
    (kind : Bytes) (r : Record) (index : ℕ) (embedded : Bool) (j : Judgement) (f : Field)
    → (judge_field kind r index embedded j f).known ≡ true
    → Counts (is_result f) (decode_result kind f.value) (judge_field kind r index embedded j f)
      × Keeps j (judge_field kind r index embedded j f)
unfolding judge_field
judge_field-Keeps kind r index embedded j f h =
    judge_value-Keeps (is_result f) (decode_result kind f.value) _ j h

Keeps-trans : (i j k : Judgement) → Keeps i j → Keeps j k → Keeps i k
Keeps-trans i j k p q =
    (p.0, λ found. ((p.1 found).0 ∙ (q.1 (p.1 found).1).0, (q.1 (p.1 found).1).1))

-- Each result field says what the judgement has found.
abbrev Judged : Bytes → Judgement → List Field → Type 0
Judged kind k = All (λ (f : Field). Counts (is_result f) (decode_result kind f.value) k)

Judged-later :
    (kind : Bytes) (j k : Judgement) (fs : List Field)
    → Keeps j k
    → Judged kind j fs
    → Judged kind k fs
Judged-later kind j k [] keeps a = tt
Judged-later kind j k (f ∷ fs) keeps a = (
  (λ is. ((a.0 is).0 ∙ ap some (keeps.1 (a.0 is).1).0, (keeps.1 (a.0 is).1).1)),
  Judged-later kind j k fs keeps a.1,
)

Judged-Says :
    (kind : Bytes) (k : Judgement) (fs : List Field) → Judged kind k fs → Says kind k.result fs
Judged-Says kind k [] a = tt
Judged-Says kind k (f ∷ fs) a = ((λ is. (a.0 is).0), Judged-Says kind k fs a.1)

judge_fields-Keeps :
    (kind : Bytes) (r : Record) (index : ℕ) (embedded : Bool) (fs : List Field) (j : Judgement)
    → (judge_fields kind r index embedded fs j).known ≡ true
    → Judged kind (judge_fields kind r index embedded fs j) fs
      × Keeps j (judge_fields kind r index embedded fs j)
unfolding judge_fields
judge_fields-Keeps kind r index embedded [] j h = (tt, (h, λ found. (refl, found)))
judge_fields-Keeps kind r index embedded (f ∷ fs) j h =
    let k = judge_field kind r index embedded j f in
    let (says, later) = judge_fields-Keeps kind r index embedded fs k h in
    let (counts, now) = judge_field-Keeps kind r index embedded j f later.0 in
    (
      (
        (λ is. ((counts is).0 ∙ ap some (later.1 (counts is).1).0, (later.1 (counts is).1).1)),
        says,
      ),
      Keeps-trans j k (judge_fields kind r index embedded fs k) now later,
    )

-- The fields of a record of the type in question.
abbrev JudgedRecord : Bytes → Judgement → Record → Type 0
JudgedRecord kind k r =
    (r.record_type == kind) ≡ true
    → Judged kind k r.all_fields × Judged kind k r.embedded_all_fields

judge_record-Keeps :
    (kind : Bytes) (r : Record) (index : ℕ) (j : Judgement) (counted : Bool)
    → (if not counted
        then j
        else judge_fields kind r index true r.embedded_all_fields
            (judge_fields kind r index false r.all_fields j)).known
      ≡ true
    → (counted ≡ true
        → Judged kind
            (if not counted
              then j
              else judge_fields kind r index true r.embedded_all_fields
                  (judge_fields kind r index false r.all_fields j))
            r.all_fields
          × Judged kind
              (if not counted
                then j
                else judge_fields kind r index true r.embedded_all_fields
                    (judge_fields kind r index false r.all_fields j))
              r.embedded_all_fields)
      × Keeps j (
          if not counted
          then j
          else judge_fields kind r index true r.embedded_all_fields
              (judge_fields kind r index false r.all_fields j))
judge_record-Keeps kind r index j false h = ((λ no. cc), (h, λ found. (refl, found)))
judge_record-Keeps kind r index j true h =
    let raw = judge_fields kind r index false r.all_fields j in
    let final = judge_fields kind r index true r.embedded_all_fields raw in
    let (inner, later) = judge_fields-Keeps kind r index true r.embedded_all_fields raw h in
    let (outer, now) = judge_fields-Keeps kind r index false r.all_fields j later.0 in
    (
      (λ _. (Judged-later kind raw final r.all_fields later outer, inner)),
      Keeps-trans j raw final now later,
    )

JudgedRecord-later :
    (kind : Bytes) (j k : Judgement) (rs : List Record)
    → Keeps j k
    → All (JudgedRecord kind j) rs
    → All (JudgedRecord kind k) rs
JudgedRecord-later kind j k [] keeps a = tt
JudgedRecord-later kind j k (r ∷ rs) keeps a = (
  (λ is. (
    Judged-later kind j k r.all_fields keeps (a.0 is).0,
    Judged-later kind j k r.embedded_all_fields keeps (a.0 is).1,
  )),
  JudgedRecord-later kind j k rs keeps a.1,
)

pub judge_records-Keeps :
    (kind : Bytes) (index : ℕ) (rs : List Record) (j : Judgement)
    → (judge_records kind index rs j).known ≡ true
    → All (JudgedRecord kind (judge_records kind index rs j)) rs
      × Keeps j (judge_records kind index rs j)
unfolding judge_records
judge_records-Keeps kind index [] j h = (tt, (h, λ found. (refl, found)))
judge_records-Keeps kind index (r ∷ rs) j h =
    let k = judge_records kind index (r ∷ []) j in
    let final = judge_records kind (index + 1) rs k in
    let (says, later) = judge_records-Keeps kind (index + 1) rs k h in
    let (mine, now) = judge_record-Keeps kind r index j (r.record_type == kind) later.0 in
    (
      (
        (λ is. (
          Judged-later kind k final r.all_fields later (mine is).0,
          Judged-later kind k final r.embedded_all_fields later (mine is).1,
        )),
        says,
      ),
      Keeps-trans j k final now later,
    )

-- Every result field, raw or embedded, of the records of a type has the result.
abbrev pub Agree : Bytes → Bool → List Record → Type 0
Agree kind b = All (λ (r : Record).
    (r.record_type == kind) ≡ true → Says kind b r.all_fields × Says kind b r.embedded_all_fields)

pub Agree-of :
    (kind : Bytes) (k : Judgement) (rs : List Record)
    → All (JudgedRecord kind k) rs
    → Agree kind k.result rs
Agree-of kind k [] a = tt
Agree-of kind k (r ∷ rs) a = (
  (λ is. (
    Judged-Says kind k r.all_fields (a.0 is).0,
    Judged-Says kind k r.embedded_all_fields (a.0 is).1,
  )),
  Agree-of kind k rs a.1,
)
