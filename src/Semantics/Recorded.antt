-- ===== src/Semantics/Recorded.antt =====
-- The fields of EXECVE records against the state that the loops of `buildArguments` (argv.go) end with.
use aesirguard_audit.Base.{
  ℕ, ◌+◌, Bool, true, false, List, [], ◌∷◌, ◌++◌, Option, none, some, ◌≡◌, ap, ◌∙◌, inl, inr, Bytes,
  bytes_equality, nat_equality, ◌==◌, Bool-cases, codes, if◌then◌else◌, All, All-append,
}
use mathlib.Core.Path.{subst}
use aesirguard_audit.Record.{Record, Field}
use aesirguard_audit.Parser.Values.{
  ArgKind, exec_arg_whole, exec_arg_length, exec_arg_fragment, ArgKey, parse_exec_arg_key,
}
use aesirguard_audit.Semantics.Argv.{
  ArgState, note_argument, note_other, note_field, note_fields, read_count, witnessed, scan_execve,
}
use aesirguard_audit.Semantics.Contradictions.{Extends, Extends-refl, Extends-trans}
use aesirguard_audit.Semantics.Noted.{
  SaidAt, SaidAt-later, note_argument-Extends, note_argc-Extends,
}

-- What a state without contradiction says of a field that was noted.
pub record Recorded (f : Field) (s : ArgState) : Type 0 where
  pub argc_said :
      (f.key == codes "argc") ≡ true → (n : ℕ) × (read_count f.value ≡ some n) × (s.argc ≡ some n)
  pub part_said :
      (f.key == codes "argc") ≡ false
      → (k : ArgKey) → parse_exec_arg_key f.key ≡ some k
      → SaidAt k.kind k.arg_index k.part_index.magnitude f s

Recorded-later : (f : Field) (s t : ArgState) → Extends s t → Recorded f s → Recorded f t
Recorded-later f s t e h = record {
  argc_said = λ is. let (n, read, said) = h.argc_said is in (n, read, e.argc_kept n said);
  part_said = λ other k is.
      SaidAt-later k.kind k.arg_index k.part_index.magnitude f s t e (h.part_said other k is);
}

-- The evidence says nothing of an argument.
unwitnessed :
    (r : Record) (index : ℕ) (f : Field) (s t : ArgState)
    → Extends (witnessed r index f s) t
    → Extends s t
unwitnessed r index f s t e = record {
  valid_before = e.valid_before;
  argc_kept = λ n h. e.argc_kept n h;
  arguments_kept = λ i. e.arguments_kept i;
}

note_other-Recorded :
    (o : Option ArgKey) (r : Record) (index : ℕ) (f : Field) (s : ArgState)
    → (note_other o r index f s).valid ≡ true
    → Extends s (note_other o r index f s)
      × ((k : ArgKey)
          → o ≡ some k
          → SaidAt k.kind k.arg_index k.part_index.magnitude f (note_other o r index f s))
note_other-Recorded none r index f s v = (Extends-refl s v, λ k h. cc h)
note_other-Recorded (some k) r index f s v =
    let (e, said) = note_argument-Extends k f (witnessed r index f s) v in
    let after = note_argument k f (witnessed r index f s) in
    (
      unwitnessed r index f s after e,
      λ l h.
          let same : k ≡ l = cc h in
          subst (λ x. SaidAt x.kind x.arg_index x.part_index.magnitude f after) same said,
    )

note_field-Recorded :
    (r : Record) (index : ℕ) (s : ArgState) (f : Field)
    → (note_field r index s f).valid ≡ true
    → Extends s (note_field r index s f) × Recorded f (note_field r index s f)
unfolding note_field
note_field-Recorded r index s f v = elim (Bool-cases (f.key == codes "argc")) [
  | inl is ↦
      let (e, n, read, said) =
        note_argc-Extends (read_count f.value) (witnessed r index f s) (simp is at v) in
      simp is (
        unwitnessed r index f s _ e,
        record { argc_said = λ _. (n, read, said); part_said = λ other. cc (is, other) },
      )
  | inr other ↦
      let (e, said) =
        note_other-Recorded (parse_exec_arg_key f.key) r index f s (simp other at v) in
      simp other (e, record { argc_said = λ is. cc (is, other); part_said = λ _ k h. said k h })
]

note_fields-Recorded :
    (r : Record) (index : ℕ) (s : ArgState) (fs : List Field)
    → (note_fields r index s fs).valid ≡ true
    → Extends s (note_fields r index s fs) × All (λ f. Recorded f (note_fields r index s fs)) fs
unfolding note_fields
note_fields-Recorded r index s [] v = (Extends-refl s v, tt)
note_fields-Recorded r index s (f ∷ fs) v =
    let next = note_field r index s f in
    let (later, rest) = note_fields-Recorded r index next fs v in
    let (now, first) = note_field-Recorded r index s f later.valid_before in
    let final = note_fields r index next fs in
    (Extends-trans s next final now later, (Recorded-later f next final later first, rest))

-- The fields of the EXECVE records.
abbrev pub execve_fields : List Record → List Field
execve_fields [] = []
execve_fields (r ∷ rs) =
    (if r.record_type == codes "EXECVE" then r.all_fields else []) ++ execve_fields rs

All-later :
    (fs : List Field) (s t : ArgState)
    → Extends s t
    → All (λ f. Recorded f s) fs
    → All (λ f. Recorded f t) fs
All-later [] s t e h = tt
All-later (f ∷ fs) s t e h = (Recorded-later f s t e h.0, All-later fs s t e h.1)

pub scan_execve-Recorded :
    (index : ℕ) (found : Bool) (s : ArgState) (rs : List Record)
    → (scan_execve index found s rs).1.valid ≡ true
    → Extends s (scan_execve index found s rs).1
      × All (λ f. Recorded f (scan_execve index found s rs).1) (execve_fields rs)
unfolding scan_execve
scan_execve-Recorded index found s [] v = (Extends-refl s v, tt)
scan_execve-Recorded index found s (r ∷ rs) v =
    elim (Bool-cases (r.record_type == codes "EXECVE")) [
      | inr other ↦ simp other (scan_execve-Recorded (index + 1) found s rs (simp other at v))
      | inl is ↦
          let next = note_fields r index s r.all_fields in
          let final = (scan_execve (index + 1) true next rs).1 in
          let (later, rest) = scan_execve-Recorded (index + 1) true next rs (simp is at v) in
          let (now, mine) = note_fields-Recorded r index s r.all_fields later.valid_before in
          simp is (
            Extends-trans s next final now later,
            All-append (λ f. Recorded f final) r.all_fields (execve_fields rs)
                (All-later r.all_fields next final later mine) rest,
          )
    ]

-- What two fields with the same key say of an argument is the same.
abbrev pub SaysSame : ArgKind → Field → Field → Type 0
SaysSame exec_arg_length f g =
    (n : ℕ) × (read_count f.value ≡ some n) × (read_count g.value ≡ some n)
SaysSame exec_arg_whole f g = (f.value ≡ g.value) × (f.quoted ≡ g.quoted)
SaysSame exec_arg_fragment f g = (f.value ≡ g.value) × (f.quoted ≡ g.quoted)

same_reading :
    (o : Option (Bytes × Bool)) (f g : Field)
    → o ≡ some (f.value, f.quoted)
    → o ≡ some (g.value, g.quoted)
    → (f.value ≡ g.value) × (f.quoted ≡ g.quoted)
same_reading o f g h k =
    let same : ◌≡◌ {A = Bytes × Bool} (f.value, f.quoted) (g.value, g.quoted) = cc (h, k) in
    (ap (λ x. x.0) same, ap (λ x. x.1) same)

pub SaidAt-SaysSame :
    (kind : ArgKind) (i part : ℕ) (f g : Field) (s : ArgState)
    → SaidAt kind i part f s
    → SaidAt kind i part g s
    → SaysSame kind f g
SaidAt-SaysSame exec_arg_length i part f g s (n, is, said) (m, is', said') =
    let same : m ≡ n = cc (said, said') in (n, is, is' ∙ ap some same)
SaidAt-SaysSame exec_arg_whole i part f g s h k = same_reading _ f g h k
SaidAt-SaysSame exec_arg_fragment i part f g s h k = same_reading _ f g h k
