-- ===== src/Semantics/Noted.antt =====
-- One field of an EXECVE record in `buildArguments` of argv.go: what the state says of it behind it.
use aesirguard_audit.Base.{
  ℕ, true, false, ◌&&◌, Option, none, some, ◌≡◌, refl, inl, inr, arith, bytes_equality,
  nat_equality, Bool-cases, beq_refl,
}
use aesirguard_audit.Base.Maps.{lookup, lookup-insert}
use aesirguard_audit.Record.{Field}
use aesirguard_audit.Parser.Values.{
  is_negative, ArgKind, exec_arg_whole, exec_arg_length, exec_arg_fragment, ArgKey,
}
use aesirguard_audit.Semantics.Argv.{
  ArgState, put_length, differs_from, note_part, note_argument, note_argc, read_count,
}
use aesirguard_audit.Semantics.Contradictions.{
  reading, argument, Extends, Extends-refl, argument-put, note_part-Extends,
}

-- The state says of an argument what a field says.
abbrev pub SaidAt : ArgKind → ℕ → ℕ → Field → ArgState → Type 0
SaidAt exec_arg_length i part f s =
    (n : ℕ) × (read_count f.value ≡ some n) × ((argument i s).length ≡ some n)
SaidAt exec_arg_whole i part f s = reading (argument i s).whole ≡ some (f.value, f.quoted)
SaidAt exec_arg_fragment i part f s =
    reading (lookup part (argument i s).fragments) ≡ some (f.value, f.quoted)

pub SaidAt-later :
    (kind : ArgKind) (i part : ℕ) (f : Field) (s t : ArgState)
    → Extends s t
    → SaidAt kind i part f s
    → SaidAt kind i part f t
SaidAt-later exec_arg_length i part f s t e (n, is, said) =
    (n, is, (e.arguments_kept i).length_kept n said)
SaidAt-later exec_arg_whole i part f s t e said = (e.arguments_kept i).whole_kept _ said
SaidAt-later exec_arg_fragment i part f s t e said = (e.arguments_kept i).part_kept part _ said

note_part-SaidAt :
    (i part : ℕ) (kind : ArgKind) (f : Field) (s : ArgState)
    → (note_part i (argument i s) part kind f s).valid ≡ true
    → SaidAt kind i part f (note_part i (argument i s) part kind f s)
unfolding note_part
note_part-SaidAt i part exec_arg_whole f s v = rw (argument-put i i _ _ s, beq_refl i) refl
note_part-SaidAt i part exec_arg_fragment f s v =
    rw (argument-put i i _ _ s, beq_refl i)
      (rw (lookup-insert part part f (argument i s).fragments, beq_refl part) refl)
note_part-SaidAt i part exec_arg_length f s v = length_put (read_count f.value) v
  where
    length_put :
        (o : Option ℕ)
        → (put_length i (argument i s) o s).valid ≡ true
        → (n : ℕ) × (o ≡ some n) × ((argument i (put_length i (argument i s) o s)).length ≡ some n)
    length_put none h = ground (arith, h)
    length_put (some n) h = elim (Bool-cases (differs_from (argument i s).length n)) [
      | inl other ↦ let k : (s.valid && false) ≡ true = simp other at h in ground (arith, k)
      | inr same ↦ (n, refl, rw (same, argument-put i i _ true s, beq_refl i) refl)
    ]

-- A field of an argument, that is noted without contradiction.
pub note_argument-Extends :
    (k : ArgKey) (f : Field) (s : ArgState)
    → (note_argument k f s).valid ≡ true
    → Extends s (note_argument k f s)
      × SaidAt k.kind k.arg_index k.part_index.magnitude f (note_argument k f s)
unfolding note_argument
note_argument-Extends k f s v = elim (Bool-cases (is_negative k.part_index)) [
  | inl bad ↦ let no : false ≡ true = simp bad at v in cc no
  | inr good ↦
      let v' : (note_part k.arg_index (argument k.arg_index s) k.part_index.magnitude k.kind f
            s).valid
          ≡ true =
        simp good at v in
      simp good (
        note_part-Extends k.arg_index k.part_index.magnitude k.kind f s v',
        note_part-SaidAt k.arg_index k.part_index.magnitude k.kind f s v',
      )
]

pub note_argc-Extends :
    (o : Option ℕ) (s : ArgState)
    → (note_argc o s).valid ≡ true
    → Extends s (note_argc o s) × (n : ℕ) × (o ≡ some n) × ((note_argc o s).argc ≡ some n)
unfolding note_argc
note_argc-Extends none s v = cc v
note_argc-Extends (some n) s v = elim (Bool-cases (differs_from s.argc n)) [
  | inl other ↦ let no : false ≡ true = simp other at v in cc no
  | inr same ↦
      let v' : s.valid ≡ true = simp same at v in
      simp same (
        record {
          valid_before = v';
          argc_kept = λ m k. ground (arith, same, k);
          arguments_kept = λ i. (Extends-refl s v').arguments_kept i;
        },
        n,
        refl,
        refl,
      )
]
