-- ===== src/Semantics/Contradictions.antt =====
-- What `buildArguments` of argv.go keeps of each EXECVE field while nothing contradicts it.
use aesirguard_audit.Base.{
  ℕ, Bool, true, false, ◌&&◌, not, List, Option, none, some, ◌≡◌, refl, ap, sym, inl, inr, arith,
  Bytes, bytes_equality, nat_equality, ◌==◌, Bool-cases, bytes_eq_iff, if◌then◌else◌,
}
use mathlib.Core.Path.{subst}
use aesirguard_audit.Base.Maps.{lookup, insert, lookup-insert}
use aesirguard_audit.Record.{Field}
use aesirguard_audit.Assembler.State.{bool_eq}
use aesirguard_audit.Parser.Values.{ArgKind, exec_arg_whole, exec_arg_length, exec_arg_fragment}
use aesirguard_audit.Semantics.Argv.{
  ExecArgument, ArgState, argument_or_new, put, put_length, other_field, differs_from, note_part,
  read_count,
}

-- The value of a field and whether it was quoted.
abbrev pub reading : Option Field → Option (Bytes × Bool)
reading none = none
reading (some f) = some (f.value, f.quoted)

-- Whatever one argument says, the other says.
pub record Keeps (a b : ExecArgument) : Type 0 where
  pub length_kept : (n : ℕ) → a.length ≡ some n → b.length ≡ some n
  pub whole_kept : (v : Bytes × Bool) → reading a.whole ≡ some v → reading b.whole ≡ some v
  pub part_kept :
      (part : ℕ) (v : Bytes × Bool)
      → reading (lookup part a.fragments) ≡ some v
      → reading (lookup part b.fragments) ≡ some v

Keeps-refl : (a : ExecArgument) → Keeps a a
Keeps-refl a = record { length_kept = λ n h. h; whole_kept = λ v h. h; part_kept = λ part v h. h }

Keeps-trans : (a b c : ExecArgument) → Keeps a b → Keeps b c → Keeps a c
Keeps-trans a b c h k = record {
  length_kept = λ n x. k.length_kept n (h.length_kept n x);
  whole_kept = λ v x. k.whole_kept v (h.whole_kept v x);
  part_kept = λ part v x. k.part_kept part v (h.part_kept part v x);
}

-- What is known of the argument at an index.
abbrev pub argument : ℕ → ArgState → ExecArgument
argument i s = argument_or_new (lookup i s.args)

-- A state without contradiction came from one without, and says whatever that said.
pub record Extends (s t : ArgState) : Type 0 where
  pub valid_before : s.valid ≡ true
  pub argc_kept : (n : ℕ) → s.argc ≡ some n → t.argc ≡ some n
  pub arguments_kept : (i : ℕ) → Keeps (argument i s) (argument i t)

pub Extends-refl : (s : ArgState) → s.valid ≡ true → Extends s s
Extends-refl s h = record {
  valid_before = h;
  argc_kept = λ n k. k;
  arguments_kept = λ i. Keeps-refl (argument i s);
}

pub Extends-trans : (s t u : ArgState) → Extends s t → Extends t u → Extends s u
Extends-trans s t u h k = record {
  valid_before = h.valid_before;
  argc_kept = λ n x. k.argc_kept n (h.argc_kept n x);
  arguments_kept = λ i.
      Keeps-trans (argument i s) (argument i t) (argument i u) (h.arguments_kept i)
        (k.arguments_kept i);
}

pub argument-put :
    (i j : ℕ) (a : ExecArgument) (good : Bool) (s : ArgState)
    → argument j (put i a good s) ≡ (if i == j then a else argument j s)
argument-put i j a good s = elim (Bool-cases (i == j)) [
  | inl same ↦ rw (lookup-insert i j a s.args, same) refl
  | inr other ↦ rw (lookup-insert i j a s.args, other) refl
]

both : (a b : Bool) → (a && b) ≡ true → (a ≡ true) × (b ≡ true)
both a b h = ground (arith, h)

put-Extends :
    (i : ℕ) (a : ExecArgument) (good : Bool) (s : ArgState)
    → (good ≡ true → Keeps (argument i s) a)
    → (put i a good s).valid ≡ true
    → Extends s (put i a good s)
put-Extends i a good s h v =
    let (before, fine) = both s.valid good v in
    record {
      valid_before = before;
      argc_kept = λ n k. k;
      arguments_kept = λ j. elim (Bool-cases (i == j)) [
        | inl same ↦
            let is : i ≡ j = (nat_equality.beq_iff i j).0 same in
            rw (argument-put i j a good s, same) (subst (λ x. Keeps (argument x s) a) is (h fine))
        | inr other ↦ rw (argument-put i j a good s, other) (Keeps-refl (argument j s))
      ];
    }

same_field-reading :
    (o : Option Field) (f : Field) (v : Bytes × Bool)
    → not (other_field o f) ≡ true
    → reading o ≡ some v
    → (f.value, f.quoted) ≡ v
same_field-reading none f v h k = cc k
same_field-reading (some old) f v h k =
    let values : old.value ≡ f.value = (bytes_eq_iff old.value f.value).0 (ground (arith, h)) in
    let quotes : old.quoted ≡ f.quoted = bool_eq-same old.quoted f.quoted (ground (arith, h)) in
    cc (values, quotes, k)
  where
    bool_eq-same : (a b : Bool) → bool_eq a b ≡ true → a ≡ b
    bool_eq-same true b e = sym e
    bool_eq-same false true e = cc e
    bool_eq-same false false e = refl

same_length : (o : Option ℕ) (m n : ℕ) → differs_from o m ≡ false → o ≡ some n → m ≡ n
same_length none m n h k = cc k
same_length (some l) m n h k = ground (arith, h, k)

part_inserted :
    (fragments : List (ℕ × Field)) (part : ℕ) (f : Field)
    → not (other_field (lookup part fragments) f) ≡ true
    → (p : ℕ) (v : Bytes × Bool) → reading (lookup p fragments) ≡ some v
    → reading (lookup p (insert part f fragments)) ≡ some v
part_inserted fragments part f good p v h = elim (Bool-cases (part == p)) [
  | inl same ↦
      let is : part ≡ p = (nat_equality.beq_iff part p).0 same in
      rw (lookup-insert part p f fragments, same)
        (ap some (
          same_field-reading (lookup part fragments) f v good
            (subst (λ x. reading (lookup x fragments) ≡ some v) (sym is) h)))
  | inr other ↦ rw (lookup-insert part p f fragments, other) h
]

-- One part of an argument: what was said stays, unless it is contradicted.
pub note_part-Extends :
    (i part : ℕ) (kind : ArgKind) (f : Field) (s : ArgState)
    → (note_part i (argument i s) part kind f s).valid ≡ true
    → Extends s (note_part i (argument i s) part kind f s)
unfolding note_part
note_part-Extends i part exec_arg_whole f s v =
    put-Extends i _ _ s
      (λ good. record {
        length_kept = λ n h. h;
        whole_kept = λ w h. ap some (same_field-reading (argument i s).whole f w good h);
        part_kept = λ p w h. h;
      })
      v
note_part-Extends i part exec_arg_fragment f s v =
    put-Extends i _ _ s
      (λ good. record {
        length_kept = λ n h. h;
        whole_kept = λ w h. h;
        part_kept = part_inserted (argument i s).fragments part f good;
      })
      v
note_part-Extends i part exec_arg_length f s v = length_put (read_count f.value) v
  where
    length_put :
        (o : Option ℕ)
        → (put_length i (argument i s) o s).valid ≡ true
        → Extends s (put_length i (argument i s) o s)
    length_put none h = cc (both s.valid false h).1
    length_put (some n) h = elim (Bool-cases (differs_from (argument i s).length n)) [
      | inl other ↦
          let k : (s.valid && false) ≡ true = simp other at h in cc (both s.valid false k).1
      | inr same ↦ rw same (
          put-Extends i _ true s
            (λ good. record {
              length_kept = λ m k. ap some (same_length (argument i s).length n m same k);
              whole_kept = λ w k. k;
              part_kept = λ p w k. k;
            })
            (simp same at h))
    ]
