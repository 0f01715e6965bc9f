-- ===== src/Rotation/Order.antt =====
-- `discoverCandidates` of internal/collector/rotation.go, and the source order of generations.
use aesirguard_audit.Base.{
  ℕ, ◌+◌, ◌^◌, ◌≤◌, ◌<◌, Bool, true, false, ◌&&◌, not, List, [], ◌∷◌, ◌++◌, Option, none, some,
  ◌==◌, Bytes, bytes_equality, codes, if◌then◌else◌, ◌≡◌, inl, inr, arith, Option-cases, All,
  All-append, sum_by, sum_by-append, Bool-cases, bytes_eq_iff,
}
use mathlib.Core.Path.{subst}
use mathlib.Core.List.{append_cancel_left}
use aesirguard_audit.Collector.Ledger.{FileIdentity}
use aesirguard_audit.Parser.Text.{after_prefix}
use aesirguard_audit.Parser.Fields.{ok, >>=-eq-ok}
use aesirguard_audit.Assembler.Time.{parse_decimal}
use aesirguard_audit.Rotation.Candidates.{
  SourceCandidate, EntryKind, symlink, no_file_info, other_file, no_identity, regular_file,
  DirEntry, rotation_number, join, add_candidate, add_entry, add_entries, number_or_zero,
  discover_candidates, is_numbered, parse_suffix, has_identity, is_excluded_path,
  is_compressed_rotation,
}
use aesirguard_audit.Rotation.Ages.{Generations, active, InRange, order_candidates-Generations}

-- An entry with the name of the input.
abbrev pub names_input : Bytes → DirEntry → ℕ
names_input base e = if e.name == base then 1 else 0

-- The directory lists that name at most once.
abbrev pub ListedOnce : Bytes → Option (List DirEntry) → Type 0
ListedOnce base none = Unit
ListedOnce base (some es) = sum_by (names_input base) es ≤ 1

record Added (base : Bytes) (w : ℕ) (found next : List SourceCandidate) : Type 0 where
  few : sum_by active next ≤ sum_by active found + w
  in_range : All InRange found → All InRange next

parse_suffix-lt : (o : Option Bytes) (n : ℕ) → parse_suffix o ≡ some n → n < 2 ^ 64
unfolding parse_decimal
parse_suffix-lt none n h = cc
parse_suffix-lt (some []) n h = cc
parse_suffix-lt (some (c ∷ cs)) n h = ground arith

rotation_number-lt : (base name : Bytes) → number_or_zero (rotation_number base name) < 2 ^ 64
unfolding rotation_number
rotation_number-lt base name =
    elim (Option-cases (parse_suffix (after_prefix (base ++ codes ".") name))) [
      | inl unnumbered ↦ rw unnumbered (omega arith)
      | inr (n, numbered) ↦ rw numbered (parse_suffix-lt _ n numbered)
    ]

joined :
    (root : Bool) (directory name base : Bytes)
    → (if root then directory ++ name else directory ++ codes "/" ++ name)
      ≡ (if root then directory ++ base else directory ++ codes "/" ++ base)
    → name ≡ base
joined true directory name base h = append_cancel_left directory name base h
joined false directory name base h = append_cancel_left (directory ++ codes "/") name base h

join-name :
    (directory name base : Bytes)
    → (join directory name == join directory base) ≡ true
    → (name == base) ≡ true
join-name directory name base h =
    (bytes_eq_iff name base).1
      (joined (directory == codes "/") directory name base ((bytes_eq_iff _ _).0 h))

active-names_input :
    (directory base : Bytes) (e : DirEntry) (identity : FileIdentity) (number : Option ℕ)
    → active (record {
      path = join directory e.name;
      identity = identity;
      current = join directory e.name == join directory base;
      number = number;
    })
      ≤ names_input base e
active-names_input directory base e identity number =
    elim (Bool-cases (join directory e.name == join directory base)) [
      | inl same ↦ rw (same, join-name directory e.name base same) (omega arith)
      | inr other ↦ rw other (omega arith)
    ]

unchanged-Added :
    (base : Bytes) (w : ℕ) (found next : List SourceCandidate)
    → found ≡ next
    → Added base w found next
unchanged-Added base w found next h = record {
  few = rw h (omega arith);
  in_range = λ r. rw (← h) r;
}

add_candidate-Added :
    (directory base : Bytes) (e : DirEntry) (kind : EntryKind) (found next : List SourceCandidate)
    → add_candidate
        (join directory base)
        (join directory e.name)
        (rotation_number base e.name)
        kind
        found
      ≡ ok next
    → Added base (names_input base e) found next
unfolding add_candidate
add_candidate-Added directory base e symlink found next h = cc
add_candidate-Added directory base e no_file_info found next h = cc
add_candidate-Added directory base e other_file found next h = cc
add_candidate-Added directory base e no_identity found next h = cc
add_candidate-Added directory base e (regular_file identity) found next h =
    elim (Bool-cases (has_identity identity found)) [
      | inl alias ↦ ground (arith, alias, h)
      | inr new ↦
          let c : SourceCandidate = record {
            path = join directory e.name;
            identity = identity;
            current = join directory e.name == join directory base;
            number = rotation_number base e.name;
          } in
          let is : found ++ c ∷ [] ≡ next = ground (arith, new, h) in
          subst (Added base (names_input base e) found) is (record {
            few = omega (
              arith,
              sum_by-append active found (c ∷ []),
              active-names_input directory base e identity (rotation_number base e.name),
            );
            in_range =
                λ r. All-append InRange found (c ∷ []) r (rotation_number-lt base e.name, tt);
          })
    ]

add_entry-Added :
    (directory base : Bytes) (excluded : List Bytes) (e : DirEntry)
    (found next : List SourceCandidate)
    → add_entry directory base excluded e found ≡ ok next
    → Added base (names_input base e) found next
unfolding add_entry
add_entry-Added directory base excluded e found next h =
    elim (Bool-cases (not (e.name == base) && not (is_numbered (rotation_number base e.name)))) [
      | inl other ↦ unchanged-Added base (names_input base e) found next (ground (arith, other, h))
      | inr generation ↦ elim (Bool-cases (is_compressed_rotation e.name)) [
        | inl compressed ↦
            unchanged-Added base (names_input base e) found next
              (ground (arith, generation, compressed, h))
        | inr plain ↦ elim (Bool-cases (is_excluded_path (join directory e.name) excluded)) [
          | inl left_out ↦
              unchanged-Added base (names_input base e) found next
                (ground (arith, generation, plain, left_out, h))
          | inr taken ↦
              add_candidate-Added directory base e e.kind found next
                (ground (arith, generation, plain, taken, h))
        ]
      ]
    ]

add_entries-Added :
    (directory base : Bytes) (excluded : List Bytes) (es : List DirEntry)
    (found next : List SourceCandidate)
    → add_entries directory base excluded es found ≡ ok next
    → Added base (sum_by (names_input base) es) found next
unfolding add_entries
add_entries-Added directory base excluded [] found next h =
    let is : found ≡ next = cc in record { few = rw is (omega arith); in_range = λ r. rw (← is) r }
add_entries-Added directory base excluded (e ∷ es) found next h =
    let (mid, here, later) = >>=-eq-ok (add_entry directory base excluded e found) _ next h in
    let first = add_entry-Added directory base excluded e found mid here in
    let rest = add_entries-Added directory base excluded es mid next later in
    record {
      few = omega (arith, first.few, rest.few);
      in_range = λ r. rest.in_range (first.in_range r);
    }

-- Whatever the directory lists, if it lists the name of the input at most once: candidates that
-- `discoverCandidates` returns are retained generations from the oldest on, their numbers strictly
-- falling, with the active file behind them.
pub discover_candidates-Generations :
    (directory base : Bytes) (excluded : List Bytes) (listed : Option (List DirEntry))
    (cs : List SourceCandidate)
    → discover_candidates directory base excluded listed ≡ ok cs
    → ListedOnce base listed
    → Generations cs
unfolding discover_candidates
discover_candidates-Generations directory base excluded none cs h once = cc
discover_candidates-Generations directory base excluded (some es) cs h once =
    let (found, added, ordered) = >>=-eq-ok (add_entries directory base excluded es []) _ cs h in
    let a = add_entries-Added directory base excluded es [] found added in
    order_candidates-Generations found cs ordered (a.in_range tt) (omega (arith, once, a.few))
