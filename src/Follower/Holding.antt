-- ===== src/Follower/Holding.antt =====
-- The fragments of one line in `NextSource` of internal/collector/follower.go.
use aesirguard_audit.Base.{
  ℕ, zero, suc, ◌+◌, ◌-◌, ◌≤◌, true, false, List, [], ◌∷◌, ◌++◌, none, Bytes, ◌≡◌, refl, ap, sym,
  ◌∙◌, inl, inr, arith, Bool-cases, ltb, leb, nat_eq, length, length-append, take,
}
use mathlib.Core.List.{append-nil}
use aesirguard_audit.Base.Slices.{take_all, take-append, sub-length-take, sub-take-length}
use aesirguard_audit.Follower.Lines.{
  Read, SourceLine, FileFollower, Next, got_line, idle, go_on, failed_with, max_int, line_text,
  retained, add_fragment, absorb, begin_line, source_line, read_round, go_on_unless, next_source,
}
use aesirguard_audit.Follower.Split.{view, shown}

module _ (hash : Bytes → Bytes) where
  unfoldable pub collect :
      (FileFollower → FileFollower × List SourceLine)
      → FileFollower × Next
      → FileFollower × List SourceLine
  collect again (f, got_line l) = let (g, ls) = again f in (g, l ∷ ls)
  collect again (f, idle) = again f
  collect again (f, go_on) = again f
  collect again (f, failed_with e) = (f, [])

  -- The lines that calls of `NextSource`, one behind the other, return on all the reads.
  unfoldable pub follow : List Read → FileFollower → FileFollower × List SourceLine
  unfolding collect
  follow [] f = (f, [])
  follow (r ∷ rs) f = collect (follow rs) (read_round hash r f)

  abbrev pub next_call : FileFollower × List Read × Next → FileFollower × List SourceLine
  next_call (f, rs, got_line l) = let (g, ls) = follow rs f in (g, l ∷ ls)
  next_call (f, rs, idle) = follow rs f
  next_call (f, rs, go_on) = (f, [])
  next_call (f, rs, failed_with e) = (f, [])

  pub collect-go_on_unless :
      (rs : List Read) (x : FileFollower × Next)
      → ((g : FileFollower) → follow rs g ≡ next_call (next_source hash rs g))
      → collect (follow rs) x ≡ next_call (go_on_unless (next_source hash rs) rs x)
  unfolding collect go_on_unless
  collect-go_on_unless rs (f, got_line l) again = refl
  collect-go_on_unless rs (f, idle) again = refl
  collect-go_on_unless rs (f, go_on) again = again f
  collect-go_on_unless rs (f, failed_with e) again = refl

  -- One call of `NextSource`, and the calls behind it.
  pub follow-next_source :
      (rs : List Read) (f : FileFollower) → follow rs f ≡ next_call (next_source hash rs f)
  unfolding follow next_source
  follow-next_source [] f = refl
  follow-next_source (r ∷ rs) f =
      collect-go_on_unless rs (read_round hash r f) (λ g. follow-next_source rs g)

-- The follower holds the open line, or the prefix that the limit allows.
pub record Holds (open_line : Bytes) (f : FileFollower) : Type 0 where
  pub prefix : f.partial ≡ take f.max_line_bytes open_line
  pub counted : f.bytes_read ≡ length open_line
  pub recovers : f.recover_line_limits ≡ true

-- What a fragment changes.
pub record Absorbs (open_line s : Bytes) (f g : FileFollower) : Type 0 where
  pub holds : Holds (open_line ++ s) g
  pub moved : g.read_offset ≡ f.read_offset + length s
  pub same_limit : g.max_line_bytes ≡ f.max_line_bytes
  pub same_start : g.origin_offset ≡ f.origin_offset

pub retained-take :
    (n : ℕ) (open_line s : Bytes) → retained n (take n open_line) s ≡ take (n - length open_line) s
unfolding retained
retained-take n open_line s =
    rw (sub-length-take n open_line) (elim (Bool-cases (ltb (n - length open_line) (length s))) [
      | inl cut ↦ rw cut refl
      | inr whole ↦ rw whole (
          take_all (length s) s (omega arith)
          ∙ sym (take_all (n - length open_line) s (ground (arith, whole))))
    ])

pub add_fragment-Absorbs :
    (open_line s : Bytes) (f : FileFollower)
    → Holds open_line f
    → Absorbs open_line s f (add_fragment s f)
add_fragment-Absorbs open_line s f v = record {
  holds = record {
    prefix =
        ap (λ p. p ++ retained f.max_line_bytes p s) v.prefix
        ∙ ap (λ t. take f.max_line_bytes open_line ++ t)
            (retained-take f.max_line_bytes open_line s)
        ∙ sym (take-append f.max_line_bytes open_line s);
    counted = omega (arith, v.counted, length-append open_line s);
    recovers = v.recovers;
  };
  moved = refl;
  same_limit = refl;
  same_start = refl;
}

pub absorb-Absorbs :
    (open_line s : Bytes) (f : FileFollower)
    → Holds open_line f
    → length open_line + length s ≤ max_int
    → (g : FileFollower) × (absorb s f ≡ (g, none)) × Absorbs open_line s f g
unfolding absorb
absorb-Absorbs open_line [] f v h = (
  f,
  refl,
  record {
    holds = rw (append-nil open_line) v;
    moved = omega arith;
    same_limit = refl;
    same_start = refl;
  },
)
absorb-Absorbs open_line (c ∷ s) f v h = (
  add_fragment (c ∷ s) f,
  ground (arith, v.counted, v.recovers),
  add_fragment-Absorbs open_line (c ∷ s) f v,
)

pub line_text-shown :
    (n : ℕ) (line : Bytes)
    → line_text (length line - length (take n line)) (take n line) ≡ shown n line
unfolding line_text
line_text-shown n line = elim (Bool-cases (leb (length line) n)) [
  | inl fits ↦
      let nothing : length line - length line ≡ 0 = omega arith in
      rw (take_all n line (ground (arith, fits)), nothing, fits) refl
  | inr long ↦
      let more : nat_eq (length line - n) 0 ≡ false = ground (arith, long) in
      rw (sub-take-length n line, more, long) refl
]

-- What a held line says, when it is complete.
pub source_line-view :
    (line anchor : Bytes) (f : FileFollower)
    → Holds line f
    → view (source_line anchor f) ≡ record {
      expected_text = shown f.max_line_bytes line;
      omitted = length line - f.max_line_bytes;
      start = f.origin_offset;
      end = f.read_offset;
      size = length line;
    }
source_line-view line anchor f v =
    let text : line_text (f.bytes_read - length f.partial) f.partial ≡ shown f.max_line_bytes line =
      (λ i. line_text (v.counted i - length (v.prefix i)) (v.prefix i))
      ∙ line_text-shown f.max_line_bytes line in
    let left_out : f.bytes_read - length f.partial ≡ length line - f.max_line_bytes =
      (λ i. v.counted i - length (v.prefix i)) ∙ sub-take-length f.max_line_bytes line in
    λ i. record {
      expected_text = text i;
      omitted = left_out i;
      start = f.origin_offset;
      end = f.read_offset;
      size = v.counted i;
    }

pub take-nil : (n : ℕ) → take n (let l : Bytes = [] in l) ≡ []
take-nil zero = refl
take-nil (suc n) = refl

pub begin_line-Holds :
    (anchor : Bytes) (f : FileFollower)
    → f.recover_line_limits ≡ true
    → Holds [] (begin_line anchor f)
begin_line-Holds anchor f h = record {
  prefix = sym (take-nil f.max_line_bytes);
  counted = refl;
  recovers = h;
}
