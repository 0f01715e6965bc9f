-- ===== src/Rotation/Position.antt =====
-- Where the open line starts, over one call of `NextSource`, as internal/collector/rotation.go keeps it
-- for `CompletePosition`.
use aesirguard_audit.Base.{
  ◌+◌, true, false, ◌&&◌, not, List, [], ◌∷◌, Option, none, some, Bytes, ◌≡◌, refl, ◌∙◌, inl, inr,
  Bool-cases, nat_eq, ltb, length,
}
use aesirguard_audit.Follower.Lines.{
  FileFollower, FollowError, Read, ReadStatus, full_line, buffer_full, read_failed, at_end, Next,
  got_line, idle, go_on, failed_with, max_int, absorb, complete_line, after_fragment, unless_failed,
  read_round, go_on_unless, next_source,
}
use aesirguard_audit.Follower.Anchor.{content_anchor}
use aesirguard_audit.Rotation.State.{LinePosition, position_of_line}

-- Where the open line starts.
abbrev pub start_of_line : FileFollower → LinePosition
start_of_line f = record {
  at_identity = f.origin;
  at_generation = f.origin_generation;
  at_anchor = f.origin_anchor;
  at_offset = f.origin_offset;
}

-- A call keeps the generation, and moves the start of the line behind each line that it returns.
abbrev pub start_after : FileFollower → Next → LinePosition
start_after f (got_line l) = position_of_line l
start_after f _ = start_of_line f

pub record Moves (f g : FileFollower) (x : Next) : Type 0 where
  pub same_generation : g.generation ≡ f.generation
  pub start : start_of_line g ≡ start_after f x

absorb-Moves : (s : Bytes) (f : FileFollower) → Moves f (absorb s f).0 go_on
unfolding absorb
absorb-Moves s f = elim (Bool-cases (nat_eq (length s) 0)) [
  | inl nothing ↦ rw nothing (record { same_generation = refl; start = refl })
  | inr some_bytes ↦ elim (Bool-cases (ltb max_int (length s + f.bytes_read))) [
    | inl exhausted ↦ rw (some_bytes, exhausted) (record { same_generation = refl; start = refl })
    | inr fits ↦
        elim (Bool-cases
          (ltb f.max_line_bytes (f.bytes_read + length s) && not f.recover_line_limits)) [
            | inl long ↦
                rw (some_bytes, fits, long) (record { same_generation = refl; start = refl })
            | inr short ↦
                rw (some_bytes, fits, short) (record { same_generation = refl; start = refl })
          ]
  ]
]

complete_line-Moves :
    (a : Option Bytes) (f : FileFollower) → Moves f (complete_line a f).0 (complete_line a f).1
unfolding complete_line
complete_line-Moves none f = record { same_generation = refl; start = refl }
complete_line-Moves (some a) f = record { same_generation = refl; start = refl }

start_after-same :
    (x : Next) (f g : FileFollower)
    → start_of_line g ≡ start_of_line f
    → start_after g x ≡ start_after f x
start_after-same (got_line l) f g h = refl
start_after-same idle f g h = h
start_after-same go_on f g h = h
start_after-same (failed_with e) f g h = h

Moves-trans : (f g h : FileFollower) (x : Next) → Moves f g go_on → Moves g h x → Moves f h x
Moves-trans f g h x m n = record {
  same_generation = n.same_generation ∙ m.same_generation;
  start = n.start ∙ start_after-same x f g m.start;
}

module _ (hash : Bytes → Bytes) where
  after_fragment-Moves :
      (status : ReadStatus) (content : Bytes) (f : FileFollower)
      → Moves f (after_fragment hash status content f).0 (after_fragment hash status content f).1
  unfolding after_fragment
  after_fragment-Moves full_line content f =
      complete_line-Moves (content_anchor hash content f.read_offset) f
  after_fragment-Moves buffer_full content f = record { same_generation = refl; start = refl }
  after_fragment-Moves (at_end false) content f = record { same_generation = refl; start = refl }
  after_fragment-Moves (at_end true) content f = record { same_generation = refl; start = refl }
  after_fragment-Moves read_failed content f = record { same_generation = refl; start = refl }

  unless_failed-Moves :
      (status : ReadStatus) (content : Bytes) (f : FileFollower)
      (x : FileFollower × Option FollowError)
      → Moves f x.0 go_on
      → Moves f (unless_failed hash status content x).0 (unless_failed hash status content x).1
  unfolding unless_failed
  unless_failed-Moves status content f (g, some e) m = record {
    same_generation = m.same_generation;
    start = m.start;
  }
  unless_failed-Moves status content f (g, none) m =
      Moves-trans f g _ _ m (after_fragment-Moves status content g)

  read_round-Moves :
      (r : Read) (f : FileFollower) → Moves f (read_round hash r f).0 (read_round hash r f).1
  unfolding read_round
  read_round-Moves r f = elim (Bool-cases r.cancelled) [
    | inl stopped ↦ rw stopped (record { same_generation = refl; start = refl })
    | inr running ↦
        rw running (
          unless_failed-Moves r.status r.content f (absorb r.fragment f)
            (absorb-Moves r.fragment f))
  ]

  go_on_unless-Moves :
      (rs : List Read) (f : FileFollower) (x : FileFollower × Next)
      → Moves f x.0 x.1
      → ((g : FileFollower) → Moves g (next_source hash rs g).0 (next_source hash rs g).2)
      → Moves f
          (go_on_unless (next_source hash rs) rs x).0
          (go_on_unless (next_source hash rs) rs x).2
  unfolding go_on_unless
  go_on_unless-Moves rs f (g, go_on) m again = Moves-trans f g _ _ m (again g)
  go_on_unless-Moves rs f (g, got_line l) m again = m
  go_on_unless-Moves rs f (g, idle) m again = m
  go_on_unless-Moves rs f (g, failed_with e) m again = m

  pub next_source-Moves :
      (rs : List Read) (f : FileFollower)
      → Moves f (next_source hash rs f).0 (next_source hash rs f).2
  unfolding next_source
  next_source-Moves [] f = record { same_generation = refl; start = refl }
  next_source-Moves (r ∷ rs) f =
      go_on_unless-Moves rs f (read_round hash r f) (read_round-Moves r f)
        (λ g. next_source-Moves rs g)
