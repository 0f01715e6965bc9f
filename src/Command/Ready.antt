-- ===== src/Command/Ready.antt =====
-- Options that pass the checks of cmd/ag-audit/main.go, as the assembler and the follower take them.
use aesirguard_audit.Base.{
  ℕ, ◌<◌, Bool, true, false, ◌&&◌, ◌||◌, not, List, [], ◌∷◌, Option, none, some, ◌==◌, Bytes,
  bytes_equality, bytes_eq_iff, ◌≡◌, ◌≢◌, ◌⊎◌, inl, inr, refl, arith, All, Bool-cases,
}
use aesirguard_audit.Parser.Values.{SignedNumber}
use aesirguard_audit.Parser.Fields.{Result, err}
use aesirguard_audit.Collector.Ledger.{FileIdentity}
use aesirguard_audit.Assembler.State.{
  Assembler, AssemblerLimits, new_assembler, new_bounded_assembler,
}
use aesirguard_audit.Follower.Anchor.{content_anchor}
use aesirguard_audit.Follower.Lines.{FollowerOptions, FileFollower}
use aesirguard_audit.Follower.Opening.{
  OpenAnswer, OpenError, no_poll_interval, no_line_limit, open_anchored, open_identified,
  open_file_follower_at,
}
use aesirguard_audit.Command.Options.{CommandOptions, OptionError}
use aesirguard_audit.Command.Checks.{
  is_positive, is_set, first_failure, option_checks, check_options,
}

abbrev Passes : Bool × OptionError → Type 0
Passes x = x.0 ≡ false

first_failure-Passes :
    (checks : List (Bool × OptionError)) → first_failure checks ≡ none → All Passes checks
first_failure-Passes [] h = tt
first_failure-Passes ((false, e) ∷ rest) h = (refl, first_failure-Passes rest h)
first_failure-Passes ((true, e) ∷ rest) h = cc

-- The limits and the follower's options, as `runContext` and `runFollower` pass them on.
abbrev pub limits_of : CommandOptions → AssemblerLimits
limits_of o = record {
  max_pending_events = o.max_pending_events.magnitude;
  max_records_per_event = o.max_records_per_event.magnitude;
  max_pending_bytes = o.max_pending_bytes.magnitude;
}

abbrev pub follower_options_of : CommandOptions → FollowerOptions
follower_options_of o = record {
  poll_interval = o.poll_interval.magnitude;
  max_line_bytes = o.max_line_bytes.magnitude;
  option_generation = 0;
  recover_limits = true;
}

-- One of them is not named, or they are different files.
abbrev pub Apart : (Bytes → Bytes → Bool) → Bytes → Bytes → Type 0
Apart same a b = ((a == []) ≡ true) ⊎ ((b == []) ≡ true) ⊎ (same a b ≡ false)

-- Follow mode with an input, or neither a lock nor a checkpoint.
abbrev pub ModeAgrees : CommandOptions → Type 0
ModeAgrees o =
    ((o.follow ≡ true) × (o.input_path ≢ []))
    ⊎ ((o.follow ≡ false) × (o.lock_path ≡ []) × (o.checkpoint_path ≡ []))

-- Neither error comes from behind the checks of the options.
abbrev pub IsLate : Result OpenError FileFollower → Type 0
IsLate x = (x ≢ err no_poll_interval) × (x ≢ err no_line_limit)

open_anchored-IsLate :
    (o : FollowerOptions) (os : OpenAnswer) (offset : ℕ) (anchors : Option Bytes)
    (identity : FileIdentity) (a : Option Bytes)
    → IsLate (open_anchored o os offset anchors identity a)
unfolding open_anchored
open_anchored-IsLate o os offset anchors identity none = (λ h. cc, λ h. cc)
open_anchored-IsLate o os offset anchors identity (some a) =
    (λ h. ground (arith, h), λ h. ground (arith, h))

open_identified-IsLate :
    (hash : Bytes → Bytes) (o : FollowerOptions) (os : OpenAnswer) (offset : ℕ)
    (expected : Option FileIdentity) (anchors : Option Bytes) (identity : Option FileIdentity)
    → IsLate (open_identified hash o os offset expected anchors identity)
unfolding open_identified
open_identified-IsLate hash o os offset expected anchors none = (λ h. cc, λ h. cc)
open_identified-IsLate hash o os offset expected anchors (some i) =
    let (p, q) =
      open_anchored-IsLate o os offset anchors i (content_anchor hash os.file_content offset) in
    (λ h. ground (arith, h, p), λ h. ground (arith, h, q))

open_file_follower_at-IsLate :
    (hash : Bytes → Bytes) (o : FollowerOptions) (os : OpenAnswer) (offset : SignedNumber)
    (expected : Option FileIdentity) (anchors : Option Bytes)
    → 0 < o.poll_interval
    → 0 < o.max_line_bytes
    → IsLate (open_file_follower_at hash o os offset expected anchors)
unfolding open_file_follower_at
open_file_follower_at-IsLate hash o os offset expected anchors h k =
    let (p, q) =
      open_identified-IsLate hash o os offset.magnitude expected anchors os.file_identity in
    (λ e. ground (arith, e, p), λ e. ground (arith, e, q))

all_positive :
    (a b c d : Bool)
    → (not a || not b || not c || not d) ≡ false
    → (a ≡ true) × (b ≡ true) × (c ≡ true) × (d ≡ true)
all_positive a b c d h = ground (arith, h)

positive : (n : SignedNumber) → is_positive n ≡ true → 0 < n.magnitude
positive n h = ground (arith, h)

apart :
    (same : Bytes → Bytes → Bool) (a b : Bytes)
    → (is_set a && is_set b && same a b) ≡ false
    → Apart same a b
apart same a b h = elim (Bool-cases (a == [])) [
  | inl none_named ↦ inl none_named
  | inr named ↦ elim (Bool-cases (b == [])) [
    | inl unnamed ↦ inr (inl unnamed)
    | inr both ↦ inr (inr (ground (arith, h, named, both)))
  ]
]

-- The checks that ask for the second path first, and perhaps not for the other one.
Apart-from :
    (same : Bytes → Bytes → Bool) (a b : Bytes) (asked : Bool)
    → (is_set b && asked && same a b) ≡ false
    → (is_set a ≡ true → asked ≡ true)
    → Apart same a b
Apart-from same a b asked h k = elim (Bool-cases (a == [])) [
  | inl none_named ↦ inl none_named
  | inr named ↦ elim (Bool-cases (b == [])) [
    | inl unnamed ↦ inr (inl unnamed)
    | inr both ↦ inr (inr (ground (arith, h, k (ground (arith, named)), both)))
  ]
]

unset :
    (path : Bytes) (allowed : Bool)
    → (is_set path && not allowed) ≡ false
    → allowed ≡ false
    → path ≡ []
unset path allowed h k = (bytes_eq_iff path []).0 (ground (arith, h, k))

-- Options that pass: the bounded assembler can be made, no follower is refused for its poll interval
-- or its line limit, follow mode has an input and the other mode neither a lock nor a checkpoint, and
-- no two of the input, the output, the lock and the checkpoint that are named are one file.
pub check_options-Ready :
    (same : Bytes → Bytes → Bool) (o : CommandOptions) (hash : Bytes → Bytes) (os : OpenAnswer)
    (offset : SignedNumber) (expected : Option FileIdentity) (anchors : Option Bytes)
    → check_options same o ≡ none
    → ((a : Assembler) × (new_bounded_assembler o.event_timeout.magnitude (limits_of o) ≡ some a))
      × IsLate (open_file_follower_at hash (follower_options_of o) os offset expected anchors)
      × ModeAgrees o
      × (Apart same o.input_path o.output_path
          × Apart same o.output_path o.lock_path
          × Apart same o.input_path o.lock_path
          × Apart same o.input_path o.checkpoint_path
          × Apart same o.output_path o.checkpoint_path
          × Apart same o.lock_path o.checkpoint_path)
unfolding check_options new_bounded_assembler
check_options-Ready same o hash os offset expected anchors h =
    let c = first_failure-Passes (option_checks same o) h in
    let intervals =
      all_positive (is_positive o.poll_interval) (is_positive o.event_timeout)
        (is_positive o.checkpoint_interval) (is_positive o.rotation_drain) c.1.1.1.1.1.0 in
    let limits =
      all_positive (is_positive o.max_line_bytes) (is_positive o.max_pending_events)
        (is_positive o.max_records_per_event) (is_positive o.max_pending_bytes) c.1.1.1.1.1.1.1.0 in
    let paths = c.1.1.1.1.1.1.1.1 in
    (
      (
        record (new_assembler o.event_timeout.magnitude) { limits = limits_of o },
        ground (
          arith,
          positive o.max_pending_events limits.1,
          positive o.max_records_per_event limits.2,
          positive o.max_pending_bytes limits.3,
        ),
      ),
      open_file_follower_at-IsLate hash (follower_options_of o) os offset expected anchors
          (positive o.poll_interval intervals.0) (positive o.max_line_bytes limits.0),
      elim (Bool-cases o.follow) [
        | inl on ↦ inl (
          on,
          λ none_given. ground (arith, c.1.0, on, (bytes_eq_iff o.input_path []).1 none_given),
        )
        | inr off ↦ inr (
          off,
          unset o.lock_path o.follow c.1.1.0 off,
          unset o.checkpoint_path o.follow c.1.1.1.0 off,
        )
      ],
      (
        apart same o.input_path o.output_path paths.0,
        Apart-from same o.output_path o.lock_path (is_set o.output_path) paths.1.1.0 (λ k. k),
        Apart-from same o.input_path o.lock_path true (ground (arith, paths.1.0)) (λ _. refl),
        apart same o.input_path o.checkpoint_path paths.1.1.1.0,
        apart same o.output_path o.checkpoint_path paths.1.1.1.1.0,
        apart same o.lock_path o.checkpoint_path paths.1.1.1.1.1.0,
      ),
    )
