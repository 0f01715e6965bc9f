-- ===== src/Follower/Lines.antt =====
-- `FileFollower` and `NextSource` of internal/collector/follower.go. What `ReadSlice` answers is a
-- parameter, with what the file holds then; offsets below 2^63 do not wrap.
use aesirguard_audit.Base.{
  ℕ, ◌+◌, ◌-◌, ◌^◌, Bool, true, false, ◌&&◌, not, List, [], ◌∷◌, ◌++◌, Option, none, some, Bytes,
  bytes_equality, ltb, nat_eq, length, take, if◌then◌else◌,
}
use aesirguard_audit.Parser.Text.{before_suffix}
use aesirguard_audit.Collector.Ledger.{FileIdentity}
use aesirguard_audit.Follower.Anchor.{content_anchor}

-- `FollowerOptions`; the poll interval is positive or not.
pub record FollowerOptions : Type 0 where
  pub poll_interval : ℕ
  pub max_line_bytes : ℕ
  pub option_generation : ℕ
  pub recover_limits : Bool

-- `SourceLine`.
pub record SourceLine : Type 0 where
  pub omitted_bytes : ℕ
  pub text : Bytes
  pub line_identity : FileIdentity
  pub line_generation : ℕ
  pub start_identity : FileIdentity
  pub start_generation : ℕ
  pub line_start : ℕ
  pub line_end : ℕ
  pub start_anchor : Bytes
  pub end_anchor : Bytes
  pub line_bytes : ℕ

-- `FileFollower`, without the descriptor and its reader.
pub record FileFollower : Type 0 where
  pub max_line_bytes : ℕ
  pub partial : Bytes
  pub bytes_read : ℕ
  pub recover_line_limits : Bool
  pub identity : FileIdentity
  pub generation : ℕ
  pub read_offset : ℕ
  pub last_start : ℕ
  pub complete_end : ℕ
  pub origin : FileIdentity
  pub origin_generation : ℕ
  pub origin_offset : ℕ
  pub origin_anchor : Bytes

-- What comes with a fragment: a newline at its end, a full buffer, the end of the file with the
-- context cancelled during the wait or not, or another error.
pub data ReadStatus : Type 0 where
  full_line buffer_full read_failed : ReadStatus
  at_end : Bool → ReadStatus

-- One answer of `ReadSlice`, with `ctx.Err()` before it and the content of the file behind it.
pub record Read : Type 0 where
  pub cancelled : Bool
  pub fragment : Bytes
  pub status : ReadStatus
  pub content : Bytes

pub data FollowError : Type 0 where
  context_done counter_exhausted line_too_long no_anchor unreadable_file : FollowError

-- What one call of `NextSource` returns; a round of its loop may also go on.
pub data Next : Type 0 where
  got_line : SourceLine → Next
  idle go_on : Next
  failed_with : FollowError → Next

abbrev pub max_int : ℕ
max_int = 2 ^ 63 - 1

abbrev pub newline : ℕ
newline = 10

-- `bytes.TrimSuffix` with one byte.
abbrev pub trim_byte : ℕ → Bytes → Bytes
trim_byte c s = elim (before_suffix (c ∷ []) s) [ none ↦ s | some before ↦ before ]

-- The text of a line that is complete, or the retained prefix of one that is too long.
unfoldable pub line_text : ℕ → Bytes → Bytes
line_text omitted partial =
    if nat_eq omitted 0 then trim_byte 13 (trim_byte newline partial) else partial

-- The part of a fragment that is kept.
unfoldable pub retained : ℕ → Bytes → Bytes → Bytes
retained max_line partial fragment =
    let room = max_line - length partial in
    take (if ltb room (length fragment) then room else length fragment) fragment

abbrev pub add_fragment : Bytes → FileFollower → FileFollower
add_fragment fragment f = record f {
  bytes_read = f.bytes_read + length fragment;
  partial = f.partial ++ retained f.max_line_bytes f.partial fragment;
  read_offset = f.read_offset + length fragment;
}

-- `if len(fragment) > 0 { ... }`, with its two errors.
unfoldable pub absorb : Bytes → FileFollower → FileFollower × Option FollowError
absorb fragment f =
    if nat_eq (length fragment) 0
    then (f, none)
    else if ltb max_int (length fragment + f.bytes_read)
    then (f, some counter_exhausted)
    else if ltb f.max_line_bytes (f.bytes_read + length fragment) && not f.recover_line_limits
    then (record f { bytes_read = f.bytes_read + length fragment }, some line_too_long)
    else (add_fragment fragment f, none)

abbrev pub source_line : Bytes → FileFollower → SourceLine
source_line end_anchor f =
    let omitted = f.bytes_read - length f.partial in
    record {
      omitted_bytes = omitted;
      text = line_text omitted f.partial;
      line_identity = f.identity;
      line_generation = f.generation;
      start_identity = f.origin;
      start_generation = f.origin_generation;
      line_start = f.origin_offset;
      line_end = f.read_offset;
      start_anchor = f.origin_anchor;
      end_anchor = end_anchor;
      line_bytes = f.bytes_read;
    }

abbrev pub begin_line : Bytes → FileFollower → FileFollower
begin_line end_anchor f = record f {
  complete_end = f.read_offset;
  last_start = f.read_offset;
  origin = f.identity;
  origin_generation = f.generation;
  origin_offset = f.read_offset;
  origin_anchor = end_anchor;
  partial = [];
  bytes_read = 0;
}

unfoldable pub complete_line : Option Bytes → FileFollower → FileFollower × Next
complete_line none f = (f, failed_with no_anchor)
complete_line (some end_anchor) f = (begin_line end_anchor f, got_line (source_line end_anchor f))

-- Only a round that goes on is followed by the next one.
unfoldable pub go_on_unless :
    (FileFollower → FileFollower × List Read × Next)
    → List Read
    → FileFollower × Next
    → FileFollower × List Read × Next
go_on_unless again rs (f, go_on) = again f
go_on_unless again rs (f, x) = (f, rs, x)

module _ (hash : Bytes → Bytes) where
  -- The switch behind a fragment.
  unfoldable pub after_fragment : ReadStatus → Bytes → FileFollower → FileFollower × Next
  after_fragment full_line content f = complete_line (content_anchor hash content f.read_offset) f
  after_fragment buffer_full content f = (f, go_on)
  after_fragment (at_end false) content f = (f, idle)
  after_fragment (at_end true) content f = (f, failed_with context_done)
  after_fragment read_failed content f = (f, failed_with unreadable_file)

  unfoldable pub unless_failed :
      ReadStatus → Bytes → FileFollower × Option FollowError → FileFollower × Next
  unless_failed status content (f, some e) = (f, failed_with e)
  unless_failed status content (f, none) = after_fragment status content f

  -- One round of the loop.
  unfoldable pub read_round : Read → FileFollower → FileFollower × Next
  read_round r f =
      if r.cancelled
      then (f, failed_with context_done)
      else unless_failed r.status r.content (absorb r.fragment f)

  -- `NextSource`: rounds until one returns. What is left of the answers is for the next call; if they
  -- run out the call is still reading.
  unfoldable pub next_source : List Read → FileFollower → FileFollower × List Read × Next
  next_source [] f = (f, [], go_on)
  next_source (r ∷ rs) f = go_on_unless (next_source rs) rs (read_round r f)

-- `transferPartialTo`; the retained bytes move to the follower of the next generation.
unfoldable pub transfer_partial_to :
    FileFollower → FileFollower → Option (FileFollower × FileFollower)
transfer_partial_to f next =
    if nat_eq (length f.partial) 0
    then some (f, next)
    else if ltb next.max_line_bytes (length f.partial)
    then none
    else some (
      record f { bytes_read = 0; partial = [] },
      record next {
        partial = next.partial ++ f.partial;
        bytes_read = f.bytes_read;
        origin = f.origin;
        origin_generation = f.origin_generation;
        origin_offset = f.origin_offset;
        origin_anchor = f.origin_anchor;
      },
    )

-- `HasPartial`.
unfoldable pub has_partial : FileFollower → Bool
has_partial f = not (nat_eq (length f.partial) 0)
