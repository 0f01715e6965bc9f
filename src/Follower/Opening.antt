-- ===== src/Follower/Opening.antt =====
-- `OpenFileFollowerAt` of internal/collector/follower.go: a follower that starts at a line boundary.
use aesirguard_audit.Base.{
  ℕ, zero, suc, Bool, true, false, ◌&&◌, not, [], ◌∷◌, Option, none, some, ◌==◌, Bytes,
  bytes_equality, ltb, nat_eq, length, drop, if◌then◌else◌,
}
use aesirguard_audit.Parser.Values.{SignedNumber, plus, is_negative}
use aesirguard_audit.Parser.Fields.{Result, ok, err}
use aesirguard_audit.Collector.Ledger.{FileIdentity, SourceError, truncated, anchor_mismatch}
use aesirguard_audit.Follower.Anchor.{content_anchor}
use aesirguard_audit.Follower.Lines.{FollowerOptions, FileFollower, newline}

-- What the operating system answers: the identity is there if it can be read.
pub record OpenAnswer : Type 0 where
  pub opens : Bool
  pub stats : Bool
  pub regular : Bool
  pub file_identity : Option FileIdentity
  pub file_content : Bytes
  pub seeks : Bool

pub data OpenError : Type 0 where
  no_poll_interval no_line_limit negative_offset cannot_open no_stat not_regular : OpenError
  no_identity generation_changed anchor_failed seek_failed no_boundary : OpenError
  source_error : SourceError → OpenError

abbrev pub signed_nat : ℕ → SignedNumber
signed_nat n = record { sign = plus; magnitude = n }

unfoldable pub identity_eq : FileIdentity → FileIdentity → Bool
identity_eq a b = nat_eq a.device b.device && nat_eq a.inode b.inode

abbrev pub is_other : Option FileIdentity → FileIdentity → Bool
is_other none identity = false
is_other (some expected) identity = not (identity_eq identity expected)

abbrev pub is_other_anchor : Option Bytes → Bytes → Bool
is_other_anchor none anchor = false
is_other_anchor (some expected) anchor = not (expected == anchor)

abbrev pub starts_with : ℕ → Bytes → Bool
starts_with c [] = false
starts_with c (d ∷ ds) = nat_eq d c

-- The byte before the offset is a newline.
unfoldable pub is_boundary : Bytes → ℕ → Bool
is_boundary content zero = true
is_boundary content (suc n) = starts_with newline (drop n content)

abbrev pub new_follower : FollowerOptions → ℕ → FileIdentity → Bytes → FileFollower
new_follower o offset identity anchor = record {
  max_line_bytes = o.max_line_bytes;
  partial = [];
  bytes_read = 0;
  recover_line_limits = o.recover_limits;
  identity = identity;
  generation = o.option_generation;
  read_offset = offset;
  last_start = offset;
  complete_end = offset;
  origin = identity;
  origin_generation = o.option_generation;
  origin_offset = offset;
  origin_anchor = anchor;
}

-- Behind the anchor: its comparison, and the boundary.
unfoldable pub open_anchored :
    FollowerOptions
    → OpenAnswer
    → ℕ
    → Option Bytes
    → FileIdentity
    → Option Bytes
    → Result OpenError FileFollower
open_anchored o os offset anchors identity none = err anchor_failed
open_anchored o os offset anchors identity (some anchor) =
    if is_other_anchor anchors anchor
    then err (source_error (anchor_mismatch (record { identity = identity; reason = [] })))
    else if not os.seeks
    then err seek_failed
    else if not (is_boundary os.file_content offset)
    then err no_boundary
    else ok (new_follower o offset identity anchor)

module _ (hash : Bytes → Bytes) where
  unfoldable pub open_identified :
      FollowerOptions
      → OpenAnswer
      → ℕ
      → Option FileIdentity
      → Option Bytes
      → Option FileIdentity
      → Result OpenError FileFollower
  open_identified o os offset expected anchors none = err no_identity
  open_identified o os offset expected anchors (some identity) =
      if is_other expected identity
      then err generation_changed
      else if ltb (length os.file_content) offset
      then err (
          source_error (
            truncated (record {
              identity = identity;
              offset = signed_nat offset;
              size = signed_nat (length os.file_content);
            })))
      else open_anchored o os offset anchors identity (content_anchor hash os.file_content offset)

  -- `OpenFileFollowerAt`; `anchors` is the optional last argument.
  unfoldable pub open_file_follower_at :
      FollowerOptions
      → OpenAnswer
      → SignedNumber
      → Option FileIdentity
      → Option Bytes
      → Result OpenError FileFollower
  open_file_follower_at o os offset expected anchors =
      if nat_eq o.poll_interval 0
      then err no_poll_interval
      else if nat_eq o.max_line_bytes 0
      then err no_line_limit
      else if is_negative offset
      then err negative_offset
      else if not os.opens
      then err cannot_open
      else if not os.stats
      then err no_stat
      else if not os.regular
      then err not_regular
      else open_identified o os offset.magnitude expected anchors os.file_identity
