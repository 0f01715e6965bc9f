-- ===== src/Tests/Following.antt =====
-- The follower: the theorems applied.
use aesirguard_audit.Base.{
  true, false, List, [], ◌∷◌, some, Bytes, codes, ◌≡◌, refl, sym, arith, bytes_eq, Bool,
}
use aesirguard_audit.Base.Hex.{encode_hex, hex_digit}
use aesirguard_audit.Collector.Ledger.{FileIdentity}
use aesirguard_audit.Parser.Fields.{ok}
use aesirguard_audit.Follower.Anchor.{content_anchor, windows, window_size}
use aesirguard_audit.Follower.Lines.{
  FollowerOptions, FileFollower, Read, full_line, buffer_full, at_end, next_source,
}
use aesirguard_audit.Follower.Split.{AreReads, stream}
use aesirguard_audit.Follower.Holding.{next_call, Holds, take-nil}
use aesirguard_audit.Follower.Fragments.{Follows, next_source-Follows}
use aesirguard_audit.Follower.Opening.{
  OpenAnswer, signed_nat, identity_eq, is_boundary, new_follower, open_anchored, open_identified,
  open_file_follower_at,
}
use aesirguard_audit.Follower.Resuming.{Resumes, open_file_follower_at-Resumes}

abbrev pub plain_hash : Bytes → Bytes
plain_hash s = s

abbrev pub first_file : FileIdentity
first_file = record { device = 1; inode = 10 }

abbrev pub eight_bytes : FollowerOptions
eight_bytes = record {
  poll_interval = 1;
  max_line_bytes = 8;
  option_generation = 0;
  recover_limits = true;
}

abbrev pub fresh : FileFollower
fresh = new_follower eight_bytes 0 first_file []

-- The second line is longer than the limit, and the third one is open.
abbrev content : Bytes
content = codes "ab\n0123456789\nx"

abbrev reads : List Read
reads =
    record { cancelled = false; fragment = codes "ab"; status = buffer_full; content = content }
    ∷ record { cancelled = false; fragment = codes "\n"; status = full_line; content = content }
    ∷ record {
      cancelled = false;
      fragment = codes "0123456789\n";
      status = full_line;
      content = content;
    }
    ∷ record { cancelled = false; fragment = codes "x"; status = at_end false; content = content }
    ∷ []

fresh-Holds : Holds [] fresh
fresh-Holds = record { prefix = sym (take-nil 8); counted = refl; recovers = refl }

reads-AreReads : AreReads 0 reads
reads-AreReads = (
  refl,
  (refl, (refl, tt)),
  omega arith,
  (
    refl,
    ([], refl, tt),
    omega arith,
    (
      refl,
      (
        codes "0123456789",
        refl,
        (refl, (refl, (refl, (refl, (refl, (refl, (refl, (refl, (refl, (refl, tt)))))))))),
      ),
      omega arith,
      (refl, (refl, tt), omega arith, tt),
    ),
  ),
)

next_source-Follows_example :
    Follows [] (stream reads) fresh (next_call plain_hash (next_source plain_hash reads fresh))
next_source-Follows_example =
    next_source-Follows plain_hash reads [] fresh fresh-Holds reads-AreReads (omega arith)

abbrev pub reopened : OpenAnswer
reopened = record {
  opens = true;
  stats = true;
  regular = true;
  file_identity = some first_file;
  file_content = content;
  seeks = true;
}

-- The anchor of the first line.
abbrev anchor : Bytes
anchor = codes "61620a61620a"

abbrev resumed : FileFollower
resumed = new_follower eight_bytes 3 first_file anchor

reopening :
    open_file_follower_at plain_hash eight_bytes reopened
      (signed_nat 3)
      (some first_file)
      (some anchor)
    ≡ ok resumed
unfolding open_file_follower_at open_identified open_anchored identity_eq content_anchor windows
    window_size encode_hex hex_digit is_boundary bytes_eq
reopening = refl

open_file_follower_at-Resumes_example :
    ◌≡◌ {A = Bool} false false
    × Resumes plain_hash content 3 (some first_file) (some anchor) resumed
open_file_follower_at-Resumes_example =
    open_file_follower_at-Resumes plain_hash eight_bytes reopened (signed_nat 3) (some first_file)
      (some anchor) resumed reopening
