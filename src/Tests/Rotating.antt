-- ===== src/Tests/Rotating.antt =====
-- The generations of a rotated input: the theorems applied.
use aesirguard_audit.Base.{
  true, false, List, [], ◌∷◌, none, some, codes, ◌≡◌, ◌↔◌, refl, arith, bytes_eq, inl, inr,
}
use aesirguard_audit.Base.Sort.{sort_by, insert_by}
use aesirguard_audit.Collector.Ledger.{FileIdentity}
use aesirguard_audit.Parser.Fields.{ok}
use aesirguard_audit.Parser.Text.{after_prefix, before_suffix}
use aesirguard_audit.Assembler.Time.{all_digits, digits_value, parse_decimal}
use aesirguard_audit.Follower.Lines.{
  at_end, next_source, go_on_unless, read_round, unless_failed, absorb, after_fragment,
}
use aesirguard_audit.Follower.Opening.{OpenAnswer, identity_eq}
use aesirguard_audit.Rotation.Candidates.{
  SourceCandidate, DirEntry, regular_file, rotation_number, is_compressed_rotation,
  is_excluded_path, add_candidate, add_entry, add_entries, ambiguous, is_ambiguous, older, age_rank,
  order_candidates, discover_candidates, validate_generation_chain,
}
use aesirguard_audit.Rotation.Ages.{Generations}
use aesirguard_audit.Rotation.Order.{ListedOnce, discover_candidates-Generations}
use aesirguard_audit.Rotation.Chain.{Counted, validate_generation_chain-Counted}
use aesirguard_audit.Rotation.State.{
  RotatingFollower, RotationAnswers, path_found, zero_identity, panic,
}
use aesirguard_audit.Rotation.Queue.{find_from}
use aesirguard_audit.Rotation.Next.{next}
use aesirguard_audit.Rotation.Opening.{contiguous}
use aesirguard_audit.Rotation.Invariant.{IsAligned}
use aesirguard_audit.Rotation.Aligned.{next-IsAligned}
use aesirguard_audit.Rotation.Panic.{Races, came_back, IsIdle, next-panic}
use aesirguard_audit.Rotation.Position.{start_of_line}
use aesirguard_audit.Rotation.Suffix.{IsLongest, contiguous-IsLongest}
use aesirguard_audit.Tests.Following.{plain_hash, first_file, eight_bytes, fresh}

abbrev second_file : FileIdentity
second_file = record { device = 1; inode = 9 }

abbrev third_file : FileIdentity
third_file = record { device = 1; inode = 7 }

-- The number 2 is missing.
abbrev listing : List DirEntry
listing =
    record { name = codes "a.log"; kind = regular_file first_file }
    ∷ record { name = codes "a.log.1"; kind = regular_file second_file }
    ∷ record { name = codes "a.log.3"; kind = regular_file third_file }
    ∷ []

abbrev found : List SourceCandidate
found =
    record { path = codes "/v/a.log.3"; identity = third_file; current = false; number = some 3 }
    ∷ record { path = codes "/v/a.log.1"; identity = second_file; current = false; number = some 1 }
    ∷ record { path = codes "/v/a.log"; identity = first_file; current = true; number = none }
    ∷ []

discovering : discover_candidates (codes "/v") (codes "a.log") [] (some listing) ≡ ok found
unfolding discover_candidates add_entries add_entry add_candidate rotation_number after_prefix
    before_suffix is_compressed_rotation is_excluded_path all_digits parse_decimal order_candidates
    is_ambiguous ambiguous sort_by insert_by age_rank older identity_eq bytes_eq
discovering = refl

listed_once : ListedOnce (codes "a.log") (some listing)
unfolding bytes_eq
listed_once = omega arith

discover_candidates-Generations_example : Generations found
discover_candidates-Generations_example =
    discover_candidates-Generations (codes "/v") (codes "a.log") [] (some listing) found discovering
      listed_once

found-Generations : Generations found
found-Generations = (refl, inr (omega arith), (refl, inl refl, refl))

validate_generation_chain-Counted_example : (validate_generation_chain found ≡ none) ↔ Counted found
validate_generation_chain-Counted_example =
    validate_generation_chain-Counted found found-Generations

contiguous-IsLongest_example : IsLongest found (contiguous found)
contiguous-IsLongest_example = contiguous-IsLongest found found-Generations

-- The open file is the one that the input path names.
abbrev following : RotatingFollower
following = record {
  directory = codes "/v";
  base = codes "a.log";
  excluded = [];
  options = eight_bytes;
  drain_interval = 5;
  current = fresh;
  current_at_path = true;
  queued = [];
  complete = start_of_line fresh;
  rotation_count = 0;
  pending_identity = zero_identity;
  drain_started = 0;
  drain_size = 0;
}

abbrev unopened : OpenAnswer
unopened = record {
  opens = false;
  stats = false;
  regular = false;
  file_identity = none;
  file_content = [];
  seeks = false;
}

-- Nothing to read, and another file at the path, which the listing does not find there any more.
abbrev renamed_back : RotationAnswers
renamed_back = record {
  reads = record { cancelled = false; fragment = []; status = at_end false; content = [] } ∷ [];
  listing = some listing;
  listing_again = some listing;
  size = some 0;
  path = path_found second_file 4;
  now = 100;
  opened = unopened;
  opened_again = unopened;
  closes = true;
}

next-IsAligned_example : IsAligned (next plain_hash renamed_back following).0
next-IsAligned_example =
    next-IsAligned plain_hash renamed_back following (record { counted = refl; at_start = refl })

next-panic_example : ((next plain_hash renamed_back following).1 ≡ panic) ↔ (
    let g : RotatingFollower = record following {
      current = (next_source plain_hash renamed_back.reads following.current).0;
    } in
    IsIdle (next_source plain_hash renamed_back.reads following.current).2
    × (following.current_at_path ≡ true)
    × Races g.current.identity (came_back renamed_back g) renamed_back.path)
next-panic_example = next-panic plain_hash renamed_back following

-- The open file is back at its path when the directory is listed.
indexes_nothing : (next plain_hash renamed_back following).1 ≡ panic
unfolding next_source go_on_unless read_round unless_failed absorb after_fragment
    discover_candidates add_entries add_entry add_candidate rotation_number after_prefix
    before_suffix is_compressed_rotation is_excluded_path all_digits digits_value parse_decimal
    order_candidates is_ambiguous ambiguous sort_by insert_by age_rank older find_from identity_eq
    bytes_eq
indexes_nothing = (next-panic plain_hash renamed_back following).1 (tt, refl, (refl, refl))
