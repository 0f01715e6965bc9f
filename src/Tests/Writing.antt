-- ===== src/Tests/Writing.antt =====
-- The sink: the theorems applied.
use aesirguard_audit.Base.{ℕ, true, false, List, [], ◌∷◌, none, some, ◌≡◌, refl}
use aesirguard_audit.Output.Sink.{
  Sink, Answers, is_file, encode_to, write, reopen_if_rotated, write_unless, write_usable,
  write_reopened, after_reopening, encode_event, sync_write, sync_file, remember, reopen_file,
  reopen_at, replace_file, open_managed_file, check_managed, sync_of, close_of,
}
use aesirguard_audit.Output.Landing.{write-current_file}
use aesirguard_audit.Output.Delivery.{run_writes, IsExact, run_writes-IsExact}

abbrev pub fine : Answers
fine = record {
  stats = true;
  at_path = is_file true;
  opened = none;
  locks = true;
  stats_opened = true;
  is_empty_file = true;
  reads_tail = true;
  ends_line = true;
  syncs_previous = true;
  closes_previous = true;
  encodes = true;
  syncs = true;
  closes = true;
}

abbrev event : ℕ
event = 42

abbrev pub managed : Sink
managed = record { file = some 3; has_path = true; sync = true; failed = none }

-- The file was renamed away, and a new one is at the path.
abbrev rotated : Answers
rotated = record fine { at_path = is_file false; opened = some 4 }

rotated_reports_none : (write rotated managed event).failure ≡ none
unfolding write write_unless write_usable write_reopened reopen_if_rotated reopen_file reopen_at
    replace_file open_managed_file check_managed after_reopening encode_event sync_write sync_file
    remember
rotated_reports_none = refl

write-current_file_example :
    (managed.failed ≡ none)
    × ((write rotated managed event).effects
        ≡ sync_of 3 ∷ close_of 3 ∷ encode_to (some 4) event ∷ sync_of 4 ∷ [])
    × ((write rotated managed event).sink.file ≡ some 4)
    × ((write rotated managed event).sink.failed ≡ none)
write-current_file_example = write-current_file rotated managed event rotated_reports_none

-- The second write cannot be encoded.
abbrev three_writes : List (Answers × ℕ)
three_writes = (fine, 1) ∷ (record fine { encodes = false }, 2) ∷ (fine, 3) ∷ []

run_writes-IsExact_example :
    IsExact (run_writes three_writes managed).0 (run_writes three_writes managed).1
run_writes-IsExact_example = run_writes-IsExact three_writes managed
