-- ===== src/Output/Sink.antt =====
-- internal/output/sink.go: the NDJSON sink. What the operating system and the encoder answer is a
-- parameter of each call; the effects of the call are returned, in order.
use aesirguard_audit.Base.{
  ℕ, Bool, true, false, not, List, [], ◌∷◌, ◌++◌, Option, none, some, if◌then◌else◌,
}

-- The errors, by the call that reports them.
pub data SinkError : Type 0 where
  stat_failed symbolic_link lstat_failed open_failed lock_failed tail_failed : SinkError
  incomplete_tail sync_failed close_failed encode_failed : SinkError

-- `NDJSONSink`: a file is named by the inode that was opened. A caller-owned writer has no file.
pub record Sink : Type 0 where
  pub file : Option ℕ
  pub has_path : Bool
  pub sync : Bool
  pub failed : Option SinkError

-- `NewWriterSink`.
unfoldable pub new_writer_sink : Sink
new_writer_sink = record { file = none; has_path = false; sync = false; failed = none }

-- What `os.Lstat` finds at the path.
pub data PathState : Type 0 where
  is_link is_missing unreadable : PathState
  is_file : Bool → PathState

-- The answers of one call: `is_file same` tells whether the path still names the opened file.
pub record Answers : Type 0 where
  pub stats : Bool
  pub at_path : PathState
  pub opened : Option ℕ
  pub locks : Bool
  pub stats_opened : Bool
  pub is_empty_file : Bool
  pub reads_tail : Bool
  pub ends_line : Bool
  pub syncs_previous : Bool
  pub closes_previous : Bool
  pub encodes : Bool
  pub syncs : Bool
  pub closes : Bool

-- The effects on files: an event is encoded to a file, or to the caller's writer.
pub data FileEffect (E : Type 0) : Type 0 where
  encode_to : Option ℕ → E → FileEffect E
  sync_of close_of : ℕ → FileEffect E

pub record SinkOutcome (E : Type 0) : Type 0 where
  pub sink : Sink
  pub effects : List (FileEffect E)
  pub failure : Option SinkError

pub data Opened : Type 0 where
  opened_file : ℕ → Opened
  rejected_file : ℕ → SinkError → Opened
  not_opened : Opened

-- `openManagedFile`; a file that is rejected is closed again.
unfoldable pub check_managed : Answers → ℕ → Opened
check_managed os file =
    if not os.locks
    then rejected_file file SinkError.lock_failed
    else if not os.stats_opened
    then rejected_file file SinkError.stat_failed
    else if os.is_empty_file
    then opened_file file
    else if not os.reads_tail
    then rejected_file file SinkError.tail_failed
    else if not os.ends_line
    then rejected_file file SinkError.incomplete_tail
    else opened_file file

abbrev open_answer : Answers → Option ℕ → Opened
open_answer os none = not_opened
open_answer os (some file) = check_managed os file

unfoldable pub open_managed_file : Answers → Opened
open_managed_file os = open_answer os os.opened

abbrev managed_sink : Bool → Opened → Option Sink
managed_sink sync (opened_file file) =
    some (record new_writer_sink { file = some file; has_path = true; sync = sync })
managed_sink sync _ = none

-- `OpenFileSink`, at a path that is not empty.
unfoldable pub open_file_sink : Answers → Bool → Option Sink
open_file_sink os sync_each_write = managed_sink sync_each_write (open_managed_file os)

abbrev join_errors : Bool → Bool → Option SinkError
join_errors false _ = some SinkError.sync_failed
join_errors true false = some SinkError.close_failed
join_errors true true = none

module _ {E : Type 0} where
  abbrev pub fails : Sink → List (FileEffect E) → SinkError → SinkOutcome E
  fails s es e = record { sink = s; effects = es; failure = some e }

  abbrev pub returns : Sink → List (FileEffect E) → SinkOutcome E
  returns s es = record { sink = s; effects = es; failure = none }

  -- The replacement of a rotated file.
  unfoldable pub replace_file : Answers → Sink → ℕ → Opened → SinkOutcome E
  replace_file os s previous not_opened = fails s [] SinkError.open_failed
  replace_file os s previous (rejected_file file e) = fails s (close_of file ∷ []) e
  replace_file os s previous (opened_file file) =
      if not os.syncs_previous
      then fails s (sync_of previous ∷ close_of file ∷ []) SinkError.sync_failed
      else record {
        sink = record s { file = some file };
        effects = sync_of previous ∷ close_of previous ∷ [];
        failure = if os.closes_previous then none else some SinkError.close_failed;
      }

  unfoldable pub reopen_at : Answers → Sink → ℕ → PathState → SinkOutcome E
  reopen_at os s file is_link = fails s [] SinkError.symbolic_link
  reopen_at os s file (is_file true) = returns s []
  reopen_at os s file (is_file false) = replace_file os s file (open_managed_file os)
  reopen_at os s file is_missing = replace_file os s file (open_managed_file os)
  reopen_at os s file unreadable = fails s [] SinkError.lstat_failed

  unfoldable pub reopen_file : Answers → Sink → Option ℕ → SinkOutcome E
  reopen_file os s none = returns s []
  reopen_file os s (some file) =
      if not s.has_path
      then returns s []
      else if not os.stats
      then fails s [] SinkError.stat_failed
      else reopen_at os s file os.at_path

  -- `reopenIfRotated`.
  unfoldable pub reopen_if_rotated : Answers → Sink → SinkOutcome E
  reopen_if_rotated os s = reopen_file os s s.file

  -- `sink.file.Sync()`, if there is a file to sync.
  unfoldable pub sync_file : Answers → Option ℕ → List (FileEffect E) × Option SinkError
  sync_file os none = ([], none)
  sync_file os (some file) =
      (sync_of file ∷ [], if os.syncs then none else some SinkError.sync_failed)

  -- Behind the encoder: the sync that each write waits for.
  unfoldable pub sync_write : Answers → Sink → List (FileEffect E) × Option SinkError
  sync_write os s = if s.sync then sync_file os s.file else ([], none)

  unfoldable pub encode_event : Answers → Sink → E → List (FileEffect E) × Option SinkError
  encode_event os s event =
      if not os.encodes
      then (encode_to s.file event ∷ [], some SinkError.encode_failed)
      else let (es, e) = sync_write os s in (encode_to s.file event ∷ es, e)

  -- What follows the reopening `o`, unless that failed.
  unfoldable pub after_reopening :
      SinkOutcome E → Option SinkError → List (FileEffect E) × Option SinkError → SinkOutcome E
  after_reopening o (some e) next = o
  after_reopening o none (es, e) = record { sink = o.sink; effects = o.effects ++ es; failure = e }

  unfoldable pub write_reopened : Answers → SinkOutcome E → E → SinkOutcome E
  write_reopened os o event = after_reopening o o.failure (encode_event os o.sink event)

  -- The deferred `sink.failed = err`.
  unfoldable pub remember : SinkOutcome E → Option SinkError → SinkOutcome E
  remember o none = o
  remember o (some e) = record o { sink = record (o.sink) { failed = some e } }

  unfoldable pub write_usable : Answers → Sink → E → SinkOutcome E
  write_usable os s event =
      let o = write_reopened os (reopen_if_rotated os s) event in remember o o.failure

  unfoldable pub write_unless : Option SinkError → Answers → Sink → E → SinkOutcome E
  write_unless (some e) os s event = fails s [] e
  write_unless none os s event = write_usable os s event

  -- `Write`.
  unfoldable pub write : Answers → Sink → E → SinkOutcome E
  write os s event = write_unless s.failed os s event

  unfoldable pub commit_usable : Answers → Sink → SinkOutcome E
  commit_usable os s =
      let o = reopen_if_rotated os s in after_reopening o o.failure (sync_file os o.sink.file)

  unfoldable pub commit_unless : Option SinkError → Answers → Sink → SinkOutcome E
  commit_unless (some e) os s = fails s [] e
  commit_unless none os s = commit_usable os s

  -- `Commit`; its own errors are not remembered.
  unfoldable pub commit : Answers → Sink → SinkOutcome E
  commit os s = commit_unless s.failed os s

  -- `Close`, on the file; of two errors that are joined, the first is kept here.
  unfoldable pub close_file : Answers → Sink → Option ℕ → SinkOutcome E
  close_file os s none = returns s []
  close_file os s (some file) = record {
    sink = record s { file = none };
    effects = if s.sync then sync_of file ∷ close_of file ∷ [] else close_of file ∷ [];
    failure = join_errors (if s.sync then os.syncs else true) os.closes;
  }

  unfoldable pub close : Answers → Sink → SinkOutcome E
  close os s = close_file os s s.file
