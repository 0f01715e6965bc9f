-- ===== src/Lib.antt =====
-- aesirguard-audit: a collector that reads Linux Audit records, groups them into events and writes
-- the events as NDJSON. This library models the parts that decide whether a record is lost,
-- duplicated, reordered or misread; the list of results below says what is proved of them.
--
-- How the program is put together. A follower (internal/collector/follower.go) reads physical lines
-- from a file that grows; when the file is renamed away, rotation.go drains it and goes on with the
-- next generation. The event processor (cmd/ag-audit/main.go) hands each line to `ParseRecord`
-- (internal/audit/parser.go). The assembler (internal/audit/assembler.go and
-- isolation.go) groups the records, which arrive interleaved, by Audit ID and node, and returns
-- events when a terminator, the stream's clock, an inactivity timeout, a limit or a flush closes
-- them. The fields of an event are decoded (decoding.go, conflicts.go, results.go, argv.go) and the
-- sink (internal/output/sink.go) writes it. The checkpoint writer of main.go saves a position behind
-- the sink's commit, from which a restart reads what is still pending again; when the
-- source has a gap, the write-ahead ledger of cmd/ag-audit/gap_recovery.go and
-- internal/collector/recovery.go carries the recovery over a crash.
--
-- The files:
--   * Base: shared names, Boolean tests, lists, maps as association lists, sorting, hexadecimal.
--   * Record: the data of parser.go. Parser: `parseFields` (Fields), `ParseRecord` (Envelope), the
--     AVC normaliser (Payload), `recordValue` and `parseExecArgKey` (Values), and what is proved of
--     them in Progress, Consistency, Agreement, Printing and RoundTrip.
--   * Assembler: State is `Assembler`; Time is `auditTimeFromID`; Clock `observeAuditTime`; Expiry
--     `finish`, `expired`, `expireRejected`, `orderedEvents` and the flushes; Add `addAt`; Isolation
--     `AddRecovering`; Reject `RejectPhysicalLine`; Replay `SafeSourcePosition`. Accounts, Delivery,
--     Admission, Conservation, Exceptions, Recovery and LineLimit follow each record; Shrinking,
--     Bounds, RecoveryBounds and LineLimitSizes the limits; Tracking, Untouched, RejectedKeys and
--     LineLimitBounds the metadata of rejected keys; Order the order of events; Runs puts whole
--     streams together and Operations any calls in any order.
--   * Semantics: Decoding, Conflicts, Results and Argv for the files of those names; Recognised,
--     Unanimity, Verdict and Aliases are about the first three, Contradictions, Noted, Recorded and
--     Arguments about argv.go.
--   * Collector: Checkpoint and Ledger are the states and their `Validate`; Recovery is `prepare`,
--     `pending` and `commit`; Window and Validity keep the ledger valid; Crash and Evidence are about
--     restarts.
--   * Output: Sink is the NDJSON sink, Reopening and Delivery what its writes promise, Landing in
--     which file a line lands; Durable tells which files hold lines that are not synced.
--   * Follower: Anchor is `ContentAnchor`, Lines `NextSource` and `transferPartialTo`, Opening
--     `OpenFileFollowerAt`. Split is the stream cut at its newlines, which Holding and Fragments
--     compare with; Transfer and Resuming are about the handover of an open line and a restart.
--   * Rotation: Candidates is `discoverCandidates` and `validateGenerationChain`; State, Queue and
--     Next are `RotatingFollower` and its `Next`; Opening the two ways to open it, `CaughtUp` and
--     `LagBytes`. Ages, Order, Chain and Suffix are about generations; Position, Invariant, Entering
--     and Aligned about the position; Refreshed and Panic about an empty queue.
--   * Command: Options and Checks are config.go and `parseOptions`, Ready what the checks are good
--     for; Processor is `eventProcessor`, Checkpoints `checkpointWriter`, Loop the turns of
--     `runFollower`. Shown, Handling, Conserves and Session follow each record from the line to the
--     output; Closed is the interface by which a property of one write holds of every call, which
--     Healthy and Durable fill; Saves, Keeping, Turns and Covering are about the checkpoints.
--   * Tests: concrete inputs.
--
-- How the code is represented. A Go string is a list of bytes. A Go map is an association list with
-- distinct keys, whose order stands for the order of one `range`; theorems hold for every order. A
-- time is the number of nanoseconds since Go's zero time, so `IsZero` is equality with 0, and a
-- timeout that is not positive is 0. `int` counters that count what is in memory do not wrap;
-- `nextSequence` (uint64) does. A subtraction `limit - used` is written as an addition on the other
-- side. Errors are constructors of the model's own types; their texts are not modelled. The answers
-- of the operating system, of JSON encoding and of `strconv.Quote` are parameters, and so are SHA-256,
-- `time.ParseDuration` and the test whether two paths name one file. The reader of a file is a list of
-- fragments with what `ReadSlice` says of each; a call that runs out of them is still reading. An
-- index out of range is a constructor of the result. Offsets in a file stay below 2^63. A written
-- event is named by the call that builds it.
--
-- Fuel: `parseFields` runs on fuel, the length of the line and one more, and `trim_by` of
-- Parser/Payload, which trims white space, on the length of the string; each round of either takes at
-- least one byte, or is the last.
--
-- Not modelled: system calls and file formats, package flag, the start of `runFollower` and its branch
-- for source gaps, the batch loop, the canonical event and its rendering, and the texts and times of
-- diagnostics.
pub mod Base
pub mod Record
pub mod Assembler
pub mod Parser
pub mod Semantics
pub mod Collector
pub mod Follower
pub mod Rotation
pub mod Command
pub mod Output
pub mod Tests
