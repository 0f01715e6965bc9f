-- ===== src/Rotation/Next.antt =====
-- `Next` of internal/collector/rotation.go, with the switch to the next generation. What the operating
-- system and the clock answer during one call is a parameter.
use aesirguard_audit.Base.{
  ℕ, ◌+◌, ◌%◌, ◌^◌, Bool, true, false, ◌&&◌, ◌||◌, not, List, [], ◌∷◌, Option, none, some, Bytes,
  nat_eq, ltb, length, if◌then◌else◌,
}
use aesirguard_audit.Parser.Fields.{Result, ok, err, ◌>>=◌}
use aesirguard_audit.Collector.Ledger.{FileIdentity}
use aesirguard_audit.Follower.Lines.{
  FileFollower, Next, got_line, idle, go_on, failed_with, next_source, transfer_partial_to,
  has_partial,
}
use aesirguard_audit.Follower.Opening.{
  OpenAnswer, OpenError, signed_nat, identity_eq, open_file_follower_at,
}
use aesirguard_audit.Rotation.Candidates.{
  SourceCandidate, RotationError, no_size, no_path_stat, unidentified, line_exceeds, not_closed,
  open_failure, read_failure, DirEntry,
}
use aesirguard_audit.Rotation.State.{
  RotatingFollower, PathAnswer, RotationAnswers, Turn, reset_drain, position_of_line, report, line,
  tick, still_reading, panic, failed, path_missing, path_unreadable, path_unidentified, path_found,
}
use aesirguard_audit.Rotation.Queue.{find_from, gap_at, discovered, refresh_queue, truncated_to}

-- `stableForSwitch`.
unfoldable pub stable_for_switch :
    Option ℕ → ℕ → FileIdentity → RotatingFollower → RotatingFollower × Result RotationError Bool
stable_for_switch none now next f = (f, err no_size)
stable_for_switch (some size) now next f =
    if ltb size f.current.read_offset
    then (f, err (truncated_to f.current f.current.identity size))
    else if not (identity_eq next f.pending_identity) || not (nat_eq size f.drain_size)
    then (record f { pending_identity = next; drain_size = size; drain_started = now }, ok false)
    else if ltb now (f.drain_started + f.drain_interval)
    then (f, ok false)
    else (f, ok true)

abbrev found_or_gap :
    FileIdentity
    → Option (SourceCandidate × List SourceCandidate)
    → Result RotationError SourceCandidate
found_or_gap identity none = err (gap_at identity)
found_or_gap identity (some (c, _)) = ok c

-- `findCandidate`.
unfoldable pub find_candidate :
    Option (List DirEntry) → FileIdentity → RotatingFollower → Result RotationError SourceCandidate
find_candidate listing identity f =
    discovered listing f >>= λ cs. found_or_gap identity (find_from identity cs)

abbrev pub next_generation : RotatingFollower → ℕ
next_generation f = (f.current.generation + 1) % 2 ^ 64

abbrev pub lift_open : Result OpenError FileFollower → Result RotationError FileFollower
lift_open (ok f) = ok f
lift_open (err e) = err (open_failure e)

-- Behind the transfer of the open line.
unfoldable pub enter :
    Bool
    → Bool
    → SourceCandidate
    → RotatingFollower
    → FileFollower × FileFollower
    → RotatingFollower × Option RotationError
enter closes had_partial c f (old, next) =
    if not closes then (record f { current = old }, some not_closed) else (
      record f {
        current = next;
        current_at_path = c.current;
        rotation_count = (f.rotation_count + 1) % 2 ^ 64;
        complete = if had_partial then f.complete else record {
          at_identity = c.identity;
          at_generation = next_generation f;
          at_anchor = next.origin_anchor;
          at_offset = 0;
        };
      },
      none,
    )

unfoldable pub transfer_to :
    Bool
    → SourceCandidate
    → RotatingFollower
    → Option (FileFollower × FileFollower)
    → RotatingFollower × Option RotationError
transfer_to closes c f none = (f, some line_exceeds)
transfer_to closes c f (some pair) = enter closes (has_partial f.current) c f pair

unfoldable pub switch_opened :
    Bool
    → RotatingFollower
    → Result RotationError (SourceCandidate × FileFollower)
    → RotatingFollower × Option RotationError
switch_opened closes f (err e) = (f, some e)
switch_opened closes f (ok (c, next)) = transfer_to closes c f (transfer_partial_to f.current next)

module _ (hash : Bytes → Bytes) where
  unfoldable pub open_candidate :
      OpenAnswer
      → RotatingFollower
      → SourceCandidate
      → Result RotationError (SourceCandidate × FileFollower)
  open_candidate os f c =
      lift_open (
        open_file_follower_at hash (record f.options { option_generation = next_generation f }) os
          (signed_nat 0) (some c.identity) none)
      >>= λ next. ok (c, next)

  -- A candidate that cannot be opened is looked for once more.
  unfoldable pub or_resolved :
      RotationAnswers
      → RotatingFollower
      → SourceCandidate
      → Result RotationError (SourceCandidate × FileFollower)
      → Result RotationError (SourceCandidate × FileFollower)
  or_resolved os f c (ok x) = ok x
  or_resolved os f c (err _) =
      find_candidate os.listing_again c.identity f >>= open_candidate os.opened_again f

  -- `switchTo`.
  unfoldable pub switch_to :
      RotationAnswers → SourceCandidate → RotatingFollower → RotatingFollower × Option RotationError
  switch_to os c f = switch_opened os.closes f (or_resolved os f c (open_candidate os.opened f c))

  unfoldable pub after_switch :
      List SourceCandidate → RotatingFollower × Option RotationError → RotatingFollower × Turn
  after_switch cs (f, some e) = (f, report e)
  after_switch cs (f, none) = (reset_drain (record f { queued = cs }), tick)

  unfoldable pub when_stable :
      RotationAnswers
      → SourceCandidate
      → List SourceCandidate
      → RotatingFollower × Result RotationError Bool
      → RotatingFollower × Turn
  when_stable os c cs (f, err e) = (f, failed e)
  when_stable os c cs (f, ok false) = (f, tick)
  when_stable os c cs (f, ok true) = after_switch cs (switch_to os c f)

  -- `follower.queued[0]`, and the switch to it.
  unfoldable pub switch_first :
      RotationAnswers → List SourceCandidate → RotatingFollower → RotatingFollower × Turn
  switch_first os [] f = (f, panic)
  switch_first os (c ∷ cs) f = when_stable os c cs (stable_for_switch os.size os.now c.identity f)

  unfoldable pub after_refresh :
      RotationAnswers → RotatingFollower × Option RotationError → RotatingFollower × Turn
  after_refresh os (f, some e) = (f, report e)
  after_refresh os (f, none) = switch_first os f.queued f

  unfoldable pub after_queue_refresh :
      RotationAnswers → RotatingFollower × Option RotationError → RotatingFollower × Turn
  after_queue_refresh os (f, some e) = (f, report e)
  after_queue_refresh os (f, none) =
      if f.current_at_path then (f, tick) else switch_first os f.queued f

  abbrev pub tick_or_report : RotatingFollower × Option RotationError → RotatingFollower × Turn
  tick_or_report (f, some e) = (f, report e)
  tick_or_report (f, none) = (f, tick)

  unfoldable pub at_path : RotationAnswers → PathAnswer → RotatingFollower → RotatingFollower × Turn
  at_path os path_missing f = (f, tick)
  at_path os path_unreadable f = (f, failed no_path_stat)
  at_path os path_unidentified f = (f, failed unidentified)
  at_path os (path_found identity size) f =
      if identity_eq identity f.current.identity
      then (
        reset_drain (record f { queued = [] }),
        if ltb size f.current.read_offset
            then failed (truncated_to f.current identity size)
            else tick,
      )
      else after_refresh os (refresh_queue os.listing f)

  unfoldable pub at_idle : RotationAnswers → RotatingFollower → RotatingFollower × Turn
  at_idle os f =
      if not (nat_eq (length f.queued) 0) && not f.current_at_path
      then after_queue_refresh os (refresh_queue os.listing f)
      else if not f.current_at_path
      then tick_or_report (refresh_queue os.listing f)
      else at_path os os.path f

  unfoldable pub after_read : RotationAnswers → RotatingFollower → Next → RotatingFollower × Turn
  after_read os f (got_line l) = (record f { complete = position_of_line l }, line l)
  after_read os f (failed_with e) = (f, failed (read_failure e))
  after_read os f go_on = (f, still_reading)
  after_read os f idle = at_idle os f

  -- `Next`.
  unfoldable pub next : RotationAnswers → RotatingFollower → RotatingFollower × Turn
  next os f =
      let (g, rest, x) = next_source hash os.reads f.current in
      after_read os (record f { current = g }) x
