-- ===== src/Command/Checks.antt =====
-- The checks of `parseOptions` in cmd/ag-audit/main.go. Whether two paths name one file is a parameter.
use aesirguard_audit.Base.{
  Bool, ◌&&◌, ◌||◌, not, List, [], ◌∷◌, Option, none, some, ◌==◌, Bytes, bytes_equality, nat_eq,
  if◌then◌else◌,
}
use aesirguard_audit.Parser.Values.{SignedNumber, is_negative}
use aesirguard_audit.Command.Options.{
  CommandOptions, OptionError, check_without_config, follow_without_path, lock_without_follow,
  checkpoint_without_follow, sync_without_file, not_positive, negative_heartbeat, bad_limits,
  same_input_output, same_input_lock, same_output_lock, same_input_checkpoint,
  same_output_checkpoint, same_lock_checkpoint,
}

abbrev pub is_positive : SignedNumber → Bool
is_positive n = not (is_negative n) && not (nat_eq n.magnitude 0)

abbrev pub is_set : Bytes → Bool
is_set path = not (path == [])

-- The first check that fails.
abbrev pub first_failure : List (Bool × OptionError) → Option OptionError
first_failure [] = none
first_failure ((fails, e) ∷ rest) = if fails then some e else first_failure rest

-- The checks behind the flags of `parseOptions`, in order, each with whether it fails.
abbrev pub option_checks : (Bytes → Bytes → Bool) → CommandOptions → List (Bool × OptionError)
option_checks same o =
    (o.check_config && not (is_set o.config_path), check_without_config)
    ∷ (o.follow && not (is_set o.input_path), follow_without_path)
    ∷ (is_set o.lock_path && not o.follow, lock_without_follow)
    ∷ (is_set o.checkpoint_path && not o.follow, checkpoint_without_follow)
    ∷ (o.sync_output && not (is_set o.output_path), sync_without_file)
    ∷ (
      not (is_positive o.poll_interval)
          || not (is_positive o.event_timeout)
          || not (is_positive o.checkpoint_interval)
          || not (is_positive o.rotation_drain),
      not_positive,
    )
    ∷ (is_negative o.heartbeat_interval, negative_heartbeat)
    ∷ (
      not (is_positive o.max_line_bytes)
          || not (is_positive o.max_pending_events)
          || not (is_positive o.max_records_per_event)
          || not (is_positive o.max_pending_bytes),
      bad_limits,
    )
    ∷ (
      is_set o.input_path && is_set o.output_path && same o.input_path o.output_path,
      same_input_output,
    )
    ∷ (is_set o.lock_path && same o.input_path o.lock_path, same_input_lock)
    ∷ (
      is_set o.lock_path && is_set o.output_path && same o.output_path o.lock_path,
      same_output_lock,
    )
    ∷ (
      is_set o.input_path && is_set o.checkpoint_path && same o.input_path o.checkpoint_path,
      same_input_checkpoint,
    )
    ∷ (
      is_set o.output_path && is_set o.checkpoint_path && same o.output_path o.checkpoint_path,
      same_output_checkpoint,
    )
    ∷ (
      is_set o.lock_path && is_set o.checkpoint_path && same o.lock_path o.checkpoint_path,
      same_lock_checkpoint,
    )
    ∷ []

unfoldable pub check_options : (Bytes → Bytes → Bool) → CommandOptions → Option OptionError
check_options same o = first_failure (option_checks same o)
