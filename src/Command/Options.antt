-- ===== src/Command/Options.antt =====
-- `commandOptions` of cmd/ag-audit/main.go, and config.go. What `time.ParseDuration` reads is a
-- parameter; package flag is not modelled.
use aesirguard_audit.Base.{
  ℕ, ◌*◌, Bool, false, ◌||◌, not, List, [], ◌∷◌, Option, none, some, ◌==◌, Bytes, bytes_equality,
  codes, nat_eq, if◌then◌else◌,
}
use aesirguard_audit.Parser.Text.{after_prefix}
use aesirguard_audit.Parser.Values.{SignedNumber}
use aesirguard_audit.Parser.Fields.{Result, ok, err, ◌>>=◌}
use aesirguard_audit.Follower.Opening.{signed_nat}

-- `commandOptions`.
pub record CommandOptions : Type 0 where
  pub input_path : Bytes
  pub source_host : Bytes
  pub output_path : Bytes
  pub lock_path : Bytes
  pub checkpoint_path : Bytes
  pub follow : Bool
  pub render_message : Bool
  pub sync_output : Bool
  pub poll_interval : SignedNumber
  pub event_timeout : SignedNumber
  pub max_line_bytes : SignedNumber
  pub max_pending_events : SignedNumber
  pub max_records_per_event : SignedNumber
  pub max_pending_bytes : SignedNumber
  pub checkpoint_interval : SignedNumber
  pub rotation_drain : SignedNumber
  pub heartbeat_interval : SignedNumber
  pub config_path : Bytes
  pub check_config : Bool
  pub show_version : Bool

abbrev pub milliseconds : ℕ → SignedNumber
milliseconds n = signed_nat (n * 1000000)

-- The defaults, in nanoseconds and bytes.
abbrev pub default_options : Bytes → CommandOptions
default_options config_path = record {
  input_path = [];
  source_host = [];
  output_path = [];
  lock_path = [];
  checkpoint_path = [];
  follow = false;
  render_message = false;
  sync_output = false;
  poll_interval = milliseconds 200;
  event_timeout = milliseconds 2000;
  max_line_bytes = signed_nat (1024 * 1024);
  max_pending_events = signed_nat 4096;
  max_records_per_event = signed_nat 256;
  max_pending_bytes = signed_nat (64 * 1024 * 1024);
  checkpoint_interval = milliseconds 1000;
  rotation_drain = milliseconds 500;
  heartbeat_interval = milliseconds 600000;
  config_path = config_path;
  check_config = false;
  show_version = false;
}

-- `fileConfig` and its sections, decoded, of the one version that is supported.
pub record FileConfig : Type 0 where
  pub path : Bytes
  pub follow_input : Bool
  pub host : Bytes
  pub lock_file : Bytes
  pub sink_file : Bytes
  pub sink_sync : Bool
  pub checkpoint_file : Bytes
  pub interval : Bytes
  pub poll : Bytes
  pub timeout : Bytes
  pub drain_interval : Bytes
  pub line_bytes : SignedNumber
  pub pending_events : SignedNumber
  pub records_per_event : SignedNumber
  pub pending_bytes : SignedNumber
  pub render : Bool
  pub heartbeat : Bytes

-- The settings that hold a duration, and the errors of the command line.
pub data OptionError : Type 0 where
  bad_checkpoint_interval bad_poll_interval bad_event_timeout bad_drain bad_heartbeat : OptionError
  no_config_path config_twice check_without_config follow_without_path lock_without_follow :
      OptionError
  checkpoint_without_follow sync_without_file not_positive negative_heartbeat bad_limits :
      OptionError
  same_input_output same_input_lock same_output_lock same_input_checkpoint : OptionError
  same_output_checkpoint same_lock_checkpoint : OptionError

-- `configuredDuration`.
abbrev pub configured_duration :
    (Bytes → Option SignedNumber)
    → OptionError
    → Bytes
    → SignedNumber
    → Result OptionError SignedNumber
configured_duration parse e value fallback =
    if value == [] then ok fallback else elim (parse value) [ none ↦ err e | some d ↦ ok d ]

-- `applyPositiveInt`.
abbrev pub apply_positive_int : SignedNumber → SignedNumber → SignedNumber
apply_positive_int value target = if nat_eq value.magnitude 0 then target else value

-- `apply`.
unfoldable pub apply_config :
    (Bytes → Option SignedNumber) → FileConfig → CommandOptions → Result OptionError CommandOptions
apply_config parse c o = do
  checkpoint ← configured_duration parse bad_checkpoint_interval c.interval o.checkpoint_interval
  poll ← configured_duration parse bad_poll_interval c.poll o.poll_interval
  timeout ← configured_duration parse bad_event_timeout c.timeout o.event_timeout
  drain ← configured_duration parse bad_drain c.drain_interval o.rotation_drain
  heartbeat ← configured_duration parse bad_heartbeat c.heartbeat o.heartbeat_interval
  ok (record o {
    input_path = c.path;
    follow = c.follow_input;
    source_host = c.host;
    lock_path = c.lock_file;
    output_path = c.sink_file;
    sync_output = c.sink_sync;
    checkpoint_path = c.checkpoint_file;
    render_message = c.render;
    checkpoint_interval = checkpoint;
    poll_interval = poll;
    event_timeout = timeout;
    rotation_drain = drain;
    heartbeat_interval = heartbeat;
    max_line_bytes = apply_positive_int c.line_bytes o.max_line_bytes;
    max_pending_events = apply_positive_int c.pending_events o.max_pending_events;
    max_records_per_event = apply_positive_int c.records_per_event o.max_records_per_event;
    max_pending_bytes = apply_positive_int c.pending_bytes o.max_pending_bytes;
  })

-- The path of an option, unless one is there already or it is empty.
abbrev pub first_path : Bytes → Bytes → Result OptionError Bytes
first_path path next =
    if not (path == [])
    then err config_twice
    else if next == []
    then err no_config_path
    else ok next

-- The path of `--config=path` or `-config=path`; no argument starts with both.
abbrev pub joined_path : Bytes → Option Bytes
joined_path argument = elim (after_prefix (codes "--config=") argument) [
  | some rest ↦ some rest
  | none ↦ after_prefix (codes "-config=") argument
]

abbrev pub with_joined : Bytes → Option Bytes → Result OptionError Bytes
with_joined path none = ok path
with_joined path (some next) = first_path path next

abbrev pub is_config : Bytes → Bool
is_config argument = argument == codes "--config" || argument == codes "-config"

-- `bootstrapConfigPath`, with the path found so far.
unfoldable pub scan_arguments : Bytes → List Bytes → Result OptionError Bytes
scan_arguments path [] = ok path
scan_arguments path (argument ∷ []) =
    if argument == codes "--"
    then ok path
    else if is_config argument
    then err no_config_path
    else with_joined path (joined_path argument)
scan_arguments path (argument ∷ value ∷ rest) =
    let separate = (first_path path value >>= λ p. scan_arguments p rest) in
    let other =
      (with_joined path (joined_path argument) >>= λ p. scan_arguments p (value ∷ rest)) in
    if argument == codes "--" then ok path else if is_config argument then separate else other

unfoldable pub bootstrap_config_path : List Bytes → Result OptionError Bytes
bootstrap_config_path arguments = scan_arguments [] arguments
