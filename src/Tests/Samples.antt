-- ===== src/Tests/Samples.antt =====
-- Records, assemblers and streams for the tests.
use aesirguard_audit.Base.{
  ℕ, false, List, [], ◌∷◌, none, Bytes, bytes_equality, codes, ◌==◌, refl, arith, bytes_eq_iff,
  if◌then◌else◌,
}
use aesirguard_audit.Base.Maps.{lookup}
use aesirguard_audit.Record.{Record, zero_position}
use aesirguard_audit.Assembler.State.{
  Assembler, AssemblerLimits, PendingEvent, CorrelationKey, key_equality,
}
use aesirguard_audit.Assembler.Accounts.{IsAccounted}
use aesirguard_audit.Assembler.Bounds.{IsBounded}
use aesirguard_audit.Assembler.Tracking.{IsTracked}
use aesirguard_audit.Assembler.Runs.{SkipsEoe}

abbrev pub sample : Bytes → Bytes → Record
sample record_type id = record {
  raw = [];
  conflicts = [];
  node = [];
  node_present = false;
  record_type = record_type;
  id = id;
  fields = [];
  values = [];
  all_fields = [];
  embedded_all_fields = [];
  embedded_fields = [];
  embedded_values = [];
  embedded_parse_error = none;
  embedded_failures = [];
  source_bytes = 10;
  source = zero_position;
}

abbrev pub syscall : Record
syscall = sample (codes "SYSCALL") (codes "1000.5:1")

abbrev pub path : Record
path = sample (codes "PATH") (codes "1000.5:1")

abbrev pub other_event : Record
other_event = sample (codes "SYSCALL") (codes "1000.6:2")

abbrev pub eoe : Record
eoe = sample (codes "EOE") (codes "1000.5:1")

abbrev pub two_events : AssemblerLimits
two_events = record { max_pending_events = 2; max_records_per_event = 2; max_pending_bytes = 25 }

abbrev pub bounded : Assembler
bounded = record {
  rejected = [];
  rejection_bytes = 0;
  spill_since = 0;
  spill_source = zero_position;
  timeout = 2000000000;
  limits = two_events;
  pending = [];
  pending_bytes = 0;
  next_sequence = 0;
  latest_audit_time = 0;
  latest_audit_node = [];
  latest_node_present = false;
}

abbrev pub syscall_key : CorrelationKey
syscall_key = record { id = codes "1000.5:1"; node = []; node_present = false }

abbrev pub opened : PendingEvent
opened = record {
  mixed_node = false;
  records = syscall ∷ [];
  sequence = 0;
  last_seen = 5;
  audit_time = 0;
  has_audit_ts = false;
}

-- One record is pending.
abbrev pub busy : Assembler
busy = record bounded {
  pending = (syscall_key, opened) ∷ [];
  pending_bytes = 10;
  next_sequence = 1;
}

pub busy-IsAccounted : IsAccounted busy
unfolding lookup
busy-IsAccounted = record { distinct = (refl, tt); bytes = refl }

pub busy-IsBounded : IsBounded busy
busy-IsBounded = record {
  positive = (omega arith, omega arith);
  few_events = omega arith;
  few_bytes = omega arith;
  few_records = (omega arith, tt);
}

-- Interleaved records, of which the fourth is over the limit of its event.
abbrev pub stream : List (Record × ℕ)
stream = (syscall, 1) ∷ (other_event, 2) ∷ (path, 3) ∷ (path, 4) ∷ (eoe, 5) ∷ []

-- The number of records, EOE aside.
abbrev pub counted : Record → ℕ
counted r = if r.record_type == codes "EOE" then 0 else 1

pub counted-SkipsEoe : SkipsEoe counted
counted-SkipsEoe r h = ground (arith, (bytes_eq_iff r.record_type (codes "EOE")).1 h)

abbrev pub barred_key : CorrelationKey
barred_key = record { id = codes "1000.5:9"; node = []; node_present = false }

-- One key is rejected too.
abbrev pub barring : Assembler
barring = record busy {
  rejected = (barred_key, record { source = zero_position; last_seen = 4; key_bytes = 8 }) ∷ [];
  rejection_bytes = 8;
}

pub barring-IsTracked : IsTracked barring
unfolding lookup
barring-IsTracked = record {
  keys_distinct = (refl, tt);
  counted = refl;
  few_keys = omega arith;
  few_key_bytes = omega arith;
}
