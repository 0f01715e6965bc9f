-- ===== src/Tests/Collecting.antt =====
-- The ledger of source gaps: the theorems applied.
use aesirguard_audit.Base.{
  ◌↔◌, ◌⊎◌, Bool, true, false, [], ◌∷◌, none, some, ◌≡◌, refl, arith, codes, Bytes, bytes_eq,
}
use aesirguard_audit.Base.Hex.{decode_hex, hex_value, hex_pair}
use aesirguard_audit.Parser.Values.{plus}
use aesirguard_audit.Collector.Checkpoint.{Checkpoint, validate_checkpoint}
use aesirguard_audit.Collector.Ledger.{
  SourceError, truncated, GapIncident, GapLedger, last_incident, check_previous, source_gap_reason,
}
use aesirguard_audit.Collector.Recovery.{
  Effect, Position, GapRecovery, Outcome, prepare, pending, resume_at, evidence_mismatch,
  resume_checkpoint, observed_identity, commit,
}
use aesirguard_audit.Collector.Validity.{CanRecover, IsLedgerOf, prepare-IsLedgerOf}
use aesirguard_audit.Collector.Evidence.{Matches, prepare-Matches}
use aesirguard_audit.Collector.Crash.{Durable, AtEachPoint, Recovers, commit-Recovers}

abbrev hash : Bytes
hash = codes "00112233445566778899aabbccddeeff00112233445566778899aabbccddeeff"

abbrev input : Bytes
input = codes "/var/log/audit.log"

abbrev start : Position
start = record {
  identity = record { device = 1; inode = 8 };
  anchor = hash;
  offset = record { sign = plus; magnitude = 0 };
}

abbrev before_gap : Checkpoint
before_gap = record {
  version = record { sign = plus; magnitude = 2 };
  input_path = input;
  device = 1;
  inode = 7;
  offset = record { sign = plus; magnitude = 500 };
  anchor = hash;
  updated_at = 90;
}

abbrev shrunk : SourceError
shrunk = truncated (record {
  identity = record { device = 1; inode = 7 };
  offset = record { sign = plus; magnitude = 500 };
  size = record { sign = plus; magnitude = 20 };
})

abbrev manager : GapRecovery
manager = record { input = input; has_checkpoint_path = true; ledger = none }

abbrev all_succeed : Effect → Bool
all_succeed e = true

shrunk-CanRecover : CanRecover input (some before_gap) start shrunk 100
unfolding source_gap_reason observed_identity check_previous validate_checkpoint resume_checkpoint
    decode_hex hex_value hex_pair bytes_eq
shrunk-CanRecover = record {
  known = refl;
  named = (omega arith, omega arith);
  good_previous = refl;
  good_resume = refl;
  timely = omega arith;
  at_origin = refl;
}

prepare-IsLedgerOf_example :
    IsLedgerOf input (prepare all_succeed (some before_gap) start shrunk 100 manager).state.ledger
prepare-IsLedgerOf_example =
    prepare-IsLedgerOf all_succeed (some before_gap) start shrunk 100 manager refl shrunk-CanRecover
      tt

prepare-Matches_example :
    ((pending none (prepare all_succeed (some before_gap) start shrunk 100 manager).state.ledger
        ≡ resume_at (resume_checkpoint input start 100))
      ↔ (Matches none (some before_gap) ⊎ Matches none (some (resume_checkpoint input start 100))))
    × ((pending none (prepare all_succeed (some before_gap) start shrunk 100 manager).state.ledger
          ≡ resume_at (resume_checkpoint input start 100))
        ⊎ (pending none
              (prepare all_succeed (some before_gap) start shrunk 100 manager).state.ledger
            ≡ evidence_mismatch))
prepare-Matches_example =
    prepare-Matches all_succeed (some before_gap) none start shrunk 100 manager refl

abbrev incident : GapIncident
incident = record {
  number = 1;
  detected_at = 100;
  reason = codes "source_truncated";
  observed_identity = record { device = 1; inode = 7 };
  observed_offset = some (record { sign = plus; magnitude = 500 });
  observed_size = some (record { sign = plus; magnitude = 20 });
  previous = some before_gap;
  resume = record before_gap {
    inode = 8;
    offset = record { sign = plus; magnitude = 0 };
    updated_at = 100;
  };
  prepared = true;
  superseded = false;
}

abbrev prepared_ledger : GapLedger
prepared_ledger = record {
  version = record { sign = plus; magnitude = 1 };
  input_path = input;
  total = 1;
  incidents = incident ∷ [];
}

abbrev prepared_manager : GapRecovery
prepared_manager = record manager { ledger = some prepared_ledger }

abbrev on_disk : Durable
on_disk = record {
  checkpoint = some before_gap;
  ledger = some prepared_ledger;
  flushed = false;
  committed = false;
}

prepared_is_last : last_incident prepared_ledger.incidents ≡ some incident
unfolding last_incident
prepared_is_last = refl

commit-Recovers_example :
    (o : Outcome) × (commit all_succeed prepared_manager ≡ some o)
    × AtEachPoint (Recovers incident true) o.effects on_disk
commit-Recovers_example =
    commit-Recovers all_succeed prepared_manager prepared_ledger incident on_disk refl
      prepared_is_last refl refl refl
