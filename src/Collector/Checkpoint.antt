-- ===== src/Collector/Checkpoint.antt =====
-- internal/collector/checkpoint.go: the replay position and its validation. An offset is the int64
-- of the source; a time is the number of nanoseconds since Go's zero time.
use aesirguard_audit.Base.{
  ℕ, Bool, ◌||◌, ◌&&◌, not, Option, none, some, Bytes, bytes_equality, nat_eq, length,
  if◌then◌else◌,
}
use aesirguard_audit.Base.Hex.{decode_hex}
use aesirguard_audit.Parser.Values.{SignedNumber, is_negative}

abbrev pub checkpoint_version : ℕ
checkpoint_version = 2

-- `Checkpoint`.
pub record Checkpoint : Type 0 where
  pub version : SignedNumber
  pub input_path : Bytes
  pub device : ℕ
  pub inode : ℕ
  pub offset : SignedNumber
  pub anchor : Bytes
  pub updated_at : ℕ

pub data CheckpointError : Type 0 where
  unsupported_version invalid_state no_anchor invalid_anchor : CheckpointError

-- `n == k` for a literal `k` that is not negative.
abbrev pub is_nat : SignedNumber → ℕ → Bool
is_nat n k = not (is_negative n) && nat_eq n.magnitude k

abbrev pub is_empty : Bytes → Bool
is_empty s = nat_eq (length s) 0

abbrev decodes_to : ℕ → Option Bytes → Bool
decodes_to n none = Bool.false
decodes_to n (some bs) = nat_eq (length bs) n

-- `Checkpoint.Validate`; `none` is the nil error.
unfoldable pub validate_checkpoint : Checkpoint → Option CheckpointError
validate_checkpoint c =
    if not (is_nat c.version checkpoint_version)
    then some CheckpointError.unsupported_version
    else if is_empty c.input_path
        || nat_eq c.device 0
        || nat_eq c.inode 0
        || is_negative c.offset
        || nat_eq c.updated_at 0
    then some CheckpointError.invalid_state
    else if not (nat_eq (length c.anchor) 64)
    then some CheckpointError.no_anchor
    else if not (decodes_to 32 (decode_hex c.anchor))
    then some CheckpointError.invalid_anchor
    else none
