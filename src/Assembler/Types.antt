-- ===== src/Assembler/Types.antt =====
-- Which record types end an event: `isTerminalRecord` and `terminalCompletion` of assembler.go,
-- `isKnownSingleRecordType` and `containsString` of classify.go.
use aesirguard_audit.Base.{
  Bool, false, ◌||◌, List, [], ◌∷◌, ◌==◌, Bytes, bytes_equality, codes, if◌then◌else◌,
}
use aesirguard_audit.Assembler.State.{Completion}

unfoldable pub contains_string : List Bytes → Bytes → Bool
contains_string [] wanted = false
contains_string (value ∷ values) wanted = value == wanted || contains_string values wanted

-- `single_record_types` of the embedded mapping data/security_event_families.json.
abbrev pub single_record_types : List Bytes
single_record_types =
    codes "USER_CMD"
    ∷ codes "USER_AUTH"
    ∷ codes "USER_ACCT"
    ∷ codes "USER_LOGIN"
    ∷ codes "USER_LOGOUT"
    ∷ codes "USER_START"
    ∷ codes "USER_END"
    ∷ codes "CRED_ACQ"
    ∷ codes "CRED_DISP"
    ∷ codes "CRED_REFR"
    ∷ codes "USER_CHAUTHTOK"
    ∷ codes "GRP_CHAUTHTOK"
    ∷ codes "USER_MGMT"
    ∷ codes "GRP_MGMT"
    ∷ codes "ADD_USER"
    ∷ codes "DEL_USER"
    ∷ codes "ADD_GROUP"
    ∷ codes "DEL_GROUP"
    ∷ codes "ACCT_LOCK"
    ∷ codes "ACCT_UNLOCK"
    ∷ codes "USER_ERR"
    ∷ codes "SYSTEM_BOOT"
    ∷ codes "SYSTEM_SHUTDOWN"
    ∷ codes "SYSTEM_RUNLEVEL"
    ∷ codes "SERVICE_START"
    ∷ codes "SERVICE_STOP"
    ∷ codes "SOFTWARE_UPDATE"
    ∷ codes "DAEMON_START"
    ∷ codes "DAEMON_END"
    ∷ codes "DAEMON_ABORT"
    ∷ codes "DAEMON_ERR"
    ∷ codes "DAEMON_CONFIG"
    ∷ codes "DAEMON_ROTATE"
    ∷ codes "DAEMON_RESUME"
    ∷ codes "USER_AVC"
    ∷ []

unfoldable pub is_known_single_record_type : Bytes → Bool
unfolding contains_string
is_known_single_record_type record_type = contains_string single_record_types record_type

unfoldable pub is_terminal_record : Bytes → Bool
unfolding is_known_single_record_type
is_terminal_record record_type =
    record_type == codes "EOE"
    || record_type == codes "KERNEL"
    || is_known_single_record_type record_type

unfoldable pub terminal_completion : Bytes → Completion
terminal_completion record_type =
    if record_type == codes "EOE" then Completion.eoe else Completion.single_record
