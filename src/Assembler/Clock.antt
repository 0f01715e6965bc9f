-- ===== src/Assembler/Clock.antt =====
-- `observeAuditTime` of assembler.go: the watermark of the stream's own clock.
use aesirguard_audit.Base.{
  ℕ, ◌-◌, ◌*◌, ◌/◌, ◌^◌, Bool, true, false, ◌&&◌, ◌||◌, not, ◌==◌, bytes_equality, leb, ltb, nat_eq,
  if◌then◌else◌,
}
use aesirguard_audit.Base.Maps.{map_values}
use aesirguard_audit.Assembler.State.{Assembler, PendingEvent, CorrelationKey, bool_eq}

abbrev pub minute : ℕ
minute = 60000000000

-- The largest `time.Duration`, at which `Time.Sub` saturates.
abbrev pub max_duration : ℕ
max_duration = 2 ^ 63 - 1

-- `pending.hasAuditTS = false` for every pending event.
unfoldable pub forget_audit_times : Assembler → Assembler
forget_audit_times a = record a {
  pending = map_values (λ k (p : PendingEvent). record p { has_audit_ts = false }) a.pending;
}

unfoldable pub forward_window : ℕ → ℕ
forward_window timeout =
    if ltb (minute / 2) timeout
    then if leb timeout (max_duration / 2) then timeout * 2 else timeout
    else minute

abbrev pub node_changed : CorrelationKey → Assembler → Bool
node_changed key a =
    not (nat_eq a.latest_audit_time 0)
    && (not (key.node == a.latest_audit_node)
        || not (bool_eq key.node_present a.latest_node_present))

-- A node change closes the clock's epoch.
unfoldable pub close_epoch : Bool → Assembler → Assembler
close_epoch true a = record (forget_audit_times a) { latest_audit_time = 0 }
close_epoch false a = a

unfoldable pub observe_node : CorrelationKey → Assembler → Assembler
observe_node key a = record (close_epoch (node_changed key a) a) {
  latest_audit_node = key.node;
  latest_node_present = key.node_present;
}

-- `delta > forwardWindow || delta <= -timeout` for `delta := timestamp.Sub(latest)`, saturated.
unfoldable pub is_jump : ℕ → ℕ → ℕ → Bool
unfolding forward_window
is_jump timeout latest timestamp =
    if leb latest timestamp
    then ltb (forward_window timeout)
        (if leb (timestamp - latest) max_duration then timestamp - latest else max_duration)
    else leb timeout (latest - timestamp)

abbrev pub jumps : ℕ → Assembler → Bool
jumps timestamp a =
    not (nat_eq a.latest_audit_time 0)
    && ltb 0 a.timeout
    && is_jump a.timeout a.latest_audit_time timestamp

-- A jump starts a new epoch at the time observed; else the watermark only moves forward.
unfoldable pub move_watermark : Bool → ℕ → Assembler → Assembler
move_watermark true timestamp a = record (forget_audit_times a) { latest_audit_time = timestamp }
move_watermark false timestamp a =
    if ltb a.latest_audit_time timestamp then record a { latest_audit_time = timestamp } else a

unfoldable pub observe_audit_time : ℕ → CorrelationKey → Assembler → Assembler
observe_audit_time timestamp key a =
    let b = observe_node key a in move_watermark (jumps timestamp b) timestamp b
