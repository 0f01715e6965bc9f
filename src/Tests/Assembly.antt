-- ===== src/Tests/Assembly.antt =====
-- Runs of the assembler, and its theorems applied.
use aesirguard_audit.Base.{
  All, ◌*◌, ◌⊎◌, length, List, ◌+◌, some, bytes_eq, ℕ, [], ◌≡◌, refl, codes, Bytes,
}
use aesirguard_audit.Base.{map, keep, ◌∷◌}
use aesirguard_audit.Base.Maps.{insert, delete}
use aesirguard_audit.Base.Sort.{sort_by, insert_by}
use aesirguard_audit.Assembler.State.{AssembledEvent}
use aesirguard_audit.Assembler.Time.{
  audit_time_from_id, time_from_parts, unix_time, nine_digits, parse_decimal, digits_value,
  all_digits, cut_first, cut_last,
}
use aesirguard_audit.Assembler.Clock.{
  observe_audit_time, observe_node, close_epoch, forget_audit_times, move_watermark, is_jump,
  forward_window,
}
use aesirguard_audit.Assembler.Types.{
  is_terminal_record, is_known_single_record_type, terminal_completion, contains_string,
}
use aesirguard_audit.Assembler.Expiry.{
  expired, expire_all, expire_one, due, wall_expired, watermark_expired, finish, remove_pending,
  expire_rejected, expire_rejected_keys, expire_rejected_key, expire_spill, ordered_events,
  finish_all,
}
use aesirguard_audit.Assembler.Add.{
  add_known, any_mixed, mark_mixed, check_limits, admit, open_or_reuse, open_event, time_event,
  store_record, close_event, then_expire, next_sequence,
}
use aesirguard_audit.Assembler.Isolation.{
  add_isolated, isolate, add_rejected, add_unrejected, add_fenced, add_admissible, recover_added,
  add_over_limit, emit_exception, exceptional, track_or_spill, reject_key, start_spill,
  merge_expired,
}
use aesirguard_audit.Record.{Record, zero_position}
use aesirguard_audit.Assembler.State.{Completion, new_bounded_assembler, new_assembler}
use aesirguard_audit.Assembler.Expiry.{flush_expired, flush_all_with}
use aesirguard_audit.Assembler.Add.{add_at, key_of, is_some}
use aesirguard_audit.Assembler.Isolation.{add_recovering}
use aesirguard_audit.Assembler.Reject.{reject_physical_line}
use aesirguard_audit.Assembler.Replay.{
  safe_source_position, Replays, StartsOne, sources_of, safe_source_position-Replays,
}
use aesirguard_audit.Assembler.Accounts.{emitted, held}
use aesirguard_audit.Base.{sum_by}
use aesirguard_audit.Base.Maps.{lookup}
use aesirguard_audit.Assembler.State.{key_equality}
use aesirguard_audit.Assembler.Delivery.{
  Delivers, nothing, flush_expired-Delivers, flush_all_with-empty, emitted_added,
}
use aesirguard_audit.Assembler.Conservation.{accepted, add_at-Delivers}
use aesirguard_audit.Assembler.Exceptions.{Accounts}
use aesirguard_audit.Assembler.Recovery.{add_recovering-Accounts}
use aesirguard_audit.Assembler.Bounds.{IsBounded, add_at-IsBounded}
use aesirguard_audit.Assembler.Tracking.{IsTracked}
use aesirguard_audit.Assembler.LineLimitBounds.{reject_physical_line-IsTracked}
use aesirguard_audit.Assembler.RejectedKeys.{add_recovering-IsTracked}
use aesirguard_audit.Assembler.RecoveryBounds.{add_recovering-IsBounded}
use aesirguard_audit.Assembler.LineLimit.{Rejects, reject_physical_line-Delivers}
use aesirguard_audit.Assembler.Order.{InOrder, opened, numbered, flushes-InOrder}
use aesirguard_audit.Assembler.Operations.{
  Operation, add, reject_line, expire, flush, handed, operate_all, IsSound, operate_all-Conserves,
}
use aesirguard_audit.Assembler.Runs.{run, feed, run-Conserves}
use aesirguard_audit.Tests.Samples.{
  barring, barring-IsTracked, path, other_event, bounded, busy, busy-IsAccounted, busy-IsBounded,
  two_events, stream, counted, counted-SkipsEoe,
}

new_bounded : new_bounded_assembler 2000000000 two_events ≡ some bounded
unfolding new_bounded_assembler new_assembler
new_bounded = refl

run-Conserves_example : emitted counted (run stream Completion.eof bounded) ≡ 4
unfolding bytes_eq
run-Conserves_example =
    run-Conserves counted stream Completion.eof 2000000000 two_events bounded counted-SkipsEoe
      new_bounded

add_recovering-Accounts_example : Accounts path busy (add_recovering path 6 busy)
add_recovering-Accounts_example = add_recovering-Accounts path 6 busy busy-IsAccounted

add_recovering-IsBounded_example : IsBounded (add_recovering path 6 busy).0
add_recovering-IsBounded_example = add_recovering-IsBounded path 6 busy busy-IsBounded

add_recovering-IsTracked_example : IsTracked (add_recovering path 6 barring).0
add_recovering-IsTracked_example = add_recovering-IsTracked path 6 barring barring-IsTracked

flush_all_with-empty_example :
    ((flush_all_with Completion.shutdown busy).0.pending ≡ [])
    × ((flush_all_with Completion.shutdown busy).0.pending_bytes ≡ 0)
    × ((w : Record → ℕ)
        → emitted w (flush_all_with Completion.shutdown busy).1 ≡ held (sum_by w) busy)
flush_all_with-empty_example = flush_all_with-empty Completion.shutdown busy busy-IsAccounted

flush_expired-Delivers_example :
    Delivers busy nothing
      (flush_expired 3000000000 busy).0
      (λ w. emitted w (flush_expired 3000000000 busy).1)
flush_expired-Delivers_example = flush_expired-Delivers 3000000000 busy busy-IsAccounted

add_at-Delivers_example :
    Delivers busy
      (accepted path (is_some (lookup (key_of path) busy.pending)) (add_at path 6 busy).1)
      (add_at path 6 busy).0
      (λ w. emitted_added w (add_at path 6 busy).1)
add_at-Delivers_example = add_at-Delivers path 6 busy busy-IsAccounted

add_at-IsBounded_example : IsBounded (add_at other_event 6 busy).0
add_at-IsBounded_example = add_at-IsBounded other_event 6 busy busy-IsBounded

-- A payload normaliser that changes nothing.
abbrev unchanged : Bytes → Bytes
unchanged s = s

abbrev long_line : Bytes
long_line = codes "type=SYSCALL msg=audit(1000.5:1): exe=aaaa"

reject_physical_line-IsTracked_example :
    IsTracked (reject_physical_line unchanged long_line zero_position 7 barring).0
reject_physical_line-IsTracked_example =
    reject_physical_line-IsTracked unchanged long_line zero_position 7 barring barring-IsTracked

-- A record, a line that is too long, a timeout, another record and the end.
abbrev calls : List Operation
calls =
    add path 5
    ∷ reject_line long_line zero_position 7
    ∷ expire 3000000000
    ∷ add other_event 3000000001
    ∷ flush Completion.shutdown
    ∷ []

operate_all-Conserves_example :
    IsSound (operate_all unchanged calls bounded).0
    × (held (sum_by counted) (operate_all unchanged calls bounded).0
          + emitted counted (operate_all unchanged calls bounded).1
        ≡ sum_by (λ x. sum_by counted (handed x)) calls)
operate_all-Conserves_example =
    operate_all-Conserves unchanged counted calls 2000000000 two_events bounded counted-SkipsEoe
      new_bounded

reject_physical_line-Delivers_example :
    Rejects busy (reject_physical_line unchanged long_line zero_position 7 busy)
reject_physical_line-Delivers_example =
    reject_physical_line-Delivers unchanged long_line zero_position 7 busy busy-IsAccounted

safe_source_position-Replays_example :
    All (Replays (safe_source_position zero_position busy)) (zero_position ∷ sources_of busy)
    × ((safe_source_position zero_position busy ≡ zero_position)
        ⊎ StartsOne (safe_source_position zero_position busy) (sources_of busy))
safe_source_position-Replays_example = safe_source_position-Replays zero_position busy refl

-- A number and a count of records.
abbrev numbered_records : ℕ → List Record → ℕ
numbered_records n rs = n * 10 + length rs

flushes-InOrder_example :
    InOrder (flush_expired 3000000000 busy).1
    × (opened numbered_records (flush_expired 3000000000 busy).0.pending
          + numbered numbered_records (flush_expired 3000000000 busy).1
        ≡ opened numbered_records busy.pending)
    × InOrder (flush_all_with Completion.eof busy).1
    × (numbered numbered_records (flush_all_with Completion.eof busy).1
        ≡ opened numbered_records busy.pending)
flushes-InOrder_example =
    flushes-InOrder numbered_records 3000000000 Completion.eof busy busy-IsAccounted.distinct

-- The third record is over the byte limit: its event is cut off, its key rejected up to the EOE, and
-- the other event is flushed.
stream_completions :
    map (λ (e : AssembledEvent). e.completion) (run stream Completion.eof bounded)
    ≡ Completion.assembly_limit ∷ Completion.assembly_limit ∷ Completion.assembly_limit
      ∷ Completion.eof ∷ []
unfolding run feed add_recovering expired expire_all expire_one due wall_expired watermark_expired
    finish remove_pending expire_rejected expire_rejected_keys expire_rejected_key expire_spill
    add_isolated isolate add_rejected add_unrejected add_fenced add_admissible recover_added
    add_over_limit emit_exception exceptional track_or_spill reject_key start_spill merge_expired
    ordered_events add_at add_known any_mixed mark_mixed check_limits admit open_or_reuse open_event
    time_event store_record close_event then_expire next_sequence observe_audit_time observe_node
    close_epoch forget_audit_times move_watermark is_jump forward_window audit_time_from_id
    time_from_parts unix_time nine_digits parse_decimal digits_value all_digits cut_first cut_last
    is_terminal_record is_known_single_record_type terminal_completion contains_string
    flush_all_with finish_all lookup insert delete keep sort_by insert_by bytes_eq
stream_completions = refl
