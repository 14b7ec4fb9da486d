-- ===== src/Tso/Timer.antt =====
-- TSOStateMachine: the timer (update_timestamp), and what the start and the stop of a leader do.
use ea.Common.{Bool, true, false, not, ◌&&◌, Option, none, some, if◌then◌else◌}
use ea.Common.Int.{ℤ, pos, ◌+ℤ◌, ◌-ℤ◌, ltb_ℤ, leb_ℤ, int_eq}
use ea.Api.{op_update_tso}
use ea.Tso.Messages.{TsoTimestamp, TsoRequest}
use ea.Tso.{
  update_timestamp_interval_ms, update_timestamp_guard_ms, save_interval_ms, half_max_logical,
  TsoObj, TsoStateMachine,
}

-- The request that sync_timestamp proposes.
abbrev pub sync_request : TsoTimestamp → ℤ → TsoRequest
sync_request current save = record {
  op_type = op_update_tso;
  count = pos 0;
  current_timestamp = some current;
  save_physical = some save;
  force = false;
}

-- What update_timestamp hands to sync_timestamp at the time `now`, if anything.
unfoldable pub next_physical : TsoTimestamp → ℤ → Option ℤ
next_physical prev now =
    if ltb_ℤ update_timestamp_guard_ms (now -ℤ prev.physical)
    then some now
    else if ltb_ℤ half_max_logical prev.logical
    then some (now +ℤ update_timestamp_guard_ms)
    else none

unfoldable pub next_save : ℤ → ℤ → ℤ
next_save last_save next =
    if leb_ℤ (last_save -ℤ next) update_timestamp_guard_ms
    then next +ℤ save_interval_ms
    else last_save

unfoldable pub update_timestamp : TsoStateMachine → ℤ → Option TsoRequest
update_timestamp s now =
    if not s.is_leader then none else elim (next_physical s.tso_obj.current_timestamp now) [
      | none ↦ none
      | some next ↦ some (
          sync_request (record { physical = next; logical = pos 0 })
            (next_save s.tso_obj.last_save_physical next))
    ]

-- What on_leader_start hands to sync_timestamp.
unfoldable pub leader_request : TsoObj → ℤ → TsoRequest
leader_request o now =
    if ltb_ℤ (o.last_save_physical -ℤ now) update_timestamp_interval_ms
    then sync_request
        (record { physical = o.last_save_physical +ℤ update_timestamp_guard_ms; logical = pos 0 })
        (now +ℤ save_interval_ms)
    else sync_request (record { physical = now; logical = pos 0 }) o.last_save_physical

-- The end of on_leader_start, with what sync_timestamp returned.
unfoldable pub leader_started : TsoStateMachine → Bool → TsoStateMachine
leader_started s synced = record s {
  is_healty = s.is_healty && synced;
  is_leader = true;
  timer_started = true;
}

unfoldable pub on_leader_stop : TsoStateMachine → TsoStateMachine
on_leader_stop s = record s { is_leader = false; timer_started = false }
