-- ===== src/Tso.antt =====
-- ea/discovery/tso_state_machine: the timestamp oracle. An int64_t is a ℤ: the sums that the code
-- makes of timestamps are undefined in C++ where they overflow. The clock is an argument.
pub mod Messages
pub mod Timer
pub mod Gen
pub mod Update
pub mod Run
pub mod Clock
pub mod Leader
mod Snapshot
mod Tests
use ea.Common.{
  ℕ, zero, suc, ◌^◌, ◌==◌, Bool, true, false, not, ◌&&◌, ◌||◌, Option, none, some, List, [], ◌∷◌,
  is_some, get_or, if◌then◌else◌,
}
use ea.Common.Bytes.{Bytes}
use ea.Common.Int.{ℤ, pos, ◌+ℤ◌, ◌-ℤ◌, ltb_ℤ, leb_ℤ, int_eq}
use ea.Api.{
  ErrCode, success, input_param_error, parse_from_pb_fail, internal_error, exec_fail, not_leader,
  retry_later, unknown_req_type, OpType, op_gen_tso, op_query_tso_info, op_reset_tso, op_update_tso,
  op_none,
}
use Messages.{
  TsoTimestamp, TsoRequest, TsoResponse, TsoDone, no_timestamp, set_tso_response, set_tso_timestamp,
  set_tso_op_type, tso_error,
}

-- namespace tso of discovery_constants.h
abbrev pub update_timestamp_interval_ms : ℤ
update_timestamp_interval_ms = pos 50

abbrev pub update_timestamp_guard_ms : ℤ
update_timestamp_guard_ms = pos 1

abbrev pub save_interval_ms : ℤ
save_interval_ms = pos 3000

abbrev pub max_logical : ℤ
max_logical = pos (2 ^ 18)

-- max_logical / 2
abbrev pub half_max_logical : ℤ
half_max_logical = pos (2 ^ 17)

pub record TsoObj : Type 0 where
  pub current_timestamp : TsoTimestamp
  pub last_save_physical : ℤ

pub record TsoStateMachine : Type 0 where
  pub tso_obj : TsoObj
  pub is_healty : Bool
  pub is_leader : Bool
  pub timer_started : Bool
  pub have_data : Bool

-- The initial values of init and of the members.
abbrev pub init : TsoStateMachine
init = record {
  tso_obj = record { current_timestamp = no_timestamp; last_save_physical = pos 0 };
  is_healty = true;
  is_leader = false;
  timer_started = false;
  have_data = false;
}

-- One round of gen_tso's loop, under the mutex: the timestamp granted and the state, or none to retry.
unfoldable pub gen_round : TsoObj → ℤ → Option (TsoTimestamp × TsoObj)
gen_round o count =
    let current = o.current_timestamp in
    let new_logical = current.logical +ℤ count in
    if not (current.physical == pos 0)
    then (if ltb_ℤ new_logical max_logical
        then some
            (current, record o { current_timestamp = record current { logical = new_logical } })
        else none)
    else none

-- The loop: after a round that grants nothing it sleeps, and `others n` is what the other threads do to
-- the state meanwhile.
unfoldable pub gen_loop : ℕ → (ℕ → TsoObj → TsoObj) → ℤ → TsoObj → Option TsoTimestamp × TsoObj
gen_loop zero others count o = (none, o)
gen_loop (suc n) others count o = elim (gen_round o count) [
  | none ↦ gen_loop n others count (others n o)
  | some (current, o') ↦ (some current, o')
]

-- The end of gen_tso, on what the loop came to.
unfoldable pub grant_answer :
    TsoStateMachine
    → TsoRequest
    → TsoResponse
    → Option TsoTimestamp × TsoObj
    → TsoStateMachine × TsoResponse
grant_answer s request response (none, o) =
    (record s { tso_obj = o }, tso_error response exec_fail "gen tso failed")
grant_answer s request response (some current, o) = (
  record s { tso_obj = o },
  record response {
    start_timestamp = some current;
    count = some request.count;
    errcode = some success;
  },
)

unfoldable pub gen_tso :
    (ℕ → TsoObj → TsoObj)
    → TsoStateMachine
    → TsoRequest
    → TsoResponse
    → TsoStateMachine × TsoResponse
unfolding grant_answer
gen_tso others s request response =
    let response' = record response { op_type = some request.op_type } in
    if request.count == pos 0
    then (s, tso_error response' input_param_error "tso count should be positive")
    else if not s.is_healty
    then (s, tso_error response' retry_later "timestamp not ok, retry later")
    else grant_answer s request response' (gen_loop 50 others request.count s.tso_obj)

-- physical < last_save_physical || current.physical() < current_timestamp.physical()
unfoldable pub falls_back : TsoObj → ℤ → TsoTimestamp → Bool
falls_back o physical current =
    ltb_ℤ physical o.last_save_physical || ltb_ℤ current.physical o.current_timestamp.physical

unfoldable pub reset_tso : TsoStateMachine → TsoRequest → TsoDone → TsoStateMachine × TsoDone
reset_tso s request done =
    if is_some request.current_timestamp && is_some request.save_physical
    then (let physical = get_or request.save_physical (pos 0) in
        let current = get_or request.current_timestamp no_timestamp in
        if falls_back s.tso_obj physical current && not request.force
        then (
          s,
          set_tso_timestamp (set_tso_response done internal_error "time can't fallback")
              s.tso_obj.current_timestamp s.tso_obj.last_save_physical,
        )
        else (
          record s {
            is_healty = true;
            tso_obj = record { current_timestamp = current; last_save_physical = physical };
          },
          set_tso_timestamp (set_tso_response done success "SUCCESS") current physical,
        ))
    else (s, done)

unfoldable pub update_tso : TsoStateMachine → TsoRequest → TsoDone → TsoStateMachine × TsoDone
update_tso s request done =
    let physical = get_or request.save_physical (pos 0) in
    let current = get_or request.current_timestamp no_timestamp in
    if falls_back s.tso_obj physical current
    then (s, set_tso_response done internal_error "time can't fallback")
    else (
      record s { tso_obj = record { current_timestamp = current; last_save_physical = physical } },
      set_tso_response done success "SUCCESS",
    )

-- The switch of on_apply.
unfoldable pub dispatch :
    OpType → TsoStateMachine → TsoRequest → TsoDone → TsoStateMachine × TsoDone
dispatch op_reset_tso s request done = reset_tso s request done
dispatch op_update_tso s request done = update_tso s request done
dispatch _ s request done = (s, set_tso_response done unknown_req_type "unsupport request type")

-- A log entry: the parsed request, or none where the bytes do not parse, and the proposer's closure.
pub record TsoEntry : Type 0 where
  pub request : Option TsoRequest
  pub done : TsoDone

unfoldable pub apply_request :
    TsoStateMachine → Option TsoRequest → TsoDone → TsoStateMachine × TsoDone
unfolding dispatch
apply_request s none done = (s, set_tso_response done parse_from_pb_fail "parse from protobuf fail")
apply_request s (some request) done =
    dispatch request.op_type s request (set_tso_op_type done request.op_type)

unfoldable pub on_apply : TsoStateMachine → List TsoEntry → TsoStateMachine × List TsoDone
on_apply s [] = (s, [])
on_apply s (e ∷ log) =
    let (s', answer) = apply_request s e.request e.done in
    let (s'', answers) = on_apply s' log in (s'', answer ∷ answers)

-- What becomes of a client's request.
pub data TsoRouted : Type 0 where
  answered : TsoStateMachine → TsoResponse → TsoRouted
  failed : TsoRouted
  proposed : TsoRequest → TsoRouted

-- The end of process, on the leader: timestamps are granted outside raft.
unfoldable pub gen_or_propose :
    OpType → (ℕ → TsoObj → TsoObj) → Bool → TsoStateMachine → TsoRequest → TsoResponse → TsoRouted
unfolding gen_tso
gen_or_propose op_gen_tso others serializes s request response =
    let (s', response') = gen_tso others s request response in answered s' response'
gen_or_propose _ others serializes s request response =
    if not serializes then failed else proposed request

-- process: the leader's address, the clock and whether the request serializes are arguments.
unfoldable pub process :
    (ℕ → TsoObj → TsoObj)
    → Bytes
    → ℤ
    → Bool
    → TsoStateMachine
    → TsoRequest
    → TsoResponse
    → TsoRouted
unfolding gen_or_propose
process others leader now serializes s request response = elim request.op_type [
  | op_query_tso_info ↦ answered s (record response {
    errcode = some success;
    errmsg = some "success";
    op_type = some request.op_type;
    leader = some leader;
    system_time = some now;
    save_physical = some s.tso_obj.last_save_physical;
    start_timestamp = some s.tso_obj.current_timestamp;
  })
  | _ ↦
      if not s.is_leader
      then answered s (record response {
        errcode = some not_leader;
        errmsg = some "not leader";
        op_type = some request.op_type;
        leader = some leader;
      })
      else gen_or_propose request.op_type others serializes s request response
]
