-- ===== src/Base.antt =====
-- ea/discovery/base_state_machine: what the three replicated state machines share. braft, which
-- orders the log, is not modelled: a state machine is run over the entries that it hands out, and
-- a proposal is handed to it as a value.
use ea.Common.{String, Bool, true, false, Option, none, some, not, ◌&&◌, if◌then◌else◌}
use ea.Common.Bytes.{Bytes}
use ea.Api.{ErrCode, not_leader, OpType, ManagerRequest, ManagerResponse}

-- `done && done->response`: a replica that did not propose the entry has no response to fill.
abbrev pub Done : Type 0
Done = Option ManagerResponse

-- IF_DONE_SET_RESPONSE
unfoldable pub if_done_set_response : Done → ErrCode → String → Done
if_done_set_response none code msg = none
if_done_set_response (some r) code msg = some (record r { errcode = some code; errmsg = some msg })

-- if (done && done->response) response->set_op_type(op)
unfoldable pub set_op_type : Done → OpType → Done
set_op_type none op = none
set_op_type (some r) op = some (record r { op_type = some op })

-- ERROR_SET_RESPONSE
unfoldable pub error_set_response : Done → ErrCode → String → OpType → Done
error_set_response none code msg op = none
error_set_response (some r) code msg op =
    some (record r { errcode = some code; errmsg = some msg; op_type = some op })

-- A log entry as `on_apply` meets it: the parsed request, or none where the bytes do not parse, and
-- the closure of the proposer.
pub record Entry : Type 0 where
  pub request : Option ManagerRequest
  pub done : Done

pub record BaseStateMachine : Type 0 where
  pub is_leader : Bool
  pub have_data : Bool

-- What becomes of a client's request: an answer, a failed controller, or a proposal to raft.
pub data Routed : Type 0 where
  answered : Done → Routed
  failed : Routed
  proposed : ManagerRequest → Done → Routed

-- if (response) { set_errcode(NOT_LEADER); set_errmsg("not leader"); set_leader(...) }
unfoldable pub refuse_not_leader : Done → Bytes → Done
refuse_not_leader none leader = none
refuse_not_leader (some r) leader =
    some (record r { errcode = some not_leader; errmsg = some "not leader"; leader = some leader })

-- `serializes` is the result of SerializeToZeroCopyStream, `cntl` that the controller is there.
unfoldable pub process :
    BaseStateMachine → Bytes → (ManagerRequest → Bool) → Bool → ManagerRequest → Done → Routed
unfolding refuse_not_leader
process m leader serializes cntl request response =
    if not m.is_leader
    then answered (refuse_not_leader response leader)
    else if not (serializes request) && cntl
    then failed
    else proposed request response

unfoldable pub on_leader_start : BaseStateMachine → BaseStateMachine
on_leader_start m = record m { is_leader = true }

unfoldable pub on_leader_stop : BaseStateMachine → BaseStateMachine
on_leader_stop m = record m { is_leader = false }

-- DiscoveryServerClosure::Run, as far as the response goes: the status is raft's.
unfoldable pub closure_run : Bool → Bytes → Done → Done
closure_run true leader response = response
closure_run false leader none = none
closure_run false leader (some r) =
    some (record r { errcode = some not_leader; leader = some leader })
