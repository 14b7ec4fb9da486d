-- ===== src/Server.antt =====
-- ea/discovery/discovery_server: the service in front of the three state machines, with the two functions
-- process_schema_info (schema_manager.cc, config_manager.cc) that it hands requests to.
pub mod Routing
mod Tests
use ea.Common.{
  ℕ, String, Bool, true, false, not, ◌&&◌, ◌||◌, Option, none, some, is_some, get_or, if◌then◌else◌,
  ◌==◌, nat_eq,
}
use ea.Common.Bytes.{Bytes}
use ea.Api.{
  ErrCode, OpType, ManagerRequest, ManagerResponse, ServletInstance, op_create_user, op_drop_user,
  op_add_privilege, op_drop_privilege, op_create_namespace, op_drop_namespace, op_modify_namespace,
  op_create_zone, op_drop_zone, op_modify_zone, op_create_servlet, op_drop_servlet,
  op_modify_servlet, op_create_config, op_remove_config, op_add_instance, op_drop_instance,
  op_update_instance, op_modify_resource_tag, op_update_main_logical_room,
  op_gen_id_for_auto_increment, op_update_for_auto_increment, op_add_id_for_auto_increment,
  op_drop_id_for_auto_increment,
}
use ea.Api.Absent.{no_instance_info}
use ea.Base.{BaseStateMachine, Done, Routed, refuse_not_leader, error_set_response, process}
use ea.Privilege.{process_user_privilege}

-- The members of DiscoveryServer: _init_success and what the state machines share.
pub record Server : Type 0 where
  pub init_success : Bool
  pub discovery : BaseStateMachine
  pub auto_incr : BaseStateMachine
  pub tso : BaseStateMachine

-- What becomes of a request: an answer, or what the state machine that it is handed to does with it.
pub data Handled : Type 0 where
  answered : Done → Handled
  by_discovery by_auto_incr : Routed → Handled

-- The four tests of discovery_manager on op_type.
unfoldable pub is_privilege_op : OpType → Bool
is_privilege_op op_create_user = true
is_privilege_op op_drop_user = true
is_privilege_op op_add_privilege = true
is_privilege_op op_drop_privilege = true
is_privilege_op _ = false

unfoldable pub is_schema_op : OpType → Bool
is_schema_op op_create_namespace = true
is_schema_op op_drop_namespace = true
is_schema_op op_modify_namespace = true
is_schema_op op_create_zone = true
is_schema_op op_drop_zone = true
is_schema_op op_modify_zone = true
is_schema_op op_create_servlet = true
is_schema_op op_drop_servlet = true
is_schema_op op_modify_servlet = true
is_schema_op op_add_instance = true
is_schema_op op_drop_instance = true
is_schema_op op_update_instance = true
is_schema_op op_modify_resource_tag = true
is_schema_op op_update_main_logical_room = true
is_schema_op _ = false

unfoldable pub is_config_op : OpType → Bool
is_config_op op_create_config = true
is_config_op op_remove_config = true
is_config_op _ = false

unfoldable pub is_auto_incr_op : OpType → Bool
is_auto_incr_op op_gen_id_for_auto_increment = true
is_auto_incr_op op_update_for_auto_increment = true
is_auto_incr_op op_add_id_for_auto_increment = true
is_auto_incr_op op_drop_id_for_auto_increment = true
is_auto_incr_op _ = false

-- has_namespace_name() and so on, of request->instance_info()
unfoldable pub has_required : ServletInstance → Bool
has_required instance_info =
    is_some instance_info.namespace_name
    && is_some instance_info.zone_name
    && is_some instance_info.servlet_name
    && is_some instance_info.address
    && is_some instance_info.env

unfoldable pub instance_error : Option ServletInstance → Option String
unfolding has_required
instance_error none = some "no instance info"
instance_error (some instance_info) =
    if not (has_required instance_info)
    then some "no required namespace zone or servlet info"
    else none

-- The switch of SchemaManager::process_schema_info: the text of a refusal.
unfoldable pub schema_error : OpType → ManagerRequest → Option String
unfolding instance_error
schema_error op_create_namespace q =
    if is_some q.namespace_info then none else some "no namespace_info"
schema_error op_modify_namespace q =
    if is_some q.namespace_info then none else some "no namespace_info"
schema_error op_drop_namespace q =
    if is_some q.namespace_info then none else some "no namespace_info"
schema_error op_create_zone q = if is_some q.zone_info then none else some "no zone_info"
schema_error op_modify_zone q = if is_some q.zone_info then none else some "no zone_info"
schema_error op_drop_zone q = if is_some q.zone_info then none else some "no zone_info"
schema_error op_create_servlet q = if is_some q.servlet_info then none else some "no servlet info"
schema_error op_modify_servlet q = if is_some q.servlet_info then none else some "no servlet info"
schema_error op_drop_servlet q = if is_some q.servlet_info then none else some "no servlet info"
schema_error op_add_instance q = instance_error q.instance_info
schema_error op_drop_instance q = instance_error q.instance_info
schema_error op_update_instance q = instance_error q.instance_info
schema_error _ q = some "invalid op_type"

-- The switch of ConfigManager::process_schema_info.
unfoldable pub config_error : OpType → ManagerRequest → Option String
config_error op_create_config q = if is_some q.config_info then none else some "no config_info"
config_error op_remove_config q = if is_some q.config_info then none else some "no config_info"
config_error _ q = some "invalid op_type"

-- `leader` is the text of get_leader(), `serializes` the result of SerializeToZeroCopyStream, `cntl` that
-- the controller is there.
module _ (leader : Bytes) (serializes : ManagerRequest → Bool) (cntl : Bool) where
  -- The two process_schema_info, which differ in their switch.
  unfoldable pub process_info :
      (OpType → ManagerRequest → Option String) → BaseStateMachine → ManagerRequest → Done → Routed
  unfolding refuse_not_leader error_set_response process
  process_info error m request response =
      if not m.is_leader
      then Routed.answered (refuse_not_leader response leader)
      else elim (error request.op_type request) [
        | some msg ↦
            Routed.answered
              (error_set_response response ErrCode.input_param_error msg request.op_type)
        | none ↦ process m leader serializes cntl request response
      ]

  unfoldable pub schema_process_schema_info : BaseStateMachine → ManagerRequest → Done → Routed
  unfolding process_info schema_error
  schema_process_schema_info m request response = process_info schema_error m request response

  unfoldable pub config_process_schema_info : BaseStateMachine → ManagerRequest → Done → Routed
  unfolding process_info config_error
  config_process_schema_info m request response = process_info config_error m request response

  unfoldable pub discovery_manager : Server → ManagerRequest → ManagerResponse → Handled
  unfolding is_privilege_op is_schema_op is_config_op is_auto_incr_op process_user_privilege
      schema_process_schema_info config_process_schema_info process
  discovery_manager s request response =
      let op = request.op_type in
      if not s.init_success
      then answered (
          some (record response {
            errcode = some ErrCode.have_not_init;
            errmsg = some "have not init";
          }))
      else if is_privilege_op op
      then by_discovery
          (process_user_privilege s.discovery leader serializes cntl request (some response))
      else if is_schema_op op
      then by_discovery (schema_process_schema_info s.discovery request (some response))
      else if is_config_op op
      then by_discovery (config_process_schema_info s.discovery request (some response))
      else if is_auto_incr_op op
      then by_auto_incr (process s.auto_incr leader serializes cntl request (some response))
      else answered (
          some (record response {
            errcode = some ErrCode.input_param_error;
            errmsg = some "invalid op_type";
            op_type = some op;
          }))

-- raft_control: the machine of the region, or none where no region matches and the answer is an error.
pub data Machine : Type 0 where
  discovery_machine auto_incr_machine tso_machine : Machine

unfoldable pub machine_of : ℕ → Option Machine
machine_of region_id =
    if region_id == 0
    then some discovery_machine
    else if region_id == 1
    then some auto_incr_machine
    else if region_id == 2
    then some tso_machine
    else none

unfoldable pub have_data : Server → Bool
have_data s = s.discovery.have_data && s.auto_incr.have_data && s.tso.have_data
