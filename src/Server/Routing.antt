-- ===== src/Server/Routing.antt =====
-- DiscoveryServer::discovery_manager: where a request goes.
use ea.Common.{◌≡◌, Bool, true, false, ◌&&◌, none, some, is_some, if◌then◌else◌, arith}
use ea.Common.Bytes.{Bytes}
use ea.Api.{
  OpType, ManagerRequest, ManagerResponse, op_create_user, op_drop_user, op_add_privilege,
  op_drop_privilege, op_create_namespace, op_drop_namespace, op_modify_namespace, op_create_zone,
  op_drop_zone, op_modify_zone, op_create_servlet, op_drop_servlet, op_modify_servlet,
  op_create_config, op_remove_config, op_add_instance, op_drop_instance, op_update_instance,
  op_gen_id_for_auto_increment, op_update_for_auto_increment, op_add_id_for_auto_increment,
  op_drop_id_for_auto_increment,
}
use ea.Base.{Routed, process}
use ea.Privilege.{user_of, process_error, process_user_privilege}
use ea.Server.{
  Server, Handled, answered, by_discovery, by_auto_incr, is_privilege_op, is_schema_op,
  is_config_op, is_auto_incr_op, has_required, instance_error, schema_error, config_error,
  process_info, schema_process_schema_info, config_process_schema_info, discovery_manager,
}

pub data Goal : Type 0 where
  refused to_discovery to_auto_incr : Goal

-- What a request on an instance must carry.
abbrev pub names_instance : ManagerRequest → Bool
names_instance q = elim q.instance_info [ none ↦ false | some i ↦ has_required i ]

-- Where a request should go, by its kind and by what it carries.
abbrev pub goal_of : OpType → ManagerRequest → Goal
goal_of op_create_user q =
    if is_some q.user_privilege && is_some (user_of q).password then to_discovery else refused
goal_of op_drop_user q = if is_some q.user_privilege then to_discovery else refused
goal_of op_add_privilege q = if is_some q.user_privilege then to_discovery else refused
goal_of op_drop_privilege q = if is_some q.user_privilege then to_discovery else refused
goal_of op_create_namespace q = if is_some q.namespace_info then to_discovery else refused
goal_of op_drop_namespace q = if is_some q.namespace_info then to_discovery else refused
goal_of op_modify_namespace q = if is_some q.namespace_info then to_discovery else refused
goal_of op_create_zone q = if is_some q.zone_info then to_discovery else refused
goal_of op_drop_zone q = if is_some q.zone_info then to_discovery else refused
goal_of op_modify_zone q = if is_some q.zone_info then to_discovery else refused
goal_of op_create_servlet q = if is_some q.servlet_info then to_discovery else refused
goal_of op_drop_servlet q = if is_some q.servlet_info then to_discovery else refused
goal_of op_modify_servlet q = if is_some q.servlet_info then to_discovery else refused
goal_of op_create_config q = if is_some q.config_info then to_discovery else refused
goal_of op_remove_config q = if is_some q.config_info then to_discovery else refused
goal_of op_add_instance q = if names_instance q then to_discovery else refused
goal_of op_drop_instance q = if names_instance q then to_discovery else refused
goal_of op_update_instance q = if names_instance q then to_discovery else refused
goal_of op_gen_id_for_auto_increment q = to_auto_incr
goal_of op_update_for_auto_increment q = to_auto_incr
goal_of op_add_id_for_auto_increment q = to_auto_incr
goal_of op_drop_id_for_auto_increment q = to_auto_incr
goal_of _ q = refused

-- The request reaches the goal as it came, with the response to fill.
abbrev pub Reaches : Goal → ManagerRequest → ManagerResponse → Handled → Type 0
Reaches refused q r (answered d) = Unit
Reaches refused q r (by_discovery (Routed.answered d)) = Unit
Reaches to_discovery q r (by_discovery (Routed.proposed q' d)) = (q' ≡ q) × (d ≡ some r)
Reaches to_auto_incr q r (by_auto_incr (Routed.proposed q' d)) = (q' ≡ q) × (d ≡ some r)
Reaches _ q r h = ⊥

-- A request is proposed to the discovery data's raft group exactly where it is one of the eighteen kinds that
-- the state machine knows and carries what its handler reads; the four on id counters go to the group
-- of the counters; any other request is answered at once. The server is initialised, both groups are
-- led by it, and the request serializes.
pub discovery_manager_routes :
    (leader : Bytes) (serializes : ManagerRequest → Bool) (s : Server) (q : ManagerRequest)
    (r : ManagerResponse)
    → s.init_success ≡ true
    → s.discovery.is_leader ≡ true
    → s.auto_incr.is_leader ≡ true
    → serializes q ≡ true
    → Reaches (goal_of q.op_type q) q r (discovery_manager leader serializes true s q r)
unfolding discovery_manager is_privilege_op is_schema_op is_config_op is_auto_incr_op
    process_user_privilege process_error schema_process_schema_info config_process_schema_info
    process_info schema_error config_error instance_error process user_of
discovery_manager_routes leader serializes s q r i l a t = ground arith
