-- ===== src/Discovery/Consistent.antt =====
-- DiscoveryStateMachine::on_apply: the invariants of the managers together, over one database.
use ea.Common.{ℕ, nat_eq, Option, none, some, List, [], ◌∷◌}
use ea.Common.Bytes.{bytes_eq}
use ea.Common.Eq.{KeyEq}
use ea.Api.{
  OpType, ManagerRequest, op_create_user, op_drop_user, op_add_privilege, op_drop_privilege,
  op_create_namespace, op_drop_namespace, op_modify_namespace, op_create_zone, op_drop_zone,
  op_modify_zone, op_create_servlet, op_drop_servlet, op_modify_servlet, op_create_config,
  op_remove_config, op_add_instance, op_drop_instance, op_update_instance,
}
use ea.Base.{Done, set_op_type}
use ea.Rocks.{Rocks}
use ea.Schema.Apply.{apply_schema}
use ea.Privilege.Manager.{apply_user_privilege}
use ea.Config.{Versions, apply_config}
use ea.Instances.Manager.{apply_instance}
use ea.Discovery.Answers.{dispatch-Effect}
use ea.Discovery.Held.{IsConsistent, after_users, after_schema, after_configs, after_instances}
use ea.Discovery.{
  AllCodecs, Applied, DiscoveryState, dispatch, apply_request, apply_entry, on_apply,
}

module _ {V : Type 0} ⦃keys : KeyEq V⦄ (versions : Versions V) (rocks : Rocks)
    (codecs : AllCodecs) where
  dispatch-IsConsistent :
      (op : OpType) (s : DiscoveryState versions rocks codecs) (request : ManagerRequest) (now : ℕ)
      (d : Done)
      → IsConsistent versions rocks codecs s
      → IsConsistent versions rocks codecs (dispatch versions rocks codecs op s request now d).0
  unfolding dispatch apply_user_privilege apply_schema apply_config apply_instance
  dispatch-IsConsistent op_create_user s q now d h =
      after_users versions rocks codecs op_create_user s q d
        (dispatch-Effect versions rocks codecs op_create_user s q now d).0 h
  dispatch-IsConsistent op_drop_user s q now d h =
      after_users versions rocks codecs op_drop_user s q d
        (dispatch-Effect versions rocks codecs op_drop_user s q now d).0 h
  dispatch-IsConsistent op_add_privilege s q now d h =
      after_users versions rocks codecs op_add_privilege s q d
        (dispatch-Effect versions rocks codecs op_add_privilege s q now d).0 h
  dispatch-IsConsistent op_drop_privilege s q now d h =
      after_users versions rocks codecs op_drop_privilege s q d
        (dispatch-Effect versions rocks codecs op_drop_privilege s q now d).0 h
  dispatch-IsConsistent op_create_namespace s q now d h =
      after_schema versions rocks codecs op_create_namespace s q d
        (dispatch-Effect versions rocks codecs op_create_namespace s q now d).0 h
  dispatch-IsConsistent op_drop_namespace s q now d h =
      after_schema versions rocks codecs op_drop_namespace s q d
        (dispatch-Effect versions rocks codecs op_drop_namespace s q now d).0 h
  dispatch-IsConsistent op_modify_namespace s q now d h =
      after_schema versions rocks codecs op_modify_namespace s q d
        (dispatch-Effect versions rocks codecs op_modify_namespace s q now d).0 h
  dispatch-IsConsistent op_create_zone s q now d h =
      after_schema versions rocks codecs op_create_zone s q d
        (dispatch-Effect versions rocks codecs op_create_zone s q now d).0 h
  dispatch-IsConsistent op_drop_zone s q now d h =
      after_schema versions rocks codecs op_drop_zone s q d
        (dispatch-Effect versions rocks codecs op_drop_zone s q now d).0 h
  dispatch-IsConsistent op_modify_zone s q now d h =
      after_schema versions rocks codecs op_modify_zone s q d
        (dispatch-Effect versions rocks codecs op_modify_zone s q now d).0 h
  dispatch-IsConsistent op_create_servlet s q now d h =
      after_schema versions rocks codecs op_create_servlet s q d
        (dispatch-Effect versions rocks codecs op_create_servlet s q now d).0 h
  dispatch-IsConsistent op_drop_servlet s q now d h =
      after_schema versions rocks codecs op_drop_servlet s q d
        (dispatch-Effect versions rocks codecs op_drop_servlet s q now d).0 h
  dispatch-IsConsistent op_modify_servlet s q now d h =
      after_schema versions rocks codecs op_modify_servlet s q d
        (dispatch-Effect versions rocks codecs op_modify_servlet s q now d).0 h
  dispatch-IsConsistent op_create_config s q now d h =
      after_configs versions rocks codecs op_create_config s q d
        (dispatch-Effect versions rocks codecs op_create_config s q now d).0 h
  dispatch-IsConsistent op_remove_config s q now d h =
      after_configs versions rocks codecs op_remove_config s q d
        (dispatch-Effect versions rocks codecs op_remove_config s q now d).0 h
  dispatch-IsConsistent op_add_instance s q now d h =
      after_instances versions rocks codecs op_add_instance s q now d
        (dispatch-Effect versions rocks codecs op_add_instance s q now d).0 h
  dispatch-IsConsistent op_drop_instance s q now d h =
      after_instances versions rocks codecs op_drop_instance s q now d
        (dispatch-Effect versions rocks codecs op_drop_instance s q now d).0 h
  dispatch-IsConsistent op_update_instance s q now d h =
      after_instances versions rocks codecs op_update_instance s q now d
        (dispatch-Effect versions rocks codecs op_update_instance s q now d).0 h
  dispatch-IsConsistent _ s q now d h = h

  request-IsConsistent :
      (s : DiscoveryState versions rocks codecs) (request : Option ManagerRequest) (index now : ℕ)
      (d : Done)
      → IsConsistent versions rocks codecs s
      → IsConsistent versions rocks codecs
          (apply_request versions rocks codecs s request index now d).0
  unfolding apply_request
  request-IsConsistent s none index now d h = h
  request-IsConsistent s (some request) index now d h =
      dispatch-IsConsistent request.op_type s request now (set_op_type d request.op_type) h

  -- From a consistent state every log leads to a consistent state: the managers' invariants hold together
  -- over the one database that they share, through refusals, failed writes and entries that do not parse.
  pub on_apply-IsConsistent :
      (s : DiscoveryState versions rocks codecs) (log : List Applied)
      → IsConsistent versions rocks codecs s
      → IsConsistent versions rocks codecs (on_apply versions rocks codecs s log).0
  unfolding on_apply
  on_apply-IsConsistent s [] h = h
  on_apply-IsConsistent s (a ∷ log) h =
      on_apply-IsConsistent (apply_entry versions rocks codecs s a).0 log
        (request-IsConsistent s a.entry.request a.index a.now a.entry.done h)
