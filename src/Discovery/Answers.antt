-- ===== src/Discovery/Answers.antt =====
-- DiscoveryStateMachine::on_apply: the effect of each entry, and the answers.
use ea.Common.{ℕ, String, ◌≡◌, refl, Option, none, some, List, [], ◌∷◌}
use ea.Common.Eq.{KeyEq}
use ea.Api.{
  ErrCode, OpType, ManagerRequest, ManagerResponse, parse_from_pb_fail, unknown_req_type,
  op_create_user, op_drop_user, op_add_privilege, op_drop_privilege, op_create_namespace,
  op_drop_namespace, op_modify_namespace, op_create_zone, op_drop_zone, op_modify_zone,
  op_create_servlet, op_drop_servlet, op_modify_servlet, op_create_config, op_remove_config,
  op_add_instance, op_drop_instance, op_update_instance,
}
use ea.Base.{Done, if_done_set_response, set_op_type}
use ea.Rocks.{Rocks}
use ea.Config.{Versions}
use ea.Discovery.Readable.{ParsesAt}
use ea.Discovery.Effects.{Effect, Answers, quiet}
use ea.Discovery.UserEffects.{
  create_user-Effect, drop_user-Effect, add_privilege-Effect, drop_privilege-Effect,
}
use ea.Discovery.SchemaEffects.{
  create_namespace-Effect, drop_namespace-Effect, modify_namespace-Effect, create_zone-Effect,
  drop_zone-Effect, modify_zone-Effect,
}
use ea.Discovery.ServletEffects.{create_servlet-Effect, drop_servlet-Effect, modify_servlet-Effect}
use ea.Discovery.ConfigEffects.{create_config-Effect, remove_config-Effect}
use ea.Discovery.InstanceEffects.{add_instance-Effect, drop_instance-Effect, update_instance-Effect}
use ea.Discovery.{
  AllCodecs, Applied, DiscoveryState, ids_of, privilege_manager, config_manager, instance_manager,
  dispatch, apply_request, apply_entry, on_apply,
}

-- The first byte of the keys that an operation may write.
abbrev pub byte_of : OpType → ℕ
byte_of op_create_user = 2
byte_of op_drop_user = 2
byte_of op_add_privilege = 2
byte_of op_drop_privilege = 2
byte_of op_create_namespace = 1
byte_of op_drop_namespace = 1
byte_of op_modify_namespace = 1
byte_of op_create_zone = 1
byte_of op_drop_zone = 1
byte_of op_modify_zone = 1
byte_of op_create_servlet = 1
byte_of op_drop_servlet = 1
byte_of op_modify_servlet = 1
byte_of op_create_config = 4
byte_of op_remove_config = 4
byte_of op_add_instance = 3
byte_of op_drop_instance = 3
byte_of op_update_instance = 3
byte_of _ = 0

-- The response is there where the proposer gave one, and its code is set.
abbrev pub IsFilled : Done → Done → Type 0
IsFilled none d' = d' ≡ none
IsFilled (some r) d' =
    (r' : ManagerResponse) × (code : ErrCode) × (d' ≡ some r') × (r'.errcode ≡ some code)

-- One answer for each entry, in order.
abbrev pub AreFilled : List Applied → List Done → Type 0
AreFilled [] [] = Unit
AreFilled [] (d ∷ ds) = ⊥
AreFilled (a ∷ log) [] = ⊥
AreFilled (a ∷ log) (d ∷ ds) = IsFilled a.entry.done d × AreFilled log ds

filled : (d : Done) (code : ErrCode) (msg : String) → IsFilled d (if_done_set_response d code msg)
unfolding if_done_set_response
filled none code msg = refl
filled (some r) code msg = (_, code, refl, refl)

IsFilled-after : (d d' : Done) (op : OpType) → Answers (set_op_type d op) d' → IsFilled d d'
unfolding if_done_set_response set_op_type
IsFilled-after none d' op (code, msg, e) = e
IsFilled-after (some r) d' op (code, msg, e) = (_, code, e, refl)

module _ {V : Type 0} ⦃keys : KeyEq V⦄ (versions : Versions V) (rocks : Rocks)
    (codecs : AllCodecs) where
  -- An operation writes under its manager's byte alone, values that parse, and answers.
  pub dispatch-Effect :
      (op : OpType) (s : DiscoveryState versions rocks codecs) (request : ManagerRequest) (now : ℕ)
      (d : Done)
      → Effect rocks (byte_of op) (ParsesAt codecs (byte_of op)) s.schema.db d (
        (dispatch versions rocks codecs op s request now d).0.schema.db,
        (dispatch versions rocks codecs op s request now d).1,
      )
  unfolding dispatch
  dispatch-Effect op_create_user s request now d =
      create_user-Effect rocks codecs.user_codec (ids_of s.schema)
        (privilege_manager versions rocks codecs s) request d
  dispatch-Effect op_drop_user s request now d =
      drop_user-Effect rocks codecs.user_codec (ids_of s.schema)
        (privilege_manager versions rocks codecs s) request d
  dispatch-Effect op_add_privilege s request now d =
      add_privilege-Effect rocks codecs.user_codec (ids_of s.schema)
        (privilege_manager versions rocks codecs s) request d
  dispatch-Effect op_drop_privilege s request now d =
      drop_privilege-Effect rocks codecs.user_codec (ids_of s.schema)
        (privilege_manager versions rocks codecs s) request d
  dispatch-Effect op_create_namespace s request now d =
      create_namespace-Effect rocks codecs.schema_codecs s.schema request d
  dispatch-Effect op_drop_namespace s request now d =
      drop_namespace-Effect rocks codecs.schema_codecs s.schema request d
  dispatch-Effect op_modify_namespace s request now d =
      modify_namespace-Effect rocks codecs.schema_codecs s.schema request d
  dispatch-Effect op_create_zone s request now d =
      create_zone-Effect rocks codecs.schema_codecs s.schema request d
  dispatch-Effect op_drop_zone s request now d =
      drop_zone-Effect rocks codecs.schema_codecs s.schema request d
  dispatch-Effect op_modify_zone s request now d =
      modify_zone-Effect rocks codecs.schema_codecs s.schema request d
  dispatch-Effect op_create_servlet s request now d =
      create_servlet-Effect rocks codecs.schema_codecs s.schema request d
  dispatch-Effect op_drop_servlet s request now d =
      drop_servlet-Effect rocks codecs.schema_codecs s.schema request d
  dispatch-Effect op_modify_servlet s request now d =
      modify_servlet-Effect rocks codecs.schema_codecs s.schema request d
  dispatch-Effect op_create_config s request now d =
      create_config-Effect versions rocks codecs.config_codec
        (config_manager versions rocks codecs s) request d
  dispatch-Effect op_remove_config s request now d =
      remove_config-Effect versions rocks codecs.config_codec
        (config_manager versions rocks codecs s) request d
  dispatch-Effect op_add_instance s request now d =
      add_instance-Effect rocks codecs.instance_codec (ids_of s.schema)
        (instance_manager versions rocks codecs s) request now d
  dispatch-Effect op_drop_instance s request now d =
      drop_instance-Effect rocks codecs.instance_codec (ids_of s.schema)
        (instance_manager versions rocks codecs s) request now d
  dispatch-Effect op_update_instance s request now d =
      update_instance-Effect rocks codecs.instance_codec (ids_of s.schema)
        (instance_manager versions rocks codecs s) request d
  dispatch-Effect _ s request now d =
      quiet rocks 0 (ParsesAt codecs 0) s.schema.db d unknown_req_type "unknown request type"

  request-IsFilled :
      (s : DiscoveryState versions rocks codecs) (request : Option ManagerRequest) (index now : ℕ)
      (d : Done)
      → IsFilled d (apply_request versions rocks codecs s request index now d).1
  unfolding apply_request
  request-IsFilled s none index now d = filled d parse_from_pb_fail "parse from protobuf fail"
  request-IsFilled s (some request) index now d =
      IsFilled-after d _ request.op_type
        (dispatch-Effect request.op_type s request now (set_op_type d request.op_type)).1

  -- Each entry of the log is answered, whatever the state and whatever it asks for: also one that does not parse,
  -- is of an unknown kind, is refused, or meets a failed write. The answers come in the log's order, and
  -- each that has a response to fill has a code in it.
  pub on_apply_answers :
      (s : DiscoveryState versions rocks codecs) (log : List Applied)
      → AreFilled log (on_apply versions rocks codecs s log).1
  unfolding on_apply
  on_apply_answers s [] = tt
  on_apply_answers s (a ∷ log) = (
    request-IsFilled s a.entry.request a.index a.now a.entry.done,
    on_apply_answers (apply_entry versions rocks codecs s a).0 log,
  )
