-- ===== src/Discovery.antt =====
-- ea/discovery/discovery_state_machine: the state machine of the discovery data, which hands each entry
-- of the log to one of the managers. The managers share one database.
mod Readable
mod Effects
mod SchemaEffects
mod ServletEffects
mod ConfigEffects
mod UserEffects
mod InstanceEffects
mod Answers
mod Held
mod Consistent
pub mod Sample
pub mod ParsePath
pub mod Snapshot
mod Tests
use ea.Common.{ℕ, Option, none, some, List, [], ◌∷◌}
use ea.Common.Bytes.{Bytes}
use ea.Common.Eq.{KeyEq}
use ea.Common.Int.{ℤ, pos}
use ea.Common.Maps.{Map}
use ea.Api.{
  ErrCode, OpType, ManagerRequest, UserPrivilege, ConfigInfo, ServletInstance, parse_from_pb_fail,
  unknown_req_type, op_create_user, op_drop_user, op_add_privilege, op_drop_privilege,
  op_create_namespace, op_drop_namespace, op_modify_namespace, op_create_zone, op_drop_zone,
  op_modify_zone, op_create_servlet, op_drop_servlet, op_modify_servlet, op_create_config,
  op_remove_config, op_add_instance, op_drop_instance, op_update_instance,
}
use ea.Base.{Done, Entry, if_done_set_response, set_op_type}
use ea.Rocks.{Rocks, Codec}
use ea.Schema.{SchemaIds}
use ea.Schema.State.{SchemaState, Codecs, id_or_zero}
use ea.Schema.Namespaces.{create_namespace, drop_namespace, modify_namespace}
use ea.Schema.Zones.{create_zone, drop_zone, modify_zone}
use ea.Schema.Servlets.{create_servlet, drop_servlet, modify_servlet}
use ea.Privilege.Manager.{PrivilegeManager, create_user, drop_user, add_privilege, drop_privilege}
use ea.Config.{Versions, Listed, ConfigManager, create_config, remove_config}
use ea.Instances.{Registry}
use ea.Instances.Manager.{InstanceManager, add_instance, drop_instance, update_instance}

pub record AllCodecs : Type 0 where
  pub user_codec : Codec UserPrivilege
  pub schema_codecs : Codecs
  pub config_codec : Codec ConfigInfo
  pub instance_codec : Codec ServletInstance

-- get_namespace_id, get_zone_id and get_servlet_id of the managers
unfoldable pub ids_of : {rocks : Rocks} → SchemaState rocks → SchemaIds
unfolding id_or_zero
ids_of s = record {
  get_namespace_id = id_or_zero s.namespaces.namespace_id_map;
  get_zone_id = id_or_zero s.zones.zone_id_map;
  get_servlet_id = id_or_zero s.servlets.servlet_id_map;
}

-- An entry of the log, its index, and the clock of the replica when it applies the entry.
pub record Applied : Type 0 where
  pub index : ℕ
  pub now : ℕ
  pub entry : Entry

module _ {V : Type 0} ⦃keys : KeyEq V⦄ (versions : Versions V) (rocks : Rocks)
    (codecs : AllCodecs) where
  -- The managers' maps, the database (in `schema`), and _applied_index.
  pub record DiscoveryState : Type 0 where
    pub users : Map Bytes UserPrivilege
    pub schema : SchemaState rocks
    pub configs : Map Bytes (Listed V)
    pub instances : Registry
    pub applied_index : ℤ

  abbrev pub privilege_manager :
      (s : DiscoveryState) → PrivilegeManager rocks codecs.user_codec (ids_of s.schema)
  privilege_manager s = record { user_privilege = s.users; db = s.schema.db }

  abbrev pub config_manager : DiscoveryState → ConfigManager versions rocks codecs.config_codec
  config_manager s = record { configs = s.configs; db = s.schema.db }

  abbrev pub instance_manager :
      (s : DiscoveryState) → InstanceManager rocks codecs.instance_codec (ids_of s.schema)
  instance_manager s = record { registry = s.instances; db = s.schema.db }

  abbrev pub on_users :
      (s : DiscoveryState)
      → PrivilegeManager rocks codecs.user_codec (ids_of s.schema) × Done
      → DiscoveryState × Done
  on_users s r =
      (record s { users = r.0.user_privilege; schema = record s.schema { db = r.0.db } }, r.1)

  abbrev pub on_schema : DiscoveryState → SchemaState rocks × Done → DiscoveryState × Done
  on_schema s r = (record s { schema = r.0 }, r.1)

  abbrev pub on_configs :
      DiscoveryState
      → ConfigManager versions rocks codecs.config_codec × Done
      → DiscoveryState × Done
  on_configs s r =
      (record s { configs = r.0.configs; schema = record s.schema { db = r.0.db } }, r.1)

  abbrev pub on_instances :
      (s : DiscoveryState)
      → InstanceManager rocks codecs.instance_codec (ids_of s.schema) × Done
      → DiscoveryState × Done
  on_instances s r =
      (record s { instances = r.0.registry; schema = record s.schema { db = r.0.db } }, r.1)

  -- The switch of on_apply.
  unfoldable pub dispatch :
      OpType → DiscoveryState → ManagerRequest → ℕ → Done → DiscoveryState × Done
  unfolding ids_of
  dispatch op_create_user s request now d =
      on_users s
        (create_user rocks codecs.user_codec (ids_of s.schema) (privilege_manager s) request d)
  dispatch op_drop_user s request now d =
      on_users s
        (drop_user rocks codecs.user_codec (ids_of s.schema) (privilege_manager s) request d)
  dispatch op_add_privilege s request now d =
      on_users s
        (add_privilege rocks codecs.user_codec (ids_of s.schema) (privilege_manager s) request d)
  dispatch op_drop_privilege s request now d =
      on_users s
        (drop_privilege rocks codecs.user_codec (ids_of s.schema) (privilege_manager s) request d)
  dispatch op_create_namespace s request now d =
      on_schema s (create_namespace rocks codecs.schema_codecs s.schema request d)
  dispatch op_drop_namespace s request now d =
      on_schema s (drop_namespace rocks codecs.schema_codecs s.schema request d)
  dispatch op_modify_namespace s request now d =
      on_schema s (modify_namespace rocks codecs.schema_codecs s.schema request d)
  dispatch op_create_zone s request now d =
      on_schema s (create_zone rocks codecs.schema_codecs s.schema request d)
  dispatch op_drop_zone s request now d =
      on_schema s (drop_zone rocks codecs.schema_codecs s.schema request d)
  dispatch op_modify_zone s request now d =
      on_schema s (modify_zone rocks codecs.schema_codecs s.schema request d)
  dispatch op_create_servlet s request now d =
      on_schema s (create_servlet rocks codecs.schema_codecs s.schema request d)
  dispatch op_drop_servlet s request now d =
      on_schema s (drop_servlet rocks codecs.schema_codecs s.schema request d)
  dispatch op_modify_servlet s request now d =
      on_schema s (modify_servlet rocks codecs.schema_codecs s.schema request d)
  dispatch op_create_config s request now d =
      on_configs s (create_config versions rocks codecs.config_codec (config_manager s) request d)
  dispatch op_remove_config s request now d =
      on_configs s (remove_config versions rocks codecs.config_codec (config_manager s) request d)
  dispatch op_add_instance s request now d = on_instances s (
      add_instance rocks codecs.instance_codec (ids_of s.schema) (instance_manager s) request now d)
  dispatch op_drop_instance s request now d = on_instances s (
      drop_instance rocks codecs.instance_codec (ids_of s.schema) (instance_manager s) request now
        d)
  dispatch op_update_instance s request now d =
      on_instances s (
        update_instance rocks codecs.instance_codec (ids_of s.schema) (instance_manager s) request
          d)
  dispatch _ s request now d = (s, if_done_set_response d unknown_req_type "unknown request type")

  -- One round of on_apply's loop. An entry that does not parse leaves _applied_index.
  unfoldable pub apply_request :
      DiscoveryState → Option ManagerRequest → ℕ → ℕ → Done → DiscoveryState × Done
  unfolding dispatch
  apply_request s none index now d =
      (s, if_done_set_response d parse_from_pb_fail "parse from protobuf fail")
  apply_request s (some request) index now d =
      let (s', d') = dispatch request.op_type s request now (set_op_type d request.op_type) in
      (record s' { applied_index = pos index }, d')

  abbrev pub apply_entry : DiscoveryState → Applied → DiscoveryState × Done
  apply_entry s a = apply_request s a.entry.request a.index a.now a.entry.done

  -- on_apply: the state after the entries, and the answer that each closure is run with.
  unfoldable pub on_apply : DiscoveryState → List Applied → DiscoveryState × List Done
  on_apply s [] = (s, [])
  on_apply s (a ∷ log) =
      let (s', answer) = apply_entry s a in
      let (s'', answers) = on_apply s' log in (s'', answer ∷ answers)
