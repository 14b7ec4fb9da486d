-- ===== src/Schema/Apply.antt =====
-- DiscoveryStateMachine::on_apply, for the operations on the schema.
use ea.Common.{List, [], ◌∷◌}
use ea.Api.{
  OpType, ManagerRequest, op_create_namespace, op_drop_namespace, op_modify_namespace,
  op_create_zone, op_drop_zone, op_modify_zone, op_create_servlet, op_drop_servlet,
  op_modify_servlet,
}
use ea.Base.{Done}
use ea.Rocks.{Rocks}
use ea.Schema.State.{SchemaState, Codecs}
use ea.Schema.Namespaces.{create_namespace, drop_namespace, modify_namespace}
use ea.Schema.Zones.{create_zone, drop_zone, modify_zone}
use ea.Schema.Servlets.{create_servlet, drop_servlet, modify_servlet}

module _ (rocks : Rocks) (codecs : Codecs) where
  unfoldable pub apply_schema :
      OpType → SchemaState rocks → ManagerRequest → Done → SchemaState rocks × Done
  apply_schema op_create_namespace s request d = create_namespace rocks codecs s request d
  apply_schema op_drop_namespace s request d = drop_namespace rocks codecs s request d
  apply_schema op_modify_namespace s request d = modify_namespace rocks codecs s request d
  apply_schema op_create_zone s request d = create_zone rocks codecs s request d
  apply_schema op_drop_zone s request d = drop_zone rocks codecs s request d
  apply_schema op_modify_zone s request d = modify_zone rocks codecs s request d
  apply_schema op_create_servlet s request d = create_servlet rocks codecs s request d
  apply_schema op_drop_servlet s request d = drop_servlet rocks codecs s request d
  apply_schema op_modify_servlet s request d = modify_servlet rocks codecs s request d
  apply_schema _ s request d = (s, d)

  -- The state after the entries of a log.
  unfoldable pub apply_log : SchemaState rocks → List (ManagerRequest × Done) → SchemaState rocks
  unfolding apply_schema
  apply_log s [] = s
  apply_log s ((request, d) ∷ log) = apply_log (apply_schema request.op_type s request d).0 log
