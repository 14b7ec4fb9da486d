-- ===== src/Query/Service.antt =====
-- ea/discovery/discovery_server.cc: discovery_query, which hands a query to the managers.
pub mod Unchanged
use ea.Common.{ℕ, Bool, not, Option, none, some, List, [], ◌∷◌, ◌++◌, if◌then◌else◌}
use ea.Common.Bytes.{Bytes}
use ea.Common.Eq.{KeyEq}
use ea.Api.{ErrCode}
use ea.Rocks.{Rocks}
use ea.Config.{Versions}
use ea.Discovery.{AllCodecs, DiscoveryState}
use ea.Query.{
  QueryOp, QueryRequest, QueryResponse, Text, answer, query_user_privilege, query_namespace,
  query_zone, query_servlet, query_get_config, query_list_config, query_list_config_version,
  query_privilege_flatten, query_instance_op, query_instance_flatten_op,
}
use ea.Query.Managers.{
  get_namespace_info, get_zone_info, get_servlet_info, get_user_info, get_config, list_config,
  list_config_version,
}
use ea.Query.Instances.{query_instance, query_instance_flatten}
use ea.Query.Privileges.{get_flatten_servlet_privilege}

module _ (trim : Bytes → Bytes) {V : Type 0} ⦃keys : KeyEq V⦄ (versions : Versions V)
    (rocks : Rocks) (codecs : AllCodecs) where
  -- The switch on op_type.
  unfoldable pub query_by :
      QueryOp
      → DiscoveryState versions rocks codecs
      → QueryRequest
      → QueryResponse
      → DiscoveryState versions rocks codecs × QueryResponse
  unfolding get_namespace_info get_zone_info get_servlet_info get_user_info get_config list_config
      list_config_version query_instance query_instance_flatten get_flatten_servlet_privilege answer
  query_by query_user_privilege s q r = (s, get_user_info s.users q r)
  query_by query_namespace s q r =
      let (m, r') = get_namespace_info s.schema.namespaces q r in
      (record s { schema = record s.schema { namespaces = m } }, r')
  query_by query_zone s q r =
      let (m, r') = get_zone_info s.schema.zones q r in
      (record s { schema = record s.schema { zones = m } }, r')
  query_by query_servlet s q r =
      let (m, r') = get_servlet_info s.schema.servlets q r in
      (record s { schema = record s.schema { servlets = m } }, r')
  query_by query_get_config s q r = (s, get_config versions s.configs q r)
  query_by query_list_config s q r = (s, list_config versions s.configs r)
  query_by query_list_config_version s q r = (s, list_config_version versions s.configs q r)
  query_by query_privilege_flatten s q r = (
    s,
    record r {
      flatten_privileges = r.flatten_privileges ++ get_flatten_servlet_privilege s.users trim q;
    },
  )
  query_by query_instance_op s q r = (s, query_instance s.instances q r)
  query_by query_instance_flatten_op s q r =
      let (m, r') = query_instance_flatten s.instances q r in (record s { instances = m }, r')
  query_by _ s q r = (s, answer r ErrCode.input_param_error (Text.text "invalid op_type"))

  unfoldable pub discovery_query :
      Bool
      → DiscoveryState versions rocks codecs
      → QueryRequest
      → QueryResponse
      → DiscoveryState versions rocks codecs × QueryResponse
  unfolding query_by answer
  discovery_query init_success s q r =
      if not init_success
      then (s, answer r ErrCode.have_not_init (Text.text "have not init"))
      else query_by q.op_type s q (answer r ErrCode.success (Text.text "success"))
