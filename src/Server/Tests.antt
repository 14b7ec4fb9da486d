-- ===== src/Server/Tests.antt =====
-- discovery_manager on a request, and its theorem there.
use ea.Common.{true, refl, some, bytes}
use ea.Api.{ManagerRequest, op_create_config}
use ea.Api.Absent.{no_request, no_response, no_config_info}
use ea.Server.{Server, discovery_manager}
use ea.Server.Routing.{to_discovery, Reaches, discovery_manager_routes}

abbrev server : Server
server = record {
  init_success = true;
  discovery = record { is_leader = true; have_data = true };
  auto_incr = record { is_leader = true; have_data = true };
  tso = record { is_leader = true; have_data = true };
}

abbrev create : ManagerRequest
create = record no_request { op_type = op_create_config; config_info = some no_config_info }

discovery_manager_routes_example :
    Reaches to_discovery create no_response
      (discovery_manager (bytes "leader") (λ q. true) true server create no_response)
discovery_manager_routes_example =
    discovery_manager_routes (bytes "leader") (λ q. true) server create no_response refl refl refl
      refl
