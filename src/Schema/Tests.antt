-- ===== src/Schema/Tests.antt =====
-- Runs of the schema's managers, and their theorems at concrete inputs.
use ea.Common.{get_or, ◌++◌, ◌≡◌, refl, none, some, List, [], ◌∷◌, nat_eq, bytes}
use mathlib.Core.Option.{none-ne-some}
use ea.Common.Bytes.{bytes_eq}
use ea.Common.Maps.{find, assign, erase}
use ea.Api.{
  ErrCode, OpType, ZoneInfo, ManagerRequest, op_create_namespace, op_drop_namespace, op_create_zone,
  op_drop_zone, op_create_servlet,
}
use ea.Api.Absent.{no_namespace_info, no_zone_info, no_servlet_info, no_request, no_response}
use ea.Base.{Done, if_done_set_response}
use ea.Rocks.{remove_discovery_info, Op}
use ea.Rocks.Store.{store, apply_ops, apply_ops-Unique}
use ea.Wires.Schemas.{namespace_wire, zone_wire, servlet_wire}
use ea.Rocks.Wire.{codec_of}
use ea.Schema.State.{
  value_at, construct_zone_key, construct_servlet_key, construct_max_servlet_id_key, SchemaState,
  Codecs,
}
use ea.Schema.Namespaces.{create_namespace, drop_namespace}
use ea.Schema.Zones.{zone_of, zone_name_of, create_zone, drop_zone}
use ea.Schema.Servlets.{servlet_of, create_servlet}
use ea.Schema.Apply.{apply_log}
use ea.Schema.WellFormed.{WellFormed}
use ea.Schema.Logs.{apply_log-WellFormed, drop_namespace_no_orphans}
use ea.Schema.Reload.{load_schema_snapshot}
use ea.Schema.Reload.Filed.{AllFiled, load_schema_snapshot-AllFiled}
use ea.Schema.Misfiled.{drop_zone_over_servlet}

abbrev codecs : Codecs
codecs = record {
  namespace_codec = codec_of namespace_wire;
  zone_codec = codec_of zone_wire;
  servlet_codec = codec_of servlet_wire;
}

abbrev start : SchemaState store
start = record {
  namespaces = record {
    max_namespace_id = 0;
    namespace_id_map = record { entries = [] };
    namespace_info_map = record { entries = [] };
    zone_ids = record { entries = [] };
  };
  zones = record {
    max_zone_id = 6;
    zone_id_map = record { entries = [] };
    zone_info_map = record { entries = [] };
    servlet_ids = record { entries = [] };
  };
  servlets = record {
    max_servlet_id = 0;
    servlet_id_map = record { entries = [] };
    servlet_info_map = record { entries = [] };
  };
  db = (record { entries = [] }, tt);
}

abbrev namespace_request : OpType → ManagerRequest
namespace_request op = record no_request {
  op_type = op;
  namespace_info = some (record no_namespace_info { namespace_name = bytes "n" });
}

abbrev zone_request : OpType → ManagerRequest
zone_request op = record no_request {
  op_type = op;
  zone_info = some (record no_zone_info { namespace_name = bytes "n"; zone = bytes "z" });
}

abbrev servlet_request : ManagerRequest
servlet_request = record no_request {
  op_type = op_create_servlet;
  servlet_info = some (record no_servlet_info {
    namespace_name = bytes "n";
    zone = bytes "z";
    servlet_name = bytes "s";
  });
}

abbrev log : List (ManagerRequest × Done)
log =
    (namespace_request op_create_namespace, none)
    ∷ (zone_request op_create_zone, none)
    ∷ (servlet_request, none)
    ∷ []

start-WellFormed : WellFormed store codecs start
unfolding find
start-WellFormed = record {
  named = λ name id e. elim (none-ne-some id e) [ ];
  stored = λ id info e. elim (none-ne-some info e) [ ];
}

apply_log-WellFormed_example : WellFormed store codecs (apply_log store codecs start log)
apply_log-WellFormed_example = apply_log-WellFormed store codecs start log start-WellFormed

abbrev with_zone : SchemaState store
with_zone = record start {
  namespaces = record {
    max_namespace_id = 1;
    namespace_id_map = record { entries = (bytes "n", 1) ∷ [] };
    namespace_info_map = record {
      entries = (1, record no_namespace_info { namespace_name = bytes "n"; namespace_id = 1 }) ∷ [];
    };
    zone_ids = record { entries = (1, 7 ∷ []) ∷ [] };
  };
  zones = record {
    max_zone_id = 7;
    zone_id_map = record { entries = (bytes "n" ++ (1 ∷ []) ++ bytes "z", 7) ∷ [] };
    zone_info_map = record {
      entries =
          (
            7,
            record no_zone_info {
              namespace_name = bytes "n";
              zone = bytes "z";
              namespace_id = 1;
              zone_id = 7;
            },
          )
          ∷ [];
    };
    servlet_ids = record { entries = [] };
  };
}

abbrev other_request : OpType → ManagerRequest
other_request op = record no_request {
  op_type = op;
  namespace_info = some (record no_namespace_info { namespace_name = bytes "m" });
}

-- A zone in the namespace 1, and the namespace 2 without any.
abbrev two_namespaces : SchemaState store
two_namespaces = apply_log store codecs start (
    (namespace_request op_create_namespace, none)
    ∷ (zone_request op_create_zone, none)
    ∷ (other_request op_create_namespace, none)
    ∷ [])

two_namespaces-WellFormed : WellFormed store codecs two_namespaces
two_namespaces-WellFormed =
    apply_log-WellFormed store codecs start
      ((namespace_request op_create_namespace, none)
        ∷ (zone_request op_create_zone, none)
        ∷ (other_request op_create_namespace, none)
        ∷ [])
      start-WellFormed

abbrev zone_7 : ZoneInfo
zone_7 = record no_zone_info {
  namespace_name = bytes "n";
  zone = bytes "z";
  namespace_id = 1;
  zone_id = 7;
  version = 1;
}

drop_namespace_no_orphans_example : ¬ (zone_7.namespace_id ≡ 2)
unfolding find apply_log create_namespace create_zone assign drop_namespace erase
drop_namespace_no_orphans_example =
    drop_namespace_no_orphans store codecs two_namespaces (other_request op_drop_namespace) none 2
      two_namespaces-WellFormed refl refl 7 zone_7 refl

abbrev after_servlet : SchemaState store
after_servlet = (create_servlet store codecs with_zone servlet_request none).0

abbrev dropped : List Op
dropped = Op.delete (construct_zone_key 7) ∷ []

drop_zone_over_servlet_example :
    (drop_zone store codecs after_servlet (zone_request op_drop_zone) (some no_response)).1
    ≡ if_done_set_response (some no_response) ErrCode.success "success"
unfolding find servlet_of zone_of zone_name_of value_at remove_discovery_info
drop_zone_over_servlet_example =
    drop_zone_over_servlet store codecs with_zone servlet_request (zone_request op_drop_zone) none
      (some no_response) 1 7
      (
        apply_ops after_servlet.db.0 dropped,
        apply_ops-Unique after_servlet.db.0 dropped after_servlet.db.1,
      )
      refl refl refl refl refl refl refl

-- A replica with the database of `after_servlet`, which loads it.
abbrev reloaded : SchemaState store
reloaded = get_or (load_schema_snapshot store codecs after_servlet) start

load_schema_snapshot-AllFiled_example : AllFiled store codecs reloaded
unfolding load_schema_snapshot create_servlet find assign construct_servlet_key
    construct_max_servlet_id_key
load_schema_snapshot-AllFiled_example =
    load_schema_snapshot-AllFiled store codecs after_servlet reloaded refl
