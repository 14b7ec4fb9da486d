-- ===== src/Discovery/Sample.antt =====
-- A state machine of the discovery data that has applied nothing, and a log over all the managers, for the
-- examples.
use ea.Common.{ℕ, Option, none, some, List, [], ◌∷◌, bytes, arith}
use mathlib.Core.Option.{none-ne-some}
use ea.Common.Bytes.{bytes_eq}
use ea.Common.Int.{pos}
use ea.Common.Maps.{find, empty, lookup_in}
use ea.Common.Sets.{contains}
use ea.Api.{
  ManagerRequest, op_create_user, op_create_namespace, op_create_zone, op_create_servlet,
  op_add_instance,
}
use ea.Api.Absent.{
  no_request, no_response, no_namespace_info, no_zone_info, no_servlet_info, no_user_privilege,
  no_instance_info,
}
use ea.Rocks.Store.{store}
use ea.Rocks.Wire.{codec_of}
use ea.Wires.{user_wire, config_wire, instance_wire}
use ea.Wires.Schemas.{namespace_wire, zone_wire, servlet_wire}
use ea.Config.Triple.{versions, triple_eq}
use ea.Instances.Manager.{clear}
use ea.Discovery.{AllCodecs, Applied, DiscoveryState}
use ea.Discovery.Held.{IsConsistent}

abbrev pub codecs : AllCodecs
codecs = record {
  user_codec = codec_of user_wire;
  schema_codecs = record {
    namespace_codec = codec_of namespace_wire;
    zone_codec = codec_of zone_wire;
    servlet_codec = codec_of servlet_wire;
  };
  config_codec = codec_of config_wire;
  instance_codec = codec_of instance_wire;
}

abbrev pub start : DiscoveryState versions store codecs
start = record {
  users = record { entries = [] };
  schema = record {
    namespaces = record {
      max_namespace_id = 0;
      namespace_id_map = record { entries = [] };
      namespace_info_map = record { entries = [] };
      zone_ids = record { entries = [] };
    };
    zones = record {
      max_zone_id = 0;
      zone_id_map = record { entries = [] };
      zone_info_map = record { entries = [] };
      servlet_ids = record { entries = [] };
    };
    servlets = record {
      max_servlet_id = 0;
      servlet_id_map = record { entries = [] };
      servlet_info_map = record { entries = [] };
    };
    db = (record { entries = [] }, tt);
  };
  configs = record { entries = [] };
  instances = clear;
  applied_index = pos 0;
}

pub start-IsConsistent : IsConsistent versions store codecs start
unfolding clear find empty contains lookup_in
start-IsConsistent = (
  λ username. tt,
  (λ a. tt, λ a i e. elim (none-ne-some i e) [ ]),
  (
    λ k a h. ground arith,
    λ k a h. ground arith,
    λ k a h. ground arith,
    λ a i e. elim (none-ne-some i e) [ ],
  ),
  record {
    named = λ name id e. elim (none-ne-some id e) [ ];
    stored = λ id info e. elim (none-ne-some info e) [ ];
  },
  λ name. tt,
  λ p k. tt,
)

-- An entry with a closure, at the index and the clock given.
abbrev pub at : ℕ → Option ManagerRequest → Applied
at index request = record {
  index = index;
  now = index;
  entry = record { request = request; done = some no_response };
}

-- A namespace, a zone and a servlet in it, a user of the namespace, an instance of the servlet, and bytes that do
-- not parse.
abbrev pub log : List Applied
log =
    at 1 (
      some (record no_request {
        op_type = op_create_namespace;
        namespace_info = some (record no_namespace_info { namespace_name = bytes "n" });
      }))
    ∷ at 2 (
        some (record no_request {
          op_type = op_create_zone;
          zone_info = some (record no_zone_info { namespace_name = bytes "n"; zone = bytes "z" });
        }))
    ∷ at 3 (
        some (record no_request {
          op_type = op_create_servlet;
          servlet_info = some (record no_servlet_info {
            namespace_name = bytes "n";
            zone = bytes "z";
            servlet_name = bytes "s";
          });
        }))
    ∷ at 4 (
        some (record no_request {
          op_type = op_create_user;
          user_privilege = some (record no_user_privilege {
            username = bytes "u";
            password = some (bytes "p");
            namespace_name = bytes "n";
          });
        }))
    ∷ at 5 (
        some (record no_request {
          op_type = op_add_instance;
          instance_info = some (record no_instance_info {
            namespace_name = some (bytes "n");
            zone_name = some (bytes "z");
            servlet_name = some (bytes "s");
            address = some (bytes "a");
            env = some (bytes "e");
          });
        }))
    ∷ at 6 none
    ∷ []
