-- ===== src/Query/Tests.antt =====
-- Queries at concrete inputs.
use ea.Common.{
  ℕ, sym, subst, if◌then◌else◌, ◌++◌, Bool-cases, inl, inr, eq_refl, nat_eq, ◌≡◌, refl, true, none,
  some, [], ◌∷◌, bytes,
}
use mathlib.Core.Option.{none-ne-some, some-injective}
use ea.Common.Bytes.{Bytes, bytes_eq, bytes_beq}
use ea.Common.Maps.{Map, find, assign, lookup_in}
use ea.Api.{ConfigVersion, ManagerRequest, op_add_instance}
use ea.Api.Absent.{no_request, no_instance_info, no_config_info, no_namespace_info, no_servlet_info}
use ea.Rocks.Store.{store}
use ea.Rocks.Wire.{codec_of}
use ea.Wires.{instance_wire}
use ea.Schema.{SchemaIds}
use ea.Instances.Manager.{InstanceManager, apply_instance, add_instance, clear}
use ea.Instances.Sound.{IsSound, apply_instance-IsSound}
use ea.Discovery.{DiscoveryState}
use ea.Discovery.Sample.{codecs, start, start-IsConsistent}
use ea.Common.Sets.{insert}
use ea.Config.{Listed}
use ea.Config.Triple.{versions, triple_eq}
use ea.Config.Order.{IsIncreasing}
use ea.Query.{QueryRequest, no_query, no_answer, query_instance_flatten_op}
use ea.Query.Service.{discovery_query}
use ea.Query.Service.Unchanged.{AreBacked, discovery_query-unchanged}

abbrev asks_config : QueryRequest
asks_config = record no_query { config_name = some (bytes "c") }

abbrev listed : Listed ConfigVersion
listed =
    (record { major = 1; minor = 0; patch = 0 }, record no_config_info { content = bytes "old" })
    ∷ (record { major = 1; minor = 2; patch = 0 }, record no_config_info { content = bytes "new" })
    ∷ []

abbrev configs : Map Bytes (Listed ConfigVersion)
configs = record { entries = (bytes "c", listed) ∷ [] }

listed-IsIncreasing : IsIncreasing versions listed
listed-IsIncreasing = (((refl, refl), tt), (tt, tt))

-- A map of one name, with its info.
one_backed :
    {I : Type 0} (name : Bytes) (id : ℕ) (info : I)
    → AreBacked {I = I}
        (record { entries = (name, id) ∷ [] })
        (record { entries = (id, info) ∷ [] })
unfolding find lookup_in
one_backed {I} name id info n i e = elim (Bool-cases (bytes_beq name n)) [
  | inl f ↦ (
    info,
    rw
        (
          sym (some-injective id i (subst (λ b. (if b then some id else none) ≡ some i) f e)),
          eq_refl id,
        )
        refl,
  )
  | inr f ↦ elim (none-ne-some i (subst (λ b. (if b then some id else none) ≡ some i) f e)) [ ]
]

-- An instance of the servlet n.z.s is added.
abbrev add_a : ManagerRequest
add_a = record no_request {
  op_type = op_add_instance;
  instance_info = some (record no_instance_info {
    namespace_name = some (bytes "n");
    zone_name = some (bytes "z");
    servlet_name = some (bytes "s");
    address = some (bytes "a");
    env = some (bytes "e");
  });
}

abbrev ids : SchemaIds
ids = record { get_namespace_id = λ name. 1; get_zone_id = λ name. 5; get_servlet_id = λ name. 9 }

abbrev registry : InstanceManager store (codec_of instance_wire) ids
registry =
    (apply_instance store (codec_of instance_wire) ids op_add_instance
      (record { registry = clear; db = start.schema.db }) add_a 0 none).0

registry-IsSound : IsSound registry.registry
registry-IsSound =
    apply_instance-IsSound store (codec_of instance_wire) ids op_add_instance
      (record { registry = clear; db = start.schema.db }) add_a 0 none start-IsConsistent.2

abbrev state : DiscoveryState versions store codecs
state = record start {
  instances = registry.registry;
  schema = record start.schema {
    namespaces = record start.schema.namespaces {
      namespace_id_map = record { entries = (bytes "n", 1) ∷ [] };
      namespace_info_map = record { entries = (1, no_namespace_info) ∷ [] };
    };
    servlets = record start.schema.servlets {
      servlet_id_map = record { entries = (bytes "n" ++ bytes "z" ++ bytes "s", 9) ∷ [] };
      servlet_info_map = record { entries = (9, no_servlet_info) ∷ [] };
    };
  };
}

abbrev asks_namespace : QueryRequest
asks_namespace = record no_query {
  op_type = query_instance_flatten_op;
  namespace_name = some (bytes "n");
}

discovery_query-unchanged_example :
    (discovery_query (λ s. s) versions store codecs true state asks_namespace no_answer).0 ≡ state
discovery_query-unchanged_example =
    discovery_query-unchanged (λ s. s) versions store codecs true state asks_namespace no_answer
      registry-IsSound start-IsConsistent.3 (one_backed (bytes "n") 1 no_namespace_info)
      (one_backed (bytes "n" ++ bytes "z" ++ bytes "s") 9 no_servlet_info)

-- The query finds the instance.
finds_instance :
    (discovery_query
      (λ s. s)
      versions
      store
      codecs
      true
      state
      asks_namespace
      no_answer).1.flatten_instances
    ≡ record {
      namespace_name = bytes "n";
      zone_name = bytes "z";
      servlet_name = bytes "s";
      env = bytes "e";
      color = [];
      version = 1;
      status = 0;
      address = bytes "a";
    }
      ∷ []
unfolding discovery_query apply_instance add_instance clear find assign insert
finds_instance = refl
