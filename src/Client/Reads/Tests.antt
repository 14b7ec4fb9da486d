-- ===== src/Client/Reads/Tests.antt =====
-- DiscoveryClient's reads at concrete inputs.
use ea.Common.{◌≡◌, refl, some, [], ◌∷◌, inl, inr, bytes}
use ea.Common.Bytes.{bytes_eq}
use ea.Common.Maps.{find}
use ea.Api.{ErrCode}
use ea.Api.Absent.{no_namespace_info, no_zone_info, no_config_info}
use ea.Rocks.Store.{store}
use ea.Schema.State.{value_at}
use ea.Query.Service.{discovery_query}
use ea.Config.Triple.{versions, triple_eq}
use ea.Discovery.{DiscoveryState}
use ea.Discovery.Sample.{codecs, start}
use ea.Client.Requests.{ok_status, error, unknown_error}
use ea.Client.Reads.{get_config_latest, write_all, Files, save_listed}
use ea.Client.Reads.Namespaces.{get_namespace, list_namespace_to_file}
use ea.Client.Reads.Zones.{list_zone_infos, list_zone_infos_in, get_zone}
use ea.Client.Reads.Servlets.{list_servlet_infos, get_servlet}
use ea.Client.Reads.Served.{
  served, held_namespace, held_zone, held_config, reads_served, servlets_unread,
}

-- The namespaces n and m with a zone each, and a config.
abbrev state : DiscoveryState versions store codecs
state = record start {
  configs = record {
    entries = (bytes "c", (record { major = 1; minor = 0; patch = 0 }, no_config_info) ∷ []) ∷ [];
  };
  schema = record start.schema {
    namespaces = record start.schema.namespaces {
      namespace_id_map = record { entries = (bytes "n", 1) ∷ (bytes "m", 2) ∷ [] };
      namespace_info_map = record {
        entries =
            (1, record no_namespace_info { namespace_name = bytes "n" })
            ∷ (2, record no_namespace_info { namespace_name = bytes "m" })
            ∷ [];
      };
    };
    zones = record start.schema.zones {
      zone_info_map = record {
        entries =
            (1, record no_zone_info { namespace_name = bytes "n"; zone = bytes "z" })
            ∷ (2, record no_zone_info { namespace_name = bytes "m"; zone = bytes "y" })
            ∷ [];
      };
    };
  };
}

reads_served_example :
    (get_namespace
        (served (λ s. s) versions store codecs ErrCode.success state)
        ErrCode.success
        (bytes "n")
      ≡ held_namespace (λ s. s) versions store codecs ErrCode.success state (bytes "n"))
    × (get_zone
          (served (λ s. s) versions store codecs ErrCode.success state)
          ErrCode.success
          (bytes "n")
          (bytes "x")
        ≡ held_zone (λ s. s) versions store codecs ErrCode.success state (bytes "n") (bytes "x"))
    × (get_config_latest
          (served (λ s. s) versions store codecs ErrCode.success state)
          ErrCode.success
          (bytes "c")
        ≡ held_config (λ s. s) versions store codecs ErrCode.success state (bytes "c"))
reads_served_example =
    reads_served (λ s. s) versions store codecs ErrCode.success state (bytes "n") (bytes "x")
      (bytes "c") refl

namespace_found :
    held_namespace (λ s. s) versions store codecs ErrCode.success state (bytes "m")
    ≡ inr (record no_namespace_info { namespace_name = bytes "m" })
unfolding find value_at
namespace_found = refl

servlets_unread_example :
    (get_servlet
        (served (λ s. s) versions store codecs ErrCode.success state)
        ErrCode.success
        (bytes "n")
        (bytes "z")
        (bytes "s")
      ≡ inl unknown_error)
    × (list_servlet_infos
          (served (λ s. s) versions store codecs ErrCode.success state)
          ErrCode.success
          []
        ≡ (ok_status, []))
    × (list_zone_infos_in
          (served (λ s. s) versions store codecs ErrCode.success state)
          ErrCode.success
          (bytes "n")
          []
        ≡ list_zone_infos
            (served (λ s. s) versions store codecs ErrCode.success state)
            ErrCode.success
            [])
servlets_unread_example =
    servlets_unread (λ s. s) versions store codecs ErrCode.success state (bytes "n") (bytes "z")
      (bytes "s") [] []

-- A disk that takes one text: the second is refused, and the first stays in the file.
abbrev full_disk : Files
full_disk = record {
  open_file = λ path. ok_status;
  write_file = λ held text. elim held [ [] ↦ ok_status | b ∷ l ↦ error unknown_error ];
}

half_written :
    list_namespace_to_file
      (served (λ s. s) versions store codecs ErrCode.success state)
      ErrCode.success
      (λ ns. some ns.namespace_name)
      full_disk
      (bytes "f")
    ≡ (error unknown_error, bytes "n" ∷ [])
unfolding list_namespace_to_file save_listed write_all discovery_query
half_written = refl
