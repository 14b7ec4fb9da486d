-- ===== src/Client/Reads/Served.antt =====
-- DiscoveryClient's reads over a sender that reaches the server.
use ea.Common.{◌≡◌, refl, true, false, none, some, List, [], inl, inr, get_or, Option-cases}
use ea.Common.Bytes.{Bytes, bytes_eq}
use ea.Common.Eq.{KeyEq}
use ea.Common.Maps.{find}
use ea.Common.Sets.{is_empty}
use ea.Api.{ErrCode, NameSpaceInfo, ZoneInfo, ServletInfo, ConfigInfo}
use ea.Api.Absent.{no_namespace_info, no_zone_info}
use ea.Rocks.{Rocks}
use ea.Schema.{make_zone_key}
use ea.Schema.State.{value_at}
use ea.Config.{Versions}
use ea.Discovery.{AllCodecs, DiscoveryState}
use ea.Query.{QueryRequest, QueryResponse, no_answer, answer}
use ea.Query.Managers.{
  get_namespace_info, get_zone_info, get_config, asked_config, newest, with_config,
}
use ea.Query.Service.{discovery_query, query_by}
use ea.Client.Requests.{Status, ok_status, unknown_error}
use ea.Client.Reads.{Read, received, list_by, the_only, get_by, get_config_latest, push_where}
use ea.Client.Reads.Namespaces.{get_namespace}
use ea.Client.Reads.Zones.{list_zone_infos, list_zone_infos_in, get_zone}
use ea.Client.Reads.Servlets.{list_servlet_infos, get_servlet}

module _ (trim : Bytes → Bytes) {V : Type 0} ⦃keys : KeyEq V⦄ (versions : Versions V)
    (rocks : Rocks) (codecs : AllCodecs) (default_code : ErrCode)
    (s : DiscoveryState versions rocks codecs) where
  -- The server's answer to a new response.
  abbrev pub served : QueryRequest → Status × QueryResponse
  served q = (ok_status, (discovery_query trim versions rocks codecs true s q no_answer).1)

  -- What the maps of the server say of a name.
  abbrev pub held_namespace : Bytes → Read NameSpaceInfo
  held_namespace ns = elim (find s.schema.namespaces.namespace_id_map ns) [
    | none ↦ inl unknown_error
    | some id ↦ inr (value_at s.schema.namespaces.namespace_info_map id no_namespace_info)
  ]

  abbrev pub held_zone : Bytes → Bytes → Read ZoneInfo
  held_zone ns zone = elim (find s.schema.zones.zone_id_map (make_zone_key ns zone)) [
    | none ↦ inl unknown_error
    | some id ↦ inr (value_at s.schema.zones.zone_info_map id no_zone_info)
  ]

  abbrev pub held_config : Bytes → Read ConfigInfo
  held_config name = elim (newest versions (get_or (find s.configs name) [])) [
    | none ↦ inl unknown_error
    | some config ↦ inr config
  ]

  get_namespace-served :
      (ns : Bytes) → is_empty ns ≡ false → get_namespace served default_code ns ≡ held_namespace ns
  unfolding get_namespace get_by received the_only discovery_query query_by get_namespace_info
      answer
  get_namespace-served ns e = elim (Option-cases (find s.schema.namespaces.namespace_id_map ns)) [
    | inl f ↦ rw (get_namespace, held_namespace, e, get_by, received, get_namespace_info, f) refl
    | inr (id, f) ↦
        rw (get_namespace, held_namespace, e, get_by, received, get_namespace_info, f) refl
  ]

  get_zone-served :
      (ns zone : Bytes)
      → is_empty ns ≡ false
      → get_zone served default_code ns zone ≡ held_zone ns zone
  unfolding get_zone get_by received the_only discovery_query query_by get_zone_info answer
  get_zone-served ns zone e =
      elim (Option-cases (find s.schema.zones.zone_id_map (make_zone_key ns zone))) [
        | inl f ↦ rw (get_zone, held_zone, e, get_by, received, get_zone_info, f) refl
        | inr (id, f) ↦ rw (get_zone, held_zone, e, get_by, received, get_zone_info, f) refl
      ]

  get_config_latest-served :
      (name : Bytes) → get_config_latest served default_code name ≡ held_config name
  unfolding get_config_latest get_by received the_only discovery_query query_by get_config
      asked_config with_config answer
  get_config_latest-served name =
      elim (Option-cases (newest versions (get_or (find s.configs name) []))) [
        | inl f ↦
            rw (get_config_latest, held_config, get_by, received, get_config, asked_config, f) refl
        | inr (config, f) ↦
            rw (get_config_latest, held_config, get_by, received, get_config, asked_config, f) refl
      ]

  -- Over a sender that reaches the server, get_namespace and get_zone, for a namespace with a name, and
  -- get_config_latest return what the server's maps have for the names, the newest version for a
  -- config, and UnknownError for what is not there.
  pub reads_served :
      (ns zone name : Bytes)
      → is_empty ns ≡ false
      → (get_namespace served default_code ns ≡ held_namespace ns)
        × (get_zone served default_code ns zone ≡ held_zone ns zone)
        × (get_config_latest served default_code name ≡ held_config name)
  reads_served ns zone name e =
      (get_namespace-served ns e, get_zone-served ns zone e, get_config_latest-served name)

  -- Whatever the server holds, get_servlet returns UnknownError, the list of the servlets is empty, and the list
  -- of the zones of a namespace is that of all zones.
  pub servlets_unread :
      (ns zone servlet : Bytes) (servlets : List ServletInfo) (zones : List ZoneInfo)
      → (get_servlet served default_code ns zone servlet ≡ inl unknown_error)
        × (list_servlet_infos served default_code servlets ≡ (ok_status, servlets))
        × (list_zone_infos_in served default_code ns zones
            ≡ list_zone_infos served default_code zones)
  unfolding get_servlet list_servlet_infos list_zone_infos_in list_zone_infos list_by get_by
      received the_only push_where discovery_query query_by get_zone_info answer
  servlets_unread ns zone servlet servlets zones = (refl, refl, refl)
