-- ===== src/Client/Reads/Zones.antt =====
-- ea/client/discovery.cc: the functions of DiscoveryClient that read zones.
use ea.Common.{true, Option, some, List, [], ◌++◌, ◌==◌, inl, bytes, if◌then◌else◌}
use ea.Common.Bytes.{Bytes, bytes_eq}
use ea.Common.Sets.{is_empty}
use ea.Api.{ErrCode, ZoneInfo}
use ea.Query.{QueryRequest, QueryResponse, no_query, query_zone}
use ea.Client.Requests.{invalid_argument, unknown_error, Status, ok_status, error}
use ea.Client.Reads.{
  Read, Files, push_where, push_listed, dump_listed, dump_read, save_listed, save_read, list_by,
  get_by,
}

-- turbo::Format("{},{}", ...)
abbrev pub zone_text : ZoneInfo → Bytes
zone_text zone = zone.namespace_name ++ bytes "," ++ zone.zone

module _ (send : QueryRequest → Status × QueryResponse) (default_code : ErrCode) where
  unfoldable pub list_zone_infos : List ZoneInfo → Status × List ZoneInfo
  unfolding list_by
  list_zone_infos zone_list =
      list_by send default_code (record no_query { op_type = query_zone }) (λ r. r.zone_infos)
        (λ zone. zone) zone_list

  -- list_zone of a namespace: the first call fills zone_list, and the loop is over all_zone_list, which is
  -- empty, as in the source.
  unfoldable pub list_zone_infos_in : Bytes → List ZoneInfo → Status × List ZoneInfo
  unfolding list_zone_infos push_where
  list_zone_infos_in ns zone_list =
      let all_zone_list : List ZoneInfo = [] in
      let (rs, l) = list_zone_infos zone_list in
      elim rs [
        | error code ↦ (error code, l)
        | ok_status ↦ (
          ok_status,
          push_where (λ zone. zone.namespace_name == ns) (λ zone. zone) all_zone_list l,
        )
      ]

  unfoldable pub list_zone_names : List Bytes → Status × List Bytes
  unfolding list_zone_infos push_listed
  list_zone_names zone_list = push_listed (λ zone. true) zone_text (list_zone_infos []) zone_list

  unfoldable pub list_zone_names_in : Bytes → List Bytes → Status × List Bytes
  unfolding list_zone_infos_in push_listed
  list_zone_names_in ns zone_list =
      push_listed (λ zone. true) zone_text (list_zone_infos_in ns []) zone_list

  unfoldable pub get_zone : Bytes → Bytes → Read ZoneInfo
  unfolding get_by
  get_zone ns_name zone_name =
      if is_empty ns_name
      then inl invalid_argument
      else get_by send default_code
          (record no_query {
            op_type = query_zone;
            namespace_name = some ns_name;
            zone = some zone_name;
          })
          unknown_error (λ r. r.zone_infos)

  module _ (to_json : ZoneInfo → Option Bytes) where
    unfoldable pub list_zone_to_json : List Bytes → Status × List Bytes
    unfolding list_zone_infos dump_listed
    list_zone_to_json zone_list = dump_listed (λ zone. true) to_json (list_zone_infos []) zone_list

    unfoldable pub list_zone_to_json_in : Bytes → List Bytes → Status × List Bytes
    unfolding list_zone_infos_in dump_listed
    list_zone_to_json_in ns zone_list =
        dump_listed (λ zone. true) to_json (list_zone_infos_in ns []) zone_list

    unfoldable pub list_zone_to_file : Files → Bytes → Status × List Bytes
    unfolding list_zone_to_json save_listed
    list_zone_to_file files save_path = save_listed files save_path (list_zone_to_json [])

    unfoldable pub list_zone_to_file_in : Files → Bytes → Bytes → Status × List Bytes
    unfolding list_zone_to_json_in save_listed
    list_zone_to_file_in files ns save_path =
        save_listed files save_path (list_zone_to_json_in ns [])

    unfoldable pub get_zone_json : Bytes → Bytes → Read Bytes
    unfolding get_zone dump_read
    get_zone_json ns_name zone_name = dump_read to_json (get_zone ns_name zone_name)

    unfoldable pub save_zone_json : Files → Bytes → Bytes → Bytes → Status × List Bytes
    unfolding get_zone dump_read save_read
    save_zone_json files ns_name zone_name json_path =
        save_read files json_path (dump_read to_json (get_zone ns_name zone_name))
