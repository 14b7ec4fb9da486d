-- ===== src/Client/Reads/Servlets.antt =====
-- ea/client/discovery.cc: the functions of DiscoveryClient that read servlets. All of them ask for zones, as in the
-- source.
use ea.Common.{Bool, true, ◌&&◌, Option, List, [], ◌==◌}
use ea.Common.Bytes.{Bytes, bytes_eq}
use ea.Api.{ErrCode, ServletInfo}
use ea.Query.{QueryRequest, QueryResponse, no_query, query_zone}
use ea.Client.Requests.{unknown_error, Status}
use ea.Client.Reads.{
  Read, Files, push_listed, dump_listed, dump_read, save_listed, save_read, list_by, get_by,
}

-- servlet.namespace_name() == ns && servlet.zone() == zone
abbrev pub stands_in : Bytes → Bytes → ServletInfo → Bool
stands_in ns zone servlet = (servlet.namespace_name == ns) && (servlet.zone == zone)

module _ (send : QueryRequest → Status × QueryResponse) (default_code : ErrCode) where
  unfoldable pub list_servlet_infos : List ServletInfo → Status × List ServletInfo
  unfolding list_by
  list_servlet_infos servlet_list =
      list_by send default_code (record no_query { op_type = query_zone }) (λ r. r.servlet_infos)
        (λ servlet. servlet) servlet_list

  unfoldable pub list_servlet_infos_in : Bytes → List ServletInfo → Status × List ServletInfo
  unfolding list_servlet_infos push_listed
  list_servlet_infos_in ns servlet_list =
      push_listed (λ servlet. servlet.namespace_name == ns) (λ servlet. servlet)
        (list_servlet_infos []) servlet_list

  unfoldable pub list_servlet_infos_of :
      Bytes → Bytes → List ServletInfo → Status × List ServletInfo
  unfolding list_servlet_infos push_listed
  list_servlet_infos_of ns zone servlet_list =
      push_listed (stands_in ns zone) (λ servlet. servlet) (list_servlet_infos []) servlet_list

  unfoldable pub list_servlet_names : List Bytes → Status × List Bytes
  unfolding list_servlet_infos push_listed
  list_servlet_names servlet_list =
      push_listed (λ servlet. true) (λ servlet. servlet.servlet_name) (list_servlet_infos [])
        servlet_list

  unfoldable pub list_servlet_names_in : Bytes → List Bytes → Status × List Bytes
  unfolding list_servlet_infos push_listed
  list_servlet_names_in ns servlet_list =
      push_listed (λ servlet. servlet.namespace_name == ns) (λ servlet. servlet.servlet_name)
        (list_servlet_infos []) servlet_list

  unfoldable pub list_servlet_names_of : Bytes → Bytes → List Bytes → Status × List Bytes
  unfolding list_servlet_infos push_listed
  list_servlet_names_of ns zone servlet_list =
      push_listed (stands_in ns zone) (λ servlet. servlet.servlet_name) (list_servlet_infos [])
        servlet_list

  -- The names are not put into the request.
  unfoldable pub get_servlet : Bytes → Bytes → Bytes → Read ServletInfo
  unfolding get_by
  get_servlet ns_name zone_name servlet =
      get_by send default_code (record no_query { op_type = query_zone }) unknown_error
        (λ r. r.servlet_infos)

  module _ (to_json : ServletInfo → Option Bytes) where
    unfoldable pub list_servlet_to_json : List Bytes → Status × List Bytes
    unfolding list_servlet_infos dump_listed
    list_servlet_to_json servlet_list =
        dump_listed (λ servlet. true) to_json (list_servlet_infos []) servlet_list

    unfoldable pub list_servlet_to_json_in : Bytes → List Bytes → Status × List Bytes
    unfolding list_servlet_infos dump_listed
    list_servlet_to_json_in ns servlet_list =
        dump_listed (λ servlet. servlet.namespace_name == ns) to_json (list_servlet_infos [])
          servlet_list

    unfoldable pub list_servlet_to_json_of : Bytes → Bytes → List Bytes → Status × List Bytes
    unfolding list_servlet_infos dump_listed
    list_servlet_to_json_of ns zone servlet_list =
        dump_listed (stands_in ns zone) to_json (list_servlet_infos []) servlet_list

    unfoldable pub list_servlet_to_file : Files → Bytes → Status × List Bytes
    unfolding list_servlet_to_json save_listed
    list_servlet_to_file files save_path = save_listed files save_path (list_servlet_to_json [])

    unfoldable pub list_servlet_to_file_in : Files → Bytes → Bytes → Status × List Bytes
    unfolding list_servlet_to_json_in save_listed
    list_servlet_to_file_in files ns save_path =
        save_listed files save_path (list_servlet_to_json_in ns [])

    unfoldable pub list_servlet_to_file_of : Files → Bytes → Bytes → Bytes → Status × List Bytes
    unfolding list_servlet_to_json_of save_listed
    list_servlet_to_file_of files ns zone save_path =
        save_listed files save_path (list_servlet_to_json_of ns zone [])

    unfoldable pub get_servlet_json : Bytes → Bytes → Bytes → Read Bytes
    unfolding get_servlet dump_read
    get_servlet_json ns_name zone_name servlet =
        dump_read to_json (get_servlet ns_name zone_name servlet)

    unfoldable pub save_servlet_json : Files → Bytes → Bytes → Bytes → Bytes → Status × List Bytes
    unfolding get_servlet dump_read save_read
    save_servlet_json files ns_name zone_name servlet json_path =
        save_read files json_path (dump_read to_json (get_servlet ns_name zone_name servlet))
