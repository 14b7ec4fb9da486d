-- ===== src/Client/Reads/Namespaces.antt =====
-- ea/client/discovery.cc: the functions of DiscoveryClient that read namespaces.
use ea.Common.{true, Option, some, List, [], inl, if◌then◌else◌}
use ea.Common.Bytes.{Bytes}
use ea.Common.Sets.{is_empty}
use ea.Api.{ErrCode, NameSpaceInfo}
use ea.Query.{QueryRequest, QueryResponse, no_query, query_namespace}
use ea.Client.Requests.{invalid_argument, unknown_error, Status}
use ea.Client.Reads.{
  Read, Files, push_listed, dump_listed, dump_read, save_listed, save_read, list_by, get_by,
}

module _ (send : QueryRequest → Status × QueryResponse) (default_code : ErrCode) where
  unfoldable pub list_namespace_infos : List NameSpaceInfo → Status × List NameSpaceInfo
  unfolding list_by
  list_namespace_infos ns_list =
      list_by send default_code (record no_query { op_type = query_namespace })
        (λ r. r.namespace_infos) (λ ns. ns) ns_list

  unfoldable pub list_namespace_names : List Bytes → Status × List Bytes
  unfolding list_namespace_infos push_listed
  list_namespace_names ns_list =
      push_listed (λ ns. true) (λ ns. ns.namespace_name) (list_namespace_infos []) ns_list

  unfoldable pub get_namespace : Bytes → Read NameSpaceInfo
  unfolding get_by
  get_namespace ns_name =
      if is_empty ns_name
      then inl invalid_argument
      else get_by send default_code
          (record no_query { op_type = query_namespace; namespace_name = some ns_name })
          unknown_error (λ r. r.namespace_infos)

  module _ (to_json : NameSpaceInfo → Option Bytes) where
    unfoldable pub list_namespace_to_json : List Bytes → Status × List Bytes
    unfolding list_namespace_infos dump_listed
    list_namespace_to_json ns_list =
        dump_listed (λ ns. true) to_json (list_namespace_infos []) ns_list

    unfoldable pub list_namespace_to_file : Files → Bytes → Status × List Bytes
    unfolding list_namespace_to_json save_listed
    list_namespace_to_file files save_path = save_listed files save_path (list_namespace_to_json [])

    unfoldable pub get_namespace_json : Bytes → Read Bytes
    unfolding get_namespace dump_read
    get_namespace_json ns_name = dump_read to_json (get_namespace ns_name)

    -- save_namespace_json: dump_proto_to_file of what get_namespace reads
    unfoldable pub save_namespace_json : Files → Bytes → Bytes → Status × List Bytes
    unfolding get_namespace dump_read save_read
    save_namespace_json files ns_name json_path =
        save_read files json_path (dump_read to_json (get_namespace ns_name))
