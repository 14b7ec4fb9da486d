-- ===== src/Query/Instances.antt =====
-- ea/discovery/query_instance_manager.cc: the instances of a namespace, a zone or a servlet.
pub mod Listed
use ea.Common.{ℕ, Bool, true, false, Option, none, some, List, [], ◌∷◌, ◌++◌, get_or, if◌then◌else◌}
use ea.Common.Bytes.{Bytes, bytes_eq}
use ea.Common.Maps.{Map, find}
use ea.Common.Sets.{is_empty}
use ea.Api.{ErrCode, ServletInstance}
use ea.Api.Absent.{text_of, no_instance_info}
use ea.Schema.{make_zone_key, make_servlet_key}
use ea.Schema.State.{touch}
use ea.Instances.{Registry}
use ea.Query.{QueryRequest, QueryResponse, QueryInstance, Text, answer}
use ea.Query.Managers.{values_of}

unfoldable pub query_instance : Registry → QueryRequest → QueryResponse → QueryResponse
unfolding answer
query_instance m q r = elim q.instance_address [
  | none ↦ answer r ErrCode.input_param_error (Text.text "no instance address")
  | some address ↦ elim (find m.instance_info address) [
    | none ↦ answer r ErrCode.input_param_error (Text.text "instance not exists")
    | some info ↦
        answer (record r { instances = r.instances ++ (info ∷ []) }) ErrCode.success
          (Text.text "success")
  ]
]

unfoldable pub instance_info_to_query : ServletInstance → QueryInstance
instance_info_to_query i = record {
  namespace_name = text_of i.namespace_name;
  zone_name = text_of i.zone_name;
  servlet_name = text_of i.servlet_name;
  env = text_of i.env;
  color = text_of i.color;
  version = i.version;
  status = get_or i.status 0;
  address = text_of i.address;
}

unfoldable pub all_to_query : List ServletInstance → List QueryInstance
unfolding instance_info_to_query
all_to_query [] = []
all_to_query (i ∷ l) = instance_info_to_query i ∷ all_to_query l

-- for (auto address : set) { auto &info = _instance_info[address]; ... }: the map, and what is added
unfoldable pub read_all :
    Map Bytes ServletInstance → List Bytes → Map Bytes ServletInstance × List QueryInstance
unfolding touch instance_info_to_query
read_all infos [] = (infos, [])
read_all infos (address ∷ l) =
    let (infos', rest) = read_all (touch infos address no_instance_info) l in
    (infos', instance_info_to_query (get_or (find infos address) no_instance_info) ∷ rest)

-- The instances of a set, or the answer that there is none.
unfoldable pub flatten_set :
    Registry → Option (List Bytes) → Text → QueryResponse → Registry × QueryResponse
unfolding read_all answer
flatten_set m none msg r = (m, answer r ErrCode.input_param_error msg)
flatten_set m (some addresses) msg r =
    let (infos, added) = read_all m.instance_info addresses in
    (
      record m { instance_info = infos },
      answer (record r { flatten_instances = r.flatten_instances ++ added }) ErrCode.success
          (Text.text "success"),
    )

-- !request->has_x() || request->x().empty()
abbrev pub is_unset : Option Bytes → Bool
is_unset o = is_empty (text_of o)

unfoldable pub query_instance_flatten :
    Registry → QueryRequest → QueryResponse → Registry × QueryResponse
unfolding answer flatten_set all_to_query values_of make_zone_key make_servlet_key
query_instance_flatten m q r =
    let ns = text_of q.namespace_name in
    let zone = text_of q.zone in
    let servlet = text_of q.servlet in
    let zone_key = make_zone_key ns zone in
    if is_unset q.namespace_name
    then (
      m,
      answer
          (record r {
            flatten_instances =
                r.flatten_instances ++ all_to_query (values_of m.instance_info.entries);
          })
          ErrCode.success (Text.text "success"),
    )
    else if is_unset q.zone
    then flatten_set m (find m.namespace_instance ns)
        (Text.format "no instance in namespace {}" (ns ∷ [])) r
    else if is_unset q.servlet
    then flatten_set m (find m.zone_instance zone_key)
        (Text.format "no instance in namespace {}.{}" (ns ∷ zone ∷ [])) r
    else flatten_set m (find m.servlet_instance (make_servlet_key zone_key servlet))
        (Text.format "no instance in {}.{}.{}" (ns ∷ zone ∷ servlet ∷ [])) r
