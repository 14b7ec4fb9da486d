-- ===== src/Query/Managers.antt =====
-- ea/discovery/query_{namespace,zone,servlet,privilege,config}_manager.cc: what the managers answer from their maps.
-- A map that operator[] may add to comes back beside the answer.
use ea.Common.{Option, none, some, List, [], ◌∷◌, ◌++◌, nat_eq, get_or}
use ea.Common.Bytes.{Bytes, bytes_eq}
use ea.Common.Eq.{KeyEq}
use ea.Common.Maps.{Map, find, lookup_in}
use ea.Api.{ErrCode, UserPrivilege, ConfigInfo, ConfigVersion}
use ea.Api.Absent.{text_of, no_namespace_info, no_zone_info, no_servlet_info, no_config_info}
use ea.Schema.{make_zone_key, make_servlet_key}
use ea.Schema.State.{NamespaceManager, ZoneManager, ServletManager, value_at, touch}
use ea.Config.{Versions, Listed, module_version}
use ea.Query.{QueryRequest, QueryResponse, Text, answer}

-- for (auto &it : m) add(it.second)
unfoldable pub values_of : {K V : Type 0} → List (K × V) → List V
values_of [] = []
values_of ((k, v) ∷ l) = v ∷ values_of l

unfoldable pub get_namespace_info :
    NamespaceManager → QueryRequest → QueryResponse → NamespaceManager × QueryResponse
unfolding values_of value_at touch answer
get_namespace_info m q r = elim q.namespace_name [
  | none ↦ (
    m,
    record r { namespace_infos = r.namespace_infos ++ values_of m.namespace_info_map.entries },
  )
  | some name ↦ elim (find m.namespace_id_map name) [
    | none ↦ (m, answer r ErrCode.input_param_error (Text.text "namespace not exist"))
    | some id ↦ (
      record m { namespace_info_map = touch m.namespace_info_map id no_namespace_info },
      record r {
        namespace_infos =
            r.namespace_infos ++ (value_at m.namespace_info_map id no_namespace_info ∷ []);
      },
    )
  ]
]

unfoldable pub get_zone_info :
    ZoneManager → QueryRequest → QueryResponse → ZoneManager × QueryResponse
unfolding values_of value_at touch answer make_zone_key
get_zone_info m q r = elim q.zone [
  | none ↦ (m, record r { zone_infos = r.zone_infos ++ values_of m.zone_info_map.entries })
  | some zone ↦ elim (find m.zone_id_map (make_zone_key (text_of q.namespace_name) zone)) [
    | none ↦ (m, answer r ErrCode.input_param_error (Text.text "zone not exist"))
    | some id ↦ (
      record m { zone_info_map = touch m.zone_info_map id no_zone_info },
      record r { zone_infos = r.zone_infos ++ (value_at m.zone_info_map id no_zone_info ∷ []) },
    )
  ]
]

unfoldable pub get_servlet_info :
    ServletManager → QueryRequest → QueryResponse → ServletManager × QueryResponse
unfolding values_of value_at touch answer make_zone_key make_servlet_key
get_servlet_info m q r = elim q.servlet [
  | none ↦ (m, record r { servlet_infos = r.servlet_infos ++ values_of m.servlet_info_map.entries })
  | some servlet ↦
      let zone = make_zone_key (text_of q.namespace_name) (text_of q.zone) in
      elim (find m.servlet_id_map (make_servlet_key zone servlet)) [
        | none ↦ (m, answer r ErrCode.input_param_error (Text.text "servlet not exist"))
        | some id ↦ (
          record m { servlet_info_map = touch m.servlet_info_map id no_servlet_info },
          record r {
            servlet_infos =
                r.servlet_infos ++ (value_at m.servlet_info_map id no_servlet_info ∷ []);
          },
        )
      ]
]

unfoldable pub get_user_info :
    Map Bytes UserPrivilege → QueryRequest → QueryResponse → QueryResponse
unfolding values_of answer
get_user_info users q r = elim q.user_name [
  | none ↦ record r { user_privilege = r.user_privilege ++ values_of users.entries }
  | some name ↦ elim (find users name) [
    | none ↦ answer r ErrCode.input_param_error (Text.text "username not exist")
    | some u ↦ record r { user_privilege = r.user_privilege ++ (u ∷ []) }
  ]
]

-- *(response->add_config_infos()) = config, and the success
unfoldable pub with_config : QueryResponse → ConfigInfo → QueryResponse
unfolding answer
with_config r config =
    answer (record r { config_infos = r.config_infos ++ (config ∷ []) }) ErrCode.success
      (Text.text "success")

module _ {V : Type 0} ⦃keys : KeyEq V⦄ (versions : Versions V) where
  -- rbegin(), where there is one
  unfoldable pub newest : Listed V → Option ConfigInfo
  newest [] = none
  newest ((v, info) ∷ []) = some info
  newest (entry ∷ next ∷ l) = newest (next ∷ l)

  -- the entry that a request asks for
  unfoldable pub asked_config : Listed V → Option ConfigVersion → Option ConfigInfo
  unfolding newest module_version lookup_in
  asked_config listed none = newest listed
  asked_config listed (some v) = lookup_in (module_version versions v) listed

  unfoldable pub get_config : Map Bytes (Listed V) → QueryRequest → QueryResponse → QueryResponse
  unfolding asked_config with_config answer
  get_config configs q r = elim q.config_name [
    | none ↦ answer r ErrCode.input_param_error (Text.text "config name not set")
    | some name ↦ elim (asked_config (get_or (find configs name) []) q.config_version) [
      | none ↦ answer r ErrCode.input_param_error (Text.text "config not exist")
      | some config ↦ with_config r config
    ]
  ]

  unfoldable pub names_of : List (Bytes × Listed V) → List ConfigInfo
  names_of [] = []
  names_of ((name, listed) ∷ l) = record no_config_info { name = name } ∷ names_of l

  unfoldable pub list_config : Map Bytes (Listed V) → QueryResponse → QueryResponse
  unfolding names_of answer
  list_config configs r =
      answer (record r { config_infos = r.config_infos ++ names_of configs.entries })
        ErrCode.success (Text.text "success")

  unfoldable pub list_config_version :
      Map Bytes (Listed V) → QueryRequest → QueryResponse → QueryResponse
  unfolding values_of answer
  list_config_version configs q r = elim q.config_name [
    | none ↦ answer r ErrCode.input_param_error (Text.text "config name not set")
    | some name ↦ elim (find configs name) [
      | none ↦ answer r ErrCode.input_param_error (Text.text "config not exist")
      | some listed ↦
          answer (record r { config_infos = r.config_infos ++ values_of listed }) ErrCode.success
            (Text.text "success")
    ]
  ]
