-- ===== src/Query/Service/Unchanged.antt =====
-- discovery_query: what a query leaves of the managers' maps, which operator[] may add to.
use ea.Common.{
  ℕ, ◌≡◌, refl, Bool, true, false, some, List, nat_eq, Bool-cases, Option-cases, inl, inr,
}
use ea.Common.Bytes.{Bytes, bytes_eq}
use ea.Common.Eq.{KeyEq}
use ea.Common.Maps.{Map, find}
use ea.Api.{ServletInstance}
use ea.Api.Absent.{text_of, no_namespace_info, no_zone_info, no_servlet_info}
use ea.Rocks.{Rocks}
use ea.Schema.{make_zone_key, make_servlet_key}
use ea.Schema.State.{NamespaceManager, ZoneManager, ServletManager, touch-found}
use ea.Schema.WellFormed.{WellFormed}
use ea.Config.{Versions}
use ea.Instances.{Registry, namespace_key_of, zone_key_of, servlet_key_of}
use ea.Instances.Index.{Points}
use ea.Instances.Sound.{IsSound}
use ea.Discovery.{AllCodecs, DiscoveryState}
use ea.Query.{
  QueryOp, QueryRequest, QueryResponse, Text, query_user_privilege, query_namespace, query_zone,
  query_servlet, query_get_config, query_list_config, query_list_config_version,
  query_privilege_flatten, query_instance_op, query_instance_flatten_op, query_other,
}
use ea.Query.Managers.{get_namespace_info, get_zone_info, get_servlet_info}
use ea.Query.Instances.{is_unset, flatten_set, query_instance_flatten}
use ea.Query.Instances.Listed.{read_all-AreLive}
use ea.Query.Service.{query_by, discovery_query}

-- Every name that has an id has the info of the id.
abbrev pub AreBacked : {I : Type 0} → Map Bytes ℕ → Map ℕ I → Type 0
AreBacked {I} ids infos =
    (name : Bytes) (id : ℕ) → find ids name ≡ some id → (info : I) × (find infos id ≡ some info)

get_namespace_info-unchanged :
    (m : NamespaceManager) (q : QueryRequest) (r : QueryResponse)
    → AreBacked m.namespace_id_map m.namespace_info_map
    → (get_namespace_info m q r).0 ≡ m
unfolding get_namespace_info
get_namespace_info-unchanged m q r h = elim (Option-cases q.namespace_name) [
  | inl e ↦ rw (get_namespace_info, e) refl
  | inr (name, e) ↦ elim (Option-cases (find m.namespace_id_map name)) [
    | inl f ↦ rw (get_namespace_info, e, f) refl
    | inr (id, f) ↦
        let (info, g) = h name id f in
        rw (get_namespace_info, e, f, touch-found m.namespace_info_map id no_namespace_info info g)
          refl
  ]
]

get_zone_info-unchanged :
    (m : ZoneManager) (q : QueryRequest) (r : QueryResponse)
    → AreBacked m.zone_id_map m.zone_info_map
    → (get_zone_info m q r).0 ≡ m
unfolding get_zone_info
get_zone_info-unchanged m q r h = elim (Option-cases q.zone) [
  | inl e ↦ rw (get_zone_info, e) refl
  | inr (zone, e) ↦
      let name = make_zone_key (text_of q.namespace_name) zone in
      elim (Option-cases (find m.zone_id_map name)) [
        | inl f ↦ rw (get_zone_info, e, f) refl
        | inr (id, f) ↦
            let (info, g) = h name id f in
            rw (get_zone_info, e, f, touch-found m.zone_info_map id no_zone_info info g) refl
      ]
]

get_servlet_info-unchanged :
    (m : ServletManager) (q : QueryRequest) (r : QueryResponse)
    → AreBacked m.servlet_id_map m.servlet_info_map
    → (get_servlet_info m q r).0 ≡ m
unfolding get_servlet_info
get_servlet_info-unchanged m q r h = elim (Option-cases q.servlet) [
  | inl e ↦ rw (get_servlet_info, e) refl
  | inr (servlet, e) ↦
      let zone = make_zone_key (text_of q.namespace_name) (text_of q.zone) in
      let name = make_servlet_key zone servlet in
      elim (Option-cases (find m.servlet_id_map name)) [
        | inl f ↦ rw (get_servlet_info, e, f) refl
        | inr (id, f) ↦
            let (info, g) = h name id f in
            rw (get_servlet_info, e, f, touch-found m.servlet_info_map id no_servlet_info info g)
              refl
      ]
]

flatten_set-unchanged :
    (m : Registry) (key_of : ServletInstance → Bytes) (index : Map Bytes (List Bytes)) (key : Bytes)
    (msg : Text) (r : QueryResponse)
    → Points key_of index m.instance_info
    → (flatten_set m (find index key) msg r).0 ≡ m
unfolding flatten_set
flatten_set-unchanged m key_of index key msg r h = elim (Option-cases (find index key)) [
  | inl e ↦ rw (flatten_set, e) refl
  | inr (addresses, e) ↦
      let live =
        read_all-AreLive key_of m.instance_info key addresses (λ a listed. h key a (rw e listed)) in
      rw (flatten_set, e, live.0) refl
]

query_instance_flatten-unchanged :
    (m : Registry) (q : QueryRequest) (r : QueryResponse)
    → IsSound m
    → (query_instance_flatten m q r).0 ≡ m
unfolding query_instance_flatten
query_instance_flatten-unchanged m q r h =
    let ns = text_of q.namespace_name in
    let zone = make_zone_key ns (text_of q.zone) in
    let servlet = make_servlet_key zone (text_of q.servlet) in
    elim (Bool-cases (is_unset q.namespace_name)) [
      | inl e ↦ rw (query_instance_flatten, e) refl
      | inr e ↦ elim (Bool-cases (is_unset q.zone)) [
        | inl f ↦
            rw (query_instance_flatten, e, f)
              (flatten_set-unchanged m namespace_key_of m.namespace_instance ns _ r h.0)
        | inr f ↦ elim (Bool-cases (is_unset q.servlet)) [
          | inl g ↦
              rw (query_instance_flatten, e, f, g)
                (flatten_set-unchanged m zone_key_of m.zone_instance zone _ r h.1)
          | inr g ↦
              rw (query_instance_flatten, e, f, g)
                (flatten_set-unchanged m servlet_key_of m.servlet_instance servlet _ r h.2)
        ]
      ]
    ]

module _ (trim : Bytes → Bytes) {V : Type 0} ⦃keys : KeyEq V⦄ (versions : Versions V)
    (rocks : Rocks) (codecs : AllCodecs) where
  query_by-unchanged :
      (op : QueryOp) (s : DiscoveryState versions rocks codecs) (q : QueryRequest)
      (r : QueryResponse)
      → IsSound s.instances
      → WellFormed rocks codecs.schema_codecs s.schema
      → AreBacked s.schema.namespaces.namespace_id_map s.schema.namespaces.namespace_info_map
      → AreBacked s.schema.servlets.servlet_id_map s.schema.servlets.servlet_info_map
      → (query_by trim versions rocks codecs op s q r).0 ≡ s
  unfolding query_by
  query_by-unchanged query_namespace s q r sound zoned named served =
      rw (get_namespace_info-unchanged s.schema.namespaces q r named) refl
  query_by-unchanged query_zone s q r sound zoned named served =
      rw
        (get_zone_info-unchanged s.schema.zones q r
          (λ name id e. let (info, f, g) = zoned.named name id e in (info, f)))
        refl
  query_by-unchanged query_servlet s q r sound zoned named served =
      rw (get_servlet_info-unchanged s.schema.servlets q r served) refl
  query_by-unchanged query_instance_flatten_op s q r sound zoned named served =
      rw (query_instance_flatten-unchanged s.instances q r sound) refl
  query_by-unchanged query_user_privilege s q r sound zoned named served = refl
  query_by-unchanged query_get_config s q r sound zoned named served = refl
  query_by-unchanged query_list_config s q r sound zoned named served = refl
  query_by-unchanged query_list_config_version s q r sound zoned named served = refl
  query_by-unchanged query_privilege_flatten s q r sound zoned named served = refl
  query_by-unchanged query_instance_op s q r sound zoned named served = refl
  query_by-unchanged query_other s q r sound zoned named served = refl

  -- A query changes nothing in the managers, whatever it asks for, where their maps fit together: the indexes of
  -- the instances list live ones alone, and every name with an id has the info of the id.
  pub discovery_query-unchanged :
      (init_success : Bool) (s : DiscoveryState versions rocks codecs) (q : QueryRequest)
      (r : QueryResponse)
      → IsSound s.instances
      → WellFormed rocks codecs.schema_codecs s.schema
      → AreBacked s.schema.namespaces.namespace_id_map s.schema.namespaces.namespace_info_map
      → AreBacked s.schema.servlets.servlet_id_map s.schema.servlets.servlet_info_map
      → (discovery_query trim versions rocks codecs init_success s q r).0 ≡ s
  unfolding discovery_query
  discovery_query-unchanged true s q r sound zoned named served =
      query_by-unchanged q.op_type s q _ sound zoned named served
  discovery_query-unchanged false s q r sound zoned named served = refl
