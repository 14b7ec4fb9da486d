-- ===== src/Discovery/SchemaEffects.antt =====
-- NamespaceManager, ZoneManager and ServletManager: the effect of each operation.
use ea.Common.{String, ◌≡◌, ◌+◌, refl, List, [], inl, inr, ◌==◌, nat_eq, Bool-cases, Option-cases}
use ea.Common.Bytes.{bytes_eq}
use ea.Common.Maps.{find, has}
use ea.Common.Sets.{is_empty}
use ea.Api.{ErrCode, ManagerRequest}
use ea.Api.Absent.{no_namespace_info, no_zone_info}
use ea.Base.{Done, if_done_set_response}
use ea.Rocks.{
  Op, Rocks, put_discovery_info, put_discovery_infos, remove_discovery_info, same_size, puts,
  deletes,
}
use ea.Schema.State.{
  SchemaState, Codecs, value_at, id_or_zero, construct_namespace_key, construct_zone_key,
  construct_max_namespace_id_key, construct_max_zone_id_key,
}
use ea.Schema.Namespaces.{
  commit, namespace_of, modified_namespace, create_namespace, drop_namespace, modify_namespace,
}
use ea.Schema.Zones.{
  zone_of, zone_name_of, inherit, modified_zone, create_zone, drop_zone, modify_zone,
}
use ea.Schema.Reload.{starts_with}
use ea.Discovery.Readable.{SchemaParses, serialized}
use ea.Discovery.Effects.{Effect, Under, quiet, written}

module _ (rocks : Rocks) (codecs : Codecs) where
  -- The database and the answer after an operation.
  abbrev pub ends : SchemaState rocks × Done → rocks.Db × Done
  ends result = (result.0.db, result.1)

  pub bad_input :
      (s : SchemaState rocks) (d : Done) (msg : String)
      → Effect rocks 1
          (SchemaParses codecs)
          s.db
          d
          (s.db, if_done_set_response d ErrCode.input_param_error msg)
  bad_input s d msg = quiet rocks 1 (SchemaParses codecs) s.db d ErrCode.input_param_error msg

  pub no_text :
      (s : SchemaState rocks) (d : Done)
      → Effect rocks 1
          (SchemaParses codecs)
          s.db
          d
          (s.db, if_done_set_response d ErrCode.parse_to_pb_fail "serializeToArray fail")
  no_text s d =
      quiet rocks 1 (SchemaParses codecs) s.db d ErrCode.parse_to_pb_fail "serializeToArray fail"

  pub commit-Effect :
      (s : SchemaState rocks) (ops : List Op) (next : rocks.Db → SchemaState rocks) (d : Done)
      → Under 1 (SchemaParses codecs) ops
      → ((db : rocks.Db) → (next db).db ≡ db)
      → Effect rocks 1
          (SchemaParses codecs)
          s.db
          d
          (ends (commit rocks codecs s (rocks.write s.db ops) next d))
  unfolding commit
  commit-Effect s ops next d u keeps = elim (Option-cases (rocks.write s.db ops)) [
    | inl e ↦
        rw (commit, e)
          (quiet rocks 1 (SchemaParses codecs) s.db d ErrCode.internal_error "write db fail")
    | inr (db, e) ↦
        rw (commit, e, keeps db)
          (written rocks 1 (SchemaParses codecs) s.db db d ops ErrCode.success "success" u e)
  ]

  pub create_namespace-Effect :
      (s : SchemaState rocks) (request : ManagerRequest) (d : Done)
      → Effect rocks 1
          (SchemaParses codecs)
          s.db
          d
          (ends (create_namespace rocks codecs s request d))
  unfolding create_namespace starts_with put_discovery_infos same_size puts construct_namespace_key
      construct_max_namespace_id_key
  create_namespace-Effect s request d =
      let id = s.namespaces.max_namespace_id + 1 in
      let info = record (namespace_of request) { namespace_id = id; version = 1 } in
      elim (Bool-cases (has s.namespaces.namespace_id_map info.namespace_name)) [
        | inl e ↦ rw (create_namespace, e) (bad_input s d "namespace already existed")
        | inr e ↦ elim (Option-cases (codecs.namespace_codec.serialize info)) [
          | inl f ↦ rw (create_namespace, e, f) (no_text s d)
          | inr (value, f) ↦
              rw (create_namespace, e, f)
                (commit-Effect s _ _ d
                  (refl, serialized codecs.namespace_codec info value f, (refl, refl, tt))
                  (λ db. refl))
        ]
      ]

  pub drop_namespace-Effect :
      (s : SchemaState rocks) (request : ManagerRequest) (d : Done)
      → Effect rocks 1 (SchemaParses codecs) s.db d (ends (drop_namespace rocks codecs s request d))
  unfolding drop_namespace remove_discovery_info deletes construct_namespace_key
  drop_namespace-Effect s request d =
      elim (Option-cases
        (find s.namespaces.namespace_id_map (namespace_of request).namespace_name)) [
          | inl e ↦ rw (drop_namespace, e) (bad_input s d "namespace not exist")
          | inr (id, e) ↦ elim (Bool-cases (is_empty (value_at s.namespaces.zone_ids id []))) [
            | inr f ↦ rw (drop_namespace, e, f) (bad_input s d "namespace has servlet")
            | inl f ↦ rw (drop_namespace, e, f) (commit-Effect _ _ _ d (refl, tt) (λ db. refl))
          ]
        ]

  pub modify_namespace-Effect :
      (s : SchemaState rocks) (request : ManagerRequest) (d : Done)
      → Effect rocks 1
          (SchemaParses codecs)
          s.db
          d
          (ends (modify_namespace rocks codecs s request d))
  unfolding modify_namespace starts_with put_discovery_info construct_namespace_key
  modify_namespace-Effect s request d =
      elim (Option-cases
        (find s.namespaces.namespace_id_map (namespace_of request).namespace_name)) [
          | inl e ↦ rw (modify_namespace, e) (bad_input s d "namespace not exist")
          | inr (id, e) ↦
              let info =
                modified_namespace (namespace_of request)
                  (value_at s.namespaces.namespace_info_map id no_namespace_info) in
              elim (Option-cases (codecs.namespace_codec.serialize info)) [
                | inl f ↦ rw (modify_namespace, e, f) (no_text s d)
                | inr (value, f) ↦
                    rw (modify_namespace, e, f)
                      (commit-Effect _ _ _ d
                        (refl, serialized codecs.namespace_codec info value f, tt) (λ db. refl))
              ]
        ]

  pub create_zone-Effect :
      (s : SchemaState rocks) (request : ManagerRequest) (d : Done)
      → Effect rocks 1 (SchemaParses codecs) s.db d (ends (create_zone rocks codecs s request d))
  unfolding create_zone starts_with put_discovery_infos same_size puts construct_zone_key
      construct_max_zone_id_key
  create_zone-Effect s request d =
      let asked = zone_of request in
      let namespace_id = id_or_zero s.namespaces.namespace_id_map asked.namespace_name in
      let info = record (inherit asked (find s.namespaces.namespace_info_map namespace_id)) {
        zone_id = s.zones.max_zone_id + 1;
        namespace_id = namespace_id;
        version = 1;
      } in
      elim (Bool-cases (namespace_id == 0)) [
        | inl e ↦ rw (create_zone, e) (bad_input s d "namespace not exist")
        | inr e ↦ elim (Bool-cases (has s.zones.zone_id_map (zone_name_of asked))) [
          | inl f ↦ rw (create_zone, e, f) (bad_input s d "zone already exist")
          | inr f ↦ elim (Option-cases (codecs.zone_codec.serialize info)) [
            | inl g ↦ rw (create_zone, e, f, g) (no_text s d)
            | inr (value, g) ↦
                rw (create_zone, e, f, g)
                  (commit-Effect s _ _ d
                    (refl, serialized codecs.zone_codec info value g, (refl, refl, tt))
                    (λ db. refl))
          ]
        ]
      ]

  pub drop_zone-Effect :
      (s : SchemaState rocks) (request : ManagerRequest) (d : Done)
      → Effect rocks 1 (SchemaParses codecs) s.db d (ends (drop_zone rocks codecs s request d))
  unfolding drop_zone remove_discovery_info deletes construct_zone_key
  drop_zone-Effect s request d =
      let namespace_id =
        id_or_zero s.namespaces.namespace_id_map (zone_of request).namespace_name in
      elim (Bool-cases (namespace_id == 0)) [
        | inl e ↦ rw (drop_zone, e) (bad_input s d "namespace not exist")
        | inr e ↦ elim (Option-cases (find s.zones.zone_id_map (zone_name_of (zone_of request)))) [
          | inl f ↦ rw (drop_zone, e, f) (bad_input s d "zone not exist")
          | inr (id, f) ↦ elim (Bool-cases (is_empty (value_at s.zones.servlet_ids id []))) [
            | inr g ↦ rw (drop_zone, e, f, g) (bad_input s d "zone has servlet")
            | inl g ↦ rw (drop_zone, e, f, g) (commit-Effect _ _ _ d (refl, tt) (λ db. refl))
          ]
        ]
      ]

  pub modify_zone-Effect :
      (s : SchemaState rocks) (request : ManagerRequest) (d : Done)
      → Effect rocks 1 (SchemaParses codecs) s.db d (ends (modify_zone rocks codecs s request d))
  unfolding modify_zone starts_with put_discovery_info construct_zone_key
  modify_zone-Effect s request d =
      let namespace_id =
        id_or_zero s.namespaces.namespace_id_map (zone_of request).namespace_name in
      elim (Bool-cases (namespace_id == 0)) [
        | inl e ↦ rw (modify_zone, e) (bad_input s d "namespace not exist")
        | inr e ↦ elim (Option-cases (find s.zones.zone_id_map (zone_name_of (zone_of request)))) [
          | inl f ↦ rw (modify_zone, e, f) (bad_input s d "zone not exist")
          | inr (id, f) ↦
              let info =
                modified_zone (zone_of request) (value_at s.zones.zone_info_map id no_zone_info) in
              elim (Option-cases (codecs.zone_codec.serialize info)) [
                | inl g ↦ rw (modify_zone, e, f, g) (no_text s d)
                | inr (value, g) ↦
                    rw (modify_zone, e, f, g)
                      (commit-Effect _ _ _ d (refl, serialized codecs.zone_codec info value g, tt)
                        (λ db. refl))
              ]
        ]
      ]
