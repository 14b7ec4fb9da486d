-- ===== src/Schema/Servlets.antt =====
-- ea/discovery/servlet_manager: the operations on servlets.
use ea.Common.{not, Option, none, some, [], ◌∷◌, ◌==◌, nat_eq, if◌then◌else◌, get_or, ◌+◌}
use ea.Common.Bytes.{Bytes, bytes_eq}
use ea.Common.Maps.{find, has}
use ea.Common.Words.{int64_bytes}
use ea.Api.{ErrCode, ManagerRequest, NameSpaceInfo, ServletInfo}
use ea.Api.Absent.{no_servlet_info}
use ea.Base.{Done, if_done_set_response}
use ea.Rocks.{Rocks, put_discovery_info, put_discovery_infos, remove_discovery_info}
use ea.Schema.{make_zone_key, make_servlet_key}
use ea.Schema.State.{
  SchemaState, Codecs, value_at, touch, add_id, delete_id, id_or_zero, set_servlet_info,
  erase_servlet_info, construct_servlet_key, construct_max_servlet_id_key,
}
use ea.Schema.Namespaces.{or_kept, commit}
use ea.Schema.Zones.{inherited_tag}

-- request.servlet_info()
unfoldable pub servlet_of : ManagerRequest → ServletInfo
servlet_of request = get_or request.servlet_info no_servlet_info

-- `zone_name` and `servlet_name` of the operations
unfoldable pub servlet_zone_name : ServletInfo → Bytes
unfolding make_zone_key
servlet_zone_name info = make_zone_key info.namespace_name info.zone

unfoldable pub servlet_name_of : ServletInfo → Bytes
unfolding make_servlet_key servlet_zone_name
servlet_name_of info = make_servlet_key (servlet_zone_name info) info.servlet_name

unfoldable pub inherit_tag : ServletInfo → Option NameSpaceInfo → ServletInfo
unfolding inherited_tag
inherit_tag info none = info
inherit_tag info (some ns) = record info {
  resource_tag = inherited_tag info.resource_tag ns.resource_tag;
}

module _ (rocks : Rocks) (codecs : Codecs) where
  -- The servlet is filed under the namespace's id, as the call of add_servlet_id has it.
  unfoldable pub create_servlet :
      SchemaState rocks → ManagerRequest → Done → SchemaState rocks × Done
  unfolding servlet_of servlet_zone_name servlet_name_of inherit_tag id_or_zero commit
      put_discovery_infos set_servlet_info add_id
  create_servlet s request d =
      let m = s.servlets in
      let asked = servlet_of request in
      let namespace_id = id_or_zero s.namespaces.namespace_id_map asked.namespace_name in
      let zone_id = id_or_zero s.zones.zone_id_map (servlet_zone_name asked) in
      let id = m.max_servlet_id + 1 in
      let info = record (inherit_tag asked (find s.namespaces.namespace_info_map namespace_id)) {
        servlet_id = id;
        zone_id = zone_id;
        namespace_id = namespace_id;
        version = 1;
      } in
      if namespace_id == 0
      then (s, if_done_set_response d ErrCode.input_param_error "namespace not exist")
      else if zone_id == 0
      then (s, if_done_set_response d ErrCode.input_param_error "zone not exist")
      else if has m.servlet_id_map (servlet_name_of asked)
      then (s, if_done_set_response d ErrCode.input_param_error "servlet already exist")
      else elim (codecs.servlet_codec.serialize info) [
        | none ↦ (s, if_done_set_response d ErrCode.parse_to_pb_fail "serializeToArray fail")
        | some value ↦
            commit rocks codecs s
              (put_discovery_infos rocks s.db
                (construct_servlet_key id ∷ construct_max_servlet_id_key ∷ [])
                (value ∷ int64_bytes id ∷ []))
              (λ db. record s {
                servlets = record (set_servlet_info m info) { max_servlet_id = id };
                zones = record s.zones { servlet_ids = add_id s.zones.servlet_ids namespace_id id };
                db = db;
              })
              d
      ]

  -- The test is on the zone's name in the map of the servlets, and the key removed has the zone's id, as in
  -- the source.
  unfoldable pub drop_servlet : SchemaState rocks → ManagerRequest → Done → SchemaState rocks × Done
  unfolding servlet_of servlet_zone_name servlet_name_of id_or_zero commit remove_discovery_info
      erase_servlet_info delete_id touch
  drop_servlet s request d =
      let m = s.servlets in
      let zone_name = servlet_zone_name (servlet_of request) in
      let name = servlet_name_of (servlet_of request) in
      let zone_id = id_or_zero s.zones.zone_id_map zone_name in
      let touched = record s {
        servlets = record m { servlet_id_map = touch m.servlet_id_map name 0 };
      } in
      if id_or_zero s.namespaces.namespace_id_map (servlet_of request).namespace_name == 0
      then (s, if_done_set_response d ErrCode.input_param_error "namespace not exist")
      else if zone_id == 0
      then (s, if_done_set_response d ErrCode.input_param_error "namespace not exist")
      else if not (has m.servlet_id_map zone_name)
      then (s, if_done_set_response d ErrCode.input_param_error "zone not exist")
      else commit rocks codecs touched
          (remove_discovery_info rocks s.db (construct_servlet_key zone_id ∷ []))
          (λ db. record s {
            servlets = erase_servlet_info touched.servlets name;
            zones = record s.zones {
              servlet_ids =
                  delete_id s.zones.servlet_ids zone_id (id_or_zero m.servlet_id_map name);
            };
            db = db;
          })
          d

  -- The info that is changed is the one under the zone's id, as in the source.
  unfoldable pub modify_servlet :
      SchemaState rocks → ManagerRequest → Done → SchemaState rocks × Done
  unfolding servlet_of servlet_zone_name servlet_name_of id_or_zero commit put_discovery_info
      set_servlet_info value_at touch or_kept
  modify_servlet s request d =
      let m = s.servlets in
      let asked = servlet_of request in
      let zone_id = id_or_zero s.zones.zone_id_map (servlet_zone_name asked) in
      if id_or_zero s.namespaces.namespace_id_map asked.namespace_name == 0
      then (s, if_done_set_response d ErrCode.input_param_error "namespace not exist")
      else if zone_id == 0
      then (s, if_done_set_response d ErrCode.input_param_error "namespace not exist")
      else elim (find m.servlet_id_map (servlet_name_of asked)) [
        | none ↦ (s, if_done_set_response d ErrCode.input_param_error "zone not exist")
        | some id ↦
            let old = value_at m.servlet_info_map zone_id no_servlet_info in
            let info = record old {
              version = old.version + 1;
              resource_tag = or_kept asked.resource_tag old.resource_tag;
            } in
            let touched = record s {
              servlets = record m {
                servlet_info_map = touch m.servlet_info_map zone_id no_servlet_info;
              };
            } in
            elim (codecs.servlet_codec.serialize info) [
              | none ↦
                  (touched, if_done_set_response d ErrCode.parse_to_pb_fail "serializeToArray fail")
              | some value ↦
                  commit rocks codecs touched
                    (put_discovery_info rocks s.db (construct_servlet_key id) value)
                    (λ db. record s { servlets = set_servlet_info touched.servlets info; db = db })
                    d
            ]
      ]

  -- Here the servlet is filed under its zone's id.
  unfoldable pub load_servlet_snapshot : SchemaState rocks → Bytes → Option (SchemaState rocks)
  unfolding set_servlet_info add_id
  load_servlet_snapshot s value = elim (codecs.servlet_codec.parse value) [
    | none ↦ none
    | some info ↦ some (record s {
      servlets = set_servlet_info s.servlets info;
      zones = record s.zones {
        servlet_ids = add_id s.zones.servlet_ids info.zone_id info.servlet_id;
      };
    })
  ]
