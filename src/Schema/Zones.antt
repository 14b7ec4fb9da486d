-- ===== src/Schema/Zones.antt =====
-- ea/discovery/zone_manager: the operations on zones.
use ea.Common.{not, Option, none, some, [], ◌∷◌, ◌==◌, nat_eq, if◌then◌else◌, get_or, ◌+◌}
use ea.Common.Bytes.{Bytes, bytes_eq}
use ea.Common.Maps.{find, has}
use ea.Common.Sets.{is_empty}
use ea.Common.Words.{int64_bytes}
use ea.Api.{ErrCode, ManagerRequest, NameSpaceInfo, ZoneInfo}
use ea.Api.Absent.{no_zone_info}
use ea.Base.{Done, if_done_set_response}
use ea.Rocks.{Rocks, put_discovery_info, put_discovery_infos, remove_discovery_info}
use ea.Schema.{make_zone_key}
use ea.Schema.State.{
  SchemaState, Codecs, value_at, touch, add_id, delete_id, id_or_zero, set_zone_info,
  erase_zone_info, construct_zone_key, construct_max_zone_id_key,
}
use ea.Schema.Namespaces.{or_kept, commit}

-- request.zone_info()
unfoldable pub zone_of : ManagerRequest → ZoneInfo
zone_of request = get_or request.zone_info no_zone_info

-- namespace_name + "\001" + zone_info.zone()
unfoldable pub zone_name_of : ZoneInfo → Bytes
unfolding make_zone_key
zone_name_of info = make_zone_key info.namespace_name info.zone

-- the request's tag, or the namespace's where that is not empty
unfoldable pub inherited_tag : Option Bytes → Option Bytes → Option Bytes
inherited_tag (some tag) inherited = some tag
inherited_tag none (some []) = none
inherited_tag none (some (b ∷ tag)) = some (b ∷ tag)
inherited_tag none none = none

-- What a zone takes over from the namespace's info, where it is there.
unfoldable pub inherit : ZoneInfo → Option NameSpaceInfo → ZoneInfo
unfolding inherited_tag or_kept
inherit info none = info
inherit info (some ns) = record info {
  resource_tag = inherited_tag info.resource_tag ns.resource_tag;
  byte_size_per_record = or_kept info.byte_size_per_record ns.byte_size_per_record;
  replica_num = or_kept info.replica_num ns.replica_num;
  region_split_lines = or_kept info.region_split_lines ns.region_split_lines;
}

unfoldable pub modified_zone : ZoneInfo → ZoneInfo → ZoneInfo
unfolding or_kept
modified_zone request info = record info {
  quota = or_kept request.quota info.quota;
  resource_tag = or_kept request.resource_tag info.resource_tag;
  byte_size_per_record = or_kept request.byte_size_per_record info.byte_size_per_record;
  replica_num = or_kept request.replica_num info.replica_num;
  region_split_lines = or_kept request.region_split_lines info.region_split_lines;
  version = info.version + 1;
}

module _ (rocks : Rocks) (codecs : Codecs) where
  unfoldable pub create_zone : SchemaState rocks → ManagerRequest → Done → SchemaState rocks × Done
  unfolding zone_of zone_name_of inherit id_or_zero commit put_discovery_infos set_zone_info add_id
  create_zone s request d =
      let m = s.zones in
      let asked = zone_of request in
      let namespace_id = id_or_zero s.namespaces.namespace_id_map asked.namespace_name in
      let id = m.max_zone_id + 1 in
      let info = record (inherit asked (find s.namespaces.namespace_info_map namespace_id)) {
        zone_id = id;
        namespace_id = namespace_id;
        version = 1;
      } in
      if namespace_id == 0
      then (s, if_done_set_response d ErrCode.input_param_error "namespace not exist")
      else if has m.zone_id_map (zone_name_of asked)
      then (s, if_done_set_response d ErrCode.input_param_error "zone already exist")
      else elim (codecs.zone_codec.serialize info) [
        | none ↦ (s, if_done_set_response d ErrCode.parse_to_pb_fail "serializeToArray fail")
        | some value ↦
            commit rocks codecs s
              (put_discovery_infos rocks s.db
                (construct_zone_key id ∷ construct_max_zone_id_key ∷ [])
                (value ∷ int64_bytes id ∷ []))
              (λ db. record s {
                zones = record (set_zone_info m info) { max_zone_id = id };
                namespaces = record s.namespaces {
                  zone_ids = add_id s.namespaces.zone_ids namespace_id id;
                };
                db = db;
              })
              d
      ]

  unfoldable pub drop_zone : SchemaState rocks → ManagerRequest → Done → SchemaState rocks × Done
  unfolding zone_of zone_name_of id_or_zero commit remove_discovery_info erase_zone_info value_at
      touch delete_id
  drop_zone s request d =
      let m = s.zones in
      let name = zone_name_of (zone_of request) in
      let namespace_id =
        id_or_zero s.namespaces.namespace_id_map (zone_of request).namespace_name in
      if namespace_id == 0
      then (s, if_done_set_response d ErrCode.input_param_error "namespace not exist")
      else elim (find m.zone_id_map name) [
        | none ↦ (s, if_done_set_response d ErrCode.input_param_error "zone not exist")
        | some id ↦
            let touched = record s {
              zones = record m { servlet_ids = touch m.servlet_ids id [] };
            } in
            if not (is_empty (value_at m.servlet_ids id []))
            then (touched, if_done_set_response d ErrCode.input_param_error "zone has servlet")
            else commit rocks codecs touched
                (remove_discovery_info rocks s.db (construct_zone_key id ∷ []))
                (λ db. record s {
                  zones = erase_zone_info touched.zones name;
                  namespaces = record s.namespaces {
                    zone_ids = delete_id s.namespaces.zone_ids namespace_id id;
                  };
                  db = db;
                })
                d
      ]

  unfoldable pub modify_zone : SchemaState rocks → ManagerRequest → Done → SchemaState rocks × Done
  unfolding zone_of zone_name_of id_or_zero commit put_discovery_info set_zone_info value_at touch
      modified_zone
  modify_zone s request d =
      let m = s.zones in
      let name = zone_name_of (zone_of request) in
      if id_or_zero s.namespaces.namespace_id_map (zone_of request).namespace_name == 0
      then (s, if_done_set_response d ErrCode.input_param_error "namespace not exist")
      else elim (find m.zone_id_map name) [
        | none ↦ (s, if_done_set_response d ErrCode.input_param_error "zone not exist")
        | some id ↦
            let info = modified_zone (zone_of request) (value_at m.zone_info_map id no_zone_info) in
            let touched = record s {
              zones = record m { zone_info_map = touch m.zone_info_map id no_zone_info };
            } in
            elim (codecs.zone_codec.serialize info) [
              | none ↦
                  (touched, if_done_set_response d ErrCode.parse_to_pb_fail "serializeToArray fail")
              | some value ↦
                  commit rocks codecs touched
                    (put_discovery_info rocks s.db (construct_zone_key id) value)
                    (λ db. record s { zones = set_zone_info touched.zones info; db = db }) d
            ]
      ]

  unfoldable pub load_zone_snapshot : SchemaState rocks → Bytes → Option (SchemaState rocks)
  unfolding set_zone_info add_id
  load_zone_snapshot s value = elim (codecs.zone_codec.parse value) [
    | none ↦ none
    | some info ↦ some (record s {
      zones = set_zone_info s.zones info;
      namespaces = record s.namespaces {
        zone_ids = add_id s.namespaces.zone_ids info.namespace_id info.zone_id;
      };
    })
  ]
