-- ===== src/Schema/Namespaces.antt =====
-- ea/discovery/namespace_manager: the operations on namespaces.
use ea.Common.{not, Option, none, some, [], ◌∷◌, nat_eq, if◌then◌else◌, get_or, ◌+◌}
use ea.Common.Bytes.{Bytes, bytes_eq}
use ea.Common.Maps.{find, has}
use ea.Common.Sets.{is_empty}
use ea.Common.Words.{int64_bytes}
use ea.Api.{ErrCode, ManagerRequest, NameSpaceInfo}
use ea.Api.Absent.{no_namespace_info}
use ea.Base.{Done, if_done_set_response}
use ea.Rocks.{Rocks, put_discovery_info, put_discovery_infos, remove_discovery_info}
use ea.Schema.State.{
  SchemaState, Codecs, value_at, touch, set_namespace_info, erase_namespace_info,
  construct_namespace_key, construct_max_namespace_id_key,
}

-- request.namespace_info()
unfoldable pub namespace_of : ManagerRequest → NameSpaceInfo
namespace_of request = get_or request.namespace_info no_namespace_info

-- has_x() of the request, then set_x
unfoldable pub or_kept {ℓ} : {A : Type ℓ} → Option A → Option A → Option A
or_kept none kept = kept
or_kept (some a) kept = some a

unfoldable pub modified_namespace : NameSpaceInfo → NameSpaceInfo → NameSpaceInfo
unfolding or_kept
modified_namespace request info = record info {
  quota = or_kept request.quota info.quota;
  resource_tag = or_kept request.resource_tag info.resource_tag;
  byte_size_per_record = or_kept request.byte_size_per_record info.byte_size_per_record;
  replica_num = or_kept request.replica_num info.replica_num;
  region_split_lines = or_kept request.region_split_lines info.region_split_lines;
  version = info.version + 1;
}

module _ (rocks : Rocks) (codecs : Codecs) where
  -- The answer to a write: memory changes only where the write succeeds.
  unfoldable pub commit :
      SchemaState rocks
      → Option rocks.Db
      → (rocks.Db → SchemaState rocks)
      → Done
      → SchemaState rocks × Done
  commit s none next d = (s, if_done_set_response d ErrCode.internal_error "write db fail")
  commit s (some db) next d = (next db, if_done_set_response d ErrCode.success "success")

  unfoldable pub create_namespace :
      SchemaState rocks → ManagerRequest → Done → SchemaState rocks × Done
  unfolding namespace_of commit put_discovery_infos set_namespace_info
  create_namespace s request d =
      let m = s.namespaces in
      let id = m.max_namespace_id + 1 in
      let info = record (namespace_of request) { namespace_id = id; version = 1 } in
      if has m.namespace_id_map info.namespace_name
      then (s, if_done_set_response d ErrCode.input_param_error "namespace already existed")
      else elim (codecs.namespace_codec.serialize info) [
        | none ↦ (s, if_done_set_response d ErrCode.parse_to_pb_fail "serializeToArray fail")
        | some value ↦
            commit s
              (put_discovery_infos rocks s.db
                (construct_namespace_key id ∷ construct_max_namespace_id_key ∷ [])
                (value ∷ int64_bytes id ∷ []))
              (λ db. record s {
                namespaces = record (set_namespace_info m info) { max_namespace_id = id };
                db = db;
              })
              d
      ]

  unfoldable pub drop_namespace :
      SchemaState rocks → ManagerRequest → Done → SchemaState rocks × Done
  unfolding namespace_of commit remove_discovery_info erase_namespace_info value_at touch
  drop_namespace s request d =
      let m = s.namespaces in
      let name = (namespace_of request).namespace_name in
      elim (find m.namespace_id_map name) [
        | none ↦ (s, if_done_set_response d ErrCode.input_param_error "namespace not exist")
        | some id ↦
            let touched = record s {
              namespaces = record m { zone_ids = touch m.zone_ids id [] };
            } in
            if not (is_empty (value_at m.zone_ids id []))
            then (touched, if_done_set_response d ErrCode.input_param_error "namespace has servlet")
            else commit touched (remove_discovery_info rocks s.db (construct_namespace_key id ∷ []))
                (λ db. record s {
                  namespaces = erase_namespace_info touched.namespaces name;
                  db = db;
                })
                d
      ]

  unfoldable pub modify_namespace :
      SchemaState rocks → ManagerRequest → Done → SchemaState rocks × Done
  unfolding namespace_of commit put_discovery_info set_namespace_info value_at touch
      modified_namespace
  modify_namespace s request d =
      let m = s.namespaces in
      let name = (namespace_of request).namespace_name in
      elim (find m.namespace_id_map name) [
        | none ↦ (s, if_done_set_response d ErrCode.input_param_error "namespace not exist")
        | some id ↦
            let old = value_at m.namespace_info_map id no_namespace_info in
            let info = modified_namespace (namespace_of request) old in
            let touched = record s {
              namespaces = record m {
                namespace_info_map = touch m.namespace_info_map id no_namespace_info;
              };
            } in
            elim (codecs.namespace_codec.serialize info) [
              | none ↦
                  (touched, if_done_set_response d ErrCode.parse_to_pb_fail "serializeToArray fail")
              | some value ↦
                  commit touched (put_discovery_info rocks s.db (construct_namespace_key id) value)
                    (λ db. record s {
                      namespaces = set_namespace_info touched.namespaces info;
                      db = db;
                    })
                    d
            ]
      ]

  -- none where -1 is returned
  unfoldable pub load_namespace_snapshot : SchemaState rocks → Bytes → Option (SchemaState rocks)
  unfolding set_namespace_info
  load_namespace_snapshot s value = elim (codecs.namespace_codec.parse value) [
    | none ↦ none
    | some info ↦ some (record s { namespaces = set_namespace_info s.namespaces info })
  ]
