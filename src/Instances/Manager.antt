-- ===== src/Instances/Manager.antt =====
-- InstanceManager: the operations that the discovery state machine applies, and the snapshot load. `now` is
-- the replica's clock at the call.
use ea.Common.{not, Bool, false, ℕ, Option, none, some, List, [], ◌∷◌, if◌then◌else◌}
use ea.Common.Bytes.{Bytes, bytes_eq}
use ea.Common.Maps.{find, has, empty}
use ea.Api.{
  ErrCode, OpType, ManagerRequest, ServletInstance, op_add_instance, op_drop_instance,
  op_update_instance,
}
use ea.Api.Absent.{text_of}
use ea.Base.{Done, if_done_set_response}
use ea.Rocks.{Rocks, Codec, put_discovery_info, put_discovery_infos, remove_discovery_info}
use ea.Schema.{SchemaIds, check_and_get_for_instance}
use ea.Instances.{
  Registry, instance_of, construct_instance_key, set_instance_info, remove_instance_info, is_recent,
  updated_instance,
}

unfoldable pub clear : Registry
unfolding empty
clear = record {
  instance_info = empty;
  removed_instance = empty;
  namespace_instance = empty;
  zone_instance = empty;
  servlet_instance = empty;
}

-- The address was removed less than an hour ago.
unfoldable pub is_removed_recently : Registry → Bytes → ℕ → Bool
unfolding is_recent
is_removed_recently s address now = elim (find s.removed_instance address) [
  | none ↦ false
  | some removed ↦ is_recent now removed
]

module _ (rocks : Rocks) (codec : Codec ServletInstance) (ids : SchemaIds) where
  pub record InstanceManager : Type 0 where
    pub registry : Registry
    pub db : rocks.Db

  -- The answer to a write: memory changes only where the write succeeds.
  unfoldable pub commit :
      InstanceManager → Option rocks.Db → Registry → Done → InstanceManager × Done
  commit s none next d = (s, if_done_set_response d ErrCode.internal_error "write db fail")
  commit s (some db) next d =
      (record { registry = next; db = db }, if_done_set_response d ErrCode.success "success")

  unfoldable pub add_instance : InstanceManager → ManagerRequest → ℕ → Done → InstanceManager × Done
  unfolding instance_of is_removed_recently commit put_discovery_infos construct_instance_key
      set_instance_info check_and_get_for_instance
  add_instance s request now d =
      let address = text_of (instance_of request).address in
      elim (check_and_get_for_instance ids (instance_of request)) [
        | none ↦ (s, if_done_set_response d ErrCode.input_param_error "request invalid")
        | some checked ↦
            let info = record checked { version = 1 } in
            if has s.registry.instance_info address
            then (s, if_done_set_response d ErrCode.input_param_error "instance already existed")
            else if is_removed_recently s.registry address now
            then (s, if_done_set_response d ErrCode.input_param_error "removed in 1 hour")
            else elim (codec.serialize info) [
              | none ↦ (s, if_done_set_response d ErrCode.parse_to_pb_fail "serializeToArray fail")
              | some value ↦
                  commit s
                    (put_discovery_infos rocks s.db (construct_instance_key address ∷ [])
                      (value ∷ []))
                    (set_instance_info s.registry info) d
            ]
      ]

  unfoldable pub drop_instance :
      InstanceManager → ManagerRequest → ℕ → Done → InstanceManager × Done
  unfolding instance_of commit remove_discovery_info construct_instance_key remove_instance_info
  drop_instance s request now d =
      let address = text_of (instance_of request).address in
      if not (has s.registry.instance_info address)
      then (s, if_done_set_response d ErrCode.input_param_error "address not exist")
      else commit s (remove_discovery_info rocks s.db (construct_instance_key address ∷ []))
          (remove_instance_info s.registry address now) d

  unfoldable pub update_instance : InstanceManager → ManagerRequest → Done → InstanceManager × Done
  unfolding instance_of commit put_discovery_info construct_instance_key set_instance_info
      updated_instance
  update_instance s request d =
      let address = text_of (instance_of request).address in
      elim (find s.registry.instance_info address) [
        | none ↦ (s, if_done_set_response d ErrCode.input_param_error "address not exist")
        | some mem ↦
            let info = updated_instance (instance_of request) mem in
            elim (codec.serialize info) [
              | none ↦ (s, if_done_set_response d ErrCode.parse_to_pb_fail "serializeToArray fail")
              | some value ↦
                  commit s (put_discovery_info rocks s.db (construct_instance_key address) value)
                    (set_instance_info s.registry info) d
            ]
      ]

  -- DiscoveryStateMachine::on_apply, for the operations on instances
  unfoldable pub apply_instance :
      OpType → InstanceManager → ManagerRequest → ℕ → Done → InstanceManager × Done
  apply_instance op_add_instance s request now d = add_instance s request now d
  apply_instance op_drop_instance s request now d = drop_instance s request now d
  apply_instance op_update_instance s request now d = update_instance s request d
  apply_instance _ s request now d = (s, d)

  -- none where -1 is returned
  unfoldable pub load_instance_snapshot : Registry → Bytes → Option Registry
  unfolding set_instance_info
  load_instance_snapshot s value = elim (codec.parse value) [
    | none ↦ none
    | some info ↦ some (set_instance_info s info)
  ]

  -- the loop of load_snapshot
  unfoldable pub load_instances : Registry → List (Bytes × Bytes) → Option Registry
  unfolding load_instance_snapshot
  load_instances s [] = some s
  load_instances s ((key, value) ∷ l) = elim (load_instance_snapshot s value) [
    | none ↦ none
    | some s' ↦ load_instances s' l
  ]

  unfoldable pub load_snapshot : rocks.Db → Option Registry
  unfolding load_instances clear
  load_snapshot db = load_instances clear (rocks.scan db 3)
