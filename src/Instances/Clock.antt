-- ===== src/Instances/Clock.antt =====
-- InstanceManager: an address that was removed less than an hour ago, by the clock of the replica.
use ea.Common.{refl, ◌≡◌, ℕ, ◌+◌, ◌≤◌, ◌<◌, true, false, ltb, arith, none, some, [], ◌∷◌}
use ea.Common.Bytes.{Bytes, bytes_eq}
use ea.Common.Maps.{find}
use ea.Api.{ErrCode, ServletInstance, ManagerRequest}
use ea.Api.Absent.{text_of}
use ea.Base.{Done, if_done_set_response}
use ea.Rocks.{Op, Rocks, Codec, put_discovery_infos, puts, same_size}
use ea.Schema.{SchemaIds, check_and_get_for_instance}
use ea.Instances.{Registry, instance_of, construct_instance_key, set_instance_info, is_recent}
use ea.Instances.Manager.{InstanceManager, commit, add_instance, is_removed_recently}

ltb-true : (a b : ℕ) → a < b → ltb a b ≡ true
ltb-true a b h = ground arith

ltb-false : (a b : ℕ) → b ≤ a → ltb a b ≡ false
ltb-false a b h = ground arith

-- get_time_s() counts whole seconds.
is_recent_lem : (now removed : ℕ) → is_recent now removed ≡ ltb now (removed + 3600000000)
unfolding is_recent
is_recent_lem now removed = ground arith

removed_recently :
    (s : Registry) (address : Bytes) (now removed : ℕ)
    → find s.removed_instance address ≡ some removed
    → is_removed_recently s address now ≡ ltb now (removed + 3600000000)
unfolding is_removed_recently
removed_recently s address now removed e = rw (is_removed_recently, e) (is_recent_lem now removed)

module _ (rocks : Rocks) (codec : Codec ServletInstance) (ids : SchemaIds) where
  -- A valid request to add a free address that was removed at `removed`, on a replica whose clock shows
  -- `now` and whose writes succeed: refused while `now` is less than 3600 s after the removal, with
  -- nothing changed, and registered from then on. The same log entry ends differently on replicas
  -- whose clocks stand on the two sides.
  pub add_instance_by_clock :
      (s : InstanceManager rocks codec ids) (request : ManagerRequest) (now removed : ℕ) (d : Done)
      (checked : ServletInstance) (value : Bytes) (db : rocks.Db)
      → check_and_get_for_instance ids (instance_of request) ≡ some checked
      → find s.registry.instance_info (text_of (instance_of request).address) ≡ none
      → find s.registry.removed_instance (text_of (instance_of request).address) ≡ some removed
      → codec.serialize (record checked { version = 1 }) ≡ some value
      → rocks.write s.db (Op.put (3 ∷ 3 ∷ text_of (instance_of request).address) value ∷ [])
        ≡ some db
      → (now < removed + 3600000000
          → add_instance rocks codec ids s request now d
            ≡ (s, if_done_set_response d ErrCode.input_param_error "removed in 1 hour"))
        × (removed + 3600000000 ≤ now
            → add_instance rocks codec ids s request now d ≡ (
              record {
                registry = set_instance_info s.registry (record checked { version = 1 });
                db = db;
              },
              if_done_set_response d ErrCode.success "success",
            ))
  unfolding add_instance commit put_discovery_infos same_size puts construct_instance_key
  add_instance_by_clock s request now removed d checked value db valid free gone text write =
      let recent =
        removed_recently s.registry (text_of (instance_of request).address) now removed gone in
      (
        λ early.
            rw (add_instance, valid, free, recent, ltb-true now (removed + 3600000000) early) refl,
        λ late.
            rw
              (
                add_instance,
                valid,
                free,
                recent,
                ltb-false now (removed + 3600000000) late,
                text,
                write,
              )
              refl,
      )
