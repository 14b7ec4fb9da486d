-- ===== src/Discovery/InstanceEffects.antt =====
-- InstanceManager: the effect of each operation.
use ea.Common.{◌≡◌, refl, ℕ, some, List, inl, inr}
use ea.Api.{ErrCode, ManagerRequest, ServletInstance}
use ea.Base.{Done}
use ea.Rocks.{Op, Rocks, Codec}
use ea.Schema.{SchemaIds}
use ea.Instances.{Registry}
use ea.Instances.Manager.{InstanceManager, add_instance, drop_instance, update_instance}
use ea.Instances.Outcomes.{
  IsRefused, IsDone, add_instance_cases, drop_instance_cases, update_instance_cases,
}
use ea.Schema.Reload.{starts_with}
use ea.Discovery.Readable.{InstanceParses, serialized}
use ea.Discovery.Effects.{Effect, quiet, written, Under}

module _ (rocks : Rocks) (codec : Codec ServletInstance) (ids : SchemaIds) where
  -- The database and the answer after an operation.
  abbrev pub ends : InstanceManager rocks codec ids × Done → rocks.Db × Done
  ends result = (result.0.db, result.1)

  done-Effect :
      (s : InstanceManager rocks codec ids) (d : Done) (ops : List Op) (next : Registry)
      (db : rocks.Db) (result : InstanceManager rocks codec ids × Done)
      → Under 3 (InstanceParses codec) ops
      → rocks.write s.db ops ≡ some db
      → IsDone rocks codec ids next db d result
      → Effect rocks 3 (InstanceParses codec) s.db d (ends result)
  done-Effect s d ops next db result u w e =
      rw e (written rocks 3 (InstanceParses codec) s.db db d ops ErrCode.success "success" u w)

  refused-Effect :
      (s : InstanceManager rocks codec ids) (d : Done)
      (result : InstanceManager rocks codec ids × Done)
      → IsRefused rocks codec ids s d result
      → Effect rocks 3 (InstanceParses codec) s.db d (ends result)
  refused-Effect s d result (code, msg, e, other) =
      rw e (quiet rocks 3 (InstanceParses codec) s.db d code msg)

  pub add_instance-Effect :
      (s : InstanceManager rocks codec ids) (request : ManagerRequest) (now : ℕ) (d : Done)
      → Effect rocks 3
          (InstanceParses codec)
          s.db
          d
          (ends (add_instance rocks codec ids s request now d))
  unfolding starts_with
  add_instance-Effect s request now d = elim (add_instance_cases rocks codec ids s request now d) [
    | inl fails ↦ refused-Effect s d _ fails
    | inr (info, value, db, free, same, f, w, e) ↦
        done-Effect s d _ _ db _ (refl, (serialized codec info value f, refl), tt) w e
  ]

  pub drop_instance-Effect :
      (s : InstanceManager rocks codec ids) (request : ManagerRequest) (now : ℕ) (d : Done)
      → Effect rocks 3
          (InstanceParses codec)
          s.db
          d
          (ends (drop_instance rocks codec ids s request now d))
  drop_instance-Effect s request now d =
      elim (drop_instance_cases rocks codec ids s request now d) [
        | inl fails ↦ refused-Effect s d _ fails
        | inr (info, db, there, w, e) ↦ done-Effect s d _ _ db _ (refl, tt) w e
      ]

  pub update_instance-Effect :
      (s : InstanceManager rocks codec ids) (request : ManagerRequest) (d : Done)
      → Effect rocks 3
          (InstanceParses codec)
          s.db
          d
          (ends (update_instance rocks codec ids s request d))
  unfolding starts_with
  update_instance-Effect s request d = elim (update_instance_cases rocks codec ids s request d) [
    | inl fails ↦ refused-Effect s d _ fails
    | inr (mem, value, db, there, f, w, e) ↦
        done-Effect s d _ _ db _ (refl, (serialized codec _ value f, refl), tt) w e
  ]
