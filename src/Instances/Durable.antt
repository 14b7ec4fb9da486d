-- ===== src/Instances/Durable.antt =====
-- InstanceManager: the registered instances against what RocksDB holds.
use ea.Common.{◌≡◌, ℕ, inl, inr, some, [], ◌∷◌, ◌==◌}
use ea.Common.Bytes.{Bytes, bytes_eq}
use ea.Common.Maps.{find, find-assign, find-erase}
use ea.Api.{
  ServletInstance, OpType, ManagerRequest, op_add_instance, op_drop_instance, op_update_instance,
}
use ea.Api.Absent.{text_of}
use ea.Base.{Done}
use ea.Rocks.{Op, Rocks, Codec}
use ea.Rocks.Agree.{Agree, Agree-put, Agree-delete}
use ea.Schema.{SchemaIds}
use ea.Instances.{Registry, instance_of, set_instance_info, remove_instance_info, updated_instance}
use ea.Instances.Named.{IsNamed, set_instance_info-IsNamed, remove_instance_info-IsNamed}
use ea.Instances.Outcomes.{add_instance_cases, drop_instance_cases, update_instance_cases}
use ea.Instances.Manager.{
  InstanceManager, add_instance, drop_instance, update_instance, apply_instance,
}

module _ (rocks : Rocks) (codec : Codec ServletInstance) where
  -- Memory and database agree on every address, and an instance is registered under its own address.
  abbrev pub IsDurable : Registry → rocks.Db → Type 0
  IsDurable s db =
      ((address : Bytes)
        → Agree codec (rocks.get db (3 ∷ 3 ∷ address)) (find s.instance_info address))
      × IsNamed s

  set_instance_info-IsDurable :
      (s : Registry) (db db' : rocks.Db) (info : ServletInstance) (value : Bytes)
      → codec.serialize info ≡ some value
      → rocks.write db (Op.put (3 ∷ 3 ∷ text_of info.address) value ∷ []) ≡ some db'
      → IsDurable s db
      → IsDurable (set_instance_info s info) db'
  unfolding set_instance_info
  set_instance_info-IsDurable s db db' info value e w h = (
    λ j.
        rw
          (
            rocks.get-write db db' (Op.put (3 ∷ 3 ∷ text_of info.address) value ∷ []) (3 ∷ 3 ∷ j) w,
            find-assign s.instance_info (text_of info.address) info j,
          )
          (Agree-put codec (text_of info.address == j) value info (rocks.get db (3 ∷ 3 ∷ j))
            (find s.instance_info j) (codec.parse-serialize info value e) (h.0 j)),
    set_instance_info-IsNamed s info h.1,
  )

  remove_instance_info-IsDurable :
      (s : Registry) (db db' : rocks.Db) (address : Bytes) (now : ℕ)
      → rocks.write db (Op.delete (3 ∷ 3 ∷ address) ∷ []) ≡ some db'
      → IsDurable s db
      → IsDurable (remove_instance_info s address now) db'
  unfolding remove_instance_info
  remove_instance_info-IsDurable s db db' address now w h = (
    λ j.
        rw
          (
            rocks.get-write db db' (Op.delete (3 ∷ 3 ∷ address) ∷ []) (3 ∷ 3 ∷ j) w,
            find-erase s.instance_info address j,
          )
          (Agree-delete codec (address == j) (rocks.get db (3 ∷ 3 ∷ j)) (find s.instance_info j)
            (h.0 j)),
    remove_instance_info-IsNamed s address now h.1,
  )

module _ (rocks : Rocks) (codec : Codec ServletInstance) (ids : SchemaIds) where
  add_instance-IsDurable :
      (s : InstanceManager rocks codec ids) (request : ManagerRequest) (now : ℕ) (d : Done)
      → IsDurable rocks codec s.registry s.db
      → let s' = (add_instance rocks codec ids s request now d).0 in
        IsDurable rocks codec s'.registry s'.db
  add_instance-IsDurable s request now d h =
      elim (add_instance_cases rocks codec ids s request now d) [
        | inl (code, msg, e, other) ↦ rw e h
        | inr (info, value, db, free, same, f, w, e) ↦
            rw e (
              set_instance_info-IsDurable rocks codec s.registry s.db db info value f (rw same w) h)
      ]

  drop_instance-IsDurable :
      (s : InstanceManager rocks codec ids) (request : ManagerRequest) (now : ℕ) (d : Done)
      → IsDurable rocks codec s.registry s.db
      → let s' = (drop_instance rocks codec ids s request now d).0 in
        IsDurable rocks codec s'.registry s'.db
  drop_instance-IsDurable s request now d h =
      elim (drop_instance_cases rocks codec ids s request now d) [
        | inl (code, msg, e, other) ↦ rw e h
        | inr (info, db, there, w, e) ↦ rw e (
            remove_instance_info-IsDurable rocks codec s.registry s.db db
              (text_of (instance_of request).address) now w h)
      ]

  update_instance-IsDurable :
      (s : InstanceManager rocks codec ids) (request : ManagerRequest) (d : Done)
      → IsDurable rocks codec s.registry s.db
      → let s' = (update_instance rocks codec ids s request d).0 in
        IsDurable rocks codec s'.registry s'.db
  unfolding updated_instance
  update_instance-IsDurable s request d h =
      elim (update_instance_cases rocks codec ids s request d) [
        | inl (code, msg, e, other) ↦ rw e h
        | inr (mem, value, db, there, f, w, e) ↦ rw e (
            set_instance_info-IsDurable rocks codec s.registry s.db db
              (updated_instance (instance_of request) mem) value f
              (rw (h.1 (text_of (instance_of request).address) mem there) w) h)
      ]

  -- Memory and database agree after every operation on instances where they agreed before, whether it
  -- succeeds, is refused, or the write fails.
  pub apply_instance-IsDurable :
      (op : OpType) (s : InstanceManager rocks codec ids) (request : ManagerRequest) (now : ℕ)
      (d : Done)
      → IsDurable rocks codec s.registry s.db
      → IsDurable rocks codec
          (apply_instance rocks codec ids op s request now d).0.registry
          (apply_instance rocks codec ids op s request now d).0.db
  unfolding apply_instance
  apply_instance-IsDurable op_add_instance s request now d h =
      add_instance-IsDurable s request now d h
  apply_instance-IsDurable op_drop_instance s request now d h =
      drop_instance-IsDurable s request now d h
  apply_instance-IsDurable op_update_instance s request now d h =
      update_instance-IsDurable s request d h
  apply_instance-IsDurable _ s request now d h = h
