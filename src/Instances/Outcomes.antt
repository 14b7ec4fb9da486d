-- ===== src/Instances/Outcomes.antt =====
-- InstanceManager: what an operation on instances can end with.
use ea.Common.{
  ℕ, String, ◌≡◌, ◌≢◌, refl, ◌⊎◌, inl, inr, Option, none, some, [], ◌∷◌, arith, ap, is_some-some,
  Bool-cases, Option-cases,
}
use ea.Common.Bytes.{Bytes, bytes_eq}
use ea.Common.Maps.{find, has}
use ea.Api.{ErrCode, ServletInstance, ManagerRequest}
use ea.Api.Absent.{text_of}
use ea.Base.{Done, if_done_set_response}
use ea.Rocks.{
  Op, Rocks, Codec, put_discovery_info, put_discovery_infos, remove_discovery_info, puts, same_size,
  deletes,
}
use ea.Schema.{SchemaIds, check_and_get_for_instance}
use ea.Instances.{
  Registry, instance_of, construct_instance_key, set_instance_info, remove_instance_info,
  updated_instance,
}
use ea.Instances.Manager.{
  InstanceManager, commit, add_instance, drop_instance, update_instance, is_removed_recently,
}

check_and_get_for_instance-address :
    (ids : SchemaIds) (info checked : ServletInstance)
    → check_and_get_for_instance ids info ≡ some checked
    → checked.address ≡ info.address
unfolding check_and_get_for_instance
check_and_get_for_instance-address ids info checked e = ground arith

module _ (rocks : Rocks) (codec : Codec ServletInstance) (ids : SchemaIds) where
  -- The operation is answered with a code other than SUCCESS, and nothing changes.
  abbrev pub IsRefused :
      InstanceManager rocks codec ids → Done → InstanceManager rocks codec ids × Done → Type 0
  IsRefused s d result =
      (code : ErrCode) × (msg : String) × (result ≡ (s, if_done_set_response d code msg))
      × (code ≢ ErrCode.success)

  -- The operation succeeds, with this registry and this database.
  abbrev pub IsDone : Registry → rocks.Db → Done → InstanceManager rocks codec ids × Done → Type 0
  IsDone next db d result =
      result
      ≡ (record { registry = next; db = db }, if_done_set_response d ErrCode.success "success")

  refused :
      (s : InstanceManager rocks codec ids) (d : Done) (code : ErrCode) (msg : String)
      → code ≢ ErrCode.success
      → IsRefused s d (s, if_done_set_response d code msg)
  refused s d code msg other = (code, msg, refl, other)

  bad_input :
      (s : InstanceManager rocks codec ids) (d : Done) (msg : String)
      → IsRefused s d (s, if_done_set_response d ErrCode.input_param_error msg)
  bad_input s d msg = refused s d ErrCode.input_param_error msg (λ e. ground arith)

  no_text :
      (s : InstanceManager rocks codec ids) (d : Done)
      → IsRefused s d (s, if_done_set_response d ErrCode.parse_to_pb_fail "serializeToArray fail")
  no_text s d = refused s d ErrCode.parse_to_pb_fail "serializeToArray fail" (λ e. ground arith)

  commit_cases :
      (s : InstanceManager rocks codec ids) (o : Option rocks.Db) (next : Registry) (d : Done)
      → IsRefused s d (commit rocks codec ids s o next d)
        ⊎ ((db : rocks.Db) × (o ≡ some db) × IsDone next db d (commit rocks codec ids s o next d))
  unfolding commit
  commit_cases s none next d =
      inl (refused s d ErrCode.internal_error "write db fail" (λ e. ground arith))
  commit_cases s (some db) next d = inr (db, refl, refl)

  -- What add_instance ends with.
  abbrev pub Added : InstanceManager rocks codec ids → ManagerRequest → ℕ → Done → Type 0
  Added s request now d =
      let address = text_of (instance_of request).address in
      IsRefused s d (add_instance rocks codec ids s request now d)
      ⊎ ((info : ServletInstance) × (value : Bytes) × (db : rocks.Db) × (find
              s.registry.instance_info address
            ≡ none)
          × (text_of info.address ≡ address)
          × (codec.serialize info ≡ some value)
          × (rocks.write s.db (Op.put (3 ∷ 3 ∷ address) value ∷ []) ≡ some db)
          × IsDone (set_instance_info s.registry info) db d
              (add_instance rocks codec ids s request now d))

  pub add_instance_cases :
      (s : InstanceManager rocks codec ids) (request : ManagerRequest) (now : ℕ) (d : Done)
      → Added s request now d
  unfolding add_instance put_discovery_infos same_size puts construct_instance_key
  add_instance_cases s request now d =
      let address = text_of (instance_of request).address in
      elim (Option-cases (check_and_get_for_instance ids (instance_of request))) [
        | inl e ↦ inl (rw (add_instance, e) (bad_input s d "request invalid"))
        | inr (checked, e) ↦
            let same = check_and_get_for_instance-address ids (instance_of request) checked e in
            let info = record checked { version = 1 } in
            elim (Option-cases (find s.registry.instance_info address)) [
              | inr (old, f) ↦
                  inl (rw (add_instance, e, f) (bad_input s d "instance already existed"))
              | inl f ↦ elim (Bool-cases (is_removed_recently s.registry address now)) [
                | inl g ↦ inl (rw (add_instance, e, f, g) (bad_input s d "removed in 1 hour"))
                | inr g ↦ elim (Option-cases (codec.serialize info)) [
                  | inl k ↦ inl (rw (add_instance, e, f, g, k) (no_text s d))
                  | inr (value, k) ↦
                      elim (commit_cases s (rocks.write s.db (Op.put (3 ∷ 3 ∷ address) value ∷ []))
                        (set_instance_info s.registry info) d) [
                          | inl fails ↦ inl (rw (add_instance, e, f, g, k) fails)
                          | inr (db, w, ends) ↦ inr (
                            info,
                            value,
                            db,
                            f,
                            ap text_of same,
                            k,
                            w,
                            rw (add_instance, e, f, g, k) ends,
                          )
                        ]
                ]
              ]
            ]
      ]

  -- What drop_instance ends with.
  abbrev pub Dropped : InstanceManager rocks codec ids → ManagerRequest → ℕ → Done → Type 0
  Dropped s request now d =
      let address = text_of (instance_of request).address in
      IsRefused s d (drop_instance rocks codec ids s request now d)
      ⊎ ((info : ServletInstance) × (db : rocks.Db) × (find s.registry.instance_info address
            ≡ some info)
          × (rocks.write s.db (Op.delete (3 ∷ 3 ∷ address) ∷ []) ≡ some db)
          × IsDone (remove_instance_info s.registry address now) db d
              (drop_instance rocks codec ids s request now d))

  pub drop_instance_cases :
      (s : InstanceManager rocks codec ids) (request : ManagerRequest) (now : ℕ) (d : Done)
      → Dropped s request now d
  unfolding drop_instance remove_discovery_info deletes construct_instance_key
  drop_instance_cases s request now d =
      let address = text_of (instance_of request).address in
      elim (Bool-cases (has s.registry.instance_info address)) [
        | inr f ↦ inl (rw (drop_instance, f) (bad_input s d "address not exist"))
        | inl f ↦
            let (info, there) = is_some-some (find s.registry.instance_info address) f in
            elim (commit_cases s (rocks.write s.db (Op.delete (3 ∷ 3 ∷ address) ∷ []))
              (remove_instance_info s.registry address now) d) [
                | inl fails ↦ inl (rw (drop_instance, f) fails)
                | inr (db, w, ends) ↦ inr (info, db, there, w, rw (drop_instance, f) ends)
              ]
      ]

  -- What update_instance ends with.
  abbrev pub Updated : InstanceManager rocks codec ids → ManagerRequest → Done → Type 0
  Updated s request d =
      let address = text_of (instance_of request).address in
      IsRefused s d (update_instance rocks codec ids s request d)
      ⊎ ((mem : ServletInstance) × (value : Bytes) × (db : rocks.Db) × (find
              s.registry.instance_info address
            ≡ some mem)
          × (codec.serialize (updated_instance (instance_of request) mem) ≡ some value)
          × (rocks.write s.db (Op.put (3 ∷ 3 ∷ address) value ∷ []) ≡ some db)
          × IsDone (set_instance_info s.registry (updated_instance (instance_of request) mem)) db d
              (update_instance rocks codec ids s request d))

  pub update_instance_cases :
      (s : InstanceManager rocks codec ids) (request : ManagerRequest) (d : Done)
      → Updated s request d
  unfolding update_instance put_discovery_info construct_instance_key
  update_instance_cases s request d =
      let address = text_of (instance_of request).address in
      elim (Option-cases (find s.registry.instance_info address)) [
        | inl f ↦ inl (rw (update_instance, f) (bad_input s d "address not exist"))
        | inr (mem, f) ↦
            let info = updated_instance (instance_of request) mem in
            elim (Option-cases (codec.serialize info)) [
              | inl k ↦ inl (rw (update_instance, f, k) (no_text s d))
              | inr (value, k) ↦
                  elim (commit_cases s (rocks.write s.db (Op.put (3 ∷ 3 ∷ address) value ∷ []))
                    (set_instance_info s.registry info) d) [
                      | inl fails ↦ inl (rw (update_instance, f, k) fails)
                      | inr (db, w, ends) ↦
                          inr (mem, value, db, f, k, w, rw (update_instance, f, k) ends)
                    ]
            ]
      ]
