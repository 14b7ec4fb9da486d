-- ===== src/Discovery/UserEffects.antt =====
-- PrivilegeManager: the effect of each operation.
use ea.Common.{refl, inl, inr, [], ◌∷◌, Bool-cases, Option-cases}
use ea.Common.Bytes.{Bytes, bytes_eq}
use ea.Common.Maps.{find, has}
use ea.Api.{ErrCode, UserPrivilege, ManagerRequest}
use ea.Base.{Done}
use ea.Rocks.{Op, Rocks, Codec, put_discovery_info, remove_discovery_info, deletes}
use ea.Schema.{SchemaIds, check_and_get_for_privilege}
use ea.Privilege.{construct_privilege_key, user_of}
use ea.Privilege.Manager.{
  PrivilegeManager, write_user, create_user, drop_user, change_user, add_privilege, drop_privilege,
}
use ea.Discovery.Readable.{Parses, serialized}
use ea.Discovery.Effects.{Effect, quiet, written}

module _ (rocks : Rocks) (codec : Codec UserPrivilege) (ids : SchemaIds) where
  -- The database and the answer after an operation.
  abbrev pub ends : PrivilegeManager rocks codec ids × Done → rocks.Db × Done
  ends result = (result.0.db, result.1)

  write_user-Effect :
      (s : PrivilegeManager rocks codec ids) (username : Bytes) (u : UserPrivilege) (d : Done)
      → Effect rocks 2 (Parses codec) s.db d (ends (write_user rocks codec ids s username u d))
  unfolding write_user put_discovery_info construct_privilege_key
  write_user-Effect s username u d = elim (Option-cases (codec.serialize u)) [
    | inl e ↦
        rw (write_user, e)
          (quiet rocks 2 (Parses codec) s.db d ErrCode.parse_to_pb_fail "serializeToArray fail")
    | inr (value, e) ↦
        let ops = Op.put (2 ∷ username) value ∷ [] in
        elim (Option-cases (rocks.write s.db ops)) [
          | inl f ↦
              rw (write_user, e, f)
                (quiet rocks 2 (Parses codec) s.db d ErrCode.internal_error "write db fail")
          | inr (db, f) ↦
              rw (write_user, e, f)
                (written rocks 2 (Parses codec) s.db db d ops ErrCode.success "success"
                  (refl, serialized codec u value e, tt) f)
        ]
  ]

  pub create_user-Effect :
      (s : PrivilegeManager rocks codec ids) (request : ManagerRequest) (d : Done)
      → Effect rocks 2 (Parses codec) s.db d (ends (create_user rocks codec ids s request d))
  unfolding create_user
  create_user-Effect s request d =
      elim (Bool-cases (has s.user_privilege (user_of request).username)) [
        | inl e ↦
            rw (create_user, e)
              (quiet rocks 2 (Parses codec) s.db d ErrCode.input_param_error
                "username has been repeated")
        | inr e ↦ elim (Option-cases (check_and_get_for_privilege ids (user_of request))) [
          | inl f ↦
              rw (create_user, e, f)
                (quiet rocks 2 (Parses codec) s.db d ErrCode.input_param_error "request invalid")
          | inr (u, f) ↦
              rw (create_user, e, f)
                (write_user-Effect s (user_of request).username (record u { version = 1 }) d)
        ]
      ]

  change_user-Effect :
      (change : UserPrivilege → UserPrivilege → UserPrivilege)
      (s : PrivilegeManager rocks codec ids) (request : ManagerRequest) (d : Done)
      → Effect rocks 2 (Parses codec) s.db d (ends (change_user rocks codec ids change s request d))
  unfolding change_user
  change_user-Effect change s request d =
      elim (Option-cases (find s.user_privilege (user_of request).username)) [
        | inl e ↦
            rw (change_user, e)
              (quiet rocks 2 (Parses codec) s.db d ErrCode.input_param_error "username not exist")
        | inr (mem, e) ↦ elim (Option-cases (check_and_get_for_privilege ids (user_of request))) [
          | inl f ↦
              rw (change_user, e, f)
                (quiet rocks 2 (Parses codec) s.db d ErrCode.input_param_error "request invalid")
          | inr (u, f) ↦
              rw (change_user, e, f)
                (write_user-Effect s (user_of request).username (change u mem) d)
        ]
      ]

  pub add_privilege-Effect :
      (s : PrivilegeManager rocks codec ids) (request : ManagerRequest) (d : Done)
      → Effect rocks 2 (Parses codec) s.db d (ends (add_privilege rocks codec ids s request d))
  unfolding add_privilege
  add_privilege-Effect s request d = change_user-Effect _ s request d

  pub drop_privilege-Effect :
      (s : PrivilegeManager rocks codec ids) (request : ManagerRequest) (d : Done)
      → Effect rocks 2 (Parses codec) s.db d (ends (drop_privilege rocks codec ids s request d))
  unfolding drop_privilege
  drop_privilege-Effect s request d = change_user-Effect _ s request d

  pub drop_user-Effect :
      (s : PrivilegeManager rocks codec ids) (request : ManagerRequest) (d : Done)
      → Effect rocks 2 (Parses codec) s.db d (ends (drop_user rocks codec ids s request d))
  unfolding drop_user construct_privilege_key remove_discovery_info deletes
  drop_user-Effect s request d =
      let username = (user_of request).username in
      let ops = Op.delete (2 ∷ username) ∷ [] in
      elim (Bool-cases (has s.user_privilege username)) [
        | inr e ↦
            rw (drop_user, e)
              (quiet rocks 2 (Parses codec) s.db d ErrCode.input_param_error "username not exist")
        | inl e ↦ elim (Option-cases (rocks.write s.db ops)) [
          | inl f ↦
              rw (drop_user, e, f)
                (quiet rocks 2 (Parses codec) s.db d ErrCode.internal_error "delete from db fail")
          | inr (db, f) ↦
              rw (drop_user, e, f)
                (written rocks 2 (Parses codec) s.db db d ops ErrCode.success "success" (refl, tt)
                  f)
        ]
      ]
