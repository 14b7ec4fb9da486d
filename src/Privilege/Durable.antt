-- ===== src/Privilege/Durable.antt =====
-- PrivilegeManager: the map of the users against what RocksDB holds.
use ea.Common.{inl, inr, [], ◌∷◌, ◌==◌, Bool-cases, Option-cases}
use ea.Common.Bytes.{Bytes, bytes_eq}
use ea.Common.Maps.{find, has, find-assign, find-erase}
use ea.Api.{
  OpType, UserPrivilege, ManagerRequest, op_create_user, op_drop_user, op_add_privilege,
  op_drop_privilege,
}
use ea.Base.{Done}
use ea.Rocks.{Op, Rocks, Codec, remove_discovery_info, deletes}
use ea.Rocks.Agree.{Agree, Agree-put, Agree-delete}
use ea.Schema.{SchemaIds, check_and_get_for_privilege}
use ea.Privilege.{construct_privilege_key, user_of, add_rights, drop_rights}
use ea.Privilege.Outcomes.{write_user_cases}
use ea.Privilege.Manager.{
  PrivilegeManager, write_user, create_user, drop_user, change_user, add_privilege, drop_privilege,
  apply_user_privilege,
}

module _ (rocks : Rocks) (codec : Codec UserPrivilege) (ids : SchemaIds) where
  -- Memory and database agree on every user.
  abbrev pub IsDurable : PrivilegeManager rocks codec ids → Type 0
  IsDurable s =
      (username : Bytes)
      → Agree codec (rocks.get s.db (2 ∷ username)) (find s.user_privilege username)

  write_user-IsDurable :
      (s : PrivilegeManager rocks codec ids) (username : Bytes) (u : UserPrivilege) (d : Done)
      → IsDurable s
      → IsDurable (write_user rocks codec ids s username u d).0
  write_user-IsDurable s username u d h = elim (write_user_cases rocks codec ids s username u d) [
    | inl (fails, (code, msg, e, ne)) ↦ rw e h
    | inr (value, db, e, f, g) ↦ rw g (λ j.
        rw
          (
            rocks.get-write s.db db (Op.put (2 ∷ username) value ∷ []) (2 ∷ j) f,
            find-assign s.user_privilege username u j,
          )
          (Agree-put codec (username == j) value u (rocks.get s.db (2 ∷ j))
            (find s.user_privilege j) (codec.parse-serialize u value e) (h j)))
  ]

  create_user-IsDurable :
      (s : PrivilegeManager rocks codec ids) (request : ManagerRequest) (d : Done)
      → IsDurable s
      → IsDurable (create_user rocks codec ids s request d).0
  unfolding create_user
  create_user-IsDurable s request d h =
      elim (Bool-cases (has s.user_privilege (user_of request).username)) [
        | inl e ↦ rw e h
        | inr e ↦ elim (Option-cases (check_and_get_for_privilege ids (user_of request))) [
          | inl f ↦ rw (e, f) h
          | inr (u, f) ↦
              rw (e, f)
                (write_user-IsDurable s (user_of request).username (record u { version = 1 }) d h)
        ]
      ]

  change_user-IsDurable :
      (change : UserPrivilege → UserPrivilege → UserPrivilege)
      (s : PrivilegeManager rocks codec ids) (request : ManagerRequest) (d : Done)
      → IsDurable s
      → IsDurable (change_user rocks codec ids change s request d).0
  unfolding change_user
  change_user-IsDurable change s request d h =
      elim (Option-cases (find s.user_privilege (user_of request).username)) [
        | inl e ↦ rw (change_user, e) h
        | inr (mem, e) ↦ elim (Option-cases (check_and_get_for_privilege ids (user_of request))) [
          | inl f ↦ rw (change_user, e, f) h
          | inr (u, f) ↦
              rw (change_user, e, f)
                (write_user-IsDurable s (user_of request).username (change u mem) d h)
        ]
      ]

  drop_user-IsDurable :
      (s : PrivilegeManager rocks codec ids) (request : ManagerRequest) (d : Done)
      → IsDurable s
      → IsDurable (drop_user rocks codec ids s request d).0
  unfolding drop_user construct_privilege_key remove_discovery_info deletes
  drop_user-IsDurable s request d h =
      let username = (user_of request).username in
      elim (Bool-cases (has s.user_privilege username)) [
        | inr e ↦ rw e h
        | inl e ↦ elim (Option-cases (rocks.write s.db (Op.delete (2 ∷ username) ∷ []))) [
          | inl f ↦ rw (e, f) h
          | inr (db, f) ↦
              rw (e, f)
                (λ j.
                  rw
                    (
                      rocks.get-write s.db db (Op.delete (2 ∷ username) ∷ []) (2 ∷ j) f,
                      find-erase s.user_privilege username j,
                    )
                    (Agree-delete codec (username == j) (rocks.get s.db (2 ∷ j))
                      (find s.user_privilege j) (h j)))
        ]
      ]

  -- Memory and database agree after every operation on users where they agreed before, whether it
  -- succeeds, is refused, or the write fails.
  pub apply_user_privilege-IsDurable :
      (op : OpType) (s : PrivilegeManager rocks codec ids) (request : ManagerRequest) (d : Done)
      → IsDurable s
      → IsDurable (apply_user_privilege rocks codec ids op s request d).0
  unfolding apply_user_privilege add_privilege drop_privilege
  apply_user_privilege-IsDurable op_create_user s request d h = create_user-IsDurable s request d h
  apply_user_privilege-IsDurable op_drop_user s request d h = drop_user-IsDurable s request d h
  apply_user_privilege-IsDurable op_add_privilege s request d h =
      change_user-IsDurable add_rights s request d h
  apply_user_privilege-IsDurable op_drop_privilege s request d h =
      change_user-IsDurable drop_rights s request d h
  apply_user_privilege-IsDurable _ s request d h = h
