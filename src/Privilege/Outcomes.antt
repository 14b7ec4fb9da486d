-- ===== src/Privilege/Outcomes.antt =====
-- PrivilegeManager: what an operation on users can end with.
use ea.Common.{
  String, ◌≡◌, ◌≢◌, refl, Bool, true, false, ◌⊎◌, inl, inr, Option, none, some, [], ◌∷◌, ◌==◌,
  if◌then◌else◌, arith, Option-cases,
}
use ea.Common.Bytes.{Bytes, bytes_eq}
use ea.Common.Maps.{find, assign, find-assign, find-erase}
use mathlib.Core.Option.{map as map_some}
use ea.Api.{
  OpType, ErrCode, UserPrivilege, ManagerRequest, op_create_user, op_drop_user, op_add_privilege,
  op_drop_privilege,
}
use ea.Base.{Done, if_done_set_response}
use ea.Rocks.{Op, Rocks, Codec, put_discovery_info, remove_discovery_info, deletes}
use ea.Schema.{SchemaIds, check_and_get_for_privilege}
use ea.Privilege.{construct_privilege_key, user_of, add_rights, drop_rights}
use ea.Privilege.Manager.{
  PrivilegeManager, write_user, create_user, drop_user, change_user, add_privilege, drop_privilege,
  apply_user_privilege,
}

abbrev pub is_user_op : OpType → Bool
is_user_op op_create_user = true
is_user_op op_drop_user = true
is_user_op op_add_privilege = true
is_user_op op_drop_privilege = true
is_user_op _ = false

-- A user that is there, changed by the request with its ids filled in.
abbrev pub changed :
    SchemaIds
    → (UserPrivilege → UserPrivilege → UserPrivilege)
    → UserPrivilege
    → Option UserPrivilege
    → Option (Option UserPrivilege)
changed ids change request none = none
changed ids change request (some mem) =
    map_some (λ u. some (change u mem)) (check_and_get_for_privilege ids request)

-- A new user, from the request with its ids filled in.
abbrev pub created :
    SchemaIds → UserPrivilege → Option UserPrivilege → Option (Option UserPrivilege)
created ids request none =
    map_some (λ u. some (record u { version = 1 })) (check_and_get_for_privilege ids request)
created ids request (some mem) = none

abbrev pub dropped : Option UserPrivilege → Option (Option UserPrivilege)
dropped none = none
dropped (some mem) = some none

-- What an operation should make of the user: none where it should be refused, and else the user after
-- it, or none where the user is gone. What is granted and taken away is that of add_rights and drop_rights.
abbrev pub user_after :
    SchemaIds → OpType → UserPrivilege → Option UserPrivilege → Option (Option UserPrivilege)
user_after ids op_create_user request old = created ids request old
user_after ids op_drop_user request old = dropped old
user_after ids op_add_privilege request old = changed ids add_rights request old
user_after ids op_drop_privilege request old = changed ids drop_rights request old
user_after ids _ request old = none

module _ (rocks : Rocks) (codec : Codec UserPrivilege) (ids : SchemaIds) where
  -- The operation is refused with a code other than SUCCESS, and nothing changes.
  abbrev pub IsRefused :
      PrivilegeManager rocks codec ids → Done → PrivilegeManager rocks codec ids × Done → Type 0
  IsRefused s d result =
      (code : ErrCode) × (msg : String) × (result ≡ (s, if_done_set_response d code msg))
      × (code ≢ ErrCode.success)

  -- The operation succeeds: the user is `new`, and the others stay.
  abbrev pub IsUpdated :
      PrivilegeManager rocks codec ids
      → Bytes
      → Option UserPrivilege
      → Done
      → PrivilegeManager rocks codec ids × Done
      → Type 0
  IsUpdated s username new d result =
      (result.1 ≡ if_done_set_response d ErrCode.success "success")
      × ((j : Bytes)
          → find result.0.user_privilege j
            ≡ (if username == j then new else find s.user_privilege j))

  -- The user cannot be stored: the message does not serialize, or RocksDB refuses the batch.
  abbrev pub StoreFails : rocks.Db → Bytes → Option UserPrivilege → Type 0
  StoreFails db username none = rocks.write db (Op.delete (2 ∷ username) ∷ []) ≡ none
  StoreFails db username (some u) =
      (codec.serialize u ≡ none)
      ⊎ ((value : Bytes) × (codec.serialize u ≡ some value)
          × (rocks.write db (Op.put (2 ∷ username) value ∷ []) ≡ none))

  -- Refused where `user_after` says none. Else the operation succeeds, unless the store fails.
  abbrev pub IsAsSpecified :
      PrivilegeManager rocks codec ids
      → Bytes
      → Option (Option UserPrivilege)
      → Done
      → PrivilegeManager rocks codec ids × Done
      → Type 0
  IsAsSpecified s username none d result = IsRefused s d result
  IsAsSpecified s username (some new) d result =
      (StoreFails s.db username new × IsRefused s d result) ⊎ IsUpdated s username new d result

  pub write_user_cases :
      (s : PrivilegeManager rocks codec ids) (username : Bytes) (u : UserPrivilege) (d : Done)
      → (StoreFails s.db username (some u)
          × IsRefused s d (write_user rocks codec ids s username u d))
        ⊎ ((value : Bytes) × (db : rocks.Db) × (codec.serialize u ≡ some value)
            × (rocks.write s.db (Op.put (2 ∷ username) value ∷ []) ≡ some db)
            × (write_user rocks codec ids s username u d ≡ (
              record { user_privilege = assign s.user_privilege username u; db = db },
              if_done_set_response d ErrCode.success "success",
            )))
  unfolding write_user put_discovery_info construct_privilege_key
  write_user_cases s username u d = elim (Option-cases (codec.serialize u)) [
    | inl e ↦ inl (
      inl e,
      (
        ErrCode.parse_to_pb_fail,
        "serializeToArray fail",
        rw (write_user, e) refl,
        λ p. ground arith,
      ),
    )
    | inr (value, e) ↦ elim (Option-cases (rocks.write s.db (Op.put (2 ∷ username) value ∷ []))) [
      | inl f ↦ inl (
        inr (value, e, f),
        (ErrCode.internal_error, "write db fail", rw (write_user, e, f) refl, λ p. ground arith),
      )
      | inr (db, f) ↦ inr (value, db, e, f, rw (write_user, e, f) refl)
    ]
  ]

  write_user_outcome :
      (s : PrivilegeManager rocks codec ids) (username : Bytes) (u : UserPrivilege) (d : Done)
      → IsAsSpecified s username (some (some u)) d (write_user rocks codec ids s username u d)
  write_user_outcome s username u d = elim (write_user_cases s username u d) [
    | inl refused ↦ inl refused
    | inr (value, db, e, f, g) ↦ inr (rw g (refl, λ j. find-assign s.user_privilege username u j))
  ]

  refused :
      (s : PrivilegeManager rocks codec ids) (d : Done) (msg : String)
      → IsRefused s d (s, if_done_set_response d ErrCode.input_param_error msg)
  refused s d msg = (ErrCode.input_param_error, msg, refl, λ p. ground arith)

  create_user_outcome :
      (s : PrivilegeManager rocks codec ids) (request : ManagerRequest) (d : Done)
      → let r = user_of request in
        IsAsSpecified s r.username
          (user_after ids op_create_user r (find s.user_privilege r.username))
          d
          (create_user rocks codec ids s request d)
  unfolding create_user
  create_user_outcome s request d =
      let r = user_of request in
      elim (Option-cases (find s.user_privilege r.username)) [
        | inr (mem, e) ↦ rw (create_user, e) (refused s d "username has been repeated")
        | inl e ↦ elim (Option-cases (check_and_get_for_privilege ids r)) [
          | inl f ↦ rw (create_user, e, f) (refused s d "request invalid")
          | inr (u, f) ↦
              rw (create_user, e, f) (write_user_outcome s r.username (record u { version = 1 }) d)
        ]
      ]

  -- add_privilege and drop_privilege
  change_user_outcome :
      (change : UserPrivilege → UserPrivilege → UserPrivilege)
      (s : PrivilegeManager rocks codec ids) (request : ManagerRequest) (d : Done)
      → let r = user_of request in
        IsAsSpecified s r.username
          (changed ids change r (find s.user_privilege r.username))
          d
          (change_user rocks codec ids change s request d)
  unfolding change_user
  change_user_outcome change s request d =
      let r = user_of request in
      elim (Option-cases (find s.user_privilege r.username)) [
        | inl e ↦ rw (change_user, e) (refused s d "username not exist")
        | inr (mem, e) ↦ elim (Option-cases (check_and_get_for_privilege ids r)) [
          | inl f ↦ rw (change_user, e, f) (refused s d "request invalid")
          | inr (u, f) ↦ rw (change_user, e, f) (write_user_outcome s r.username (change u mem) d)
        ]
      ]

  drop_user_outcome :
      (s : PrivilegeManager rocks codec ids) (request : ManagerRequest) (d : Done)
      → let r = user_of request in
        IsAsSpecified s r.username
          (user_after ids op_drop_user r (find s.user_privilege r.username))
          d
          (drop_user rocks codec ids s request d)
  unfolding drop_user construct_privilege_key remove_discovery_info deletes
  drop_user_outcome s request d =
      let r = user_of request in
      elim (Option-cases (find s.user_privilege r.username)) [
        | inl e ↦ rw (drop_user, e) (refused s d "username not exist")
        | inr (mem, e) ↦ elim (Option-cases (rocks.write s.db (Op.delete (2 ∷ r.username) ∷ []))) [
          | inl f ↦
              rw (drop_user, e, f)
                (inl
                  (refl, (ErrCode.internal_error, "delete from db fail", refl, λ p. ground arith)))
          | inr (db, f) ↦
              rw (drop_user, e, f) (inr (refl, λ j. find-erase s.user_privilege r.username j))
        ]
      ]

  -- An operation on users, on every branch. It is refused, with a code other than SUCCESS and nothing
  -- changed, where a user to create is there, another one is not, or a name in the request is not
  -- known. Else it leaves the user as `user_after` says, the others as they were, and answers SUCCESS,
  -- unless the message does not serialize or RocksDB refuses the batch: then it is refused.
  pub apply_user_privilege_outcome :
      (op : OpType) (s : PrivilegeManager rocks codec ids) (request : ManagerRequest) (d : Done)
      → is_user_op op ≡ true
      → let r = user_of request in
        IsAsSpecified s r.username
          (user_after ids op r (find s.user_privilege r.username))
          d
          (apply_user_privilege rocks codec ids op s request d)
  unfolding apply_user_privilege add_privilege drop_privilege
  apply_user_privilege_outcome op_create_user s request d h = create_user_outcome s request d
  apply_user_privilege_outcome op_drop_user s request d h = drop_user_outcome s request d
  apply_user_privilege_outcome op_add_privilege s request d h =
      change_user_outcome add_rights s request d
  apply_user_privilege_outcome op_drop_privilege s request d h =
      change_user_outcome drop_rights s request d
  apply_user_privilege_outcome _ s request d h = ground arith
