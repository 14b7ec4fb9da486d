-- ===== src/Config/Remove.antt =====
-- remove_config, and the order of the versions over every operation on configs.
use ea.Common.{
  ◌≡◌, inl, inr, sym, subst, refl, true, none, some, List, [], ◌∷◌, ◌==◌, if◌then◌else◌, get_or,
  if_cases, arith, Bool-cases, Option-cases,
}
use ea.Common.Bytes.{Bytes, bytes_eq}
use ea.Common.Eq.{KeyEq}
use ea.Common.Maps.{Map, find, erase, find-assign, find-erase, lookup_in, erase_in}
use ea.Common.Sets.{is_empty}
use ea.Api.{
  ErrCode, ConfigInfo, ConfigVersion, ManagerRequest, ManagerResponse, OpType, op_create_config,
  op_remove_config,
}
use ea.Base.{Done, if_done_set_response}
use ea.Rocks.{Rocks, Codec, remove_discovery_info}
use ea.Config.{
  Versions, Listed, ConfigManager, config_of, module_version, make_config_key, config_keys,
  without_version, remove_config_all, remove_version, remove_config, apply_config,
}
use ea.Config.Order.{IsIncreasing, erase_in-IsIncreasing}
use ea.Config.Create.{versions_at, IsOrdered, create_config-IsOrdered}

empty_list : {A : Type 0} (l : List A) → is_empty l ≡ true → l ≡ []
empty_list [] e = refl
empty_list (x ∷ l) e = ground arith

versions-erase :
    {V : Type 0} (configs : Map Bytes (Listed V)) (name j : Bytes)
    → versions_at (erase configs name) j ≡ (if name == j then [] else versions_at configs j)
versions-erase configs name j = elim (Bool-cases (name == j)) [
  | inl same ↦ rw (find-erase configs name j, same) refl
  | inr other ↦ rw (find-erase configs name j, other) refl
]

module _ {V : Type 0} ⦃keys : KeyEq V⦄ (versions : Versions V) where
  versions-without_version :
      (configs : Map Bytes (Listed V)) (name : Bytes) (v : V) (listed : Listed V) (j : Bytes)
      → versions_at (without_version versions configs name v listed) j
        ≡ (if name == j then erase_in v listed else versions_at configs j)
  unfolding without_version
  versions-without_version configs name v listed j =
      elim (Bool-cases (is_empty (erase_in v listed))) [
        | inl e ↦ rw (e, empty_list (erase_in v listed) e) (versions-erase configs name j)
        | inr e ↦ elim (Bool-cases (name == j)) [
          | inl same ↦ rw (e, find-assign configs name (erase_in v listed) j, same) refl
          | inr other ↦ rw (e, find-assign configs name (erase_in v listed) j, other) refl
        ]
      ]

module _ {V : Type 0} ⦃keys : KeyEq V⦄ (versions : Versions V) (rocks : Rocks)
    (codec : Codec ConfigInfo) where
  remove_config_all-IsOrdered :
      (s : ConfigManager versions rocks codec) (request : ManagerRequest) (d : Done)
      → IsOrdered versions rocks codec s
      → IsOrdered versions rocks codec (remove_config_all versions rocks codec s request d).0
  unfolding remove_config_all
  remove_config_all-IsOrdered s request d h =
      let name = (config_of request).name in
      elim (Option-cases (find s.configs name)) [
        | inl e ↦ rw (remove_config_all, e) h
        | inr (listed, e) ↦
            elim (Option-cases
              (remove_discovery_info rocks s.db (config_keys versions name listed))) [
                | inl f ↦ rw (remove_config_all, e, f) h
                | inr (db, f) ↦
                    rw (remove_config_all, e, f)
                      (λ j. subst (IsIncreasing versions) (sym (versions-erase s.configs name j)) (
                        if_cases (IsIncreasing versions) (name == j) [] (versions_at s.configs j)
                          (λ p. tt) (λ p. h j)))
              ]
      ]

  remove_version-IsOrdered :
      (s : ConfigManager versions rocks codec) (name : Bytes) (v : V) (listed : Listed V) (d : Done)
      → IsOrdered versions rocks codec s
      → IsIncreasing versions listed
      → IsOrdered versions rocks codec (remove_version versions rocks codec s name v listed d).0
  unfolding remove_version
  remove_version-IsOrdered s name v listed d h k =
      elim (Option-cases
        (remove_discovery_info rocks s.db (make_config_key versions name v ∷ []))) [
          | inl f ↦ rw (remove_version, f) h
          | inr (db, f) ↦
              rw (remove_version, f)
                (λ j.
                  subst (IsIncreasing versions)
                    (sym (versions-without_version versions s.configs name v listed j))
                    (if_cases (IsIncreasing versions) (name == j) (erase_in v listed)
                      (versions_at s.configs j) (λ p. erase_in-IsIncreasing versions v listed k)
                      (λ p. h j)))
        ]

  remove_config-IsOrdered :
      (s : ConfigManager versions rocks codec) (request : ManagerRequest) (d : Done)
      → IsOrdered versions rocks codec s
      → IsOrdered versions rocks codec (remove_config versions rocks codec s request d).0
  unfolding remove_config
  remove_config-IsOrdered s request d h =
      let info = config_of request in
      elim (Option-cases info.version) [
        | inl e ↦ rw (remove_config, e) (remove_config_all-IsOrdered s request d h)
        | inr (v, e) ↦ elim (Option-cases (find s.configs info.name)) [
          | inl f ↦ rw (remove_config, e, f) h
          | inr (listed, f) ↦
              rw (remove_config, e, f)
                (remove_version-IsOrdered s info.name (module_version versions v) listed d h
                  (subst (λ o. IsIncreasing versions (get_or o [])) f (h info.name)))
        ]
      ]

  -- Every operation on configs keeps the versions of every config in strictly increasing order.
  pub apply_config-IsOrdered :
      (op : OpType) (s : ConfigManager versions rocks codec) (request : ManagerRequest) (d : Done)
      → IsOrdered versions rocks codec s
      → IsOrdered versions rocks codec (apply_config versions rocks codec op s request d).0
  unfolding apply_config
  apply_config-IsOrdered op_create_config s request d h =
      create_config-IsOrdered versions rocks codec s request d h
  apply_config-IsOrdered op_remove_config s request d h = remove_config-IsOrdered s request d h
  apply_config-IsOrdered _ s request d h = h

  -- Where a config is there and the version to remove is not, remove_config answers SUCCESS, as long as
  -- RocksDB takes the write: the answer "config not exist" is set first and then written over.
  pub remove_missing_succeeds :
      (s : ConfigManager versions rocks codec) (request : ManagerRequest) (a : ManagerResponse)
      (v : ConfigVersion) (listed : Listed V) (db : rocks.Db)
      → let info = config_of request in
        let version = module_version versions v in
        info.version ≡ some v
        → find s.configs info.name ≡ some listed
        → lookup_in version listed ≡ none
        → remove_discovery_info rocks s.db (make_config_key versions info.name version ∷ [])
          ≡ some db
        → (remove_config versions rocks codec s request (some a)).1
          ≡ if_done_set_response (some a) ErrCode.success "success"
  unfolding remove_config remove_version if_done_set_response
  remove_missing_succeeds s request a v listed db e f g k =
      rw (remove_config, e, f, remove_version, k, g) refl
