-- ===== src/Discovery/ConfigEffects.antt =====
-- ConfigManager: the effect of each operation.
use ea.Common.{
  ◌≡◌, Bool, true, false, String, refl, none, some, [], ◌∷◌, inl, inr, is_some, get_or, not,
  if◌then◌else◌, Bool-cases, Option-cases,
}
use ea.Common.Bytes.{Bytes, bytes_eq}
use ea.Common.Eq.{KeyEq}
use ea.Common.Maps.{find, lookup_in}
use ea.Api.{ErrCode, ManagerRequest, ConfigInfo}
use ea.Base.{Done, if_done_set_response}
use ea.Rocks.{Op, Rocks, Codec, put_discovery_info, remove_discovery_info, deletes}
use ea.Config.{
  Versions, Listed, ConfigManager, config_of, version_of, module_version, is_too_low,
  make_config_key, config_keys, create_config, remove_config_all, remove_version, remove_config,
}
use ea.Discovery.Readable.{Parses, serialized}
use ea.Discovery.Effects.{Effect, Under, quiet, written}

-- An answer is filled in over the warning that the config is not there.
overwritten :
    (missing : Bool) (d : Done) (code : ErrCode) (msg : String)
    → if_done_set_response
        (if missing then if_done_set_response d ErrCode.input_param_error "config not exist" else d)
        code
        msg
      ≡ if_done_set_response d code msg
unfolding if_done_set_response
overwritten true none code msg = refl
overwritten true (some r) code msg = refl
overwritten false d code msg = refl

module _ {V : Type 0} ⦃keys : KeyEq V⦄ (versions : Versions V) where
  deletes-Under :
      (R : Bytes → Bytes → Type 0) (name : Bytes) (listed : Listed V)
      → Under 4 R (deletes (config_keys versions name listed))
  unfolding deletes config_keys make_config_key
  deletes-Under R name [] = tt
  deletes-Under R name ((v, info) ∷ l) = (refl, deletes-Under R name l)

module _ {V : Type 0} ⦃keys : KeyEq V⦄ (versions : Versions V) (rocks : Rocks)
    (codec : Codec ConfigInfo) where
  -- The database and the answer after an operation.
  abbrev pub ends : ConfigManager versions rocks codec × Done → rocks.Db × Done
  ends result = (result.0.db, result.1)

  pub create_config-Effect :
      (s : ConfigManager versions rocks codec) (request : ManagerRequest) (d : Done)
      → Effect rocks 4 (Parses codec) s.db d (ends (create_config versions rocks codec s request d))
  unfolding create_config put_discovery_info make_config_key
  create_config-Effect s request d =
      let info = config_of request in
      let version = version_of versions info in
      let listed = get_or (find s.configs info.name) [] in
      elim (Bool-cases (is_some (lookup_in version listed))) [
        | inl e ↦
            rw (create_config, e)
              (quiet rocks 4 (Parses codec) s.db d ErrCode.input_param_error "config already exist")
        | inr e ↦ elim (Bool-cases (is_too_low versions listed version)) [
          | inl f ↦
              rw (create_config, e, f)
                (quiet rocks 4 (Parses codec) s.db d ErrCode.input_param_error
                  "Version numbers must increase monotonically")
          | inr f ↦ elim (Option-cases (codec.serialize info)) [
            | inl g ↦
                rw (create_config, e, f, g)
                  (quiet rocks 4 (Parses codec) s.db d ErrCode.parse_to_pb_fail
                    "serializeToArray fail")
            | inr (value, g) ↦
                let ops = Op.put (make_config_key versions info.name version) value ∷ [] in
                elim (Option-cases (rocks.write s.db ops)) [
                  | inl h ↦
                      rw (create_config, e, f, g, h)
                        (quiet rocks 4 (Parses codec) s.db d ErrCode.internal_error "write db fail")
                  | inr (db, h) ↦
                      rw (create_config, e, f, g, h)
                        (written rocks 4 (Parses codec) s.db db d ops ErrCode.success "success"
                          (refl, serialized codec info value g, tt) h)
                ]
          ]
        ]
      ]

  remove_config_all-Effect :
      (s : ConfigManager versions rocks codec) (request : ManagerRequest) (d : Done)
      → Effect rocks 4
          (Parses codec)
          s.db
          d
          (ends (remove_config_all versions rocks codec s request d))
  unfolding remove_config_all remove_discovery_info
  remove_config_all-Effect s request d =
      let name = (config_of request).name in
      elim (Option-cases (find s.configs name)) [
        | inl e ↦
            rw (remove_config_all, e)
              (quiet rocks 4 (Parses codec) s.db d ErrCode.parse_to_pb_fail "config not exist")
        | inr (listed, e) ↦
            let ops = deletes (config_keys versions name listed) in
            elim (Option-cases (rocks.write s.db ops)) [
              | inl f ↦
                  rw (remove_config_all, e, f)
                    (quiet rocks 4 (Parses codec) s.db d ErrCode.internal_error
                      "delete from db fail")
              | inr (db, f) ↦
                  rw (remove_config_all, e, f)
                    (written rocks 4 (Parses codec) s.db db d ops ErrCode.success "success"
                      (deletes-Under versions (Parses codec) name listed) f)
            ]
      ]

  -- The answer that a version is not there is filled in over.
  remove_version-Effect :
      (s : ConfigManager versions rocks codec) (name : Bytes) (version : V) (listed : Listed V)
      (d : Done)
      → Effect rocks 4
          (Parses codec)
          s.db
          d
          (ends (remove_version versions rocks codec s name version listed d))
  unfolding remove_version remove_discovery_info deletes make_config_key
  remove_version-Effect s name version listed d =
      let ops = Op.delete (make_config_key versions name version) ∷ [] in
      let missing = not (is_some (lookup_in version listed)) in
      elim (Option-cases (rocks.write s.db ops)) [
        | inl e ↦
            rw
              (
                remove_version,
                e,
                overwritten missing d ErrCode.internal_error "delete from db fail",
              )
              (quiet rocks 4 (Parses codec) s.db d ErrCode.internal_error "delete from db fail")
        | inr (db, e) ↦
            rw (remove_version, e, overwritten missing d ErrCode.success "success")
              (written rocks 4 (Parses codec) s.db db d ops ErrCode.success "success" (refl, tt) e)
      ]

  pub remove_config-Effect :
      (s : ConfigManager versions rocks codec) (request : ManagerRequest) (d : Done)
      → Effect rocks 4 (Parses codec) s.db d (ends (remove_config versions rocks codec s request d))
  unfolding remove_config
  remove_config-Effect s request d =
      let info = config_of request in
      elim (Option-cases info.version) [
        | inl e ↦ rw (remove_config, e) (remove_config_all-Effect s request d)
        | inr (v, e) ↦ elim (Option-cases (find s.configs info.name)) [
          | inl f ↦
              rw (remove_config, e, f)
                (quiet rocks 4 (Parses codec) s.db d ErrCode.parse_to_pb_fail "config not exist")
          | inr (listed, f) ↦
              rw (remove_config, e, f)
                (remove_version-Effect s info.name (module_version versions v) listed d)
        ]
      ]
