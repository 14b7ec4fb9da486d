-- ===== src/Config/Reload.antt =====
-- A config that was created without a version, before and after a snapshot is loaded.
use ea.Common.{◌≡◌, ◌∙◌, get_or, refl, none, some, [], ◌∷◌, eq_refl}
use ea.Common.Bytes.{Bytes, bytes_eq}
use ea.Common.Eq.{KeyEq}
use ea.Common.Maps.{find, assign, empty, find-assign, find-empty, lookup_in}
use ea.Api.{ConfigInfo, ManagerRequest}
use ea.Base.{Done}
use ea.Rocks.{Rocks, Codec, put_discovery_info}
use ea.Schema.State.{touch}
use ea.Config.{
  Versions, Listed, ConfigManager, config_of, version_of, stored_version, is_too_low, set_version,
  make_config_key, create_config, load_config_snapshot,
}

module _ {V : Type 0} ⦃keys : KeyEq V⦄ (versions : Versions V) (rocks : Rocks)
    (codec : Codec ConfigInfo) where
  create_first :
      (s : ConfigManager versions rocks codec) (request : ManagerRequest) (d : Done) (value : Bytes)
      (db : rocks.Db)
      → let info = config_of request in
        let version = version_of versions info in
        find s.configs info.name ≡ none
        → codec.serialize info ≡ some value
        → put_discovery_info rocks s.db (make_config_key versions info.name version) value ≡ some db
        → find (create_config versions rocks codec s request d).0.configs info.name
          ≡ some ((version, info) ∷ [])
  unfolding create_config is_too_low set_version lookup_in
  create_first s request d value db e f g =
      let info = config_of request in
      let listed =
        set_version versions (version_of versions info) info
          (get_or (find s.configs info.name) []) in
      rw
        (
          create_config,
          e,
          f,
          g,
          find-assign (touch s.configs info.name []) info.name listed info.name,
          eq_refl info.name,
          e,
        )
        refl

  load_first :
      (info : ConfigInfo) (value : Bytes)
      → codec.parse value ≡ some info
      → load_config_snapshot versions rocks codec empty value
        ≡ some (assign empty info.name ((stored_version versions info, info) ∷ []))
  unfolding load_config_snapshot set_version
  load_first info value e = rw (load_config_snapshot, e, find-empty info.name) refl

  -- A new config without a version has the version 0.0.1 where it was created, and 0.0.0 on a replica that loads
  -- it from the database: the value written there is the request, which has none.
  pub unversioned_reload :
      (s : ConfigManager versions rocks codec) (request : ManagerRequest) (d : Done) (value : Bytes)
      (db : rocks.Db)
      → let info = config_of request in
        let version = version_of versions info in
        let loaded = assign {V = Listed V} empty info.name ((versions.version 0 0 0, info) ∷ []) in
        info.version ≡ none
        → find s.configs info.name ≡ none
        → codec.serialize info ≡ some value
        → put_discovery_info rocks s.db (make_config_key versions info.name version) value ≡ some db
        → (find (create_config versions rocks codec s request d).0.configs info.name
            ≡ some ((versions.version 0 0 1, info) ∷ []))
          × (load_config_snapshot versions rocks codec empty value ≡ some loaded)
  unfolding version_of stored_version
  unversioned_reload s request d value db e f g k =
      let info = config_of request in
      (
        create_first s request d value db f g k ∙ rw (version_of, e) refl,
        load_first info value (codec.parse-serialize info value g) ∙ rw (stored_version, e) refl,
      )
