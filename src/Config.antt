-- ===== src/Config.antt =====
-- ea/discovery/config_manager: named configs, each with versions in increasing order. turbo::ModuleVersion is a
-- parameter, ordered as it documents.
pub mod Order
pub mod Create
pub mod Remove
mod Reload
pub mod Triple
mod Tests
use ea.Common.{
  ℕ, ◌≡◌, ◌⊎◌, Bool, true, false, not, Option, none, some, List, [], ◌∷◌, ◌++◌, ◌==◌, if◌then◌else◌,
  get_or, is_some,
}
use ea.Common.Bytes.{Bytes, bytes_eq}
use ea.Common.Eq.{KeyEq}
use ea.Common.Maps.{Map, find, assign, erase, empty, lookup_in, erase_in}
use ea.Common.Sets.{is_empty}
use ea.Api.{
  OpType, op_create_config, op_remove_config, ErrCode, ManagerRequest, ConfigInfo, ConfigVersion,
}
use ea.Api.Absent.{no_config_info}
use ea.Base.{Done, if_done_set_response}
use ea.Rocks.{Rocks, Codec, put_discovery_info, remove_discovery_info}
use ea.Schema.State.{touch}

-- turbo::ModuleVersion
pub record Versions (V : Type 0) : Type 0 where
  pub version : ℕ → ℕ → ℕ → V
  pub leq : V → V → Bool
  pub to_string : V → Bytes
  pub leq_refl : (v : V) → leq v v ≡ true
  pub leq_trans : (u v w : V) → leq u v ≡ true → leq v w ≡ true → leq u w ≡ true
  pub leq_antisym : (v w : V) → leq v w ≡ true → leq w v ≡ true → v ≡ w
  pub leq_total : (v w : V) → (leq v w ≡ true) ⊎ (leq w v ≡ true)

-- request.config_info()
unfoldable pub config_of : ManagerRequest → ConfigInfo
config_of request = get_or request.config_info no_config_info

-- A std::map by version: its entries, in increasing order.
abbrev pub Listed : Type 0 → Type 0
Listed V = List (V × ConfigInfo)

module _ {V : Type 0} ⦃keys : KeyEq V⦄ (versions : Versions V) where
  -- ModuleVersion(v.major(), v.minor(), v.patch())
  unfoldable pub module_version : ConfigVersion → V
  module_version v = versions.version v.major v.minor v.patch

  -- the version of a request to create: kDefaultVersion where it has none
  unfoldable pub version_of : ConfigInfo → V
  unfolding module_version
  version_of info = elim info.version [ none ↦ versions.version 0 0 1 | some v ↦ module_version v ]

  -- the version of a stored message: the fields of a message that is not there are 0
  unfoldable pub stored_version : ConfigInfo → V
  unfolding module_version
  stored_version info = elim info.version [
    | none ↦ versions.version 0 0 0
    | some v ↦ module_version v
  ]

  -- !it->second.empty() && it->second.rbegin()->first >= version
  unfoldable pub is_too_low : Listed V → V → Bool
  is_too_low [] version = false
  is_too_low ((last, info) ∷ []) version = versions.leq version last
  is_too_low (entry ∷ next ∷ l) version = is_too_low (next ∷ l) version

  -- it->second[version] = info
  unfoldable pub set_version : V → ConfigInfo → Listed V → Listed V
  set_version version info [] = (version, info) ∷ []
  set_version version info ((v, old) ∷ l) =
      let rest = set_version version info l in
      if v == version
      then (version, info) ∷ l
      else if versions.leq version v
      then (version, info) ∷ (v, old) ∷ l
      else (v, old) ∷ rest

  -- CONFIG_IDENTIFY + name + version.to_string()
  unfoldable pub make_config_key : Bytes → V → Bytes
  make_config_key name version = 4 ∷ (name ++ versions.to_string version)

  -- the keys that remove_config_all collects
  unfoldable pub config_keys : Bytes → Listed V → List Bytes
  unfolding make_config_key
  config_keys name [] = []
  config_keys name ((v, info) ∷ l) = make_config_key name v ∷ config_keys name l

  -- `it->second.erase(version)`, and the config itself where no version is left
  unfoldable pub without_version :
      Map Bytes (Listed V) → Bytes → V → Listed V → Map Bytes (Listed V)
  without_version configs name version listed =
      let left = erase_in version listed in
      if is_empty left then erase configs name else assign configs name left

module _ {V : Type 0} ⦃keys : KeyEq V⦄ (versions : Versions V) (rocks : Rocks)
    (codec : Codec ConfigInfo) where
  pub record ConfigManager : Type 0 where
    pub configs : Map Bytes (Listed V)
    pub db : rocks.Db

  unfoldable pub create_config : ConfigManager → ManagerRequest → Done → ConfigManager × Done
  unfolding config_of version_of touch is_too_low set_version make_config_key put_discovery_info
  create_config s request d =
      let info = config_of request in
      let version = version_of versions info in
      let listed = get_or (find s.configs info.name) [] in
      let touched = record s { configs = touch s.configs info.name [] } in
      if is_some (lookup_in version listed)
      then (touched, if_done_set_response d ErrCode.input_param_error "config already exist")
      else if is_too_low versions listed version
      then (
        touched,
        if_done_set_response d ErrCode.input_param_error
            "Version numbers must increase monotonically",
      )
      else elim (codec.serialize info) [
        | none ↦ (touched, if_done_set_response d ErrCode.parse_to_pb_fail "serializeToArray fail")
        | some value ↦
            elim (put_discovery_info rocks s.db (make_config_key versions info.name version)
              value) [
                | none ↦ (touched, if_done_set_response d ErrCode.internal_error "write db fail")
                | some db ↦ (
                  record {
                    configs =
                        assign touched.configs info.name (set_version versions version info listed);
                    db = db;
                  },
                  if_done_set_response d ErrCode.success "success",
                )
              ]
      ]

  unfoldable pub remove_config_all : ConfigManager → ManagerRequest → Done → ConfigManager × Done
  unfolding config_of config_keys remove_discovery_info
  remove_config_all s request d =
      let name = (config_of request).name in
      elim (find s.configs name) [
        | none ↦ (s, if_done_set_response d ErrCode.parse_to_pb_fail "config not exist")
        | some listed ↦ elim (remove_discovery_info rocks s.db (config_keys versions name listed)) [
          | none ↦ (s, if_done_set_response d ErrCode.internal_error "delete from db fail")
          | some db ↦ (
            record { configs = erase s.configs name; db = db },
            if_done_set_response d ErrCode.success "success",
          )
        ]
      ]

  -- There is no return after the answer for a version that is not there, as in the source.
  unfoldable pub remove_version : ConfigManager → Bytes → V → Listed V → Done → ConfigManager × Done
  unfolding make_config_key remove_discovery_info without_version
  remove_version s name version listed d =
      let d' =
        if not (is_some (lookup_in version listed))
        then if_done_set_response d ErrCode.input_param_error "config not exist"
        else d in
      elim (remove_discovery_info rocks s.db (make_config_key versions name version ∷ [])) [
        | none ↦ (s, if_done_set_response d' ErrCode.internal_error "delete from db fail")
        | some db ↦ (
          record { configs = without_version versions s.configs name version listed; db = db },
          if_done_set_response d' ErrCode.success "success",
        )
      ]

  unfoldable pub remove_config : ConfigManager → ManagerRequest → Done → ConfigManager × Done
  unfolding config_of module_version remove_config_all remove_version
  remove_config s request d =
      let info = config_of request in
      elim info.version [
        | none ↦ remove_config_all s request d
        | some v ↦ elim (find s.configs info.name) [
          | none ↦ (s, if_done_set_response d ErrCode.parse_to_pb_fail "config not exist")
          | some listed ↦ remove_version s info.name (module_version versions v) listed d
        ]
      ]

  -- none where -1 is returned
  unfoldable pub load_config_snapshot : Map Bytes (Listed V) → Bytes → Option (Map Bytes (Listed V))
  unfolding stored_version set_version
  load_config_snapshot configs value = elim (codec.parse value) [
    | none ↦ none
    | some info ↦ some (
        assign configs info.name (
          set_version versions (stored_version versions info) info
            (get_or (find configs info.name) [])))
  ]

  unfoldable pub load_configs :
      Map Bytes (Listed V) → List (Bytes × Bytes) → Option (Map Bytes (Listed V))
  unfolding load_config_snapshot
  load_configs configs [] = some configs
  load_configs configs ((key, value) ∷ l) = elim (load_config_snapshot configs value) [
    | none ↦ none
    | some configs' ↦ load_configs configs' l
  ]

  unfoldable pub load_snapshot : rocks.Db → Option (Map Bytes (Listed V))
  unfolding load_configs
  load_snapshot db = load_configs empty (rocks.scan db 4)

  -- DiscoveryStateMachine::on_apply, for the operations on configs
  unfoldable pub apply_config :
      OpType → ConfigManager → ManagerRequest → Done → ConfigManager × Done
  apply_config op_create_config s request d = create_config s request d
  apply_config op_remove_config s request d = remove_config s request d
  apply_config _ s request d = (s, d)
