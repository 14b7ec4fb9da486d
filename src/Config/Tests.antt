-- ===== src/Config/Tests.antt =====
-- Runs of ConfigManager, and its theorems at concrete inputs.
use ea.Common.{◌≡◌, ◌⊎◌, refl, Option, none, some, List, [], ◌∷◌, nat_eq, bytes}
use ea.Common.Bytes.{Bytes, bytes_eq}
use ea.Common.Maps.{find, assign, empty, lookup_in}
use ea.Api.{OpType, ConfigInfo, ConfigVersion, ManagerRequest, op_create_config}
use ea.Api.Absent.{no_config_info, no_request}
use ea.Rocks.{Op, Codec, put_discovery_info}
use ea.Rocks.Store.{store, apply_ops, apply_ops-Unique}
use ea.Wires.{config_wire}
use ea.Rocks.Wire.{codec_of}
use ea.Config.{
  Listed, version_of, ConfigManager, config_of, create_config, apply_config, load_config_snapshot,
  make_config_key,
}
use ea.Config.Triple.{versions, triple_eq}
use ea.Config.Create.{IsOrdered, IsKept, IsAppended, create_config_cases}
use ea.Config.Reload.{unversioned_reload}

abbrev codec : Codec ConfigInfo
codec = codec_of config_wire

abbrev of_version : OpType → Option ConfigVersion → ManagerRequest
of_version op version = record no_request {
  op_type = op;
  config_info = some (record { name = bytes "c"; version = version; content = bytes "x" });
}

abbrev start : ConfigManager versions store codec
start = record { configs = record { entries = [] }; db = (record { entries = [] }, tt) }

start-IsOrdered : IsOrdered versions store codec start
unfolding find lookup_in
start-IsOrdered name = tt

create_config_cases_example :
    IsKept versions store codec start none (
      create_config versions store codec start
        (of_version op_create_config (some (versions.version 1 2 3)))
        none)
    ⊎ IsAppended versions store codec start
        (record { name = bytes "c"; version = some (versions.version 1 2 3); content = bytes "x" })
        none
        (create_config versions store codec start
          (of_version op_create_config (some (versions.version 1 2 3)))
          none)
unfolding config_of
create_config_cases_example =
    create_config_cases versions store codec start
      (of_version op_create_config (some (versions.version 1 2 3))) none start-IsOrdered

abbrev one_version : ConfigManager versions store codec
one_version =
    (apply_config versions store codec op_create_config start
      (of_version op_create_config (some (versions.version 1 2 3))) none).0

abbrev listed : ConfigManager versions store codec
listed = record start {
  configs = record { entries = (bytes "c", (versions.version 1 2 3, no_config_info) ∷ []) ∷ [] };
}

abbrev deleted : List Op
deleted = Op.delete (make_config_key versions (bytes "c") (versions.version 2 0 0)) ∷ []

abbrev unversioned : ConfigInfo
unversioned = record { name = bytes "c"; version = none; content = bytes "x" }

abbrev unversioned_value : Bytes
unversioned_value = config_wire.put unversioned []

abbrev written : List Op
written =
    Op.put (make_config_key versions (bytes "c") (versions.version 0 0 1)) unversioned_value ∷ []

unversioned_reload_example :
    (find
        (create_config versions store codec start (of_version op_create_config none) none).0.configs
        (bytes "c")
      ≡ some ((versions.version 0 0 1, unversioned) ∷ []))
    × (load_config_snapshot versions store codec empty unversioned_value
        ≡ some (
            assign {V = Listed ConfigVersion} empty
              (bytes "c")
              ((versions.version 0 0 0, unversioned) ∷ [])))
unfolding find lookup_in config_of version_of put_discovery_info
unversioned_reload_example =
    unversioned_reload versions store codec start (of_version op_create_config none) none
      unversioned_value
      (apply_ops start.db.0 written, apply_ops-Unique start.db.0 written start.db.1) refl refl refl
      refl
