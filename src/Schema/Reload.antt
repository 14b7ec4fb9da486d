-- ===== src/Schema/Reload.antt =====
-- ea/discovery/schema_manager.cc: load_snapshot and load_max_id_snapshot, for the three managers of the schema.
pub mod Steps
pub mod Filed
pub mod Database
use ea.Common.{
  ℕ, Bool, true, false, ◌&&◌, Option, none, some, List, [], ◌∷◌, ◌==◌, nat_eq, bytes, if◌then◌else◌,
}
use ea.Common.Bytes.{Bytes, bytes_eq}
use ea.Common.Maps.{empty}
use ea.Common.Words.{of_int64_bytes}
use ea.Rocks.{Rocks}
use ea.Schema.State.{SchemaState, Codecs}
use ea.Schema.Namespaces.{load_namespace_snapshot}
use ea.Schema.Zones.{load_zone_snapshot}
use ea.Schema.Servlets.{load_servlet_snapshot}

-- key.starts_with(prefix)
unfoldable pub starts_with : Bytes → Bytes → Bool
starts_with [] key = true
starts_with (b ∷ prefix) [] = false
starts_with (b ∷ prefix) (c ∷ key) = (b == c) && starts_with prefix key

-- std::string(key, max_id_prefix.size())
unfoldable pub without_prefix : Bytes → Bytes
without_prefix (a ∷ b ∷ key) = key
without_prefix _ = []

module _ (rocks : Rocks) (codecs : Codecs) where
  -- clear() of the three managers, which keeps the highest ids
  unfoldable pub clear_schema : SchemaState rocks → SchemaState rocks
  unfolding empty
  clear_schema s = record s {
    namespaces = record s.namespaces {
      namespace_id_map = empty;
      namespace_info_map = empty;
      zone_ids = empty;
    };
    zones = record s.zones { zone_id_map = empty; zone_info_map = empty; servlet_ids = empty };
    servlets = record s.servlets { servlet_id_map = empty; servlet_info_map = empty };
  }

  unfoldable pub load_max_id_snapshot : SchemaState rocks → Bytes → Bytes → SchemaState rocks
  unfolding of_int64_bytes without_prefix
  load_max_id_snapshot s key value =
      let max_key = without_prefix key in
      let max_id = of_int64_bytes value in
      if max_key == bytes "max_namespace_id"
      then record s { namespaces = record s.namespaces { max_namespace_id = max_id } }
      else if max_key == bytes "max_zone_id"
      then record s { zones = record s.zones { max_zone_id = max_id } }
      else if max_key == bytes "max_servlet_id"
      then record s { servlets = record s.servlets { max_servlet_id = max_id } }
      else s

  -- The body of the loop: none is -1.
  unfoldable pub load_entry : SchemaState rocks → Bytes → Bytes → Option (SchemaState rocks)
  unfolding starts_with load_zone_snapshot load_servlet_snapshot load_namespace_snapshot
      load_max_id_snapshot
  load_entry s key value =
      if starts_with (1 ∷ 9 ∷ []) key
      then load_zone_snapshot rocks codecs s value
      else if starts_with (1 ∷ 10 ∷ []) key
      then load_servlet_snapshot rocks codecs s value
      else if starts_with (1 ∷ 2 ∷ []) key
      then load_namespace_snapshot rocks codecs s value
      else if starts_with (1 ∷ 1 ∷ []) key
      then some (load_max_id_snapshot s key value)
      else some s

  unfoldable pub load_entries :
      SchemaState rocks → List (Bytes × Bytes) → Option (SchemaState rocks)
  unfolding load_entry
  load_entries s [] = some s
  load_entries s ((key, value) ∷ l) = elim (load_entry s key value) [
    | none ↦ none
    | some s' ↦ load_entries s' l
  ]

  unfoldable pub load_schema_snapshot : SchemaState rocks → Option (SchemaState rocks)
  unfolding load_entries clear_schema
  load_schema_snapshot s = load_entries (clear_schema s) (rocks.scan s.db 1)
