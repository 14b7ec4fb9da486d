-- ===== src/Schema/Reload/Database.antt =====
-- SchemaManager::load_snapshot reads the database and does not write it.
use ea.Common.{◌≡◌, refl, subst, some, inl, inr, ◌==◌, if_cases, Option-cases, bytes}
use ea.Common.Bytes.{Bytes, bytes_eq}
use ea.Rocks.{Rocks}
use ea.Schema.State.{SchemaState, Codecs}
use ea.Schema.Namespaces.{load_namespace_snapshot}
use ea.Schema.Zones.{load_zone_snapshot}
use ea.Schema.Servlets.{load_servlet_snapshot}
use ea.Schema.Reload.Steps.{Holds, load_entries-Holds}
use ea.Schema.Reload.{without_prefix, clear_schema, load_max_id_snapshot, load_schema_snapshot}

module _ (rocks : Rocks) (codecs : Codecs) where
  abbrev IsAt : rocks.Db → SchemaState rocks → Type 0
  IsAt db s = s.db ≡ db

  load_zone_snapshot-db :
      (db : rocks.Db) (s : SchemaState rocks) (value : Bytes)
      → IsAt db s
      → Holds rocks codecs (IsAt db) (load_zone_snapshot rocks codecs s value)
  unfolding load_zone_snapshot
  load_zone_snapshot-db db s value h = elim (Option-cases (codecs.zone_codec.parse value)) [
    | inl e ↦ rw (load_zone_snapshot, e) tt
    | inr (info, e) ↦ rw (load_zone_snapshot, e) h
  ]

  load_servlet_snapshot-db :
      (db : rocks.Db) (s : SchemaState rocks) (value : Bytes)
      → IsAt db s
      → Holds rocks codecs (IsAt db) (load_servlet_snapshot rocks codecs s value)
  unfolding load_servlet_snapshot
  load_servlet_snapshot-db db s value h = elim (Option-cases (codecs.servlet_codec.parse value)) [
    | inl e ↦ rw (load_servlet_snapshot, e) tt
    | inr (info, e) ↦ rw (load_servlet_snapshot, e) h
  ]

  load_namespace_snapshot-db :
      (db : rocks.Db) (s : SchemaState rocks) (value : Bytes)
      → IsAt db s
      → Holds rocks codecs (IsAt db) (load_namespace_snapshot rocks codecs s value)
  unfolding load_namespace_snapshot
  load_namespace_snapshot-db db s value h =
      elim (Option-cases (codecs.namespace_codec.parse value)) [
        | inl e ↦ rw (load_namespace_snapshot, e) tt
        | inr (info, e) ↦ rw (load_namespace_snapshot, e) h
      ]

  load_max_id_snapshot-db :
      (db : rocks.Db) (s : SchemaState rocks) (key value : Bytes)
      → IsAt db s
      → IsAt db (load_max_id_snapshot rocks codecs s key value)
  unfolding load_max_id_snapshot
  load_max_id_snapshot-db db s key value h =
      let max_key = without_prefix key in
      if_cases (IsAt db) (max_key == bytes "max_namespace_id") _ _ (λ e. h)
        (λ e.
          if_cases (IsAt db) (max_key == bytes "max_zone_id") _ _ (λ f. h)
            (λ f. if_cases (IsAt db) (max_key == bytes "max_servlet_id") _ _ (λ g. h) (λ g. h)))

  pub load_schema_snapshot-db :
      (s s' : SchemaState rocks) → load_schema_snapshot rocks codecs s ≡ some s' → s'.db ≡ s.db
  unfolding load_schema_snapshot clear_schema
  load_schema_snapshot-db s s' e = subst (Holds rocks codecs (IsAt s.db)) e (
      load_entries-Holds rocks codecs (IsAt s.db)
        (record {
          zone = load_zone_snapshot-db s.db;
          servlet = load_servlet_snapshot-db s.db;
          namespace = load_namespace_snapshot-db s.db;
          max_id = load_max_id_snapshot-db s.db;
        })
        (clear_schema rocks codecs s) (rocks.scan s.db 1) refl)
