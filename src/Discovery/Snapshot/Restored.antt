-- ===== src/Discovery/Snapshot/Restored.antt =====
-- DiscoveryStateMachine: a replica that loads the snapshot of another.
use ea.Common.{
  ◌≡◌, ◌∙◌, refl, sym, subst, ap, true, false, some, List, [], ◌∷◌, inr, nat_eq, if◌then◌else◌,
}
use ea.Common.Bytes.{Bytes, bytes_eq}
use ea.Common.Eq.{KeyEq}
use ea.Common.Maps.{Map, find, or_else}
use ea.Api.{UserPrivilege}
use ea.Base.{BaseStateMachine}
use ea.Rocks.{Rocks}
use ea.Rocks.Agree.{Agree}
use ea.Config.{Versions, Listed}
use ea.Schema.State.{SchemaState}
use ea.Schema.Reload.{load_schema_snapshot}
use ea.Schema.Reload.Filed.{AllFiled, load_schema_snapshot-AllFiled}
use ea.Schema.Reload.Database.{load_schema_snapshot-db}
use ea.Privilege.Recovery.{load_snapshot_recovers}
use ea.Instances.{Registry}
use ea.Instances.Sound.{IsComplete, load_snapshot-IsComplete}
use ea.Discovery.{AllCodecs, DiscoveryState, ids_of}
use ea.Discovery.Held.{UsersHeld, AllParse, IsConsistent}
use ea.Discovery.Effects.{Fits, AllFit}
use ea.Discovery.Snapshot.Registered.{load_instances_recovers}
use ea.Instances.Durable.{IsDurable}
use ea.Discovery.Readable.{Parses, SchemaParses, InstanceParses}
use ea.Discovery.Snapshot.Loads.{
  succeeded, load_schema_snapshot-Succeeds, load_configs_snapshot-Succeeds,
  load_instances_snapshot-Succeeds,
}
use ea.Discovery.Snapshot.Saved.{Saves, save_snapshot-Saves, ingested}
use ea.Discovery.Snapshot.{
  in_range, Tables, discovery_info_file, on_snapshot_save, load_managers, load_snapshot_files,
  on_snapshot_load,
}
use ea.Discovery.ParsePath.{Paths, parse_snapshot_index_from_path}

module _ {V : Type 0} ⦃keys : KeyEq V⦄ (versions : Versions V) (rocks : Rocks) (codecs : AllCodecs)
    (tables : Tables rocks) (paths : Paths) where
  load_managers-loads :
      (s : DiscoveryState versions rocks codecs) (db : rocks.Db) (users : Map Bytes UserPrivilege)
      (schema : SchemaState rocks) (configs : Map Bytes (Listed V)) (instances : Registry)
      → ea.Privilege.Manager.load_snapshot rocks codecs.user_codec (ids_of s.schema) db ≡ some users
      → load_schema_snapshot rocks codecs.schema_codecs (record s.schema { db = db }) ≡ some schema
      → ea.Config.load_snapshot versions rocks codecs.config_codec schema.db ≡ some configs
      → ea.Instances.Manager.load_snapshot rocks codecs.instance_codec (ids_of schema) schema.db
        ≡ some instances
      → load_managers versions rocks codecs s db
        ≡ some
            (record s { users = users; schema = schema; configs = configs; instances = instances })
  unfolding load_managers
  load_managers-loads s db users schema configs instances e f g h =
      rw (load_managers, e, f, g, h) refl

  load_snapshot_files-loads :
      (s : DiscoveryState versions rocks codecs) (path : Bytes) (file : List (Bytes × Bytes))
      (db : rocks.Db) (s' : DiscoveryState versions rocks codecs)
      → tables.ingest_external_file s.schema.db file ≡ some db
      → load_managers versions rocks codecs
          (record s { applied_index = parse_snapshot_index_from_path paths path false })
          db
        ≡ some s'
      → load_snapshot_files versions rocks codecs tables paths s path
          ((discovery_info_file, file) ∷ [])
        ≡ some s'
  unfolding load_snapshot_files
  load_snapshot_files-loads s path file db s' e f = rw (load_snapshot_files, e, f) refl

  -- The load of `files` over `own` succeeds, with the data of `s` where the snapshot reaches.
  abbrev pub LoadsDataOf :
      DiscoveryState versions rocks codecs
      → DiscoveryState versions rocks codecs
      → BaseStateMachine
      → Bytes
      → List (Bytes × List (Bytes × Bytes))
      → Type 0
  LoadsDataOf s own base path files =
      (r : DiscoveryState versions rocks codecs) × (on_snapshot_load versions rocks codecs tables
          paths base own path files
        ≡ some (record base { have_data = true }, r))
      × (r.applied_index ≡ parse_snapshot_index_from_path paths path false)
      × ((username : Bytes) → find r.users username ≡ find s.users username)
      × ((key : Bytes)
          → rocks.get r.schema.db key ≡ (
              if in_range (1 ∷ []) (255 ∷ []) key
              then rocks.get s.schema.db key
              else or_else (rocks.get s.schema.db key) (rocks.get own.schema.db key)))
      × ((address : Bytes)
          → find r.instances.instance_info address ≡ find s.instances.instance_info address)
      × AllFiled rocks codecs.schema_codecs r.schema
      × IsComplete r.instances

  loaded-LoadsDataOf :
      (s own : DiscoveryState versions rocks codecs) (base : BaseStateMachine) (path : Bytes)
      (removed db : rocks.Db) (schema : SchemaState rocks) (configs : Map Bytes (Listed V))
      (instances : Registry)
      → UsersHeld versions rocks codecs s.users s.schema.db
      → tables.remove_range own.schema.db (1 ∷ []) (255 ∷ []) ≡ some removed
      → tables.ingest_external_file removed (tables.scan_all s.schema.db) ≡ some db
      → load_schema_snapshot rocks codecs.schema_codecs (record own.schema { db = db })
        ≡ some schema
      → ea.Config.load_snapshot versions rocks codecs.config_codec db ≡ some configs
      → ea.Instances.Manager.load_snapshot rocks codecs.instance_codec (ids_of schema) db
        ≡ some instances
      → ((address : Bytes)
          → find instances.instance_info address ≡ find s.instances.instance_info address)
      → LoadsDataOf s own base path ((discovery_info_file, tables.scan_all s.schema.db) ∷ [])
  unfolding on_snapshot_load
  loaded-LoadsDataOf s own base path removed db schema configs instances held e f g h i registered =
      let cleared = record own {
        schema = record own.schema { db = removed };
        applied_index = parse_snapshot_index_from_path paths path false;
      } in
      let same : schema.db ≡ db =
        load_schema_snapshot-db rocks codecs.schema_codecs (record own.schema { db = db }) schema
          g in
      let read =
        λ (key : Bytes). ingested rocks tables own.schema.db s.schema.db removed db key e f in
      let (users, loaded, found) =
        load_snapshot_recovers rocks codecs.user_codec (ids_of own.schema)
          (record { user_privilege = s.users; db = db })
          (λ u.
            subst (λ o. Agree codecs.user_codec o (find s.users u)) (sym (read (2 ∷ u)))
              (held u)) in
      let managers =
        load_managers-loads cleared db users schema configs instances loaded g
          (subst (λ d. ea.Config.load_snapshot versions rocks codecs.config_codec d ≡ some configs)
            (sym same) h)
          (subst
            (λ d.
              ea.Instances.Manager.load_snapshot rocks codecs.instance_codec (ids_of schema) d
              ≡ some instances)
            (sym same) i) in
      (
        record cleared { users = users; schema = schema; configs = configs; instances = instances },
        rw
            (
              on_snapshot_load,
              e,
              load_snapshot_files-loads (record own { schema = record own.schema { db = removed } })
                  path (tables.scan_all s.schema.db) db _ f managers,
            )
            refl,
        refl,
        found,
        λ key. ap (λ d. rocks.get d key) same ∙ read key,
        registered,
        load_schema_snapshot-AllFiled rocks codecs.schema_codecs (record own.schema { db = db })
            schema g,
        load_snapshot-IsComplete rocks codecs.instance_codec (ids_of schema) db instances i,
      )

  parsed-LoadsDataOf :
      (s own : DiscoveryState versions rocks codecs) (base : BaseStateMachine) (path : Bytes)
      (removed db : rocks.Db)
      → UsersHeld versions rocks codecs s.users s.schema.db
      → AllParse versions rocks codecs s.schema.db
      → IsDurable rocks codecs.instance_codec s.instances s.schema.db
      → tables.remove_range own.schema.db (1 ∷ []) (255 ∷ []) ≡ some removed
      → tables.ingest_external_file removed (tables.scan_all s.schema.db) ≡ some db
      → LoadsDataOf s own base path ((discovery_info_file, tables.scan_all s.schema.db) ∷ [])
  parsed-LoadsDataOf s own base path removed db held parse durable e f =
      let read =
        λ (key : Bytes). ingested rocks tables own.schema.db s.schema.db removed db key e f in
      let (schema, g) =
        succeeded (load_schema_snapshot rocks codecs.schema_codecs (record own.schema { db = db }))
          (load_schema_snapshot-Succeeds rocks codecs.schema_codecs (record own.schema { db = db })
            (λ k.
              subst (Fits (SchemaParses codecs.schema_codecs) (1 ∷ k)) (sym (read (1 ∷ k)))
                (parse 1 k))) in
      let (configs, h) = succeeded (ea.Config.load_snapshot versions rocks codecs.config_codec db) (
        load_configs_snapshot-Succeeds versions rocks codecs.config_codec db (λ k.
          subst (Fits (Parses codecs.config_codec) (4 ∷ k)) (sym (read (4 ∷ k))) (parse 4 k))) in
      let parse_instances : AllFit rocks 3 (InstanceParses codecs.instance_codec) db = λ k.
        subst (Fits (InstanceParses codecs.instance_codec) (3 ∷ k)) (sym (read (3 ∷ k)))
          (parse 3 k) in
      let (instances, i) =
        succeeded
          (ea.Instances.Manager.load_snapshot rocks codecs.instance_codec (ids_of schema) db)
          (load_instances_snapshot-Succeeds rocks codecs.instance_codec (ids_of schema) db
            parse_instances) in
      loaded-LoadsDataOf s own base path removed db schema configs instances held e f g h i (
        load_instances_recovers rocks codecs.instance_codec (ids_of schema) s.instances instances db
          (
            λ a.
                subst (λ o. Agree codecs.instance_codec o (find s.instances.instance_info a))
                  (sym (read (3 ∷ 3 ∷ a))) (durable.0 a),
            durable.1,
          )
          parse_instances i)

  -- A replica that loads the snapshot of a consistent state machine, where its database removes the range and
  -- takes the file in: the load succeeds, whatever the replica had before. The replica has data, and the index that
  -- the path names; its users and its instances are those of the other, its database has what the other's has in the range and
  -- keeps no other key there, every zone and servlet is filed, and the indexes of the instances are complete.
  pub snapshot_restores :
      (s own : DiscoveryState versions rocks codecs) (base : BaseStateMachine)
      (saved_path path name : Bytes) (file : List (Bytes × Bytes)) (removed db : rocks.Db)
      → IsConsistent versions rocks codecs s
      → on_snapshot_save versions rocks codecs tables paths s saved_path ≡ inr (name, file)
      → tables.remove_range own.schema.db (1 ∷ []) (255 ∷ []) ≡ some removed
      → tables.ingest_external_file removed file ≡ some db
      → LoadsDataOf s own base path ((name, file) ∷ [])
  unfolding on_snapshot_save
  snapshot_restores s own base saved_path path name file removed db h saved e f =
      let (named, same) =
        subst (Saves rocks tables (tables.scan_all s.schema.db)) saved
          (save_snapshot-Saves rocks tables (tables.scan_all s.schema.db) saved_path) in
      subst (λ n. LoadsDataOf s own base path ((n, file) ∷ [])) (sym named)
        (subst (λ l. LoadsDataOf s own base path ((discovery_info_file, l) ∷ [])) (sym same)
          (parsed-LoadsDataOf s own base path removed db h.0 h.5 h.1 e
            (subst (λ l. tables.ingest_external_file removed l ≡ some db) same f)))
