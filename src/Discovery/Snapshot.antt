-- ===== src/Discovery/Snapshot.antt =====
-- ea/discovery/discovery_state_machine.cc: on_snapshot_save, save_snapshot and on_snapshot_load. The
-- table files and the ranges of RocksDB are parameters.
pub mod Loads
pub mod Registered
pub mod Saved
pub mod Restored
pub mod InMemory
mod Tests
use ea.Common.{
  ℕ, ◌≡◌, ◌+◌, ◌-◌, ◌*◌, Bool, true, false, not, ◌&&◌, Option, none, some, List, [], ◌∷◌, ◌++◌, ◌⊎◌,
  inl, inr, ◌==◌, nat_eq, leb, ltb, bytes, if◌then◌else◌,
}
use ea.Common.Bytes.{Bytes, bytes_eq}
use ea.Common.Eq.{KeyEq}
use ea.Common.Int.{ℤ, pos, negsuc}
use ea.Common.Maps.{lookup_in, or_else}
use ea.Base.{BaseStateMachine}
use ea.Rocks.{Rocks}
use ea.Config.{Versions}
use ea.Schema.Reload.{load_schema_snapshot}
use ea.Discovery.ParsePath.{Paths, parse_snapshot_index_from_path}
use ea.Discovery.{AllCodecs, DiscoveryState, ids_of}

-- The order of the keys: byte by byte.
abbrev pub less : Bytes → Bytes → Bool
less k [] = false
less [] (c ∷ l) = true
less (b ∷ k) (c ∷ l) = let rest = less k l in if b == c then rest else ltb b c

abbrev pub in_range : Bytes → Bytes → Bytes → Bool
in_range begin end key = not (less key begin) && less key end

-- What the snapshots use of RocksDB beside Rocks, and of the disk.
pub record Tables (rocks : Rocks) : Type 1 where
  -- SstFileWriter, with the entries that are in its file
  pub Writer : Type 0
  pub entries : Writer → List (Bytes × Bytes)
  pub open_file : Bytes → Option Writer
  pub put : Writer → Bytes → Bytes → Option Writer
  pub finish : Writer → Option Writer
  -- SnapshotWriter::add_file: whether it returns 0
  pub add_file : Bytes → Bool
  -- what an iterator gives after SeekToFirst
  pub scan_all : rocks.Db → List (Bytes × Bytes)
  pub remove_range : rocks.Db → Bytes → Bytes → Option rocks.Db
  pub ingest_external_file : rocks.Db → List (Bytes × Bytes) → Option rocks.Db
  pub entries-open_file : (path : Bytes) (w : Writer) → open_file path ≡ some w → entries w ≡ []
  pub entries-put :
      (w w' : Writer) (k v : Bytes) → put w k v ≡ some w' → entries w' ≡ entries w ++ (k, v) ∷ []
  pub entries-finish : (w w' : Writer) → finish w ≡ some w' → entries w' ≡ entries w
  pub lookup-scan_all : (db : rocks.Db) (k : Bytes) → lookup_in k (scan_all db) ≡ rocks.get db k
  pub get-remove_range :
      (db db' : rocks.Db) (begin end k : Bytes)
      → remove_range db begin end ≡ some db'
      → rocks.get db' k ≡ (if in_range begin end k then none else rocks.get db k)
  pub get-ingest :
      (db db' : rocks.Db) (l : List (Bytes × Bytes)) (k : Bytes)
      → ingest_external_file db l ≡ some db'
      → rocks.get db' k ≡ or_else (lookup_in k l) (rocks.get db k)

abbrev pub discovery_info_file : Bytes
discovery_info_file = bytes "/discovery_info.sst"

module _ (rocks : Rocks) (tables : Tables rocks) where
  -- for (; iter->Valid(); iter->Next()) sst_writer.put(...)
  unfoldable pub put_entries : tables.Writer → List (Bytes × Bytes) → Option tables.Writer
  put_entries w [] = some w
  put_entries w ((key, value) ∷ l) = elim (tables.put w key value) [
    | none ↦ none
    | some w' ↦ put_entries w' l
  ]

  -- The error of the closure, or the file that is added, with its entries.
  unfoldable pub save_snapshot :
      List (Bytes × Bytes) → Bytes → Bytes ⊎ (Bytes × List (Bytes × Bytes))
  unfolding put_entries
  save_snapshot iter snapshot_path =
      elim (tables.open_file (snapshot_path ++ bytes "/discovery_info.sst")) [
        | none ↦ inl (bytes "Fail to open SstFileWriter")
        | some w ↦ elim (put_entries w iter) [
          | none ↦ inl (bytes "Fail to write SstFileWriter")
          | some w' ↦ elim (tables.finish w') [
            | none ↦ inl (bytes "Fail to finish SstFileWriter")
            | some file ↦
                if tables.add_file discovery_info_file
                then inr (discovery_info_file, tables.entries file)
                else inl (bytes "Fail to add file")
          ]
        ]
      ]

module _ {V : Type 0} ⦃keys : KeyEq V⦄ (versions : Versions V) (rocks : Rocks)
    (codecs : AllCodecs) where
  -- The managers load, one after the other, from the database with the file: none is -1.
  unfoldable pub load_managers :
      DiscoveryState versions rocks codecs
      → rocks.Db
      → Option (DiscoveryState versions rocks codecs)
  unfolding load_schema_snapshot ea.Privilege.Manager.load_snapshot ea.Config.load_snapshot
      ea.Instances.Manager.load_snapshot
  load_managers s db =
      elim (ea.Privilege.Manager.load_snapshot rocks codecs.user_codec (ids_of s.schema) db) [
        | none ↦ none
        | some users ↦
            elim (load_schema_snapshot rocks codecs.schema_codecs (record s.schema { db = db })) [
              | none ↦ none
              | some schema ↦
                  elim (ea.Config.load_snapshot versions rocks codecs.config_codec schema.db) [
                    | none ↦ none
                    | some configs ↦
                        elim (ea.Instances.Manager.load_snapshot rocks codecs.instance_codec
                          (ids_of schema) schema.db) [
                            | none ↦ none
                            | some instances ↦ some (record s {
                              users = users;
                              schema = schema;
                              configs = configs;
                              instances = instances;
                            })
                          ]
                  ]
            ]
      ]

module _ {V : Type 0} ⦃keys : KeyEq V⦄ (versions : Versions V) (rocks : Rocks) (codecs : AllCodecs)
    (tables : Tables rocks) (paths : Paths) where
  unfoldable pub on_snapshot_save :
      DiscoveryState versions rocks codecs → Bytes → Bytes ⊎ (Bytes × List (Bytes × Bytes))
  unfolding save_snapshot
  on_snapshot_save s snapshot_path =
      save_snapshot rocks tables (tables.scan_all s.schema.db) snapshot_path

  -- The loop over the files of the snapshot at `path`.
  unfoldable pub load_snapshot_files :
      DiscoveryState versions rocks codecs
      → Bytes
      → List (Bytes × List (Bytes × Bytes))
      → Option (DiscoveryState versions rocks codecs)
  unfolding load_managers parse_snapshot_index_from_path
  load_snapshot_files s path [] = some s
  load_snapshot_files s path ((name, file) ∷ files) =
      if name == discovery_info_file
      then (elim (tables.ingest_external_file s.schema.db file) [
        | none ↦ none
        | some db ↦
            elim (load_managers versions rocks codecs
              (record s { applied_index = parse_snapshot_index_from_path paths path false }) db) [
                | none ↦ none
                | some s' ↦ load_snapshot_files s' path files
              ]
      ])
      else (let rest = load_snapshot_files s path files in rest)

  -- on_snapshot_load: the base state machine has data behind it; none is -1.
  unfoldable pub on_snapshot_load :
      BaseStateMachine
      → DiscoveryState versions rocks codecs
      → Bytes
      → List (Bytes × List (Bytes × Bytes))
      → Option (BaseStateMachine × DiscoveryState versions rocks codecs)
  unfolding load_snapshot_files
  on_snapshot_load base s path files = elim (tables.remove_range s.schema.db (1 ∷ []) (255 ∷ [])) [
    | none ↦ none
    | some db ↦
        elim (load_snapshot_files (record s { schema = record s.schema { db = db } }) path files) [
          | none ↦ none
          | some s' ↦ some (record base { have_data = true }, s')
        ]
  ]
