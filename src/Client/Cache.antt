-- ===== src/Client/Cache.antt =====
-- ea/client/config_cache: the configs that the client keeps in memory, and one file for each of them. The file system
-- and Loader are parameters, and so are the texts of a config's type and of a number.
pub mod Ordered
pub mod Runs
pub mod Kept
pub mod Rows
pub mod Held
pub mod Replay
pub mod Sample
mod Tests
use ea.Common.{
  ℕ, Bool, true, false, not, Option, none, some, List, [], ◌∷◌, ◌++◌, inl, inr, is_some,
  if◌then◌else◌, bytes, get_or,
}
use ea.Common.Bytes.{Bytes, bytes_eq}
use ea.Common.Eq.{KeyEq}
use ea.Common.Maps.{Map, find, assign, erase, lookup_in, erase_in}
use ea.Common.Sets.{is_empty}
use ea.Api.{ConfigInfo, ConfigVersion}
use ea.Config.{Versions, Listed, set_version, stored_version, without_version}
use ea.Query.Managers.{newest}
use ea.Client.Requests.{StatusCode, unknown_error, Status, ok_status, error, Loaded}
use ea.Client.Reads.{version_or_zero}

-- What a call returns, beside AlreadyExistsError and NotFoundError.
pub data CacheStatus : Type 0 where
  done : Status → CacheStatus
  already_exists not_found : CacheStatus

-- What the cache is built on: turbo::ModuleVersion, the file system (Dumper::dump_proto_to_file, and remove), the
-- text of a number and that of a config's type.
pub record CacheEnv (V : Type 0) : Type 1 where
  pub versions : Versions V
  pub Dir : Type 0
  pub dump_file : Dir → Bytes → ConfigInfo → Status × Dir
  pub remove_file : Dir → Bytes → Dir
  pub number : ℕ → Bytes
  pub type_text : ConfigInfo → Bytes

-- What init finds at the path: an error, nothing, or files in the order of the iterator.
pub data Found : Type 0 where
  unreadable missing : Found
  files : List (Loaded ConfigInfo) → Found

-- make_cache_file_path: the minor version stands twice, as in the source.
unfoldable pub make_cache_file_path : {V : Type 0} → CacheEnv V → Bytes → ConfigInfo → Bytes
make_cache_file_path env dir config =
    let v = version_or_zero config in
    dir
    ++ bytes "/"
    ++ config.name
    ++ bytes "-"
    ++ env.number v.minor
    ++ bytes "."
    ++ env.number v.minor
    ++ bytes "."
    ++ env.number v.patch
    ++ bytes "."
    ++ env.type_text config

module _ {V : Type 0} ⦃keys : KeyEq V⦄ (env : CacheEnv V) where
  pub record ConfigCache : Type 0 where
    pub cache_map : Map Bytes (Listed V)
    pub cache_dir : Bytes
    pub is_init : Bool
    pub dir : env.Dir

  -- it->second[version] = config, of the config's own entry
  unfoldable pub do_add_config : ConfigCache → ConfigInfo → ConfigCache
  unfolding stored_version set_version
  do_add_config c config =
      let listed = get_or (find c.cache_map config.name) [] in
      record c {
        cache_map =
            assign c.cache_map config.name
              (set_version env.versions (stored_version env.versions config) config listed);
      }

  -- The loop of init, which stops at a file that does not load.
  unfoldable pub load_files : ConfigCache → List (Loaded ConfigInfo) → Status × ConfigCache
  unfolding do_add_config
  load_files c [] = (ok_status, record c { is_init = true })
  load_files c (inl code ∷ l) = (error code, c)
  load_files c (inr info ∷ l) = load_files (do_add_config c info) l

  -- What init does with what it finds.
  unfoldable pub found_files : ConfigCache → Found → Status × ConfigCache
  unfolding load_files
  found_files c unreadable = (error unknown_error, c)
  found_files c missing = (ok_status, c)
  found_files c (files l) = load_files c l

  -- `flag` is FLAGS_config_cache_dir.
  unfoldable pub init : ConfigCache → Bytes → Found → Status × ConfigCache
  unfolding found_files
  init c flag found =
      if c.is_init
      then (ok_status, c)
      else if is_empty flag
      then (ok_status, record c { cache_dir = flag })
      else found_files (record c { cache_dir = flag }) found

  unfoldable pub write_config_file : ConfigCache → ConfigInfo → Status × ConfigCache
  unfolding make_cache_file_path
  write_config_file c config =
      let path = make_cache_file_path env c.cache_dir config in
      let (rs, dir) = env.dump_file c.dir path config in
      if is_empty c.cache_dir then (ok_status, c) else (rs, record c { dir = dir })

  -- The status is not looked at.
  unfoldable pub remove_config_file : ConfigCache → ConfigInfo → ConfigCache
  unfolding make_cache_file_path
  remove_config_file c config =
      let path = make_cache_file_path env c.cache_dir config in
      if is_empty c.cache_dir then c else record c { dir = env.remove_file c.dir path }

  unfoldable pub add_config : ConfigCache → ConfigInfo → CacheStatus × ConfigCache
  unfolding stored_version do_add_config write_config_file
  add_config c config =
      let version = stored_version env.versions config in
      let listed = get_or (find c.cache_map config.name) [] in
      let (rs, written) = write_config_file (do_add_config c config) config in
      if is_some (lookup_in version listed) then (already_exists, c) else (done rs, written)

  -- for (...) remove_config_file(_cache_dir, it->second)
  unfoldable pub remove_files : ConfigCache → Listed V → ConfigCache
  unfolding remove_config_file
  remove_files c [] = c
  remove_files c ((v, info) ∷ l) = remove_files (remove_config_file c info) l

  -- remove_config of one version
  unfoldable pub remove_one : ConfigCache → Bytes → V → CacheStatus × ConfigCache
  unfolding remove_config_file without_version
  remove_one c name version = elim (find c.cache_map name) [
    | none ↦ (not_found, c)
    | some listed ↦ elim (lookup_in version listed) [
      | none ↦ (not_found, c)
      | some info ↦
          let c' = remove_config_file c info in
          (
            done ok_status,
            record c' { cache_map = without_version env.versions c'.cache_map name version listed },
          )
    ]
  ]

  -- The loop over the versions: the files, and what is left of the list.
  unfoldable pub remove_each : ConfigCache → Listed V → List V → ConfigCache × Listed V
  unfolding remove_config_file
  remove_each c listed [] = (c, listed)
  remove_each c listed (version ∷ l) = elim (lookup_in version listed) [
    | none ↦ remove_each c listed l
    | some info ↦ remove_each (remove_config_file c info) (erase_in version listed) l
  ]

  -- `it->second = left`, and the entry itself where nothing is left
  unfoldable pub keep_left : ConfigCache → Bytes → Listed V → ConfigCache
  keep_left c name left = record c {
    cache_map = if is_empty left then erase c.cache_map name else assign c.cache_map name left;
  }

  -- remove_config of some versions
  unfoldable pub remove_some : ConfigCache → Bytes → List V → CacheStatus × ConfigCache
  unfolding remove_each keep_left
  remove_some c name vs = elim (find c.cache_map name) [
    | none ↦ (not_found, c)
    | some listed ↦
        let (c', left) = remove_each c listed vs in (done ok_status, keep_left c' name left)
  ]

  -- begin() to lower_bound(version), and the rest
  unfoldable pub below : V → Listed V → Listed V
  below version [] = []
  below version ((v, info) ∷ l) =
      let rest = below version l in if env.versions.leq version v then [] else (v, info) ∷ rest

  unfoldable pub from_bound : V → Listed V → Listed V
  from_bound version [] = []
  from_bound version ((v, info) ∷ l) =
      let rest = from_bound version l in if env.versions.leq version v then (v, info) ∷ l else rest

  unfoldable pub remove_config_less_than : ConfigCache → Bytes → V → CacheStatus × ConfigCache
  unfolding below from_bound remove_files keep_left
  remove_config_less_than c name version = elim (find c.cache_map name) [
    | none ↦ (not_found, c)
    | some listed ↦ (
      done ok_status,
      keep_left (remove_files c (below version listed)) name (from_bound version listed),
    )
  ]

  -- remove_config of all versions
  unfoldable pub remove_all : ConfigCache → Bytes → CacheStatus × ConfigCache
  unfolding remove_files
  remove_all c name = elim (find c.cache_map name) [
    | none ↦ (not_found, c)
    | some listed ↦
        let c' = remove_files c listed in
        (done ok_status, record c' { cache_map = erase c'.cache_map name })
  ]

  -- get_config of a version: the name that is looked up is that of `config`, the message to fill, as in the
  -- source.
  unfoldable pub get_cached : ConfigCache → Bytes → V → ConfigInfo → CacheStatus × ConfigInfo
  get_cached c name version config = elim (find c.cache_map config.name) [
    | none ↦ (not_found, config)
    | some listed ↦ elim (lookup_in version listed) [
      | none ↦ (not_found, config)
      | some info ↦ (done ok_status, info)
    ]
  ]

  -- get_config of the latest version
  unfoldable pub get_cached_latest : ConfigCache → Bytes → ConfigInfo → CacheStatus × ConfigInfo
  unfolding newest
  get_cached_latest c name config = elim (find c.cache_map config.name) [
    | none ↦ (not_found, config)
    | some listed ↦ elim (newest env.versions listed) [
      | none ↦ (not_found, config)
      | some info ↦ (done ok_status, info)
    ]
  ]

  unfoldable pub names_in : List (Bytes × Listed V) → List Bytes
  names_in [] = []
  names_in ((name, listed) ∷ l) = name ∷ names_in l

  unfoldable pub get_config_list : ConfigCache → List Bytes → Status × List Bytes
  unfolding names_in
  get_config_list c configs = (ok_status, configs ++ names_in c.cache_map.entries)

  unfoldable pub versions_in : Listed V → List V
  versions_in [] = []
  versions_in ((v, info) ∷ l) = v ∷ versions_in l

  unfoldable pub get_config_version_list : ConfigCache → Bytes → List V → CacheStatus × List V
  unfolding versions_in
  get_config_version_list c name out = elim (find c.cache_map name) [
    | none ↦ (not_found, out)
    | some listed ↦ (done ok_status, out ++ versions_in listed)
  ]
