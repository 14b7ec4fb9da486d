-- ===== src/Client/Watch.antt =====
-- ea/client/config_client: the configs that a program watches, and those that it reads through the cache. The queries
-- to the server are a parameter; turbo::Split and turbo::SimpleAtoi are those of Client/Requests. A listener is told of
-- by which of its two callbacks are set, and a call of one is a value.
pub mod Period
pub mod Told
pub mod Noted
pub mod Refined
mod Climbs
mod Again
mod Tests
use ea.Common.{
  ℕ, Bool, true, false, not, ◌&&◌, Option, none, some, List, [], ◌∷◌, ◌++◌, ◌==◌, inl, inr, is_some,
  if◌then◌else◌, get_or,
}
use ea.Common.Bytes.{Bytes, bytes_eq}
use ea.Common.Eq.{KeyEq}
use ea.Common.Maps.{Map, find, has, assign, erase}
use ea.Api.{ConfigInfo, ConfigVersion}
use ea.Api.Absent.{no_config_info}
use ea.Config.{stored_version, module_version}
use ea.Client.Requests.{invalid_argument, Status, ok_status, error, Loaded, string_to_version}
use ea.Client.Reads.{Read}
use ea.Client.Cache.{
  CacheEnv, CacheStatus, done, already_exists, not_found, ConfigCache, init, Found, add_config,
  get_cached, get_cached_latest, remove_one, remove_all,
}

-- ConfigEventListener: which callbacks are set.
pub record Listener : Type 0 where
  pub on_new_config : Bool
  pub on_new_version : Bool

-- ConfigWatchEntity
pub record Watch (V : Type 0) : Type 0 where
  pub notice_version : V
  pub listener : Listener

pub data Callback : Type 0 where
  new_config_callback new_version_callback : Callback

-- A call of a callback with ConfigCallbackData, less the type.
pub record Event (V : Type 0) : Type 0 where
  pub callback : Callback
  pub config_name : Bytes
  pub current_version : V
  pub new_version : V
  pub new_content : Bytes

-- DiscoveryClient's get_config, by a version's text, and get_config_latest
pub record Server : Type 0 where
  pub get_version : Bytes → Bytes → Read ConfigInfo
  pub get_latest : Bytes → Read ConfigInfo

-- `zero` is ModuleVersion().
module _ {V : Type 0} ⦃keys : KeyEq V⦄ (env : CacheEnv V) (zero : V) where
  pub record ConfigClient : Type 0 where
    pub cache : ConfigCache env
    pub watches : Map Bytes (Watch V)
    pub apply_version : Map Bytes V
    pub client_init : Bool
    pub shutdown : Bool

  -- init, where `period_check` starts beside it
  unfoldable pub init_client : ConfigClient → Bytes → Found → Status × ConfigClient
  unfolding init
  init_client c flag found =
      let (rs, cache) = init env c.cache flag found in
      if c.client_init then (ok_status, c) else elim rs [
        | error code ↦ (error code, record c { cache = cache })
        | ok_status ↦ (ok_status, record c { cache = cache; client_init = true; shutdown = false })
      ]

  unfoldable pub stop : ConfigClient → ConfigClient
  stop c = record c { shutdown = true }

  -- get_config of a version: the content, where one is read, and the status
  unfoldable pub get_config_by_version :
      (Bytes → List Bytes)
      → (Bytes → Option ℕ)
      → Server
      → ConfigClient
      → Bytes
      → Bytes
      → CacheStatus × Option Bytes × ConfigClient
  unfolding string_to_version module_version get_cached add_config
  get_config_by_version str_split simple_atoi server c name version =
      elim (string_to_version str_split simple_atoi version) [
        | none ↦ (done (error invalid_argument), none, c)
        | some v ↦
            let (rs, info) =
              get_cached env c.cache name (module_version env.versions v) no_config_info in
            elim rs [
              | done ok_status ↦ (done ok_status, some info.content, c)
              | _ ↦ elim (server.get_version name version) [
                | inl code ↦ (done (error code), none, c)
                | inr read ↦ (
                  done ok_status,
                  some read.content,
                  record c { cache = (add_config env c.cache read).1 },
                )
              ]
            ]
      ]

  -- get_config of the latest version
  unfoldable pub get_config_newest_of :
      Server → ConfigClient → Bytes → CacheStatus × Option Bytes × ConfigClient
  unfolding get_cached_latest add_config
  get_config_newest_of server c name =
      let (rs, info) = get_cached_latest env c.cache name no_config_info in
      elim rs [
        | done ok_status ↦ (done ok_status, some info.content, c)
        | _ ↦ elim (server.get_latest name) [
          | inl code ↦ (done (error code), none, c)
          | inr read ↦
              let (added, cache) = add_config env c.cache read in
              (added, some read.content, record c { cache = cache })
        ]
      ]

  unfoldable pub watch_config : ConfigClient → Bytes → Listener → CacheStatus × ConfigClient
  watch_config c name listener = if has c.watches name then (already_exists, c) else (
    done ok_status,
    record c {
      watches = assign c.watches name (record {
        notice_version = get_or (find c.apply_version name) zero;
        listener = listener;
      });
    },
  )

  unfoldable pub unwatch_config : ConfigClient → Bytes → CacheStatus × ConfigClient
  unwatch_config c name =
      if not (has c.watches name)
      then (not_found, c)
      else (done ok_status, record c { watches = erase c.watches name })

  unfoldable pub apply : ConfigClient → Bytes → V → CacheStatus × ConfigClient
  apply c name version =
      (done ok_status, record c { apply_version = assign c.apply_version name version })

  -- apply of a version's text
  unfoldable pub apply_by_text :
      (Bytes → List Bytes)
      → (Bytes → Option ℕ)
      → ConfigClient
      → Bytes
      → Bytes
      → CacheStatus × ConfigClient
  unfolding string_to_version module_version apply
  apply_by_text str_split simple_atoi c name version =
      elim (string_to_version str_split simple_atoi version) [
        | none ↦ (done (error invalid_argument), c)
        | some v ↦ apply c name (module_version env.versions v)
      ]

  unfoldable pub unapply : ConfigClient → Bytes → CacheStatus × ConfigClient
  unfolding unwatch_config
  unapply c name =
      let c' = (unwatch_config c name).1 in
      if has c'.apply_version name
      then (done ok_status, record c' { apply_version = erase c'.apply_version name })
      else (not_found, c')

  -- remove_config of all versions, and of one, by its text
  unfoldable pub remove_cached : ConfigClient → Bytes → CacheStatus × ConfigClient
  unfolding remove_all
  remove_cached c name =
      let (rs, cache) = remove_all env c.cache name in (rs, record c { cache = cache })

  unfoldable pub remove_cached_version :
      (Bytes → List Bytes)
      → (Bytes → Option ℕ)
      → ConfigClient
      → Bytes
      → Bytes
      → CacheStatus × ConfigClient
  unfolding string_to_version module_version remove_one
  remove_cached_version str_split simple_atoi c name version =
      elim (string_to_version str_split simple_atoi version) [
        | none ↦ (done (error invalid_argument), c)
        | some v ↦
            let (rs, cache) = remove_one env c.cache name (module_version env.versions v) in
            (rs, record c { cache = cache })
      ]
