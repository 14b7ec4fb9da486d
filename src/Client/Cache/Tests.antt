-- ===== src/Client/Cache/Tests.antt =====
-- ConfigCache at concrete inputs.
use ea.Common.{ℕ, ◌≡◌, refl, false, none, some, List, [], ◌∷◌, inr, bytes, if◌then◌else◌, ◌==◌}
use ea.Common.Bytes.{Bytes, bytes_eq}
use ea.Common.Maps.{find, assign, lookup_in}
use ea.Api.{ConfigInfo, ConfigVersion}
use ea.Api.Absent.{no_config_info}
use ea.Config.{Listed, stored_version}
use ea.Config.Triple.{versions, triple_eq}
use ea.Client.Requests.{ok_status, Loaded}
use ea.Client.Cache.Sample.{env}
use ea.Client.Cache.{
  ConfigCache, CacheStatus, files, init, add_config, remove_config_less_than, make_cache_file_path,
  get_cached, done,
}
use ea.Client.Cache.Ordered.{IsOrdered, versions_at, assign-AreIncreasing}
use ea.Client.Cache.Runs.{CacheOp, run_ops}
use ea.Client.Cache.Rows.{held}
use ea.Client.Cache.Replay.{replay, replay_init, cache_refines_replay}
use ea.Client.Cache.Kept.{remove_config_less_than_keeps, get_cached_after_add}

abbrev start : ConfigCache env
start = record {
  cache_map = record { entries = [] };
  cache_dir = [];
  is_init = false;
  dir = record { entries = [] };
}

abbrev config_at : ℕ → ConfigInfo
config_at major = record no_config_info {
  name = bytes "c";
  version = some (record { major = major; minor = 2; patch = 3 });
}

abbrev loaded : List (Loaded ConfigInfo)
loaded = inr (config_at 4) ∷ inr (config_at 1) ∷ []

start-IsOrdered : IsOrdered env start
unfolding find
start-IsOrdered name = tt

abbrev ops : List (CacheOp ConfigVersion)
ops =
    CacheOp.to_add (config_at 2)
    ∷ CacheOp.to_remove_less_than (bytes "c") (record { major = 2; minor = 0; patch = 0 })
    ∷ []

cache_refines_replay_example :
    held env
      (run_ops env (init env start (bytes "d") (files loaded)).1 ops)
      (bytes "c")
      (record { major = 4; minor = 2; patch = 3 })
    ≡ replay versions ops
        (replay_init versions false (bytes "d") (files loaded) (held env start))
        (bytes "c")
        (record { major = 4; minor = 2; patch = 3 })
cache_refines_replay_example =
    cache_refines_replay env start (bytes "d") (files loaded) ops start-IsOrdered (bytes "c")
      (record { major = 4; minor = 2; patch = 3 })

abbrev listed : Listed ConfigVersion
listed =
    (record { major = 1; minor = 2; patch = 3 }, config_at 1)
    ∷ (record { major = 4; minor = 2; patch = 3 }, config_at 4)
    ∷ []

abbrev two : ConfigCache env
two = record start { cache_map = assign start.cache_map (bytes "c") listed }

two-IsOrdered : IsOrdered env two
two-IsOrdered =
    assign-AreIncreasing versions start.cache_map (bytes "c") listed (((refl, refl), tt), (tt, tt))
      start-IsOrdered

abbrev middle : ConfigVersion
middle = record { major = 2; minor = 0; patch = 0 }

abbrev removed : CacheStatus × ConfigCache env
removed = remove_config_less_than env two (bytes "c") middle

remove_config_less_than_keeps_example :
    (removed.0 ≡ done ok_status)
    × ((j : Bytes) (w : ConfigVersion)
        → lookup_in w (versions_at versions removed.1.cache_map j) ≡ (
            if bytes "c" == j
            then (if versions.leq middle w then lookup_in w listed else none)
            else lookup_in w (versions_at versions two.cache_map j)))
unfolding find assign
remove_config_less_than_keeps_example =
    remove_config_less_than_keeps env two (bytes "c") middle listed two-IsOrdered refl

-- The name that is asked for plays no part: a fresh message finds nothing.
get_cached_after_add_example :
    get_cached env
      (add_config env start (config_at 1)).1
      (bytes "c")
      (stored_version versions (config_at 1))
      no_config_info
    ≡ (if bytes "c" == []
        then (done ok_status, config_at 1)
        else get_cached env start
            (bytes "c")
            (stored_version versions (config_at 1))
            no_config_info)
unfolding find
get_cached_after_add_example =
    get_cached_after_add env start (config_at 1) no_config_info (bytes "c") refl

-- Two versions with one file.
one_file :
    make_cache_file_path env (bytes "d") (config_at 1)
    ≡ make_cache_file_path env (bytes "d") (config_at 4)
unfolding make_cache_file_path
one_file = refl
