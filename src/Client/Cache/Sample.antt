-- ===== src/Client/Cache/Sample.antt =====
-- A CacheEnv whose directory is a map from paths to contents, for the examples.
use ea.Common.{◌∷◌, [], bytes}
use ea.Common.Bytes.{Bytes, bytes_eq}
use ea.Common.Maps.{Map, assign, erase}
use ea.Api.{ConfigVersion}
use ea.Config.Triple.{versions}
use ea.Client.Requests.{ok_status}
use ea.Client.Cache.{CacheEnv}

abbrev pub env : CacheEnv ConfigVersion
env = record {
  versions = versions;
  Dir = Map Bytes Bytes;
  dump_file = λ dir path config. (ok_status, assign dir path config.content);
  remove_file = λ dir path. erase dir path;
  number = λ n. n ∷ [];
  type_text = λ config. bytes "json";
}
