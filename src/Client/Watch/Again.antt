-- ===== src/Client/Watch/Again.antt =====
-- ConfigClient::get_config of the newest version, called twice.
use ea.Common.{
  ◌≡◌, ◌∙◌, refl, sym, subst, ap, true, false, none, some, [], inl, inr, is_some, ◌==◌, Bool-cases,
  eq_refl,
}
use ea.Common.Bytes.{Bytes, bytes_eq}
use ea.Common.Eq.{KeyEq}
use ea.Common.Maps.{find, find-assign, lookup_in}
use ea.Api.{ConfigInfo}
use ea.Config.{set_version, stored_version}
use ea.Client.Cache.{
  CacheEnv, ConfigCache, add_config, do_add_config, get_cached_latest, already_exists,
}
use ea.Client.Cache.Ordered.{versions_at, write_config_file-map}
use ea.Client.Cache.Kept.{lookup_in-set_version}
use ea.Client.Watch.{ConfigClient, Server, get_config_newest_of}

module _ {V : Type 0} ⦃keys : KeyEq V⦄ (env : CacheEnv V) (zero : V) where
  add_config-added :
      (c : ConfigCache env) (config : ConfigInfo)
      → is_some (
          lookup_in
            (stored_version env.versions config)
            (versions_at env.versions (add_config env c config).1.cache_map config.name))
        ≡ true
  unfolding add_config do_add_config
  add_config-added c config =
      let v = stored_version env.versions config in
      let listed = versions_at env.versions c.cache_map config.name in
      let set = set_version env.versions v config listed in
      elim (Bool-cases (is_some (lookup_in v listed))) [
        | inl f ↦ rw (add_config, f) f
        | inr f ↦
            rw
              (
                add_config,
                f,
                write_config_file-map env (do_add_config env c config) config,
                find-assign c.cache_map config.name set config.name,
                eq_refl config.name,
                lookup_in-set_version env v config listed v,
                eq_refl v,
              )
              refl
      ]

  add_config-again :
      (c : ConfigCache env) (config : ConfigInfo)
      → is_some (
          lookup_in
            (stored_version env.versions config)
            (versions_at env.versions c.cache_map config.name))
        ≡ true
      → add_config env c config ≡ (already_exists, c)
  unfolding add_config
  add_config-again c config e = rw (add_config, e) refl

  add_config-other :
      (c : ConfigCache env) (config : ConfigInfo) (name : Bytes)
      → (config.name == name) ≡ false
      → find (add_config env c config).1.cache_map name ≡ find c.cache_map name
  unfolding add_config do_add_config
  add_config-other c config name e =
      let v = stored_version env.versions config in
      let listed = versions_at env.versions c.cache_map config.name in
      let set = set_version env.versions v config listed in
      elim (Bool-cases (is_some (lookup_in v listed))) [
        | inl f ↦ rw (add_config, f) refl
        | inr f ↦
            rw
              (
                add_config,
                f,
                write_config_file-map env (do_add_config env c config) config,
                find-assign c.cache_map config.name set name,
                e,
              )
              refl
      ]

  read_through :
      (server : Server) (c : ConfigClient env zero) (name : Bytes) (info : ConfigInfo)
      → find c.cache.cache_map [] ≡ none
      → server.get_latest name ≡ inr info
      → get_config_newest_of env zero server c name ≡ (
        (add_config env c.cache info).0,
        some info.content,
        record c { cache = (add_config env c.cache info).1 },
      )
  unfolding get_config_newest_of get_cached_latest
  read_through server c name info missing e =
      rw (get_config_newest_of, get_cached_latest, missing, e) refl

  -- Where no config with an empty name is cached, and the server answers a config with a name: the second
  -- of two reads of the newest version reads from the server as the first did, gives the content, leaves the client
  -- as the first left it, and answers AlreadyExistsError.
  pub newest_read_twice :
      (server : Server) (c : ConfigClient env zero) (name : Bytes) (info : ConfigInfo)
      → find c.cache.cache_map [] ≡ none
      → server.get_latest name ≡ inr info
      → (info.name == []) ≡ false
      → let c' = (get_config_newest_of env zero server c name).2 in
        get_config_newest_of env zero server c' name ≡ (already_exists, some info.content, c')
  newest_read_twice server c name info missing e named =
      let first = record c { cache = (add_config env c.cache info).1 } in
      subst
        (λ r.
          get_config_newest_of env zero server r.2 name ≡ (already_exists, some info.content, r.2))
        (sym (read_through server c name info missing e))
        (read_through server first name info (add_config-other c.cache info [] named ∙ missing) e
          ∙ ap (λ r. (r.0, some info.content, record first { cache = r.1 }))
              (add_config-again first.cache info (add_config-added c.cache info)))
