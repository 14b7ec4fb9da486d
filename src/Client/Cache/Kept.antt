-- ===== src/Client/Cache/Kept.antt =====
-- ConfigCache: what the calls leave, and what is read back.
use ea.Common.{
  ◌≡◌, refl, true, false, none, some, [], ◌∷◌, inl, inr, if◌then◌else◌, ◌==◌, Bool-cases, arith,
  eq_refl,
}
use ea.Common.Bytes.{Bytes, bytes_eq}
use ea.Common.Eq.{KeyEq}
use ea.Common.Maps.{find, find-assign, find-erase, lookup_in}
use ea.Api.{ConfigInfo}
use ea.Config.{Listed, set_version, stored_version}
use ea.Config.Order.{AllAbove, IsIncreasing}
use ea.Client.Requests.{ok_status}
use ea.Client.Cache.{
  CacheEnv, ConfigCache, do_add_config, add_config, keep_left, remove_files, below, from_bound,
  remove_config_less_than, get_cached, done,
}
use ea.Client.Cache.Ordered.{
  versions_at, IsOrdered, found-IsIncreasing, remove_files-map, write_config_file-map,
}

module _ {V : Type 0} ⦃keys : KeyEq V⦄ (env : CacheEnv V) where
  lookup_in-above :
      (v w : V) (l : Listed V)
      → AllAbove env.versions w l
      → env.versions.leq v w ≡ true
      → (u : V) → env.versions.leq v u ≡ false
      → lookup_in u l ≡ none
  unfolding lookup_in
  lookup_in-above v w [] h below u above = refl
  lookup_in-above v w ((x, info) ∷ l) h below u above = ground (
    arith,
    lookup_in-above v w l h.1 below u above,
    env.versions.leq_trans v w x below h.0.0,
    keys.beq_iff x u,
  )

  pub lookup_in-from_bound :
      (v : V) (l : Listed V)
      → IsIncreasing env.versions l
      → (u : V)
      → lookup_in u (from_bound env v l) ≡ (if env.versions.leq v u then lookup_in u l else none)
  unfolding lookup_in from_bound
  lookup_in-from_bound v [] h u = ground arith
  lookup_in-from_bound v ((w, info) ∷ l) h u = elim (Bool-cases (env.versions.leq v w)) [
    | inl e ↦ elim (Bool-cases (env.versions.leq v u)) [
      | inl f ↦ rw (e, f) refl
      | inr f ↦ ground (arith, e, f, lookup_in-above v w l h.0 e u f, keys.beq_iff w u)
    ]
    | inr e ↦ ground (arith, e, lookup_in-from_bound v l h.1 u, keys.beq_iff w u)
  ]

  pub keep_left-versions :
      (c : ConfigCache env) (name : Bytes) (left : Listed V) (j : Bytes)
      → versions_at env.versions (keep_left env c name left).cache_map j
        ≡ (if name == j then left else versions_at env.versions c.cache_map j)
  unfolding keep_left
  keep_left-versions c name [] j = elim (Bool-cases (name == j)) [
    | inl e ↦ rw (find-erase c.cache_map name j, e) refl
    | inr e ↦ rw (find-erase c.cache_map name j, e) refl
  ]
  keep_left-versions c name (x ∷ l) j = elim (Bool-cases (name == j)) [
    | inl e ↦ rw (find-assign c.cache_map name (x ∷ l) j, e) refl
    | inr e ↦ rw (find-assign c.cache_map name (x ∷ l) j, e) refl
  ]

  pub lookup_in-set_version :
      (v : V) (info : ConfigInfo) (l : Listed V) (u : V)
      → lookup_in u (set_version env.versions v info l)
        ≡ (if v == u then some info else lookup_in u l)
  unfolding lookup_in set_version
  lookup_in-set_version v info [] u = refl
  lookup_in-set_version v info ((w, old) ∷ l) u = ground (
    arith,
    lookup_in-set_version v info l u,
    keys.beq_iff w v,
    keys.beq_iff w u,
    keys.beq_iff v u,
  )

  -- remove_config_less_than answers ok for a config that is there. It keeps the versions of the config from the
  -- one given on, and no others, and leaves the other configs alone, where the versions are in
  -- increasing order.
  pub remove_config_less_than_keeps :
      (c : ConfigCache env) (name : Bytes) (v : V) (listed : Listed V)
      → IsOrdered env c
      → find c.cache_map name ≡ some listed
      → let r = remove_config_less_than env c name v in
        (r.0 ≡ done ok_status)
        × ((j : Bytes) (w : V)
            → lookup_in w (versions_at env.versions r.1.cache_map j) ≡ (
                if name == j
                then (if env.versions.leq v w then lookup_in w listed else none)
                else lookup_in w (versions_at env.versions c.cache_map j)))
  unfolding remove_config_less_than
  remove_config_less_than_keeps c name v listed h e =
      let gone = below env v listed in
      let left = from_bound env v listed in
      let c' = remove_files env c gone in
      let kept = lookup_in-from_bound v listed (found-IsIncreasing env c name listed e h) in
      rw (remove_config_less_than, e)
        (
          refl,
          λ j w. elim (Bool-cases (name == j)) [
            | inl f ↦ rw (keep_left-versions c' name left j, f) (kept w)
            | inr f ↦ rw (keep_left-versions c' name left j, f, remove_files-map env c gone) refl
          ],
        )

  -- After add_config of a version that is not there yet, get_config finds it where the message to fill has the
  -- name of the config already, whatever name is asked for, and else finds what it found before.
  pub get_cached_after_add :
      (c : ConfigCache env) (config out : ConfigInfo) (name : Bytes)
      → lookup_in
          (stored_version env.versions config)
          (versions_at env.versions c.cache_map config.name)
        ≡ none
      → let r = add_config env c config in
        let v = stored_version env.versions config in
        get_cached env r.1 name v out ≡ (
          if config.name == out.name then (done ok_status, config) else get_cached env c name v out)
  unfolding add_config do_add_config get_cached
  get_cached_after_add c config out name e =
      let v = stored_version env.versions config in
      let listed = versions_at env.versions c.cache_map config.name in
      let set = set_version env.versions v config listed in
      let at = find-assign c.cache_map config.name set out.name in
      elim (Bool-cases (config.name == out.name)) [
        | inl f ↦
            rw
              (
                add_config,
                e,
                get_cached,
                write_config_file-map env (do_add_config env c config) config,
                at,
                f,
                lookup_in-set_version v config listed v,
                eq_refl v,
              )
              refl
        | inr f ↦
            rw
              (
                add_config,
                e,
                get_cached,
                write_config_file-map env (do_add_config env c config) config,
                at,
                f,
              )
              refl
      ]
