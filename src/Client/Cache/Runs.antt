-- ===== src/Client/Cache/Runs.antt =====
-- ConfigCache: init and the calls, one after the other, and the order of the versions.
use ea.Common.{sym, subst, List, [], ◌∷◌, inl, inr, is_some, if_cases, Bool-cases, Option-cases}
use ea.Common.Bytes.{Bytes, bytes_eq}
use ea.Common.Eq.{KeyEq}
use ea.Common.Maps.{find, lookup_in, erase_in}
use ea.Common.Sets.{is_empty}
use ea.Api.{ConfigInfo}
use ea.Config.{stored_version, without_version}
use ea.Config.Order.{erase_in-IsIncreasing}
use ea.Client.Requests.{Status, Loaded}
use ea.Client.Cache.{
  CacheEnv, Found, unreadable, missing, files, found_files, init, ConfigCache, do_add_config,
  load_files, add_config, remove_files, remove_one, remove_each, remove_some, below, from_bound,
  remove_config_less_than, remove_all,
}
use ea.Client.Cache.Ordered.{
  versions_at, IsOrdered, assign-AreIncreasing, erase-AreIncreasing, AreIncreasing,
  found-IsIncreasing, do_add_config-IsOrdered, write_config_file-map, remove_config_file-map,
  remove_files-map, keep_left-IsOrdered, remove_each-IsOrdered, from_bound-IsIncreasing,
}

-- The calls that change the cache.
pub data CacheOp (V : Type 0) : Type 0 where
  to_add : ConfigInfo → CacheOp V
  to_remove : Bytes → V → CacheOp V
  to_remove_some : Bytes → List V → CacheOp V
  to_remove_less_than : Bytes → V → CacheOp V
  to_remove_all : Bytes → CacheOp V

module _ {V : Type 0} ⦃keys : KeyEq V⦄ (env : CacheEnv V) where
  unfoldable pub run_op : ConfigCache env → CacheOp V → ConfigCache env
  unfolding add_config remove_one remove_some remove_config_less_than remove_all
  run_op c (to_add config) = (add_config env c config).1
  run_op c (to_remove name v) = (remove_one env c name v).1
  run_op c (to_remove_some name vs) = (remove_some env c name vs).1
  run_op c (to_remove_less_than name v) = (remove_config_less_than env c name v).1
  run_op c (to_remove_all name) = (remove_all env c name).1

  unfoldable pub run_ops : ConfigCache env → List (CacheOp V) → ConfigCache env
  unfolding run_op
  run_ops c [] = c
  run_ops c (op ∷ l) = run_ops (run_op c op) l

  add_config-IsOrdered :
      (c : ConfigCache env) (config : ConfigInfo)
      → IsOrdered env c
      → IsOrdered env (add_config env c config).1
  unfolding add_config
  add_config-IsOrdered c config h =
      let listed = versions_at env.versions c.cache_map config.name in
      elim (Bool-cases (is_some (lookup_in (stored_version env.versions config) listed))) [
        | inl e ↦ rw (add_config, e) h
        | inr e ↦
            rw (add_config, e, write_config_file-map env (do_add_config env c config) config)
              (do_add_config-IsOrdered env c config h)
      ]

  remove_one-IsOrdered :
      (c : ConfigCache env) (name : Bytes) (v : V)
      → IsOrdered env c
      → IsOrdered env (remove_one env c name v).1
  unfolding remove_one without_version
  remove_one-IsOrdered c name v h = elim (Option-cases (find c.cache_map name)) [
    | inl e ↦ rw (remove_one, e) h
    | inr (listed, e) ↦ elim (Option-cases (lookup_in v listed)) [
      | inl f ↦ rw (remove_one, e, f) h
      | inr (info, f) ↦
          let left = erase_in v listed in
          let kept =
            erase_in-IsIncreasing env.versions v listed
              (found-IsIncreasing env c name listed e h) in
          elim (Bool-cases (is_empty left)) [
            | inl g ↦
                rw (remove_one, e, f, remove_config_file-map env c info, without_version, g)
                  (erase-AreIncreasing env.versions c.cache_map name h)
            | inr g ↦
                rw (remove_one, e, f, remove_config_file-map env c info, without_version, g)
                  (assign-AreIncreasing env.versions c.cache_map name left kept h)
          ]
    ]
  ]

  remove_some-IsOrdered :
      (c : ConfigCache env) (name : Bytes) (vs : List V)
      → IsOrdered env c
      → IsOrdered env (remove_some env c name vs).1
  unfolding remove_some
  remove_some-IsOrdered c name vs h = elim (Option-cases (find c.cache_map name)) [
    | inl e ↦ rw (remove_some, e) h
    | inr (listed, e) ↦
        let r = remove_each env c listed vs in
        let (same, left) =
          remove_each-IsOrdered env c listed vs (found-IsIncreasing env c name listed e h) in
        rw (remove_some, e)
          (keep_left-IsOrdered env r.0 name r.1 left
            (subst (AreIncreasing env.versions) (sym same) h))
  ]

  remove_config_less_than-IsOrdered :
      (c : ConfigCache env) (name : Bytes) (v : V)
      → IsOrdered env c
      → IsOrdered env (remove_config_less_than env c name v).1
  unfolding remove_config_less_than
  remove_config_less_than-IsOrdered c name v h = elim (Option-cases (find c.cache_map name)) [
    | inl e ↦ rw (remove_config_less_than, e) h
    | inr (listed, e) ↦
        let gone = below env v listed in
        rw (remove_config_less_than, e)
          (keep_left-IsOrdered env (remove_files env c gone) name (from_bound env v listed)
            (from_bound-IsIncreasing env v listed (found-IsIncreasing env c name listed e h))
            (subst (AreIncreasing env.versions) (sym (remove_files-map env c gone)) h))
  ]

  remove_all-IsOrdered :
      (c : ConfigCache env) (name : Bytes)
      → IsOrdered env c
      → IsOrdered env (remove_all env c name).1
  unfolding remove_all
  remove_all-IsOrdered c name h = elim (Option-cases (find c.cache_map name)) [
    | inl e ↦ rw (remove_all, e) h
    | inr (listed, e) ↦
        rw (remove_all, e, remove_files-map env c listed)
          (erase-AreIncreasing env.versions c.cache_map name h)
  ]

  pub run_op-IsOrdered :
      (c : ConfigCache env) (op : CacheOp V) → IsOrdered env c → IsOrdered env (run_op c op)
  unfolding run_op
  run_op-IsOrdered c (to_add config) h = add_config-IsOrdered c config h
  run_op-IsOrdered c (to_remove name v) h = remove_one-IsOrdered c name v h
  run_op-IsOrdered c (to_remove_some name vs) h = remove_some-IsOrdered c name vs h
  run_op-IsOrdered c (to_remove_less_than name v) h = remove_config_less_than-IsOrdered c name v h
  run_op-IsOrdered c (to_remove_all name) h = remove_all-IsOrdered c name h

  load_files-IsOrdered :
      (c : ConfigCache env) (l : List (Loaded ConfigInfo))
      → IsOrdered env c
      → IsOrdered env (load_files env c l).1
  unfolding load_files
  load_files-IsOrdered c [] h = h
  load_files-IsOrdered c (inl code ∷ l) h = h
  load_files-IsOrdered c (inr info ∷ l) h =
      load_files-IsOrdered (do_add_config env c info) l (do_add_config-IsOrdered env c info h)

  after_found :
      (c : ConfigCache env) (flag : Bytes) (found : Found)
      → IsOrdered env c
      → IsOrdered env (found_files env (record c { cache_dir = flag }) found).1
  unfolding found_files
  after_found c flag unreadable h = h
  after_found c flag missing h = h
  after_found c flag (files l) h = load_files-IsOrdered (record c { cache_dir = flag }) l h

  pub init-IsOrdered :
      (c : ConfigCache env) (flag : Bytes) (found : Found)
      → IsOrdered env c
      → IsOrdered env (init env c flag found).1
  unfolding init
  init-IsOrdered c flag found h =
      if_cases {A = Status × ConfigCache env} (λ r. IsOrdered env r.1) c.is_init _ _ (λ e. h)
        (λ e.
          if_cases {A = Status × ConfigCache env} (λ r. IsOrdered env r.1) (is_empty flag) _ _
            (λ f. h) (λ f. after_found c flag found h))
