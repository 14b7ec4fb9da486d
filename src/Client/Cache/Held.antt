-- ===== src/Client/Cache/Held.antt =====
-- ConfigCache: what each call is to do, and that it does it.
use ea.Common.{
  ◌≡◌, ◌∙◌, refl, Option, none, some, List, [], ◌∷◌, inl, inr, is_some, if◌then◌else◌, ◌==◌,
  Bool-cases, Option-cases, arith,
}
use ea.Common.Bytes.{Bytes, bytes_eq}
use ea.Common.Eq.{KeyEq}
use ea.Common.Maps.{find, lookup_in, erase_in, lookup-erase}
use ea.Common.Sets.{contains}
use ea.Api.{ConfigInfo}
use ea.Config.{Versions, Listed, set_version, stored_version}
use ea.Client.Cache.{
  CacheEnv, ConfigCache, do_add_config, add_config, remove_files, remove_one, remove_each,
  remove_some, below, from_bound, remove_config_less_than, remove_all, remove_config_file,
}
use ea.Client.Cache.Ordered.{
  versions_at, IsOrdered, found-IsIncreasing, write_config_file-map, remove_config_file-map,
  remove_files-map, remove_each-IsOrdered,
}
use ea.Client.Cache.Runs.{
  CacheOp, to_add, to_remove, to_remove_some, to_remove_less_than, to_remove_all, run_op,
}
use ea.Client.Cache.Kept.{keep_left-versions, lookup_in-from_bound, lookup_in-set_version}
use ea.Client.Cache.Rows.{
  Held, with_row, held, held-row, held-unchanged, missing-none, none-then, then-none, assign_row,
  without_version-row, erased-none, found-held, erase_row,
}

module _ {V : Type 0} ⦃keys : KeyEq V⦄ (versions : Versions V) where
  abbrev pub with_config : ConfigInfo → Held V → Held V
  with_config config f =
      let v = stored_version versions config in
      with_row config.name (λ u. if v == u then some config else f config.name u) f

  -- What each call is to do: a config is added where none is there, and removed for good.
  abbrev pub replay_op : CacheOp V → Held V → Held V
  replay_op (to_add config) f =
      if is_some (f config.name (stored_version versions config)) then f else with_config config f
  replay_op (to_remove name v) f = with_row name (λ u. if v == u then none else f name u) f
  replay_op (to_remove_some name vs) f =
      with_row name (λ u. if contains vs u then none else f name u) f
  replay_op (to_remove_less_than name v) f =
      with_row name (λ u. if versions.leq v u then f name u else none) f
  replay_op (to_remove_all name) f = with_row name (λ u. none) f

module _ {V : Type 0} ⦃keys : KeyEq V⦄ (env : CacheEnv V) where
  pub do_add_config-held :
      (c : ConfigCache env) (config : ConfigInfo)
      → (j : Bytes) (u : V)
      → held env (do_add_config env c config) j u ≡ with_config env.versions config (held env c) j u
  unfolding do_add_config
  do_add_config-held c config =
      let v = stored_version env.versions config in
      let listed = versions_at env.versions c.cache_map config.name in
      let left = set_version env.versions v config listed in
      held-row env c (do_add_config env c config) config.name left _
        (assign_row env c config.name left) (lookup_in-set_version env v config listed)

  pub add_config-held :
      (c : ConfigCache env) (config : ConfigInfo) (j : Bytes) (u : V)
      → held env (add_config env c config).1 j u
        ≡ replay_op env.versions (to_add config) (held env c) j u
  unfolding add_config
  add_config-held c config j u =
      let v = stored_version env.versions config in
      elim (Bool-cases (is_some (lookup_in v (versions_at env.versions c.cache_map config.name)))) [
        | inl e ↦ rw (add_config, e) refl
        | inr e ↦
            rw (add_config, e, write_config_file-map env (do_add_config env c config) config)
              (do_add_config-held c config j u)
      ]

  pub remove_one-held :
      (c : ConfigCache env) (name : Bytes) (v : V) (j : Bytes) (u : V)
      → held env (remove_one env c name v).1 j u
        ≡ replay_op env.versions (to_remove name v) (held env c) j u
  unfolding remove_one
  remove_one-held c name v j u =
      let row : V → Option ConfigInfo = λ w. if v == w then none else held env c name w in
      elim (Option-cases (find c.cache_map name)) [
        | inl e ↦
            held-unchanged env c (remove_one env c name v).1 name row (rw (remove_one, e) refl)
              (λ w. none-then (v == w) _ (missing-none env c name e w)) j u
        | inr (listed, e) ↦ elim (Option-cases (lookup_in v listed)) [
          | inl f ↦
              held-unchanged env c (remove_one env c name v).1 name row (rw (remove_one, e, f) refl)
                (λ w.
                  erased-none env v w (versions_at env.versions c.cache_map name)
                    (found-held env c name listed e v ∙ f))
                j u
          | inr (info, f) ↦
              held-row env c (remove_one env c name v).1 name (erase_in v listed) row
                (rw (remove_one, e, f, remove_config_file-map env c info)
                  (without_version-row env c name v listed))
                (λ w. lookup-erase v w listed ∙ rw (found-held env c name listed e w) refl) j u
        ]
      ]

  pub remove_each-held :
      (c : ConfigCache env) (vs : List V) (listed : Listed V) (u : V)
      → lookup_in u (remove_each env c listed vs).1
        ≡ (if contains vs u then none else lookup_in u listed)
  unfolding remove_each contains
  remove_each-held c [] listed u = refl
  remove_each-held c (v ∷ l) listed u = elim (Option-cases (lookup_in v listed)) [
    | inl e ↦
        rw (remove_each, e) (ground (arith, e, remove_each-held c l listed u, keys.beq_iff v u))
    | inr (info, e) ↦
        let c' = remove_config_file env c info in
        rw (remove_each, e)
          (ground (arith, remove_each-held c' l (erase_in v listed) u, lookup-erase v u listed))
  ]

  pub remove_some-held :
      (c : ConfigCache env) (name : Bytes) (vs : List V)
      → IsOrdered env c
      → (j : Bytes) (u : V)
      → held env (remove_some env c name vs).1 j u
        ≡ replay_op env.versions (to_remove_some name vs) (held env c) j u
  unfolding remove_some
  remove_some-held c name vs h j u =
      let row : V → Option ConfigInfo = λ w. if contains vs w then none else held env c name w in
      elim (Option-cases (find c.cache_map name)) [
        | inl e ↦
            held-unchanged env c (remove_some env c name vs).1 name row (rw (remove_some, e) refl)
              (λ w. none-then (contains vs w) _ (missing-none env c name e w)) j u
        | inr (listed, e) ↦
            let r = remove_each env c listed vs in
            let same =
              (remove_each-IsOrdered env c listed vs
                (found-IsIncreasing env c name listed e h)).0 in
            held-row env c (remove_some env c name vs).1 name r.1 row
              (rw (remove_some, e) (λ i. rw (keep_left-versions env r.0 name r.1 i, same) refl))
              (λ w. remove_each-held c vs listed w ∙ rw (found-held env c name listed e w) refl) j u
      ]

  pub remove_config_less_than-held :
      (c : ConfigCache env) (name : Bytes) (v : V)
      → IsOrdered env c
      → (j : Bytes) (u : V)
      → held env (remove_config_less_than env c name v).1 j u
        ≡ replay_op env.versions (to_remove_less_than name v) (held env c) j u
  unfolding remove_config_less_than
  remove_config_less_than-held c name v h j u =
      let row : V → Option ConfigInfo =
        λ w. if env.versions.leq v w then held env c name w else none in
      let r = (remove_config_less_than env c name v).1 in
      elim (Option-cases (find c.cache_map name)) [
        | inl e ↦
            held-unchanged env c r name row (rw (remove_config_less_than, e) refl)
              (λ w. then-none (env.versions.leq v w) _ (missing-none env c name e w)) j u
        | inr (listed, e) ↦
            let gone = below env v listed in
            let left = from_bound env v listed in
            let c' = remove_files env c gone in
            held-row env c r name left row
              (rw (remove_config_less_than, e)
                (λ i. rw (keep_left-versions env c' name left i, remove_files-map env c gone) refl))
              (λ w.
                lookup_in-from_bound env v listed (found-IsIncreasing env c name listed e h) w
                ∙ rw (found-held env c name listed e w) refl)
              j u
      ]

  pub remove_all-held :
      (c : ConfigCache env) (name : Bytes) (j : Bytes) (u : V)
      → held env (remove_all env c name).1 j u
        ≡ replay_op env.versions (to_remove_all name) (held env c) j u
  unfolding remove_all lookup_in
  remove_all-held c name j u = elim (Option-cases (find c.cache_map name)) [
    | inl e ↦
        held-unchanged env c (remove_all env c name).1 name (λ w. none) (rw (remove_all, e) refl)
          (missing-none env c name e) j u
    | inr (listed, e) ↦
        held-row env c (remove_all env c name).1 name [] (λ w. none)
          (rw (remove_all, e, remove_files-map env c listed) (erase_row env c name)) (λ w. refl) j u
  ]

  pub run_op-held :
      (c : ConfigCache env) (op : CacheOp V)
      → IsOrdered env c
      → (j : Bytes) (u : V)
      → held env (run_op env c op) j u ≡ replay_op env.versions op (held env c) j u
  unfolding run_op
  run_op-held c (to_add config) h = add_config-held c config
  run_op-held c (to_remove name v) h = remove_one-held c name v
  run_op-held c (to_remove_some name vs) h = remove_some-held c name vs h
  run_op-held c (to_remove_less_than name v) h = remove_config_less_than-held c name v h
  run_op-held c (to_remove_all name) h = remove_all-held c name
