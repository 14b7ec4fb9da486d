-- ===== src/Client/Cache/Replay.antt =====
-- ConfigCache: what it holds under a name and a version, against a replay of the calls on a function.
use ea.Common.{◌≡◌, ◌∙◌, refl, ap, Bool, true, false, List, [], ◌∷◌, inl, inr, if◌then◌else◌}
use std.Path.{fun_ext}
use ea.Common.Bytes.{Bytes, bytes_eq}
use ea.Common.Eq.{KeyEq}
use ea.Common.Sets.{is_empty}
use ea.Api.{ConfigInfo}
use ea.Config.{Versions}
use ea.Client.Requests.{ok_status, Loaded}
use ea.Client.Cache.{
  CacheEnv, Found, unreadable, missing, files, found_files, init, ConfigCache, do_add_config,
  load_files,
}
use ea.Client.Cache.Ordered.{IsOrdered}
use ea.Client.Cache.Runs.{CacheOp, run_op, run_ops, run_op-IsOrdered, init-IsOrdered}
use ea.Client.Cache.Rows.{Held, held}
use ea.Client.Cache.Held.{with_config, replay_op, do_add_config-held, run_op-held}

module _ {V : Type 0} ⦃keys : KeyEq V⦄ (versions : Versions V) where
  abbrev pub replay : List (CacheOp V) → Held V → Held V
  replay [] f = f
  replay (op ∷ l) f = replay l (replay_op versions op f)

  -- What init is to do: the files are added up to the first one that does not load, the later over the earlier.
  abbrev replay_files : List (Loaded ConfigInfo) → Held V → Held V
  replay_files [] f = f
  replay_files (inl code ∷ l) f = f
  replay_files (inr config ∷ l) f = replay_files l (with_config versions config f)

  -- Nothing is read where the cache is set up already or has no directory.
  abbrev pub replay_init : Bool → Bytes → Found → Held V → Held V
  replay_init true flag found f = f
  replay_init false [] found f = f
  replay_init false flag unreadable f = f
  replay_init false flag missing f = f
  replay_init false flag (files l) f = replay_files l f

module _ {V : Type 0} ⦃keys : KeyEq V⦄ (env : CacheEnv V) where
  run_ops-held :
      (c : ConfigCache env) (ops : List (CacheOp V))
      → IsOrdered env c
      → held env (run_ops env c ops) ≡ replay env.versions ops (held env c)
  unfolding run_ops
  run_ops-held c [] h = refl
  run_ops-held c (op ∷ l) h =
      run_ops-held (run_op env c op) l (run_op-IsOrdered env c op h)
      ∙ ap (replay env.versions l) (fun_ext (λ j. fun_ext (λ u. run_op-held env c op h j u)))

  load_files-held :
      (c : ConfigCache env) (l : List (Loaded ConfigInfo))
      → held env (load_files env c l).1 ≡ replay_files env.versions l (held env c)
  unfolding load_files
  load_files-held c [] = refl
  load_files-held c (inl code ∷ l) = refl
  load_files-held c (inr config ∷ l) =
      load_files-held (do_add_config env c config) l
      ∙ ap (replay_files env.versions l)
          (fun_ext (λ j. fun_ext (λ u. do_add_config-held env c config j u)))

  init_branches :
      (c : ConfigCache env) (done_before : Bool) (flag : Bytes) (found : Found)
      → held env
          (if done_before
            then (ok_status, c)
            else if is_empty flag
            then (ok_status, record c { cache_dir = flag })
            else found_files env (record c { cache_dir = flag }) found).1
        ≡ replay_init env.versions done_before flag found (held env c)
  unfolding found_files
  init_branches c true flag found = refl
  init_branches c false [] found = refl
  init_branches c false (b ∷ flag) unreadable = refl
  init_branches c false (b ∷ flag) missing = refl
  init_branches c false (b ∷ flag) (files l) = load_files-held (record c { cache_dir = b ∷ flag }) l

  init-held :
      (c : ConfigCache env) (flag : Bytes) (found : Found)
      → held env (init env c flag found).1
        ≡ replay_init env.versions c.is_init flag found (held env c)
  unfolding init
  init-held c flag found = init_branches c c.is_init flag found

  -- init and then any calls that add and remove configs, from a cache whose versions stand in increasing order:
  -- under each name and version it holds what a replay on a function from names and versions to configs holds,
  -- where init reads the files up to one that does not load, the later over the earlier, a config that is there is
  -- not added again, and a removal takes the versions that it names, or those below its bound, and nothing else.
  pub cache_refines_replay :
      (c : ConfigCache env) (flag : Bytes) (found : Found) (ops : List (CacheOp V))
      → IsOrdered env c
      → (name : Bytes) (v : V)
      → held env (run_ops env (init env c flag found).1 ops) name v
        ≡ replay env.versions ops
            (replay_init env.versions c.is_init flag found (held env c))
            name
            v
  cache_refines_replay c flag found ops h name v =
      ap (λ f. f name v)
        (run_ops-held (init env c flag found).1 ops (init-IsOrdered env c flag found h)
          ∙ ap (replay env.versions ops) (init-held c flag found))
