-- ===== src/Client/Cache/Ordered.antt =====
-- ConfigCache: the versions of each config stay in increasing order.
use ea.Common.{
  ◌≡◌, ◌∙◌, refl, subst, some, List, [], ◌∷◌, inl, inr, get_or, ◌==◌, Bool-cases, Option-cases,
}
use ea.Common.Bytes.{Bytes, bytes_eq}
use ea.Common.Eq.{KeyEq}
use ea.Common.Maps.{Map, find, assign, erase, find-assign, find-erase, lookup_in, erase_in}
use ea.Common.Sets.{is_empty}
use ea.Api.{ConfigInfo}
use ea.Config.{Versions, Listed, set_version, stored_version}
use ea.Config.Order.{IsIncreasing, set_version-IsIncreasing, erase_in-IsIncreasing}
use ea.Client.Cache.{
  CacheEnv, ConfigCache, do_add_config, write_config_file, remove_config_file, remove_files,
  remove_each, keep_left, from_bound,
}

module _ {V : Type 0} ⦃keys : KeyEq V⦄ (versions : Versions V) where
  -- the versions of a name
  abbrev pub versions_at : Map Bytes (Listed V) → Bytes → Listed V
  versions_at m name = get_or (find m name) []

  abbrev pub AreIncreasing : Map Bytes (Listed V) → Type 0
  AreIncreasing m = (name : Bytes) → IsIncreasing versions (versions_at m name)

  pub assign-AreIncreasing :
      (m : Map Bytes (Listed V)) (name : Bytes) (l : Listed V)
      → IsIncreasing versions l
      → AreIncreasing m
      → AreIncreasing (assign m name l)
  assign-AreIncreasing m name l k h j = elim (Bool-cases (name == j)) [
    | inl e ↦ rw (find-assign m name l j, e) k
    | inr e ↦ rw (find-assign m name l j, e) (h j)
  ]

  pub erase-AreIncreasing :
      (m : Map Bytes (Listed V)) (name : Bytes) → AreIncreasing m → AreIncreasing (erase m name)
  erase-AreIncreasing m name h j = elim (Bool-cases (name == j)) [
    | inl e ↦ rw (find-erase m name j, e) tt
    | inr e ↦ rw (find-erase m name j, e) (h j)
  ]

module _ {V : Type 0} ⦃keys : KeyEq V⦄ (env : CacheEnv V) where
  abbrev pub IsOrdered : ConfigCache env → Type 0
  IsOrdered c = AreIncreasing env.versions c.cache_map

  pub found-IsIncreasing :
      (c : ConfigCache env) (name : Bytes) (l : Listed V)
      → find c.cache_map name ≡ some l
      → IsOrdered c
      → IsIncreasing env.versions l
  found-IsIncreasing c name l e h = subst (λ o. IsIncreasing env.versions (get_or o [])) e (h name)

  pub do_add_config-IsOrdered :
      (c : ConfigCache env) (config : ConfigInfo)
      → IsOrdered c
      → IsOrdered (do_add_config env c config)
  unfolding do_add_config
  do_add_config-IsOrdered c config h =
      assign-AreIncreasing env.versions c.cache_map config.name
        (set_version env.versions (stored_version env.versions config) config
          (versions_at env.versions c.cache_map config.name))
        (set_version-IsIncreasing env.versions (stored_version env.versions config) config
          (versions_at env.versions c.cache_map config.name) (h config.name))
        h

  -- Files are written and removed beside the map.
  pub write_config_file-map :
      (c : ConfigCache env) (config : ConfigInfo)
      → (write_config_file env c config).1.cache_map ≡ c.cache_map
  unfolding write_config_file
  write_config_file-map c config = elim (Bool-cases (is_empty c.cache_dir)) [
    | inl e ↦ rw (write_config_file, e) refl
    | inr e ↦ rw (write_config_file, e) refl
  ]

  pub remove_config_file-map :
      (c : ConfigCache env) (config : ConfigInfo)
      → (remove_config_file env c config).cache_map ≡ c.cache_map
  unfolding remove_config_file
  remove_config_file-map c config = elim (Bool-cases (is_empty c.cache_dir)) [
    | inl e ↦ rw (remove_config_file, e) refl
    | inr e ↦ rw (remove_config_file, e) refl
  ]

  pub remove_files-map :
      (c : ConfigCache env) (l : Listed V) → (remove_files env c l).cache_map ≡ c.cache_map
  unfolding remove_files
  remove_files-map c [] = refl
  remove_files-map c ((v, info) ∷ l) =
      remove_files-map (remove_config_file env c info) l ∙ remove_config_file-map c info

  pub keep_left-IsOrdered :
      (c : ConfigCache env) (name : Bytes) (left : Listed V)
      → IsIncreasing env.versions left
      → IsOrdered c
      → IsOrdered (keep_left env c name left)
  unfolding keep_left
  keep_left-IsOrdered c name left k h = elim (Bool-cases (is_empty left)) [
    | inl e ↦ rw (keep_left, e) (erase-AreIncreasing env.versions c.cache_map name h)
    | inr e ↦ rw (keep_left, e) (assign-AreIncreasing env.versions c.cache_map name left k h)
  ]

  pub remove_each-IsOrdered :
      (c : ConfigCache env) (listed : Listed V) (vs : List V)
      → IsIncreasing env.versions listed
      → ((remove_each env c listed vs).0.cache_map ≡ c.cache_map)
        × IsIncreasing env.versions (remove_each env c listed vs).1
  unfolding remove_each
  remove_each-IsOrdered c listed [] h = (refl, h)
  remove_each-IsOrdered c listed (v ∷ l) h = elim (Option-cases (lookup_in v listed)) [
    | inl e ↦ rw (remove_each, e) (remove_each-IsOrdered c listed l h)
    | inr (info, e) ↦
        let c' = remove_config_file env c info in
        let (same, rest) =
          remove_each-IsOrdered c' (erase_in v listed) l
            (erase_in-IsIncreasing env.versions v listed h) in
        rw (remove_each, e) (same ∙ remove_config_file-map c info, rest)
  ]

  pub from_bound-IsIncreasing :
      (v : V) (l : Listed V)
      → IsIncreasing env.versions l
      → IsIncreasing env.versions (from_bound env v l)
  unfolding from_bound
  from_bound-IsIncreasing v [] h = tt
  from_bound-IsIncreasing v ((w, info) ∷ l) h = elim (Bool-cases (env.versions.leq v w)) [
    | inl e ↦ rw e h
    | inr e ↦ rw e (from_bound-IsIncreasing v l h.1)
  ]
