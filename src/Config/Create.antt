-- ===== src/Config/Create.antt =====
-- create_config: what it does to the versions of the configs.
use ea.Common.{
  String, some, ◌≡◌, ◌≢◌, ◌∙◌, ◌⊎◌, inl, inr, sym, ap, subst, refl, [], ◌∷◌, ◌++◌, ◌==◌,
  if◌then◌else◌, is_some, get_or, if_cases, arith, Bool-cases, Option-cases,
}
use ea.Common.Bytes.{Bytes, bytes_eq, bytes_beq_iff}
use ea.Common.Eq.{KeyEq}
use ea.Common.Maps.{Map, find, assign, find-assign, lookup_in}
use ea.Api.{ErrCode, ConfigInfo, ManagerRequest}
use ea.Base.{Done, if_done_set_response}
use ea.Rocks.{Op, Rocks, Codec, put_discovery_info}
use ea.Schema.State.{touch}
use ea.Config.{
  Versions, Listed, ConfigManager, config_of, version_of, is_too_low, set_version, make_config_key,
  create_config,
}
use ea.Config.Order.{AllBelow, IsIncreasing, set_version_new}

-- The versions of a config, none where it is not there.
abbrev pub versions_at : {V : Type 0} → Map Bytes (Listed V) → Bytes → Listed V
versions_at configs name = get_or (find configs name) []

versions-touch :
    {V : Type 0} (configs : Map Bytes (Listed V)) (name j : Bytes)
    → versions_at (touch configs name []) j ≡ versions_at configs j
unfolding touch
versions-touch configs name j = elim (Option-cases (find configs name)) [
  | inr (listed, e) ↦ rw (touch, e) refl
  | inl e ↦ elim (Bool-cases (name == j)) [
    | inl same ↦
        rw
          (
            touch,
            e,
            find-assign configs name [] j,
            same,
            ap (find configs) (sym ((bytes_beq_iff name j).1 same)) ∙ e,
          )
          refl
    | inr other ↦ rw (touch, e, find-assign configs name [] j, other) refl
  ]
]

versions-assign :
    {V : Type 0} (configs : Map Bytes (Listed V)) (name : Bytes) (listed : Listed V) (j : Bytes)
    → versions_at (assign (touch configs name []) name listed) j
      ≡ (if name == j then listed else versions_at configs j)
versions-assign configs name listed j = elim (Bool-cases (name == j)) [
  | inl same ↦ rw (find-assign (touch configs name []) name listed j, same) refl
  | inr other ↦
      rw (find-assign (touch configs name []) name listed j, other) (versions-touch configs name j)
]

module _ {V : Type 0} ⦃keys : KeyEq V⦄ (versions : Versions V) (rocks : Rocks)
    (codec : Codec ConfigInfo) where
  -- Every config's versions are in increasing order.
  abbrev pub IsOrdered : ConfigManager versions rocks codec → Type 0
  IsOrdered s = (name : Bytes) → IsIncreasing versions (versions_at s.configs name)

  abbrev pub IsKept :
      ConfigManager versions rocks codec → Done → ConfigManager versions rocks codec × Done → Type 0
  IsKept s d result =
      (code : ErrCode) × (msg : String) × (result.1 ≡ if_done_set_response d code msg)
      × (code ≢ ErrCode.success)
      × ((j : Bytes) → versions_at result.0.configs j ≡ versions_at s.configs j)
      × (result.0.db ≡ s.db)

  -- The database has the config under the key of its name and version, and else what it had.
  abbrev pub IsStored : rocks.Db → ConfigInfo → rocks.Db → Type 0
  IsStored before info after =
      (value : Bytes) × (codec.serialize info ≡ some value)
      × ((key : Bytes)
          → rocks.get after key ≡ (
              if make_config_key versions info.name (version_of versions info) == key
              then some value
              else rocks.get before key))

  abbrev pub IsAppended :
      ConfigManager versions rocks codec
      → ConfigInfo
      → Done
      → ConfigManager versions rocks codec × Done
      → Type 0
  IsAppended s info d result =
      let listed = versions_at s.configs info.name in
      let version = version_of versions info in
      (result.1 ≡ if_done_set_response d ErrCode.success "success")
      × AllBelow versions listed version
      × ((j : Bytes)
          → versions_at result.0.configs j ≡ (
              if info.name == j then listed ++ ((version, info) ∷ []) else versions_at s.configs j))
      × IsStored s.db info result.0.db
      × IsIncreasing versions (listed ++ ((version, info) ∷ []))

  refused :
      (s : ConfigManager versions rocks codec) (name : Bytes) (d : Done) (code : ErrCode)
      (msg : String)
      → code ≢ ErrCode.success
      → IsKept s d (record s { configs = touch s.configs name [] }, if_done_set_response d code msg)
  refused s name d code msg ne = (code, msg, refl, ne, λ j. versions-touch s.configs name j, refl)

  -- Where the versions of every config are in order, create_config is refused, with a code other than SUCCESS,
  -- every config's versions as they were, and the database as it was; or it answers SUCCESS, the version is above all
  -- that the config had, and comes after them in memory, where none is written over and the other configs stay. The
  -- database then has the request's config under the text of its name and version, and is as it was at every other
  -- key: a config whose name and version have the same text joined loses its record there.
  pub create_config_cases :
      (s : ConfigManager versions rocks codec) (request : ManagerRequest) (d : Done)
      → IsOrdered s
      → IsKept s d (create_config versions rocks codec s request d)
        ⊎ IsAppended s (config_of request) d (create_config versions rocks codec s request d)
  unfolding create_config put_discovery_info
  create_config_cases s request d h =
      let info = config_of request in
      let version = version_of versions info in
      let listed = versions_at s.configs info.name in
      let key = make_config_key versions info.name version in
      elim (Bool-cases (is_some (lookup_in version listed))) [
        | inl e ↦
            rw (create_config, e)
              (inl (
                refused s info.name d ErrCode.input_param_error "config already exist"
                  (λ p. ground arith)))
        | inr e ↦ elim (Bool-cases (is_too_low versions listed version)) [
          | inl f ↦
              rw (create_config, e, f)
                (inl (
                  refused s info.name d ErrCode.input_param_error
                    "Version numbers must increase monotonically" (λ p. ground arith)))
          | inr f ↦ elim (Option-cases (codec.serialize info)) [
            | inl g ↦
                rw (create_config, e, f, g)
                  (inl (
                    refused s info.name d ErrCode.parse_to_pb_fail "serializeToArray fail"
                      (λ p. ground arith)))
            | inr (value, g) ↦ elim (Option-cases (put_discovery_info rocks s.db key value)) [
              | inl k ↦
                  rw (create_config, e, f, g, k)
                    (inl (
                      refused s info.name d ErrCode.internal_error "write db fail"
                        (λ p. ground arith)))
              | inr (db, k) ↦
                  rw (create_config, e, f, g, k)
                    (let (appended, below, ordered) =
                        set_version_new versions listed version info (h info.name) f in
                      inr (
                        refl,
                        below,
                        λ j.
                            versions-assign s.configs info.name
                              (set_version versions version info listed) j
                            ∙ ap (λ l. if info.name == j then l else versions_at s.configs j)
                                appended,
                        (value, refl, λ j. rocks.get-write s.db db (Op.put key value ∷ []) j k),
                        subst (IsIncreasing versions) appended ordered,
                      ))
            ]
          ]
        ]
      ]

  pub create_config-IsOrdered :
      (s : ConfigManager versions rocks codec) (request : ManagerRequest) (d : Done)
      → IsOrdered s
      → IsOrdered (create_config versions rocks codec s request d).0
  create_config-IsOrdered s request d h j = elim (create_config_cases s request d h) [
    | inl (code, msg, answer, ne, kept, db) ↦ subst (IsIncreasing versions) (sym (kept j)) (h j)
    | inr (answer, below, list, stored, ordered) ↦ subst (IsIncreasing versions) (sym (list j)) (
        if_cases (IsIncreasing versions) ((config_of request).name == j)
          (versions_at s.configs (config_of request).name
            ++ ((version_of versions (config_of request), config_of request) ∷ []))
          (versions_at s.configs j) (λ e. ordered) (λ e. h j))
  ]
