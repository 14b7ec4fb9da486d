-- ===== src/Discovery/Held.antt =====
-- DiscoveryStateMachine: what memory and database have in common, and that the calls of each manager keep it.
use ea.Common.{Bool-cases, inl, inr, ℕ, ◌≡◌, refl, sym, subst, false, ◌==◌, nat_eq, ◌∷◌}
use ea.Common.Bytes.{Bytes, bytes_eq}
use ea.Common.Eq.{KeyEq, nat_beq_iff}
use ea.Common.Maps.{Map, find}
use ea.Api.{OpType, ManagerRequest, UserPrivilege}
use ea.Base.{Done}
use ea.Rocks.{Rocks}
use ea.Rocks.Agree.{Agree}
use ea.Schema.Apply.{apply_schema}
use ea.Schema.WellFormed.{WellFormed}
use ea.Schema.Logs.{apply_schema-WellFormed}
use ea.Privilege.Manager.{apply_user_privilege}
use ea.Privilege.Durable.{apply_user_privilege-IsDurable}
use ea.Config.{Versions, apply_config}
use ea.Config.Create.{IsOrdered}
use ea.Config.Remove.{apply_config-IsOrdered}
use ea.Instances.{Registry}
use ea.Instances.Manager.{apply_instance}
use ea.Instances.Sound.{IsSound, apply_instance-IsSound}
use ea.Instances.Durable.{IsDurable, apply_instance-IsDurable}
use ea.Discovery.Readable.{ParsesAt}
use ea.Discovery.Effects.{Writes, Writes-get, AllFit, Writes-AllFit, Writes-AllFit-other}
use ea.Discovery.{
  AllCodecs, DiscoveryState, ids_of, privilege_manager, config_manager, instance_manager, on_users,
  on_schema, on_configs, on_instances,
}

module _ {V : Type 0} ⦃keys : KeyEq V⦄ (versions : Versions V) (rocks : Rocks)
    (codecs : AllCodecs) where
  -- Memory and database agree on every user.
  abbrev pub UsersHeld : Map Bytes UserPrivilege → rocks.Db → Type 0
  UsersHeld users db =
      (username : Bytes)
      → Agree codecs.user_codec (rocks.get db (2 ∷ username)) (find users username)

  -- Every stored value parses as its manager reads it.
  abbrev pub AllParse : rocks.Db → Type 0
  AllParse db = (p : ℕ) → AllFit rocks p (ParsesAt codecs p) db

  -- The users and the instances in memory are those of the database, the indexes of the instances list live
  -- ones alone, the maps of the schema fit together, every config's versions increase, and what is stored parses.
  abbrev pub IsConsistent : DiscoveryState versions rocks codecs → Type 0
  IsConsistent s =
      UsersHeld s.users s.schema.db
      × IsDurable rocks codecs.instance_codec s.instances s.schema.db
      × IsSound s.instances
      × WellFormed rocks codecs.schema_codecs s.schema
      × IsOrdered versions rocks codecs.config_codec (config_manager versions rocks codecs s)
      × AllParse s.schema.db

  AllParse-after :
      (p : ℕ) (db db' : rocks.Db)
      → Writes rocks p (ParsesAt codecs p) db db'
      → AllParse db
      → AllParse db'
  AllParse-after p db db' w h q = elim (Bool-cases (q == p)) [
    | inl e ↦
        subst (λ r. AllFit rocks r (ParsesAt codecs r) db') (sym ((nat_beq_iff q p).1 e))
          (Writes-AllFit rocks p (ParsesAt codecs p) db db' w (h p))
    | inr e ↦ Writes-AllFit-other rocks p (ParsesAt codecs p) q (ParsesAt codecs q) db db' w e (h q)
  ]

  UsersHeld-frame :
      (users : Map Bytes UserPrivilege) (p : ℕ) (db db' : rocks.Db)
      → Writes rocks p (ParsesAt codecs p) db db'
      → (2 == p) ≡ false
      → UsersHeld users db
      → UsersHeld users db'
  UsersHeld-frame users p db db' w other h j =
      subst (λ o. Agree codecs.user_codec o (find users j))
        (sym (Writes-get rocks p (ParsesAt codecs p) 2 j db db' w other)) (h j)

  IsDurable-frame :
      (registry : Registry) (p : ℕ) (db db' : rocks.Db)
      → Writes rocks p (ParsesAt codecs p) db db'
      → (3 == p) ≡ false
      → IsDurable rocks codecs.instance_codec registry db
      → IsDurable rocks codecs.instance_codec registry db'
  IsDurable-frame registry p db db' w other h = (
    λ j.
        subst (λ o. Agree codecs.instance_codec o (find registry.instance_info j))
          (sym (Writes-get rocks p (ParsesAt codecs p) 3 (3 ∷ j) db db' w other)) (h.0 j),
    h.1,
  )

  pub after_users :
      (op : OpType) (s : DiscoveryState versions rocks codecs) (q : ManagerRequest) (d : Done)
      → let r =
          apply_user_privilege rocks codecs.user_codec
            (ids_of s.schema)
            op
            (privilege_manager versions rocks codecs s)
            q
            d in
        Writes rocks 2 (ParsesAt codecs 2) s.schema.db r.0.db
        → IsConsistent s
        → IsConsistent (on_users versions rocks codecs s r).0
  after_users op s q d w h =
      let m = privilege_manager versions rocks codecs s in
      let r = apply_user_privilege rocks codecs.user_codec (ids_of s.schema) op m q d in
      (
        apply_user_privilege-IsDurable rocks codecs.user_codec (ids_of s.schema) op m q d h.0,
        IsDurable-frame s.instances 2 s.schema.db r.0.db w refl h.1,
        h.2,
        h.3,
        h.4,
        AllParse-after 2 s.schema.db r.0.db w h.5,
      )

  pub after_schema :
      (op : OpType) (s : DiscoveryState versions rocks codecs) (q : ManagerRequest) (d : Done)
      → let r = apply_schema rocks codecs.schema_codecs op s.schema q d in
        Writes rocks 1 (ParsesAt codecs 1) s.schema.db r.0.db
        → IsConsistent s
        → IsConsistent (on_schema versions rocks codecs s r).0
  after_schema op s q d w h =
      let r = apply_schema rocks codecs.schema_codecs op s.schema q d in
      (
        UsersHeld-frame s.users 1 s.schema.db r.0.db w refl h.0,
        IsDurable-frame s.instances 1 s.schema.db r.0.db w refl h.1,
        h.2,
        apply_schema-WellFormed rocks codecs.schema_codecs op s.schema q d h.3,
        h.4,
        AllParse-after 1 s.schema.db r.0.db w h.5,
      )

  pub after_configs :
      (op : OpType) (s : DiscoveryState versions rocks codecs) (q : ManagerRequest) (d : Done)
      → let r =
          apply_config versions rocks codecs.config_codec op
            (config_manager versions rocks codecs s)
            q
            d in
        Writes rocks 4 (ParsesAt codecs 4) s.schema.db r.0.db
        → IsConsistent s
        → IsConsistent (on_configs versions rocks codecs s r).0
  after_configs op s q d w h =
      let m = config_manager versions rocks codecs s in
      let r = apply_config versions rocks codecs.config_codec op m q d in
      (
        UsersHeld-frame s.users 4 s.schema.db r.0.db w refl h.0,
        IsDurable-frame s.instances 4 s.schema.db r.0.db w refl h.1,
        h.2,
        h.3,
        apply_config-IsOrdered versions rocks codecs.config_codec op m q d h.4,
        AllParse-after 4 s.schema.db r.0.db w h.5,
      )

  pub after_instances :
      (op : OpType) (s : DiscoveryState versions rocks codecs) (q : ManagerRequest) (now : ℕ)
      (d : Done)
      → let r =
          apply_instance rocks codecs.instance_codec
            (ids_of s.schema)
            op
            (instance_manager versions rocks codecs s)
            q
            now
            d in
        Writes rocks 3 (ParsesAt codecs 3) s.schema.db r.0.db
        → IsConsistent s
        → IsConsistent (on_instances versions rocks codecs s r).0
  after_instances op s q now d w h =
      let m = instance_manager versions rocks codecs s in
      let ids = ids_of s.schema in
      let r = apply_instance rocks codecs.instance_codec ids op m q now d in
      (
        UsersHeld-frame s.users 3 s.schema.db r.0.db w refl h.0,
        apply_instance-IsDurable rocks codecs.instance_codec ids op m q now d h.1,
        apply_instance-IsSound rocks codecs.instance_codec ids op m q now d h.2,
        h.3,
        h.4,
        AllParse-after 3 s.schema.db r.0.db w h.5,
      )
