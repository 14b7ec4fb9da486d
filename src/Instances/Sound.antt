-- ===== src/Instances/Sound.antt =====
-- InstanceManager: every address of an index is that of a live instance.
use ea.Common.{
  ℕ, ◌≡◌, refl, sym, subst, ◌∙◌, Option, none, some, List, [], ◌∷◌, inl, inr, Option-cases,
}
use ea.Common.Bytes.{Bytes, bytes_eq}
use ea.Common.Maps.{find, empty, find-empty}
use ea.Api.{
  ServletInstance, OpType, ManagerRequest, op_add_instance, op_drop_instance, op_update_instance,
}
use ea.Api.Absent.{text_of}
use ea.Base.{Done}
use ea.Rocks.{Rocks, Codec}
use ea.Schema.{SchemaIds}
use ea.Instances.{
  Registry, namespace_key_of, zone_key_of, servlet_key_of, set_instance_info, remove_instance_info,
  instance_of, updated_instance,
}
use ea.Instances.Index.{Keeps, Points, Lists, Points-set, Points-erase, Lists-set}
use ea.Instances.Named.{IsNamed, set_instance_info-IsNamed, remove_instance_info-IsNamed}
use ea.Instances.Outcomes.{add_instance_cases, drop_instance_cases, update_instance_cases}
use mathlib.Core.Option.{some-injective, none-ne-some}
use ea.Instances.Manager.{
  InstanceManager, add_instance, drop_instance, update_instance, apply_instance, clear,
  load_instance_snapshot, load_instances, load_snapshot,
}

-- Every listed address, in each of the three indexes, is that of a live instance with the names that it is
-- listed under.
abbrev pub IsSound : Registry → Type 0
IsSound s =
    Points namespace_key_of s.namespace_instance s.instance_info
    × Points zone_key_of s.zone_instance s.instance_info
    × Points servlet_key_of s.servlet_instance s.instance_info
    × IsNamed s

-- Every live instance is listed in each of the three indexes.
abbrev pub IsComplete : Registry → Type 0
IsComplete s =
    Lists namespace_key_of s.namespace_instance s.instance_info
    × Lists zone_key_of s.zone_instance s.instance_info
    × Lists servlet_key_of s.servlet_instance s.instance_info

-- An address that is free, or holds an instance with the same names.
abbrev KeepsNames : Option ServletInstance → ServletInstance → Type 0
KeepsNames old info =
    Keeps namespace_key_of old info × Keeps zone_key_of old info × Keeps servlet_key_of old info

set_instance_info-IsSound :
    (s : Registry) (info : ServletInstance)
    → KeepsNames (find s.instance_info (text_of info.address)) info
    → IsSound s
    → IsSound (set_instance_info s info)
unfolding set_instance_info
set_instance_info-IsSound s info k h = (
  Points-set namespace_key_of s.namespace_instance s.instance_info (text_of info.address) info k.0
      h.0,
  Points-set zone_key_of s.zone_instance s.instance_info (text_of info.address) info k.1 h.1,
  Points-set servlet_key_of s.servlet_instance s.instance_info (text_of info.address) info k.2 h.2,
  set_instance_info-IsNamed s info h.3,
)

remove_instance_info-IsSound :
    (s : Registry) (address : Bytes) (info : ServletInstance) (now : ℕ)
    → find s.instance_info address ≡ some info
    → IsSound s
    → IsSound (remove_instance_info s address now)
unfolding remove_instance_info
remove_instance_info-IsSound s address info now e h = rw e (
  Points-erase namespace_key_of s.namespace_instance s.instance_info address info e h.0,
  Points-erase zone_key_of s.zone_instance s.instance_info address info e h.1,
  Points-erase servlet_key_of s.servlet_instance s.instance_info address info e h.2,
  remove_instance_info-IsNamed s address now h.3,
)

set_instance_info-IsComplete :
    (s : Registry) (info : ServletInstance) → IsComplete s → IsComplete (set_instance_info s info)
unfolding set_instance_info
set_instance_info-IsComplete s info h = (
  Lists-set namespace_key_of s.namespace_instance s.instance_info (text_of info.address) info h.0,
  Lists-set zone_key_of s.zone_instance s.instance_info (text_of info.address) info h.1,
  Lists-set servlet_key_of s.servlet_instance s.instance_info (text_of info.address) info h.2,
)

module _ (rocks : Rocks) (codec : Codec ServletInstance) (ids : SchemaIds) where
  add_instance-IsSound :
      (s : InstanceManager rocks codec ids) (request : ManagerRequest) (now : ℕ) (d : Done)
      → IsSound s.registry
      → IsSound (add_instance rocks codec ids s request now d).0.registry
  add_instance-IsSound s request now d h =
      elim (add_instance_cases rocks codec ids s request now d) [
        | inl (code, msg, e, other) ↦ rw e h
        | inr (info, value, db, free, same, f, g, e) ↦
            rw e (set_instance_info-IsSound s.registry info (rw (same, free) (tt, tt, tt)) h)
      ]

  drop_instance-IsSound :
      (s : InstanceManager rocks codec ids) (request : ManagerRequest) (now : ℕ) (d : Done)
      → IsSound s.registry
      → IsSound (drop_instance rocks codec ids s request now d).0.registry
  drop_instance-IsSound s request now d h =
      elim (drop_instance_cases rocks codec ids s request now d) [
        | inl (code, msg, e, other) ↦ rw e h
        | inr (info, db, there, g, e) ↦ rw e (
            remove_instance_info-IsSound s.registry (text_of (instance_of request).address) info now
              there h)
      ]

  update_instance-IsSound :
      (s : InstanceManager rocks codec ids) (request : ManagerRequest) (d : Done)
      → IsSound s.registry
      → IsSound (update_instance rocks codec ids s request d).0.registry
  unfolding updated_instance namespace_key_of zone_key_of servlet_key_of
  update_instance-IsSound s request d h = elim (update_instance_cases rocks codec ids s request d) [
    | inl (code, msg, e, other) ↦ rw e h
    | inr (mem, value, db, there, f, g, e) ↦
        let same = h.3 (text_of (instance_of request).address) mem there in
        rw e (
          set_instance_info-IsSound s.registry (updated_instance (instance_of request) mem)
            (rw (same, there) (refl, refl, refl)) h)
  ]

  -- From a registry whose indexes list live instances alone, under their own names, every operation on
  -- instances leads to such a registry, whether it succeeds, is refused, or the write fails.
  pub apply_instance-IsSound :
      (op : OpType) (s : InstanceManager rocks codec ids) (request : ManagerRequest) (now : ℕ)
      (d : Done)
      → IsSound s.registry
      → IsSound (apply_instance rocks codec ids op s request now d).0.registry
  unfolding apply_instance
  apply_instance-IsSound op_add_instance s request now d h = add_instance-IsSound s request now d h
  apply_instance-IsSound op_drop_instance s request now d h =
      drop_instance-IsSound s request now d h
  apply_instance-IsSound op_update_instance s request now d h =
      update_instance-IsSound s request d h
  apply_instance-IsSound _ s request now d h = h

  load_bad :
      (s : Registry) (key value : Bytes) (l : List (Bytes × Bytes))
      → codec.parse value ≡ none
      → load_instances rocks codec ids s ((key, value) ∷ l) ≡ none
  unfolding load_instances load_instance_snapshot
  load_bad s key value l f = rw (load_instances, f) refl

  load_good :
      (s : Registry) (key value : Bytes) (info : ServletInstance) (l : List (Bytes × Bytes))
      → codec.parse value ≡ some info
      → load_instances rocks codec ids s ((key, value) ∷ l)
        ≡ load_instances rocks codec ids (set_instance_info s info) l
  unfolding load_instances load_instance_snapshot
  load_good s key value info l f = rw (load_instances, f) refl

  load_instances-IsComplete :
      (s : Registry) (l : List (Bytes × Bytes)) (loaded : Registry)
      → load_instances rocks codec ids s l ≡ some loaded
      → IsComplete s
      → IsComplete loaded
  unfolding load_instances load_instance_snapshot
  load_instances-IsComplete s [] loaded e h = subst IsComplete (some-injective s loaded e) h
  load_instances-IsComplete s ((key, value) ∷ l) loaded e h =
      elim (Option-cases (codec.parse value)) [
        | inl f ↦ elim (none-ne-some loaded (sym (load_bad s key value l f) ∙ e)) [ ]
        | inr (info, f) ↦
            load_instances-IsComplete (set_instance_info s info) l loaded
              (sym (load_good s key value info l f) ∙ e) (set_instance_info-IsComplete s info h)
      ]

  nothing_live : (k : ServletInstance → Bytes) → Lists k empty empty
  nothing_live k a i e = elim (none-ne-some i (sym (find-empty a) ∙ e)) [ ]

  -- A replica that loads a snapshot without an error has every instance that it loaded in the three indexes.
  pub load_snapshot-IsComplete :
      (db : rocks.Db) (loaded : Registry)
      → load_snapshot rocks codec ids db ≡ some loaded
      → IsComplete loaded
  unfolding load_snapshot clear
  load_snapshot-IsComplete db loaded e =
      load_instances-IsComplete clear (rocks.scan db 3) loaded e
        (nothing_live namespace_key_of, nothing_live zone_key_of, nothing_live servlet_key_of)
