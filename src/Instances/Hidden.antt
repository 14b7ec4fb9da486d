-- ===== src/Instances/Hidden.antt =====
-- InstanceManager::remove_instance_info: what it takes from the indexes.
use ea.Common.{◌≡◌, sym, subst, ℕ, true, false, some, List, [], ◌∷◌, ◌==◌, eq_refl, arith, nat_eq}
use ea.Common.Bytes.{Bytes, bytes_eq}
use ea.Common.Maps.{Map, find, erase, find-erase}
use ea.Common.Sets.{contains}
use ea.Api.{ServletInstance, ManagerRequest}
use ea.Api.Absent.{text_of}
use ea.Base.{Done}
use ea.Rocks.{Op, Rocks, Codec, remove_discovery_info, deletes}
use ea.Schema.{SchemaIds}
use ea.Instances.{instance_of, namespace_key_of, remove_instance_info, construct_instance_key}
use ea.Instances.Index.{IsListed}
use ea.Instances.Manager.{InstanceManager, commit, drop_instance}

erased-IsListed :
    (index : Map Bytes (List Bytes)) (key k a : Bytes)
    → key ≡ k
    → IsListed (erase index key) k a
    → ⊥
unfolding contains
erased-IsListed index key k a same h =
    ground (
      arith,
      find-erase index key k,
      eq_refl k,
      subst (λ j. (j == k) ≡ true) (sym same) (eq_refl k),
    )

module _ (rocks : Rocks) (codec : Codec ServletInstance) (ids : SchemaIds) where
  -- A drop that the database takes leaves every other instance registered, but no instance of the dropped
  -- one's namespace stays in the index of the namespaces: a query by the namespace does not find it.
  pub drop_instance_hides :
      (s : InstanceManager rocks codec ids) (request : ManagerRequest) (now : ℕ) (d : Done)
      (info other : ServletInstance) (address : Bytes) (db : rocks.Db)
      → find s.registry.instance_info (text_of (instance_of request).address) ≡ some info
      → rocks.write s.db (Op.delete (3 ∷ 3 ∷ text_of (instance_of request).address) ∷ []) ≡ some db
      → find s.registry.instance_info address ≡ some other
      → (text_of (instance_of request).address == address) ≡ false
      → namespace_key_of info ≡ namespace_key_of other
      → let s' = (drop_instance rocks codec ids s request now d).0.registry in
        (find s'.instance_info address ≡ some other)
        × (IsListed s'.namespace_instance (namespace_key_of other) address → ⊥)
  unfolding drop_instance remove_discovery_info deletes construct_instance_key commit
      remove_instance_info
  drop_instance_hides s request now d info other address db there w live differs same =
      rw (there, w)
        (
          rw
              (
                find-erase s.registry.instance_info (text_of (instance_of request).address) address,
                differs,
              )
              live,
          erased-IsListed s.registry.namespace_instance (namespace_key_of info)
              (namespace_key_of other) address same,
        )
