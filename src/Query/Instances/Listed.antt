-- ===== src/Query/Instances/Listed.antt =====
-- QueryInstanceManager: what a query by the namespace finds.
use ea.Common.{◌≡◌, refl, true, false, some, List, [], ◌∷◌, ◌++◌, arith, eq_refl}
use ea.Common.Bytes.{Bytes, bytes_eq}
use ea.Common.Maps.{Map, find}
use ea.Common.Sets.{contains}
use ea.Api.{ErrCode, ServletInstance}
use ea.Api.Absent.{text_of, no_instance_info}
use ea.Schema.State.{touch}
use ea.Instances.{Registry, namespace_key_of}
use ea.Instances.Sound.{IsSound}
use ea.Query.{QueryRequest, QueryResponse, QueryInstance, Text, answer}
use ea.Query.Instances.{
  read_all, flatten_set, is_unset, query_instance_flatten, instance_info_to_query,
}

-- Each of the instances that are given out is a registered one with the key.
abbrev pub AreLive :
    (ServletInstance → Bytes) → Map Bytes ServletInstance → Bytes → List QueryInstance → Type 0
AreLive key_of infos key [] = Unit
AreLive key_of infos key (q ∷ l) =
    ((address : Bytes) × (info : ServletInstance) × (find infos address ≡ some info)
      × (key_of info ≡ key)
      × (q ≡ instance_info_to_query info))
    × AreLive key_of infos key l

touched :
    (infos : Map Bytes ServletInstance) (a : Bytes) (i : ServletInstance)
    → find infos a ≡ some i
    → touch infos a no_instance_info ≡ infos
unfolding touch
touched infos a i e = rw (touch, e) refl

module _ (key_of : ServletInstance → Bytes) (infos : Map Bytes ServletInstance) (key : Bytes) where
  -- Every address is that of a registered instance with the key.
  abbrev pub Live : List Bytes → Type 0
  Live l =
      (a : Bytes)
      → contains l a ≡ true
      → (info : ServletInstance) × (find infos a ≡ some info) × (key_of info ≡ key)

  pub read_all-AreLive :
      (l : List Bytes)
      → Live l
      → ((read_all infos l).0 ≡ infos) × AreLive key_of infos key (read_all infos l).1
  unfolding read_all contains
  read_all-AreLive [] h = (refl, tt)
  read_all-AreLive (a ∷ l) h =
      let (info, e, k) = h a (ground (arith, eq_refl a)) in
      let (same, live) = read_all-AreLive l (λ b m. h b (ground (arith, m))) in
      rw (touched infos a info e) (same, ((a, info, e, k, rw e refl), live))

-- A query by a namespace that has instances leaves the registry as it is, and adds to the answer instances that
-- are registered, with the namespace that was asked for: no empty one is read for an address that is
-- gone.
pub query_namespace_live :
    (m : Registry) (q : QueryRequest) (r : QueryResponse) (addresses : List Bytes)
    → IsSound m
    → is_unset q.namespace_name ≡ false
    → is_unset q.zone ≡ true
    → find m.namespace_instance (text_of q.namespace_name) ≡ some addresses
    → (added : List QueryInstance) × (query_instance_flatten m q r ≡ (
      m,
      answer
          (record r { flatten_instances = r.flatten_instances ++ added })
          ErrCode.success
          (Text.text "success"),
    ))
      × AreLive namespace_key_of m.instance_info (text_of q.namespace_name) added
unfolding query_instance_flatten flatten_set
query_namespace_live m q r addresses sound e f g =
    let (same, live) =
      read_all-AreLive namespace_key_of m.instance_info (text_of q.namespace_name) addresses
        (λ a h. sound.0 (text_of q.namespace_name) a (rw g h)) in
    ((read_all m.instance_info addresses).1, rw (query_instance_flatten, e, f, g, same) refl, live)
