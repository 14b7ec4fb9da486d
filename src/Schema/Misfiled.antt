-- ===== src/Schema/Misfiled.antt =====
-- create_servlet files the servlet under the id of its namespace, where drop_zone does not look.
use ea.Common.{
  ℕ, ◌≡◌, ◌+◌, refl, true, false, inl, inr, some, List, [], ◌∷◌, ◌==◌, nat_eq, Bool-cases,
  Option-cases,
}
use ea.Common.Bytes.{Bytes, bytes_eq}
use ea.Common.Maps.{find, has}
use ea.Common.Sets.{is_empty}
use ea.Api.{ManagerRequest}
use ea.Base.{Done}
use ea.Rocks.{Rocks, remove_discovery_info}
use ea.Schema.State.{SchemaState, Codecs, value_at, add_id, id_or_zero, construct_zone_key}
use ea.Schema.Namespaces.{commit}
use ea.Schema.Zones.{zone_of, zone_name_of, drop_zone}
use ea.Schema.Servlets.{create_servlet}
use ea.Common.{get_or}
use ea.Common.Maps.{Map, find-assign}
use ea.Common.Sets.{insert}
use ea.Base.{if_done_set_response}
use ea.Api.{ErrCode}
use ea.Schema.Servlets.{servlet_of, servlet_zone_name, servlet_name_of, inherit_tag}
use ea.Schema.WellFormed.{commit-holds}

added_elsewhere :
    (servlet_ids : Map ℕ (List ℕ)) (k id z : ℕ)
    → (k == z) ≡ false
    → value_at (add_id servlet_ids k id) z [] ≡ value_at servlet_ids z []
unfolding value_at add_id
added_elsewhere servlet_ids k id z ne =
    rw (find-assign servlet_ids k (insert (get_or (find servlet_ids k) []) id) z, ne) refl

id_or_zero-found :
    (m : Map Bytes ℕ) (name : Bytes) (id : ℕ) → find m name ≡ some id → id_or_zero m name ≡ id
unfolding id_or_zero
id_or_zero-found m name id e = rw e refl

module _ (rocks : Rocks) (codecs : Codecs) where
  -- Namespaces and zone names are as they were, and the set of the zone `z` too.
  abbrev IsUntouched : SchemaState rocks → ℕ → SchemaState rocks → Type 0
  IsUntouched s z s' =
      (s'.namespaces ≡ s.namespaces)
      × (s'.zones.zone_id_map ≡ s.zones.zone_id_map)
      × (value_at s'.zones.servlet_ids z [] ≡ value_at s.zones.servlet_ids z [])

  create_servlet-IsUntouched :
      (s : SchemaState rocks) (request : ManagerRequest) (d : Done) (z : ℕ)
      → (id_or_zero s.namespaces.namespace_id_map (servlet_of request).namespace_name == z) ≡ false
      → IsUntouched s z (create_servlet rocks codecs s request d).0
  unfolding create_servlet
  create_servlet-IsUntouched s request d z ne =
      let m = s.servlets in
      let asked = servlet_of request in
      let ns = id_or_zero s.namespaces.namespace_id_map asked.namespace_name in
      let zone_id = id_or_zero s.zones.zone_id_map (servlet_zone_name asked) in
      let id = m.max_servlet_id + 1 in
      let info = record (inherit_tag asked (find s.namespaces.namespace_info_map ns)) {
        servlet_id = id;
        zone_id = zone_id;
        namespace_id = ns;
        version = 1;
      } in
      elim (Bool-cases (ns == 0)) [
        | inl e ↦ rw (create_servlet, e) (refl, refl, refl)
        | inr e ↦ elim (Bool-cases (zone_id == 0)) [
          | inl f ↦ rw (create_servlet, e, f) (refl, refl, refl)
          | inr f ↦ elim (Bool-cases (has m.servlet_id_map (servlet_name_of asked))) [
            | inl k ↦ rw (create_servlet, e, f, k) (refl, refl, refl)
            | inr k ↦ elim (Option-cases (codecs.servlet_codec.serialize info)) [
              | inl g ↦ rw (create_servlet, e, f, k, g) (refl, refl, refl)
              | inr (value, g) ↦
                  rw (create_servlet, e, f, k, g)
                    (commit-holds rocks codecs (IsUntouched s z) s _ _ d (refl, refl, refl)
                      (λ db. (refl, refl, added_elsewhere s.zones.servlet_ids ns id z ne)))
            ]
          ]
        ]
      ]

  drop_zone_succeeds :
      (s : SchemaState rocks) (drop : ManagerRequest) (d : Done) (ns z : ℕ) (db : rocks.Db)
      → id_or_zero s.namespaces.namespace_id_map (zone_of drop).namespace_name ≡ ns
      → (ns == 0) ≡ false
      → find s.zones.zone_id_map (zone_name_of (zone_of drop)) ≡ some z
      → is_empty (value_at s.zones.servlet_ids z []) ≡ true
      → remove_discovery_info rocks s.db (construct_zone_key z ∷ []) ≡ some db
      → (drop_zone rocks codecs s drop d).1 ≡ if_done_set_response d ErrCode.success "success"
  unfolding drop_zone commit
  drop_zone_succeeds s drop d ns z db named nonzero here empty taken =
      rw (drop_zone, named, nonzero, here, empty, commit, taken) refl

  -- A zone without servlets, whose id is not that of its namespace, can be dropped right after a servlet
  -- was created in it: drop_zone answers SUCCESS as long as RocksDB takes the write. Its guard
  -- does not see the servlet, which create_servlet files under the namespace's id.
  pub drop_zone_over_servlet :
      (s : SchemaState rocks) (create drop : ManagerRequest) (d d' : Done) (ns z : ℕ)
      (db : rocks.Db)
      → let asked = servlet_of create in
        let dropped = zone_of drop in
        let s' = (create_servlet rocks codecs s create d).0 in
        dropped.namespace_name ≡ asked.namespace_name
        → find s.namespaces.namespace_id_map asked.namespace_name ≡ some ns
        → find s.zones.zone_id_map (zone_name_of dropped) ≡ some z
        → (ns == 0) ≡ false
        → (ns == z) ≡ false
        → is_empty (value_at s.zones.servlet_ids z []) ≡ true
        → remove_discovery_info rocks s'.db (construct_zone_key z ∷ []) ≡ some db
        → (drop_zone rocks codecs s' drop d').1 ≡ if_done_set_response d' ErrCode.success "success"
  drop_zone_over_servlet s create drop d d' ns z db same named here nonzero differ empty taken =
      let s' = (create_servlet rocks codecs s create d).0 in
      let asked = (servlet_of create).namespace_name in
      let ids = s.namespaces.namespace_id_map in
      let is_ns = id_or_zero-found ids asked ns named in
      let (namespaces, names, set) = create_servlet-IsUntouched s create d z (rw is_ns differ) in
      drop_zone_succeeds s' drop d' ns z db (rw (namespaces, same) is_ns) nonzero (rw names here)
        (rw set empty) taken
