-- ===== src/Schema/Logs.antt =====
-- Whole logs of schema operations, and what a dropped namespace leaves.
use ea.Common.{
  ℕ, ◌≡◌, ◌∙◌, ◌+◌, sym, subst, inl, inr, none, some, List, [], ◌∷◌, ◌==◌, nat_eq, Bool-cases,
  Option-cases,
}
use ea.Common.Bytes.{bytes_eq}
use ea.Common.Maps.{find, has}
use ea.Common.Sets.{is_empty}
use ea.Api.{
  OpType, ManagerRequest, ZoneInfo, op_create_namespace, op_drop_namespace, op_modify_namespace,
  op_create_zone, op_drop_zone, op_modify_zone, op_create_servlet, op_drop_servlet,
  op_modify_servlet,
}
use ea.Api.Absent.{no_servlet_info}
use ea.Base.{Done}
use ea.Rocks.{Rocks, remove_discovery_info}
use ea.Schema.State.{
  SchemaState, Codecs, value_at, erase_namespace_info, touch, add_id, delete_id, id_or_zero,
  construct_namespace_key,
}
use ea.Schema.Namespaces.{or_kept, namespace_of, drop_namespace}
use ea.Schema.Servlets.{create_servlet, drop_servlet, modify_servlet}
use ea.Schema.Apply.{apply_schema, apply_log}
use ea.Schema.Index.{IsFiled, nothing_filed, reservlet}
use mathlib.Core.Option.{none-ne-some}
use ea.Schema.Servlets.{servlet_of, servlet_zone_name, servlet_name_of, inherit_tag}
use ea.Schema.WellFormed.{
  WellFormed, commit-holds, create_namespace-WellFormed, drop_namespace-WellFormed,
  modify_namespace-WellFormed,
}
use ea.Schema.Reachable.{create_zone-WellFormed, drop_zone-WellFormed, modify_zone-WellFormed}

module _ (rocks : Rocks) (codecs : Codecs) where
  create_servlet-WellFormed :
      (s : SchemaState rocks) (request : ManagerRequest) (d : Done)
      → WellFormed rocks codecs s
      → WellFormed rocks codecs (create_servlet rocks codecs s request d).0
  unfolding create_servlet
  create_servlet-WellFormed s request d h =
      let m = s.servlets in
      let asked = servlet_of request in
      let ns = id_or_zero s.namespaces.namespace_id_map asked.namespace_name in
      let zone_id = id_or_zero s.zones.zone_id_map (servlet_zone_name asked) in
      let id = m.max_servlet_id + 1 in
      let info = record (inherit_tag asked (find s.namespaces.namespace_info_map ns)) {
        servlet_id = id;
        zone_id = zone_id;
        namespace_id = ns;
        version = 1;
      } in
      elim (Bool-cases (ns == 0)) [
        | inl e ↦ rw (create_servlet, e) h
        | inr e ↦ elim (Bool-cases (zone_id == 0)) [
          | inl f ↦ rw (create_servlet, e, f) h
          | inr f ↦ elim (Bool-cases (has m.servlet_id_map (servlet_name_of asked))) [
            | inl k ↦ rw (create_servlet, e, f, k) h
            | inr k ↦ elim (Option-cases (codecs.servlet_codec.serialize info)) [
              | inl g ↦ rw (create_servlet, e, f, k, g) h
              | inr (value, g) ↦
                  rw (create_servlet, e, f, k, g)
                    (commit-holds rocks codecs (WellFormed rocks codecs) s _ _ d h (λ db.
                      reservlet s.zones s.namespaces.zone_ids (add_id s.zones.servlet_ids ns id) h))
            ]
          ]
        ]
      ]

  drop_servlet-WellFormed :
      (s : SchemaState rocks) (request : ManagerRequest) (d : Done)
      → WellFormed rocks codecs s
      → WellFormed rocks codecs (drop_servlet rocks codecs s request d).0
  unfolding drop_servlet
  drop_servlet-WellFormed s request d h =
      let asked = servlet_of request in
      let ns = id_or_zero s.namespaces.namespace_id_map asked.namespace_name in
      let zone_id = id_or_zero s.zones.zone_id_map (servlet_zone_name asked) in
      elim (Bool-cases (ns == 0)) [
        | inl e ↦ rw (drop_servlet, e) h
        | inr e ↦ elim (Bool-cases (zone_id == 0)) [
          | inl f ↦ rw (drop_servlet, e, f) h
          | inr f ↦ elim (Bool-cases (has s.servlets.servlet_id_map (servlet_zone_name asked))) [
            | inr k ↦ rw (drop_servlet, e, f, k) h
            | inl k ↦
                rw (drop_servlet, e, f, k)
                  (commit-holds rocks codecs (WellFormed rocks codecs) _ _ _ d h (λ db.
                    reservlet s.zones s.namespaces.zone_ids
                      (delete_id s.zones.servlet_ids zone_id
                        (id_or_zero s.servlets.servlet_id_map (servlet_name_of asked)))
                      h))
          ]
        ]
      ]

  modify_servlet-WellFormed :
      (s : SchemaState rocks) (request : ManagerRequest) (d : Done)
      → WellFormed rocks codecs s
      → WellFormed rocks codecs (modify_servlet rocks codecs s request d).0
  unfolding modify_servlet
  modify_servlet-WellFormed s request d h =
      let asked = servlet_of request in
      let ns = id_or_zero s.namespaces.namespace_id_map asked.namespace_name in
      let zone_id = id_or_zero s.zones.zone_id_map (servlet_zone_name asked) in
      let old = value_at s.servlets.servlet_info_map zone_id no_servlet_info in
      let info = record old {
        version = old.version + 1;
        resource_tag = or_kept asked.resource_tag old.resource_tag;
      } in
      elim (Bool-cases (ns == 0)) [
        | inl e ↦ rw (modify_servlet, e) h
        | inr e ↦ elim (Bool-cases (zone_id == 0)) [
          | inl f ↦ rw (modify_servlet, e, f) h
          | inr f ↦ elim (Option-cases (find s.servlets.servlet_id_map (servlet_name_of asked))) [
            | inl k ↦ rw (modify_servlet, e, f, k) h
            | inr (id, k) ↦ elim (Option-cases (codecs.servlet_codec.serialize info)) [
              | inl g ↦ rw (modify_servlet, e, f, k, g) h
              | inr (value, g) ↦
                  rw (modify_servlet, e, f, k, g)
                    (commit-holds rocks codecs (WellFormed rocks codecs) _ _ _ d h (λ db. h))
            ]
          ]
        ]
      ]

  pub apply_schema-WellFormed :
      (op : OpType) (s : SchemaState rocks) (request : ManagerRequest) (d : Done)
      → WellFormed rocks codecs s
      → WellFormed rocks codecs (apply_schema rocks codecs op s request d).0
  unfolding apply_schema
  apply_schema-WellFormed op_create_namespace s r d h =
      create_namespace-WellFormed rocks codecs s r d h
  apply_schema-WellFormed op_drop_namespace s r d h = drop_namespace-WellFormed rocks codecs s r d h
  apply_schema-WellFormed op_modify_namespace s r d h =
      modify_namespace-WellFormed rocks codecs s r d h
  apply_schema-WellFormed op_create_zone s r d h = create_zone-WellFormed rocks codecs s r d h
  apply_schema-WellFormed op_drop_zone s r d h = drop_zone-WellFormed rocks codecs s r d h
  apply_schema-WellFormed op_modify_zone s r d h = modify_zone-WellFormed rocks codecs s r d h
  apply_schema-WellFormed op_create_servlet s r d h = create_servlet-WellFormed s r d h
  apply_schema-WellFormed op_drop_servlet s r d h = drop_servlet-WellFormed s r d h
  apply_schema-WellFormed op_modify_servlet s r d h = modify_servlet-WellFormed s r d h
  apply_schema-WellFormed _ s r d h = h

  -- After any log of schema operations, whatever their answers and whether RocksDB takes the writes, the
  -- zones are in order if they were before: a zone's name stands for the zone that has it, a zone's
  -- id is its own and no higher than the highest so far, and its namespace has it in its set.
  pub apply_log-WellFormed :
      (s : SchemaState rocks) (log : List (ManagerRequest × Done))
      → WellFormed rocks codecs s
      → WellFormed rocks codecs (apply_log rocks codecs s log)
  unfolding apply_log
  apply_log-WellFormed s [] h = h
  apply_log-WellFormed s ((request, d) ∷ log) h =
      apply_log-WellFormed (apply_schema rocks codecs request.op_type s request d).0 log
        (apply_schema-WellFormed request.op_type s request d h)

  -- drop_namespace leaves no zone behind: where a namespace's name is gone after it, no zone has the
  -- namespace's id.
  pub drop_namespace_no_orphans :
      (s : SchemaState rocks) (request : ManagerRequest) (d : Done) (id : ℕ)
      → WellFormed rocks codecs s
      → let name = (namespace_of request).namespace_name in
        let s' = (drop_namespace rocks codecs s request d).0 in
        find s.namespaces.namespace_id_map name ≡ some id
        → find s'.namespaces.namespace_id_map name ≡ none
        → (z : ℕ) (info : ZoneInfo) → find s'.zones.zone_info_map z ≡ some info
        → ¬ (info.namespace_id ≡ id)
  unfolding drop_namespace
  drop_namespace_no_orphans s request d id h here =
      let m = s.namespaces in
      let name = (namespace_of request).namespace_name in
      let touched = record s { namespaces = record m { zone_ids = touch m.zone_ids id [] } } in
      elim (Bool-cases (is_empty (value_at m.zone_ids id []))) [
        | inr f ↦
            rw (drop_namespace, here, f)
              (λ gone z info there own. none-ne-some id (sym gone ∙ here))
        | inl f ↦
            rw (drop_namespace, here, f)
              (commit-holds rocks codecs
                (λ s'.
                  find s'.namespaces.namespace_id_map name ≡ none
                  → (z : ℕ) (info : ZoneInfo) → find s'.zones.zone_info_map z ≡ some info
                  → ¬ (info.namespace_id ≡ id))
                touched (remove_discovery_info rocks s.db (construct_namespace_key id ∷ []))
                (λ db. record s {
                  namespaces = erase_namespace_info touched.namespaces name;
                  db = db;
                })
                d (λ gone z info there own. none-ne-some id (sym gone ∙ here))
                (λ db gone z info there own.
                  nothing_filed m.zone_ids id z f
                    (subst (λ n. IsFiled m.zone_ids n z) own (h.stored z info there).2)))
      ]
