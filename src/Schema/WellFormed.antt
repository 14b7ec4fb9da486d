-- ===== src/Schema/WellFormed.antt =====
-- The operations of the schema keep the zones' maps and the namespaces' sets of zone ids in order.
use ea.Common.{◌+◌, inl, inr, Option, none, some, [], ◌∷◌, nat_eq, Bool-cases, Option-cases}
use ea.Common.Bytes.{bytes_eq}
use ea.Common.Maps.{find, has, erase}
use ea.Common.Sets.{is_empty}
use ea.Common.Words.{int64_bytes}
use ea.Api.{ManagerRequest}
use ea.Api.Absent.{no_namespace_info}
use ea.Base.{Done}
use ea.Rocks.{Rocks, put_discovery_info, put_discovery_infos, remove_discovery_info}
use ea.Schema.State.{
  SchemaState, Codecs, value_at, erase_namespace_info, touch, id_or_zero, construct_namespace_key,
  construct_max_namespace_id_key,
}
use ea.Schema.Namespaces.{
  commit, namespace_of, create_namespace, drop_namespace, modify_namespace, modified_namespace,
}
use ea.Schema.Index.{IsZoned, IsFiled-touch, IsFiled-dropped, refile}

module _ (rocks : Rocks) (codecs : Codecs) where
  abbrev pub WellFormed : SchemaState rocks → Type 0
  WellFormed s = IsZoned s.zones s.namespaces.zone_ids

  -- What holds of the state and of every state that a write can lead to holds after a commit.
  pub commit-holds :
      (P : SchemaState rocks → Type 0) (s : SchemaState rocks) (o : Option rocks.Db)
      (next : rocks.Db → SchemaState rocks) (d : Done)
      → P s
      → ((db : rocks.Db) → P (next db))
      → P (commit rocks codecs s o next d).0
  unfolding commit
  commit-holds P s none next d h k = h
  commit-holds P s (some db) next d h k = k db

  pub create_namespace-WellFormed :
      (s : SchemaState rocks) (request : ManagerRequest) (d : Done)
      → WellFormed s
      → WellFormed (create_namespace rocks codecs s request d).0
  unfolding create_namespace
  create_namespace-WellFormed s request d h =
      let m = s.namespaces in
      let id = m.max_namespace_id + 1 in
      let info = record (namespace_of request) { namespace_id = id; version = 1 } in
      elim (Bool-cases (has m.namespace_id_map info.namespace_name)) [
        | inl e ↦ rw (create_namespace, e) h
        | inr e ↦ elim (Option-cases (codecs.namespace_codec.serialize info)) [
          | inl f ↦ rw (create_namespace, e, f) h
          | inr (value, f) ↦
              rw (create_namespace, e, f)
                (commit-holds WellFormed s
                  (put_discovery_infos rocks s.db
                    (construct_namespace_key id ∷ construct_max_namespace_id_key ∷ [])
                    (value ∷ int64_bytes id ∷ []))
                  _ d h (λ db. h))
        ]
      ]

  pub drop_namespace-WellFormed :
      (s : SchemaState rocks) (request : ManagerRequest) (d : Done)
      → WellFormed s
      → WellFormed (drop_namespace rocks codecs s request d).0
  unfolding drop_namespace erase_namespace_info id_or_zero
  drop_namespace-WellFormed s request d h =
      let m = s.namespaces in
      let name = (namespace_of request).namespace_name in
      elim (Option-cases (find m.namespace_id_map name)) [
        | inl e ↦ rw (drop_namespace, e) h
        | inr (id, e) ↦
            let touched =
              refile s.zones m.zone_ids (touch m.zone_ids id []) h
                (λ n z. IsFiled-touch m.zone_ids id n z) in
            elim (Bool-cases (is_empty (value_at m.zone_ids id []))) [
              | inr f ↦ rw (drop_namespace, e, f) touched
              | inl f ↦
                  rw (drop_namespace, e, f)
                    (commit-holds WellFormed _
                      (remove_discovery_info rocks s.db (construct_namespace_key id ∷ [])) _ d
                      touched
                      (λ db. rw e (
                        refile s.zones m.zone_ids (erase (touch m.zone_ids id []) id) h
                          (λ n z. IsFiled-dropped m.zone_ids id n z f))))
            ]
      ]

  pub modify_namespace-WellFormed :
      (s : SchemaState rocks) (request : ManagerRequest) (d : Done)
      → WellFormed s
      → WellFormed (modify_namespace rocks codecs s request d).0
  unfolding modify_namespace
  modify_namespace-WellFormed s request d h =
      let m = s.namespaces in
      elim (Option-cases (find m.namespace_id_map (namespace_of request).namespace_name)) [
        | inl e ↦ rw (modify_namespace, e) h
        | inr (id, e) ↦
            let info =
              modified_namespace (namespace_of request)
                (value_at m.namespace_info_map id no_namespace_info) in
            elim (Option-cases (codecs.namespace_codec.serialize info)) [
              | inl f ↦ rw (modify_namespace, e, f) h
              | inr (value, f) ↦
                  rw (modify_namespace, e, f)
                    (commit-holds WellFormed _
                      (put_discovery_info rocks s.db (construct_namespace_key id) value) _ d h
                      (λ db. h))
            ]
      ]
