-- ===== src/Discovery/ServletEffects.antt =====
-- ServletManager: the effect of each operation.
use ea.Common.{◌+◌, refl, inl, inr, ◌==◌, nat_eq, Bool-cases, Option-cases}
use ea.Common.Bytes.{bytes_eq}
use ea.Common.Maps.{find, has}
use ea.Api.{ManagerRequest}
use ea.Api.Absent.{no_servlet_info}
use ea.Base.{Done}
use ea.Rocks.{
  Rocks, put_discovery_info, put_discovery_infos, remove_discovery_info, same_size, puts, deletes,
}
use ea.Schema.State.{
  SchemaState, Codecs, value_at, id_or_zero, construct_servlet_key, construct_max_servlet_id_key,
}
use ea.Schema.Namespaces.{or_kept}
use ea.Schema.Servlets.{
  servlet_of, servlet_zone_name, servlet_name_of, inherit_tag, create_servlet, drop_servlet,
  modify_servlet,
}
use ea.Schema.Reload.{starts_with}
use ea.Discovery.Readable.{SchemaParses, serialized}
use ea.Discovery.Effects.{Effect}
use ea.Discovery.SchemaEffects.{ends, bad_input, no_text, commit-Effect}

module _ (rocks : Rocks) (codecs : Codecs) where
  pub create_servlet-Effect :
      (s : SchemaState rocks) (request : ManagerRequest) (d : Done)
      → Effect rocks 1
          (SchemaParses codecs)
          s.db
          d
          (ends rocks codecs (create_servlet rocks codecs s request d))
  unfolding create_servlet starts_with put_discovery_infos same_size puts construct_servlet_key
      construct_max_servlet_id_key
  create_servlet-Effect s request d =
      let asked = servlet_of request in
      let namespace_id = id_or_zero s.namespaces.namespace_id_map asked.namespace_name in
      let zone_id = id_or_zero s.zones.zone_id_map (servlet_zone_name asked) in
      let info = record (inherit_tag asked (find s.namespaces.namespace_info_map namespace_id)) {
        servlet_id = s.servlets.max_servlet_id + 1;
        zone_id = zone_id;
        namespace_id = namespace_id;
        version = 1;
      } in
      elim (Bool-cases (namespace_id == 0)) [
        | inl e ↦ rw (create_servlet, e) (bad_input rocks codecs s d "namespace not exist")
        | inr e ↦ elim (Bool-cases (zone_id == 0)) [
          | inl f ↦ rw (create_servlet, e, f) (bad_input rocks codecs s d "zone not exist")
          | inr f ↦ elim (Bool-cases (has s.servlets.servlet_id_map (servlet_name_of asked))) [
            | inl g ↦
                rw (create_servlet, e, f, g) (bad_input rocks codecs s d "servlet already exist")
            | inr g ↦ elim (Option-cases (codecs.servlet_codec.serialize info)) [
              | inl h ↦ rw (create_servlet, e, f, g, h) (no_text rocks codecs s d)
              | inr (value, h) ↦
                  rw (create_servlet, e, f, g, h)
                    (commit-Effect rocks codecs s _ _ d
                      (refl, serialized codecs.servlet_codec info value h, (refl, refl, tt))
                      (λ db. refl))
            ]
          ]
        ]
      ]

  pub drop_servlet-Effect :
      (s : SchemaState rocks) (request : ManagerRequest) (d : Done)
      → Effect rocks 1
          (SchemaParses codecs)
          s.db
          d
          (ends rocks codecs (drop_servlet rocks codecs s request d))
  unfolding drop_servlet remove_discovery_info deletes construct_servlet_key
  drop_servlet-Effect s request d =
      let asked = servlet_of request in
      let namespace_id = id_or_zero s.namespaces.namespace_id_map asked.namespace_name in
      let zone_id = id_or_zero s.zones.zone_id_map (servlet_zone_name asked) in
      elim (Bool-cases (namespace_id == 0)) [
        | inl e ↦ rw (drop_servlet, e) (bad_input rocks codecs s d "namespace not exist")
        | inr e ↦ elim (Bool-cases (zone_id == 0)) [
          | inl f ↦ rw (drop_servlet, e, f) (bad_input rocks codecs s d "namespace not exist")
          | inr f ↦ elim (Bool-cases (has s.servlets.servlet_id_map (servlet_zone_name asked))) [
            | inr g ↦ rw (drop_servlet, e, f, g) (bad_input rocks codecs s d "zone not exist")
            | inl g ↦
                rw (drop_servlet, e, f, g)
                  (commit-Effect rocks codecs _ _ _ d (refl, tt) (λ db. refl))
          ]
        ]
      ]

  pub modify_servlet-Effect :
      (s : SchemaState rocks) (request : ManagerRequest) (d : Done)
      → Effect rocks 1
          (SchemaParses codecs)
          s.db
          d
          (ends rocks codecs (modify_servlet rocks codecs s request d))
  unfolding modify_servlet starts_with put_discovery_info construct_servlet_key
  modify_servlet-Effect s request d =
      let asked = servlet_of request in
      let namespace_id = id_or_zero s.namespaces.namespace_id_map asked.namespace_name in
      let zone_id = id_or_zero s.zones.zone_id_map (servlet_zone_name asked) in
      let old = value_at s.servlets.servlet_info_map zone_id no_servlet_info in
      let info = record old {
        version = old.version + 1;
        resource_tag = or_kept asked.resource_tag old.resource_tag;
      } in
      elim (Bool-cases (namespace_id == 0)) [
        | inl e ↦ rw (modify_servlet, e) (bad_input rocks codecs s d "namespace not exist")
        | inr e ↦ elim (Bool-cases (zone_id == 0)) [
          | inl f ↦ rw (modify_servlet, e, f) (bad_input rocks codecs s d "namespace not exist")
          | inr f ↦ elim (Option-cases (find s.servlets.servlet_id_map (servlet_name_of asked))) [
            | inl g ↦ rw (modify_servlet, e, f, g) (bad_input rocks codecs s d "zone not exist")
            | inr (id, g) ↦ elim (Option-cases (codecs.servlet_codec.serialize info)) [
              | inl h ↦ rw (modify_servlet, e, f, g, h) (no_text rocks codecs s d)
              | inr (value, h) ↦
                  rw (modify_servlet, e, f, g, h)
                    (commit-Effect rocks codecs _ _ _ d
                      (refl, serialized codecs.servlet_codec info value h, tt) (λ db. refl))
            ]
          ]
        ]
      ]
