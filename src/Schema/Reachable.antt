-- ===== src/Schema/Reachable.antt =====
-- The operations on zones and servlets, and whole logs, keep the zones in order.
use ea.Common.{
  ℕ, ◌≡◌, ◌∙◌, ◌≤◌, ◌+◌, sym, ap, subst, inl, inr, some, List, [], ◌∷◌, ◌==◌, nat_eq, arith,
  Bool-cases, Option-cases,
}
use mathlib.Core.Option.{some-injective}
use ea.Common.Bytes.{bytes_eq}
use ea.Common.Maps.{Map, find, has}
use ea.Common.Sets.{is_empty}
use ea.Common.Words.{int64_bytes}
use ea.Api.{ManagerRequest, ZoneInfo}
use ea.Api.Absent.{no_zone_info}
use ea.Base.{Done}
use ea.Rocks.{Rocks, put_discovery_info, put_discovery_infos, remove_discovery_info}
use ea.Schema.State.{
  ZoneManager, value_at-found, touch-found, set_zone_info, SchemaState, Codecs, value_at, touch,
  add_id, delete_id, id_or_zero, construct_zone_key, construct_max_zone_id_key,
}
use ea.Schema.Zones.{
  zone_of, zone_name_of, inherit, modified_zone, create_zone, drop_zone, modify_zone,
}
use ea.Schema.Index.{
  IsZoned, IsFiled, IsFiled-new, IsFiled-add, IsFiled-delete, reservlet, set_zone_info-IsZoned,
  erase_zone_info-IsZoned,
}
use ea.Schema.WellFormed.{WellFormed, commit-holds}

too_high : {n : ℕ} → n + 1 ≤ n → ⊥
too_high h = omega (arith, h)

modified-IsZoned :
    (m : ZoneManager) (zone_ids : Map ℕ (List ℕ)) (zoned : IsZoned m zone_ids) (id : ℕ)
    (old request : ZoneInfo)
    → find m.zone_info_map id ≡ some old
    → IsZoned (set_zone_info m (modified_zone request old)) zone_ids
unfolding set_zone_info modified_zone zone_name_of
modified-IsZoned m zone_ids zoned id old request g =
    let (own, bounded, filed) = zoned.stored id old g in
    set_zone_info-IsZoned m zone_ids zoned (modified_zone request old) m.max_zone_id zone_ids
      (omega arith) (subst (λ x. x ≤ m.max_zone_id) (sym own) bounded)
      (λ old' there.
        ap zone_name_of (some-injective old' old (sym there ∙ ap (find m.zone_info_map) own ∙ g)))
      (λ n z filed. filed) (subst (IsFiled zone_ids old.namespace_id) (sym own) filed)

module _ (rocks : Rocks) (codecs : Codecs) where
  pub create_zone-WellFormed :
      (s : SchemaState rocks) (request : ManagerRequest) (d : Done)
      → WellFormed rocks codecs s
      → WellFormed rocks codecs (create_zone rocks codecs s request d).0
  unfolding create_zone
  create_zone-WellFormed s request d h =
      let m = s.zones in
      let asked = zone_of request in
      let ns = id_or_zero s.namespaces.namespace_id_map asked.namespace_name in
      let id = m.max_zone_id + 1 in
      let info = record (inherit asked (find s.namespaces.namespace_info_map ns)) {
        zone_id = id;
        namespace_id = ns;
        version = 1;
      } in
      elim (Bool-cases (ns == 0)) [
        | inl e ↦ rw (create_zone, e) h
        | inr e ↦ elim (Bool-cases (has m.zone_id_map (zone_name_of asked))) [
          | inl f ↦ rw (create_zone, e, f) h
          | inr f ↦ elim (Option-cases (codecs.zone_codec.serialize info)) [
            | inl g ↦ rw (create_zone, e, f, g) h
            | inr (value, g) ↦
                rw (create_zone, e, f, g)
                  (commit-holds rocks codecs (WellFormed rocks codecs) s
                    (put_discovery_infos rocks s.db
                      (construct_zone_key id ∷ construct_max_zone_id_key ∷ [])
                      (value ∷ int64_bytes id ∷ []))
                    _ d h
                    (λ db.
                      set_zone_info-IsZoned m s.namespaces.zone_ids h info id
                        (add_id s.namespaces.zone_ids ns id) (omega arith) (omega arith)
                        (λ old k. elim (too_high (h.stored id old k).1) [ ])
                        (λ n z. IsFiled-add s.namespaces.zone_ids ns id n z)
                        (IsFiled-new s.namespaces.zone_ids ns id)))
          ]
        ]
      ]

  pub drop_zone-WellFormed :
      (s : SchemaState rocks) (request : ManagerRequest) (d : Done)
      → WellFormed rocks codecs s
      → WellFormed rocks codecs (drop_zone rocks codecs s request d).0
  unfolding drop_zone
  drop_zone-WellFormed s request d h =
      let m = s.zones in
      let zone_ids = s.namespaces.zone_ids in
      let name = zone_name_of (zone_of request) in
      let ns = id_or_zero s.namespaces.namespace_id_map (zone_of request).namespace_name in
      elim (Bool-cases (ns == 0)) [
        | inl e ↦ rw (drop_zone, e) h
        | inr e ↦ elim (Option-cases (find m.zone_id_map name)) [
          | inl f ↦ rw (drop_zone, e, f) h
          | inr (id, f) ↦
              let servlet_ids = touch m.servlet_ids id [] in
              let touched = reservlet m zone_ids servlet_ids h in
              elim (Bool-cases (is_empty (value_at m.servlet_ids id []))) [
                | inr g ↦ rw (drop_zone, e, f, g) touched
                | inl g ↦
                    rw (drop_zone, e, f, g)
                      (commit-holds rocks codecs (WellFormed rocks codecs) _
                        (remove_discovery_info rocks s.db (construct_zone_key id ∷ [])) _ d touched
                        (λ db.
                          erase_zone_info-IsZoned (record m { servlet_ids = servlet_ids }) zone_ids
                            touched name id (delete_id zone_ids ns id) f
                            (λ n z ne. IsFiled-delete zone_ids ns id n z ne)))
              ]
        ]
      ]

  pub modify_zone-WellFormed :
      (s : SchemaState rocks) (request : ManagerRequest) (d : Done)
      → WellFormed rocks codecs s
      → WellFormed rocks codecs (modify_zone rocks codecs s request d).0
  unfolding modify_zone
  modify_zone-WellFormed s request d h =
      let m = s.zones in
      let name = zone_name_of (zone_of request) in
      let ns = id_or_zero s.namespaces.namespace_id_map (zone_of request).namespace_name in
      elim (Bool-cases (ns == 0)) [
        | inl e ↦ rw (modify_zone, e) h
        | inr e ↦ elim (Option-cases (find m.zone_id_map name)) [
          | inl f ↦ rw (modify_zone, e, f) h
          | inr (id, f) ↦
              let (old, g, nm) = h.named name id f in
              let info =
                modified_zone (zone_of request) (value_at m.zone_info_map id no_zone_info) in
              let at = value_at-found m.zone_info_map id no_zone_info old g in
              let kept = touch-found m.zone_info_map id no_zone_info old g in
              elim (Option-cases (codecs.zone_codec.serialize info)) [
                | inl k ↦ rw (modify_zone, e, f, k, kept) h
                | inr (value, k) ↦
                    rw (modify_zone, e, f, k)
                      (commit-holds rocks codecs (WellFormed rocks codecs) _
                        (put_discovery_info rocks s.db (construct_zone_key id) value) _ d
                        (rw kept h)
                        (λ db.
                          rw (kept, at)
                            (modified-IsZoned m s.namespaces.zone_ids h id old (zone_of request)
                              g)))
              ]
        ]
      ]
