-- ===== src/Schema/Reload/Filed.antt =====
-- SchemaManager::load_snapshot: the sets of ids that a load builds.
use ea.Common.{
  ℕ, ◌≡◌, ◌∙◌, bytes, if_cases, sym, subst, some, List, inl, inr, ◌==◌, nat_eq, Option-cases,
}
use mathlib.Core.Option.{none-ne-some}
use ea.Common.Bytes.{Bytes, bytes_eq}
use ea.Common.Maps.{Map, find, assign, find-empty, found-assign}
use ea.Api.{ZoneInfo, ServletInfo}
use ea.Rocks.{Rocks}
use ea.Schema.State.{
  SchemaState, Codecs, add_id, set_zone_info, set_servlet_info, set_namespace_info,
}
use ea.Schema.Index.{IsFiled, IsFiled-new, IsFiled-add}
use ea.Schema.Namespaces.{load_namespace_snapshot}
use ea.Schema.Zones.{load_zone_snapshot}
use ea.Schema.Servlets.{load_servlet_snapshot}
use ea.Schema.Reload.Steps.{Holds, StepsKeep, load_entries-Holds}
use ea.Schema.Reload.{without_prefix, clear_schema, load_max_id_snapshot, load_schema_snapshot}

-- What a map holds under an id is filed under the key of it.
abbrev pub AreFiled : {I : Type 0} → (I → ℕ) → Map ℕ I → Map ℕ (List ℕ) → Type 0
AreFiled {I} key_of infos sets =
    (id : ℕ) (info : I) → find infos id ≡ some info → IsFiled sets (key_of info) id

set-AreFiled :
    {I : Type 0} (key_of : I → ℕ) (infos : Map ℕ I) (sets : Map ℕ (List ℕ)) (id : ℕ) (info : I)
    → AreFiled key_of infos sets
    → AreFiled key_of (assign infos id info) (add_id sets (key_of info) id)
set-AreFiled key_of infos sets id info h j other e = elim (found-assign infos id info j other e) [
  | inl (same, same_info) ↦
      subst (λ i. IsFiled (add_id sets (key_of info) id) (key_of i) j) same_info
        (subst (λ k. IsFiled (add_id sets (key_of info) id) (key_of info) k) same
          (IsFiled-new sets (key_of info) id))
  | inr (ne, there) ↦ IsFiled-add sets (key_of info) id (key_of other) j (h j other there)
]

module _ (rocks : Rocks) (codecs : Codecs) where
  -- Every zone is in the set of its namespace, and every servlet in the set of its zone.
  abbrev pub AllFiled : SchemaState rocks → Type 0
  AllFiled s =
      AreFiled (λ (i : ZoneInfo). i.namespace_id) s.zones.zone_info_map s.namespaces.zone_ids
      × AreFiled (λ (i : ServletInfo). i.zone_id) s.servlets.servlet_info_map s.zones.servlet_ids

  load_zone_snapshot-Filed :
      (s : SchemaState rocks) (value : Bytes)
      → AllFiled s
      → Holds rocks codecs AllFiled (load_zone_snapshot rocks codecs s value)
  unfolding load_zone_snapshot set_zone_info
  load_zone_snapshot-Filed s value h = elim (Option-cases (codecs.zone_codec.parse value)) [
    | inl e ↦ rw (load_zone_snapshot, e) tt
    | inr (info, e) ↦
        rw (load_zone_snapshot, e)
          (
            set-AreFiled (λ (i : ZoneInfo). i.namespace_id) s.zones.zone_info_map
                s.namespaces.zone_ids info.zone_id info h.0,
            h.1,
          )
  ]

  load_servlet_snapshot-Filed :
      (s : SchemaState rocks) (value : Bytes)
      → AllFiled s
      → Holds rocks codecs AllFiled (load_servlet_snapshot rocks codecs s value)
  unfolding load_servlet_snapshot set_servlet_info
  load_servlet_snapshot-Filed s value h = elim (Option-cases (codecs.servlet_codec.parse value)) [
    | inl e ↦ rw (load_servlet_snapshot, e) tt
    | inr (info, e) ↦
        rw (load_servlet_snapshot, e)
          (
            h.0,
            set-AreFiled (λ (i : ServletInfo). i.zone_id) s.servlets.servlet_info_map
                s.zones.servlet_ids info.servlet_id info h.1,
          )
  ]

  load_namespace_snapshot-Filed :
      (s : SchemaState rocks) (value : Bytes)
      → AllFiled s
      → Holds rocks codecs AllFiled (load_namespace_snapshot rocks codecs s value)
  unfolding load_namespace_snapshot set_namespace_info
  load_namespace_snapshot-Filed s value h =
      elim (Option-cases (codecs.namespace_codec.parse value)) [
        | inl e ↦ rw (load_namespace_snapshot, e) tt
        | inr (info, e) ↦ rw (load_namespace_snapshot, e) h
      ]

  load_max_id_snapshot-AllFiled :
      (s : SchemaState rocks) (key value : Bytes)
      → AllFiled s
      → AllFiled (load_max_id_snapshot rocks codecs s key value)
  unfolding load_max_id_snapshot
  load_max_id_snapshot-AllFiled s key value h =
      let max_key = without_prefix key in
      if_cases AllFiled (max_key == bytes "max_namespace_id") _ _ (λ e. h)
        (λ e.
          if_cases AllFiled (max_key == bytes "max_zone_id") _ _ (λ f. h)
            (λ f. if_cases AllFiled (max_key == bytes "max_servlet_id") _ _ (λ g. h) (λ g. h)))

  filed_steps : StepsKeep rocks codecs AllFiled
  filed_steps = record {
    zone = load_zone_snapshot-Filed;
    servlet = load_servlet_snapshot-Filed;
    namespace = load_namespace_snapshot-Filed;
    max_id = load_max_id_snapshot-AllFiled;
  }

  clear_schema-AllFiled : (s : SchemaState rocks) → AllFiled (clear_schema rocks codecs s)
  unfolding clear_schema
  clear_schema-AllFiled s = (
    λ id info e. elim (none-ne-some info (sym (find-empty id) ∙ e)) [ ],
    λ id info e. elim (none-ne-some info (sym (find-empty id) ∙ e)) [ ],
  )

  -- After load_snapshot, whatever the managers had before, every zone in memory is in the set of its
  -- namespace and every servlet is in the set of its zone, in whatever order the database gives the entries.
  pub load_schema_snapshot-AllFiled :
      (s s' : SchemaState rocks) → load_schema_snapshot rocks codecs s ≡ some s' → AllFiled s'
  unfolding load_schema_snapshot
  load_schema_snapshot-AllFiled s s' e = subst (Holds rocks codecs AllFiled) e (
      load_entries-Holds rocks codecs AllFiled filed_steps (clear_schema rocks codecs s)
        (rocks.scan s.db 1) (clear_schema-AllFiled s))
