-- ===== src/Schema/Reload/Steps.antt =====
-- SchemaManager::load_snapshot: what each step of the load keeps, the load keeps.
use ea.Common.{Option, none, some, List, [], ◌∷◌, inl, inr, subst, if_cases, Option-cases}
use ea.Common.Bytes.{Bytes}
use ea.Rocks.{Rocks}
use ea.Schema.State.{SchemaState, Codecs}
use ea.Schema.Namespaces.{load_namespace_snapshot}
use ea.Schema.Zones.{load_zone_snapshot}
use ea.Schema.Servlets.{load_servlet_snapshot}
use ea.Schema.Reload.{starts_with, load_max_id_snapshot, load_entry, load_entries}

module _ (rocks : Rocks) (codecs : Codecs) (P : SchemaState rocks → Type 0) where
  -- Where a load does not fail, its state keeps `P`.
  abbrev pub Holds : Option (SchemaState rocks) → Type 0
  Holds none = Unit
  Holds (some s) = P s

  pub record StepsKeep : Type 0 where
    pub zone :
        (s : SchemaState rocks) (value : Bytes)
        → P s
        → Holds (load_zone_snapshot rocks codecs s value)
    pub servlet :
        (s : SchemaState rocks) (value : Bytes)
        → P s
        → Holds (load_servlet_snapshot rocks codecs s value)
    pub namespace :
        (s : SchemaState rocks) (value : Bytes)
        → P s
        → Holds (load_namespace_snapshot rocks codecs s value)
    pub max_id :
        (s : SchemaState rocks) (key value : Bytes)
        → P s
        → P (load_max_id_snapshot rocks codecs s key value)

  load_entry-Holds :
      StepsKeep
      → (s : SchemaState rocks) (key value : Bytes) → P s
      → Holds (load_entry rocks codecs s key value)
  unfolding load_entry
  load_entry-Holds steps s key value h =
      if_cases Holds (starts_with (1 ∷ 9 ∷ []) key) _ _ (λ e. steps.zone s value h)
        (λ e.
          if_cases Holds (starts_with (1 ∷ 10 ∷ []) key) _ _ (λ f. steps.servlet s value h)
            (λ f.
              if_cases Holds (starts_with (1 ∷ 2 ∷ []) key) _ _ (λ g. steps.namespace s value h)
                (λ g.
                  if_cases Holds (starts_with (1 ∷ 1 ∷ []) key) _ _
                    (λ i. steps.max_id s key value h) (λ i. h))))

  pub load_entries-Holds :
      StepsKeep
      → (s : SchemaState rocks) (l : List (Bytes × Bytes)) → P s
      → Holds (load_entries rocks codecs s l)
  unfolding load_entries
  load_entries-Holds steps s [] h = h
  load_entries-Holds steps s ((key, value) ∷ l) h =
      elim (Option-cases (load_entry rocks codecs s key value)) [
        | inl e ↦ rw (load_entries, e) tt
        | inr (s', e) ↦
            rw (load_entries, e)
              (load_entries-Holds steps s' l (subst Holds e (load_entry-Holds steps s key value h)))
      ]
