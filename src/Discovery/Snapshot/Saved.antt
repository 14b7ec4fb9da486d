-- ===== src/Discovery/Snapshot/Saved.antt =====
-- DiscoveryStateMachine::save_snapshot: the file that it saves, and a database that takes it in.
use mathlib.Core.List.{append-nil, append_assoc}
use ea.Common.{
  ◌≡◌, ◌∙◌, refl, sym, subst, ap, Bool, true, false, Option, none, some, List, [], ◌∷◌, ◌++◌, ◌⊎◌,
  inl, inr, nat_eq, bytes, if◌then◌else◌, Bool-cases, Option-cases,
}
use ea.Common.Bytes.{Bytes, bytes_eq}
use ea.Common.Maps.{or_else, or_else-none}
use ea.Rocks.{Rocks}
use ea.Discovery.Snapshot.{in_range, Tables, discovery_info_file, put_entries, save_snapshot}

-- What is read after a range is removed and a file ingested.
or_else-removed :
    {A : Type 0} (b : Bool) (x y : Option A)
    → or_else x (if b then none else y) ≡ (if b then x else or_else x y)
or_else-removed true x y = or_else-none x
or_else-removed false x y = refl

module _ (rocks : Rocks) (tables : Tables rocks) where
  -- The writer has the entries `l`.
  abbrev Has : List (Bytes × Bytes) → Option tables.Writer → Type 0
  Has l none = Unit
  Has l (some w) = tables.entries w ≡ l

  put_entries-Has :
      (w : tables.Writer) (done l : List (Bytes × Bytes))
      → tables.entries w ≡ done
      → Has (done ++ l) (put_entries rocks tables w l)
  unfolding put_entries
  put_entries-Has w done [] e = e ∙ sym (append-nil done)
  put_entries-Has w done ((k, v) ∷ l) e = elim (Option-cases (tables.put w k v)) [
    | inl f ↦ rw (put_entries, f) tt
    | inr (w', f) ↦
        rw (put_entries, f)
          (subst (λ m. Has m (put_entries rocks tables w' l)) (append_assoc done ((k, v) ∷ []) l)
            (put_entries-Has w' (done ++ (k, v) ∷ []) l
              (tables.entries-put w w' k v f ∙ ap (λ m. m ++ (k, v) ∷ []) e)))
  ]

  -- A file that is saved is the one file, with the entries `l`.
  abbrev pub Saves : List (Bytes × Bytes) → Bytes ⊎ (Bytes × List (Bytes × Bytes)) → Type 0
  Saves l (inl error) = Unit
  Saves l (inr (name, file)) = (name ≡ discovery_info_file) × (file ≡ l)

  pub save_snapshot-Saves :
      (l : List (Bytes × Bytes)) (path : Bytes) → Saves l (save_snapshot rocks tables l path)
  unfolding save_snapshot
  save_snapshot-Saves l path =
      elim (Option-cases (tables.open_file (path ++ bytes "/discovery_info.sst"))) [
        | inl e ↦ rw (save_snapshot, e) tt
        | inr (w, e) ↦ elim (Option-cases (put_entries rocks tables w l)) [
          | inl f ↦ rw (save_snapshot, e, f) tt
          | inr (w', f) ↦ elim (Option-cases (tables.finish w')) [
            | inl g ↦ rw (save_snapshot, e, f, g) tt
            | inr (file, g) ↦ elim (Bool-cases (tables.add_file discovery_info_file)) [
              | inl h ↦
                  rw (save_snapshot, e, f, g, h)
                    (
                      refl,
                      tables.entries-finish w' file g
                          ∙ subst (Has l) f
                              (put_entries-Has w [] l (tables.entries-open_file _ w e)),
                    )
              | inr h ↦ rw (save_snapshot, e, f, g, h) tt
            ]
          ]
        ]
      ]

  -- The database with the file of another in place of its own range.
  pub ingested :
      (own other removed db : rocks.Db) (key : Bytes)
      → tables.remove_range own (1 ∷ []) (255 ∷ []) ≡ some removed
      → tables.ingest_external_file removed (tables.scan_all other) ≡ some db
      → rocks.get db key ≡ (
          if in_range (1 ∷ []) (255 ∷ []) key
          then rocks.get other key
          else or_else (rocks.get other key) (rocks.get own key))
  ingested own other removed db key e f =
      tables.get-ingest removed db (tables.scan_all other) key f
      ∙ rw
          (
            tables.lookup-scan_all other key,
            tables.get-remove_range own removed (1 ∷ []) (255 ∷ []) key e,
          )
          (or_else-removed (in_range (1 ∷ []) (255 ∷ []) key) (rocks.get other key)
            (rocks.get own key))
