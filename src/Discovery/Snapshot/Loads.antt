-- ===== src/Discovery/Snapshot/Loads.antt =====
-- The loads of the managers from a database whose values parse.
use ea.Common.{
  ℕ, ◌≡◌, refl, sym, subst, Bool, true, false, Option, none, some, List, [], ◌∷◌, inl, inr, ◌==◌,
  nat_eq, is_some, if◌then◌else◌, Bool-cases, arith, eq_refl,
}
use ea.Common.Bytes.{Bytes, bytes_eq, bytes_beq_iff}
use ea.Common.Eq.{KeyEq, nat_beq_iff}
use ea.Common.Maps.{Map, lookup_in, Unique, empty}
use ea.Api.{ConfigInfo, ServletInstance}
use ea.Rocks.{Rocks, Codec, Prefixed}
use ea.Config.{Versions, Listed, load_config_snapshot, load_configs}
use ea.Schema.{SchemaIds}
use ea.Schema.State.{SchemaState, Codecs}
use ea.Schema.Namespaces.{load_namespace_snapshot}
use ea.Schema.Zones.{load_zone_snapshot}
use ea.Schema.Servlets.{load_servlet_snapshot}
use ea.Schema.Reload.{starts_with, load_entry, load_entries, load_schema_snapshot, clear_schema}
use ea.Instances.{Registry}
use ea.Instances.Manager.{load_instance_snapshot, load_instances}
use ea.Discovery.Effects.{Fits, AllFit}
use ea.Discovery.Readable.{InstanceParses, Parses, SchemaParses}

abbrev pub Succeeds : {A : Type 0} → Option A → Type 0
Succeeds none = ⊥
Succeeds (some a) = Unit

pub succeeded : {A : Type 0} (o : Option A) → Succeeds o → (a : A) × (o ≡ some a)
succeeded none h = elim h [ ]
succeeded (some a) h = (a, refl)

pub no_proof : false ≡ true → ⊥
no_proof h = ground (arith, h)

there : {A : Type 0} (o : Option A) → is_some o ≡ true → (a : A) × (o ≡ some a)
there none h = elim (no_proof h) [ ]
there (some a) h = (a, refl)

-- Every entry fits `R`.
abbrev pub EntriesFit : (Bytes → Bytes → Type 0) → List (Bytes × Bytes) → Type 0
EntriesFit R [] = Unit
EntriesFit R ((k, v) ∷ l) = R k v × EntriesFit R l

abbrev FitsUnder : ℕ → (Bytes → Bytes → Type 0) → List (Bytes × Bytes) → Type 0
FitsUnder p R l = (k : Bytes) → Fits R (p ∷ k) (lookup_in (p ∷ k) l)

rest_fits :
    (p : ℕ) (R : Bytes → Bytes → Type 0) (k v : Bytes) (l : List (Bytes × Bytes))
    → lookup_in (p ∷ k) l ≡ none
    → FitsUnder p R ((p ∷ k, v) ∷ l)
    → FitsUnder p R l
unfolding lookup_in
rest_fits p R k v l fresh h j = elim (Bool-cases (p ∷ k == p ∷ j)) [
  | inl e ↦
      subst (Fits R (p ∷ j))
        (sym (subst (λ i. lookup_in i l ≡ none) ((bytes_beq_iff (p ∷ k) (p ∷ j)).1 e) fresh)) tt
  | inr e ↦ subst (λ b. Fits R (p ∷ j) (if b then some v else lookup_in (p ∷ j) l)) e (h j)
]

first_fits :
    (p : ℕ) (R : Bytes → Bytes → Type 0) (k v : Bytes) (l : List (Bytes × Bytes))
    → FitsUnder p R ((p ∷ k, v) ∷ l)
    → R (p ∷ k) v
unfolding lookup_in
first_fits p R k v l h =
    subst (λ b. Fits R (p ∷ k) (if b then some v else lookup_in (p ∷ k) l)) (eq_refl (p ∷ k)) (h k)

entries_fit :
    (p : ℕ) (R : Bytes → Bytes → Type 0) (l : List (Bytes × Bytes))
    → Prefixed p l
    → Unique l
    → FitsUnder p R l
    → EntriesFit R l
entries_fit p R [] q u h = tt
entries_fit p R (([], v) ∷ l) q u h = elim (no_proof q.0) [ ]
entries_fit p R ((b ∷ k, v) ∷ l) q u h =
    subst
      (λ c.
        Unique ((c ∷ k, v) ∷ l) → FitsUnder p R ((c ∷ k, v) ∷ l) → EntriesFit R ((c ∷ k, v) ∷ l))
      (sym ((nat_beq_iff b p).1 q.0))
      (λ u' h'. (first_fits p R k v l h', entries_fit p R l q.1 u'.1 (rest_fits p R k v l u'.0 h')))
      u h

module _ (rocks : Rocks) where
  pub scan_fits :
      (p : ℕ) (R : Bytes → Bytes → Type 0) (db : rocks.Db)
      → AllFit rocks p R db
      → EntriesFit R (rocks.scan db p)
  scan_fits p R db h =
      entries_fit p R (rocks.scan db p) (rocks.scan-Prefixed db p) (rocks.scan-Unique db p)
        (λ k. subst (Fits R (p ∷ k)) (sym (rocks.lookup-scan db p k)) (h k))

-- The tests of load_entry, over what each branch needs.
branches_succeed :
    {A : Type 0} (b c d e x y z : Bool) (o p q r s : Option A)
    → (x ≡ true → Succeeds o)
    → (y ≡ true → Succeeds p)
    → (z ≡ true → Succeeds q)
    → Succeeds r
    → Succeeds s
    → (if b then x else if c then y else if d then z else true) ≡ true
    → Succeeds (if b then o else if c then p else if d then q else if e then r else s)
branches_succeed true c d e x y z o p q r s f g h i j k = f k
branches_succeed false true d e x y z o p q r s f g h i j k = g k
branches_succeed false false true e x y z o p q r s f g h i j k = h k
branches_succeed false false false true x y z o p q r s f g h i j k = i
branches_succeed false false false false x y z o p q r s f g h i j k = j

module _ (rocks : Rocks) (codecs : Codecs) where
  load_zone_snapshot-Succeeds :
      (s : SchemaState rocks) (value : Bytes)
      → is_some (codecs.zone_codec.parse value) ≡ true
      → Succeeds (load_zone_snapshot rocks codecs s value)
  unfolding load_zone_snapshot
  load_zone_snapshot-Succeeds s value h =
      rw (load_zone_snapshot, (there (codecs.zone_codec.parse value) h).1) tt

  load_servlet_snapshot-Succeeds :
      (s : SchemaState rocks) (value : Bytes)
      → is_some (codecs.servlet_codec.parse value) ≡ true
      → Succeeds (load_servlet_snapshot rocks codecs s value)
  unfolding load_servlet_snapshot
  load_servlet_snapshot-Succeeds s value h =
      rw (load_servlet_snapshot, (there (codecs.servlet_codec.parse value) h).1) tt

  load_namespace_snapshot-Succeeds :
      (s : SchemaState rocks) (value : Bytes)
      → is_some (codecs.namespace_codec.parse value) ≡ true
      → Succeeds (load_namespace_snapshot rocks codecs s value)
  unfolding load_namespace_snapshot
  load_namespace_snapshot-Succeeds s value h =
      rw (load_namespace_snapshot, (there (codecs.namespace_codec.parse value) h).1) tt

  load_entry-Succeeds :
      (s : SchemaState rocks) (key value : Bytes)
      → SchemaParses codecs key value
      → Succeeds (load_entry rocks codecs s key value)
  unfolding load_entry
  load_entry-Succeeds s key value h =
      branches_succeed (starts_with (1 ∷ 9 ∷ []) key) (starts_with (1 ∷ 10 ∷ []) key)
        (starts_with (1 ∷ 2 ∷ []) key) (starts_with (1 ∷ 1 ∷ []) key) _ _ _ _ _ _ _ _
        (load_zone_snapshot-Succeeds s value) (load_servlet_snapshot-Succeeds s value)
        (load_namespace_snapshot-Succeeds s value) tt tt h

  load_entries-Succeeds :
      (s : SchemaState rocks) (l : List (Bytes × Bytes))
      → EntriesFit (SchemaParses codecs) l
      → Succeeds (load_entries rocks codecs s l)
  unfolding load_entries
  load_entries-Succeeds s [] h = tt
  load_entries-Succeeds s ((k, v) ∷ l) h =
      let (s', e) = succeeded (load_entry rocks codecs s k v) (load_entry-Succeeds s k v h.0) in
      rw (load_entries, e) (load_entries-Succeeds s' l h.1)

  pub load_schema_snapshot-Succeeds :
      (s : SchemaState rocks)
      → AllFit rocks 1 (SchemaParses codecs) s.db
      → Succeeds (load_schema_snapshot rocks codecs s)
  unfolding load_schema_snapshot
  load_schema_snapshot-Succeeds s h =
      load_entries-Succeeds (clear_schema rocks codecs s) (rocks.scan s.db 1)
        (scan_fits rocks 1 (SchemaParses codecs) s.db h)

module _ {V : Type 0} ⦃keys : KeyEq V⦄ (versions : Versions V) (rocks : Rocks)
    (codec : Codec ConfigInfo) where
  load_configs-Succeeds :
      (l : List (Bytes × Bytes))
      → EntriesFit (Parses codec) l
      → (configs : Map Bytes (Listed V)) → Succeeds (load_configs versions rocks codec configs l)
  unfolding load_configs load_config_snapshot
  load_configs-Succeeds [] h configs = tt
  load_configs-Succeeds ((k, v) ∷ l) h configs =
      rw (load_configs, (there (codec.parse v) h.0).1) (load_configs-Succeeds l h.1 _)

  pub load_configs_snapshot-Succeeds :
      (db : rocks.Db)
      → AllFit rocks 4 (Parses codec) db
      → Succeeds (ea.Config.load_snapshot versions rocks codec db)
  unfolding ea.Config.load_snapshot
  load_configs_snapshot-Succeeds db h =
      load_configs-Succeeds (rocks.scan db 4) (scan_fits rocks 4 (Parses codec) db h) empty

module _ (rocks : Rocks) (codec : Codec ServletInstance) (ids : SchemaIds) where
  load_instances-Succeeds :
      (l : List (Bytes × Bytes))
      → EntriesFit (InstanceParses codec) l
      → (s : Registry) → Succeeds (load_instances rocks codec ids s l)
  unfolding load_instances load_instance_snapshot
  load_instances-Succeeds [] h s = tt
  load_instances-Succeeds ((k, v) ∷ l) h s =
      rw (load_instances, (there (codec.parse v) h.0.0).1) (load_instances-Succeeds l h.1 _)

  pub load_instances_snapshot-Succeeds :
      (db : rocks.Db)
      → AllFit rocks 3 (InstanceParses codec) db
      → Succeeds (ea.Instances.Manager.load_snapshot rocks codec ids db)
  unfolding ea.Instances.Manager.load_snapshot
  load_instances_snapshot-Succeeds db h =
      load_instances-Succeeds (rocks.scan db 3) (scan_fits rocks 3 (InstanceParses codec) db h)
        ea.Instances.Manager.clear
