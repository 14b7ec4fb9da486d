-- ===== src/Discovery/Snapshot/Registered.antt =====
-- InstanceManager::load_snapshot: the instances that a load registers.
use ea.Common.{
  ◌≡◌, ◌∙◌, refl, sym, subst, ap, true, Option, none, some, List, [], ◌∷◌, inl, inr, ◌==◌, nat_eq,
  Bool-cases, Option-cases, arith,
}
use ea.Common.Bytes.{Bytes, bytes_eq, bytes_beq_iff}
use ea.Common.Eq.{nat_beq_iff}
use ea.Common.Maps.{find, find-assign, find-empty, lookup_in, Unique, or_else, or_else-none}
use ea.Api.{ServletInstance}
use ea.Api.Absent.{text_of}
use ea.Rocks.{Rocks, Codec}
use ea.Rocks.Agree.{Agree}
use ea.Schema.{SchemaIds}
use ea.Schema.Reload.{starts_with}
use ea.Instances.{Registry, set_instance_info}
use ea.Instances.Durable.{IsDurable}
use ea.Instances.Manager.{load_instance_snapshot, load_instances, load_snapshot, clear}
use ea.Discovery.Effects.{Fits, AllFit}
use ea.Discovery.Readable.{InstanceParses}
use ea.Discovery.Snapshot.Loads.{EntriesFit, scan_fits, no_proof}

module _ (rocks : Rocks) (codec : Codec ServletInstance) (ids : SchemaIds) where
  -- The value is an instance, under the key of its address.
  abbrev IsEntry : Bytes → Bytes → Type 0
  IsEntry key value =
      (i : ServletInstance) × (codec.parse value ≡ some i) × (key ≡ 3 ∷ 3 ∷ text_of i.address)

  abbrev parsed : Option Bytes → Option ServletInstance
  parsed none = none
  parsed (some value) = codec.parse value

  -- A load that succeeds finds `f`.
  abbrev Finds : (Bytes → Option ServletInstance) → Option Registry → Type 0
  Finds f none = Unit
  Finds f (some s) = (a : Bytes) → find s.instance_info a ≡ f a

  Finds-same :
      (f g : Bytes → Option ServletInstance) (o : Option Registry)
      → ((a : Bytes) → f a ≡ g a)
      → Finds f o
      → Finds g o
  Finds-same f g none e h = tt
  Finds-same f g (some s) e h = λ a. h a ∙ e a

  -- The first entry, and then the others over it.
  registered :
      (i : ServletInstance) (value : Bytes) (l : List (Bytes × Bytes)) (s : Registry) (a : Bytes)
      → codec.parse value ≡ some i
      → lookup_in (3 ∷ 3 ∷ text_of i.address) l ≡ none
      → or_else (parsed (lookup_in (3 ∷ 3 ∷ a) l)) (find (set_instance_info s i).instance_info a)
        ≡ or_else
            (parsed (lookup_in (3 ∷ 3 ∷ a) ((3 ∷ 3 ∷ text_of i.address, value) ∷ l)))
            (find s.instance_info a)
  unfolding set_instance_info lookup_in
  registered i value l s a e fresh = elim (Bool-cases (text_of i.address == a)) [
    | inl same ↦
        let fresh' : lookup_in (3 ∷ 3 ∷ a) l ≡ none =
          subst (λ b. lookup_in (3 ∷ 3 ∷ b) l ≡ none) ((bytes_beq_iff (text_of i.address) a).1 same)
            fresh in
        rw (find-assign s.instance_info (text_of i.address) i a, same, fresh', e) refl
    | inr other ↦ rw (find-assign s.instance_info (text_of i.address) i a, other) refl
  ]

  load_instances-Finds :
      (l : List (Bytes × Bytes))
      → EntriesFit IsEntry l
      → Unique l
      → (s : Registry)
      → Finds
          (λ a. or_else (parsed (lookup_in (3 ∷ 3 ∷ a) l)) (find s.instance_info a))
          (load_instances rocks codec ids s l)
  unfolding load_instances load_instance_snapshot lookup_in
  load_instances-Finds [] h u s = λ a. refl
  load_instances-Finds ((k, v) ∷ l) h u s =
      let (i, e, named) = h.0 in
      rw (load_instances, e)
        (subst
          (λ key.
            Finds
              (λ a.
                or_else (parsed (lookup_in (3 ∷ 3 ∷ a) ((key, v) ∷ l))) (find s.instance_info a))
              (load_instances rocks codec ids (set_instance_info s i) l))
          (sym named)
          (Finds-same _ _ _
            (λ a. registered i v l s a e (subst (λ key. lookup_in key l ≡ none) named u.0))
            (load_instances-Finds l h.1 u.1 (set_instance_info s i))))

  agreed :
      (value : Bytes) (o : Option ServletInstance)
      → Agree codec (some value) o
      → (i : ServletInstance) × (o ≡ some i) × (codec.parse value ≡ some i)
  agreed value none h = elim h [ ]
  agreed value (some i) h = (i, refl, h)

  parsed-agreed :
      (value : Option Bytes) (o : Option ServletInstance) → Agree codec value o → parsed value ≡ o
  parsed-agreed none none h = refl
  parsed-agreed none (some i) h = elim h [ ]
  parsed-agreed (some value) none h = elim h [ ]
  parsed-agreed (some value) (some i) h = h

  entry :
      (s : Registry) (db : rocks.Db) (k value : Bytes)
      → IsDurable rocks codec s db
      → rocks.get db (3 ∷ k) ≡ some value
      → starts_with (3 ∷ 3 ∷ []) (3 ∷ k) ≡ true
      → IsEntry (3 ∷ k) value
  unfolding starts_with
  entry s db [] value d e h = elim (no_proof h) [ ]
  entry s db (b ∷ k) value d e h =
      let three : 3 ≡ b = ground (arith, h, nat_beq_iff 3 b) in
      let (i, there, e') = agreed value (find s.instance_info k) (
        subst (λ o. Agree codec o (find s.instance_info k))
          (subst (λ c. rocks.get db (3 ∷ c ∷ k) ≡ some value) (sym three) e) (d.0 k)) in
      (
        i,
        e',
        subst (λ c. (3 ∷ c ∷ k) ≡ (3 ∷ 3 ∷ text_of i.address)) three
            (ap (λ a. 3 ∷ 3 ∷ a) (sym (d.1 k i there))),
      )

  entries :
      (s : Registry) (db : rocks.Db)
      → IsDurable rocks codec s db
      → AllFit rocks 3 (InstanceParses codec) db
      → AllFit rocks 3 IsEntry db
  entries s db d h k = elim (Option-cases (rocks.get db (3 ∷ k))) [
    | inl e ↦ rw e tt
    | inr (value, e) ↦
        rw e (entry s db k value d e (subst (Fits (InstanceParses codec) (3 ∷ k)) e (h k)).1)
  ]

  -- A load from a database that agreed with the instances in memory finds those.
  pub load_instances_recovers :
      (s r : Registry) (db : rocks.Db)
      → IsDurable rocks codec s db
      → AllFit rocks 3 (InstanceParses codec) db
      → load_snapshot rocks codec ids db ≡ some r
      → (a : Bytes) → find r.instance_info a ≡ find s.instance_info a
  unfolding load_snapshot clear
  load_instances_recovers s r db d h e a =
      let found =
        subst
          (Finds (λ b.
            or_else (parsed (lookup_in (3 ∷ 3 ∷ b) (rocks.scan db 3)))
              (find clear.instance_info b)))
          e
          (load_instances-Finds (rocks.scan db 3) (scan_fits rocks 3 IsEntry db (entries s db d h))
            (rocks.scan-Unique db 3) clear) in
      found a
      ∙ ap (or_else (parsed (lookup_in (3 ∷ 3 ∷ a) (rocks.scan db 3)))) (find-empty a)
      ∙ or_else-none (parsed (lookup_in (3 ∷ 3 ∷ a) (rocks.scan db 3)))
      ∙ ap parsed (rocks.lookup-scan db 3 (3 ∷ a))
      ∙ parsed-agreed (rocks.get db (3 ∷ 3 ∷ a)) (find s.instance_info a) (d.0 a)
