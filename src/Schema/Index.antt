-- ===== src/Schema/Index.antt =====
-- The zones of a schema: what the maps of the zone manager and the namespaces' sets of zone ids keep.
use ea.Common.{
  ℕ, ◌≡◌, ◌∙◌, ◌≤◌, sym, ap, subst, refl, true, false, inl, inr, some, List, [], ◌∷◌, ◌==◌, nat_eq,
  ◌||◌, if◌then◌else◌, get_or, arith, Bool-cases, Option-cases, eq_refl,
}
use mathlib.Core.Option.{some-injective}
use ea.Common.Bytes.{Bytes, bytes_eq, bytes_beq_iff}
use ea.Common.Eq.{nat_beq_iff}
use ea.Common.Maps.{Map, find, erase, find-assign, find-erase, found-assign, found-erase}
use ea.Common.Sets.{contains, contains-insert, contains-remove, insert, remove, is_empty}
use ea.Api.{ZoneInfo}
use ea.Schema.State.{
  ZoneManager, value_at, touch, add_id, delete_id, set_zone_info, erase_zone_info, id_or_zero,
}
use ea.Schema.Zones.{zone_name_of}

-- The zone `id` is filed under the namespace.
abbrev pub IsFiled : Map ℕ (List ℕ) → ℕ → ℕ → Type 0
IsFiled zone_ids namespace_id id = contains (value_at zone_ids namespace_id []) id ≡ true

-- Every name stands for the info that has it. Every info stands under its own id, which is no higher than the
-- highest id so far, and is filed under its namespace.
pub record IsZoned (m : ZoneManager) (zone_ids : Map ℕ (List ℕ)) : Type 0 where
  pub named :
      (name : Bytes) (id : ℕ)
      → find m.zone_id_map name ≡ some id
      → (info : ZoneInfo) × (find m.zone_info_map id ≡ some info) × (zone_name_of info ≡ name)
  pub stored :
      (id : ℕ) (info : ZoneInfo)
      → find m.zone_info_map id ≡ some info
      → (info.zone_id ≡ id) × (id ≤ m.max_zone_id) × IsFiled zone_ids info.namespace_id id

filed-add_id :
    (zone_ids : Map ℕ (List ℕ)) (n id k z : ℕ)
    → contains (value_at (add_id zone_ids n id) k []) z ≡ (
        if n == k
        then (id == z || contains (value_at zone_ids k []) z)
        else contains (value_at zone_ids k []) z)
unfolding value_at add_id
filed-add_id zone_ids n id k z = elim (Bool-cases (n == k)) [
  | inl same ↦
      rw
        (
          find-assign zone_ids n (insert (get_or (find zone_ids n) []) id) k,
          same,
          contains-insert (get_or (find zone_ids n) []) id z,
          (nat_beq_iff n k).1 same,
        )
        refl
  | inr other ↦ rw (find-assign zone_ids n (insert (get_or (find zone_ids n) []) id) k, other) refl
]

pub IsFiled-new : (zone_ids : Map ℕ (List ℕ)) (n id : ℕ) → IsFiled (add_id zone_ids n id) n id
IsFiled-new zone_ids n id = rw (filed-add_id zone_ids n id n id, eq_refl n, eq_refl id) refl

pub IsFiled-add :
    (zone_ids : Map ℕ (List ℕ)) (n id k z : ℕ)
    → IsFiled zone_ids k z
    → IsFiled (add_id zone_ids n id) k z
IsFiled-add zone_ids n id k z h = rw (filed-add_id zone_ids n id k z, h) (ground arith)

pub IsFiled-delete :
    (zone_ids : Map ℕ (List ℕ)) (n id k z : ℕ)
    → (id == z) ≡ false
    → IsFiled zone_ids k z
    → IsFiled (delete_id zone_ids n id) k z
unfolding value_at delete_id
IsFiled-delete zone_ids n id k z ne h = elim (Option-cases (find zone_ids n)) [
  | inl e ↦ rw (delete_id, e) h
  | inr (s, e) ↦ elim (Bool-cases (n == k)) [
    | inl same ↦
        rw (delete_id, e, find-assign zone_ids n (remove s id) k, same, contains-remove s id z, ne)
          (subst (λ o. contains (get_or o []) z ≡ true)
            (ap (find zone_ids) (sym ((nat_beq_iff n k).1 same)) ∙ e) h)
    | inr other ↦ rw (delete_id, e, find-assign zone_ids n (remove s id) k, other) h
  ]
]

pub IsFiled-erase :
    (zone_ids : Map ℕ (List ℕ)) (n k z : ℕ)
    → (n == k) ≡ false
    → IsFiled zone_ids k z
    → IsFiled (erase zone_ids n) k z
unfolding value_at
IsFiled-erase zone_ids n k z ne h = rw (find-erase zone_ids n k, ne) h

pub IsFiled-touch :
    (zone_ids : Map ℕ (List ℕ)) (n k z : ℕ)
    → IsFiled zone_ids k z
    → IsFiled (touch zone_ids n []) k z
unfolding value_at touch
IsFiled-touch zone_ids n k z h = elim (Option-cases (find zone_ids n)) [
  | inr (s, e) ↦ rw (touch, e) h
  | inl e ↦ elim (Bool-cases (n == k)) [
    | inl same ↦
        rw (touch, e, find-assign zone_ids n [] k, same)
          (subst (λ o. contains (get_or o []) z ≡ true)
            (ap (find zone_ids) (sym ((nat_beq_iff n k).1 same)) ∙ e) h)
    | inr other ↦ rw (touch, e, find-assign zone_ids n [] k, other) h
  ]
]

no_names : (a b : Bytes) → a ≡ b → (a == b) ≡ false → ⊥
no_names a b e ne = ground (arith, bytes_beq_iff a b)

module _ (m : ZoneManager) (zone_ids : Map ℕ (List ℕ)) (zoned : IsZoned m zone_ids) where
  -- A zone is set, new or over one of the same name.
  pub set_zone_info-IsZoned :
      (info : ZoneInfo) (max_zone_id : ℕ) (zone_ids' : Map ℕ (List ℕ))
      → m.max_zone_id ≤ max_zone_id
      → info.zone_id ≤ max_zone_id
      → ((old : ZoneInfo)
          → find m.zone_info_map info.zone_id ≡ some old
          → zone_name_of old ≡ zone_name_of info)
      → ((n z : ℕ) → IsFiled zone_ids n z → IsFiled zone_ids' n z)
      → IsFiled zone_ids' info.namespace_id info.zone_id
      → IsZoned (record (set_zone_info m info) { max_zone_id = max_zone_id }) zone_ids'
  unfolding set_zone_info zone_name_of
  set_zone_info-IsZoned info max_zone_id zone_ids' above bounded same_name grow filed = record {
    named = λ j k e. elim (found-assign m.zone_id_map (zone_name_of info) info.zone_id j k e) [
      | inl (p, q) ↦ (
        info,
        rw (find-assign m.zone_info_map info.zone_id info k, (nat_beq_iff info.zone_id k).0 q) refl,
        p,
      )
      | inr (ne, f) ↦
          let (old, g, nm) = zoned.named j k f in
          elim (Bool-cases (info.zone_id == k)) [
            | inl same ↦
                elim (no_names (zone_name_of info) j
                  (sym (
                      same_name old (
                        subst (λ x. find m.zone_info_map x ≡ some old)
                          (sym ((nat_beq_iff info.zone_id k).1 same)) g))
                    ∙ nm)
                  ne) [ ]
            | inr other ↦ (old, rw (find-assign m.zone_info_map info.zone_id info k, other) g, nm)
          ]
    ];
    stored = λ k i e. elim (found-assign m.zone_info_map info.zone_id info k i e) [
      | inl (p, q) ↦
          subst (λ x. (x.zone_id ≡ k) × (k ≤ max_zone_id) × IsFiled zone_ids' x.namespace_id k) q
            (
              p,
              subst (λ y. y ≤ max_zone_id) p bounded,
              subst (λ y. IsFiled zone_ids' info.namespace_id y) p filed,
            )
      | inr (ne, f) ↦
          let (a, b, c) = zoned.stored k i f in
          (a, omega (arith, b, above), grow i.namespace_id k c)
    ];
  }

  -- A zone is erased.
  pub erase_zone_info-IsZoned :
      (name : Bytes) (id : ℕ) (zone_ids' : Map ℕ (List ℕ))
      → find m.zone_id_map name ≡ some id
      → ((n z : ℕ) → (id == z) ≡ false → IsFiled zone_ids n z → IsFiled zone_ids' n z)
      → IsZoned (erase_zone_info m name) zone_ids'
  unfolding erase_zone_info id_or_zero
  erase_zone_info-IsZoned name id zone_ids' here grow =
      rw (erase_zone_info, here)
        (record {
          named = λ j k e.
              let (ne, f) = found-erase m.zone_id_map name j k e in
              let (info, g, nm) = zoned.named j k f in
              elim (Bool-cases (id == k)) [
                | inl same ↦
                    let (first, g', nm') = zoned.named name id here in
                    let one =
                      some-injective first info
                        (sym g' ∙ ap (find m.zone_info_map) ((nat_beq_iff id k).1 same) ∙ g) in
                    elim (no_names name j (sym nm' ∙ ap zone_name_of one ∙ nm) ne) [ ]
                | inr other ↦ (info, rw (find-erase m.zone_info_map id k, other) g, nm)
              ];
          stored = λ k i e.
              let (ne, f) = found-erase m.zone_info_map id k i e in
              let (a, b, c) = zoned.stored k i f in (a, b, grow i.namespace_id k ne c);
        })

-- The sets of zone ids may change as long as every zone stays filed.
pub refile :
    (m : ZoneManager) (zone_ids zone_ids' : Map ℕ (List ℕ))
    → IsZoned m zone_ids
    → ((n z : ℕ) → IsFiled zone_ids n z → IsFiled zone_ids' n z)
    → IsZoned m zone_ids'
refile m zone_ids zone_ids' zoned grow = record {
  named = zoned.named;
  stored = λ k i e. let (a, b, c) = zoned.stored k i e in (a, b, grow i.namespace_id k c);
}

empty_contains : (l : List ℕ) (z : ℕ) → is_empty l ≡ true → contains l z ≡ true → ⊥
unfolding contains
empty_contains [] z e h = ground arith
empty_contains (x ∷ l) z e h = ground arith

pub nothing_filed :
    (zone_ids : Map ℕ (List ℕ)) (n z : ℕ)
    → is_empty (value_at zone_ids n []) ≡ true
    → IsFiled zone_ids n z
    → ⊥
nothing_filed zone_ids n z e h = empty_contains (value_at zone_ids n []) z e h

-- Where a namespace has no zones, dropping its set leaves every zone filed.
pub IsFiled-dropped :
    (zone_ids : Map ℕ (List ℕ)) (n k z : ℕ)
    → is_empty (value_at zone_ids n []) ≡ true
    → IsFiled zone_ids k z
    → IsFiled (erase (touch zone_ids n []) n) k z
IsFiled-dropped zone_ids n k z e h = elim (Bool-cases (n == k)) [
  | inl same ↦
      elim (nothing_filed zone_ids n z e
        (subst (λ x. IsFiled zone_ids x z) (sym ((nat_beq_iff n k).1 same)) h)) [ ]
  | inr other ↦ IsFiled-erase (touch zone_ids n []) n k z other (IsFiled-touch zone_ids n k z h)
]

-- The sets of servlet ids play no part.
pub reservlet :
    (m : ZoneManager) (zone_ids servlet_ids : Map ℕ (List ℕ))
    → IsZoned m zone_ids
    → IsZoned (record m { servlet_ids = servlet_ids }) zone_ids
reservlet m zone_ids servlet_ids zoned = record { named = zoned.named; stored = zoned.stored }
