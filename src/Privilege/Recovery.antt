-- ===== src/Privilege/Recovery.antt =====
-- PrivilegeManager::load_snapshot: a replica that starts again.
use ea.Common.{
  ◌≡◌, ◌∙◌, sym, subst, inl, inr, eq_refl, refl, true, Option, none, some, List, [], ◌∷◌, ◌==◌,
  nat_eq, if◌then◌else◌, arith, Bool-cases,
}
use ea.Common.Bytes.{Bytes, bytes_eq, bytes_beq_iff}
use ea.Common.Eq.{nat_beq_iff}
use ea.Common.Maps.{
  Map, find, assign, empty, find-assign, find-empty, lookup_in, Unique, or_else, or_else-none,
}
use ea.Api.{UserPrivilege}
use ea.Rocks.{Rocks, Codec, Prefixed, begins_with}
use ea.Rocks.Agree.{Agree}
use ea.Schema.{SchemaIds}
use ea.Privilege.Durable.{IsDurable}
use ea.Privilege.Manager.{PrivilegeManager, load_users, load_snapshot}

Agree-some :
    (codec : Codec UserPrivilege) (value : Bytes) (o : Option UserPrivilege)
    → Agree codec (some value) o
    → (u : UserPrivilege) × (o ≡ some u) × (codec.parse value ≡ some u)
Agree-some codec value none h = elim h [ ]
Agree-some codec value (some u) h = (u, refl, h)

module _ (codec : Codec UserPrivilege) (f : Bytes → Option UserPrivilege) where
  -- The entries agree with the users.
  abbrev AgreeAll : List (Bytes × Bytes) → Type 0
  AgreeAll l = (j : Bytes) → Agree codec (lookup_in (2 ∷ j) l) (f j)

  first_user :
      (u : Bytes) (value : Bytes) (l : List (Bytes × Bytes))
      → AgreeAll ((2 ∷ u, value) ∷ l)
      → (x : UserPrivilege) × (f u ≡ some x) × (codec.parse value ≡ some x)
  unfolding lookup_in
  first_user u value l h = Agree-some codec value (f u) (
      subst (λ b. Agree codec (if b then some value else lookup_in (2 ∷ u) l) (f u)) (eq_refl u)
        (h u))

  -- The rest of the entries, once the first user is loaded, agree with the other users.
  rest_agrees :
      (u : Bytes) (value : Bytes) (l : List (Bytes × Bytes))
      → lookup_in (2 ∷ u) l ≡ none
      → AgreeAll ((2 ∷ u, value) ∷ l)
      → (j : Bytes) → Agree codec (lookup_in (2 ∷ j) l) (if u == j then none else f j)
  unfolding lookup_in
  rest_agrees u value l fresh h j = elim (Bool-cases (u == j)) [
    | inl e ↦ rw (e, sym ((bytes_beq_iff u j).1 e), fresh) tt
    | inr e ↦
        subst (λ b. Agree codec (lookup_in (2 ∷ j) l) (if b then none else f j)) (sym e)
          (subst (λ b. Agree codec (if b then some value else lookup_in (2 ∷ j) l) (f j)) e (h j))
  ]

Agree-none :
    (codec : Codec UserPrivilege) (o : Option UserPrivilege) → Agree codec none o → o ≡ none
Agree-none codec none h = refl
Agree-none codec (some u) h = elim h [ ]

-- The first user, and then the others over it.
merged :
    (f : Bytes → Option UserPrivilege) (users : Map Bytes UserPrivilege) (u : Bytes)
    (x : UserPrivilege)
    → f u ≡ some x
    → (j : Bytes)
    → or_else (if u == j then none else f j) (find (assign users u x) j)
      ≡ or_else (f j) (find users j)
merged f users u x fx j = elim (Bool-cases (u == j)) [
  | inl e ↦
      rw (find-assign users u x j, e, subst (λ k. f k ≡ some x) ((bytes_beq_iff u j).1 e) fx) refl
  | inr e ↦ rw (find-assign users u x j, e) refl
]

no_key : begins_with 2 [] ≡ true → ⊥
no_key e = ground arith

module _ (rocks : Rocks) (codec : Codec UserPrivilege) (ids : SchemaIds) where
  -- The load of the entries over `users` succeeds, and its map has the users of `f` before those.
  abbrev Loads :
      List (Bytes × Bytes) → Map Bytes UserPrivilege → (Bytes → Option UserPrivilege) → Type 0
  Loads l users f =
      (loaded : Map Bytes UserPrivilege) × (load_users rocks codec ids users l ≡ some loaded)
      × ((j : Bytes) → find loaded j ≡ or_else (f j) (find users j))

  load_first :
      (u : Bytes) (value : Bytes) (l : List (Bytes × Bytes)) (users : Map Bytes UserPrivilege)
      (f : Bytes → Option UserPrivilege)
      → ((users : Map Bytes UserPrivilege) (f : Bytes → Option UserPrivilege)
          → AgreeAll codec f l
          → Loads l users f)
      → Unique ((2 ∷ u, value) ∷ l)
      → AgreeAll codec f ((2 ∷ u, value) ∷ l)
      → Loads ((2 ∷ u, value) ∷ l) users f
  unfolding load_users
  load_first u value l users f loads q h =
      let (x, fx, parsed) = first_user codec f u value l h in
      let (loaded, e, found) =
        loads (assign users u x) (λ j. if u == j then none else f j)
          (rest_agrees codec f u value l q.0 h) in
      (loaded, rw (load_users, parsed) e, λ j. found j ∙ merged f users u x fx j)

  load_users-find :
      (l : List (Bytes × Bytes)) (users : Map Bytes UserPrivilege)
      (f : Bytes → Option UserPrivilege)
      → Prefixed 2 l
      → Unique l
      → AgreeAll codec f l
      → Loads l users f
  unfolding load_users lookup_in
  load_users-find [] users f p q h = (users, refl, λ j. rw (Agree-none codec (f j) (h j)) refl)
  load_users-find (([], value) ∷ l) users f p q h = elim (no_key p.0) [ ]
  load_users-find ((b ∷ u, value) ∷ l) users f p q h =
      subst
        (λ c.
          Unique ((c ∷ u, value) ∷ l)
          → AgreeAll codec f ((c ∷ u, value) ∷ l)
          → Loads ((c ∷ u, value) ∷ l) users f)
        (sym ((nat_beq_iff b 2).1 p.0))
        (load_first u value l users f (λ users' f'. load_users-find l users' f' p.1 q.1)) q h

  -- A replica that starts again on the database of a replica whose memory agreed with it loads without an
  -- error, and finds every user as they were.
  pub load_snapshot_recovers :
      (s : PrivilegeManager rocks codec ids)
      → IsDurable rocks codec ids s
      → (loaded : Map Bytes UserPrivilege) × (load_snapshot rocks codec ids s.db ≡ some loaded)
        × ((username : Bytes) → find loaded username ≡ find s.user_privilege username)
  unfolding load_snapshot
  load_snapshot_recovers s h =
      let (loaded, e, found) =
        load_users-find (rocks.scan s.db 2) empty (find s.user_privilege)
          (rocks.scan-Prefixed s.db 2) (rocks.scan-Unique s.db 2)
          (λ j. rw (rocks.lookup-scan s.db 2 j) (h j)) in
      (loaded, e, λ j. found j ∙ rw (find-empty j) (or_else-none (find s.user_privilege j)))
