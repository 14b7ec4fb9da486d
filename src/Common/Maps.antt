-- ===== src/Common/Maps.antt =====
-- std::unordered_map and flat_hash_map: keys to values, in an order that the program does not rely on.
use mathlib.Core.Path.{◌≡◌, refl, sym, ◌∙◌}
use mathlib.Core.Logic.{◌⊎◌, inl, inr}
use mathlib.Core.Bool.{Bool, false}
use mathlib.Core.Option.{Option, none, some, some-injective}
use mathlib.Core.List.{List, [], ◌∷◌}
use native.Mathlib.Omega.{arith}
use ea.Common.Tests.{if◌then◌else◌, is_some, Bool-cases}
use ea.Common.Eq.{KeyEq, ◌==◌}

pub record Map {ℓ} (K V : Type ℓ) : Type ℓ where
  pub entries : List (K × V)

module _ {ℓ} {K V : Type ℓ} ⦃e : KeyEq K⦄ where
  unfoldable pub lookup_in : K → List (K × V) → Option V
  lookup_in k [] = none
  lookup_in k ((j, v) ∷ l) = if j == k then some v else lookup_in k l

  unfoldable pub assign_in : K → V → List (K × V) → List (K × V)
  assign_in k v [] = (k, v) ∷ []
  assign_in k v ((j, w) ∷ l) = if j == k then (k, v) ∷ l else (j, w) ∷ assign_in k v l

  unfoldable pub erase_in : K → List (K × V) → List (K × V)
  erase_in k [] = []
  erase_in k ((j, v) ∷ l) = let rest = erase_in k l in if j == k then rest else (j, v) ∷ rest

  lookup-assign :
      (k j : K) (v : V) (l : List (K × V))
      → lookup_in j (assign_in k v l) ≡ (if k == j then some v else lookup_in j l)
  unfolding lookup_in assign_in
  lookup-assign k j v [] = refl
  lookup-assign k j v ((i, w) ∷ l) =
      ground (arith, e.beq_iff k j, e.beq_iff i k, e.beq_iff i j, lookup-assign k j v l)

  pub lookup-erase :
      (k j : K) (l : List (K × V))
      → lookup_in j (erase_in k l) ≡ (if k == j then none else lookup_in j l)
  unfolding lookup_in erase_in
  lookup-erase k j [] = ground arith
  lookup-erase k j ((i, w) ∷ l) =
      ground (arith, e.beq_iff k j, e.beq_iff i k, e.beq_iff i j, lookup-erase k j l)

unfoldable pub empty {ℓ} : {K V : Type ℓ} → Map K V
empty = record { entries = [] }

module _ {ℓ} {K V : Type ℓ} ⦃e : KeyEq K⦄ where
  -- m.find(k), or the value behind m[k] where k is there
  unfoldable pub find : Map K V → K → Option V
  unfolding lookup_in
  find m k = lookup_in k m.entries

  -- m.find(k) != m.end()
  abbrev pub has : Map K V → K → Bool
  has m k = is_some (find m k)

  -- m[k] = v
  unfoldable pub assign : Map K V → K → V → Map K V
  unfolding assign_in
  assign m k v = record { entries = assign_in k v m.entries }

  -- m.erase(k)
  unfoldable pub erase : Map K V → K → Map K V
  unfolding erase_in
  erase m k = record { entries = erase_in k m.entries }

  pub find-assign :
      (m : Map K V) (k : K) (v : V) (j : K)
      → find (assign m k v) j ≡ (if k == j then some v else find m j)
  unfolding find assign
  find-assign m k v j = lookup-assign k j v m.entries

  pub find-erase :
      (m : Map K V) (k : K) (j : K) → find (erase m k) j ≡ (if k == j then none else find m j)
  unfolding find erase
  find-erase m k j = lookup-erase k j m.entries

  pub find-empty : (k : K) → find (empty {K = K} {V = V}) k ≡ none
  unfolding find empty
  find-empty k = refl

module _ {ℓ} {V : Type ℓ} where
  abbrev pub or_else : Option V → Option V → Option V
  or_else none y = y
  or_else (some x) y = some x

  pub or_else-none : (o : Option V) → or_else o none ≡ o
  or_else-none none = refl
  or_else-none (some x) = refl

-- Each key stands once, as in the program's maps.
abbrev pub Unique {ℓ} : {K V : Type ℓ} ⦃e : KeyEq K⦄ → List (K × V) → Type ℓ
Unique [] = Unit
Unique ((k, v) ∷ l) = (lookup_in k l ≡ none) × Unique l

module _ {ℓ} {K V : Type ℓ} ⦃e : KeyEq K⦄ where
  assign_in-Unique : (k : K) (v : V) (l : List (K × V)) → Unique l → Unique (assign_in k v l)
  unfolding lookup_in assign_in
  assign_in-Unique k v [] u = (refl, tt)
  assign_in-Unique k v ((j, w) ∷ l) u =
      ground
        (arith, e.beq_iff j k, e.beq_iff k j, assign_in-Unique k v l u.1, lookup-assign k j v l)

  erase_in-Unique : (k : K) (l : List (K × V)) → Unique l → Unique (erase_in k l)
  unfolding lookup_in erase_in
  erase_in-Unique k [] u = tt
  erase_in-Unique k ((j, w) ∷ l) u = ground (arith, erase_in-Unique k l u.1, lookup-erase k j l)

  pub assign-Unique :
      (m : Map K V) (k : K) (v : V) → Unique m.entries → Unique (assign m k v).entries
  unfolding assign
  assign-Unique m k v u = assign_in-Unique k v m.entries u

  pub erase-Unique : (m : Map K V) (k : K) → Unique m.entries → Unique (erase m k).entries
  unfolding erase
  erase-Unique m k u = erase_in-Unique k m.entries u

  -- for (auto &p : l) m[p.first] = p.second
  unfoldable pub assign_all : Map K V → List (K × V) → Map K V
  assign_all m [] = m
  assign_all m ((k, v) ∷ l) = assign_all (assign m k v) l

  find-assign_all :
      (m : Map K V) (l : List (K × V)) (j : K)
      → Unique l
      → find (assign_all m l) j ≡ or_else (lookup_in j l) (find m j)
  unfolding assign_all lookup_in
  find-assign_all m [] j u = refl
  find-assign_all m ((k, v) ∷ l) j u =
      ground (arith, find-assign_all (assign m k v) l j u.1, find-assign m k v j, e.beq_iff k j)

  -- Copying a map entry by entry into an empty one gives the same map.
  pub assign_all-entries :
      (m : Map K V) (j : K) → Unique m.entries → find (assign_all empty m.entries) j ≡ find m j
  unfolding find empty
  assign_all-entries m j u =
      find-assign_all empty m.entries j u ∙ or_else-none (lookup_in j m.entries)

module _ {ℓ} {K V : Type ℓ} ⦃e : KeyEq K⦄ where
  -- What is found after an assignment was assigned, or was there under another key.
  pub found-assign :
      (m : Map K V) (k : K) (v : V) (j : K) (w : V)
      → find (assign m k v) j ≡ some w
      → ((k ≡ j) × (v ≡ w)) ⊎ (((k == j) ≡ false) × (find m j ≡ some w))
  found-assign m k v j w h = elim (Bool-cases (k == j)) [
    | inl same ↦
        inl (
          (e.beq_iff k j).1 same,
          some-injective v w (sym (find-assign m k v j ∙ rw same refl) ∙ h),
        )
    | inr other ↦ inr (other, sym (find-assign m k v j ∙ rw other refl) ∙ h)
  ]

  -- What is found after an erasure was there under another key.
  pub found-erase :
      (m : Map K V) (k j : K) (w : V)
      → find (erase m k) j ≡ some w
      → ((k == j) ≡ false) × (find m j ≡ some w)
  found-erase m k j w h = ground (arith, find-erase m k j)

pub ruleset map_laws = (find-assign, find-erase, find-empty)
