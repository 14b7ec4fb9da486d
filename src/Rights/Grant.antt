-- ===== src/Rights/Grant.antt =====
-- What insert_right and delete_right do to the rights that a list of entries gives.
use ea.Common.{
  ℕ, ◌≡◌, refl, ◌&&◌, Option, none, some, List, [], ◌∷◌, ◌==◌, nat_eq, ltb, if◌then◌else◌, arith,
}
use ea.Common.Eq.{KeyEq}
use ea.Rights.{Right, raise, insert_right, delete_right}

module _ {A K : Type 0} ⦃keys : KeyEq K⦄ (right : Right A K) where
  -- The right that the entries give for the ids `k`: the first entry's.
  unfoldable pub right_of : K → List A → Option ℕ
  right_of k [] = none
  right_of k (a ∷ l) =
      let rest = right_of k l in if right.key a == k then some (right.rw a) else rest

  -- Each id stands once.
  abbrev pub Distinct : List A → Type 0
  Distinct [] = Unit
  Distinct (a ∷ l) = (right_of (right.key a) l ≡ none) × Distinct l

  -- What a grant should leave: the request's right where it is forced or higher, else the old one.
  abbrev pub granted : A → Option ℕ → ℕ
  granted p none = right.rw p
  granted p (some r) =
      if right.force p then right.rw p else if ltb r (right.rw p) then right.rw p else r

  -- What a revocation should leave: nothing, or the request's right where that is given and lower.
  abbrev pub revoked : A → Option ℕ → Option ℕ
  revoked p none = none
  revoked p (some r) = if right.has_rw p && ltb (right.rw p) r then some (right.rw p) else none

  raise-key : (p a : A) → right.key (raise right p a) ≡ right.key a
  unfolding raise
  raise-key p a = ground (arith, right.key-set_rw a (right.rw p))

  raise-rw : (p a : A) → right.rw (raise right p a) ≡ granted p (some (right.rw a))
  unfolding raise
  raise-rw p a = ground (arith, right.rw-set_rw a (right.rw p))

  pub insert-right_of :
      (p : A) (l : List A) (k : K)
      → right_of k (insert_right right p l)
        ≡ (if right.key p == k then some (granted p (right_of k l)) else right_of k l)
  unfolding right_of insert_right
  insert-right_of p [] k = ground arith
  insert-right_of p (a ∷ l) k = ground (
    arith,
    insert-right_of p l k,
    raise-key p a,
    raise-rw p a,
    keys.beq_iff (right.key a) (right.key p),
    keys.beq_iff (right.key p) k,
    keys.beq_iff (right.key a) k,
  )

  pub insert-Distinct : (p : A) (l : List A) → Distinct l → Distinct (insert_right right p l)
  unfolding right_of insert_right
  insert-Distinct p [] h = (refl, tt)
  insert-Distinct p (a ∷ l) h = ground (
    arith,
    insert-Distinct p l h.1,
    insert-right_of p l (right.key a),
    raise-key p a,
    keys.beq_iff (right.key a) (right.key p),
    keys.beq_iff (right.key p) (right.key a),
  )

  pub delete-right_of :
      (p : A) (l : List A) (k : K)
      → Distinct l
      → right_of k (delete_right right p l)
        ≡ (if right.key p == k then revoked p (right_of k l) else right_of k l)
  unfolding right_of delete_right
  delete-right_of p [] k h = ground arith
  delete-right_of p (a ∷ l) k h = ground (
    arith,
    delete-right_of p l k h.1,
    keys.beq_iff (right.key a) (right.key p),
    keys.beq_iff (right.key p) k,
    keys.beq_iff (right.key a) k,
  )

  pub delete-Distinct : (p : A) (l : List A) → Distinct l → Distinct (delete_right right p l)
  unfolding right_of delete_right
  delete-Distinct p [] h = tt
  delete-Distinct p (a ∷ l) h = ground (
    arith,
    delete-Distinct p l h.1,
    delete-right_of p l (right.key a) h.1,
    keys.beq_iff (right.key a) (right.key p),
    keys.beq_iff (right.key p) (right.key a),
  )
