-- ===== src/Rights/Lists.antt =====
-- Whole lists of grants and revocations, as add_privilege and drop_privilege walk them.
use ea.Common.{
  ℕ, ◌≡◌, ◌≤◌, refl, true, false, ◌∙◌, ap, Option, none, some, List, [], ◌∷◌, ◌==◌, nat_eq,
  if◌then◌else◌, arith,
}
use ea.Common.Eq.{KeyEq}
use ea.Rights.{Right, for_each, insert_right, delete_right}
use ea.Rights.Grant.{
  right_of, Distinct, granted, revoked, insert-right_of, insert-Distinct, delete-right_of,
  delete-Distinct,
}

-- No right, or a lower one.
abbrev pub NotAbove : Option ℕ → Option ℕ → Type 0
NotAbove none new = Unit
NotAbove (some old) none = ⊥
NotAbove (some old) (some new) = old ≤ new

NotAbove-refl : (o : Option ℕ) → NotAbove o o
NotAbove-refl none = tt
NotAbove-refl (some r) = omega arith

NotAbove-trans : (a b c : Option ℕ) → NotAbove a b → NotAbove b c → NotAbove a c
NotAbove-trans none b c h k = tt
NotAbove-trans (some a) none c h k = elim h [ ]
NotAbove-trans (some a) (some b) none h k = k
NotAbove-trans (some a) (some b) (some c) h k = omega (arith, h, k)

module _ {A K : Type 0} ⦃keys : KeyEq K⦄ (right : Right A K) where
  -- The right for the ids `k` after the grants, one after the other, and after the revocations.
  abbrev pub grants : K → List A → Option ℕ → Option ℕ
  grants k [] old = old
  grants k (p ∷ ps) old = grants k ps (if right.key p == k then some (granted right p old) else old)

  abbrev pub revokes : K → List A → Option ℕ → Option ℕ
  revokes k [] old = old
  revokes k (p ∷ ps) old = revokes k ps (if right.key p == k then revoked right p old else old)

  -- No entry for the ids `k` is forced.
  abbrev pub Unforced : K → List A → Type 0
  Unforced k [] = Unit
  Unforced k (p ∷ ps) = (right.key p == k ≡ true → right.force p ≡ false) × Unforced k ps

  pub inserts-right_of :
      (ps l : List A) (k : K)
      → right_of right k (for_each (insert_right right) ps l) ≡ grants k ps (right_of right k l)
  unfolding for_each
  inserts-right_of [] l k = refl
  inserts-right_of (p ∷ ps) l k =
      inserts-right_of ps (insert_right right p l) k
      ∙ ap (grants k ps) (insert-right_of right p l k)

  pub inserts-Distinct :
      (ps l : List A) → Distinct right l → Distinct right (for_each (insert_right right) ps l)
  unfolding for_each
  inserts-Distinct [] l h = h
  inserts-Distinct (p ∷ ps) l h =
      inserts-Distinct ps (insert_right right p l) (insert-Distinct right p l h)

  pub deletes-Distinct :
      (ps l : List A) → Distinct right l → Distinct right (for_each (delete_right right) ps l)
  unfolding for_each
  deletes-Distinct [] l h = h
  deletes-Distinct (p ∷ ps) l h =
      deletes-Distinct ps (delete_right right p l) (delete-Distinct right p l h)

  pub deletes-right_of :
      (ps l : List A) (k : K)
      → Distinct right l
      → right_of right k (for_each (delete_right right) ps l) ≡ revokes k ps (right_of right k l)
  unfolding for_each
  deletes-right_of [] l k h = refl
  deletes-right_of (p ∷ ps) l k h =
      deletes-right_of ps (delete_right right p l) k (delete-Distinct right p l h)
      ∙ ap (revokes k ps) (delete-right_of right p l k h)

  granted-NotAbove :
      (p : A) (k : K) (old : Option ℕ)
      → (right.key p == k ≡ true → right.force p ≡ false)
      → NotAbove old (if right.key p == k then some (granted right p old) else old)
  granted-NotAbove p k none h = tt
  granted-NotAbove p k (some r) h = ground arith

  revoked-NotAbove :
      (p : A) (k : K) (old : Option ℕ)
      → NotAbove (if right.key p == k then revoked right p old else old) old
  revoked-NotAbove p k none = ground arith
  revoked-NotAbove p k (some r) = ground arith

  pub grants-NotAbove :
      (k : K) (ps : List A) (old : Option ℕ) → Unforced k ps → NotAbove old (grants k ps old)
  grants-NotAbove k [] old h = NotAbove-refl old
  grants-NotAbove k (p ∷ ps) old h =
      let next = if right.key p == k then some (granted right p old) else old in
      NotAbove-trans old next (grants k ps next) (granted-NotAbove p k old h.0)
        (grants-NotAbove k ps next h.1)

  pub revokes-NotAbove : (k : K) (ps : List A) (old : Option ℕ) → NotAbove (revokes k ps old) old
  revokes-NotAbove k [] old = NotAbove-refl old
  revokes-NotAbove k (p ∷ ps) old =
      let next = if right.key p == k then revoked right p old else old in
      NotAbove-trans (revokes k ps next) next old (revokes-NotAbove k ps next)
        (revoked-NotAbove p k old)
