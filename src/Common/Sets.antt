-- ===== src/Common/Sets.antt =====
-- std::set<int64_t> and flat_hash_set<std::string>: a list that holds each element once.
use mathlib.Core.Path.{◌≡◌}
use mathlib.Core.Bool.{Bool, true, false, ◌||◌}
use mathlib.Core.List.{List, [], ◌∷◌}
use native.Mathlib.Omega.{arith}
use ea.Common.Tests.{if◌then◌else◌}
use ea.Common.Eq.{KeyEq, ◌==◌}

module _ {ℓ} {A : Type ℓ} ⦃e : KeyEq A⦄ where
  unfoldable pub contains : List A → A → Bool
  contains [] a = false
  contains (x ∷ xs) a = x == a || contains xs a

  -- s.insert(a)
  unfoldable pub insert : List A → A → List A
  insert [] a = a ∷ []
  insert (x ∷ xs) a = if x == a then x ∷ xs else x ∷ insert xs a

  -- s.erase(a)
  unfoldable pub remove : List A → A → List A
  remove [] a = []
  remove (x ∷ xs) a = let rest = remove xs a in if x == a then rest else x ∷ rest

  pub contains-insert : (s : List A) (a b : A) → contains (insert s a) b ≡ (a == b || contains s b)
  unfolding contains insert
  contains-insert [] a b = ground arith
  contains-insert (x ∷ xs) a b =
      ground (arith, e.beq_iff x a, e.beq_iff x b, e.beq_iff a b, contains-insert xs a b)

  pub contains-remove :
      (s : List A) (a b : A) → contains (remove s a) b ≡ (if a == b then false else contains s b)
  unfolding contains remove
  contains-remove [] a b = ground arith
  contains-remove (x ∷ xs) a b =
      ground (arith, e.beq_iff x a, e.beq_iff x b, e.beq_iff a b, contains-remove xs a b)

-- s.empty()
abbrev pub is_empty {ℓ} : {A : Type ℓ} → List A → Bool
is_empty [] = true
is_empty (x ∷ xs) = false

pub ruleset set_laws = (contains-insert, contains-remove)
