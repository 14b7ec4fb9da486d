-- ===== src/Common/Eq.antt =====
-- Equality tests of the key types, as instances.
use Prim.Native.Nat.{ℕ, compare, Ordering}
use mathlib.Core.Path.{◌≡◌, refl}
use mathlib.Core.Logic.{◌↔◌}
use mathlib.Core.Bool.{Bool, true, false, ◌&&◌}
use native.Mathlib.Omega.{arith}

-- What std::equal_to gives a map or a set for its keys, with the law that it is equality.
pub record KeyEq {ℓ} (Key : Type ℓ) : Type ℓ where
  pub beq : (x y : Key) → Bool
  pub beq_iff : (x y : Key) → (x ≡ y) ↔ (beq x y ≡ true)

abbrev pub nat_beq : ℕ → ℕ → Bool
nat_beq a b = elim (compare a b) [ Ordering.eq ↦ true | _ ↦ false ]

pub nat_beq_iff : (a b : ℕ) → (a ≡ b) ↔ (nat_beq a b ≡ true)
nat_beq_iff a b = ground arith

instance abbrev pub nat_eq : KeyEq ℕ
nat_eq = record { beq_iff = nat_beq_iff; beq = nat_beq }

abbrev pub pair_beq : ℕ × ℕ → ℕ × ℕ → Bool
pair_beq p q = nat_beq p.0 q.0 && nat_beq p.1 q.1

pub pair_beq_iff : (p q : ℕ × ℕ) → (p ≡ q) ↔ (pair_beq p q ≡ true)
pair_beq_iff (a, b) (c, d) = ground arith

instance abbrev pub pair_eq : KeyEq (ℕ × ℕ)
pair_eq = record { beq = pair_beq; beq_iff = pair_beq_iff }

module _ {ℓ} {Key : Type ℓ} ⦃keys : KeyEq Key⦄ where
  infix 50 ◌==◌
  abbrev pub ◌==◌ : Key → Key → Bool
  ◌==◌ x y = keys.beq x y

  pub eq_refl : (x : Key) → (x == x) ≡ true
  eq_refl x = (keys.beq_iff x x).0 refl
