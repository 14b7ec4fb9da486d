-- ===== src/Config/Triple.antt =====
-- An instance of Versions, for the examples: three numbers in lexicographic order.
use ea.Common.{◌≡◌, ◌⊎◌, ◌↔◌, Bool, true, ◌&&◌, ◌||◌, ◌==◌, nat_eq, ltb, leb, arith, [], ◌∷◌}
use ea.Common.Eq.{KeyEq}
use ea.Api.{ConfigVersion}
use ea.Config.{Versions}

abbrev pub triple_beq : ConfigVersion → ConfigVersion → Bool
triple_beq v w = (v.major == w.major) && (v.minor == w.minor) && (v.patch == w.patch)

pub triple_beq_iff : (v w : ConfigVersion) → (v ≡ w) ↔ (triple_beq v w ≡ true)
triple_beq_iff v w = ground arith

instance abbrev pub triple_eq : KeyEq ConfigVersion
triple_eq = record { beq = triple_beq; beq_iff = triple_beq_iff }

abbrev pub triple_leq : ConfigVersion → ConfigVersion → Bool
triple_leq v w =
    ltb v.major w.major
    || ((v.major == w.major)
        && (ltb v.minor w.minor || ((v.minor == w.minor) && leb v.patch w.patch)))

pub triple_leq_refl : (v : ConfigVersion) → triple_leq v v ≡ true
triple_leq_refl v = ground arith

pub triple_leq_trans :
    (u v w : ConfigVersion) → triple_leq u v ≡ true → triple_leq v w ≡ true → triple_leq u w ≡ true
triple_leq_trans u v w h k = ground arith

pub triple_leq_antisym :
    (v w : ConfigVersion) → triple_leq v w ≡ true → triple_leq w v ≡ true → v ≡ w
triple_leq_antisym v w h k = ground arith

pub triple_leq_total : (v w : ConfigVersion) → (triple_leq v w ≡ true) ⊎ (triple_leq w v ≡ true)
triple_leq_total v w = ground arith

abbrev pub versions : Versions ConfigVersion
versions = record {
  version = λ a b c. record { major = a; minor = b; patch = c };
  leq = triple_leq;
  to_string = λ v. v.major ∷ v.minor ∷ v.patch ∷ [];
  leq_refl = triple_leq_refl;
  leq_trans = triple_leq_trans;
  leq_antisym = triple_leq_antisym;
  leq_total = triple_leq_total;
}
