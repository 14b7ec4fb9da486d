-- ===== src/Rocks/Wire.antt =====
-- A wire format that keeps the law of Codec, built up from that of numbers, for the examples.
use mathlib.Core.Option.{map as map_some, some-injective}
use ea.Common.{
  ℕ, zero, suc, ◌≡◌, ◌∙◌, ap, sym, refl, Bool, true, false, Option, none, some, List, [], ◌∷◌,
}
use ea.Common.Bytes.{Bytes}
use ea.Common.Int.{ℤ, pos, negsuc}
use ea.Rocks.{Codec}

-- A value is written before the rest of the bytes, and taken off again.
pub record Wire (A : Type 0) : Type 0 where
  pub put : A → Bytes → Bytes
  pub take : Bytes → Option (A × Bytes)
  pub take-put : (a : A) (rest : Bytes) → take (put a rest) ≡ some (a, rest)

abbrev pub take_nat : Bytes → Option (ℕ × Bytes)
take_nat [] = none
take_nat (n ∷ rest) = some (n, rest)

abbrev pub nat_wire : Wire ℕ
nat_wire = record { put = λ n rest. n ∷ rest; take = take_nat; take-put = λ n rest. refl }

abbrev pub bool_code : Bool → ℕ
bool_code false = 0
bool_code true = 1

abbrev pub take_bool : Bytes → Option (Bool × Bytes)
take_bool [] = none
take_bool (zero ∷ rest) = some (false, rest)
take_bool (suc n ∷ rest) = some (true, rest)

pub take-bool_code : (b : Bool) (rest : Bytes) → take_bool (bool_code b ∷ rest) ≡ some (b, rest)
take-bool_code false rest = refl
take-bool_code true rest = refl

abbrev pub bool_wire : Wire Bool
bool_wire = record {
  put = λ b rest. bool_code b ∷ rest;
  take = take_bool;
  take-put = take-bool_code;
}

module _ {A : Type 0} (w : Wire A) where
  abbrev pub put_option : Option A → Bytes → Bytes
  put_option none rest = 0 ∷ rest
  put_option (some a) rest = 1 ∷ w.put a rest

  abbrev pub take_option : Bytes → Option (Option A × Bytes)
  take_option [] = none
  take_option (zero ∷ rest) = some (none, rest)
  take_option (suc n ∷ rest) = map_some (λ r. (some r.0, r.1)) (w.take rest)

  pub take-put_option :
      (o : Option A) (rest : Bytes) → take_option (put_option o rest) ≡ some (o, rest)
  take-put_option none rest = refl
  take-put_option (some a) rest = ap (map_some (λ r. (some r.0, r.1))) (w.take-put a rest)

  abbrev pub option_wire : Wire (Option A)
  option_wire = record { put = put_option; take = take_option; take-put = take-put_option }

  abbrev pub put_elements : List A → Bytes → Bytes
  put_elements [] rest = rest
  put_elements (a ∷ l) rest = w.put a (put_elements l rest)

  abbrev pub count : List A → ℕ
  count [] = 0
  count (a ∷ l) = suc (count l)

  abbrev pub then_take :
      (Bytes → Option (List A × Bytes)) → Option (A × Bytes) → Option (List A × Bytes)
  then_take more none = none
  then_take more (some (a, rest)) = map_some (λ r. (a ∷ r.0, r.1)) (more rest)

  abbrev pub take_elements : ℕ → Bytes → Option (List A × Bytes)
  take_elements zero rest = some ([], rest)
  take_elements (suc n) rest = then_take (take_elements n) (w.take rest)

  pub take-put_elements :
      (l : List A) (rest : Bytes) → take_elements (count l) (put_elements l rest) ≡ some (l, rest)
  take-put_elements [] rest = refl
  take-put_elements (a ∷ l) rest =
      ap (then_take (take_elements (count l))) (w.take-put a (put_elements l rest))
      ∙ ap (map_some (λ r. (a ∷ r.0, r.1))) (take-put_elements l rest)

  abbrev pub take_list : Bytes → Option (List A × Bytes)
  take_list [] = none
  take_list (n ∷ rest) = take_elements n rest

  abbrev pub list_wire : Wire (List A)
  list_wire = record {
    put = λ l rest. count l ∷ put_elements l rest;
    take = take_list;
    take-put = take-put_elements;
  }

abbrev pub bytes_wire : Wire Bytes
bytes_wire = list_wire nat_wire

module _ {A B : Type 0} (v : Wire A) (w : Wire B) where
  abbrev pub then_second : Option (A × Bytes) → Option ((A × B) × Bytes)
  then_second none = none
  then_second (some (a, rest)) = map_some (λ r. ((a, r.0), r.1)) (w.take rest)

  pub take-pair :
      (p : A × B) (rest : Bytes)
      → then_second (v.take (v.put p.0 (w.put p.1 rest))) ≡ some (p, rest)
  take-pair p rest =
      ap then_second (v.take-put p.0 (w.put p.1 rest))
      ∙ ap (map_some (λ r. ((p.0, r.0), r.1))) (w.take-put p.1 rest)

  abbrev pub pair_wire : Wire (A × B)
  pair_wire = record {
    put = λ p rest. v.put p.0 (w.put p.1 rest);
    take = λ b. then_second (v.take b);
    take-put = take-pair;
  }

-- A record, by the tuple of its fields.
abbrev pub record_wire :
    {A B : Type 0} (fields : A → B) (make : B → A)
    → ((a : A) → make (fields a) ≡ a)
    → Wire B
    → Wire A
record_wire fields make again w = record {
  put = λ a rest. w.put (fields a) rest;
  take = λ b. map_some (λ r. (make r.0, r.1)) (w.take b);
  take-put = λ a rest.
      ap (map_some (λ r. (make r.0, r.1))) (w.take-put (fields a) rest)
      ∙ ap (λ x. some (x, rest)) (again a);
}

abbrev pub int_parts : ℤ → ℕ × ℕ
int_parts (pos n) = (0, n)
int_parts (negsuc n) = (1, n)

abbrev pub of_parts : ℕ × ℕ → ℤ
of_parts (zero, n) = pos n
of_parts (suc s, n) = negsuc n

pub of_parts-int_parts : (n : ℤ) → of_parts (int_parts n) ≡ n
of_parts-int_parts (pos n) = refl
of_parts-int_parts (negsuc n) = refl

abbrev pub int_wire : Wire ℤ
int_wire = record_wire int_parts of_parts of_parts-int_parts (pair_wire nat_wire nat_wire)

abbrev pub codec_of : {A : Type 0} → Wire A → Codec A
codec_of w = record {
  serialize = λ a. some (w.put a []);
  parse = λ b. map_some (λ r. r.0) (w.take b);
  parse-serialize = λ a b e.
      ap (λ c. map_some (λ r. r.0) (w.take c)) (sym (some-injective (w.put a []) b e))
      ∙ ap (map_some (λ r. r.0)) (w.take-put a []);
}
