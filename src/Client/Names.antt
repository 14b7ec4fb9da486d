-- ===== src/Client/Names.antt =====
-- Names that pass the client's check, and the keys that the server makes of them.
use ea.Common.{
  ℕ, ◌≡◌, ◌+◌, ◌∙◌, ◌⊎◌, ap, sym, refl, true, false, Option, none, some, [], ◌∷◌, ◌++◌, nat_eq,
  arith, Bool-cases, inl, inr,
}
use mathlib.Core.List.{append_assoc, head-eq_of_cons-eq, tail-eq_of_cons-eq, cons-eq-cons}
use ea.Common.Bytes.{Bytes, Without}
use ea.Common.Eq.{nat_beq, nat_beq_iff}
use ea.Common.Sets.{contains}
use ea.Schema.{make_zone_key}
use ea.Client.{allow_char, check_from, check_valid_name_type}

-- The check's result: every character allowed, or the first one that is not, with its index.
abbrev pub IsChecked : ℕ → Bytes → Option (ℕ × ℕ) → Type 0
IsChecked i [] none = Unit
IsChecked i [] (some e) = ⊥
IsChecked i (c ∷ ns) none = (contains allow_char c ≡ true) × IsChecked (i + 1) ns none
IsChecked i (c ∷ ns) (some e) =
    ((contains allow_char c ≡ false) × (e ≡ (i, c)))
    ⊎ ((contains allow_char c ≡ true) × IsChecked (i + 1) ns (some e))

-- The loop of the check lets a name through where every character is in the set, and else reports
-- the first one that is not, with its index.
pub check_from_lem : (i : ℕ) (ns : Bytes) → IsChecked i ns (check_from i ns)
unfolding check_from
check_from_lem i [] = tt
check_from_lem i (c ∷ ns) = ground (arith, check_from_lem (i + 1) ns)

clash : true ≡ false → ⊥
clash e = ground arith

-- A control character is not allowed.
one_refused : contains allow_char 1 ≡ false
unfolding contains allow_char
one_refused = refl

not_one : (c : ℕ) → contains allow_char c ≡ true → nat_beq c 1 ≡ false
not_one c ok = elim (Bool-cases (nat_beq c 1)) [
  | inr other ↦ other
  | inl same ↦
      elim (clash (sym ok ∙ ap (contains allow_char) ((nat_beq_iff c 1).1 same) ∙ one_refused)) [ ]
]

passed_first :
    (i c : ℕ) (ns : Bytes)
    → contains allow_char c ≡ true
    → check_from i (c ∷ ns) ≡ check_from (i + 1) ns
unfolding check_from
passed_first i c ns ok = rw (check_from, ok) refl

refused_first :
    (i c : ℕ) (ns : Bytes) → contains allow_char c ≡ false → check_from i (c ∷ ns) ≡ none → ⊥
unfolding check_from
refused_first i c ns bad e = ground (arith, bad, e)

passed-Without : (i : ℕ) (ns : Bytes) → check_from i ns ≡ none → Without 1 ns
unfolding check_from
passed-Without i [] e = tt
passed-Without i (c ∷ ns) e = elim (Bool-cases (contains allow_char c)) [
  | inl ok ↦ (not_one c ok, passed-Without (i + 1) ns (sym (passed_first i c ns ok) ∙ e))
  | inr bad ↦ elim (refused_first i c ns bad e) [ ]
]

cut :
    (n n' z z' : Bytes)
    → Without 1 n
    → Without 1 n'
    → n ++ (1 ∷ z) ≡ n' ++ (1 ∷ z')
    → (n ≡ n') × (z ≡ z')
cut [] [] z z' h h' e = ground (arith, e)
cut [] (c ∷ n') z z' h h' e = ground (arith, e, h')
cut (b ∷ n) [] z z' h h' e = ground (arith, e, h)
cut (b ∷ n) (c ∷ n') z z' h h' e =
    let (same, rest) = cut n n' z z' h.1 h'.1 (tail-eq_of_cons-eq e) in
    (cons-eq-cons.1 (head-eq_of_cons-eq e, same), rest)

-- The server's key for a zone names one zone only, as long as the names of the namespaces pass the
-- client's check.
pub make_zone_key-injective :
    (n n' z z' : Bytes)
    → check_valid_name_type n ≡ none
    → check_valid_name_type n' ≡ none
    → make_zone_key n z ≡ make_zone_key n' z'
    → (n ≡ n') × (z ≡ z')
unfolding make_zone_key check_valid_name_type
make_zone_key-injective n n' z z' h h' e =
    cut n n' z z' (passed-Without 0 n h) (passed-Without 0 n' h')
      (sym (append_assoc n (1 ∷ []) z) ∙ e ∙ append_assoc n' (1 ∷ []) z')
