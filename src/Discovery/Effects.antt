-- ===== src/Discovery/Effects.antt =====
-- What an operation of a manager does to the database and to the answer, as the other managers and the
-- client see it.
use ea.Common.{
  ℕ, String, ◌≡◌, ◌∙◌, refl, true, false, ◌⊎◌, inl, inr, Option, none, some, List, [], ◌∷◌, ◌==◌,
  nat_eq, arith, ap, sym, subst, if_cases, if◌then◌else◌,
}
use ea.Common.Bytes.{Bytes, bytes_eq, bytes_beq_iff}
use ea.Common.Eq.{nat_beq_iff}
use ea.Api.{ErrCode}
use ea.Base.{Done, if_done_set_response}
use ea.Rocks.{Op, Rocks, applied, begins_with}

-- Every key of the batch begins with the byte, and what is put fits `R`.
abbrev pub Under : ℕ → (Bytes → Bytes → Type 0) → List Op → Type 0
Under p R [] = Unit
Under p R (Op.put k v ∷ ops) = (begins_with p k ≡ true) × R k v × Under p R ops
Under p R (Op.delete k ∷ ops) = (begins_with p k ≡ true) × Under p R ops

other_key :
    (p q : ℕ) (j k : Bytes) → begins_with p j ≡ true → (q == p) ≡ false → (j == q ∷ k) ≡ false
other_key p q [] k h other = refl
other_key p q (b ∷ j) k h other = ground (arith, nat_beq_iff b p, nat_beq_iff q p, nat_beq_iff b q)

applied-Under :
    (p : ℕ) (R : Bytes → Bytes → Type 0) (q : ℕ) (k : Bytes) (ops : List Op) (old : Option Bytes)
    → Under p R ops
    → (q == p) ≡ false
    → applied ops (q ∷ k) old ≡ old
applied-Under p R q k [] old u other = refl
applied-Under p R q k (Op.put j v ∷ ops) old u other =
    rw (other_key p q j k u.0 other) (applied-Under p R q k ops old u.2 other)
applied-Under p R q k (Op.delete j ∷ ops) old u other =
    rw (other_key p q j k u.0 other) (applied-Under p R q k ops old u.1 other)

-- A value, where there is one, fits `R`.
abbrev pub Fits : (Bytes → Bytes → Type 0) → Bytes → Option Bytes → Type 0
Fits R k none = Unit
Fits R k (some v) = R k v

-- After a batch that fits, what fitted still fits.
applied-Fits :
    (p : ℕ) (R : Bytes → Bytes → Type 0) (k : Bytes) (ops : List Op) (old : Option Bytes)
    → Under p R ops
    → Fits R k old
    → Fits R k (applied ops k old)
applied-Fits p R k [] old u h = h
applied-Fits p R k (Op.put j v ∷ ops) old u h =
    applied-Fits p R k ops (if j == k then some v else old) u.2 (
      if_cases (Fits R k) (j == k) (some v) old
        (λ e. subst (λ i. R i v) ((bytes_beq_iff j k).1 e) u.1) (λ e. h))
applied-Fits p R k (Op.delete j ∷ ops) old u h =
    applied-Fits p R k ops (if j == k then none else old) u.1
      (if_cases (Fits R k) (j == k) none old (λ e. tt) (λ e. h))

-- The response is filled, where there is one.
abbrev pub Answers : Done → Done → Type 0
Answers d d' = (code : ErrCode) × (msg : String) × (d' ≡ if_done_set_response d code msg)

pub Answers-twice : (d d' d'' : Done) → Answers d d' → Answers d' d'' → Answers d d''
unfolding if_done_set_response
Answers-twice none d' d'' (c, m, e) (c', m', e') =
    (c', m', e' ∙ ap (λ x. if_done_set_response x c' m') e)
Answers-twice (some r) d' d'' (c, m, e) (c', m', e') =
    (c', m', e' ∙ ap (λ x. if_done_set_response x c' m') e)

module _ (rocks : Rocks) where
  -- The database is as it was, or a batch was written whose keys all begin with the byte, and whose values fit.
  abbrev pub Writes : ℕ → (Bytes → Bytes → Type 0) → rocks.Db → rocks.Db → Type 0
  Writes p R db db' =
      (db' ≡ db) ⊎ ((ops : List Op) × Under p R ops × (rocks.write db ops ≡ some db'))

  abbrev pub Effect : ℕ → (Bytes → Bytes → Type 0) → rocks.Db → Done → rocks.Db × Done → Type 0
  Effect p R db d result = Writes p R db result.0 × Answers d result.1

  pub quiet :
      (p : ℕ) (R : Bytes → Bytes → Type 0) (db : rocks.Db) (d : Done) (code : ErrCode)
      (msg : String)
      → Effect p R db d (db, if_done_set_response d code msg)
  quiet p R db d code msg = (inl refl, (code, msg, refl))

  pub written :
      (p : ℕ) (R : Bytes → Bytes → Type 0) (db db' : rocks.Db) (d : Done) (ops : List Op)
      (code : ErrCode) (msg : String)
      → Under p R ops
      → rocks.write db ops ≡ some db'
      → Effect p R db d (db', if_done_set_response d code msg)
  written p R db db' d ops code msg u w = (inr (ops, u, w), (code, msg, refl))

  -- A manager leaves the keys of the others as they were.
  pub Writes-get :
      (p : ℕ) (R : Bytes → Bytes → Type 0) (q : ℕ) (k : Bytes) (db db' : rocks.Db)
      → Writes p R db db'
      → (q == p) ≡ false
      → rocks.get db' (q ∷ k) ≡ rocks.get db (q ∷ k)
  Writes-get p R q k db db' (inl same) other = ap (λ x. rocks.get x (q ∷ k)) same
  Writes-get p R q k db db' (inr (ops, u, w)) other =
      rocks.get-write db db' ops (q ∷ k) w
      ∙ applied-Under p R q k ops (rocks.get db (q ∷ k)) u other

  -- Every value under the byte fits.
  abbrev pub AllFit : ℕ → (Bytes → Bytes → Type 0) → rocks.Db → Type 0
  AllFit p R db = (k : Bytes) → Fits R (p ∷ k) (rocks.get db (p ∷ k))

  pub Writes-AllFit :
      (p : ℕ) (R : Bytes → Bytes → Type 0) (db db' : rocks.Db)
      → Writes p R db db'
      → AllFit p R db
      → AllFit p R db'
  Writes-AllFit p R db db' (inl same) h = subst (AllFit p R) (sym same) h
  Writes-AllFit p R db db' (inr (ops, u, w)) h = λ k.
      subst (Fits R (p ∷ k)) (sym (rocks.get-write db db' ops (p ∷ k) w))
        (applied-Fits p R (p ∷ k) ops (rocks.get db (p ∷ k)) u (h k))

  -- A manager leaves the values of the others as they were.
  pub Writes-AllFit-other :
      (p : ℕ) (R : Bytes → Bytes → Type 0) (q : ℕ) (Q : Bytes → Bytes → Type 0) (db db' : rocks.Db)
      → Writes p R db db'
      → (q == p) ≡ false
      → AllFit q Q db
      → AllFit q Q db'
  Writes-AllFit-other p R q Q db db' w other h =
      λ k. subst (Fits Q (q ∷ k)) (sym (Writes-get p R q k db db' w other)) (h k)
