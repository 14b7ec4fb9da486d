-- ===== src/Rights.antt =====
-- PrivilegeManager's static helpers for privilege_zone and privilege_servlet: the two kinds of entry
-- have the same code, over the fields that Right names.
pub mod Grant
pub mod Lists
use ea.Common.{
  ℕ, ◌≡◌, ◌↔◌, refl, Bool, true, false, ◌&&◌, ◌||◌, Option, none, some, List, [], ◌∷◌, ◌==◌, nat_eq,
  ltb, if◌then◌else◌,
}
use ea.Common.Eq.{KeyEq, pair_eq}
use ea.Api.{PrivilegeZone, PrivilegeServlet}

pub record Right (A K : Type 0) : Type 0 where
  -- the ids that an entry is found by
  pub key : A → K
  pub rw : A → ℕ
  pub has_rw : A → Bool
  pub force : A → Bool
  pub set_rw : A → ℕ → A
  pub key-set_rw : (a : A) (n : ℕ) → key (set_rw a n) ≡ key a
  pub rw-set_rw : (a : A) (n : ℕ) → rw (set_rw a n) ≡ n

module _ {A K : Type 0} ⦃keys : KeyEq K⦄ (right : Right A K) where
  -- What becomes of an entry that is there: the request's right where it is forced or higher.
  unfoldable pub raise : A → A → A
  raise privilege mem =
      if right.force privilege
      then right.set_rw mem (right.rw privilege)
      else if ltb (right.rw mem) (right.rw privilege)
      then right.set_rw mem (right.rw privilege)
      else mem

  -- the first entry of the request's ids is raised, or the request is added at the end
  unfoldable pub insert_right : A → List A → List A
  unfolding raise
  insert_right privilege [] = privilege ∷ []
  insert_right privilege (mem ∷ l) =
      let rest = insert_right privilege l in
      if right.key mem == right.key privilege then raise privilege mem ∷ l else mem ∷ rest

  -- entries of the request's ids are dropped, or lowered to the request's right
  unfoldable pub delete_right : A → List A → List A
  delete_right privilege [] = []
  delete_right privilege (copy ∷ l) =
      let rest = delete_right privilege l in
      if right.key copy == right.key privilege
      then if right.has_rw privilege && ltb (right.rw privilege) (right.rw copy)
        then privilege ∷ rest
        else rest
      else copy ∷ rest

-- for (auto &p : request) step(p, mem)
unfoldable pub for_each {ℓ} : {A B : Type ℓ} → (A → B → B) → List A → B → B
for_each step [] mem = mem
for_each step (a ∷ l) mem = for_each step l (step a mem)

abbrev pub zone_right : Right PrivilegeZone ℕ
zone_right = record {
  key = λ z. z.zone_id;
  rw = λ z. z.zone_rw;
  has_rw = λ z. z.has_zone_rw;
  force = λ z. z.force;
  set_rw = λ z n. record z { has_zone_rw = true; zone_rw = n };
  key-set_rw = λ z n. refl;
  rw-set_rw = λ z n. refl;
}

abbrev pub servlet_right : Right PrivilegeServlet (ℕ × ℕ)
servlet_right = record {
  key = λ s. (s.zone_id, s.servlet_id);
  rw = λ s. s.servlet_rw;
  has_rw = λ s. s.has_servlet_rw;
  force = λ s. s.force;
  set_rw = λ s n. record s { has_servlet_rw = true; servlet_rw = n };
  key-set_rw = λ s n. refl;
  rw-set_rw = λ s n. refl;
}
