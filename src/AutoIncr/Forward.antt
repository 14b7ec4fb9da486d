-- ===== src/AutoIncr/Forward.antt =====
-- AutoIncrStateMachine: a counter only moves forward, as long as nothing drops it, forces it back
-- or makes it wrap.
use ea.Common.{
  ℕ, ◌+◌, ◌^◌, ◌≤◌, ◌<◌, ◌==◌, ◌≡◌, refl, ◌⊎◌, inl, inr, true, false, Option, none, some, List, [],
  ◌∷◌, arith, get_or, Option-cases, Bool-cases, ap, subst,
}
use ea.Common.Int.{ℤ, int_eq, int_beq_iff}
use ea.Common.Maps.{find, assign, find-assign, find-erase}
use ea.Api.{
  OpType, op_add_id_for_auto_increment, op_drop_id_for_auto_increment, op_gen_id_for_auto_increment,
  op_update_for_auto_increment, AutoIncrement, ManagerRequest,
}
use ea.Base.{Done, Entry}
use ea.AutoIncr.{
  AutoIncrementMap, increment_info, add_servlet_id, drop_servlet_id, first_id, gen_id, update_error,
  updated_id, update, dispatch, apply_request, apply_entry, on_apply,
}

-- The counter is there, and `P` holds of it.
abbrev pub At : (ℕ → Type 0) → Option ℕ → Type 0
At P none = ⊥
At P (some next) = P next

-- The sums of the request stay below 2 ^ 64.
abbrev pub Fits : AutoIncrement → ℕ → Type 0
Fits info next =
    next + get_or info.start_id 0 + 1 + info.count + get_or info.increment_id 0 < 2 ^ 64

-- The request neither drops the counter of `id`, nor forces it, nor makes it wrap.
abbrev pub IsForward : OpType → ℤ → AutoIncrement → ℕ → Type 0
IsForward op_drop_id_for_auto_increment id info next = (info.servlet_id == id) ≡ false
IsForward op_gen_id_for_auto_increment id info next =
    ((info.servlet_id == id) ≡ false) ⊎ Fits info next
IsForward op_update_for_auto_increment id info next =
    ((info.servlet_id == id) ≡ false) ⊎ (Fits info next × (get_or info.force false ≡ false))
IsForward _ id info next = Unit

abbrev pub IsForwardRequest : ℤ → Option ManagerRequest → ℕ → Type 0
IsForwardRequest id none next = Unit
IsForwardRequest id (some r) next = IsForward r.op_type id (increment_info r) next

-- Every entry of the log is such, at the counter that it meets.
abbrev pub IsForwardLog : AutoIncrementMap → ℤ → List Entry → Type 0
IsForwardLog m id [] = Unit
IsForwardLog m id (e ∷ log) =
    At (IsForwardRequest id e.request) (find m id) × IsForwardLog (apply_entry m e).0 id log

-- A write at `k` keeps `P` of the counter of `id`, if the value written has it.
At-assign :
    (P : ℕ → Type 0) (m : AutoIncrementMap) (k id : ℤ) (v : ℕ)
    → ((k == id) ≡ true → P v)
    → ((k == id) ≡ false → At P (find m id))
    → At P (find (assign m k v) id)
At-assign P m k id v hit miss =
    rw (find-assign m k v id)
      (elim (Bool-cases (k == id)) [ inl e ↦ rw e (hit e) | inr e ↦ rw e (miss e) ])

-- The counter at an equal key.
find_same : (m : AutoIncrementMap) (k id : ℤ) → (k == id) ≡ true → find m k ≡ find m id
find_same m k id e = ap (find m) ((int_beq_iff k id).1 e)

pub first_id_ge :
    (info : AutoIncrement) (next : ℕ)
    → Fits info next
    → (next ≤ first_id next info.start_id)
      × (first_id next info.start_id ≤ next + get_or info.start_id 0 + 1)
unfolding first_id
first_id_ge info next f = ground arith

updated_id_ge :
    (info : AutoIncrement) (next : ℕ)
    → Fits info next
    → get_or info.force false ≡ false
    → update_error info next ≡ none
    → next ≤ updated_id info next
unfolding update_error updated_id
updated_id_ge info next f unforced ok = ground arith

pub At-some : (P : ℕ → Type 0) (o : Option ℕ) → At P o → (v : ℕ) × (o ≡ some v) × P v
At-some P none p = absurd p
At-some P (some v) p = (v, refl, p)

pub At-mono : (a b : ℕ) → a ≤ b → (o : Option ℕ) → At (λ v. b ≤ v) o → At (λ v. a ≤ v) o
At-mono a b h none p = p
At-mono a b h (some v) p = omega arith

pub here_at : (P : ℕ → Type 0) {o : Option ℕ} {v : ℕ} → o ≡ some v → At P o → P v
here_at P e p = subst (At P) e p

module _ (m : AutoIncrementMap) (id : ℤ) (next : ℕ) (here : find m id ≡ some next) where
  abbrev NotBelow : Option ℕ → Type 0
  NotBelow = At (λ v. next ≤ v)

  kept : NotBelow (find m id)
  kept = rw here (omega arith)

  add_forward : (r : ManagerRequest) (d : Done) → NotBelow (find (add_servlet_id m r d).0 id)
  unfolding add_servlet_id
  add_forward r d = elim (Option-cases (find m (increment_info r).servlet_id)) [
    | inl e ↦
        rw (e, add_servlet_id)
          (At-assign _ m _ id _ (λ same. cc (find_same m (increment_info r).servlet_id id same))
            (λ _. kept))
    | inr (v, e) ↦ rw (e, add_servlet_id) kept
  ]

  gen_forward :
      (r : ManagerRequest) (d : Done)
      → IsForward op_gen_id_for_auto_increment id (increment_info r) next
      → NotBelow (find (gen_id m r d).0 id)
  unfolding gen_id
  gen_forward r d f = elim (Option-cases (find m (increment_info r).servlet_id)) [
    | inl e ↦ rw (e, gen_id) kept
    | inr (v, e) ↦
        rw (e, gen_id)
          (At-assign _ m _ id _
            (λ same. ground (
              arith,
              first_id_ge (increment_info r) next,
              find_same m (increment_info r).servlet_id id same,
            ))
            (λ _. kept))
  ]

  drop_forward :
      (r : ManagerRequest) (d : Done)
      → IsForward op_drop_id_for_auto_increment id (increment_info r) next
      → NotBelow (find (drop_servlet_id m r d).0 id)
  unfolding drop_servlet_id
  drop_forward r d f = elim (Option-cases (find m (increment_info r).servlet_id)) [
    | inl e ↦ rw (e, drop_servlet_id) kept
    | inr (v, e) ↦ rw (e, drop_servlet_id) (rw (find-erase m _ id, f) kept)
  ]

  update_hit :
      (r : ManagerRequest) (v : ℕ)
      → find m (increment_info r).servlet_id ≡ some v
      → IsForward op_update_for_auto_increment id (increment_info r) next
      → update_error (increment_info r) v ≡ none
      → ((increment_info r).servlet_id == id) ≡ true
      → next ≤ updated_id (increment_info r) v
  update_hit r v e f ok same = ground (
    arith,
    updated_id_ge (increment_info r) next,
    find_same m (increment_info r).servlet_id id same,
  )

  update_forward :
      (r : ManagerRequest) (d : Done)
      → IsForward op_update_for_auto_increment id (increment_info r) next
      → NotBelow (find (update m r d).0 id)
  unfolding update
  update_forward r d f = elim (Option-cases (find m (increment_info r).servlet_id)) [
    | inl e ↦ rw (e, update) kept
    | inr (v, e) ↦
        rw (e, update)
          (elim (Option-cases (update_error (increment_info r) v)) [
            | inl ok ↦
                rw (ok, update)
                  (At-assign _ m _ id _ (λ same. update_hit r v e f ok same) (λ _. kept))
            | inr (msg, refused) ↦ rw (refused, update) kept
          ])
  ]

  dispatch_forward :
      (op : OpType) (r : ManagerRequest) (d : Done)
      → IsForward op id (increment_info r) next
      → NotBelow (find (dispatch op m r d).0 id)
  unfolding dispatch
  dispatch_forward op_add_id_for_auto_increment r d f = add_forward r d
  dispatch_forward op_drop_id_for_auto_increment r d f = drop_forward r d f
  dispatch_forward op_gen_id_for_auto_increment r d f = gen_forward r d f
  dispatch_forward op_update_for_auto_increment r d f = update_forward r d f
  dispatch_forward _ r d f = kept

  request_forward :
      (r : Option ManagerRequest) (d : Done)
      → IsForwardRequest id r next
      → NotBelow (find (apply_request m r d).0 id)
  unfolding apply_request
  request_forward none d f = kept
  request_forward (some r) d f = dispatch_forward r.op_type r _ f

-- Over any log that is forward for `id`, its counter is there at the end, and no lower.
pub on_apply_forward :
    (m : AutoIncrementMap) (id : ℤ) (next : ℕ) (log : List Entry)
    → find m id ≡ some next
    → IsForwardLog m id log
    → At (λ v. next ≤ v) (find (on_apply m log).0 id)
unfolding on_apply
on_apply_forward m id next [] here f = rw here (omega arith)
on_apply_forward m id next (e ∷ log) here f =
    let (v, now, above) =
      At-some _ _ (request_forward m id next here e.request e.done (here_at _ here f.0)) in
    At-mono next v above _ (on_apply_forward (apply_entry m e).0 id v log now f.1)
