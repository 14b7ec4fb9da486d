-- ===== src/AutoIncr/Ranges.antt =====
-- AutoIncrStateMachine::gen_id: the ranges that are handed out for one servlet do not meet.
use ea.Common.{ℕ, ◌+◌, ◌≤◌, ◌≡◌, Option, none, some, List, arith, eq_refl, subst}
use native.Mathlib.Nat.{le_trans}
use ea.Common.Int.{int_eq}
use ea.Common.Maps.{find, find-assign}
use ea.Api.{ManagerRequest, ManagerResponse}
use ea.Base.{Done, Entry}
use ea.AutoIncr.{AutoIncrementMap, increment_info, first_id, gen_id, set_success, on_apply}
use ea.AutoIncr.Forward.{At, Fits, IsForwardLog, At-some, here_at, first_id_ge, on_apply_forward}

abbrev pair : Option ℕ → Option ℕ → Option (ℕ × ℕ)
pair (some s) (some e) = some (s, e)
pair _ _ = none

-- The ids [start_id, end_id) of an answer.
abbrev pub range : Done → Option (ℕ × ℕ)
range none = none
range (some a) = pair a.start_id a.end_id

-- gen_id hands out `count` ids from the counter on, and moves the counter to their end.
gen_id-range :
    (m : AutoIncrementMap) (r : ManagerRequest) (a : ManagerResponse) (v : ℕ)
    → find m (increment_info r).servlet_id ≡ some v
    → Fits (increment_info r) v
    → (s : ℕ) × (v ≤ s)
      × (range (gen_id m r (some a)).1 ≡ some (s, s + (increment_info r).count))
      × (find (gen_id m r (some a)).0 (increment_info r).servlet_id
          ≡ some (s + (increment_info r).count))
unfolding gen_id set_success
gen_id-range m r a v e f =
    let b = first_id_ge (increment_info r) v f in
    (
      first_id v (increment_info r).start_id,
      b.0,
      rw (e, gen_id, set_success) (ground (arith, b)),
      rw (e, gen_id)
          (rw
            (find-assign m _ _ (increment_info r).servlet_id, eq_refl (increment_info r).servlet_id)
            (ground (arith, b))),
    )

-- Two answers of gen_id for one servlet, whatever entries the log has between them that neither drop
-- the counter, nor force it, nor wrap it: each range has the requested length, and the later one
-- begins at or after the end of the earlier one.
pub gen_ranges_disjoint :
    (m : AutoIncrementMap) (r₁ r₂ : ManagerRequest) (a₁ a₂ : ManagerResponse) (log : List Entry)
    (v : ℕ)
    → (increment_info r₂).servlet_id ≡ (increment_info r₁).servlet_id
    → find m (increment_info r₁).servlet_id ≡ some v
    → Fits (increment_info r₁) v
    → IsForwardLog (gen_id m r₁ (some a₁)).0 (increment_info r₁).servlet_id log
    → At
        (Fits (increment_info r₂))
        (find (on_apply (gen_id m r₁ (some a₁)).0 log).0 (increment_info r₂).servlet_id)
    → (s₁ : ℕ) × (s₂ : ℕ) × (range (gen_id m r₁ (some a₁)).1
        ≡ some (s₁, s₁ + (increment_info r₁).count))
      × (range (gen_id (on_apply (gen_id m r₁ (some a₁)).0 log).0 r₂ (some a₂)).1
          ≡ some (s₂, s₂ + (increment_info r₂).count))
      × (s₁ + (increment_info r₁).count ≤ s₂)
gen_ranges_disjoint m r₁ r₂ a₁ a₂ log v same e f forward g =
    let (s₁, _, first, moved) = gen_id-range m r₁ a₁ v e f in
    let m' = (gen_id m r₁ (some a₁)).0 in
    let (w, here, fits) = At-some _ _ g in
    let (s₂, later, second, _) = gen_id-range (on_apply m' log).0 r₂ a₂ w here fits in
    let above = on_apply_forward m' _ _ log moved forward in
    let below : s₁ + (increment_info r₁).count ≤ w =
      here_at _ (subst (λ k. find (on_apply m' log).0 k ≡ some w) same here) above in
    (s₁, s₂, first, second, le_trans below later)
