-- ===== src/Tso/Update.antt =====
-- TSOStateMachine::update_tso and reset_tso: the oracle does not go back, unless a reset is forced.
use ea.Common.{
  ◌≡◌, ◌⊎◌, true, false, Option, none, some, List, [], ◌∷◌, arith, Bool-cases, inl, inr,
}
use ea.Common.Int.{ℤ, ◌≤ℤ◌}
use ea.Api.{success, internal_error, OpType, op_reset_tso, op_update_tso}
use ea.Tso.Messages.{TsoTimestamp, TsoRequest, TsoResponse, TsoDone, set_tso_response, tso_error}
use ea.Tso.{
  TsoObj, TsoStateMachine, falls_back, reset_tso, update_tso, dispatch, apply_request, TsoEntry,
  on_apply,
}

-- Neither the saved time nor the physical part is lower.
abbrev pub NotBack : TsoObj → TsoObj → Type 0
NotBack o o' =
    (o.last_save_physical ≤ℤ o'.last_save_physical)
    × (o.current_timestamp.physical ≤ℤ o'.current_timestamp.physical)

-- The entry is no forced reset.
abbrev pub IsUnforced : Option TsoRequest → Type 0
IsUnforced none = Unit
IsUnforced (some r) = r.force ≡ false

dispatch-NotBack :
    (op : OpType) (s : TsoStateMachine) (r : TsoRequest) (d : TsoDone)
    → r.force ≡ false
    → NotBack s.tso_obj (dispatch op s r d).0.tso_obj
unfolding dispatch reset_tso update_tso falls_back
dispatch-NotBack op_reset_tso s r d h = ground arith
dispatch-NotBack op_update_tso s r d h = ground arith
dispatch-NotBack _ s r d h = omega arith

pub apply-NotBack :
    (s : TsoStateMachine) (r : Option TsoRequest) (d : TsoDone)
    → IsUnforced r
    → NotBack s.tso_obj (apply_request s r d).0.tso_obj
unfolding apply_request
apply-NotBack s none d h = omega arith
apply-NotBack s (some r) d h = dispatch-NotBack r.op_type s r _ h

abbrev pub IsUnforcedLog : List TsoEntry → Type 0
IsUnforcedLog [] = Unit
IsUnforcedLog (e ∷ log) = IsUnforced e.request × IsUnforcedLog log

-- Over a log with no forced request, whatever its entries are, neither the saved time nor the physical part
-- of the oracle goes down.
pub on_apply-NotBack :
    (s : TsoStateMachine) (log : List TsoEntry)
    → IsUnforcedLog log
    → NotBack s.tso_obj (on_apply s log).0.tso_obj
unfolding on_apply
on_apply-NotBack s [] h = omega arith
on_apply-NotBack s (e ∷ log) h =
    let first = apply-NotBack s e.request e.done h.0 in
    let rest = on_apply-NotBack (apply_request s e.request e.done).0 log h.1 in
    omega (arith, first, rest)

pub falls_back_not :
    (o : TsoObj) (save : ℤ) (current : TsoTimestamp)
    → falls_back o save current ≡ false
    → NotBack o (record { current_timestamp = current; last_save_physical = save })
unfolding falls_back
falls_back_not o save current h = ground arith

pub falls_back_is :
    (o : TsoObj) (save : ℤ) (current : TsoTimestamp)
    → falls_back o save current ≡ true
    → ¬ NotBack o (record { current_timestamp = current; last_save_physical = save })
unfolding falls_back
falls_back_is o save current h = λ n. ground arith

-- An update is refused, with INTERNAL_ERROR and no change, exactly where it would lower the saved time or
-- the physical part; else the oracle stands at the request's values and the answer is SUCCESS.
pub update_tso_cases :
    (s : TsoStateMachine) (current : TsoTimestamp) (save : ℤ) (r : TsoRequest) (a : TsoResponse)
    → r.current_timestamp ≡ some current
    → r.save_physical ≡ some save
    → let o' : TsoObj = record { current_timestamp = current; last_save_physical = save } in
      ((update_tso s r (some a) ≡ (record s { tso_obj = o' }, some (tso_error a success "SUCCESS")))
        × NotBack s.tso_obj o')
      ⊎ ((update_tso s r (some a) ≡ (s, some (tso_error a internal_error "time can't fallback")))
          × (¬ NotBack s.tso_obj o'))
unfolding update_tso set_tso_response
update_tso_cases s current save r a e f = elim (Bool-cases (falls_back s.tso_obj save current)) [
  | inl back ↦ inr (rw (e, f, back, update_tso), falls_back_is s.tso_obj save current back)
  | inr on ↦ inl (rw (e, f, on, update_tso), falls_back_not s.tso_obj save current on)
]
