-- ===== src/AutoIncr/Replicas.antt =====
-- AutoIncrStateMachine::on_apply: what a replica computes does not depend on its closures, and a
-- refused request changes nothing.
use ea.Common.{
  ℕ, ◌≡◌, refl, ◌≢◌, ◌==◌, false, Option, none, some, List, [], ◌∷◌, map, arith, ap, ◌∙◌,
}
use ea.Common.Int.{ℤ, int_eq}
use ea.Common.Maps.{find, find-assign, find-erase, empty, Unique, assign-Unique, erase-Unique}
use ea.Api.{
  success, ErrCode, OpType, op_add_id_for_auto_increment, op_drop_id_for_auto_increment,
  op_gen_id_for_auto_increment, op_update_for_auto_increment, ManagerRequest, ManagerResponse,
}
use ea.Base.{Done, Entry}
use ea.AutoIncr.{
  AutoIncrementMap, increment_info, set_success, add_servlet_id, drop_servlet_id, gen_id, update,
  dispatch, apply_request, apply_entry, on_apply,
}

-- The entry as a replica meets it that did not propose it.
abbrev pub follower : Entry → Entry
follower e = record { request = e.request; done = none }

dispatch_done :
    (op : OpType) (m : AutoIncrementMap) (r : ManagerRequest) (d d' : Done)
    → (dispatch op m r d).0 ≡ (dispatch op m r d').0
unfolding dispatch add_servlet_id drop_servlet_id gen_id update
dispatch_done op_add_id_for_auto_increment m r d d' = ground arith
dispatch_done op_drop_id_for_auto_increment m r d d' = ground arith
dispatch_done op_gen_id_for_auto_increment m r d d' = ground arith
dispatch_done op_update_for_auto_increment m r d d' = ground arith
dispatch_done _ m r d d' = refl

apply_done :
    (m : AutoIncrementMap) (r : Option ManagerRequest) (d d' : Done)
    → (apply_request m r d).0 ≡ (apply_request m r d').0
unfolding apply_request
apply_done m none d d' = refl
apply_done m (some r) d d' = dispatch_done r.op_type m r _ _

-- The leader, which answers its clients, and a follower, which has no closures, hold the same counters
-- after the same log.
pub on_apply_replicas :
    (m : AutoIncrementMap) (log : List Entry)
    → (on_apply m log).0 ≡ (on_apply m (map follower log)).0
unfolding on_apply
on_apply_replicas m [] = refl
on_apply_replicas m (e ∷ log) =
    on_apply_replicas (apply_entry m e).0 log
    ∙ ap (λ n. (on_apply n (map follower log)).0) (apply_done m e.request e.done none)

abbrev code_of : Done → Option ErrCode
code_of none = none
code_of (some a) = a.errcode

-- A request that is not answered with SUCCESS, for whatever reason, leaves every counter as it was.
pub dispatch_refused :
    (op : OpType) (m : AutoIncrementMap) (r : ManagerRequest) (a : ManagerResponse)
    → code_of (dispatch op m r (some a)).1 ≢ some success
    → (dispatch op m r (some a)).0 ≡ m
unfolding dispatch add_servlet_id drop_servlet_id gen_id update set_success
dispatch_refused op_add_id_for_auto_increment m r a h = ground arith
dispatch_refused op_drop_id_for_auto_increment m r a h = ground arith
dispatch_refused op_gen_id_for_auto_increment m r a h = ground arith
dispatch_refused op_update_for_auto_increment m r a h = ground arith
dispatch_refused _ m r a h = refl

-- A request touches the counter of its own servlet alone.
pub dispatch_others :
    (op : OpType) (m : AutoIncrementMap) (r : ManagerRequest) (d : Done) (id : ℤ)
    → ((increment_info r).servlet_id == id) ≡ false
    → find (dispatch op m r d).0 id ≡ find m id
unfolding dispatch add_servlet_id drop_servlet_id gen_id update
dispatch_others op_add_id_for_auto_increment m r d id h = grind (arith, find-assign)
dispatch_others op_drop_id_for_auto_increment m r d id h = grind (arith, find-erase)
dispatch_others op_gen_id_for_auto_increment m r d id h = grind (arith, find-assign)
dispatch_others op_update_for_auto_increment m r d id h = grind (arith, find-assign)
dispatch_others _ m r d id h = refl

dispatch-Unique :
    (op : OpType) (m : AutoIncrementMap) (r : ManagerRequest) (d : Done)
    → Unique m.entries
    → Unique (dispatch op m r d).0.entries
unfolding dispatch add_servlet_id drop_servlet_id gen_id update
dispatch-Unique op_add_id_for_auto_increment m r d u = grind (arith, assign-Unique)
dispatch-Unique op_drop_id_for_auto_increment m r d u = grind (arith, erase-Unique)
dispatch-Unique op_gen_id_for_auto_increment m r d u = grind (arith, assign-Unique)
dispatch-Unique op_update_for_auto_increment m r d u = grind (arith, assign-Unique)
dispatch-Unique _ m r d u = u

apply-Unique :
    (m : AutoIncrementMap) (r : Option ManagerRequest) (d : Done)
    → Unique m.entries
    → Unique (apply_request m r d).0.entries
unfolding apply_request
apply-Unique m none d u = u
apply-Unique m (some r) d u = dispatch-Unique r.op_type m r _ u

pub empty-Unique : Unique (empty {K = ℤ} {V = ℕ}).entries
unfolding empty
empty-Unique = tt

-- A map holds each servlet once, after any log.
pub on_apply-Unique :
    (m : AutoIncrementMap) (log : List Entry) → Unique m.entries → Unique (on_apply m log).0.entries
unfolding on_apply
on_apply-Unique m [] u = u
on_apply-Unique m (e ∷ log) u =
    on_apply-Unique (apply_entry m e).0 log (apply-Unique m e.request e.done u)
