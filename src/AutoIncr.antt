-- ===== src/AutoIncr.antt =====
-- ea/discovery/auto_incr_state_machine: the counters that hand out id ranges. A counter is a
-- uint64_t, so its sums wrap at 2 ^ 64. JSON text (rapidjson) and turbo::Atoi are parameters.
pub mod Forward
pub mod Ranges
pub mod Replicas
pub mod Snapshot
mod Tests
use ea.Common.{
  ℕ, ◌+◌, ◌%◌, ◌^◌, ◌==◌, String, Bool, true, false, not, ◌&&◌, ◌||◌, Option, none, some, List, [],
  ◌∷◌, ltb, is_some, get_or, if◌then◌else◌,
}
use ea.Common.Int.{ℤ, int_eq}
use ea.Common.Maps.{Map, find, has, assign, erase}
use ea.Api.{
  success, input_param_error, parse_from_pb_fail, unknown_req_type, OpType,
  op_add_id_for_auto_increment, op_drop_id_for_auto_increment, op_gen_id_for_auto_increment,
  op_update_for_auto_increment, AutoIncrement, ManagerRequest, ManagerResponse,
}
use ea.Api.Absent.{no_auto_increment}
use ea.Base.{Done, if_done_set_response, set_op_type, Entry}

-- `_auto_increment_map`: the next id of each servlet.
abbrev pub AutoIncrementMap : Type 0
AutoIncrementMap = Map ℤ ℕ

-- uint64_t a + b
abbrev pub add64 : ℕ → ℕ → ℕ
add64 a b = (a + b) % 2 ^ 64

-- request.auto_increment()
unfoldable pub increment_info : ManagerRequest → AutoIncrement
increment_info request = get_or request.auto_increment no_auto_increment

-- A successful answer: SUCCESS, the request's op_type and the ids that the handler sets.
unfoldable pub set_success : Done → OpType → Option ℕ → Option ℕ → Done
set_success none op start end = none
set_success (some r) op start end = some (record r {
  errcode = some success;
  op_type = some op;
  start_id = elim start [ none ↦ r.start_id | some s ↦ some s ];
  end_id = elim end [ none ↦ r.end_id | some e ↦ some e ];
  errmsg = some "SUCCESS";
})

unfoldable pub add_servlet_id : AutoIncrementMap → ManagerRequest → Done → AutoIncrementMap × Done
add_servlet_id m request done =
    let info = increment_info request in
    let start_id = get_or info.start_id 0 in
    if has m info.servlet_id
    then (m, if_done_set_response done input_param_error "servlet id has exist")
    else (assign m info.servlet_id start_id, set_success done request.op_type (some start_id) none)

unfoldable pub drop_servlet_id : AutoIncrementMap → ManagerRequest → Done → AutoIncrementMap × Done
drop_servlet_id m request done =
    let info = increment_info request in
    if not (has m info.servlet_id)
    then (m, if_done_set_response done input_param_error "servlet id not exist")
    else (erase m info.servlet_id, set_success done request.op_type none none)

-- The first id that gen_id hands out: the counter, or past a start id of the request.
unfoldable pub first_id : ℕ → Option ℕ → ℕ
first_id old none = old
first_id old (some start) = if ltb old (add64 start 1) then add64 start 1 else old

unfoldable pub gen_id : AutoIncrementMap → ManagerRequest → Done → AutoIncrementMap × Done
unfolding first_id
gen_id m request done =
    let info = increment_info request in
    elim (find m info.servlet_id) [
      | none ↦ (m, if_done_set_response done input_param_error "servlet has no auto increment")
      | some old ↦
          let start = first_id old info.start_id in
          let end = add64 start info.count in
          (assign m info.servlet_id end, set_success done request.op_type (some start) (some end))
    ]

-- has_start_id() && old_start_id > start_id() + 1 && (!has_force() || force() == false)
unfoldable pub is_rollback : AutoIncrement → ℕ → Bool
is_rollback info old =
    is_some info.start_id
    && ltb (add64 (get_or info.start_id 0) 1) old
    && (not (is_some info.force) || not (get_or info.force false))

-- The counter after an accepted update.
unfoldable pub updated_id : AutoIncrement → ℕ → ℕ
updated_id info old =
    if is_some info.start_id
    then add64 (get_or info.start_id 0) 1
    else add64 old (get_or info.increment_id 0)

-- The guards of update, in order: the text of the first that refuses.
unfoldable pub update_error : AutoIncrement → ℕ → Option String
unfolding is_rollback
update_error info old =
    if not (is_some info.start_id) && not (is_some info.increment_id)
    then some "star_id or increment_id all not exist"
    else if is_some info.start_id && is_some info.increment_id
    then some "star_id and increment_id all exist"
    else if is_rollback info old
    then some "not support rollback"
    else none

unfoldable pub update : AutoIncrementMap → ManagerRequest → Done → AutoIncrementMap × Done
unfolding update_error updated_id
update m request done =
    let info = increment_info request in
    elim (find m info.servlet_id) [
      | none ↦ (m, if_done_set_response done input_param_error "servlet has no auto increment")
      | some old ↦ elim (update_error info old) [
        | some msg ↦ (m, if_done_set_response done input_param_error msg)
        | none ↦
            let next = updated_id info old in
            (assign m info.servlet_id next, set_success done request.op_type (some next) none)
      ]
    ]

-- The switch of on_apply.
unfoldable pub dispatch :
    OpType → AutoIncrementMap → ManagerRequest → Done → AutoIncrementMap × Done
dispatch op_add_id_for_auto_increment m request done = add_servlet_id m request done
dispatch op_drop_id_for_auto_increment m request done = drop_servlet_id m request done
dispatch op_gen_id_for_auto_increment m request done = gen_id m request done
dispatch op_update_for_auto_increment m request done = update m request done
dispatch _ m request done = (m, if_done_set_response done unknown_req_type "unsupport request type")

-- One round of on_apply's loop.
unfoldable pub apply_request :
    AutoIncrementMap → Option ManagerRequest → Done → AutoIncrementMap × Done
unfolding dispatch
apply_request m none done =
    (m, if_done_set_response done parse_from_pb_fail "parse from protobuf fail")
apply_request m (some request) done =
    dispatch request.op_type m request (set_op_type done request.op_type)

abbrev pub apply_entry : AutoIncrementMap → Entry → AutoIncrementMap × Done
apply_entry m e = apply_request m e.request e.done

-- on_apply: the counters after the entries, and the answer that each closure is run with.
unfoldable pub on_apply : AutoIncrementMap → List Entry → AutoIncrementMap × List Done
on_apply m [] = (m, [])
on_apply m (e ∷ log) =
    let (m', answer) = apply_entry m e in
    let (m'', answers) = on_apply m' log in (m'', answer ∷ answers)
