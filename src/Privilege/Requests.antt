-- ===== src/Privilege/Requests.antt =====
-- process_user_privilege: what it lets through to raft.
use ea.Common.{
  ◌≡◌, refl, Bool, true, false, ◌&&◌, not, is_some, arith, Bool-cases, Option-cases, inl, inr,
}
use ea.Common.Bytes.{Bytes}
use ea.Api.{OpType, ManagerRequest, op_create_user}
use ea.Base.{BaseStateMachine, Done, Routed, process}
use ea.Privilege.{user_of, process_error, process_user_privilege}
use ea.Privilege.Outcomes.{is_user_op}

-- A request on users is complete: it carries a user, and a password where a user is created.
abbrev pub is_complete : OpType → ManagerRequest → Bool
is_complete op_create_user request =
    is_some request.user_privilege && is_some (user_of request).password
is_complete op request = is_some request.user_privilege && is_user_op op

process_error_lem :
    (request : ManagerRequest)
    → is_some (process_error request) ≡ not (is_complete request.op_type request)
unfolding process_error user_of
process_error_lem request = ground arith

-- Proposed to raft as it came where `ok`, else answered.
abbrev pub IsProposedIff : Bool → ManagerRequest → Done → Routed → Type 0
IsProposedIff ok request response (Routed.answered answer) = ok ≡ false
IsProposedIff ok request response Routed.failed = ⊥
IsProposedIff ok request response (Routed.proposed r d) =
    (ok ≡ true) × (r ≡ request) × (d ≡ response)

-- On a leader, a request that serializes goes to raft, unchanged and with its response, where it is one of
-- the four on users, carries a user, and has a password where it creates one. Any other one, and
-- each on a replica that does not lead, is answered at once.
pub process_user_privilege_cases :
    (m : BaseStateMachine) (leader : Bytes) (serializes : ManagerRequest → Bool)
    (request : ManagerRequest) (response : Done)
    → serializes request ≡ true
    → IsProposedIff
        (m.is_leader && is_complete request.op_type request)
        request
        response
        (process_user_privilege m leader serializes true request response)
unfolding process_user_privilege process
process_user_privilege_cases m leader serializes request response h =
    let complete = process_error_lem request in
    elim (Option-cases (process_error request)) [
      | inr (msg, e) ↦ rw (process_user_privilege, e) (ground (arith, complete, e))
      | inl e ↦ elim (Bool-cases m.is_leader) [
        | inl f ↦ rw (process_user_privilege, e, f, h) (ground (arith, complete, e), refl, refl)
        | inr f ↦ rw (process_user_privilege, e, f) refl
      ]
    ]
