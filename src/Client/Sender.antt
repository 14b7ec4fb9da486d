-- ===== src/Client/Sender.antt =====
-- ea/client/discovery_sender: the loop that sends a request to the leader of the servers. The network, the
-- random numbers and butil::str2endpoint are parameters; pauses, time-outs and logging are left out.
pub mod Retries
pub mod Leader
mod Tests
use ea.Common.{
  ℕ, zero, suc, ◌+◌, ◌%◌, Bool, true, false, ◌&&◌, not, Option, none, some, List, [], ◌∷◌, ◌==◌,
  nat_eq, if◌then◌else◌, get_or, leb,
}
use ea.Common.Bytes.{Bytes}
use ea.Common.Int.{ℤ, pos, ltb_ℤ, pos_part}
use ea.Api.{ErrCode, not_leader, have_not_init, ManagerResponse}

-- butil::EndPoint: IP_ANY is 0
pub record EndPoint : Type 0 where
  pub ip : ℕ
  pub port : ℕ

-- butil::EndPoint()
abbrev pub no_end_point : EndPoint
no_end_point = record { ip = 0; port = 0 }

pub record Sender : Type 0 where
  pub servlet_nodes : List EndPoint
  pub master_leader_address : EndPoint

-- What becomes of one call: Init of the channel fails, the controller fails, or there is a response.
pub data Reply : Type 0 where
  no_channel failed : Reply
  replied : ManagerResponse → Reply

-- OkStatus with the response, or UnavailableError. `undefined` is the division by the number of the nodes
-- where there is none, `running` where the fuel is used up.
pub data Sent : Type 0 where
  ok : ManagerResponse → Sent
  unavailable undefined running : Sent

abbrev pub size : List EndPoint → ℕ
size [] = 0
size (n ∷ nodes) = suc (size nodes)

abbrev pub node_at : ℕ → List EndPoint → Option EndPoint
node_at i [] = none
node_at zero (n ∷ nodes) = some n
node_at (suc i) (n ∷ nodes) = node_at i nodes

-- response.errcode() == code
abbrev pub is_not_leader : Option ErrCode → Bool
is_not_leader (some not_leader) = true
is_not_leader _ = false

abbrev pub is_have_not_init : Option ErrCode → Bool
is_have_not_init (some have_not_init) = true
is_have_not_init _ = false

unfoldable pub set_leader_address : Sender → EndPoint → Sender
set_leader_address s addr = record s { master_leader_address = addr }

-- The address of a round: the leader's, or a node by a random number; none where there is no node.
unfoldable pub address_of : Sender → ℕ → Option EndPoint
address_of s seed =
    if s.master_leader_address.ip == 0
    then node_at (seed % size s.servlet_nodes) s.servlet_nodes
    else some s.master_leader_address

module _ (str2endpoint : Bytes → Option EndPoint) where
  -- The answer "not leader": the leader that it names, or none where the text is no address.
  unfoldable pub redirect : Sender → ManagerResponse → Sender
  unfolding set_leader_address
  redirect s response =
      set_leader_address s (get_or (str2endpoint (get_or response.leader [])) no_end_point)

  -- A success: the node that was tried is the leader.
  unfoldable pub remember : Sender → EndPoint → Sender
  unfolding set_leader_address
  remember s address =
      if (s.master_leader_address.ip == 0) && not (address.ip == 0)
      then set_leader_address s address
      else s

  -- What a round makes of the reply: the next state, and the response where the loop ends with it.
  unfoldable pub after_reply : Sender → EndPoint → Reply → Sender × Option ManagerResponse
  unfolding set_leader_address redirect remember
  after_reply s address no_channel = (set_leader_address s no_end_point, none)
  after_reply s address failed = (set_leader_address s no_end_point, none)
  after_reply s address (replied response) =
      if is_have_not_init response.errcode
      then (set_leader_address s no_end_point, none)
      else if is_not_leader response.errcode
      then (redirect s response, none)
      else (remember s address, some response)

  -- `call t address` is the reply to the call of round t, `rand t` its random number.
  module _ (call : ℕ → EndPoint → Reply) (rand : ℕ → ℕ) (retry_times : ℤ) where
    -- The do-while loop, from the round `retry_time` on; the number is that of the calls.
    unfoldable pub send_loop : ℕ → ℕ → Sender → Sender × Sent × ℕ
    unfolding address_of after_reply
    send_loop zero retry_time s = (s, running, 0)
    send_loop (suc fuel) retry_time s = elim (address_of s (rand retry_time)) [
      | none ↦ (s, undefined, 0)
      | some address ↦
          let (s', answer) = after_reply s address (call retry_time address) in
          let (s'', sent, calls) = send_loop fuel (retry_time + 1) s' in
          elim answer [
            | some response ↦ (s', ok response, 1)
            | none ↦
                if ltb_ℤ (pos (retry_time + 1)) retry_times
                then (s'', sent, calls + 1)
                else (s', unavailable, 1)
          ]
    ]

    -- The rounds that the loop may take.
    abbrev pub rounds_of : ℕ
    rounds_of = if leb (pos_part retry_times) 1 then 1 else pos_part retry_times

    unfoldable pub send_request : Sender → Sender × Sent × ℕ
    unfolding send_loop
    send_request s = send_loop rounds_of 0 s
