-- ===== src/Client/Sender/Tests.antt =====
-- Runs of the sender, and its theorems at concrete inputs.
use ea.Common.{
  ℕ, true, ◌≡◌, ◌≢◌, ◌≤◌, refl, Option, some, [], ◌∷◌, ◌==◌, nat_eq, if◌then◌else◌, bytes, inl, inr,
  Bool-cases, arith,
}
use ea.Common.Bytes.{Bytes}
use ea.Common.Int.{pos}
use ea.Api.{ManagerResponse, ErrCode, not_leader}
use ea.Api.Absent.{no_response}
use ea.Client.Sender.{EndPoint, Sender, Reply, replied, running, send_request, no_end_point}
use ea.Client.Sender.Retries.{send_request-Ends}
use ea.Client.Sender.Leader.{Found, Elected, send_request_finds_leader}

abbrev leader : EndPoint
leader = record { ip = 7; port = 7 }

abbrev answer : ManagerResponse
answer = record no_response { errcode = some ErrCode.success }

abbrev to_leader : ManagerResponse
to_leader = record no_response { errcode = some not_leader; leader = some (bytes "7") }

abbrev is_leader : EndPoint → ℕ
is_leader a = if a.ip == 7 then if a.port == 7 then 1 else 0 else 0

abbrev reply : ℕ → EndPoint → Reply
reply t a = if is_leader a == 1 then replied answer else replied to_leader

abbrev parse : Bytes → Option EndPoint
parse text = some leader

abbrev sender : Sender
sender = record {
  servlet_nodes = record { ip = 5; port = 5 } ∷ leader ∷ [];
  master_leader_address = no_end_point;
}

the_leader : (a : EndPoint) → (is_leader a == 1) ≡ true → a ≡ leader
the_leader a e = ground arith

elected : Elected parse reply (λ t. 0) (pos 5) leader answer
elected = (
  λ t. refl,
  λ t a. elim (Bool-cases (is_leader a == 1)) [
    | inl e ↦ inl (the_leader a e)
    | inr e ↦ inr (to_leader, rw e refl, (refl, refl))
  ],
)

send_request-Ends_example :
    ((send_request parse reply (λ t. 0) (pos 5) sender).1 ≢ running)
    × ((send_request parse reply (λ t. 0) (pos 5) sender).2 ≤ 5)
send_request-Ends_example = send_request-Ends parse reply (λ t. 0) (pos 5) sender

send_request_finds_leader_example :
    Found parse reply
      (λ t. 0)
      (pos 5)
      leader
      answer
      2
      (send_request parse reply (λ t. 0) (pos 5) sender)
send_request_finds_leader_example =
    send_request_finds_leader parse reply (λ t. 0) (pos 5) leader answer sender refl (refl, refl)
      elected (ground arith) (ground arith)
