-- ===== src/Client/Sender/Retries.antt =====
-- DiscoverySender::send_request: the loop ends, after as many calls as it may make.
use ea.Common.{ℕ, zero, suc, ◌+◌, ◌≤◌, ◌≢◌, Option, arith, Bool-cases, Option-cases, inl, inr}
use ea.Common.Bytes.{Bytes}
use ea.Common.Int.{ℤ, pos, ltb_ℤ, pos_part}
use ea.Client.Sender.{
  EndPoint, Sender, Reply, Sent, running, address_of, after_reply, send_loop, send_request,
  rounds_of,
}

module _ (str2endpoint : Bytes → Option EndPoint) (call : ℕ → EndPoint → Reply) (rand : ℕ → ℕ)
    (retry_times : ℤ) where
  -- The loop has ended, and made at most `fuel` calls.
  abbrev pub Ends : ℕ → Sender × Sent × ℕ → Type 0
  Ends fuel result = (result.1 ≢ running) × (result.2 ≤ fuel)

  send_loop-Ends :
      (fuel retry_time : ℕ) (s : Sender)
      → pos_part retry_times ≤ retry_time + fuel
      → 1 ≤ fuel
      → Ends fuel (send_loop str2endpoint call rand retry_times fuel retry_time s)
  unfolding send_loop
  send_loop-Ends zero retry_time s h one = ground arith
  send_loop-Ends (suc fuel) retry_time s h one =
      elim (Option-cases (address_of s (rand retry_time))) [
        | inl e ↦ rw (send_loop, e) (λ x. ground arith, ground arith)
        | inr (address, e) ↦
            let next = (after_reply str2endpoint s address (call retry_time address)).0 in
            elim (Option-cases (after_reply str2endpoint s address (call retry_time address)).1) [
              | inr (response, f) ↦ rw (send_loop, e, f) (λ x. ground arith, ground arith)
              | inl f ↦ elim (Bool-cases (ltb_ℤ (pos (retry_time + 1)) retry_times)) [
                | inr g ↦ rw (send_loop, e, f, g) (λ x. ground arith, ground arith)
                | inl g ↦
                    let rest =
                      send_loop-Ends fuel (retry_time + 1) next (ground arith) (ground arith) in
                    rw (send_loop, e, f, g) (rest.0, ground (arith, rest.1))
              ]
            ]
      ]

  -- send_request ends, after at most as many calls as it has retries (and one where that is not positive), and
  -- by then it has an answer, gives up, or has no node to try: whatever the servers answer, and for
  -- any start.
  pub send_request-Ends :
      (s : Sender)
      → Ends
          (rounds_of str2endpoint call rand retry_times)
          (send_request str2endpoint call rand retry_times s)
  unfolding send_request
  send_request-Ends s =
      send_loop-Ends (rounds_of str2endpoint call rand retry_times) 0 s (ground arith)
        (ground arith)
