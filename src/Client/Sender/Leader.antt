-- ===== src/Client/Sender/Leader.antt =====
-- DiscoverySender::send_request: how the leader is found.
use ea.Common.{
  ℕ, zero, suc, ◌+◌, ◌%◌, ◌≤◌, ◌<◌, ◌≡◌, ◌∙◌, ◌⊎◌, refl, sym, ap, true, false, ◌==◌, nat_eq, Option,
  none, some, List, [], ◌∷◌, arith, Bool-cases, inl, inr, get_or,
}
use mathlib.Core.Option.{some-injective}
use ea.Common.Bytes.{Bytes}
use ea.Common.Int.{ℤ, pos, ltb_ℤ, pos_part}
use ea.Api.{ManagerResponse, not_leader}
use ea.Client.Sender.{
  EndPoint, Sender, Reply, replied, Sent, ok, size, node_at, is_not_leader, is_have_not_init,
  address_of, after_reply, send_loop, set_leader_address, redirect, remember, send_request,
  rounds_of,
}

-- An answer that ends the loop.
abbrev pub IsFinal : ManagerResponse → Type 0
IsFinal r = (is_not_leader r.errcode ≡ false) × (is_have_not_init r.errcode ≡ false)

-- The answer of a server that does not lead, and names the leader.
abbrev pub Redirects : (Bytes → Option EndPoint) → EndPoint → ManagerResponse → Type 0
Redirects str2endpoint leader r =
    (r.errcode ≡ some not_leader) × (str2endpoint (get_or r.leader []) ≡ some leader)

node_at-some :
    (i : ℕ) (nodes : List EndPoint) → i < size nodes → (n : EndPoint) × (node_at i nodes ≡ some n)
node_at-some i [] h = ground arith
node_at-some zero (n ∷ nodes) h = (n, refl)
node_at-some (suc i) (n ∷ nodes) h = node_at-some i nodes (ground arith)

-- A sender that has a node, or knows an address, has an address to try.
has_address :
    (s : Sender) (seed : ℕ)
    → 1 ≤ size s.servlet_nodes
    → (a : EndPoint) × (address_of s seed ≡ some a)
unfolding address_of
has_address s seed h = elim (Bool-cases (s.master_leader_address.ip == 0)) [
  | inl e ↦ rw e (node_at-some (seed % size s.servlet_nodes) s.servlet_nodes (ground arith))
  | inr e ↦ rw e (s.master_leader_address, refl)
]

two_more : (n : ℕ) → 2 ≤ n → (k : ℕ) × (n ≡ suc (suc k))
two_more zero h = ground arith
two_more (suc zero) h = ground arith
two_more (suc (suc k)) h = (k, refl)

master :
    (s : Sender) (seed : ℕ)
    → (s.master_leader_address.ip == 0) ≡ false
    → address_of s seed ≡ some s.master_leader_address
unfolding address_of
master s seed e = rw e refl

module _ (str2endpoint : Bytes → Option EndPoint) (call : ℕ → EndPoint → Reply) (rand : ℕ → ℕ)
    (retry_times : ℤ) (leader : EndPoint) (r : ManagerResponse) where
  -- The leader answers with `r`, and every other server redirects to the leader.
  abbrev pub Elected : Type 0
  Elected =
      ((t : ℕ) → call t leader ≡ replied r)
      × ((t : ℕ) (a : EndPoint)
          → (a ≡ leader)
            ⊎ ((q : ManagerResponse) × (call t a ≡ replied q) × Redirects str2endpoint leader q))

  -- The sender knows the leader after a success at its address.
  remember-leader :
      (s : Sender) (seed : ℕ)
      → (leader.ip == 0) ≡ false
      → address_of s seed ≡ some leader
      → (remember str2endpoint s leader).master_leader_address ≡ leader
  unfolding address_of remember set_leader_address
  remember-leader s seed known e = elim (Bool-cases (s.master_leader_address.ip == 0)) [
    | inl f ↦ rw (remember, f, known) refl
    | inr f ↦
        rw (remember, f) (some-injective s.master_leader_address leader (sym (master s seed f) ∙ e))
  ]

  after_leader :
      (s : Sender) (t : ℕ)
      → IsFinal r
      → call t leader ≡ replied r
      → after_reply str2endpoint s leader (call t leader) ≡ (remember str2endpoint s leader, some r)
  unfolding after_reply
  after_leader s t final e = rw (e, final.1, final.0) refl

  after_redirect :
      (s : Sender) (t : ℕ) (a : EndPoint) (q : ManagerResponse)
      → call t a ≡ replied q
      → Redirects str2endpoint leader q
      → after_reply str2endpoint s a (call t a) ≡ (set_leader_address s leader, none)
  unfolding after_reply redirect
  after_redirect s t a q e h = rw (e, h.0, h.1) refl

  round_leader :
      (fuel t : ℕ) (s : Sender)
      → IsFinal r
      → call t leader ≡ replied r
      → address_of s (rand t) ≡ some leader
      → send_loop str2endpoint call rand retry_times (suc fuel) t s
        ≡ (remember str2endpoint s leader, ok r, 1)
  unfolding send_loop
  round_leader fuel t s final e a =
      let after = after_leader s t final e in
      rw (send_loop, a, ap (λ x. x.1) after, ap (λ x. x.0) after) refl

  round_redirect :
      (fuel t : ℕ) (s : Sender) (a : EndPoint) (q : ManagerResponse)
      → address_of s (rand t) ≡ some a
      → call t a ≡ replied q
      → Redirects str2endpoint leader q
      → ltb_ℤ (pos (t + 1)) retry_times ≡ true
      → let rest =
          send_loop str2endpoint call rand retry_times fuel (t + 1) (set_leader_address s leader) in
        send_loop str2endpoint call rand retry_times (suc fuel) t s ≡ (rest.0, rest.1, rest.2 + 1)
  unfolding send_loop
  round_redirect fuel t s a q e f h more =
      let after = after_redirect s t a q f h in
      rw (send_loop, e, ap (λ x. x.1) after, ap (λ x. x.0) after, more) refl

  known_address :
      (s : Sender) (seed : ℕ)
      → (leader.ip == 0) ≡ false
      → address_of (set_leader_address s leader) seed ≡ some leader
  unfolding address_of set_leader_address
  known_address s seed known = rw known refl

  -- The leader is found, with at most `n` calls.
  abbrev pub Found : ℕ → Sender × Sent × ℕ → Type 0
  Found n result = (result.1 ≡ ok r) × (result.0.master_leader_address ≡ leader) × (result.2 ≤ n)

  round-Found :
      (fuel t : ℕ) (s : Sender)
      → (leader.ip == 0) ≡ false
      → IsFinal r
      → Elected
      → address_of s (rand t) ≡ some leader
      → Found 1 (send_loop str2endpoint call rand retry_times (suc fuel) t s)
  round-Found fuel t s known final h e =
      rw (round_leader fuel t s final (h.0 t) e)
        (refl, remember-leader s (rand t) known e, ground arith)

  rounds-Found :
      (fuel : ℕ) (s : Sender)
      → (leader.ip == 0) ≡ false
      → IsFinal r
      → Elected
      → 1 ≤ size s.servlet_nodes
      → 2 ≤ pos_part retry_times
      → Found 2 (send_loop str2endpoint call rand retry_times (suc (suc fuel)) 0 s)
  rounds-Found fuel s known final h some_node twice =
      let (a, e) = has_address s (rand 0) some_node in
      elim (h.1 0 a) [
        | inl same ↦
            let found = round-Found (suc fuel) 0 s known final h (e ∙ ap some same) in
            (found.0, found.1, ground (arith, found.2))
        | inr (q, f, g) ↦
            let found =
              round-Found fuel 1 (set_leader_address s leader) known final h
                (known_address s (rand 1) known) in
            rw (round_redirect (suc fuel) 0 s a q e f g (ground arith))
              (found.0, found.1, ground (arith, found.2))
      ]

  -- Where one server leads and answers, and the others redirect to it, a sender that may try twice gets the
  -- leader's answer with at most two calls and knows the leader from then on: whether it knew the
  -- leader, an old one or none, and whichever node it starts with.
  pub send_request_finds_leader :
      (s : Sender)
      → (leader.ip == 0) ≡ false
      → IsFinal r
      → Elected
      → 1 ≤ size s.servlet_nodes
      → 2 ≤ pos_part retry_times
      → Found 2 (send_request str2endpoint call rand retry_times s)
  unfolding send_request
  send_request_finds_leader s known final h some_node twice =
      let (fuel, e) = two_more (rounds_of str2endpoint call rand retry_times) (ground arith) in
      rw e (rounds-Found fuel s known final h some_node twice)
